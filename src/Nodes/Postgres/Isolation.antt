-- ===== src/Nodes/Postgres/Isolation.antt =====
-- What `Get` gives: nodes of the Space only, and never one that was trashed.
use goreecloud_drive.Prelude.{
  ◌≡◌, ◌≢◌, refl, sym, subst, ◌∙◌, Bool, true, false, none, some, List, [], ◌∷◌, arith, inl, inr,
  Option-cases, Bool-cases,
}
use goreecloud_drive.Prelude.Text.{Str, ==_iff}
use goreecloud_drive.Errors.{ok}
use goreecloud_drive.Sql.{Outcome, fine, refused, lost}
use goreecloud_drive.Wardveil.Types.{Time}
use goreecloud_drive.Nodes.{Node}
use goreecloud_drive.Nodes.Rows.{
  NodeRow, NodeTable, NodeDatabase, has_id, has_node, is_target, find_target, next_statement,
  missing, update_target, renamed, trashed,
}
use goreecloud_drive.Nodes.Postgres.{
  scan_node, returning, updating, rename_allowed, store_get, store_create, store_rename,
  store_trash,
}
use goreecloud_drive.Nodes.Postgres.Sound.{
  NodeStep, listing, getting, creating, renaming_to, trashing, node_step, node_steps, KeepsPlace,
  create_leaves, has_node-update_target, updating_leaves, list_keeps, get_keeps,
}

-- A node that is there, and not among the live ones.
pub record IsGone (space id : Str) (nodes : List NodeRow) : Type 0 where
  pub there : has_node space id nodes ≡ true
  pub unseen : find_target space id nodes ≡ none

has_node-has_id :
    (space id : Str) (nodes : List NodeRow)
    → has_node space id nodes ≡ true
    → has_id id nodes ≡ true
unfolding has_node has_id
has_node-has_id space id [] h = absurd (ground arith)
has_node-has_id space id (row ∷ rows) h = ground (arith, has_node-has_id space id rows)

find_target-has_node :
    (space id : Str) (nodes : List NodeRow) (row : NodeRow)
    → find_target space id nodes ≡ some row
    → has_node space id nodes ≡ true
unfolding has_node find_target is_target
find_target-has_node space id [] row h = absurd (ground arith)
find_target-has_node space id (r ∷ rows) row h =
    ground (arith, find_target-has_node space id rows row)

-- A target that is changed into a trashed row is no target any more.
find_target-trashed :
    (space id : Str) (now : Time) (nodes : List NodeRow)
    → find_target space id (update_target space id (trashed now) nodes) ≡ none
unfolding find_target update_target is_target
find_target-trashed space id now [] = refl
find_target-trashed space id now (row ∷ rows) = elim (Bool-cases (is_target space id row)) [
  | inl hit ↦ ground (arith, find_target-trashed space id now rows)
  | inr miss ↦ ground (arith, find_target-trashed space id now rows)
]

-- No UPDATE brings a target back.
find_target-update_target :
    (space id sp key : Str) (change : NodeRow → NodeRow) (nodes : List NodeRow)
    → KeepsPlace change
    → find_target space id nodes ≡ none
    → find_target space id (update_target sp key change nodes) ≡ none
unfolding find_target update_target is_target
find_target-update_target space id sp key change [] keeps h = refl
find_target-update_target space id sp key change (row ∷ rows) keeps h =
    elim (Bool-cases (is_target sp key row)) [
      | inr miss ↦ ground (arith, find_target-update_target space id sp key change rows keeps)
      | inl hit ↦ ground (
        arith,
        keeps.id row,
        keeps.space row,
        find_target-update_target space id sp key change rows keeps,
      )
    ]

module _ (db : NodeDatabase) (space id : Str) where
  update_target-IsGone :
      (sp key : Str) (change : NodeRow → NodeRow) (nodes : List NodeRow)
      → KeepsPlace change
      → IsGone space id nodes
      → IsGone space id (update_target sp key change nodes)
  update_target-IsGone sp key change nodes keeps h = record {
    there = has_node-update_target sp key space id change nodes keeps.id keeps.space ∙ h.there;
    unseen = find_target-update_target space id sp key change nodes keeps h.unseen;
  }

  updating-IsGone :
      (space_id node_id : Str) (change : Time → NodeRow → NodeRow)
      → (constraint : NodeRow → List NodeRow → Bool) (t : NodeTable)
      → ((now : Time) → KeepsPlace (change now))
      → IsGone space id t.nodes
      → IsGone space id (updating db space_id node_id change constraint t).1.nodes
  updating-IsGone space_id node_id change constraint t keeps h =
      elim (updating_leaves db space_id node_id change constraint t) [
        | inl same ↦ subst (IsGone space id) (sym same) h
        | inr (sp, key, now, _, _, changed) ↦
            subst (IsGone space id) (sym changed)
              (update_target-IsGone sp key (change now) t.nodes (keeps now) h)
      ]

  create-IsGone :
      (node : Node) (t : NodeTable)
      → IsGone space id t.nodes
      → IsGone space id (store_create db node t).1.nodes
  unfolding has_node find_target is_target
  create-IsGone node t h = elim (create_leaves db node t) [
    | inl same ↦ subst (IsGone space id) (sym same) h
    | inr (row, allowed, more) ↦ subst (IsGone space id) (sym more) (fresh row (ground arith))
  ]
    where
      fresh : (row : NodeRow) → has_id row.id t.nodes ≡ false → IsGone space id (row ∷ t.nodes)
      fresh row unused = record {
        there = ground (arith, h.there);
        unseen =
            ground (arith, h.unseen, has_node-has_id space id t.nodes h.there, ==_iff row.id id);
      }

  node_step-IsGone :
      (s : NodeStep) (t : NodeTable)
      → IsGone space id t.nodes
      → IsGone space id (node_step db s t).nodes
  unfolding node_step store_rename store_trash
  node_step-IsGone (listing sp parent) t h =
      subst (IsGone space id) (sym (list_keeps db sp parent t)) h
  node_step-IsGone (getting sp key) t h = subst (IsGone space id) (sym (get_keeps db sp key t)) h
  node_step-IsGone (creating node) t h = create-IsGone node t h
  node_step-IsGone (renaming_to sp key name) t h =
      updating-IsGone sp key (renamed name) (rename_allowed db) t
        (λ now. record { id = λ row. refl; space = λ row. refl; parent = λ row. refl }) h
  node_step-IsGone (trashing sp key) t h =
      updating-IsGone sp key trashed (λ row nodes. true) t
        (λ now. record { id = λ row. refl; space = λ row. refl; parent = λ row. refl }) h

  node_steps-IsGone :
      (steps : List NodeStep) (t : NodeTable)
      → IsGone space id t.nodes
      → IsGone space id (node_steps db steps t).nodes
  unfolding node_steps
  node_steps-IsGone [] t h = h
  node_steps-IsGone (s ∷ steps) t h =
      node_steps-IsGone steps (node_step db s t) (node_step-IsGone s t h)

module _ (db : NodeDatabase) (space_id node_id : Str) where
  missing_fails : (o : Outcome) (t : NodeTable) (node : Node) → (missing o t).0 ≢ ok node
  missing_fails fine t node h = absurd (ground arith)
  missing_fails refused t node h = absurd (ground arith)
  missing_fails lost t node h = absurd (ground arith)

  returning_ok :
      (o : Outcome) (row : NodeRow) (nodes : List NodeRow) (t : NodeTable) (node : Node)
      → (returning db o row nodes t).0 ≡ ok node
      → (returning db o row nodes t).1.nodes ≡ nodes
  returning_ok fine row nodes t node h = refl
  returning_ok refused row nodes t node h = absurd (ground arith)
  returning_ok lost row nodes t node h = absurd (ground arith)

  -- A trash that succeeds trashed the live row of the node.
  trash-IsGone :
      (t : NodeTable) (node : Node)
      → (store_trash db space_id node_id t).0 ≡ ok node
      → (space : Str) × (id : Str) × (db.uuid_in space_id ≡ some space)
        × (db.uuid_in node_id ≡ some id)
        × IsGone space id (store_trash db space_id node_id t).1.nodes
  unfolding store_trash updating
  trash-IsGone t node h = elim (Option-cases (db.uuid_in space_id)) [
    | inl bad ↦ absurd (ground arith)
    | inr (space, a) ↦ elim (Option-cases (db.uuid_in node_id)) [
      | inl bad ↦ absurd (ground arith)
      | inr (id, b) ↦ elim (Option-cases (find_target space id t.nodes)) [
        | inl none_there ↦
            absurd (missing_fails (next_statement t).0 (next_statement t).2 node (ground arith))
        | inr (row, found) ↦
            let now = (next_statement t).1 in
            let rows = update_target space id (trashed now) t.nodes in
            let written =
              returning_ok (next_statement t).0 (trashed now row) rows (next_statement t).2 node
                (ground arith) in
            let whole : (store_trash db space_id node_id t).1.nodes ≡ rows = ground arith in
            (
              space,
              id,
              a,
              b,
              subst (IsGone space id) (sym whole) (record {
                there =
                    has_node-update_target space id space id (trashed now) t.nodes (λ r. refl)
                      (λ r. refl)
                    ∙ find_target-has_node space id t.nodes row found;
                unseen = find_target-trashed space id now t.nodes;
              }),
            )
      ]
    ]
  ]

  -- `Get` answers with a live row of the Space and ID that it is asked for.
  get_live :
      (t : NodeTable) (node : Node)
      → (store_get db space_id node_id t).0 ≡ ok node
      → (space : Str) × (id : Str) × (row : NodeRow) × (db.uuid_in space_id ≡ some space)
        × (db.uuid_in node_id ≡ some id)
        × (find_target space id t.nodes ≡ some row)
        × (node ≡ scan_node db row)
  unfolding store_get
  get_live t node h = elim (Option-cases (db.uuid_in space_id)) [
    | inl bad ↦ absurd (ground arith)
    | inr (space, a) ↦ elim (Option-cases (db.uuid_in node_id)) [
      | inl bad ↦ absurd (ground arith)
      | inr (id, b) ↦ elim (Option-cases (find_target space id t.nodes)) [
        | inl none_there ↦ absurd (ground arith)
        | inr (row, found) ↦ (space, id, row, a, b, found, ground arith)
      ]
    ]
  ]

  -- A node that a Trash has answered for is never given by a Get again, in its Space, whatever statements
  -- come between and whichever of them fail.
  pub trashed_stays_hidden :
      (t : NodeTable) (node : Node) (steps : List NodeStep) (found : Node)
      → (store_trash db space_id node_id t).0 ≡ ok node
      → (store_get db space_id node_id
          (node_steps db steps (store_trash db space_id node_id t).1)).0
        ≢ ok found
  trashed_stays_hidden t node steps found h got =
      let (space, id, a, b, gone) = trash-IsGone t node h in
      let (space', id', row, a', b', there, _) =
        get_live (node_steps db steps (store_trash db space_id node_id t).1) found got in
      let still = node_steps-IsGone db space id steps (store_trash db space_id node_id t).1 gone in
      ground (arith, still.unseen)
