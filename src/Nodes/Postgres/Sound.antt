-- ===== src/Nodes/Postgres/Sound.antt =====
-- The invariant of the table of nodes, over any sequence of the store's statements.
use goreecloud_drive.Prelude.{
  ◌≡◌, refl, sym, subst, ◌∙◌, Bool, true, false, Option, none, some, List, [], ◌∷◌, All, ◌⊎◌, arith,
  inl, inr, ◌⊎◌, Option-cases, Bool-cases,
}
use goreecloud_drive.Prelude.Text.{Str}
use goreecloud_drive.Sql.{Outcome, fine, refused, lost}
use goreecloud_drive.Wardveil.Types.{Time}
use goreecloud_drive.Nodes.{Node}
use goreecloud_drive.Nodes.Rows.{
  NodeRow, NodeTable, NodeDatabase, has_id, has_node, is_target, find_target, parent_there,
  update_target, renamed, trashed, next_statement, missing,
}
use goreecloud_drive.Nodes.Postgres.{
  insert_allowed, node_row, updating, rename_allowed, store_list, store_get, store_create,
  store_rename, store_trash, returning,
}

-- The statements of the store.
pub data NodeStep : Type 0 where
  listing : Str → Option Str → NodeStep
  creating : Node → NodeStep
  renaming_to : Str → Str → Str → NodeStep
  getting trashing : Str → Str → NodeStep

-- No two rows have one ID.
abbrev pub HasKeys : List NodeRow → Type 0
HasKeys [] = Unit
HasKeys (row ∷ rows) = (has_id row.id rows ≡ false) × HasKeys rows

-- The parent of a row is a node of the row's Space.
abbrev pub HasParent : List NodeRow → NodeRow → Type 0
HasParent nodes row = parent_there row.space_id row.parent_id nodes ≡ true

-- What the table promises.
pub record IsSound (nodes : List NodeRow) : Type 0 where
  pub keys : HasKeys nodes
  pub parents : All (HasParent nodes) nodes

has_id-update_target :
    (space id key : Str) (change : NodeRow → NodeRow) (nodes : List NodeRow)
    → ((row : NodeRow) → (change row).id ≡ row.id)
    → has_id key (update_target space id change nodes) ≡ has_id key nodes
unfolding update_target has_id
has_id-update_target space id key change [] same = refl
has_id-update_target space id key change (row ∷ rows) same =
    ground (arith, same row, has_id-update_target space id key change rows same)

pub has_node-update_target :
    (space id sp key : Str) (change : NodeRow → NodeRow) (nodes : List NodeRow)
    → ((row : NodeRow) → (change row).id ≡ row.id)
    → ((row : NodeRow) → (change row).space_id ≡ row.space_id)
    → has_node sp key (update_target space id change nodes) ≡ has_node sp key nodes
unfolding update_target has_node
has_node-update_target space id sp key change [] same_id same_space = refl
has_node-update_target space id sp key change (row ∷ rows) same_id same_space = ground (
  arith,
  same_id row,
  same_space row,
  has_node-update_target space id sp key change rows same_id same_space,
)

-- A change that leaves a row's place in the tree.
pub record KeepsPlace (change : NodeRow → NodeRow) : Type 0 where
  pub id : (row : NodeRow) → (change row).id ≡ row.id
  pub space : (row : NodeRow) → (change row).space_id ≡ row.space_id
  pub parent : (row : NodeRow) → (change row).parent_id ≡ row.parent_id

module _ (space id : Str) (change : NodeRow → NodeRow) (keeps : KeepsPlace change) where
  update_target-HasKeys :
      (nodes : List NodeRow) → HasKeys nodes → HasKeys (update_target space id change nodes)
  unfolding update_target
  update_target-HasKeys [] keys = tt
  update_target-HasKeys (row ∷ rows) keys = (
    ground (arith, keeps.id row, has_id-update_target space id row.id change rows keeps.id),
    update_target-HasKeys rows keys.1,
  )

  parent_there-update_target :
      (sp : Str) (parent : Option Str) (nodes : List NodeRow)
      → parent_there sp parent (update_target space id change nodes) ≡ parent_there sp parent nodes
  parent_there-update_target sp none nodes = refl
  parent_there-update_target sp (some p) nodes =
      has_node-update_target space id sp p change nodes keeps.id keeps.space

  update_target-parents :
      (all nodes : List NodeRow)
      → All (HasParent all) nodes
      → All (HasParent (update_target space id change all)) (update_target space id change nodes)
  unfolding update_target
  update_target-parents all [] h = tt
  update_target-parents all (row ∷ rows) h = (
    elim (Bool-cases (is_target space id row)) [
      | inl hit ↦ rw hit (
          rw (keeps.space row, keeps.parent row)
            (parent_there-update_target row.space_id row.parent_id all ∙ h.0))
      | inr miss ↦ rw miss (parent_there-update_target row.space_id row.parent_id all ∙ h.0)
    ],
    update_target-parents all rows h.1,
  )

  update_target-IsSound :
      (nodes : List NodeRow) → IsSound nodes → IsSound (update_target space id change nodes)
  update_target-IsSound nodes h = record {
    keys = update_target-HasKeys nodes h.keys;
    parents = update_target-parents nodes nodes h.parents;
  }

-- More rows keep the parents that are there.
parent_there-cons :
    (row : NodeRow) (space : Str) (parent : Option Str) (all : List NodeRow)
    → parent_there space parent all ≡ true
    → parent_there space parent (row ∷ all) ≡ true
unfolding has_node
parent_there-cons row space none all h = refl
parent_there-cons row space (some p) all h = ground arith

cons-parents :
    (row : NodeRow) (all nodes : List NodeRow)
    → All (HasParent all) nodes
    → All (HasParent (row ∷ all)) nodes
cons-parents row all [] h = tt
cons-parents row all (r ∷ rows) h =
    (parent_there-cons row r.space_id r.parent_id all h.0, cons-parents row all rows h.1)

module _ (db : NodeDatabase) where
  -- The state after a statement.
  unfoldable pub node_step : NodeStep → NodeTable → NodeTable
  node_step (listing space_id parent_id) t = (store_list db space_id parent_id t).1
  node_step (getting space_id node_id) t = (store_get db space_id node_id t).1
  node_step (creating node) t = (store_create db node t).1
  node_step (renaming_to space_id node_id name) t = (store_rename db space_id node_id name t).1
  node_step (trashing space_id node_id) t = (store_trash db space_id node_id t).1

  unfoldable pub node_steps : List NodeStep → NodeTable → NodeTable
  unfolding node_step
  node_steps [] t = t
  node_steps (s ∷ steps) t = node_steps steps (node_step s t)

  statement_keeps : (t : NodeTable) → (next_statement t).2.nodes ≡ t.nodes
  unfolding next_statement
  statement_keeps t = go t.schedule
    where
      go :
          (schedule : List (Outcome × Time))
          → (next_statement (record t { schedule = schedule })).2.nodes ≡ t.nodes
      go [] = refl
      go ((o, now) ∷ later) = refl

  returning_leaves :
      (o : Outcome) (row : NodeRow) (nodes : List NodeRow) (t : NodeTable)
      → ((returning db o row nodes t).1.nodes ≡ t.nodes)
        ⊎ ((returning db o row nodes t).1.nodes ≡ nodes)
  returning_leaves fine row nodes t = inr refl
  returning_leaves refused row nodes t = inl refl
  returning_leaves lost row nodes t = inr refl

  missing_leaves : (o : Outcome) (t : NodeTable) → (missing o t).1 ≡ t
  missing_leaves fine t = refl
  missing_leaves refused t = refl
  missing_leaves lost t = refl

  pub create_leaves :
      (node : Node) (t : NodeTable)
      → ((store_create db node t).1.nodes ≡ t.nodes)
        ⊎ ((row : NodeRow) × (insert_allowed db row t.nodes ≡ true)
            × ((store_create db node t).1.nodes ≡ row ∷ t.nodes))
  unfolding store_create
  create_leaves node t =
      let (o, now, t') = next_statement t in
      elim (Option-cases (node_row db now node)) [
        | inl bad ↦ inl (ground (arith, statement_keeps t))
        | inr (row, made) ↦ elim (Bool-cases (insert_allowed db row t.nodes)) [
          | inr forbidden ↦ inl (ground (arith, statement_keeps t))
          | inl allowed ↦ elim (returning_leaves o row (row ∷ t.nodes) t') [
            | inl same ↦ inl (ground (arith, statement_keeps t))
            | inr more ↦ inr (row, allowed, ground arith)
          ]
        ]
      ]

  pub updating_leaves :
      (space_id node_id : Str) (change : Time → NodeRow → NodeRow)
      → (constraint : NodeRow → List NodeRow → Bool) (t : NodeTable)
      → ((updating db space_id node_id change constraint t).1.nodes ≡ t.nodes)
        ⊎ ((space : Str) × (id : Str) × (now : Time) × (db.uuid_in space_id ≡ some space)
            × (db.uuid_in node_id ≡ some id)
            × ((updating db space_id node_id change constraint t).1.nodes
                ≡ update_target space id (change now) t.nodes))
  unfolding updating
  updating_leaves space_id node_id change constraint t =
      let (o, now, t') = next_statement t in
      elim (Option-cases (db.uuid_in space_id)) [
        | inl bad ↦ inl (ground (arith, statement_keeps t))
        | inr (space, a) ↦ elim (Option-cases (db.uuid_in node_id)) [
          | inl bad ↦ inl (ground (arith, statement_keeps t))
          | inr (id, b) ↦ elim (Option-cases (find_target space id t.nodes)) [
            | inl none_there ↦ inl (ground (arith, statement_keeps t, missing_leaves o t'))
            | inr (row, found) ↦ elim (Bool-cases (constraint (change now row) t.nodes)) [
              | inr forbidden ↦ inl (ground (arith, statement_keeps t))
              | inl allowed ↦
                  elim (returning_leaves o (change now row)
                    (update_target space id (change now) t.nodes) t') [
                      | inl same ↦ inl (ground (arith, statement_keeps t))
                      | inr more ↦ inr (space, id, now, a, b, ground arith)
                    ]
            ]
          ]
        ]
      ]

  updating-IsSound :
      (space_id node_id : Str) (change : Time → NodeRow → NodeRow)
      → (constraint : NodeRow → List NodeRow → Bool) (t : NodeTable)
      → ((now : Time) → KeepsPlace (change now))
      → IsSound t.nodes
      → IsSound (updating db space_id node_id change constraint t).1.nodes
  updating-IsSound space_id node_id change constraint t keeps h =
      elim (updating_leaves space_id node_id change constraint t) [
        | inl same ↦ subst IsSound (sym same) h
        | inr (space, id, now, _, _, changed) ↦
            subst IsSound (sym changed)
              (update_target-IsSound space id (change now) (keeps now) t.nodes h)
      ]

  create-IsSound :
      (node : Node) (t : NodeTable) → IsSound t.nodes → IsSound (store_create db node t).1.nodes
  create-IsSound node t h = elim (create_leaves node t) [
    | inl same ↦ subst IsSound (sym same) h
    | inr (row, allowed, more) ↦ subst IsSound (sym more) (record {
      keys = (ground arith, h.keys);
      parents = (
        parent_there-cons row row.space_id row.parent_id t.nodes (ground arith),
        cons-parents row t.nodes t.nodes h.parents,
      );
    })
  ]

  -- The two statements that only read.
  pub list_keeps :
      (space_id : Str) (parent_id : Option Str) (t : NodeTable)
      → (store_list db space_id parent_id t).1.nodes ≡ t.nodes
  unfolding store_list
  list_keeps space_id parent_id t = ground (arith, statement_keeps t)

  pub get_keeps :
      (space_id node_id : Str) (t : NodeTable) → (store_get db space_id node_id t).1.nodes ≡ t.nodes
  unfolding store_get
  get_keeps space_id node_id t = ground (arith, statement_keeps t)

  node_step-IsSound :
      (s : NodeStep) (t : NodeTable) → IsSound t.nodes → IsSound (node_step s t).nodes
  unfolding node_step store_rename store_trash
  node_step-IsSound (listing sp parent) t h = subst IsSound (sym (list_keeps sp parent t)) h
  node_step-IsSound (getting sp id) t h = subst IsSound (sym (get_keeps sp id t)) h
  node_step-IsSound (creating node) t h = create-IsSound node t h
  node_step-IsSound (renaming_to sp id name) t h =
      updating-IsSound sp id (renamed name) (rename_allowed db) t
        (λ now. record { id = λ row. refl; space = λ row. refl; parent = λ row. refl }) h
  node_step-IsSound (trashing sp id) t h =
      updating-IsSound sp id trashed (λ row nodes. true) t
        (λ now. record { id = λ row. refl; space = λ row. refl; parent = λ row. refl }) h

  -- Over any sequence of the store's statements, whatever fails, a sound table stays sound: no two rows
  -- have one ID, and the parent of each row, if it has one, is a row of the same Space.
  pub node_steps-IsSound :
      (steps : List NodeStep) (t : NodeTable) → IsSound t.nodes → IsSound (node_steps steps t).nodes
  unfolding node_steps
  node_steps-IsSound [] t h = h
  node_steps-IsSound (s ∷ steps) t h =
      node_steps-IsSound steps (node_step s t) (node_step-IsSound s t h)
