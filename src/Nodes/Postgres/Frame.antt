-- ===== src/Nodes/Postgres/Frame.antt =====
-- internal/postgres/store.go: the rows that the statements leave alone.
use goreecloud_drive.Prelude.{
  ◌≡◌, sym, subst, Bool, true, false, none, some, List, [], ◌∷◌, All, arith, inl, inr, Bool-cases,
}
use goreecloud_drive.Prelude.Text.{Str, ==_iff}
use goreecloud_drive.Wardveil.Types.{Time}
use goreecloud_drive.Nodes.{Node}
use goreecloud_drive.Nodes.Rows.{
  NodeRow, NodeTable, NodeDatabase, is_target, update_target, renamed, trashed,
}
use goreecloud_drive.Nodes.Postgres.{
  updating, rename_allowed, store_create, store_rename, store_trash,
}
use goreecloud_drive.Nodes.Postgres.Sound.{
  NodeStep, listing, getting, creating, renaming_to, trashing, node_step, node_steps, create_leaves,
  updating_leaves, list_keeps, get_keeps,
}

-- The very row is in the table.
pub data Has (row : NodeRow) : List NodeRow → Type 0 where
  here : (rows : List NodeRow) → Has row (row ∷ rows)
  there : (other : NodeRow) (rows : List NodeRow) → Has row rows → Has row (other ∷ rows)

module _ (db : NodeDatabase) (row : NodeRow) where
  -- The row is live, and it is the one that a Space and an ID name.
  abbrev pub IsNamed : Str → Str → Type 0
  IsNamed space_id node_id =
      (row.trashed_at ≡ none)
      × (db.uuid_in space_id ≡ some row.space_id)
      × (db.uuid_in node_id ≡ some row.id)

  -- A statement that is not a Rename or a Trash of the row while it is live.
  abbrev pub IsElsewhere : NodeStep → Type 0
  IsElsewhere (listing space_id parent_id) = Unit
  IsElsewhere (getting space_id node_id) = Unit
  IsElsewhere (creating node) = Unit
  IsElsewhere (renaming_to space_id node_id name) = ¬ IsNamed space_id node_id
  IsElsewhere (trashing space_id node_id) = ¬ IsNamed space_id node_id

  update_target-Has :
      (space id : Str) (change : NodeRow → NodeRow) (nodes : List NodeRow)
      → is_target space id row ≡ false
      → Has row nodes
      → Has row (update_target space id change nodes)
  unfolding update_target
  update_target-Has space id change _ miss (here rows) =
      rw miss (here (update_target space id change rows))
  update_target-Has space id change _ miss (there other rows has) =
      there _ (update_target space id change rows) (update_target-Has space id change rows miss has)

  target-IsNamed :
      (space_id node_id space id : Str)
      → db.uuid_in space_id ≡ some space
      → db.uuid_in node_id ≡ some id
      → is_target space id row ≡ true
      → IsNamed space_id node_id
  unfolding is_target
  target-IsNamed space_id node_id space id a b hit =
      (ground arith, ground (arith, ==_iff row.space_id space), ground (arith, ==_iff row.id id))

  updating-Has :
      (space_id node_id : Str) (change : Time → NodeRow → NodeRow)
      → (constraint : NodeRow → List NodeRow → Bool) (t : NodeTable) → ¬ IsNamed space_id node_id
      → Has row t.nodes
      → Has row (updating db space_id node_id change constraint t).1.nodes
  updating-Has space_id node_id change constraint t elsewhere has =
      elim (updating_leaves db space_id node_id change constraint t) [
        | inl same ↦ subst (Has row) (sym same) has
        | inr (space, id, now, a, b, changed) ↦ elim (Bool-cases (is_target space id row)) [
          | inl hit ↦ absurd (elsewhere (target-IsNamed space_id node_id space id a b hit))
          | inr miss ↦
              subst (Has row) (sym changed)
                (update_target-Has space id (change now) t.nodes miss has)
        ]
      ]

  create-Has :
      (node : Node) (t : NodeTable) → Has row t.nodes → Has row (store_create db node t).1.nodes
  create-Has node t has = elim (create_leaves db node t) [
    | inl same ↦ subst (Has row) (sym same) has
    | inr (new, allowed, more) ↦ subst (Has row) (sym more) (there new t.nodes has)
  ]

  node_step-Has :
      (s : NodeStep) (t : NodeTable)
      → IsElsewhere s
      → Has row t.nodes
      → Has row (node_step db s t).nodes
  unfolding node_step store_rename store_trash
  node_step-Has (listing sp parent) t elsewhere has =
      subst (Has row) (sym (list_keeps db sp parent t)) has
  node_step-Has (getting sp id) t elsewhere has = subst (Has row) (sym (get_keeps db sp id t)) has
  node_step-Has (creating node) t elsewhere has = create-Has node t has
  node_step-Has (renaming_to sp id name) t elsewhere has =
      updating-Has sp id (renamed name) (rename_allowed db) t elsewhere has
  node_step-Has (trashing sp id) t elsewhere has =
      updating-Has sp id trashed (λ row nodes. true) t elsewhere has

  -- Over any sequence of the store's statements, whatever fails, a row of the table stays exactly as it
  -- is, a trashed one in any case, and a live one as long as no Rename and no Trash of the sequence names
  -- both its Space and its ID.
  pub node_steps_keep_row :
      (steps : List NodeStep) (t : NodeTable)
      → All IsElsewhere steps
      → Has row t.nodes
      → Has row (node_steps db steps t).nodes
  unfolding node_steps
  node_steps_keep_row [] t elsewhere has = has
  node_steps_keep_row (s ∷ steps) t elsewhere has =
      node_steps_keep_row steps (node_step db s t) elsewhere.1 (node_step-Has s t elsewhere.0 has)
