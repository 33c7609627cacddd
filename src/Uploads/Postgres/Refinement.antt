-- ===== src/Uploads/Postgres/Refinement.antt =====
-- The PostgreSQL repository of upload sessions meets the laws of the interface `Repository`.
use goreecloud_drive.Prelude.{
  ◌≡◌, ◌≢◌, ◌⊎◌, sym, subst, ◌∙◌, ap, Bool, Option, none, some, [], arith, inl, inr, Option-cases,
  Bool-cases, if◌then◌else◌,
}
use goreecloud_drive.Prelude.Text.{Str, ◌==◌, ==_iff}
use goreecloud_drive.Prelude.Int.{ℤ}
use goreecloud_drive.Errors.{ok, Result-cases}
use goreecloud_drive.Uploads.Interface.{Session, State}
use goreecloud_drive.Uploads.Postgres.{
  UploadRow, UploadTable, Database, scan_session, session_row, node_columns, updated_row, put_row,
  postgres_create, postgres_update,
}
use goreecloud_drive.Uploads.Postgres.Laws.{
  IsUuidInput, HasUuids, IsStorable, table_view, parent_column_stable, node_columns_uuid,
  session_row_uuid, put_row-HasUuids, put_row_ok, state_from_database-state_to_database,
}

module _ (db : Database) (uuids : IsUuidInput db.uuid_in) (connected : Bool) where
  pub create_ok :
      (s : Session) (t : UploadTable)
      → (postgres_create db connected s t).0 ≡ ok tt
      → (id : Str) × (row : UploadRow) × (db.uuid_in s.id ≡ some id)
        × (session_row db s ≡ some row)
        × (t.rows id ≡ none)
        × ((put_row db id row t).0 ≡ ok tt)
        × ((postgres_create db connected s t).1 ≡ (put_row db id row t).1)
  unfolding postgres_create
  create_ok s t h = elim (Option-cases (db.uuid_in s.id)) [
    | inl bad ↦ absurd (ground arith)
    | inr (id, key) ↦ elim (Option-cases (session_row db s)) [
      | inl bad ↦ absurd (ground arith)
      | inr (row, made) ↦ elim (Option-cases (t.rows id)) [
        | inr (r, taken) ↦ absurd (ground arith)
        | inl free ↦ elim (Result-cases (put_row db id row t).0) [
          | inr (e, failed) ↦ absurd (ground arith)
          | inl (done, put) ↦ (id, row, key, made, free, ground arith, ground arith)
        ]
      ]
    ]
  ]

  pub update_ok :
      (s : Session) (t : UploadTable)
      → (postgres_update db connected s t).0 ≡ ok tt
      → (id : Str) × (columns : Str × Option Str) × (old : UploadRow) × (db.uuid_in s.id ≡ some id)
        × (node_columns db s ≡ some columns)
        × (t.rows id ≡ some old)
        × ((put_row db id (updated_row db s columns old) t).0 ≡ ok tt)
        × ((postgres_update db connected s t).1
            ≡ (put_row db id (updated_row db s columns old) t).1)
  unfolding postgres_update
  update_ok s t h = elim (Option-cases (db.uuid_in s.id)) [
    | inl bad ↦ absurd (ground arith)
    | inr (id, key) ↦ elim (Option-cases (node_columns db s)) [
      | inl bad ↦ absurd (ground arith)
      | inr (columns, made) ↦ elim (Option-cases (t.rows id)) [
        | inl missing ↦ absurd (ground arith)
        | inr (old, there) ↦
            elim (Result-cases (put_row db id (updated_row db s columns old) t).0) [
              | inr (e, failed) ↦ absurd (ground arith)
              | inl (done, put) ↦ (id, columns, old, key, made, there, ground arith, ground arith)
            ]
      ]
    ]
  ]

  -- What an INSERT or an UPDATE leaves: the old table, up to its schedule, or a row put into it.
  create_leaves :
      (s : Session) (t : UploadTable)
      → ((postgres_create db connected s t).1 ≡ t)
        ⊎ ((id : Str) × (row : UploadRow) × (session_row db s ≡ some row)
            × ((postgres_create db connected s t).1 ≡ (put_row db id row t).1))
  unfolding postgres_create
  create_leaves s t = elim (Option-cases (db.uuid_in s.id)) [
    | inl bad ↦ inl (ground arith)
    | inr (id, key) ↦ elim (Option-cases (session_row db s)) [
      | inl bad ↦ inl (ground arith)
      | inr (row, made) ↦ elim (Option-cases (t.rows id)) [
        | inr (r, taken) ↦ inl (ground arith)
        | inl free ↦ elim (Bool-cases connected) [
          | inr nil ↦ inl (ground arith)
          | inl linked ↦ inr (id, row, made, ground arith)
        ]
      ]
    ]
  ]

  update_leaves :
      (s : Session) (t : UploadTable)
      → ((postgres_update db connected s t).1.rows ≡ t.rows)
        ⊎ ((id : Str) × (columns : Str × Option Str) × (old : UploadRow) × (node_columns db s
              ≡ some columns)
            × ((postgres_update db connected s t).1
                ≡ (put_row db id (updated_row db s columns old) t).1))
  unfolding postgres_update
  update_leaves s t = elim (Option-cases (db.uuid_in s.id)) [
    | inl bad ↦ inl (ground arith)
    | inr (id, key) ↦ elim (Option-cases (node_columns db s)) [
      | inl bad ↦ inl (ground arith)
      | inr (columns, made) ↦ elim (Option-cases (t.rows id)) [
        | inl missing ↦ inl (ground arith)
        | inr (old, there) ↦ elim (Bool-cases connected) [
          | inr nil ↦ inl (ground arith)
          | inl linked ↦ inr (id, columns, old, made, ground arith)
        ]
      ]
    ]
  ]

  pub create-HasUuids :
      (s : Session) (t : UploadTable)
      → HasUuids db t
      → HasUuids db (postgres_create db connected s t).1
  create-HasUuids s t h = elim (create_leaves s t) [
    | inl same ↦ subst (HasUuids db) (sym same) h
    | inr (id, row, made, put) ↦
        let (node, parent) = session_row_uuid db uuids s row made in
        subst (HasUuids db) (sym put) (put_row-HasUuids db uuids id row t node parent h)
  ]

  pub update-HasUuids :
      (s : Session) (t : UploadTable)
      → HasUuids db t
      → HasUuids db (postgres_update db connected s t).1
  update-HasUuids s t h = elim (update_leaves s t) [
    | inl same ↦ record {
      node = λ k row u e. h.node k row u (ap (λ rows. rows k) (sym same) ∙ e);
      parent = λ k row u e. h.parent k row u (ap (λ rows. rows k) (sym same) ∙ e);
    }
    | inr (id, columns, old, made, put) ↦
        let (node, parent) = node_columns_uuid db uuids s columns made in
        subst (HasUuids db) (sym put) (
          put_row-HasUuids db uuids id (updated_row db s columns old) t (λ u e. ground arith)
            (λ u e. parent u e) h)
  ]

  -- A storable session is read back from its row.
  pub session_row-scan :
      (s : Session) (id : Str) (row : UploadRow)
      → IsStorable db s
      → s.id ≡ id
      → session_row db s ≡ some row
      → scan_session id row ≡ some s
  unfolding session_row scan_session
  session_row-scan s id row keeps named made =
      let column = parent_column_stable db uuids s.parent_node_id keeps.parent in
      elim (Bool-cases (s.parent_node_id == [])) [
        | inl blank ↦
            ground
              (arith, ==_iff s.parent_node_id [], state_from_database-state_to_database s.state)
        | inr full ↦ ground (arith, state_from_database-state_to_database s.state)
      ]

  -- So is a session after an UPDATE of another row of its ID.
  pub updated_row-scan :
      (old : Session) (columns : Str × Option Str) (id : Str) (row : UploadRow)
      → scan_session id row ≡ some old
      → db.uuid_in old.node_id ≡ some old.node_id
      → (old.parent_node_id ≢ [] → db.uuid_in old.parent_node_id ≡ some old.parent_node_id)
      → (offset : ℤ) (state : State)
      → node_columns db (record old { offset = offset; state = state }) ≡ some columns
      → scan_session id (updated_row db (record old { offset = offset; state = state }) columns row)
        ≡ some (record old { offset = offset; state = state })
  unfolding node_columns scan_session
  updated_row-scan old columns id row read node parent offset state made =
      let column = parent_column_stable db uuids old.parent_node_id parent in
      elim (Option-cases row.node_id) [
        | inl null ↦ absurd (ground arith)
        | inr (n, given) ↦ elim (Bool-cases (old.parent_node_id == [])) [
          | inl blank ↦
              ground
                (arith, ==_iff old.parent_node_id [], state_from_database-state_to_database state)
          | inr full ↦ ground (arith, state_from_database-state_to_database state)
        ]
      ]

  -- The uuids of a session that is read from a table in form are in form.
  pub view_uuids :
      (t : UploadTable) (id : Str) (s : Session)
      → HasUuids db t
      → table_view db t id ≡ some s
      → (db.uuid_in s.node_id ≡ some s.node_id)
        × (s.parent_node_id ≢ [] → db.uuid_in s.parent_node_id ≡ some s.parent_node_id)
  unfolding table_view scan_session
  view_uuids t id s h v = elim (Option-cases (db.uuid_in id)) [
    | inl bad ↦ absurd (ground arith)
    | inr (k, key) ↦ elim (Option-cases (t.rows k)) [
      | inl missing ↦ absurd (ground arith)
      | inr (row, there) ↦ elim (Option-cases row.node_id) [
        | inl null ↦ absurd (ground arith)
        | inr (n, node) ↦ (
          ground (arith, h.node k row n there node),
          λ ne. elim (Option-cases row.parent_node_id) [
            | inl root ↦ absurd (ne (ground arith))
            | inr (p, parent) ↦ ground (arith, h.parent k row p there parent)
          ],
        )
      ]
    ]
  ]

  -- The map of a table that a row is put into.
  pub view_put :
      (own id j : Str) (row : UploadRow) (s : Session) (t : UploadTable)
      → own ≡ id
      → db.uuid_in j ≡ some j
      → (put_row db id row t).0 ≡ ok tt
      → scan_session id row ≡ some s
      → table_view db (put_row db id row t).1 j ≡ (if own == j then some s else table_view db t j)
  unfolding table_view
  view_put own id j row s t named key done read = elim (Bool-cases (own == j)) [
    | inl same ↦ ground (arith, put_row_ok db uuids id row t done j, ==_iff own j)
    | inr other ↦ ground (arith, put_row_ok db uuids id row t done j)
  ]
