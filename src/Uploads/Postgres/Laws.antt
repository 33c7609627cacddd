-- ===== src/Uploads/Postgres/Laws.antt =====
-- The PostgreSQL repository of upload sessions as a map from IDs to sessions.
use goreecloud_drive.Prelude.{
  ◌≡◌, ◌≢◌, refl, Bool, true, Option, none, some, [], arith, inl, inr, Option-cases, Bool-cases,
  if◌then◌else◌,
}
use goreecloud_drive.Prelude.Text.{Str, ◌==◌, ==_iff}
use goreecloud_drive.Errors.{ok}
use goreecloud_drive.Ids.{valid_storage_id}
use goreecloud_drive.Uploads.Interface.{Session, State, active, completed}
use goreecloud_drive.Uploads.Postgres.{
  UploadRow, UploadTable, Database, state_to_database, state_from_database, scan_session,
  parent_column, session_row, node_columns, put_row, postgres_get,
}

-- What PostgreSQL's uuid type does with texts: a uuid is written in a form that is read as itself, a
-- canonical ID is in that form, and the empty text is no uuid.
pub record IsUuidInput (uuid_in : Str → Option Str) : Type 0 where
  pub stable : (s u : Str) → uuid_in s ≡ some u → uuid_in u ≡ some u
  pub canonical : (s : Str) → valid_storage_id s ≡ true → uuid_in s ≡ some s
  pub not_empty : uuid_in [] ≡ none

-- A state is read as it was written.
pub state_from_database-state_to_database :
    (state : State) → state_from_database (state_to_database state) ≡ state
unfolding state_from_database state_to_database ◌==◌
state_from_database-state_to_database active = refl
state_from_database-state_to_database completed = refl

module _ (db : Database) where
  -- The uuids of the rows are as PostgreSQL writes them.
  pub record HasUuids (t : UploadTable) : Type 0 where
    pub node :
        (k : Str) (row : UploadRow) (u : Str)
        → t.rows k ≡ some row
        → row.node_id ≡ some u
        → db.uuid_in u ≡ some u
    pub parent :
        (k : Str) (row : UploadRow) (u : Str)
        → t.rows k ≡ some row
        → row.parent_node_id ≡ some u
        → db.uuid_in u ≡ some u

  -- A session that is given back as it was: its texts for uuids are in PostgreSQL's form, and its time
  -- is one that a column keeps.
  pub record IsStorable (s : Session) : Type 0 where
    pub space : db.uuid_in s.space_id ≡ some s.space_id
    pub node : db.uuid_in s.node_id ≡ some s.node_id
    pub account : db.uuid_in s.account_id ≡ some s.account_id
    pub parent : s.parent_node_id ≢ [] → db.uuid_in s.parent_node_id ≡ some s.parent_node_id
    pub expiry : db.stored_time s.expires_at ≡ s.expires_at

  -- The session of an ID.
  unfoldable pub table_view : UploadTable → Str → Option Session
  table_view t id = elim (db.uuid_in id) [
    | none ↦ none
    | some k ↦ elim (t.rows k) [ none ↦ none | some row ↦ scan_session k row ]
  ]

  module _ (connected : Bool) where
    pub get-HasUuids :
        (id : Str) (t : UploadTable) → HasUuids t → HasUuids (postgres_get db connected id t).1
    unfolding postgres_get
    get-HasUuids id t h = record {
      node = λ k row u e f. ground (arith, h.node k row u);
      parent = λ k row u e f. ground (arith, h.parent k row u);
    }

    pub get_view :
        (id : Str) (t : UploadTable) (s : Session)
        → HasUuids t
        → (postgres_get db connected id t).0 ≡ ok s
        → table_view t id ≡ some s
    unfolding postgres_get table_view
    get_view id t s holds h = elim (Option-cases (db.uuid_in id)) [
      | inl bad ↦ absurd (ground arith)
      | inr (k, key) ↦ ground arith
    ]

    pub get_keeps :
        (id j : Str) (t : UploadTable)
        → table_view (postgres_get db connected id t).1 j ≡ table_view t j
    unfolding postgres_get table_view
    get_keeps id j t = ground arith

    pub view_id :
        (uuids : IsUuidInput db.uuid_in) (id : Str) (t : UploadTable) (s : Session)
        → HasUuids t
        → valid_storage_id id ≡ true
        → table_view t id ≡ some s
        → s.id ≡ id
    unfolding table_view scan_session
    view_id uuids id t s holds valid h = ground (arith, uuids.canonical id valid)

  module _ (uuids : IsUuidInput db.uuid_in) where
    -- What UPDATE and INSERT write for a parent that is no uuid but the empty text, or one in form.
    pub parent_column_stable :
        (p : Str)
        → (p ≢ [] → db.uuid_in p ≡ some p)
        → parent_column db p ≡ some (if p == [] then none else some p)
    unfolding parent_column
    parent_column_stable p h = elim (Bool-cases (p == [])) [
      | inl blank ↦ ground (arith, ==_iff p [], uuids.not_empty)
      | inr full ↦ ground (arith, h (λ e. ground (arith, ==_iff p [])))
    ]

    parent_column_uuid : (p u : Str) → parent_column db p ≡ some (some u) → db.uuid_in u ≡ some u
    unfolding parent_column
    parent_column_uuid p u h = elim (Option-cases (db.uuid_in p)) [
      | inl none_in ↦ absurd (ground arith)
      | inr (v, read) ↦ ground (arith, uuids.stable p v read)
    ]

    pub node_columns_uuid :
        (s : Session) (c : Str × Option Str)
        → node_columns db s ≡ some c
        → (db.uuid_in c.0 ≡ some c.0) × ((u : Str) → c.1 ≡ some u → db.uuid_in u ≡ some u)
    unfolding node_columns
    node_columns_uuid s c h = elim (Option-cases (db.uuid_in s.node_id)) [
      | inl bad ↦ absurd (ground arith)
      | inr (n, read) ↦ elim (Option-cases (parent_column db s.parent_node_id)) [
        | inl bad ↦ absurd (ground arith)
        | inr (p, column) ↦ (
          ground (arith, uuids.stable s.node_id n read),
          λ u e. ground (arith, parent_column_uuid s.parent_node_id u),
        )
      ]
    ]

    pub session_row_uuid :
        (s : Session) (row : UploadRow)
        → session_row db s ≡ some row
        → ((u : Str) → row.node_id ≡ some u → db.uuid_in u ≡ some u)
          × ((u : Str) → row.parent_node_id ≡ some u → db.uuid_in u ≡ some u)
    unfolding session_row
    session_row_uuid s row h = elim (Option-cases (db.uuid_in s.space_id)) [
      | inl bad ↦ absurd (ground arith)
      | inr (sp, a) ↦ elim (Option-cases (db.uuid_in s.node_id)) [
        | inl bad ↦ absurd (ground arith)
        | inr (n, read) ↦ elim (Option-cases (parent_column db s.parent_node_id)) [
          | inl bad ↦ absurd (ground arith)
          | inr (p, column) ↦ elim (Option-cases (db.uuid_in s.account_id)) [
            | inl bad ↦ absurd (ground arith)
            | inr (ac, b) ↦ (
              λ u e. ground (arith, uuids.stable s.node_id n read),
              λ u e. ground (arith, parent_column_uuid s.parent_node_id u),
            )
          ]
        ]
      ]
    ]

    -- A row in form is put into a table in form.
    pub put_row-HasUuids :
        (id : Str) (row : UploadRow) (t : UploadTable)
        → ((u : Str) → row.node_id ≡ some u → db.uuid_in u ≡ some u)
        → ((u : Str) → row.parent_node_id ≡ some u → db.uuid_in u ≡ some u)
        → HasUuids t
        → HasUuids (put_row db id row t).1
    unfolding put_row
    put_row-HasUuids id row t node parent h = record {
      node = λ k r u e f. elim (Bool-cases (id == k)) [
        | inl same ↦ ground (arith, node u, h.node k r u)
        | inr other ↦ ground (arith, h.node k r u)
      ];
      parent = λ k r u e f. elim (Bool-cases (id == k)) [
        | inl same ↦ ground (arith, parent u, h.parent k r u)
        | inr other ↦ ground (arith, h.parent k r u)
      ];
    }

    -- A statement that is answered has put its row.
    pub put_row_ok :
        (id : Str) (row : UploadRow) (t : UploadTable)
        → (put_row db id row t).0 ≡ ok tt
        → (k : Str) → (put_row db id row t).1.rows k ≡ (if id == k then some row else t.rows k)
    unfolding put_row
    put_row_ok id row t h k = ground arith
