-- ===== src/Uploads/Postgres.antt =====
-- internal/uploads/postgres.go: the statements on the table `upload_sessions`, as functions on its rows.
-- What PostgreSQL reads as a uuid, its test of a name's length and its rounding of a time are parameters.
pub mod Laws
pub mod Refinement
pub mod Lawful
use goreecloud_drive.Prelude.{
  Bool, true, false, not, ◌||◌, Option, none, some, List, [], ◌∷◌, if◌then◌else◌,
}
use goreecloud_drive.Prelude.Text.{Str, str, ◌==◌}
use goreecloud_drive.Prelude.Int.{ℤ, pos, ltb_ℤ}
use goreecloud_drive.Errors.{is, wrap, text, ok, err, upload_not_found}
use goreecloud_drive.Os.{Action}
use goreecloud_drive.Sql.{Outcome, fine, refused, lost, next_outcome}
use goreecloud_drive.Wardveil.Types.{Time}
use goreecloud_drive.Uploads.Interface.{Session, State, active, completed, Repository}

-- A row of `upload_sessions`, filed under its `id`. Two columns may be NULL.
pub record UploadRow : Type 0 where
  pub space_id : Str
  pub node_id : Option Str
  pub parent_node_id : Option Str
  pub account_id : Str
  pub target_name : Str
  pub received_size_bytes : ℤ
  pub state : Str
  pub expires_at : Time

pub record UploadTable : Type 0 where
  pub rows : Str → Option UploadRow
  pub outcomes : List Outcome

-- The parameters: the input of a uuid, which gives the text that the column is read as; the test of
-- a name's length; and the time that a column keeps.
pub record Database : Type 0 where
  pub uuid_in : Str → Option Str
  pub name_fits : Str → Bool
  pub stored_time : Time → Time

-- `stateToDatabase`
unfoldable pub state_to_database : State → Str
state_to_database completed = str "complete"
state_to_database active = str "open"

-- `stateFromDatabase`
unfoldable pub state_from_database : Str → State
state_from_database state = if state == str "complete" then completed else active

-- Scan of a row: a session, unless its node is NULL.
unfoldable pub scan_session : Str → UploadRow → Option Session
scan_session id row = elim row.node_id [
  | none ↦ none
  | some node_id ↦ some (record {
    id = id;
    space_id = row.space_id;
    account_id = row.account_id;
    parent_node_id = elim row.parent_node_id [ none ↦ [] | some parent ↦ parent ];
    target_name = row.target_name;
    node_id = node_id;
    offset = row.received_size_bytes;
    state = state_from_database row.state;
    expires_at = row.expires_at;
  })
]

module _ (db : Database) where
  -- NULLIF($4, '')::uuid; the outer `none` is an error of the conversion.
  unfoldable pub parent_column : Str → Option (Option Str)
  parent_column parent = elim (db.uuid_in parent) [
    | none ↦ if parent == [] then some none else none
    | some uuid ↦ if parent == [] then some none else some (some uuid)
  ]

  -- The CHECK constraints of a row.
  abbrev row_allowed : UploadRow → Bool
  row_allowed row =
      if not (db.name_fits row.target_name)
      then false
      else not (ltb_ℤ row.received_size_bytes (pos 0))

  -- The row that INSERT makes of a session, if each text for a uuid is one.
  unfoldable pub session_row : Session → Option UploadRow
  session_row session = elim (db.uuid_in session.space_id) [
    | none ↦ none
    | some space_id ↦ elim (db.uuid_in session.node_id) [
      | none ↦ none
      | some node_id ↦ elim (parent_column session.parent_node_id) [
        | none ↦ none
        | some parent ↦ elim (db.uuid_in session.account_id) [
          | none ↦ none
          | some account_id ↦ some (record {
            space_id = space_id;
            node_id = some node_id;
            parent_node_id = parent;
            account_id = account_id;
            target_name = session.target_name;
            received_size_bytes = session.offset;
            state = state_to_database session.state;
            expires_at = db.stored_time session.expires_at;
          })
        ]
      ]
    ]
  ]

  -- The uuid columns that UPDATE sets: the node and its parent.
  unfoldable pub node_columns : Session → Option (Str × Option Str)
  node_columns session = elim (db.uuid_in session.node_id) [
    | none ↦ none
    | some node_id ↦ elim (parent_column session.parent_node_id) [
      | none ↦ none
      | some parent ↦ some (node_id, parent)
    ]
  ]

  -- The row that UPDATE makes of another.
  abbrev pub updated_row : Session → Str × Option Str → UploadRow → UploadRow
  updated_row session columns row = record row {
    received_size_bytes = session.offset;
    state = state_to_database session.state;
    node_id = some columns.0;
    parent_node_id = columns.1;
    target_name = session.target_name;
  }

  -- A row is put under its ID, unless a constraint or the outcome of the statement is against it.
  unfoldable pub put_row : Str → UploadRow → Action UploadTable (Unit {0})
  put_row id row t =
      let (outcome, later) = next_outcome t.outcomes in
      let written : UploadTable = record {
        rows = λ k. if id == k then some row else t.rows k;
        outcomes = later;
      } in
      if not (row_allowed row)
      then (err (text "check constraint violated"), record t { outcomes = later })
      else elim outcome [
        | fine ↦ (ok tt, written)
        | refused ↦ (err (text "database error"), record t { outcomes = later })
        | lost ↦ (err (text "database error"), written)
      ]

  -- `PostgresRepository.Create`; `connected` is that DB is not nil.
  unfoldable pub postgres_create : Bool → Session → Action UploadTable (Unit {0})
  unfolding put_row
  postgres_create connected session t =
      if not connected
      then (err (text "upload repository unavailable"), t)
      else elim (db.uuid_in session.id) [
        | none ↦ (err (wrap "create upload session" (text "invalid uuid")), t)
        | some id ↦ elim (session_row session) [
          | none ↦ (err (wrap "create upload session" (text "invalid uuid")), t)
          | some row ↦ elim (t.rows id) [
            | some _ ↦ (err (wrap "create upload session" (text "duplicate key")), t)
            | none ↦
                let (r, t') = put_row id row t in
                elim r [ err e ↦ (err (wrap "create upload session" e), t') | ok _ ↦ (ok tt, t') ]
          ]
        ]
      ]

  -- `PostgresRepository.Get`
  unfoldable pub postgres_get : Bool → Str → Action UploadTable Session
  postgres_get connected upload_id t =
      let (outcome, later) = next_outcome t.outcomes in
      let t' = record t { outcomes = later } in
      if not connected then (err (text "upload repository unavailable"), t) else elim outcome [
        | refused ↦ (err (wrap "get upload session" (text "database error")), t')
        | lost ↦ (err (wrap "get upload session" (text "database error")), t')
        | fine ↦ elim (db.uuid_in upload_id) [
          | none ↦ (err (wrap "get upload session" (text "invalid uuid")), t')
          | some id ↦ elim (t.rows id) [
            | none ↦ (err (is upload_not_found), t')
            | some row ↦ elim (scan_session id row) [
              | none ↦ (err (wrap "get upload session" (text "NULL in a text")), t')
              | some session ↦ (ok session, t')
            ]
          ]
        ]
      ]

  -- No row has the ID: the statement counts none, if it is answered.
  abbrev no_row : Action UploadTable (Unit {0})
  no_row t =
      let (outcome, later) = next_outcome t.outcomes in
      let t' : UploadTable = record t { outcomes = later } in
      elim outcome [
        | fine ↦ (err (is upload_not_found), t')
        | refused ↦ (err (wrap "update upload session" (text "database error")), t')
        | lost ↦ (err (wrap "update upload session" (text "database error")), t')
      ]

  -- `PostgresRepository.Update`
  unfoldable pub postgres_update : Bool → Session → Action UploadTable (Unit {0})
  unfolding put_row
  postgres_update connected session t =
      if not connected
      then (err (text "upload repository unavailable"), t)
      else elim (db.uuid_in session.id) [
        | none ↦ (err (wrap "update upload session" (text "invalid uuid")), t)
        | some id ↦ elim (node_columns session) [
          | none ↦ (err (wrap "update upload session" (text "invalid uuid")), t)
          | some columns ↦ elim (t.rows id) [
            | none ↦ no_row t
            | some old ↦
                let (r, t') = put_row id (updated_row session columns old) t in
                elim r [ err e ↦ (err (wrap "update upload session" e), t') | ok _ ↦ (ok tt, t') ]
          ]
        ]
      ]

  abbrev pub postgres_repository : Bool → Repository UploadTable
  postgres_repository connected = record {
    create = postgres_create connected;
    get = postgres_get connected;
    update = postgres_update connected;
  }
