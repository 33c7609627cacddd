-- ===== src/Nodes/Postgres.antt =====
-- internal/postgres/store.go: the statements on the table `nodes`, as functions on its rows (Nodes.Rows).
-- What PostgreSQL reads as a uuid, its test of a name's length, the order of a listing and the format
-- of a time are parameters. (A nil store answers RoleForAccount only.)
pub mod Sound
pub mod Isolation
pub mod Frame
use goreecloud_drive.Nodes.Rows.{
  NodeRow, NodeTable, next_statement, NodeDatabase, database_error, role_for_account, is_live,
  same_parent, is_target, find_target, in_folder, select_rows, has_id, has_node, parent_there,
  name_taken, update_target, missing, renamed, trashed,
}
use goreecloud_drive.Prelude.{
  Bool, true, false, not, ◌&&◌, ◌||◌, Option, none, some, List, [], ◌∷◌, map, if◌then◌else◌,
}
use goreecloud_drive.Prelude.Text.{Str, str, ◌==◌}
use goreecloud_drive.Errors.{Error, is, text, Result, ok, err, not_member, node_not_found}
use goreecloud_drive.Os.{Action}
use goreecloud_drive.Sql.{Outcome, fine, refused, lost}
use goreecloud_drive.Wardveil.Types.{Time}
use goreecloud_drive.SpaceAccess.{MembershipResolver}
use goreecloud_drive.Nodes.{Node, Repository, kind_file, kind_folder}

module _ (db : NodeDatabase) where
  -- `scanNode`
  unfoldable pub scan_node : NodeRow → Node
  scan_node row = record {
    id = row.id;
    space_id = row.space_id;
    parent_id = row.parent_id;
    kind = row.kind;
    name = row.name;
    created_by = row.created_by;
    created_at = db.format_time row.created_at;
    modified_at = db.format_time row.modified_at;
    trashed_at = elim row.trashed_at [ none ↦ none | some at ↦ some (db.format_time at) ];
  }

  -- `nullableString` of a parameter for a uuid; the outer `none` is an error of the conversion.
  unfoldable pub nullable_uuid : Option Str → Option (Option Str)
  nullable_uuid none = some none
  nullable_uuid (some value) =
      if value == []
      then some none
      else elim (db.uuid_in value) [ none ↦ none | some uuid ↦ some (some uuid) ]

  -- A SELECT of the rows of a Space, or its error.
  abbrev selecting :
      {A : Type 0}
      → Str
      → Option Str
      → (Str → Option Str → List NodeRow → Result A)
      → Action NodeTable A
  selecting space_id parameter read t =
      let (outcome, now, t') = next_statement t in
      elim outcome [
        | refused ↦ (err database_error, t')
        | lost ↦ (err database_error, t')
        | fine ↦ elim (db.uuid_in space_id) [
          | none ↦ (err database_error, t')
          | some space ↦ elim (nullable_uuid parameter) [
            | none ↦ (err database_error, t')
            | some value ↦ (read space value t.nodes, t')
          ]
        ]
      ]

  -- `List`
  unfoldable pub store_list : Str → Option Str → Action NodeTable (List Node)
  store_list space_id parent_id = selecting space_id parent_id λ space parent nodes.
      ok (map scan_node (db.ordered (select_rows (in_folder space parent) nodes)))

  -- The node that a row is scanned as; no row is sql.ErrNoRows.
  abbrev node_or_missing : Option NodeRow → Result Node
  node_or_missing none = err (is node_not_found)
  node_or_missing (some row) = ok (scan_node row)

  -- `Get`
  unfoldable pub store_get : Str → Str → Action NodeTable Node
  store_get space_id node_id t =
      let (outcome, now, t') = next_statement t in
      elim outcome [
        | refused ↦ (err database_error, t')
        | lost ↦ (err database_error, t')
        | fine ↦ elim (db.uuid_in space_id) [
          | none ↦ (err database_error, t')
          | some space ↦ elim (db.uuid_in node_id) [
            | none ↦ (err database_error, t')
            | some id ↦ (node_or_missing (find_target space id t.nodes), t')
          ]
        ]
      ]

  -- The CHECK constraints on a row.
  abbrev row_allowed : NodeRow → Bool
  row_allowed row = (row.kind == kind_file || row.kind == kind_folder) && db.name_fits row.name

  -- The row that INSERT makes of a node, if each text for a uuid is one.
  unfoldable pub node_row : Time → Node → Option NodeRow
  node_row now node = elim (db.uuid_in node.id) [
    | none ↦ none
    | some id ↦ elim (db.uuid_in node.space_id) [
      | none ↦ none
      | some space ↦ elim (nullable_uuid node.parent_id) [
        | none ↦ none
        | some parent ↦ elim (db.uuid_in node.created_by) [
          | none ↦ none
          | some account ↦ some (record {
            id = id;
            space_id = space;
            parent_id = parent;
            kind = node.kind;
            name = node.name;
            created_by = account;
            created_at = now;
            modified_at = now;
            trashed_at = none;
          })
        ]
      ]
    ]
  ]

  -- The constraints on a new row.
  abbrev pub insert_allowed : NodeRow → List NodeRow → Bool
  insert_allowed row nodes =
      row_allowed row
      && (not (has_id row.id nodes)
          && (parent_there row.space_id row.parent_id nodes
              && not (name_taken row.space_id row.parent_id row.name row.id nodes)))

  -- A statement that may write: the rows that it leaves, and the row that it returns.
  abbrev pub returning : Outcome → NodeRow → List NodeRow → NodeTable → Result Node × NodeTable
  returning fine row nodes t = (ok (scan_node row), record t { nodes = nodes })
  returning refused row nodes t = (err database_error, t)
  returning lost row nodes t = (err database_error, record t { nodes = nodes })

  -- `Create`
  unfoldable pub store_create : Node → Action NodeTable Node
  store_create node t =
      let (outcome, now, t') = next_statement t in
      elim (node_row now node) [
        | none ↦ (err database_error, t')
        | some row ↦
            if insert_allowed row t.nodes
            then returning outcome row (row ∷ t.nodes) t'
            else (err database_error, t')
      ]

  unfoldable pub updating :
      Str
      → Str
      → (Time → NodeRow → NodeRow)
      → (NodeRow → List NodeRow → Bool)
      → Action NodeTable Node
  unfolding update_target
  updating space_id node_id change constraint t =
      let (outcome, now, t') = next_statement t in
      elim (db.uuid_in space_id) [
        | none ↦ (err database_error, t')
        | some space ↦ elim (db.uuid_in node_id) [
          | none ↦ (err database_error, t')
          | some id ↦ elim (find_target space id t.nodes) [
            | none ↦ missing outcome t'
            | some row ↦
                if constraint (change now row) t.nodes
                then returning outcome (change now row)
                    (update_target space id (change now) t.nodes) t'
                else (err database_error, t')
          ]
        ]
      ]

  -- `Rename`
  abbrev pub rename_allowed : NodeRow → List NodeRow → Bool
  rename_allowed row nodes =
      db.name_fits row.name && not (name_taken row.space_id row.parent_id row.name row.id nodes)

  unfoldable pub store_rename : Str → Str → Str → Action NodeTable Node
  unfolding updating
  store_rename space_id node_id name = updating space_id node_id (renamed name) rename_allowed

  -- `Trash`
  unfoldable pub store_trash : Str → Str → Action NodeTable Node
  unfolding updating
  store_trash space_id node_id = updating space_id node_id trashed (λ row nodes. true)

  abbrev pub node_store : Repository NodeTable
  node_store = record {
    list = store_list;
    get = store_get;
    create = store_create;
    rename = store_rename;
    trash = store_trash;
  }
