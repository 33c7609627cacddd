-- ===== src/Tests/Tables.antt =====
-- The PostgreSQL repository of upload sessions and the store of nodes, with a uuid type that knows canonical IDs only.
use goreecloud_drive.Prelude.{
  ◌≡◌, ◌≢◌, refl, List, ◌∷◌, true, false, Option, none, some, [], if◌then◌else◌, arith,
}
use goreecloud_drive.Prelude.Text.{Str, str, ◌==◌}
use goreecloud_drive.Ids.{valid_storage_id, storage_bytes, storage_byte}
use goreecloud_drive.Errors.{ok}
use goreecloud_drive.Sql.{fine, lost}
use goreecloud_drive.Nodes.{kind_file, kind_folder, new_node}
use goreecloud_drive.Nodes.Rows.{
  NodeRow, NodeTable, NodeDatabase, is_target, find_target, next_statement, trashed,
}
use goreecloud_drive.Nodes.Postgres.{scan_node, updating, store_get, store_trash}
use goreecloud_drive.Nodes.Postgres.Sound.{NodeStep, creating, renaming_to, trashing, node_steps}
use goreecloud_drive.Nodes.Postgres.Frame.{IsNamed, Has, here, node_steps_keep_row}
use goreecloud_drive.Nodes.Postgres.Isolation.{trashed_stays_hidden}
use goreecloud_drive.Tests.Fixtures.{space_id, node_id, upload_id, account_id}
use goreecloud_drive.Uploads.Interface.{IsRepository}
use goreecloud_drive.Uploads.Postgres.{Database, postgres_repository}
use goreecloud_drive.Uploads.Postgres.Laws.{IsUuidInput, HasUuids, IsStorable, table_view}
use goreecloud_drive.Uploads.Postgres.Lawful.{postgres-IsRepository}

abbrev pub canonical_only : Str → Option Str
canonical_only s = if valid_storage_id s then some s else none

abbrev pub database : Database
database = record { uuid_in = canonical_only; name_fits = λ _. true; stored_time = λ t. t }

empty_invalid : valid_storage_id [] ≡ false
unfolding valid_storage_id
empty_invalid = refl

pub canonical_only-IsUuidInput : IsUuidInput canonical_only
canonical_only-IsUuidInput = record {
  stable = λ s u h. ground arith;
  canonical = λ s h. ground arith;
  not_empty = ground (arith, empty_invalid);
}

postgres-IsRepository_example :
    IsRepository
      (postgres_repository database true)
      (HasUuids database)
      (IsStorable database)
      (table_view database)
postgres-IsRepository_example = postgres-IsRepository database canonical_only-IsUuidInput true

abbrev node_database : NodeDatabase
node_database = record {
  uuid_in = canonical_only;
  name_fits = λ _. true;
  ordered = λ rows. rows;
  format_time = λ _. [];
}

abbrev folder_row : NodeRow
folder_row = record {
  id = node_id;
  space_id = space_id;
  parent_id = none;
  kind = kind_folder;
  name = str "reports";
  created_by = account_id;
  created_at = 10;
  modified_at = 10;
  trashed_at = none;
}

abbrev one_folder : NodeTable
one_folder = record { nodes = folder_row ∷ []; schedule = (fine, 20) ∷ (lost, 30) ∷ [] }

-- A file in the folder, a new name for it, and the folder into the trash.
abbrev some_steps : List NodeStep
some_steps =
    creating (new_node upload_id account_id space_id (some node_id) kind_file (str "report.txt"))
    ∷ renaming_to space_id upload_id (str "report 2.txt")
    ∷ trashing space_id node_id
    ∷ []

-- A file in the folder, a new name for it, and a trash of the folder's ID in another Space.
abbrev other_steps : List NodeStep
other_steps =
    creating (new_node upload_id account_id space_id (some node_id) kind_file (str "report.txt"))
    ∷ renaming_to space_id upload_id (str "report 2.txt")
    ∷ trashing account_id node_id
    ∷ []

upload_is_not_folder : ¬ IsNamed node_database folder_row space_id upload_id
unfolding valid_storage_id storage_bytes storage_byte
upload_is_not_folder h = ground (arith, h.2)

other_space_is_not_folders : ¬ IsNamed node_database folder_row account_id node_id
unfolding valid_storage_id storage_bytes storage_byte
other_space_is_not_folders h = ground (arith, h.1)

node_steps_keep_row_example : Has folder_row (node_steps node_database other_steps one_folder).nodes
node_steps_keep_row_example =
    node_steps_keep_row node_database folder_row other_steps one_folder
      (tt, (upload_is_not_folder, (other_space_is_not_folders, tt))) (here [])

trash_run :
    (store_trash node_database space_id node_id one_folder).0
    ≡ ok (scan_node node_database (trashed 20 folder_row))
unfolding store_trash updating next_statement find_target is_target valid_storage_id storage_bytes
    storage_byte ◌==◌
trash_run = refl

trashed_stays_hidden_example :
    (store_get node_database space_id node_id (
      node_steps node_database some_steps
        (store_trash node_database space_id node_id one_folder).1)).0
    ≢ ok (scan_node node_database folder_row)
trashed_stays_hidden_example =
    trashed_stays_hidden node_database space_id node_id one_folder
      (scan_node node_database (trashed 20 folder_row)) some_steps
      (scan_node node_database folder_row) trash_run
