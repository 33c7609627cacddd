-- ===== src/Tests/Files.antt =====
-- The storage boundary and the moves between its areas at concrete inputs.
use goreecloud_drive.Prelude.{ℕ, ◌≡◌, ◌≢◌, ◌⊎◌, refl, none, some, [], ◌∷◌, ◌&&◌, if◌then◌else◌}
use goreecloud_drive.Prelude.Text.{str, ◌==◌, split, trim_space, has_prefix}
use goreecloud_drive.Errors.{ok, err, text}
use goreecloud_drive.Os.Path.{same_path, clean, rel}
use goreecloud_drive.Os.{plain_call, link, remove}
use goreecloud_drive.Ids.{valid_storage_id, storage_bytes, storage_byte}
use goreecloud_drive.Storage.Local.{
  new_local, scoped_path, escapes, object_path, staging_path, trash_path, finalize, move_to_trash,
}
use goreecloud_drive.Storage.Local.Boundary.{
  IsClean, objects-IsArea, scoped_path_lem, scoped_path_injective,
}
use goreecloud_drive.Storage.Local.Publish.{
  finalize_publishes, finalize_keeps_object, move_to_trash_lem,
}
use goreecloud_drive.Tests.Fixtures.{
  space_id, node_id, upload_id, root, staging, object, trash, disk_with,
}

pub root-IsClean : IsClean root
unfolding ◌==◌
root-IsClean = (refl, tt)

pub staging_run : staging_path (some root) space_id upload_id ≡ ok staging
unfolding staging_path scoped_path escapes valid_storage_id storage_bytes storage_byte clean rel
    split ◌==◌
staging_run = refl

pub object_run : object_path (some root) space_id node_id ≡ ok object
unfolding object_path scoped_path escapes valid_storage_id storage_bytes storage_byte clean rel
    split ◌==◌
object_run = refl

trash_run : trash_path (some root) space_id node_id ≡ ok trash
unfolding trash_path scoped_path escapes valid_storage_id storage_bytes storage_byte clean rel split
    ◌==◌
trash_run = refl

new_local_run :
    new_local [] (str "/srv//./drive/../data/") ≡ ok (some (str "srv" ∷ str "data" ∷ []))
unfolding new_local clean split ◌==◌ trim_space has_prefix
new_local_run = refl

scoped_path_lem_example : scoped_path (some root) (str "objects") space_id node_id ≡ (
    if valid_storage_id space_id && valid_storage_id node_id
    then ok object
    else err (text "storage identifiers must be canonical UUIDs"))
scoped_path_lem_example =
    scoped_path_lem root (str "objects") space_id node_id root-IsClean objects-IsArea

scoped_path_injective_example :
    (str "objects" ≡ str "objects") × (space_id ≡ space_id) × (node_id ≡ node_id)
unfolding object_path
scoped_path_injective_example =
    scoped_path_injective root (str "objects") space_id node_id (str "objects") space_id node_id
      object root-IsClean objects-IsArea objects-IsArea object_run object_run

finalize_run :
    (finalize (some root) space_id upload_id node_id (disk_with staging (7 ∷ []))).0 ≡ ok tt
unfolding finalize plain_call link remove same_path scoped_path escapes valid_storage_id
    storage_bytes storage_byte clean rel split ◌==◌
finalize_run = refl

finalize_publishes_example :
    (i : ℕ) × ((disk_with staging (7 ∷ [])).links staging ≡ some i)
    × ((disk_with staging (7 ∷ [])).links object ≡ none)
    × ((finalize (some root) space_id upload_id node_id (disk_with staging (7 ∷ []))).1.links object
        ≡ some i)
    × ((finalize (some root) space_id upload_id node_id (disk_with staging (7 ∷ []))).1.links
          staging
        ≡ none)
    × ((finalize (some root) space_id upload_id node_id (disk_with staging (7 ∷ []))).1.inodes
        ≡ (disk_with staging (7 ∷ [])).inodes)
finalize_publishes_example =
    finalize_publishes root space_id upload_id node_id staging object (disk_with staging (7 ∷ []))
      root-IsClean staging_run object_run finalize_run

object_linked : (disk_with object (7 ∷ [])).links object ≡ some 0
unfolding same_path ◌==◌
object_linked = refl

finalize_keeps_object_example :
    ((finalize (some root) space_id upload_id node_id (disk_with object (7 ∷ []))).1.links object
      ≡ some 0)
    × ((finalize (some root) space_id upload_id node_id (disk_with object (7 ∷ []))).1.inodes
        ≡ (disk_with object (7 ∷ [])).inodes)
finalize_keeps_object_example =
    finalize_keeps_object root space_id upload_id node_id staging object (disk_with object (7 ∷ []))
      0 root-IsClean staging_run object_run object_linked

move_to_trash_lem_example :
    ((move_to_trash (some root) space_id node_id (disk_with object (7 ∷ []))).1.inodes
      ≡ (disk_with object (7 ∷ [])).inodes)
    × ((((move_to_trash (some root) space_id node_id (disk_with object (7 ∷ []))).0 ≡ ok tt)
          × ((disk_with object (7 ∷ [])).links trash ≡ none)
          × ((move_to_trash (some root) space_id node_id (disk_with object (7 ∷ []))).1.links object
              ≡ none)
          × ((move_to_trash (some root) space_id node_id (disk_with object (7 ∷ []))).1.links trash
              ≡ some 0))
        ⊎ (((move_to_trash (some root) space_id node_id (disk_with object (7 ∷ []))).0 ≢ ok tt)
            × ((move_to_trash (some root) space_id node_id (disk_with object (7 ∷ []))).1.links
                  object
                ≡ some 0)))
move_to_trash_lem_example =
    move_to_trash_lem root space_id node_id object trash (disk_with object (7 ∷ [])) 0 root-IsClean
      object_run trash_run object_linked
