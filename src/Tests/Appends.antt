-- ===== src/Tests/Appends.antt =====
-- Appends to a staged upload of two bytes.
use goreecloud_drive.Prelude.{
  ◌≡◌, ◌≢◌, refl, Option, true, false, none, some, [], ◌∷◌, ◌++◌, take, length, arith,
}
use goreecloud_drive.Prelude.Text.{Str, str, ◌==◌, split, ==_iff}
use goreecloud_drive.Prelude.Int.{pos, ◌+ℤ◌}
use goreecloud_drive.Errors.{ok}
use goreecloud_drive.Ids.{valid_storage_id, storage_bytes, storage_byte}
use goreecloud_drive.Os.{
  Reader, World, plain_call, stat_inode, open_create, write_at, copy_limited, time_now,
}
use goreecloud_drive.Os.Files.{content_at}
use goreecloud_drive.Os.Path.{same_path, clean, rel}
use goreecloud_drive.Storage.Local.{scoped_path, escapes, staging_path}
use goreecloud_drive.Storage.Session.{append_staging, append_chunk, chunk_limit, wrap_int64}
use goreecloud_drive.Storage.Session.Appending.{append_staging_keeps, broken_append_strands}
use goreecloud_drive.Storage.Staging.{publish_temp, write_staging}
use goreecloud_drive.Ids.{hex, hex_digit}
use goreecloud_drive.Os.{create_temp, rename, remove}
use goreecloud_drive.Uploads.Interface.{Session, active}
use goreecloud_drive.Uploads.Memory.{
  memory_get, memory_update, memory_repository, memory-IsRepository, IsKeyed,
}
use goreecloud_drive.Uploads.{Service, Stored, append, get, is_expired, reject_expired}
use goreecloud_drive.Uploads.Progress.{append_advances}
use goreecloud_drive.Tests.Fixtures.{
  space_id, node_id, upload_id, account_id, root, staging, disk_with,
}
use goreecloud_drive.Tests.Files.{staging_run}
use goreecloud_drive.Tests.Sessions.{stored_session, before, before_holds}

abbrev three : Reader
three = record { bytes = 1 ∷ 2 ∷ 3 ∷ []; broken = false }

abbrev torn : Reader
torn = record { bytes = 1 ∷ []; broken = true }

abbrev disk : World
disk = disk_with staging (7 ∷ 9 ∷ [])

append_run :
    (append_staging (some root) space_id upload_id (pos 2) (some three) (pos 8) disk).0 ≡ ok 5
unfolding append_staging append_chunk copy_limited chunk_limit wrap_int64 ◌+ℤ◌ plain_call stat_inode
    open_create write_at same_path staging_path scoped_path escapes valid_storage_id storage_bytes
    storage_byte clean rel split ◌==◌
append_run = refl

append_staging_keeps_example :
    take (length (content_at disk staging)) (
      content_at
        (append_staging (some root) space_id upload_id (pos 2) (some torn) (pos 8) disk).1
        staging)
    ≡ content_at disk staging
append_staging_keeps_example =
    append_staging_keeps (some root) space_id upload_id staging (pos 2) 8 torn disk staging_run
      (omega arith)

broken_append_strands_example :
    (append_staging
      (some root)
      space_id
      upload_id
      (pos (length (content_at disk staging)))
      (some three)
      (pos 8)
      (append_staging
        (some root)
        space_id
        upload_id
        (pos (length (content_at disk staging)))
        (some torn)
        (pos 8)
        disk).1).0
    ≢ ok 5
broken_append_strands_example =
    broken_append_strands (some root) space_id upload_id staging 8 5 torn three disk
      (append_staging (some root) space_id upload_id (pos (length (content_at disk staging)))
        (some torn) (pos 8) disk).1
      staging_run (omega arith) (omega arith) (omega arith) refl refl refl refl

abbrev service : Service (Str → Option Session)
service = record {
  repo = some memory_repository;
  store = some (some root);
  security = none;
  max_chunk = pos 8;
  ttl = pos 3600;
}

abbrev advanced_session : Session
advanced_session = record stored_session { offset = pos 5 }

advance_run :
    (append service account_id space_id upload_id (pos 2) (some three) before).0
    ≡ ok (advanced_session, none)
unfolding append get reject_expired is_expired memory_get memory_update time_now append_staging
    append_chunk copy_limited chunk_limit wrap_int64 ◌+ℤ◌ plain_call stat_inode open_create write_at
    same_path staging_path scoped_path escapes valid_storage_id storage_bytes storage_byte clean rel
    split ◌==◌
advance_run = refl

node_valid : valid_storage_id node_id ≡ true
unfolding valid_storage_id storage_bytes storage_byte
node_valid = refl

ids_differ : upload_id ≢ node_id
unfolding ◌==◌
ids_differ h = ground (arith, ==_iff upload_id node_id)

abbrev advanced_state : Stored (Str → Option Session)
advanced_state = (append service account_id space_id upload_id (pos 2) (some three) before).1

append_advances_example :
    (session : Session) × (before.sessions upload_id ≡ some session)
    × (session.state ≡ active)
    × (session.offset ≡ pos (length (content_at before.disk staging)))
    × (content_at advanced_state.disk staging ≡ content_at before.disk staging ++ three.bytes)
    × (advanced_session
        ≡ record session { offset = pos (length (content_at advanced_state.disk staging)) })
    × (advanced_state.sessions upload_id ≡ some advanced_session)
    × (advanced_state.sessions node_id ≡ before.sessions node_id)
    × IsKeyed advanced_state.sessions
append_advances_example =
    append_advances service memory_repository memory-IsRepository (some root) 8 account_id space_id
      upload_id (pos 2) three before staging advanced_session node_id refl refl refl (omega arith)
      staging_run before_holds node_valid ids_differ advance_run

staged_run :
    (write_staging (λ _. 255 ∷ []) (some root) space_id upload_id (some three) (pos 8) disk).0
    ≡ ok (3, str "ff")
unfolding write_staging publish_temp create_temp rename copy_limited chunk_limit wrap_int64 ◌+ℤ◌
    plain_call write_at remove same_path staging_path scoped_path escapes valid_storage_id
    storage_bytes storage_byte clean rel split ◌==◌ hex hex_digit
staged_run = refl
