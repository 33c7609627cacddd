-- ===== src/Tests/Sessions.antt =====
-- A completed upload: two staged bytes, a session for them, and a scanner that finds them clean.
use goreecloud_drive.Prelude.{
  ℕ, ◌≡◌, refl, true, false, none, some, List, [], ◌∷◌, replicate, if◌then◌else◌, arith,
}
use goreecloud_drive.Prelude.Text.{str, ◌==◌, split, trim_space, has_prefix, ==_iff}
use goreecloud_drive.Prelude.Int.{pos}
use goreecloud_drive.Errors.{ok}
use goreecloud_drive.Ids.{hex, hex_digit, valid_storage_id, storage_bytes, storage_byte}
use goreecloud_drive.Os.{Bytes, plain_call, stat_inode, open_read, read_all, time_now, link, remove}
use goreecloud_drive.Os.Path.{same_path, clean, rel}
use goreecloud_drive.Storage.Local.{scoped_path, escapes, staging_path, object_path, finalize}
use goreecloud_drive.Storage.Session.{open_staging}
use goreecloud_drive.Wardveil.Types.{resource_id_of}
use goreecloud_drive.Wardveil.Scan.{
  all_hex, valid_sha256, valid_action, equal_fold, evaluate_result, evaluate_record, evaluate,
}
use goreecloud_drive.Wardveil.Gate.{
  Answers, asks, hash_staging, scan_staging, confirm, evaluate_with, evaluate_upload,
}
use goreecloud_drive.Wardveil.Gate.{staged_resource}
use goreecloud_drive.Wardveil.Action
use goreecloud_drive.Wardveil.Types.{Decision, allow}
use goreecloud_drive.Wardveil.Scan.{decide}
use goreecloud_drive.Uploads.Interface.{Session, active, completed}
use goreecloud_drive.Uploads.Memory.{
  Sessions, memory_get, memory_update, memory_repository, memory-IsRepository, IsKeyed,
}
use goreecloud_drive.Uploads.{Stored, is_expired, reject_expired, get, publish, complete}
use goreecloud_drive.Uploads.Confirmed.{IsReleasedObject, complete_publishes_confirmed}
use goreecloud_drive.Uploads.Publication.{wired, IsPublished, complete_publishes_released}
use goreecloud_drive.Tests.Fixtures.{
  space_id, node_id, upload_id, account_id, root, staging, disk_with,
}
use goreecloud_drive.Tests.Files.{root-IsClean}
use goreecloud_drive.Tests.Scans.{clean_envelope}

abbrev pub digest : Bytes → List ℕ
digest _ = replicate 32 0

abbrev pub clean_scanner : Answers
clean_scanner request _ = ok (clean_envelope request.resource_id request.digest_sha256)

abbrev pub stored_session : Session
stored_session = record {
  id = upload_id;
  space_id = space_id;
  account_id = account_id;
  parent_node_id = [];
  target_name = str "report.txt";
  node_id = node_id;
  offset = pos 2;
  state = active;
  expires_at = 5000;
}

abbrev pub before : Stored Sessions
before = record {
  disk = disk_with staging (7 ∷ 9 ∷ []);
  sessions = λ k. if k == upload_id then some stored_session else none;
}

before-IsKeyed : IsKeyed before.sessions
before-IsKeyed k s h = ground (arith, ==_iff k upload_id)

pub before_holds : IsKeyed before.sessions
before_holds = before-IsKeyed

completed_run :
    (complete
      (wired digest memory_repository root clean_scanner (pos 1024) (pos 3600))
      account_id
      space_id
      upload_id
      before).0
    ≡ ok (record stored_session { state = completed }, none)
unfolding complete get publish reject_expired is_expired memory_get memory_update finalize
    evaluate_upload evaluate_with confirm scan_staging hash_staging open_staging evaluate
    evaluate_record evaluate_result equal_fold valid_action valid_sha256 all_hex link remove
    plain_call time_now read_all open_read stat_inode same_path staging_path object_path scoped_path
    escapes valid_storage_id storage_bytes storage_byte clean rel split ◌==◌ trim_space has_prefix
    hex hex_digit resource_id_of
completed_run = refl

-- The gate's decision about the staged bytes.
abbrev pub released : Decision
released =
    decide Action.upload_finalize allow true false "wardveil_clean_current"
      (clean_envelope
        (resource_id_of (staged_resource digest space_id node_id (hex (replicate 32 0), 2)))
        (hex (replicate 32 0))).scan_record

gate_run :
    (evaluate_upload digest
      (record { store = some (some root); scanner = some (asks clean_scanner); now = none })
      space_id
      upload_id
      node_id
      before.disk).0
    ≡ ok released
unfolding evaluate_upload evaluate_with confirm scan_staging hash_staging open_staging evaluate
    evaluate_record evaluate_result equal_fold valid_action valid_sha256 all_hex plain_call time_now
    read_all open_read stat_inode same_path staging_path scoped_path escapes valid_storage_id
    storage_bytes storage_byte clean rel split ◌==◌ trim_space has_prefix hex hex_digit
    resource_id_of
gate_run = refl

complete_publishes_released_example :
    (session : Session) × ((memory_get upload_id before.sessions).0 ≡ ok session)
    × (session.account_id ≡ account_id)
    × (session.space_id ≡ space_id)
    × (session.state ≡ active)
    × (record stored_session { state = completed } ≡ record session { state = completed })
    × IsPublished digest root clean_scanner space_id upload_id session before
        (complete
          (wired digest memory_repository root clean_scanner (pos 1024) (pos 3600))
          account_id
          space_id
          upload_id
          before).1
complete_publishes_released_example =
    complete_publishes_released digest memory_repository memory-IsRepository root clean_scanner
      (pos 1024) (pos 3600) account_id space_id upload_id before
      (record stored_session { state = completed }) root-IsClean before_holds completed_run

complete_publishes_confirmed_example :
    (session : Session) × ((memory_get upload_id before.sessions).0 ≡ ok session)
    × (session.account_id ≡ account_id)
    × (session.space_id ≡ space_id)
    × (session.state ≡ active)
    × (record stored_session { state = completed } ≡ record session { state = completed })
    × IsReleasedObject digest memory_repository root
        (asks clean_scanner)
        none
        (pos 1024)
        (pos 3600)
        account_id
        space_id
        upload_id
        session
        before
        (complete
          (wired digest memory_repository root clean_scanner (pos 1024) (pos 3600))
          account_id
          space_id
          upload_id
          before).1
complete_publishes_confirmed_example =
    complete_publishes_confirmed digest memory_repository root (asks clean_scanner) none (pos 1024)
      (pos 3600) account_id space_id upload_id memory-IsRepository before
      (record stored_session { state = completed }) root-IsClean before_holds completed_run
