-- ===== src/Tests/Live.antt =====
-- A completion where nothing fails.
use goreecloud_drive.Prelude.{◌≡◌, refl, none, some, [], ◌∷◌}
use goreecloud_drive.Prelude.Text.{◌==◌, trim_space}
use goreecloud_drive.Prelude.Int.{pos}
use goreecloud_drive.Errors.{ok}
use goreecloud_drive.Ids.{hex, hex_digit}
use goreecloud_drive.Os.Path.{same_path}
use goreecloud_drive.Wardveil.Types.{resource_id_of}
use goreecloud_drive.Wardveil.Scan.{
  all_hex, valid_sha256, valid_action, equal_fold, evaluate_result, evaluate_record, evaluate,
}
use goreecloud_drive.Wardveil.Gate.{staged_resource}
use goreecloud_drive.Wardveil.Gate.Live.{IsStaged, IsAnswered}
use goreecloud_drive.Uploads.Interface.{completed}
use goreecloud_drive.Uploads.Memory.{memory_get, memory_update, memory_repository}
use goreecloud_drive.Uploads.{is_expired, complete}
use goreecloud_drive.Uploads.Publication.{wired}
use goreecloud_drive.Uploads.Live.{IsReady, complete_live}
use goreecloud_drive.Tests.Fixtures.{
  space_id, node_id, upload_id, account_id, root, staging, object,
}
use goreecloud_drive.Tests.Files.{root-IsClean, staging_run, object_run}
use goreecloud_drive.Tests.Scans.{clean_envelope, zero_digest}
use goreecloud_drive.Tests.Sessions.{digest, clean_scanner, stored_session, before, released}

before-IsStaged :
    IsStaged digest
      (some root)
      space_id
      upload_id
      staging
      0
      staging_run
      (7 ∷ 9 ∷ [])
      1000
      before.disk
unfolding same_path ◌==◌
before-IsStaged = record {
  calm = record { no_faults = refl; no_stat_faults = refl; no_ticks = refl };
  at = refl;
  regular = refl;
  holds = refl;
  clock = refl;
}

clean_scanner-IsAnswered :
    IsAnswered digest space_id node_id (7 ∷ 9 ∷ []) 1000 clean_scanner released
unfolding evaluate evaluate_record evaluate_result equal_fold valid_action valid_sha256 all_hex hex
    hex_digit ◌==◌ trim_space resource_id_of
clean_scanner-IsAnswered = record {
  envelope =
      clean_envelope (resource_id_of (staged_resource digest space_id node_id (zero_digest, 2)))
        zero_digest;
  given = refl;
  judged = refl;
  released = refl;
}

before-IsReady :
    IsReady digest memory_repository root clean_scanner
      (pos 1024)
      (pos 3600)
      account_id
      stored_session
      staging
      object
      0
      (7 ∷ 9 ∷ [])
      1000
      released
      staging_run
      before
unfolding is_expired memory_get memory_update same_path ◌==◌
before-IsReady = record {
  owner = refl;
  open_state = refl;
  node = refl;
  fresh = refl;
  staged = before-IsStaged;
  placed = object_run;
  free = refl;
  answered = clean_scanner-IsAnswered;
  stored = refl;
  taken = refl;
}

complete_live_example :
    let (r, st) =
      complete
        (wired digest memory_repository root clean_scanner (pos 1024) (pos 3600))
        account_id
        space_id
        upload_id
        before in
    (r ≡ ok (record stored_session { state = completed }, none))
    × ((st.disk.links object ≡ some 0) × ((st.disk.inodes 0).content ≡ 7 ∷ 9 ∷ []))
complete_live_example =
    complete_live digest memory_repository root clean_scanner (pos 1024) (pos 3600) account_id
      stored_session staging object 0 (7 ∷ 9 ∷ []) 1000 released staging_run before before-IsReady
      root-IsClean
