-- ===== src/Tests/Acceptance.antt =====
-- Runs of the acceptance cases.
use goreecloud_drive.Prelude.{◌≡◌, refl, true, false, none, some, [], ◌∷◌, replicate}
use goreecloud_drive.Prelude.Text.{
  str, ◌==◌, split, trim_space, has_prefix, has_byte, contains_any, strip_prefix,
}
use goreecloud_drive.Prelude.Int.{◌+ℤ◌}
use goreecloud_drive.Errors.{blocked, ok}
use goreecloud_drive.Ids.{
  hex, hex_digit, valid_storage_id, storage_bytes, storage_byte, new_uuid, uuid_of, set_version,
  set_variant,
}
use goreecloud_drive.Os.{
  World, Bytes, plain_call, stat, stat_inode, open_read, open_create, read_all, time_now, link,
  remove, write_at, truncate, copy_limited,
}
use goreecloud_drive.Os.Path.{same_path, clean, rel}
use goreecloud_drive.Storage.Local.{
  scoped_path, escapes, staging_path, object_path, finalize, open_object,
}
use goreecloud_drive.Storage.Session.{
  open_staging, append_staging, append_chunk, chunk_limit, wrap_int64,
}
use goreecloud_drive.Wardveil.Types.{resource_id_of, allow, blocked_unverified}
use goreecloud_drive.Wardveil.Scan.{
  all_hex, valid_sha256, valid_action, equal_fold, evaluate_result, evaluate_record, evaluate,
  block,
}
use goreecloud_drive.Wardveil.Action
use goreecloud_drive.Wardveil.Gate.{
  asks, hash_staging, scan_staging, confirm, evaluate_with, evaluate_upload,
}
use goreecloud_drive.Uploads.{
  is_expired, invalid_target, reject_expired, create, append, get, publish, complete,
}
use goreecloud_drive.Uploads.Memory.{memory_get, memory_create, memory_update}
use goreecloud_drive.Acceptance.{
  Randoms, Sent, exists, acceptance_uuid, same_disposition, contains, recorded, stage_upload,
  send_upload, no_decision,
}
use goreecloud_drive.Acceptance.Upload.{
  CaseEvidence, compare_published, judge_clean, run_upload_case,
}
use goreecloud_drive.Acceptance.Upload.Clean.{IsCleanRelease, run_upload_case-IsCleanRelease}
use goreecloud_drive.Acceptance.Blocked.{
  DecisionCase, validate_held, validate_blocked_decision, write_file, run_changed_during_scan_case,
}
use goreecloud_drive.Tests.Fixtures.{space_id, node_id, upload_id, root, staging, disk_with}
use goreecloud_drive.Tests.Files.{root-IsClean}
use goreecloud_drive.Tests.Sessions.{digest, clean_scanner, stored_session}

abbrev empty_disk : World
empty_disk = record (disk_with staging []) { links = λ _. none; next = 0 }

abbrev random : Randoms
random = record {
  space = some (replicate 16 1);
  node = some (replicate 16 2);
  upload = some (replicate 16 3);
}

abbrev content : Bytes
content = 7 ∷ 9 ∷ []

abbrev clean_evidence : CaseEvidence
clean_evidence = record {
  completed = true;
  disposition = allow;
  can_release = true;
  quarantine_required = false;
  object_published = true;
  staging_held = false;
  published_bytes_match = true;
  quarantine_handoff_generated = false;
  requires_explicit_executor_authority = false;
  destructive_action = false;
  reason_codes = "wardveil_clean_current" ∷ [];
}

clean_run :
    (run_upload_case digest (some root) (asks clean_scanner) random content true empty_disk).0
    ≡ ok clean_evidence
unfolding run_upload_case send_upload stage_upload recorded acceptance_uuid new_uuid uuid_of
    set_version set_variant hex hex_digit create append get complete publish reject_expired
    is_expired invalid_target contains_any has_byte memory_get memory_create memory_update
    append_staging append_chunk chunk_limit wrap_int64 copy_limited write_at open_create finalize
    link remove exists stat judge_clean compare_published open_object same_disposition
    evaluate_upload evaluate_with confirm scan_staging hash_staging open_staging evaluate
    evaluate_record evaluate_result equal_fold valid_action valid_sha256 all_hex plain_call time_now
    read_all open_read stat_inode same_path staging_path object_path scoped_path escapes
    valid_storage_id storage_bytes storage_byte clean rel split ◌==◌ trim_space has_prefix
    strip_prefix resource_id_of ◌+ℤ◌
clean_run = refl

run_upload_case-IsCleanRelease_example :
    IsCleanRelease digest root
      (asks clean_scanner)
      random
      content
      (run_upload_case digest (some root) (asks clean_scanner) random content true empty_disk).1
run_upload_case-IsCleanRelease_example =
    run_upload_case-IsCleanRelease digest root (asks clean_scanner) random content root-IsClean
      empty_disk clean_evidence clean_run

-- The content of this upload is written over while the scanner runs, and the upload is held back.
abbrev changed_case : DecisionCase
changed_case = record {
  status = str "passed";
  disposition = blocked_unverified;
  can_release = false;
  object_published = false;
  staging_held = true;
  reason_codes = "drive_content_changed_during_scan" ∷ [];
}

changed_run :
    (run_changed_during_scan_case digest (some root) 1000000000000 random empty_disk).0
    ≡ ok changed_case
unfolding run_changed_during_scan_case validate_blocked_decision validate_held write_file truncate
    contains send_upload stage_upload recorded acceptance_uuid new_uuid uuid_of set_version
    set_variant hex hex_digit create append get complete publish reject_expired is_expired
    invalid_target contains_any has_byte memory_get memory_create memory_update append_staging
    append_chunk chunk_limit wrap_int64 copy_limited write_at open_create exists stat
    same_disposition evaluate_upload evaluate_with confirm scan_staging hash_staging open_staging
    evaluate evaluate_record evaluate_result equal_fold valid_action valid_sha256 all_hex plain_call
    time_now read_all open_read stat_inode same_path staging_path object_path scoped_path escapes
    valid_storage_id storage_bytes storage_byte clean rel split ◌==◌ trim_space has_prefix
    strip_prefix resource_id_of ◌+ℤ◌
changed_run = refl

-- An upload whose decision was that its content had changed.
abbrev blocked_upload : Sent
blocked_upload = record {
  space_id = space_id;
  node_id = node_id;
  upload_id = upload_id;
  outcome = ok (
    stored_session,
    some (blocked (block Action.upload_finalize "drive_content_changed_during_scan")),
  );
  last = no_decision;
}
