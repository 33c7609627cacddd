-- ===== src/Tests/Overlaps.antt =====
-- A completion during which an `Append` takes effect: to another upload, and to the same.
use goreecloud_drive.Prelude.{
  ◌≡◌, ◌≢◌, refl, sym, subst, false, none, some, [], ◌∷◌, ◌++◌, ◌∙◌, if◌then◌else◌, arith,
}
use goreecloud_drive.Prelude.Text.{Str, str, ◌==◌, split, trim_space, has_prefix, ==_iff}
use goreecloud_drive.Prelude.Int.{pos, ◌+ℤ◌}
use goreecloud_drive.Errors.{ok, ok_injective}
use goreecloud_drive.Ids.{hex, hex_digit, valid_storage_id, storage_bytes, storage_byte}
use goreecloud_drive.Os.{
  Reader, plain_call, stat_inode, open_read, open_create, read_all, write_at, copy_limited,
  time_now, link, remove,
}
use goreecloud_drive.Os.Files.{content_at}
use goreecloud_drive.Os.Path.{FilePath, same_path, clean, rel}
use goreecloud_drive.Storage.Local.{scoped_path, escapes, staging_path, object_path, finalize}
use goreecloud_drive.Storage.Session.{
  open_staging, append_staging, append_chunk, chunk_limit, wrap_int64,
}
use goreecloud_drive.Wardveil.Types.{resource_id_of}
use goreecloud_drive.Wardveil.Scan.{
  all_hex, valid_sha256, valid_action, equal_fold, evaluate_result, evaluate_record, evaluate,
}
use goreecloud_drive.Wardveil.Gate.{
  asks, hash_staging, scan_staging, confirm, evaluate_with, evaluate_upload,
}
use goreecloud_drive.Wardveil.Gate.Confirmed.{IsHashedAs}
use goreecloud_drive.Uploads.Interface.{Session, completed}
use goreecloud_drive.Uploads.Memory.{
  Sessions, memory_get, memory_update, memory_repository, memory-IsRepository, IsKeyed,
}
use goreecloud_drive.Uploads.{
  Service, Stored, is_expired, reject_expired, get, append, publish, complete,
}
use goreecloud_drive.Uploads.Publication.{wired_with}
use goreecloud_drive.Uploads.Overlap.{complete_around, verified, IsPublishedAround}
use goreecloud_drive.Uploads.Overlap.Appended.{
  overlap_keeps_confirmed, overlapping_append_is_published,
}
use goreecloud_drive.Uploads.Overlap.Once.{completes_publish_once}
use goreecloud_drive.Tests.Fixtures.{space_id, upload_id, account_id, root, staging, disk_with}
use goreecloud_drive.Tests.Files.{root-IsClean, staging_run}
use goreecloud_drive.Tests.Sessions.{digest, clean_scanner, stored_session}

abbrev server : Service Sessions
server = wired_with digest memory_repository root (asks clean_scanner) none (pos 1024) (pos 3600)

-- An upload that has no bytes yet.
abbrev other_id : Str
other_id = str "00000000-0000-4000-8000-0000000000ee"

abbrev other_session : Session
other_session = record stored_session { id = other_id; offset = pos 0 }

abbrev two_uploads : Stored Sessions
two_uploads = record {
  disk = disk_with staging (7 ∷ 9 ∷ []);
  sessions = λ k.
      if k == upload_id
      then some stored_session
      else if k == other_id
      then some other_session
      else none;
}

two_uploads-IsKeyed : IsKeyed two_uploads.sessions
two_uploads-IsKeyed k s h = ground (arith, ==_iff k upload_id, ==_iff k other_id)

abbrev chunk : Reader
chunk = record { bytes = 5 ∷ []; broken = false }

abbrev append_other : Stored Sessions → Stored Sessions
append_other x = (append server account_id space_id other_id (pos 0) (some chunk) x).1

abbrev append_same : Stored Sessions → Stored Sessions
append_same x = (append server account_id space_id upload_id (pos 2) (some chunk) x).1

abbrev done : Session
done = record stored_session { state = completed }

around_other :
    (complete_around server account_id space_id upload_id append_other two_uploads).0
    ≡ ok (done, none)
unfolding complete_around append append_staging append_chunk copy_limited chunk_limit wrap_int64
    ◌+ℤ◌ open_create write_at get publish reject_expired is_expired memory_get memory_update
    finalize evaluate_upload evaluate_with confirm scan_staging hash_staging open_staging evaluate
    evaluate_record evaluate_result equal_fold valid_action valid_sha256 all_hex link remove
    plain_call time_now read_all open_read stat_inode same_path staging_path object_path scoped_path
    escapes valid_storage_id storage_bytes storage_byte clean rel split ◌==◌ trim_space has_prefix
    hex hex_digit resource_id_of
around_other = refl

abbrev mid : Stored Sessions
mid = verified server account_id space_id upload_id two_uploads

mid_content : content_at mid.disk staging ≡ 7 ∷ 9 ∷ []
unfolding verified get reject_expired is_expired memory_get memory_update evaluate_upload
    evaluate_with confirm scan_staging hash_staging open_staging evaluate evaluate_record
    evaluate_result equal_fold valid_action valid_sha256 all_hex plain_call time_now read_all
    open_read stat_inode same_path staging_path object_path scoped_path escapes valid_storage_id
    storage_bytes storage_byte clean rel split ◌==◌ trim_space has_prefix hex hex_digit
    resource_id_of content_at
mid_content = refl

other_content : content_at (append_other mid).disk staging ≡ 7 ∷ 9 ∷ []
unfolding verified append append_staging append_chunk copy_limited chunk_limit wrap_int64 ◌+ℤ◌
    open_create write_at get reject_expired is_expired memory_get memory_update evaluate_upload
    evaluate_with confirm scan_staging hash_staging open_staging evaluate evaluate_record
    evaluate_result equal_fold valid_action valid_sha256 all_hex plain_call time_now read_all
    open_read stat_inode same_path staging_path object_path scoped_path escapes valid_storage_id
    storage_bytes storage_byte clean rel split ◌==◌ trim_space has_prefix hex hex_digit
    resource_id_of content_at
other_content = refl

other_keeps :
    (p : FilePath)
    → staging_path (some root) space_id upload_id ≡ ok p
    → content_at (append_other mid).disk p ≡ content_at mid.disk p
other_keeps p path =
    subst (λ q. content_at (append_other mid).disk q ≡ content_at mid.disk q)
      (ok_injective (sym staging_run ∙ path)) (other_content ∙ sym mid_content)

overlap_keeps_confirmed_example :
    (session : Session) × ((memory_get upload_id two_uploads.sessions).0 ≡ ok session)
    × (x : IsPublishedAround digest memory_repository root
        (asks clean_scanner)
        none
        (pos 1024)
        (pos 3600)
        account_id
        space_id
        upload_id
        append_other
        session
        done
        two_uploads
        (complete_around server account_id space_id upload_id append_other two_uploads).1)
    × IsHashedAs digest x.confirmed.hashed (
        content_at
          (complete_around server account_id space_id upload_id append_other two_uploads).1.disk
          x.object)
overlap_keeps_confirmed_example =
    overlap_keeps_confirmed digest memory_repository memory-IsRepository root (asks clean_scanner)
      none (pos 3600) account_id space_id upload_id two_uploads done (pos 1024) append_other
      root-IsClean two_uploads-IsKeyed other_keeps around_other

around_same :
    (complete_around server account_id space_id upload_id append_same two_uploads).0
    ≡ ok (done, none)
unfolding complete_around append append_staging append_chunk copy_limited chunk_limit wrap_int64
    ◌+ℤ◌ open_create write_at get publish reject_expired is_expired memory_get memory_update
    finalize evaluate_upload evaluate_with confirm scan_staging hash_staging open_staging evaluate
    evaluate_record evaluate_result equal_fold valid_action valid_sha256 all_hex link remove
    plain_call time_now read_all open_read stat_inode same_path staging_path object_path scoped_path
    escapes valid_storage_id storage_bytes storage_byte clean rel split ◌==◌ trim_space has_prefix
    hex hex_digit resource_id_of
around_same = refl

same_appended :
    (append server account_id space_id upload_id (pos 2) (some chunk) mid).0
    ≡ ok (record stored_session { offset = pos 3 }, none)
unfolding verified append append_staging append_chunk copy_limited chunk_limit wrap_int64 ◌+ℤ◌
    open_create write_at get reject_expired is_expired memory_get memory_update evaluate_upload
    evaluate_with confirm scan_staging hash_staging open_staging evaluate evaluate_record
    evaluate_result equal_fold valid_action valid_sha256 all_hex plain_call time_now read_all
    open_read stat_inode same_path staging_path object_path scoped_path escapes valid_storage_id
    storage_bytes storage_byte clean rel split ◌==◌ trim_space has_prefix hex hex_digit
    resource_id_of
same_appended = refl

some_bytes : chunk.bytes ≢ []
some_bytes h = ground arith

overlapping_append_is_published_example :
    (session : Session) × ((memory_get upload_id two_uploads.sessions).0 ≡ ok session)
    × (x : IsPublishedAround digest memory_repository root
        (asks clean_scanner)
        none
        (pos 1024)
        (pos 3600)
        account_id
        space_id
        upload_id
        append_same
        session
        done
        two_uploads
        (complete_around server account_id space_id upload_id append_same two_uploads).1)
    × (content_at
          (complete_around server account_id space_id upload_id append_same two_uploads).1.disk
          x.object
        ≡ content_at mid.disk x.confirmed.path ++ chunk.bytes)
    × ¬ IsHashedAs digest x.confirmed.hashed (
        content_at
          (complete_around server account_id space_id upload_id append_same two_uploads).1.disk
          x.object)
overlapping_append_is_published_example =
    overlapping_append_is_published digest memory_repository memory-IsRepository root
      (asks clean_scanner) none (pos 3600) account_id space_id upload_id two_uploads done 1024
      account_id (pos 2) chunk (record stored_session { offset = pos 3 }) root-IsClean
      two_uploads-IsKeyed (omega arith) some_bytes same_appended around_same

second_run : (complete server account_id space_id upload_id mid).0 ≡ ok (done, none)
unfolding complete verified get publish reject_expired is_expired memory_get memory_update finalize
    evaluate_upload evaluate_with confirm scan_staging hash_staging open_staging evaluate
    evaluate_record evaluate_result equal_fold valid_action valid_sha256 all_hex link remove
    plain_call time_now read_all open_read stat_inode same_path staging_path object_path scoped_path
    escapes valid_storage_id storage_bytes storage_byte clean rel split ◌==◌ trim_space has_prefix
    hex hex_digit resource_id_of
second_run = refl

completes_publish_once_example :
    (complete_around server account_id space_id upload_id
      (λ x. (complete server account_id space_id upload_id x).1)
      two_uploads).0
    ≢ ok (done, none)
completes_publish_once_example =
    completes_publish_once digest memory_repository root (asks clean_scanner) none (pos 1024)
      (pos 3600) account_id space_id upload_id account_id two_uploads done done root-IsClean
      second_run
