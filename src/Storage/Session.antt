-- ===== src/Storage/Session.antt =====
-- internal/storage/session.go: the durable state of resumable uploads.
pub mod Reading
pub mod Chunk
pub mod Appending
use goreecloud_drive.Prelude.{
  ℕ, ◌+◌, ◌%◌, ◌^◌, ◌-◌, Bool, true, false, not, ◌&&◌, ◌||◌, Option, none, some, List, [], ◌∷◌,
  length, ltb, eqb, if◌then◌else◌,
}
use goreecloud_drive.Prelude.Text.{Str}
use goreecloud_drive.Prelude.Int.{ℤ, pos, negsuc, ◌+ℤ◌, ltb_ℤ, leb_ℤ, pos_part}
use goreecloud_drive.Errors.{Error, wrap, text, Result, ok, err, errors_is, os_not_exist}
use goreecloud_drive.Os.{
  Io, pure, raise, lift, attempt, ignoring, wrapping, ◌>>=◌, ◌>>◌, plain_call, stat, stat_inode,
  open_read, open_create, remove, truncate, copy_limited, Reader,
}
use goreecloud_drive.Os.Path.{FilePath}
use goreecloud_drive.Storage.Local.{Local, staging_path}

-- `Session`
pub record Session : Type 0 where
  pub space_id : Str
  pub upload_id : Str
  pub offset : ℕ

-- `Local.Session`
unfoldable pub session : Local → Str → Str → Io Session
unfolding staging_path
session l space_id upload_id = do
  path ← lift (staging_path l space_id upload_id)
  found ← attempt (stat path)
  elim found [
    | err e ↦
        if errors_is e os_not_exist
        then pure (record { space_id = space_id; upload_id = upload_id; offset = 0 })
        else raise (wrap "stat upload session" e)
    | ok info ↦
        if info.regular
        then pure
            (record { space_id = space_id; upload_id = upload_id; offset = length info.content })
        else raise (text "upload session is not a regular file")
  ]

-- `OpenStaging`; the reader that it gives is the descriptor.
unfoldable pub open_staging : Local → Str → Str → Io ℕ
unfolding staging_path
open_staging l space_id upload_id = do
  path ← lift (staging_path l space_id upload_id)
  file ← wrapping "open staged upload" (open_read path)
  info ← wrapping "stat staged upload" (stat_inode file)
  if info.regular then pure file else raise (text "staged upload is not a regular file")

-- A result of an `int64` addition: wrapped around at 2^63.
unfoldable pub wrap_int64 : ℤ → ℤ
wrap_int64 (pos n) = let u = n % 2 ^ 64 in if ltb u (2 ^ 63) then pos u else negsuc (2 ^ 64 - 1 - u)
wrap_int64 (negsuc n) =
    let u = n % 2 ^ 64 in if ltb u (2 ^ 63) then negsuc u else pos (2 ^ 64 - 1 - u)

-- The limit `maxChunkBytes+1` of the reader; a limit that is not positive reads nothing.
unfoldable pub chunk_limit : ℤ → ℕ
unfolding wrap_int64
chunk_limit max_chunk_bytes = pos_part (wrap_int64 (max_chunk_bytes +ℤ pos 1))

-- What `AppendStaging` does with the open file of the expected size: copy at most one byte more than
-- the maximum, undo a chunk that was too long, and sync.
unfoldable pub append_chunk : ℕ → ℕ → ℤ → Reader → Io ℕ
unfolding copy_limited chunk_limit
append_chunk file offset max_chunk_bytes src = do
  written ←
      wrapping "append upload chunk" (copy_limited file offset (chunk_limit max_chunk_bytes) src)
  if ltb_ℤ max_chunk_bytes (pos written)
      then ignoring (truncate file offset) >> raise (text "upload chunk exceeds configured maximum")
      else wrapping "sync upload chunk" plain_call >> pure (offset + written)

-- `AppendStaging`. No caller uses the offset that it returns beside an error. The offset is a file
-- size, so `expectedOffset + written` stays far below 2^63.
unfoldable pub append_staging : Local → Str → Str → ℤ → Option Reader → ℤ → Io ℕ
unfolding staging_path append_chunk
append_staging l space_id upload_id expected_offset none max_chunk_bytes =
    raise (text "upload source must not be nil")
append_staging l space_id upload_id expected_offset (some src) max_chunk_bytes =
    if ltb_ℤ expected_offset (pos 0) || leb_ℤ max_chunk_bytes (pos 0)
    then raise (text "upload offset and chunk limit are invalid")
    else do
      path ← lift (staging_path l space_id upload_id)
      wrapping "create staging scope" plain_call
      file ← wrapping "open upload session" (open_create path)
      info ← wrapping "stat upload session" (stat_inode file)
      let size = length info.content
      if not (eqb size (pos_part expected_offset))
          then raise (text "upload offset mismatch")
          else wrapping "seek upload session" plain_call
            >> append_chunk file size max_chunk_bytes src

-- The error of a Remove that found nothing is no error.
abbrev pub unless_missing : Result (Unit {0}) → Io (Unit {0})
unless_missing (ok _) = pure tt
unless_missing (err e) =
    if errors_is e os_not_exist then pure tt else raise (wrap "discard staged upload" e)

-- `DiscardStaging`
unfoldable pub discard_staging : Local → Str → Str → Io (Unit {0})
unfolding staging_path
discard_staging l space_id upload_id = do
  path ← lift (staging_path l space_id upload_id)
  removed ← attempt (remove path)
  unless_missing removed
