-- ===== src/Storage/Staging.antt =====
-- `WriteStaging` of internal/storage/local.go: a complete upload body goes to a temporary file that is
-- renamed into place. SHA-256 is a function on byte strings.
use goreecloud_drive.Prelude.{ℕ, Option, none, some, List, take, if◌then◌else◌}
use goreecloud_drive.Prelude.Text.{Str, str}
use goreecloud_drive.Prelude.Int.{ℤ, pos, ltb_ℤ, leb_ℤ}
use goreecloud_drive.Errors.{Result, ok, err, text}
use goreecloud_drive.Ids.{hex}
use goreecloud_drive.Os.Path.{FilePath}
use goreecloud_drive.Os.{
  Io, Bytes, Reader, pure, raise, lift, attempt, ignoring, wrapping, ◌>>=◌, ◌>>◌, plain_call,
  create_temp, copy_limited, rename, remove,
}
use goreecloud_drive.Storage.Local.{Local, staging_path}
use goreecloud_drive.Storage.Session.{chunk_limit}
use goreecloud_drive.Storage.StateFile.{parent}

module _ (sha256 : Bytes → List ℕ) where
  -- The steps on the open temporary file: Chmod, the copy of at most one byte more than the maximum
  -- (hashed on the way), Sync, Close and Rename.
  unfoldable pub publish_temp : FilePath → ℕ → FilePath → Reader → ℤ → Io (ℕ × Str)
  publish_temp name temp path src max_bytes = do
    wrapping "secure staging temporary file" plain_call
    written ← wrapping "write staging object" (copy_limited temp 0 (chunk_limit max_bytes) src)
    if ltb_ℤ max_bytes (pos written) then raise (text "upload exceeds configured maximum") else do
      wrapping "sync staging object" plain_call
      wrapping "close staging object" plain_call
      wrapping "publish staging object" (rename name path)
      pure (written, hex (sha256 (take (chunk_limit max_bytes) src.bytes)))

  -- The deferred removal of a temporary file that was not published.
  abbrev unless_kept : FilePath → Result (ℕ × Str) → Io (Unit {0})
  unless_kept name (ok _) = pure tt
  unless_kept name (err _) = ignoring (remove name)

  -- `WriteStaging`; the deferred function closes the file on every way out.
  unfoldable pub write_staging : Local → Str → Str → Option Reader → ℤ → Io (ℕ × Str)
  write_staging l space_id upload_id none max_bytes = raise (text "upload source must not be nil")
  write_staging l space_id upload_id (some src) max_bytes =
      if leb_ℤ max_bytes (pos 0) then raise (text "maximum upload size must be positive") else do
        path ← lift (staging_path l space_id upload_id)
        wrapping "create staging scope" plain_call
        (name, temp) ←
            wrapping "create staging temporary file" (create_temp (parent path) (str ".upload-"))
        published ← attempt (publish_temp name temp path src max_bytes)
        ignoring plain_call
        unless_kept name published
        lift published
