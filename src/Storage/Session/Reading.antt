-- ===== src/Storage/Session/Reading.antt =====
-- Opening staged content for reading.
use goreecloud_drive.Prelude.{ℕ, ◌≡◌, some, arith}
use goreecloud_drive.Prelude.Text.{Str}
use goreecloud_drive.Errors.{ok}
use goreecloud_drive.Os.Path.{FilePath}
use goreecloud_drive.Os.{World, stat_inode, open_read}
use goreecloud_drive.Os.Files.{SameFiles}
use goreecloud_drive.Storage.Local.{Local, staging_path}
use goreecloud_drive.Storage.Session.{open_staging}

module _ (l : Local) (space_id upload_id : Str) (w : World) where
  pub open_staging-SameFiles : SameFiles w (open_staging l space_id upload_id w).1
  unfolding open_staging open_read stat_inode
  open_staging-SameFiles = ground arith

  -- The descriptor is the inode that the staging path is linked to.
  pub open_staging_ok :
      (i : ℕ)
      → (open_staging l space_id upload_id w).0 ≡ ok i
      → (p : FilePath) × (staging_path l space_id upload_id ≡ ok p) × (w.links p ≡ some i)
  unfolding open_staging open_read stat_inode
  open_staging_ok i h = ground arith
