-- ===== src/Storage/Staged.antt =====
-- `WriteStaging`: what it reports of the body that it has staged.
use goreecloud_drive.Prelude.{
  ℕ, ◌^◌, ◌-◌, ◌<◌, ◌≤◌, ◌≡◌, some, List, arith, take, length, length-take, inl, inr,
}
use goreecloud_drive.Prelude.Text.{Str, str}
use goreecloud_drive.Prelude.Int.{pos}
use goreecloud_drive.Errors.{Result-cases, ok}
use goreecloud_drive.Ids.{hex}
use goreecloud_drive.Os.Path.{FilePath}
use goreecloud_drive.Os.{World, Bytes, Reader, plain_call, create_temp, copy_limited, write_at}
use goreecloud_drive.Storage.Local.{Local, staging_path}
use goreecloud_drive.Storage.Session.{chunk_limit}
use goreecloud_drive.Storage.Session.Chunk.{chunk_limit_lem, take_short}
use goreecloud_drive.Storage.StateFile.{parent}
use goreecloud_drive.Storage.Staging.{publish_temp, write_staging}

copy_count :
    (i offset limit n : ℕ) (src : Reader) (w : World)
    → (copy_limited i offset limit src w).0 ≡ ok n
    → n ≡ length (take limit src.bytes)
unfolding copy_limited write_at
copy_count i offset limit n src w h = ground arith

module _ (sha256 : Bytes → List ℕ) (max : ℕ) (bound : max < 2 ^ 63 - 1) (src : Reader) where
  publish_temp_ok :
      (name : FilePath) (temp : ℕ) (path : FilePath) (w : World) (r : ℕ × Str)
      → (publish_temp sha256 name temp path src (pos max) w).0 ≡ ok r
      → (r.0 ≡ length src.bytes) × (r.0 ≤ max) × (r.1 ≡ hex (sha256 src.bytes))
  unfolding publish_temp plain_call
  publish_temp_ok name temp path w r h =
      let limit = chunk_limit (pos max) in
      let w1 = (plain_call w).1 in
      elim (Result-cases (copy_limited temp 0 limit src w1).0) [
        | inr (e, failed) ↦ absurd (ground arith)
        | inl (written, copied) ↦ ground (
          arith,
          copy_count temp 0 limit written src w1 copied,
          chunk_limit_lem max bound,
          take_short limit src.bytes,
          length-take limit src.bytes,
        )
      ]

-- A body that `WriteStaging` has staged, with a maximum below the largest int64, is within the maximum,
-- and the length and the SHA-256 digest that are given are those of the whole body.
pub write_staging_reports :
    (sha256 : Bytes → List ℕ) (l : Local) (space_id upload_id : Str) (max : ℕ) (src : Reader)
    → (w : World) (r : ℕ × Str) → max < 2 ^ 63 - 1
    → (write_staging sha256 l space_id upload_id (some src) (pos max) w).0 ≡ ok r
    → (r.0 ≡ length src.bytes) × (r.0 ≤ max) × (r.1 ≡ hex (sha256 src.bytes))
unfolding write_staging plain_call
write_staging_reports sha256 l sp up max src w r bound h =
    elim (Result-cases (staging_path l sp up)) [
      | inr (e, bad) ↦ absurd (ground arith)
      | inl (p, path) ↦
          let w1 = (plain_call w).1 in
          elim (Result-cases (create_temp (parent p) (str ".upload-") w1).0) [
            | inr (e, failed) ↦ absurd (ground arith)
            | inl ((name, temp), created) ↦
                let w2 = (create_temp (parent p) (str ".upload-") w1).1 in
                ground (arith, publish_temp_ok sha256 max bound src name temp p w2 r)
          ]
    ]
