-- ===== src/Storage/Session/Appending.antt =====
-- `AppendStaging`: what an upload's staged content is after an append.
use goreecloud_drive.Prelude.{
  ℕ, suc, ◌+◌, ◌^◌, ◌-◌, ◌≤◌, ◌<◌, ◌≡◌, true, not, some, [], ◌++◌, arith, length, take, take-all,
  length-append, ◌≢◌, eqb, inl, inr, Option-cases, if◌then◌else◌,
}
use goreecloud_drive.Prelude.Text.{Str}
use goreecloud_drive.Prelude.Int.{ℤ, pos, pos_part}
use goreecloud_drive.Errors.{Error, Result-cases, ok, err, text}
use goreecloud_drive.Os.Path.{FilePath, same_path_refl}
use goreecloud_drive.Os.{
  World, Reader, plain_call, stat_inode, open_create, copy_limited, write_at, Io, raise, wrapping,
  ◌>>=◌, ◌>>◌,
}
use goreecloud_drive.Os.Files.{SameFiles, content_at, content_at-SameFiles, plain_call-SameFiles}
use goreecloud_drive.Storage.Local.{Local, staging_path}
use goreecloud_drive.Storage.Session.{append_chunk, append_staging}
use goreecloud_drive.Storage.Session.Chunk.{
  append_chunk_ok, append_chunk_keeps, splice_end, chunk_limit_lem,
}

-- Opening the staging file creates it empty or finds its content.
open_create_ok :
    (p : FilePath) (w : World) (i : ℕ)
    → (open_create p w).0 ≡ ok i
    → ((open_create p w).1.links p ≡ some i)
      × (((open_create p w).1.inodes i).content ≡ content_at w p)
unfolding open_create content_at
open_create_ok p w i h = ground (arith, same_path_refl p)

-- An error in opening the file changes none.
open_create_err :
    (p : FilePath) (w : World) (e : Error)
    → (open_create p w).0 ≡ err e
    → SameFiles w (open_create p w).1
unfolding open_create
open_create_err p w e h = ground arith

stat_inode-SameFiles : (i : ℕ) (w : World) → SameFiles w (stat_inode i w).1
unfolding stat_inode
stat_inode-SameFiles i w = ground arith

-- What `AppendStaging` does once the file is open.
abbrev append_open : ℕ → ℤ → ℕ → Reader → Io ℕ
append_open file expected max src = do
  info ← wrapping "stat upload session" (stat_inode file)
  let size = length info.content
  if not (eqb size (pos_part expected))
      then raise (text "upload offset mismatch")
      else wrapping "seek upload session" plain_call >> append_chunk file size (pos max) src

module _ (file max : ℕ) (bound : max < 2 ^ 63 - 1) (src : Reader) (expected : ℤ) (w : World) where
  append_open_ok :
      (n : ℕ)
      → (append_open file expected max src w).0 ≡ ok n
      → (pos_part expected ≡ length (w.inodes file).content)
        × (n ≡ length (w.inodes file).content + length src.bytes)
        × (length src.bytes ≤ max)
        × (((append_open file expected max src w).1.inodes file).content
            ≡ (w.inodes file).content ++ src.bytes)
        × ((append_open file expected max src w).1.links ≡ w.links)
  unfolding stat_inode plain_call
  append_open_ok n h =
      let w1 = (stat_inode file w).1 in
      let w2 = (plain_call w1).1 in ground (arith, append_chunk_ok file max bound src w2 n)

  append_open_keeps :
      (take
          (length (w.inodes file).content)
          ((append_open file expected max src w).1.inodes file).content
        ≡ (w.inodes file).content)
      × ((append_open file expected max src w).1.links ≡ w.links)
  unfolding stat_inode plain_call
  append_open_keeps =
      let w1 = (stat_inode file w).1 in
      let w2 = (plain_call w1).1 in
      ground (
        arith,
        append_chunk_keeps file max bound src w2,
        take-all (length (w.inodes file).content) (w.inodes file).content,
      )

content_at_linked :
    (w : World) (p : FilePath) (i : ℕ) → w.links p ≡ some i → content_at w p ≡ (w.inodes i).content
unfolding content_at
content_at_linked w p i at = rw at

-- An append that succeeds, with a maximum below the largest int64: the expected offset was the size of
-- the staged content, the source has ended within the maximum, exactly its bytes were added at the
-- end, and the offset given is the new size.
pub append_staging_appends :
    (l : Local) (space_id upload_id : Str) (p : FilePath) (expected : ℤ) (max : ℕ) (src : Reader)
    → (w : World) (n : ℕ) → staging_path l space_id upload_id ≡ ok p
    → max < 2 ^ 63 - 1
    → (append_staging l space_id upload_id expected (some src) (pos max) w).0 ≡ ok n
    → (expected ≡ pos (length (content_at w p)))
      × (n ≡ length (content_at w p) + length src.bytes)
      × (length src.bytes ≤ max)
      × (content_at (append_staging l space_id upload_id expected (some src) (pos max) w).1 p
          ≡ content_at w p ++ src.bytes)
unfolding append_staging plain_call
append_staging_appends l sp up p expected max src w n at bound h =
    let w1 = (plain_call w).1 in
    elim (Result-cases (open_create p w1).0) [
      | inr (e, failed) ↦ absurd (ground arith)
      | inl (i, opened) ↦
          let w2 = (open_create p w1).1 in
          let (linked, content) = open_create_ok p w1 i opened in
          let w3 = (append_open i expected max src w2).1 in
          ground (
            arith,
            append_open_ok i max bound src expected w2 n,
            content_at-SameFiles w w1 p (plain_call-SameFiles w),
            content_at_linked w3 p i,
          )
    ]

-- With a maximum below the largest int64, no append loses what was staged before: whatever fails, the
-- old content is what the new content begins with.
pub append_staging_keeps :
    (l : Local) (space_id upload_id : Str) (p : FilePath) (expected : ℤ) (max : ℕ) (src : Reader)
    → (w : World) → staging_path l space_id upload_id ≡ ok p
    → max < 2 ^ 63 - 1
    → take
        (length (content_at w p))
        (content_at (append_staging l space_id upload_id expected (some src) (pos max) w).1 p)
      ≡ content_at w p
unfolding append_staging plain_call
append_staging_keeps l sp up p expected max src w at bound =
    let w1 = (plain_call w).1 in
    let same = content_at-SameFiles w w1 p (plain_call-SameFiles w) in
    let whole = take-all (length (content_at w p)) (content_at w p) in
    let w2 = (open_create p w1).1 in
    elim (Result-cases (open_create p w1).0) [
      | inr (e, failed) ↦
          ground (arith, whole, same, content_at-SameFiles w1 w2 p (open_create_err p w1 e failed))
      | inl (i, opened) ↦
          let (linked, content) = open_create_ok p w1 i opened in
          let w3 = (append_open i expected max src w2).1 in
          ground (
            arith,
            whole,
            same,
            append_open_keeps i max bound src expected w2,
            content_at_linked w3 p i,
          )
    ]

-- An append on a disk without faults whose source breaks after some bytes, at the right offset.
broken_append_grows :
    (l : Local) (space_id upload_id : Str) (p : FilePath) (max : ℕ) (src : Reader) (w : World)
    → staging_path l space_id upload_id ≡ ok p
    → max < 2 ^ 63 - 1
    → 0 < length src.bytes
    → length src.bytes ≤ max
    → src.broken ≡ true
    → w.faults ≡ []
    → w.stat_faults ≡ []
    → content_at
        (append_staging l space_id upload_id
          (pos (length (content_at w p)))
          (some src)
          (pos max)
          w).1
        p
      ≡ content_at w p ++ src.bytes
unfolding append_staging plain_call open_create stat_inode append_chunk copy_limited write_at
    content_at
broken_append_grows l sp up p max src w at bound some_bytes short broken calm calm_stat =
    elim (Option-cases (w.links p)) [
      | inl new ↦ ground (
        arith,
        same_path_refl p,
        chunk_limit_lem max bound,
        take-all (suc max) src.bytes,
        splice_end [] src.bytes,
      )
      | inr (i, old) ↦ ground (
        arith,
        chunk_limit_lem max bound,
        take-all (suc max) src.bytes,
        splice_end (w.inodes i).content src.bytes,
      )
    ]

-- On a disk without faults, an append at the right offset whose source breaks after one byte or more
-- (and within the maximum, which is below the largest int64) strands the upload: as long as the staged
-- content stays as it is then, no append at that offset succeeds again.
pub broken_append_strands :
    (l : Local) (space_id upload_id : Str) (p : FilePath) (max n : ℕ) (src again : Reader)
    → (w later : World) → staging_path l space_id upload_id ≡ ok p
    → max < 2 ^ 63 - 1
    → 0 < length src.bytes
    → length src.bytes ≤ max
    → src.broken ≡ true
    → w.faults ≡ []
    → w.stat_faults ≡ []
    → content_at later p
      ≡ content_at
          (append_staging l space_id upload_id
            (pos (length (content_at w p)))
            (some src)
            (pos max)
            w).1
          p
    → (append_staging l space_id upload_id
        (pos (length (content_at w p)))
        (some again)
        (pos max)
        later).0
      ≢ ok n
broken_append_strands l sp up p max n src again w later at bound some_bytes short broken calm
      calm_stat same h =
    let offset = length (content_at w p) in
    let right = (append_staging_appends l sp up p (pos offset) max again later n at bound h).0 in
    let grown =
      broken_append_grows l sp up p max src w at bound some_bytes short broken calm calm_stat in
    ground (arith, length-append (content_at w p) src.bytes)
