-- ===== src/Storage/Session/Chunk.antt =====
-- The chunk that `AppendStaging` copies onto the open staging file.
use goreecloud_drive.Prelude.{
  ℕ, suc, zero, ◌+◌, ◌^◌, ◌-◌, ◌≤◌, ◌<◌, ◌≡◌, refl, List, [], ◌∷◌, ◌++◌, arith, length, take, drop,
  take-all, length-take, take-length-append, inl, inr,
}
use mathlib.Core.List.{append-nil}
use goreecloud_drive.Prelude.Int.{pos, ◌+ℤ◌}
use goreecloud_drive.Errors.{Result-cases, ok}
use goreecloud_drive.Os.{
  World, Bytes, Reader, plain_call, copy_limited, write_at, truncate, splice, Fault, fine, fails,
  next_fault,
}
use goreecloud_drive.Storage.Session.{append_chunk, chunk_limit, wrap_int64}

drop-all : (n : ℕ) (bytes : Bytes) → length bytes ≤ n → drop n bytes ≡ []
drop-all zero [] h = refl
drop-all zero (b ∷ bytes) h = absurd (omega arith)
drop-all (suc n) [] h = refl
drop-all (suc n) (b ∷ bytes) h = drop-all n bytes (omega arith)

-- A chunk written at the end of a content.
pub splice_end : (old chunk : Bytes) → splice old (length old) chunk ≡ old ++ chunk
splice_end old chunk =
    rw
      (
        take-all (length old) old (omega arith),
        drop-all (length old + length chunk) old (omega arith),
      )
      (rw append-nil)

pub take_short : (n : ℕ) (bytes : Bytes) → length (take n bytes) < n → take n bytes ≡ bytes
take_short n bytes h = take-all n bytes (omega (arith, length-take n bytes))

-- The limit of the reader, where it does not wrap around.
pub chunk_limit_lem : (max : ℕ) → max < 2 ^ 63 - 1 → chunk_limit (pos max) ≡ suc max
unfolding chunk_limit wrap_int64 ◌+ℤ◌
chunk_limit_lem max h = ground arith

-- The copy onto the end of the open file.
module _ (file limit : ℕ) (src : Reader) (w : World) where
  abbrev old : Bytes
  old = (w.inodes file).content

  copy_limited_ok :
      (written : ℕ)
      → (copy_limited file (length old) limit src w).0 ≡ ok written
      → (written ≡ length (take limit src.bytes))
        × (((copy_limited file (length old) limit src w).1.inodes file).content
            ≡ old ++ take limit src.bytes)
  unfolding copy_limited write_at
  copy_limited_ok written h = ground (arith, splice_end old (take limit src.bytes))

  -- A write at the end adds something, whatever fails.
  write_at_extends :
      (bytes : Bytes) (f : Fault) (fs : List Fault)
      → next_fault w.faults ≡ (f, fs)
      → (more : Bytes) × (((write_at file (length old) bytes w).1.inodes file).content
          ≡ old ++ more)
  unfolding write_at
  write_at_extends bytes fine fs e = (bytes, ground (arith, splice_end old bytes))
  write_at_extends bytes (fails n) fs e =
      (take n bytes, ground (arith, splice_end old (take n bytes)))

  copy_limited_extends :
      (more : Bytes) × (((copy_limited file (length old) limit src w).1.inodes file).content
        ≡ old ++ more)
      × ((copy_limited file (length old) limit src w).1.links ≡ w.links)
  unfolding copy_limited write_at
  copy_limited_extends =
      let (more, e) = write_at_extends (take limit src.bytes) _ _ refl in
      (more, ground (arith, e), ground arith)

-- The chunk on the open file.
module _ (file max : ℕ) (bound : max < 2 ^ 63 - 1) (src : Reader) (w : World) where
  pub append_chunk_ok :
      (n : ℕ)
      → (append_chunk file (length (w.inodes file).content) (pos max) src w).0 ≡ ok n
      → (n ≡ length (w.inodes file).content + length src.bytes)
        × (length src.bytes ≤ max)
        × (((append_chunk file (length (w.inodes file).content) (pos max) src w).1.inodes
              file).content
            ≡ (w.inodes file).content ++ src.bytes)
        × ((append_chunk file (length (w.inodes file).content) (pos max) src w).1.links ≡ w.links)
  unfolding append_chunk plain_call truncate
  append_chunk_ok n h =
      let limit = chunk_limit (pos max) in
      let size = length (w.inodes file).content in
      elim (Result-cases (copy_limited file size limit src w).0) [
        | inr (e, failed) ↦ absurd (ground arith)
        | inl (written, copied) ↦
            let (count, content) = copy_limited_ok file limit src w written copied in
            let (more, extends, links) = copy_limited_extends file limit src w in
            ground (
              arith,
              chunk_limit_lem max bound,
              take_short limit src.bytes,
              length-take limit src.bytes,
            )
      ]

  -- The file keeps what it held, whatever fails; and a chunk that is too long is undone or refused.
  pub append_chunk_keeps :
      (take
          (length (w.inodes file).content)
          ((append_chunk file (length (w.inodes file).content) (pos max) src w).1.inodes
            file).content
        ≡ (w.inodes file).content)
      × ((append_chunk file (length (w.inodes file).content) (pos max) src w).1.links ≡ w.links)
  unfolding append_chunk plain_call truncate
  append_chunk_keeps =
      let limit = chunk_limit (pos max) in
      let size = length (w.inodes file).content in
      let (more, extends, links) = copy_limited_extends file limit src w in
      ground (
        arith,
        take-length-append (w.inodes file).content more,
        take-all size (w.inodes file).content,
      )
