-- ===== src/Os/Files.antt =====
-- The part of a world that holds files, and the calls that leave it alone.
use goreecloud_drive.Prelude.{ℕ, ◌≡◌, refl, ◌∙◌, Option, none, some, [], arith}
use goreecloud_drive.Errors.{ok}
use goreecloud_drive.Os.Path.{FilePath}
use goreecloud_drive.Os.{World, Bytes, plain_call, read_all, time_now}

-- The same names are linked to the same inodes, with the same contents.
pub record SameFiles (w w' : World) : Type 0 where
  pub links : w'.links ≡ w.links
  pub inodes : w'.inodes ≡ w.inodes

-- The content behind a path: nothing where there is no file.
abbrev pub content_of : World → Option ℕ → Bytes
content_of w none = []
content_of w (some i) = (w.inodes i).content

unfoldable pub content_at : World → FilePath → Bytes
content_at w p = content_of w (w.links p)

pub plain_call-SameFiles : (w : World) → SameFiles w (plain_call w).1
unfolding plain_call
plain_call-SameFiles w = ground arith

pub read_all-SameFiles : (i : ℕ) (w : World) → SameFiles w (read_all i w).1
unfolding read_all
read_all-SameFiles i w = ground arith

pub read_all_ok :
    (i : ℕ) (w : World) {b : Bytes} → (read_all i w).0 ≡ ok b → b ≡ (w.inodes i).content
unfolding read_all
read_all_ok i w h = ground arith

pub time_now-SameFiles : (w : World) → SameFiles w (time_now w).1
unfolding time_now
time_now-SameFiles w = ground arith

pub SameFiles-trans : {u v w : World} → SameFiles u v → SameFiles v w → SameFiles u w
SameFiles-trans a b = record { links = b.links ∙ a.links; inodes = b.inodes ∙ a.inodes }

pub content_at-SameFiles :
    (w w' : World) (p : FilePath) → SameFiles w w' → content_at w' p ≡ content_at w p
unfolding content_at
content_at-SameFiles w w' p same = rw (same.links, same.inodes) refl

-- The content under a new name is that of the old name before.
pub moved_content :
    (w w' : World) (p o : FilePath) (i : ℕ)
    → w.links p ≡ some i
    → w'.links o ≡ some i
    → w'.inodes ≡ w.inodes
    → content_at w' o ≡ content_at w p
unfolding content_at
moved_content w w' p o i from to kept = rw (from, to, kept) refl
