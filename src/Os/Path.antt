-- ===== src/Os/Path.antt =====
-- Rooted, slash-separated paths as their components (Go's package path/filepath), and maps from them.
use goreecloud_drive.Prelude.{
  ◌≡◌, ◌≢◌, refl, Bool, true, false, not, ◌&&◌, ◌||◌, List, [], ◌∷◌, ◌++◌, reverse, arith,
  if◌then◌else◌,
}
use goreecloud_drive.Prelude.Text.{Str, str, ◌==◌, ==_refl, ==_sound, split}

abbrev pub FilePath : Type 0
FilePath = List Str

unfoldable pub same_path : FilePath → FilePath → Bool
same_path [] [] = true
same_path [] (d ∷ q) = false
same_path (c ∷ p) [] = false
same_path (c ∷ p) (d ∷ q) = c == d && same_path p q

pub same_path_refl : (p : FilePath) → same_path p p ≡ true
unfolding same_path
same_path_refl [] = refl
same_path_refl (c ∷ p) = ground (arith, ==_refl c, same_path_refl p)

pub same_path_sound : (p q : FilePath) → same_path p q ≡ true → p ≡ q
unfolding same_path
same_path_sound [] [] h = refl
same_path_sound [] (d ∷ q) h = cc
same_path_sound (c ∷ p) [] h = cc
same_path_sound (c ∷ p) (d ∷ q) h = ground (arith, ==_sound c d, same_path_sound p q)

pub same_path-false : (p q : FilePath) → p ≢ q → same_path p q ≡ false
same_path-false p q ne = ground (arith, same_path_sound p q)

abbrev pub update {ℓ} : {A : Type ℓ} → (FilePath → A) → FilePath → A → FilePath → A
update f p v q = if same_path p q then v else f q

-- One component of filepath.Clean, on the reversed result so far: an empty component and `.` are
-- dropped, `..` drops the one before it.
unfoldable pub clean_step : FilePath → Str → FilePath
clean_step stack c =
    if c == [] || c == str "."
    then stack
    else if c == str ".."
    then elim stack [ [] ↦ [] | _ ∷ rest ↦ rest ]
    else c ∷ stack

unfoldable pub clean_onto : FilePath → FilePath → FilePath
unfolding clean_step
clean_onto stack [] = reverse stack
clean_onto stack (c ∷ cs) = clean_onto (clean_step stack c) cs

-- filepath.Clean of a rooted path.
unfoldable pub clean : FilePath → FilePath
unfolding clean_onto
clean = clean_onto []

-- The components of a text between its slashes.
abbrev pub components : Str → FilePath
components = split b'/'

-- The way up from a path, `..` for each component.
abbrev pub ups : FilePath → FilePath
ups [] = []
ups (c ∷ cs) = str ".." ∷ ups cs

-- filepath.Rel(base, target) of two clean rooted paths; `[]` is the text `.`.
unfoldable pub rel : FilePath → FilePath → FilePath
rel [] target = target
rel (b ∷ base) [] = ups (b ∷ base)
rel (b ∷ base) (c ∷ target) = if b == c then rel base target else ups (b ∷ base) ++ (c ∷ target)

-- A component that `clean` keeps.
abbrev pub is_plain : Str → Bool
is_plain c = not (c == [] || c == str ".") && not (c == str "..")
