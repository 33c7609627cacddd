-- ===== src/Prelude/Text.antt =====
-- Go's `string`: a list of bytes. The functions of the package `strings` that the program calls.
use Prim.Native.Char.{code}
use Prim.Native.Nat.{ℕ, zero, suc}
use Prim.Native.String.{String}
use mathlib.Core.Path.{◌≡◌, refl}
use mathlib.Core.Logic.{◌↔◌, ◌≢◌}
use mathlib.Core.Bool.{Bool, true, false, ◌&&◌, ◌||◌}
use mathlib.Core.List.{List, [], ◌∷◌, ◌++◌, map, reverse}
use mathlib.Core.Option.{Option, none, some}
use native.Mathlib.Omega.{arith}
use goreecloud_drive.Prelude.Lists.{length}
use goreecloud_drive.Prelude.Tests.{eqb, eqb_iff, ltb, leb, if◌then◌else◌}

abbrev pub Str : Type 0
Str = List ℕ

-- A text literal of the source; every literal used is ASCII, so its code points are its bytes.
abbrev pub str : String → Str
str String.[] = []
str (String.◌∷◌ c s) = code c ∷ str s

infix 50 ◌==◌
unfoldable pub ◌==◌ : Str → Str → Bool
[] == [] = true
[] == (y ∷ ys) = false
(x ∷ xs) == [] = false
(x ∷ xs) == (y ∷ ys) = eqb x y && xs == ys

pub ==_refl : (a : Str) → (a == a) ≡ true
unfolding ◌==◌
==_refl [] = refl
==_refl (x ∷ xs) = ground (arith, ==_refl xs)

pub ==_sound : (a b : Str) → (a == b) ≡ true → a ≡ b
unfolding ◌==◌
==_sound [] [] h = refl
==_sound [] (y ∷ ys) h = cc
==_sound (x ∷ xs) [] h = cc
==_sound (x ∷ xs) (y ∷ ys) h = ground (arith, ==_sound xs ys)

pub ==_iff : (a b : Str) → ((a == b) ≡ true) ↔ (a ≡ b)
==_iff a b = (==_sound a b, λ e. rw e (==_refl b))

-- Two different texts compare as different.
pub ==_false : (a b : Str) → a ≢ b → (a == b) ≡ false
==_false a b ne = ground (arith, ==_sound a b)

-- Membership of a byte, and of a text in a list of texts.
unfoldable pub has_byte : ℕ → Str → Bool
has_byte b [] = false
has_byte b (c ∷ s) = eqb c b || has_byte b s

unfoldable pub elem : Str → List Str → Bool
elem k [] = false
elem k (j ∷ ks) = j == k || elem k ks

-- strings.ContainsAny(s, chars), for ASCII `chars`.
unfoldable pub contains_any : Str → Str → Bool
unfolding has_byte
contains_any [] chars = false
contains_any (c ∷ s) chars = has_byte c chars || contains_any s chars

-- The rest of `s` behind the prefix `p`.
unfoldable pub strip_prefix : Str → Str → Option Str
strip_prefix [] s = some s
strip_prefix (b ∷ p) [] = none
strip_prefix (b ∷ p) (c ∷ s) = if eqb b c then strip_prefix p s else none

-- strings.HasPrefix(s, p)
unfoldable pub has_prefix : Str → Str → Bool
unfolding strip_prefix
has_prefix s p = elim (strip_prefix p s) [ none ↦ false | some _ ↦ true ]

-- strings.Split(s, sep) for a separator of one byte: never the empty list.
unfoldable pub onto_head : ℕ → List Str → List Str
onto_head c [] = (c ∷ []) ∷ []
onto_head c (p ∷ ps) = (c ∷ p) ∷ ps

unfoldable pub split : ℕ → Str → List Str
unfolding onto_head
split sep [] = [] ∷ []
split sep (c ∷ s) = let parts = split sep s in if eqb c sep then [] ∷ parts else onto_head c parts

pub split-append :
    (sep : ℕ) (a b : Str) → has_byte sep a ≡ false → split sep (a ++ sep ∷ b) ≡ a ∷ split sep b
unfolding split has_byte
split-append sep [] b h = ground (arith, eqb_iff sep sep)
split-append sep (c ∷ a) b h = ground (arith, split-append sep a b)

pub split-without : (sep : ℕ) (a : Str) → has_byte sep a ≡ false → split sep a ≡ a ∷ []
unfolding split has_byte
split-without sep [] h = refl
split-without sep (c ∷ a) h = ground (arith, split-without sep a)

-- The UTF-8 forms of the runes that unicode.IsSpace accepts.
unfoldable pub space_forms : List Str
space_forms =
    (9 ∷ [])
    ∷ (10 ∷ [])
    ∷ (11 ∷ [])
    ∷ (12 ∷ [])
    ∷ (13 ∷ [])
    ∷ (32 ∷ [])
    ∷ (0xc2 ∷ 0x85 ∷ [])
    ∷ (0xc2 ∷ 0xa0 ∷ [])
    ∷ (0xe1 ∷ 0x9a ∷ 0x80 ∷ [])
    ∷ (0xe2 ∷ 0x80 ∷ 0x80 ∷ [])
    ∷ (0xe2 ∷ 0x80 ∷ 0x81 ∷ [])
    ∷ (0xe2 ∷ 0x80 ∷ 0x82 ∷ [])
    ∷ (0xe2 ∷ 0x80 ∷ 0x83 ∷ [])
    ∷ (0xe2 ∷ 0x80 ∷ 0x84 ∷ [])
    ∷ (0xe2 ∷ 0x80 ∷ 0x85 ∷ [])
    ∷ (0xe2 ∷ 0x80 ∷ 0x86 ∷ [])
    ∷ (0xe2 ∷ 0x80 ∷ 0x87 ∷ [])
    ∷ (0xe2 ∷ 0x80 ∷ 0x88 ∷ [])
    ∷ (0xe2 ∷ 0x80 ∷ 0x89 ∷ [])
    ∷ (0xe2 ∷ 0x80 ∷ 0x8a ∷ [])
    ∷ (0xe2 ∷ 0x80 ∷ 0xa8 ∷ [])
    ∷ (0xe2 ∷ 0x80 ∷ 0xa9 ∷ [])
    ∷ (0xe2 ∷ 0x80 ∷ 0xaf ∷ [])
    ∷ (0xe2 ∷ 0x81 ∷ 0x9f ∷ [])
    ∷ (0xe3 ∷ 0x80 ∷ 0x80 ∷ [])
    ∷ []

-- The rest of `s` behind the first of the forms that it begins with.
unfoldable pub strip_one : List Str → Str → Option Str
unfolding strip_prefix
strip_one [] s = none
strip_one (f ∷ forms) s = elim (strip_prefix f s) [
  | some rest ↦ some rest
  | none ↦ strip_one forms s
]

-- Strips forms from the front as long as one is there, at most `fuel` of them.
unfoldable pub strip_all : ℕ → List Str → Str → Str
unfolding strip_one
strip_all zero forms s = s
strip_all (suc fuel) forms s = elim (strip_one forms s) [
  | some rest ↦ strip_all fuel forms rest
  | none ↦ s
]

-- strings.TrimSpace. A text begins (ends) with a space rune exactly if it begins (ends) with its
-- UTF-8 form, and each round takes at least a byte, so the length is fuel enough.
unfoldable pub trim_space : Str → Str
unfolding strip_all space_forms
trim_space s =
    let left = strip_all (length s) space_forms s in
    reverse (strip_all (length left) (map reverse space_forms) (reverse left))

-- The loop `for _, r := range s { if unicode.IsControl(r) ... }`: the control runes are the bytes
-- below 0x20, 0x7f, and the runes U+0080 to U+009F, whose form is 0xc2 and a byte from 0x80 to 0x9f
-- (0xc2 is never a continuation byte, so a rune begins wherever it stands).
unfoldable pub has_control : Str → Bool
has_control [] = false
has_control (c ∷ []) = ltb c 0x20 || eqb c 0x7f
has_control (c ∷ d ∷ s) =
    ltb c 0x20
    || (eqb c 0x7f || ((eqb c 0xc2 && (leb 0x80 d && leb d 0x9f)) || has_control (d ∷ s)))

trim_example : trim_space (str "  a b\t") ≡ str "a b"
unfolding trim_space
trim_example = refl

-- What an update at a key answers for that key, and for another.
pub if_same : {A : Type 0} (a b : Str) (x y : A) → a ≡ b → (if a == b then x else y) ≡ x
if_same a b x y e = rw (e, ==_refl b) refl

pub if_other : {A : Type 0} (a b : Str) (x y : A) → a ≢ b → (if a == b then x else y) ≡ y
if_other a b x y ne = rw (==_false a b ne) refl
