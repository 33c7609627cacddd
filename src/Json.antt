-- ===== src/Json.antt =====
-- What the packages that use encoding/json share: a decoder of the first value of a text is a parameter.
use goreecloud_drive.Prelude.{Bool, true, ◌&&◌, ◌||◌, Option, [], ◌∷◌, eqb}
use goreecloud_drive.Os.{Bytes}

-- A decoder of the first JSON value of a text: the value and what follows it, or nothing where that is
-- malformed, has another type, or has an unknown field.
abbrev pub Decoder : Type 0 → Type 0
Decoder T = Bytes → Option (T × Bytes)

-- What the decoder skips between values.
unfoldable pub is_blank : Bytes → Bool
is_blank [] = true
is_blank (c ∷ s) = (eqb c 32 || (eqb c 9 || (eqb c 10 || eqb c 13))) && is_blank s
