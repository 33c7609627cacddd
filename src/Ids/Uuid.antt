-- ===== src/Ids/Uuid.antt =====
-- The identifiers that the program generates, against the test of its storage.
use goreecloud_drive.Prelude.{
  ℕ, zero, suc, ◌+◌, ◌<◌, ◌≡◌, refl, Bool, true, false, ◌&&◌, ◌||◌, List, [], ◌∷◌, length, All,
  arith, eqb, leb, ltb, ◌/◌, ◌%◌,
}
use goreecloud_drive.Prelude.Text.{Str}
use goreecloud_drive.Ids.{
  hex_digit, set_version, set_variant, uuid_of, storage_byte, storage_bytes, valid_storage_id,
}

holds_upto : (ℕ → Bool) → ℕ → Bool
holds_upto test zero = true
holds_upto test (suc limit) = holds_upto test limit && test limit

holds_upto_at :
    (test : ℕ → Bool) (limit k : ℕ) → k < limit → holds_upto test limit ≡ true → test k ≡ true
unfolding holds_upto
holds_upto_at test zero k below all = absurd (omega arith)
holds_upto_at test (suc limit) k below all = ground (arith, holds_upto_at test limit k)

set_version-lt : (x : ℕ) → x < 256 → ltb (set_version x) 256 ≡ true
unfolding set_version holds_upto
set_version-lt x h = holds_upto_at (λ y. ltb (set_version y) 256) 256 x h refl

set_variant-lt : (x : ℕ) → x < 256 → ltb (set_variant x) 256 ≡ true
unfolding set_variant holds_upto
set_variant-lt x h = holds_upto_at (λ y. ltb (set_variant y) 256) 256 x h refl

abbrev is_hex : ℕ → Bool
is_hex r = (leb b'0' r && leb r b'9') || (leb b'a' r && leb r b'f')

ltb→lt : (a b : ℕ) → ltb a b ≡ true → a < b
ltb→lt a b h = ground arith

hex_digit-is_hex : (n : ℕ) → n < 16 → is_hex (hex_digit n) ≡ true
unfolding hex_digit
hex_digit-is_hex n h = ground arith

abbrev IsByte : ℕ → Type 0
IsByte x = x < 256

-- The places of the dashes.
abbrev is_dash_at : ℕ → Bool
is_dash_at i = eqb i 8 || eqb i 13 || eqb i 18 || eqb i 23

digit_pair :
    (i b : ℕ) (rest : Str)
    → is_dash_at i ≡ false
    → is_dash_at (i + 1) ≡ false
    → b < 256
    → storage_bytes (i + 1 + 1) rest ≡ true
    → storage_bytes i (hex_digit (b / 16) ∷ hex_digit (b % 16) ∷ rest) ≡ true
unfolding storage_bytes storage_byte
digit_pair i b rest p q lt h =
    rw (p, q, hex_digit-is_hex (b / 16) (omega arith), hex_digit-is_hex (b % 16) (omega arith)) h

dash :
    (i : ℕ) (rest : Str)
    → is_dash_at i ≡ true
    → storage_bytes (i + 1) rest ≡ true
    → storage_bytes i (b'-' ∷ rest) ≡ true
unfolding storage_bytes storage_byte
dash i rest p h = rw p h

end : (i : ℕ) → storage_bytes i [] ≡ true
unfolding storage_bytes
end i = refl

-- The canonical text of sixteen random bytes is a valid storage identifier: the version and variant
-- bits leave every byte a byte, and the dashes stand where the test wants them.
pub uuid_of-valid :
    (b : List ℕ) → length b ≡ 16 → All IsByte b → valid_storage_id (uuid_of b) ≡ true
unfolding valid_storage_id uuid_of
uuid_of-valid (a ∷ b ∷ c ∷ d ∷ e ∷ f ∷ g ∷ h ∷ i ∷ j ∷ k ∷ l ∷ m ∷ n ∷ o ∷ p ∷ []) len bytes =
    let va : set_version g < 256 = ltb→lt _ _ (set_version-lt g (omega arith)) in
    let vb : set_variant i < 256 = ltb→lt _ _ (set_variant-lt i (omega arith)) in
    digit_pair 0 a _ refl refl (omega arith) (
      digit_pair 2 b _ refl refl (omega arith) (
        digit_pair 4 c _ refl refl (omega arith) (
          digit_pair 6 d _ refl refl (omega arith) (
            dash 8 _ refl (
              digit_pair 9 e _ refl refl (omega arith) (
                digit_pair 11 f _ refl refl (omega arith) (
                  dash 13 _ refl (
                    digit_pair 14 (set_version g) _ refl refl va (
                      digit_pair 16 h _ refl refl (omega arith) (
                        dash 18 _ refl (
                          digit_pair 19 (set_variant i) _ refl refl vb (
                            digit_pair 21 j _ refl refl (omega arith) (
                              dash 23 _ refl (
                                digit_pair 24 k _ refl refl (omega arith) (
                                  digit_pair 26 l _ refl refl (omega arith) (
                                    digit_pair 28 m _ refl refl (omega arith) (
                                      digit_pair 30 n _ refl refl (omega arith) (
                                        digit_pair 32 o _ refl refl (omega arith) (
                                          digit_pair 34 p _ refl refl (omega arith)
                                            (end 36))))))))))))))))))))
uuid_of-valid _ len bytes = absurd (omega arith)
