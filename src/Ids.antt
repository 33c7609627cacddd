-- ===== src/Ids.antt =====
-- Identifiers: `newUUID` of internal/nodes/service.go and internal/uploads/session.go, and the test
-- `validStorageID` of internal/storage/local.go that every storage path passes through.
pub mod Uuid
use Prim.Native.Nat.{bit_and, bit_or}
use goreecloud_drive.Prelude.{
  ℕ, zero, suc, ◌+◌, ◌-◌, ◌/◌, ◌%◌, Bool, true, false, ◌&&◌, ◌||◌, Option, none, some, List, [],
  ◌∷◌, ◌++◌, length, take, drop, eqb, leb, ltb, if◌then◌else◌,
}
use goreecloud_drive.Prelude.Text.{Str}
use goreecloud_drive.Errors.{Error, text, wrap, Result, ok, err}

-- A lower-case hexadecimal digit.
unfoldable pub hex_digit : ℕ → ℕ
hex_digit n = if ltb n 10 then 48 + n else 87 + n

-- hex.EncodeToString, and `%x` of a byte slice: two digits for each byte.
unfoldable pub hex : List ℕ → Str
unfolding hex_digit
hex [] = []
hex (b ∷ bs) = hex_digit (b / 16) ∷ hex_digit (b % 16) ∷ hex bs

-- `b[i:j]`
abbrev pub slice : ℕ → ℕ → List ℕ → List ℕ
slice i j b = take (j - i) (drop i b)

-- `b[i] = f(b[i])`
abbrev pub modify_at : ℕ → (ℕ → ℕ) → List ℕ → List ℕ
modify_at i f [] = []
modify_at zero f (x ∷ b) = f x ∷ b
modify_at (suc i) f (x ∷ b) = x ∷ modify_at i f b

-- The version and variant bits of a random UUID.
unfoldable pub set_version : ℕ → ℕ
set_version x = bit_or (bit_and x 0x0f) 0x40

unfoldable pub set_variant : ℕ → ℕ
set_variant x = bit_or (bit_and x 0x3f) 0x80

-- The text of the sixteen random bytes.
unfoldable pub uuid_of : List ℕ → Str
unfolding hex
uuid_of random =
    let b = modify_at 8 set_variant (modify_at 6 set_version random) in
    hex (slice 0 4 b)
    ++ (b'-' ∷ hex (slice 4 6 b)
        ++ (b'-' ∷ hex (slice 6 8 b)
            ++ (b'-' ∷ hex (slice 8 10 b) ++ (b'-' ∷ hex (slice 10 16 b)))))

-- `newUUID`; its argument is what `rand.Read` filled the array with, `none` if that failed.
unfoldable pub new_uuid : Option (List ℕ) → Result Str
unfolding uuid_of
new_uuid none = err (text "rand.Read")
new_uuid (some random) = ok (uuid_of random)

-- The loop of `validStorageID` at index `i`. A rune outside ASCII fails every test of the loop, as
-- its bytes do, so the loop over runes is a loop over bytes.
unfoldable pub storage_byte : ℕ → ℕ → Bool
storage_byte i r =
    if eqb i 8 || eqb i 13 || eqb i 18 || eqb i 23
    then eqb r b'-'
    else (leb b'0' r && leb r b'9') || (leb b'a' r && leb r b'f')

unfoldable pub storage_bytes : ℕ → Str → Bool
storage_bytes i [] = true
storage_bytes i (r ∷ value) = storage_byte i r && storage_bytes (i + 1) value

-- `validStorageID`
unfoldable pub valid_storage_id : Str → Bool
valid_storage_id value = eqb (length value) 36 && storage_bytes 0 value
