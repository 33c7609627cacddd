-- ===== src/Wardveil/ScanText.antt =====
-- The texts of internal/wardveil/http_scanner.go: tokens, the lines that are signed, and lower case.
use goreecloud_drive.Prelude.{
  ℕ, Bool, true, false, ◌&&◌, ◌||◌, Option, none, some, List, [], ◌∷◌, ◌++◌, length, ltb, leb, eqb,
  if◌then◌else◌,
}
use goreecloud_drive.Prelude.Text.{Str, str}
use goreecloud_drive.Prelude.Int.{ℤ}
use goreecloud_drive.Prelude.Decimal.{format_int}
use goreecloud_drive.Errors.{text, Result, ok, err}
use goreecloud_drive.Ids.{hex}
use goreecloud_drive.Os.{Bytes}
use goreecloud_drive.Wardveil.Scan.{lower}

abbrev pub scan_contract_version : Str
scan_contract_version = str "0.1.0"

-- A maker of tokens, from what rand.Read gives.
abbrev pub TokenMaker : Type 0
TokenMaker = Option Bytes → Result Str

-- `validScanToken`. A rune outside ASCII fails every test, as its bytes do.
abbrev pub is_alphanumeric : ℕ → Bool
is_alphanumeric c =
    (leb b'A' c && leb c b'Z') || ((leb b'a' c && leb c b'z') || (leb b'0' c && leb c b'9'))

abbrev pub is_token_byte : ℕ → Bool
is_token_byte c = is_alphanumeric c || (eqb c b'.' || (eqb c b'_' || (eqb c b':' || eqb c b'-')))

unfoldable pub token_bytes : Str → Bool
token_bytes [] = true
token_bytes (c ∷ s) = is_token_byte c && token_bytes s

abbrev pub alphanumeric_first : Str → Bool
alphanumeric_first [] = true
alphanumeric_first (c ∷ s) = is_alphanumeric c

unfoldable pub valid_scan_token : Str → Bool
unfolding token_bytes
valid_scan_token value =
    if ltb (length value) 1 || ltb 256 (length value)
    then false
    else alphanumeric_first value && token_bytes value

-- `randomScanToken`
unfoldable pub random_scan_token : Str → TokenMaker
random_scan_token prefix none = err (text "rand.Read")
random_scan_token prefix (some raw) = ok (prefix ++ (b'-' ∷ hex raw))

-- strings.Join(parts, "\n")
unfoldable pub join_lines : List Str → Str
join_lines [] = []
join_lines (p ∷ []) = p
join_lines (p ∷ q ∷ parts) = p ++ (10 ∷ join_lines (q ∷ parts))

-- The lines that `signScanRequest` signs.
abbrev pub scan_material : Str → Str → Str → Str → Str → Str → Str → Str → ℤ → Str → List Str
scan_material caller_id key_id timestamp nonce action resource_type resource_id correlation_id
      size_bytes digest_sha256 =
    scan_contract_version
    ∷ caller_id
    ∷ key_id
    ∷ timestamp
    ∷ nonce
    ∷ action
    ∷ resource_type
    ∷ resource_id
    ∷ correlation_id
    ∷ format_int size_bytes
    ∷ digest_sha256
    ∷ []

-- `signScanRequest`, of the lines.
unfoldable pub sign_scan_request : (Bytes → Bytes → Bytes) → Bytes → List Str → Str
sign_scan_request hmac_sha256 secret lines = hex (hmac_sha256 secret (join_lines lines))

-- strings.ToLower of ASCII text
unfoldable pub to_lower : Str → Str
to_lower [] = []
to_lower (c ∷ s) = lower c ∷ to_lower s

-- The first rune in lower case: of the runes outside ASCII only U+0130 becomes a letter of "application/json".
abbrev pub lower_first : ℕ → Str → ℕ × Str
lower_first c [] = (lower c, [])
lower_first c (d ∷ s) = if eqb c 0xc4 && eqb d 0xb0 then (b'i', s) else (lower c, d ∷ s)

-- strings.HasPrefix(strings.ToLower(s), prefix) for a prefix of such letters.
unfoldable pub has_lower_prefix : Str → Str → Bool
has_lower_prefix [] s = true
has_lower_prefix (p ∷ prefix) [] = false
has_lower_prefix (p ∷ prefix) (c ∷ s) =
    eqb p (lower_first c s).0 && has_lower_prefix prefix (lower_first c s).1
