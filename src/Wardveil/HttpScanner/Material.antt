-- ===== src/Wardveil/HttpScanner/Material.antt =====
-- The text that `signScanRequest` signs.
use goreecloud_drive.Prelude.{
  ℕ, zero, suc, ◌+◌, ◌/◌, ◌%◌, ◌≡◌, refl, subst, sym, ap, ◌∙◌, true, false, ◌||◌, List, [], ◌∷◌,
  ◌++◌, All, Option, none, some, if◌then◌else◌, arith, inl, inr, Bool-cases, ltb,
}
use goreecloud_drive.Prelude.Text.{
  Str, str, ◌==◌, ==_iff, has_byte, split, split-append, split-without,
}
use goreecloud_drive.Prelude.Int.{ℤ, pos, negsuc}
use goreecloud_drive.Prelude.Decimal.{digits, format_int}
use goreecloud_drive.Wardveil.Action
use goreecloud_drive.Wardveil.Types.{ScanRequest, drive_file_resource_type}
use goreecloud_drive.Wardveil.Scan.{valid_action, valid_sha256, all_hex}
use goreecloud_drive.Wardveil.ScanText.{
  join_lines, scan_material, sign_scan_request, valid_scan_token, token_bytes, to_lower,
}
use goreecloud_drive.Wardveil.HttpScanner.{
  Network, HttpScanner, WireRequest, request_refused, wire_request,
}
use goreecloud_drive.Errors.{Result}
use goreecloud_drive.Ids.{hex}
use goreecloud_drive.Os.{Bytes}

-- A line of the text: it has no newline.
abbrev pub IsLine : Str → Type 0
IsLine line = has_byte 10 line ≡ false

-- Lines that are joined are split again, if there is one.
split-join_lines :
    (line : Str) (lines : List Str)
    → IsLine line
    → All IsLine lines
    → split 10 (join_lines (line ∷ lines)) ≡ line ∷ lines
unfolding join_lines
split-join_lines line [] h hs = split-without 10 line h
split-join_lines line (next ∷ lines) h hs =
    split-append 10 line (join_lines (next ∷ lines)) h
    ∙ ap (λ rest. line ∷ rest) (split-join_lines next lines hs.0 hs.1)

token_bytes-IsLine : (s : Str) → token_bytes s ≡ true → IsLine s
unfolding token_bytes has_byte
token_bytes-IsLine [] h = refl
token_bytes-IsLine (c ∷ s) h = ground (arith, token_bytes-IsLine s)

valid_scan_token-IsLine : (s : Str) → valid_scan_token s ≡ true → IsLine s
unfolding valid_scan_token
valid_scan_token-IsLine s h = token_bytes-IsLine s (ground arith)

all_hex-IsLine : (s : Str) → all_hex s ≡ true → IsLine (to_lower s)
unfolding all_hex to_lower has_byte
all_hex-IsLine [] h = refl
all_hex-IsLine (c ∷ s) h = ground (arith, all_hex-IsLine s)

valid_sha256-IsLine : (s : Str) → valid_sha256 s ≡ true → IsLine (to_lower s)
unfolding valid_sha256
valid_sha256-IsLine s h = all_hex-IsLine s (ground arith)

valid_action-IsLine : (s : Str) → valid_action s ≡ true → IsLine s
unfolding valid_action has_byte
valid_action-IsLine s h = elim (Bool-cases (s == Action.upload_finalize)) [
  | inl e ↦ rw ((==_iff s Action.upload_finalize).0 e) refl
  | inr a ↦ elim (Bool-cases (s == Action.opening)) [
    | inl e ↦ rw ((==_iff s Action.opening).0 e) refl
    | inr b ↦ elim (Bool-cases (s == Action.download)) [
      | inl e ↦ rw ((==_iff s Action.download).0 e) refl
      | inr c ↦ elim (Bool-cases (s == Action.share)) [
        | inl e ↦ rw ((==_iff s Action.share).0 e) refl
        | inr d ↦ rw ((==_iff s Action.restore_release).0 (ground arith)) refl
      ]
    ]
  ]
]

has_byte-append : (b : ℕ) (s t : Str) → has_byte b (s ++ t) ≡ (has_byte b s || has_byte b t)
unfolding has_byte
has_byte-append b [] t = refl
has_byte-append b (c ∷ s) t = ground (arith, has_byte-append b s t)

digits-IsLine : (fuel n : ℕ) → IsLine (digits fuel n)
unfolding digits has_byte
digits-IsLine zero n = ground arith
digits-IsLine (suc fuel) n = elim (Bool-cases (ltb n 10)) [
  | inl small ↦ ground arith
  | inr large ↦ ground (
    arith,
    digits-IsLine fuel (n / 10),
    has_byte-append 10 (digits fuel (n / 10)) ((48 + n % 10) ∷ []),
  )
]

format_int-IsLine : (n : ℤ) → IsLine (format_int n)
unfolding format_int has_byte
format_int-IsLine (pos n) = digits-IsLine n n
format_int-IsLine (negsuc n) = digits-IsLine (suc n) (suc n)

-- The signed text of a request splits into its lines.
split-scan_material :
    (net : Network) (request : ScanRequest)
    → (caller_id key_id timestamp nonce correlation_id : Str) → valid_scan_token caller_id ≡ true
    → valid_scan_token key_id ≡ true
    → valid_scan_token nonce ≡ true
    → valid_scan_token correlation_id ≡ true
    → request_refused net request ≡ false
    → IsLine timestamp
    → IsLine request.resource_id
    → let material =
        scan_material caller_id key_id timestamp nonce request.action request.resource_type
          request.resource_id correlation_id request.size_bytes
          (to_lower request.digest_sha256) in
      split 10 (join_lines material) ≡ material
unfolding has_byte
split-scan_material net request caller_id key_id timestamp nonce correlation_id caller key fresh
      correlated accepted time resource =
    split-join_lines (str "0.1.0") _ refl (
      valid_scan_token-IsLine caller_id caller,
      (
        valid_scan_token-IsLine key_id key,
        (
          time,
          (
            valid_scan_token-IsLine nonce fresh,
            (
              valid_action-IsLine request.action (ground arith),
              (
                subst IsLine
                    (sym ((==_iff request.resource_type drive_file_resource_type).0 (ground arith)))
                    refl,
                (
                  resource,
                  (
                    valid_scan_token-IsLine correlation_id correlated,
                    (
                      format_int-IsLine request.size_bytes,
                      (valid_sha256-IsLine request.digest_sha256 (ground arith), tt),
                    ),
                  ),
                ),
              ),
            ),
          ),
        ),
      ),
    )

-- The value of a header of a request.
unfoldable pub header_value : Str → List (Str × Str) → Option Str
header_value name [] = none
header_value name ((key, value) ∷ headers) =
    if key == name then some value else header_value name headers

abbrev pub signature_of : WireRequest → Option Str
signature_of sent = header_value (str "X-Wardveil-Signature") sent.headers

-- What `Scan` puts into a request, and has tested.
pub record IsSendable (net : Network) (request : ScanRequest) (timestamp nonce correlation_id : Str)
    : Type 0 where
  pub accepted : request_refused net request ≡ false
  pub fresh : valid_scan_token nonce ≡ true
  pub correlated : valid_scan_token correlation_id ≡ true
  pub time : IsLine timestamp
  pub resource : IsLine request.resource_id

module _ (net : Network) (s : HttpScanner) (caller : valid_scan_token s.caller_id ≡ true)
    (key : valid_scan_token s.key_id ≡ true) where
  -- The text that is signed.
  abbrev pub signed_text : ScanRequest → Str → Str → Str → Str
  signed_text request timestamp nonce correlation_id = join_lines (
      scan_material s.caller_id s.key_id timestamp nonce request.action request.resource_type
        request.resource_id correlation_id request.size_bytes (to_lower request.digest_sha256))

  signature_lem :
      (request : ScanRequest) (body : Result Bytes) (timestamp nonce correlation_id : Str)
      → signature_of (wire_request net s request body timestamp nonce correlation_id)
        ≡ some (hex (net.hmac_sha256 s.secret (signed_text request timestamp nonce correlation_id)))
  unfolding wire_request sign_scan_request header_value ◌==◌
  signature_lem request body timestamp nonce correlation_id = refl

  headers_of_lines :
      (r r' : ScanRequest) (body body' : Result Bytes) (ts nonce id ts' nonce' id' : Str)
      → scan_material s.caller_id s.key_id ts nonce r.action r.resource_type r.resource_id id
          r.size_bytes
          (to_lower r.digest_sha256)
        ≡ scan_material s.caller_id s.key_id ts' nonce' r'.action r'.resource_type r'.resource_id
            id' r'.size_bytes
            (to_lower r'.digest_sha256)
      → (wire_request net s r body ts nonce id).headers
        ≡ (wire_request net s r' body' ts' nonce' id').headers
  unfolding wire_request
  headers_of_lines r r' body body' ts nonce id ts' nonce' id' h = ground arith

  -- Two requests that `Scan` sends for one scanner under one signature have the same headers: the time,
  -- the nonce, the resource, the digest, the size, the action and the correlation ID, none can be replaced
  -- under the signature of another request. The scanner's names, the nonces and the correlation IDs are
  -- valid tokens, both requests pass the tests of `Scan`, the times and the resource IDs have no newline,
  -- and the two signed texts are no collision of HMAC-SHA256.
  pub signature_fixes_headers :
      (r r' : ScanRequest) (body body' : Result Bytes) (ts nonce id ts' nonce' id' : Str)
      → IsSendable net r ts nonce id
      → IsSendable net r' ts' nonce' id'
      → (hex (net.hmac_sha256 s.secret (signed_text r ts nonce id))
            ≡ hex (net.hmac_sha256 s.secret (signed_text r' ts' nonce' id'))
          → signed_text r ts nonce id ≡ signed_text r' ts' nonce' id')
      → signature_of (wire_request net s r body ts nonce id)
        ≡ signature_of (wire_request net s r' body' ts' nonce' id')
      → (wire_request net s r body ts nonce id).headers
        ≡ (wire_request net s r' body' ts' nonce' id').headers
  signature_fixes_headers r r' body body' ts nonce id ts' nonce' id' x x' no_collision same =
      let first = signature_lem r body ts nonce id in
      let second = signature_lem r' body' ts' nonce' id' in
      let texts = no_collision (ground (arith, first, second, same)) in
      let lines =
        split-scan_material net r s.caller_id s.key_id ts nonce id caller key x.fresh x.correlated
          x.accepted x.time x.resource in
      let lines' =
        split-scan_material net r' s.caller_id s.key_id ts' nonce' id' caller key x'.fresh
          x'.correlated x'.accepted x'.time x'.resource in
      headers_of_lines r r' body body' ts nonce id ts' nonce' id'
        (sym lines ∙ (ap (split 10) texts ∙ lines'))
