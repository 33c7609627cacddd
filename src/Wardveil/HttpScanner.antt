-- ===== src/Wardveil/HttpScanner.antt =====
-- internal/wardveil/http_scanner.go: the scanner that asks the Wardveil service over HTTP. Parameters are
-- the parsers of URLs and of IP addresses, HMAC-SHA256, the format of a time, the exchange of a
-- request for a response, and the JSON decoder of the response.
pub mod Material
pub mod Exchange
use goreecloud_drive.Wardveil.ScanText.{
  scan_contract_version, TokenMaker, is_alphanumeric, is_token_byte, token_bytes,
  alphanumeric_first, valid_scan_token, random_scan_token, join_lines, scan_material,
  sign_scan_request, to_lower, lower_first, has_lower_prefix,
}
use goreecloud_drive.Prelude.{
  ℕ, suc, ◌+◌, ◌^◌, String, Bool, true, false, not, ◌&&◌, ◌||◌, Option, none, some, List, [], ◌∷◌,
  ◌++◌, length, take, ltb, leb, eqb, if◌then◌else◌,
}
use goreecloud_drive.Prelude.Text.{Str, str, ◌==◌, trim_space}
use goreecloud_drive.Prelude.Int.{ℤ, pos, ltb_ℤ, leb_ℤ, eq_ℤ}
use goreecloud_drive.Prelude.Decimal.{format_int}
use goreecloud_drive.Errors.{Error, wrap, text, Result, ok, err}
use goreecloud_drive.Ids.{hex}
use goreecloud_drive.Json.{Decoder, is_blank}
use goreecloud_drive.Os.{Bytes, Reader}
use goreecloud_drive.Storage.Session.{chunk_limit}
use goreecloud_drive.Wardveil.Scan.{valid_sha256, valid_action, lower}
use goreecloud_drive.Wardveil.Types.{
  Time, ScanRecord, ScanEnvelope, ScanRequest, drive_file_resource_type,
}

-- What the code asks of a `*url.URL` and of a `net.IP`.
pub record Url : Type 0 where
  pub scheme : Str
  pub has_user : Bool
  pub raw_query : Str
  pub fragment : Str
  pub path : Str
  pub port : Str
  pub hostname : Str
  pub text_form : Str

pub record Ip : Type 0 where
  pub is_loopback : Bool
  pub is_v4 : Bool

abbrev pub scan_path : Str
scan_path = str "/v1/scan"

-- `HTTPScannerConfig`; durations are nanoseconds, and `none` is a nil function.
pub record HttpScannerConfig : Type 0 where
  pub endpoint : Str
  pub caller_id : Str
  pub key_id : Str
  pub secret : Str
  pub timeout : ℤ
  pub max_response_bytes : ℤ
  pub now : Option (Time → Time)
  pub nonce : Option TokenMaker
  pub correlation_id : Option TokenMaker

-- `HTTPScanner`; `now` is a function of the clock.
pub record HttpScanner : Type 0 where
  pub endpoint : Url
  pub caller_id : Str
  pub key_id : Str
  pub secret : Bytes
  pub timeout : ℤ
  pub max_response_bytes : ℤ
  pub now : Time → Time
  pub nonce : TokenMaker
  pub correlation_id : TokenMaker

-- `scanEnvelopeWire`: the record of its type, and the correlation ID that the wire format adds.
pub record ScanWire : Type 0 where
  pub resource_id : Str
  pub resource_digest_sha256 : Str
  pub correlation_id : Str
  pub scan_record : ScanRecord

pub record WireRequest : Type 0 where
  pub url : Url
  pub content_length : ℤ
  pub headers : List (Str × Str)
  pub body : Result Bytes

pub record WireResponse : Type 0 where
  pub status : ℕ
  pub content_type : Str
  pub body : Reader

pub record Network : Type 0 where
  pub parse_url : Str → Option Url
  pub parse_ip : Str → Option Ip
  pub hmac_sha256 : Bytes → Bytes → Bytes
  pub format_time : Time → Str
  pub exchange : WireRequest → Result WireResponse
  pub decode_wire : Decoder ScanWire

-- The message about a status: a number is written out where the program looks for it.
abbrev pub returned_status : ℕ → String
returned_status status =
    if eqb status 409
    then "Wardveil Scan returned HTTP 409"
    else "Wardveil Scan returned another HTTP status"

abbrev or_default : Str → Str → Str
or_default value fallback = if value == [] then fallback else value

abbrev pub or_maker : Option TokenMaker → Str → TokenMaker
or_maker none prefix = random_scan_token prefix
or_maker (some maker) prefix = maker

abbrev pub or_clock : Option (Time → Time) → Time → Time
or_clock none now = now
or_clock (some clock) now = clock now

abbrev default_scan_timeout : ℤ
default_scan_timeout = pos 35000000000

abbrev default_max_scan_response_bytes : ℤ
default_max_scan_response_bytes = pos (2 ^ 20)

abbrev minimum_scan_caller_secret_bytes : ℕ
minimum_scan_caller_secret_bytes = 32

abbrev default_scan_caller_id : Str
default_scan_caller_id = str "goreecloud-drive"

abbrev default_scan_key_id : Str
default_scan_key_id = str "scan-current"

-- `ensureJSONEOF`, on what follows the first value. A second value and a broken one are told apart by
-- the text of the error only.
abbrev pub ensure_json_eof : Str → Result (Unit {0})
ensure_json_eof rest =
    if is_blank rest
    then ok tt
    else err (text "Wardveil Scan response contains multiple JSON values")

module _ (net : Network) where
  abbrev is_v4_loopback : Option Ip → Bool
  is_v4_loopback none = false
  is_v4_loopback (some ip) = ip.is_loopback && ip.is_v4

  -- `validateScanEndpoint`
  unfoldable pub validate_scan_endpoint : Str → Result Url
  validate_scan_endpoint raw = elim (net.parse_url raw) [
    | none ↦ err (wrap "parse Wardveil Scan endpoint" (text "invalid URL"))
    | some endpoint ↦
        if not (endpoint.scheme == str "http")
        then err (text "Wardveil Scan endpoint must use loopback HTTP")
        else if endpoint.has_user
            || (not (endpoint.raw_query == []) || not (endpoint.fragment == []))
        then err (text "Wardveil Scan endpoint must not include userinfo, query, or fragment")
        else if not (endpoint.path == scan_path)
        then err (text "Wardveil Scan endpoint path must be /v1/scan")
        else if endpoint.port == []
        then err (text "Wardveil Scan endpoint must include an explicit port")
        else if not (is_v4_loopback (net.parse_ip endpoint.hostname))
        then err (text "Wardveil Scan endpoint must use an IPv4 loopback address")
        else ok endpoint
  ]

  -- Of `NewHTTPScanner`: the endpoint is valid.
  unfoldable pub scanner_at : HttpScannerConfig → Url → Result HttpScanner
  scanner_at cfg endpoint =
      let caller_id = or_default cfg.caller_id default_scan_caller_id in
      let key_id = or_default cfg.key_id default_scan_key_id in
      let timeout = if eq_ℤ cfg.timeout (pos 0) then default_scan_timeout else cfg.timeout in
      let max_response_bytes =
        if eq_ℤ cfg.max_response_bytes (pos 0)
        then default_max_scan_response_bytes
        else cfg.max_response_bytes in
      if not (valid_scan_token caller_id) || not (valid_scan_token key_id)
      then err (text "Wardveil Scan caller or key identity invalid")
      else if not (cfg.secret == trim_space cfg.secret)
          || ltb (length cfg.secret) minimum_scan_caller_secret_bytes
      then err (text "Wardveil Scan caller secret must be at least 32 bytes")
      else if leb_ℤ timeout (pos 0)
      then err (text "Wardveil Scan timeout must be positive")
      else if leb_ℤ max_response_bytes (pos 0)
      then err (text "Wardveil Scan response limit must be positive")
      else ok (record {
        endpoint = endpoint;
        caller_id = caller_id;
        key_id = key_id;
        secret = cfg.secret;
        timeout = timeout;
        max_response_bytes = max_response_bytes;
        now = or_clock cfg.now;
        nonce = or_maker cfg.nonce (str "drive-nonce");
        correlation_id = or_maker cfg.correlation_id (str "drive-scan");
      })

  -- `NewHTTPScanner`
  unfoldable pub new_http_scanner : HttpScannerConfig → Result HttpScanner
  new_http_scanner cfg = elim (validate_scan_endpoint cfg.endpoint) [
    | err e ↦ err e
    | ok endpoint ↦ scanner_at cfg endpoint
  ]

  -- A token that a maker gives, if it is valid.
  abbrev pub checked_token : Result Str → Option Str
  checked_token (err _) = none
  checked_token (ok token) = if valid_scan_token token then some token else none

  -- The request that `Scan` sends.
  unfoldable pub wire_request :
      HttpScanner → ScanRequest → Result Bytes → Str → Str → Str → WireRequest
  unfolding sign_scan_request to_lower
  wire_request s request body timestamp nonce correlation_id =
      let digest = to_lower request.digest_sha256 in
      let signature = sign_scan_request net.hmac_sha256 s.secret (
        scan_material s.caller_id s.key_id timestamp nonce request.action request.resource_type
          request.resource_id correlation_id request.size_bytes digest) in
      record {
        url = s.endpoint;
        content_length = request.size_bytes;
        headers =
            (str "Content-Type", str "application/octet-stream")
            ∷ (str "X-Wardveil-Caller-ID", s.caller_id)
            ∷ (str "X-Wardveil-Key-ID", s.key_id)
            ∷ (str "X-Wardveil-Timestamp", timestamp)
            ∷ (str "X-Wardveil-Nonce", nonce)
            ∷ (str "X-Wardveil-Resource-Type", request.resource_type)
            ∷ (str "X-Wardveil-Resource-ID", request.resource_id)
            ∷ (str "X-Wardveil-Digest-SHA256", digest)
            ∷ (str "X-Wardveil-Size-Bytes", format_int request.size_bytes)
            ∷ (str "X-Wardveil-Action", request.action)
            ∷ (str "X-Wardveil-Correlation-ID", correlation_id)
            ∷ (str "X-Wardveil-Signature", signature)
            ∷ [];
        body = body;
      }

  -- The envelope that a decoded answer carries.
  abbrev pub envelope_of : ScanWire → ScanEnvelope
  envelope_of wire = record {
    resource_id = wire.resource_id;
    resource_digest_sha256 = wire.resource_digest_sha256;
    scan_record = wire.scan_record;
  }

  -- Of `Scan`: the encoded answer is read; the bytes behind its first value may be blanks only.
  unfoldable pub read_wire : Str → Bytes → Result ScanEnvelope
  unfolding is_blank
  read_wire correlation_id encoded = elim (net.decode_wire encoded) [
    | none ↦ err (wrap "decode Wardveil Scan response" (text "malformed"))
    | some (wire, rest) ↦ elim (ensure_json_eof rest) [
      | err e ↦ err e
      | ok _ ↦
          if not (wire.correlation_id == correlation_id)
          then err (text "Wardveil Scan response correlation mismatch")
          else ok (envelope_of wire)
    ]
  ]

  -- Of `Scan`: what is made of a response.
  unfoldable pub read_response : HttpScanner → Str → WireResponse → Result ScanEnvelope
  unfolding chunk_limit has_lower_prefix
  read_response s correlation_id response =
      let limit = chunk_limit s.max_response_bytes in
      let encoded = take limit response.body.bytes in
      if not (eqb response.status 200)
      then err (text (returned_status response.status))
      else if not (has_lower_prefix (str "application/json") response.content_type)
      then err (text "Wardveil Scan response content type invalid")
      else if response.body.broken && ltb (length response.body.bytes) limit
      then err (wrap "read Wardveil Scan response" (text "connection broken"))
      else if ltb_ℤ s.max_response_bytes (pos (length encoded))
      then err (text "Wardveil Scan response exceeds configured limit")
      else read_wire correlation_id encoded

  -- The tests of `Scan` on a request.
  abbrev pub request_refused : ScanRequest → Bool
  request_refused request =
      not (request.resource_type == drive_file_resource_type)
      || (trim_space request.resource_id == []
          || (not (valid_sha256 request.digest_sha256)
              || (ltb_ℤ request.size_bytes (pos 0) || not (valid_action request.action))))

  module _ (clock : Time) (nonce_random correlation_random : Option Bytes) where
    -- Of `Scan`: the request is exchanged for a response.
    abbrev pub exchanged : HttpScanner → Str → Result WireResponse → Result ScanEnvelope
    exchanged s correlation_id (err e) = err (wrap "execute Wardveil Scan request" e)
    exchanged s correlation_id (ok response) = read_response s correlation_id response

    -- `Scan`; `none` is a nil scanner or a nil body. The clock and the bytes of rand.Read are those
    -- that the call draws.
    unfoldable pub http_scan :
        Option HttpScanner → ScanRequest → Option (Result Bytes) → Result ScanEnvelope
    http_scan none request body = err (text "Wardveil Scan HTTP client unavailable")
    http_scan (some s) request none = err (text "Wardveil Scan body unavailable")
    http_scan (some s) request (some body) =
        if request_refused request
        then err (text "Wardveil Scan request invalid")
        else elim (checked_token (s.nonce nonce_random)) [
          | none ↦ err (text "generate Wardveil Scan nonce")
          | some nonce ↦ elim (checked_token (s.correlation_id correlation_random)) [
            | none ↦ err (text "generate Wardveil Scan correlation ID")
            | some correlation_id ↦ exchanged s correlation_id (
                net.exchange (
                  wire_request s request body (net.format_time (s.now clock)) nonce correlation_id))
          ]
        ]
