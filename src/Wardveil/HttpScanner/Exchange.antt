-- ===== src/Wardveil/HttpScanner/Exchange.antt =====
-- What an envelope from the HTTP scanner rests on.
use goreecloud_drive.Prelude.{
  ℕ, suc, ◌&&◌, ltb, ◌-◌, ◌^◌, ◌<◌, ◌≤◌, ◌≡◌, ◌≢◌, subst, ◌∙◌, ap, true, false, Option, some, [],
  length, take, take-all, length-take, arith, inl, inr, Option-cases, eqb, eqb_iff,
}
use goreecloud_drive.Prelude.Text.{Str, str, ==_iff}
use goreecloud_drive.Prelude.Int.{ℤ, pos, ltb_ℤ}
use goreecloud_drive.Errors.{Result, Result-cases, ok}
use goreecloud_drive.Json.{is_blank}
use goreecloud_drive.Os.{Bytes}
use goreecloud_drive.Storage.Session.{chunk_limit}
use goreecloud_drive.Storage.Session.Chunk.{chunk_limit_lem}
use goreecloud_drive.Wardveil.Types.{Time, ScanEnvelope, ScanRequest}
use goreecloud_drive.Wardveil.ScanText.{valid_scan_token, has_lower_prefix}
use goreecloud_drive.Wardveil.HttpScanner.{
  Url, Ip, scan_path, HttpScannerConfig, HttpScanner, ScanWire, WireResponse, Network, or_clock,
  or_maker, validate_scan_endpoint, scanner_at, new_http_scanner, checked_token, wire_request,
  envelope_of, read_wire, read_response, http_scan,
}

within_limit : (limit : ℤ) (max n : ℕ) → limit ≡ pos max → ltb_ℤ limit (pos n) ≡ false → n ≤ max
within_limit limit max n e h = ground arith

-- The endpoint and the credential of a scanner that `NewHTTPScanner` builds.
pub record IsLoopbackScanner (net : Network) (s : HttpScanner) : Type 0 where
  pub ip : Ip
  pub scheme : s.endpoint.scheme ≡ str "http"
  pub path : s.endpoint.path ≡ scan_path
  pub no_user : s.endpoint.has_user ≡ false
  pub no_query : s.endpoint.raw_query ≡ []
  pub port : s.endpoint.port ≢ []
  pub host : net.parse_ip s.endpoint.hostname ≡ some ip
  pub loopback : ip.is_loopback ≡ true
  pub v4 : ip.is_v4 ≡ true
  pub secret : 32 ≤ length s.secret
  pub caller : valid_scan_token s.caller_id ≡ true
  pub key : valid_scan_token s.key_id ≡ true

-- What a scanner takes over from its configuration.
pub new_http_scanner-secret :
    (net : Network) (cfg : HttpScannerConfig) (s : HttpScanner)
    → new_http_scanner net cfg ≡ ok s
    → s.secret ≡ cfg.secret
unfolding new_http_scanner scanner_at
new_http_scanner-secret net cfg s h =
    elim (Result-cases (validate_scan_endpoint net cfg.endpoint)) [
      | inr (e, bad) ↦ absurd (ground arith)
      | inl (endpoint, valid) ↦ ground arith
    ]

pub new_http_scanner_makers :
    (net : Network) (cfg : HttpScannerConfig) (s : HttpScanner)
    → new_http_scanner net cfg ≡ ok s
    → (s.now ≡ or_clock cfg.now)
      × (s.nonce ≡ or_maker cfg.nonce (str "drive-nonce"))
      × (s.correlation_id ≡ or_maker cfg.correlation_id (str "drive-scan"))
unfolding new_http_scanner scanner_at
new_http_scanner_makers net cfg s h =
    elim (Result-cases (validate_scan_endpoint net cfg.endpoint)) [
      | inr (e, bad) ↦ absurd (ground arith)
      | inl (endpoint, valid) ↦ (ground arith, ground arith, ground arith)
    ]

scanner_at_ok :
    (net : Network) (cfg : HttpScannerConfig) (endpoint : Url) (s : HttpScanner)
    → scanner_at net cfg endpoint ≡ ok s
    → (s.endpoint ≡ endpoint)
      × (32 ≤ length s.secret)
      × (valid_scan_token s.caller_id ≡ true)
      × (valid_scan_token s.key_id ≡ true)
unfolding scanner_at
scanner_at_ok net cfg endpoint s h = (ground arith, ground arith, ground arith, ground arith)

-- A scanner that is built asks an IPv4 loopback address.
pub new_http_scanner-IsLoopbackScanner :
    (net : Network) (cfg : HttpScannerConfig) (s : HttpScanner)
    → new_http_scanner net cfg ≡ ok s
    → IsLoopbackScanner net s
unfolding new_http_scanner validate_scan_endpoint
new_http_scanner-IsLoopbackScanner net cfg s h = elim (Option-cases (net.parse_url cfg.endpoint)) [
  | inl bad ↦ absurd (ground arith)
  | inr (url, parsed) ↦ elim (Option-cases (net.parse_ip url.hostname)) [
    | inl bad ↦ absurd (ground arith)
    | inr (ip, given) ↦
        let (same, secret, caller, key) = scanner_at_ok net cfg url s (ground arith) in
        record {
          ip = ip;
          scheme = ground (arith, ==_iff url.scheme (str "http"));
          path = ground (arith, ==_iff url.path scan_path);
          no_user = ground arith;
          no_query = ground (arith, ==_iff url.raw_query []);
          port = ground (arith, ==_iff url.port []);
          host = ground arith;
          loopback = ground arith;
          v4 = ground arith;
          secret = secret;
          caller = caller;
          key = key;
        }
  ]
]

module _ (net : Network) (clock : Time) (nonce_random correlation_random : Option Bytes)
    (s : HttpScanner) (request : ScanRequest) (body : Result Bytes) where
  -- The exchange behind an envelope: the request that was sent, under valid tokens, and the whole
  -- answer, which is within the limit and carries the correlation ID of the request.
  pub record IsAnswered (max : ℕ) (envelope : ScanEnvelope) : Type 0 where
    pub nonce : Str
    pub correlation_id : Str
    pub response : WireResponse
    pub wire : ScanWire
    pub rest : Bytes
    pub nonce_made : s.nonce nonce_random ≡ ok nonce
    pub nonce_valid : valid_scan_token nonce ≡ true
    pub correlation_made : s.correlation_id correlation_random ≡ ok correlation_id
    pub correlation_valid : valid_scan_token correlation_id ≡ true
    pub sent :
        net.exchange
          (wire_request net s request body (net.format_time (s.now clock)) nonce correlation_id)
        ≡ ok response
    pub status : response.status ≡ 200
    pub json : has_lower_prefix (str "application/json") response.content_type ≡ true
    pub short : length response.body.bytes ≤ max
    pub decoded : net.decode_wire response.body.bytes ≡ some (wire, rest)
    pub unbroken : response.body.broken ≡ false
    pub blank_rest : is_blank rest ≡ true
    pub correlated : wire.correlation_id ≡ correlation_id
    pub given : envelope ≡ envelope_of net wire

  read_wire_ok :
      (correlation_id : Str) (encoded : Bytes) (envelope : ScanEnvelope)
      → read_wire net correlation_id encoded ≡ ok envelope
      → (wire : ScanWire) × (rest : Bytes) × (net.decode_wire encoded ≡ some (wire, rest))
        × (is_blank rest ≡ true)
        × (wire.correlation_id ≡ correlation_id)
        × (envelope ≡ envelope_of net wire)
  unfolding read_wire
  read_wire_ok correlation_id encoded envelope h = elim (Option-cases (net.decode_wire encoded)) [
    | inl bad ↦ absurd (ground arith)
    | inr ((wire, rest), decoded) ↦ (
      wire,
      rest,
      decoded,
      ground arith,
      ground (arith, ==_iff wire.correlation_id correlation_id),
      ground arith,
    )
  ]

  -- The tests that a response passed.
  read_response_tests :
      (correlation_id : Str) (response : WireResponse) (envelope : ScanEnvelope)
      → read_response net s correlation_id response ≡ ok envelope
      → let encoded = take (chunk_limit s.max_response_bytes) response.body.bytes in
        (eqb response.status 200 ≡ true)
        × (has_lower_prefix (str "application/json") response.content_type ≡ true)
        × ((response.body.broken
              && ltb (length response.body.bytes) (chunk_limit s.max_response_bytes))
            ≡ false)
        × (ltb_ℤ s.max_response_bytes (pos (length encoded)) ≡ false)
        × (read_wire net correlation_id encoded ≡ ok envelope)
  unfolding read_response
  read_response_tests correlation_id response envelope h =
      (ground arith, ground arith, ground arith, ground arith, ground arith)

  read_response_ok :
      (correlation_id : Str) (response : WireResponse) (max : ℕ) (envelope : ScanEnvelope)
      → s.max_response_bytes ≡ pos max
      → max < 2 ^ 63 - 1
      → read_response net s correlation_id response ≡ ok envelope
      → (response.status ≡ 200)
        × (has_lower_prefix (str "application/json") response.content_type ≡ true)
        × (length response.body.bytes ≤ max)
        × (response.body.broken ≡ false)
        × (read_wire net correlation_id response.body.bytes ≡ ok envelope)
  read_response_ok correlation_id response max envelope limit bound h =
      let (status, json, intact, within, reads) =
        read_response_tests correlation_id response envelope h in
      let bytes = response.body.bytes in
      let limited : chunk_limit s.max_response_bytes ≡ suc max =
        ap chunk_limit limit ∙ chunk_limit_lem max bound in
      let short : length (take (suc max) bytes) ≤ max =
        within_limit s.max_response_bytes max (length (take (suc max) bytes)) limit (
          subst (λ n. ltb_ℤ s.max_response_bytes (pos (length (take n bytes))) ≡ false) limited
            within) in
      let whole : length bytes ≤ max = omega (arith, length-take (suc max) bytes) in
      (
        (eqb_iff response.status 200).0 status,
        json,
        whole,
        ground (
          arith,
          subst (λ n. (response.body.broken && ltb (length bytes) n) ≡ false) limited intact,
        ),
        subst (λ b. read_wire net correlation_id b ≡ ok envelope)
            (ap (λ n. take n bytes) limited ∙ take-all (suc max) bytes (omega arith)) reads,
      )

  -- An envelope is given for an exchange only.
  pub http_scan_ok :
      (envelope : ScanEnvelope)
      → http_scan net clock nonce_random correlation_random (some s) request (some body)
        ≡ ok envelope
      → (nonce : Str) × (correlation_id : Str) × (response : WireResponse) × (checked_token net
            (s.nonce nonce_random)
          ≡ some nonce)
        × (checked_token net (s.correlation_id correlation_random) ≡ some correlation_id)
        × (net.exchange
              (wire_request net s request body (net.format_time (s.now clock)) nonce correlation_id)
            ≡ ok response)
        × (read_response net s correlation_id response ≡ ok envelope)
  unfolding http_scan
  http_scan_ok envelope h = elim (Option-cases (checked_token net (s.nonce nonce_random))) [
    | inl bad ↦ absurd (ground arith)
    | inr (nonce, n) ↦
        elim (Option-cases (checked_token net (s.correlation_id correlation_random))) [
          | inl bad ↦ absurd (ground arith)
          | inr (correlation_id, c) ↦
              elim (Result-cases (
                net.exchange (
                  wire_request net s request body (net.format_time (s.now clock)) nonce
                    correlation_id))) [
                      | inr (e, failed) ↦ absurd (ground arith)
                      | inl (response, sent) ↦
                          (nonce, correlation_id, response, n, c, sent, ground arith)
                    ]
        ]
  ]

pub checked_token_ok :
    (net : Network) (r : Result Str) (token : Str)
    → checked_token net r ≡ some token
    → (r ≡ ok token) × (valid_scan_token token ≡ true)
checked_token_ok net r token h = elim (Result-cases r) [
  | inr (e, failed) ↦ absurd (ground arith)
  | inl (t, made) ↦ (ground arith, ground arith)
]

-- An envelope that a scanner built by `NewHTTPScanner` gives comes from a request that was sent to an IPv4
-- loopback address under the nonce and the correlation ID that its makers gave for this call, both valid
-- tokens: the answer was 200 with JSON, was read without an error to its end and was no longer than the
-- limit, behind the one JSON value that was decoded it had blanks only, it carries the correlation ID of
-- the request, and the envelope is the answer's. The limit is below the largest int64.
pub http_scan-IsAnswered :
    (net : Network) (cfg : HttpScannerConfig) (s : HttpScanner) (max : ℕ) (request : ScanRequest)
    → (body : Result Bytes) (clock : Time) (nonce_random correlation_random : Option Bytes)
    → (envelope : ScanEnvelope) → new_http_scanner net cfg ≡ ok s
    → s.max_response_bytes ≡ pos max
    → max < 2 ^ 63 - 1
    → http_scan net clock nonce_random correlation_random (some s) request (some body) ≡ ok envelope
    → IsLoopbackScanner net s
      × IsAnswered net clock nonce_random correlation_random s request body max envelope
http_scan-IsAnswered net cfg s max request body clock nr cr envelope built limit bound h =
    let (nonce, correlation_id, response, n, c, sent, reads) =
      http_scan_ok net clock nr cr s request body envelope h in
    let (status, json, short, unbroken, whole) =
      read_response_ok net clock nr cr s request body correlation_id response max envelope limit
        bound reads in
    let (wire, rest, decoded, blank_rest, correlated, given) =
      read_wire_ok net clock nr cr s request body correlation_id response.body.bytes envelope
        whole in
    let (nonce_made, nonce_valid) = checked_token_ok net (s.nonce nr) nonce n in
    let (correlation_made, correlation_valid) =
      checked_token_ok net (s.correlation_id cr) correlation_id c in
    (
      new_http_scanner-IsLoopbackScanner net cfg s built,
      record {
        nonce = nonce;
        correlation_id = correlation_id;
        response = response;
        wire = wire;
        rest = rest;
        nonce_made = nonce_made;
        nonce_valid = nonce_valid;
        correlation_made = correlation_made;
        correlation_valid = correlation_valid;
        sent = sent;
        status = status;
        json = json;
        short = short;
        decoded = decoded;
        unbroken = unbroken;
        blank_rest = blank_rest;
        correlated = correlated;
        given = given;
      },
    )
