-- ===== src/Acceptance/Replay/Answers.antt =====
-- cmd/wardveil-negative-acceptance/main.go: what the service has answered where `runReplayCases` passes.
use goreecloud_drive.Prelude.{
  ℕ, ◌≡◌, ◌⊎◌, refl, sym, subst, ap, Option, ◌∙◌, Bool, true, false, Option-cases, Bool-cases, some,
  List, [], ◌∷◌, ◌++◌, eqb, eqb_iff, arith, inl, inr,
}
use goreecloud_drive.Prelude.Text.{Str, str, ◌==◌, ==_iff, has_prefix, strip_prefix}
use goreecloud_drive.Errors.{Error, wrap, text, Result, Result-cases, ok, err, ok_injective}
use goreecloud_drive.Os.{Bytes}
use goreecloud_drive.Wardveil.Types.{Time, ScanRecord, ScanRequest, ScanEnvelope}
use goreecloud_drive.Wardveil.HttpScanner.{
  Network, WireRequest, WireResponse, HttpScanner, http_scan, exchanged, read_response, read_wire,
  new_http_scanner, request_refused, checked_token, wire_request,
}
use goreecloud_drive.Wardveil.HttpScanner.Exchange.{
  http_scan_ok, checked_token_ok, new_http_scanner_makers,
}
use goreecloud_drive.Acceptance.Replay.{
  ReplayDraws, ScanDraws, same_texts, same_flag, same_record, same_envelope, contains_text,
  message_contains, scan_by, replay_scans, run_replay_cases, replay_request, replayed_content,
  conflicting_content, random_token, replay_config,
}
use goreecloud_drive.Acceptance.{acceptance_uuid}

same_texts_sound : (a b : List Str) → same_texts a b ≡ true → a ≡ b
unfolding same_texts
same_texts_sound [] [] h = refl
same_texts_sound [] (b ∷ bs) h = absurd (ground arith)
same_texts_sound (a ∷ rest) [] h = absurd (ground arith)
same_texts_sound (a ∷ rest) (b ∷ bs) h = ground (arith, ==_iff a b, same_texts_sound rest bs)

same_flag_sound : (a b : Bool) → same_flag a b ≡ true → a ≡ b
same_flag_sound true true h = refl
same_flag_sound true false h = absurd (ground arith)
same_flag_sound false true h = absurd (ground arith)
same_flag_sound false false h = refl

same_record_sound : (a b : ScanRecord) → same_record a b ≡ true → a ≡ b
same_record_sound a b h = ground (
  arith,
  ==_iff a.contract_version b.contract_version,
  ==_iff a.record_id b.record_id,
  ==_iff a.record_type b.record_type,
  ==_iff a.producer.id b.producer.id,
  same_flag_sound a.producer.authoritative b.producer.authoritative,
  ==_iff a.scope.resource_type b.scope.resource_type,
  ==_iff a.scope.resource_id b.scope.resource_id,
  eqb_iff a.observed_at b.observed_at,
  eqb_iff a.valid_until b.valid_until,
  ==_iff a.scan_result b.scan_result,
  same_texts_sound a.evidence_refs b.evidence_refs,
)

same_envelope_sound : (a b : ScanEnvelope) → same_envelope a b ≡ true → a ≡ b
unfolding same_envelope
same_envelope_sound a b h = ground (
  arith,
  ==_iff a.resource_id b.resource_id,
  ==_iff a.resource_digest_sha256 b.resource_digest_sha256,
  same_record_sound a.scan_record b.scan_record,
)

abbrev conflict : Str
conflict = str "HTTP 409"

-- No other message of `Scan` has the text.
abbrev IsSilent : Error → Type 0
IsSilent e = message_contains conflict e ≡ false

messages-IsSilent :
    IsSilent (text "Wardveil Scan returned another HTTP status")
    × IsSilent (text "Wardveil Scan response content type invalid")
    × IsSilent (wrap "read Wardveil Scan response" (text "connection broken"))
    × IsSilent (text "Wardveil Scan response exceeds configured limit")
    × IsSilent (wrap "decode Wardveil Scan response" (text "malformed"))
    × IsSilent (text "Wardveil Scan response contains multiple JSON values")
    × IsSilent (text "Wardveil Scan response correlation mismatch")
    × IsSilent (text "Wardveil Scan request invalid")
    × IsSilent (text "generate Wardveil Scan nonce")
    × IsSilent (text "generate Wardveil Scan correlation ID")
    × (contains_text (str "execute Wardveil Scan request") conflict ≡ false)
unfolding message_contains contains_text has_prefix strip_prefix ◌==◌
messages-IsSilent = (refl, refl, refl, refl, refl, refl, refl, refl, refl, refl, refl)

module _ (net : Network) (s : HttpScanner) where
  -- A response whose reading mentions the conflict has its status.
  conflict_response_409 :
      (correlation_id : Str) (response : WireResponse) (e : Error)
      → read_response net s correlation_id response ≡ err e
      → message_contains conflict e ≡ true
      → response.status ≡ 409
  unfolding read_response read_wire
  conflict_response_409 correlation_id response e h mentions =
      let (status, kind, broken, long, malformed, several, other, _, _, _, _) = messages-IsSilent in
      elim (Bool-cases (eqb response.status 409)) [
        | inl same ↦ ground (arith, eqb_iff response.status 409)
        | inr differs ↦ absurd (ground arith)
      ]

-- An exchange has answered a request with an envelope.
abbrev pub IsAnswer :
    Network
    → (WireRequest → Result WireResponse)
    → HttpScanner
    → Str
    → WireRequest
    → ScanEnvelope
    → Type 0
IsAnswer net exchange s correlation_id sent envelope =
    (response : WireResponse) × (exchange sent ≡ ok response)
    × (read_response net s correlation_id response ≡ ok envelope)

-- The service has answered a request 409, or its exchange has failed with a message that says so.
abbrev pub IsRejection : (WireRequest → Result WireResponse) → WireRequest → Type 0
IsRejection exchange sent =
    ((response : WireResponse) × (exchange sent ≡ ok response) × (response.status ≡ 409))
    ⊎ ((e : Error) × (exchange sent ≡ err e) × (message_contains conflict e ≡ true))

module _ (net : Network) (s : HttpScanner) (d : ScanDraws) (request : ScanRequest) (body : Bytes)
    (fixed_time : Time) (nonce correlation_id : Str) (clock : s.now d.clock ≡ fixed_time)
    (made : s.nonce d.nonce_random ≡ ok nonce)
    (given : s.correlation_id d.correlation_random ≡ ok correlation_id) where
  -- The one request that the fixed clock and tokens leave.
  abbrev sent : WireRequest
  sent = wire_request net s request (ok body) (net.format_time fixed_time) nonce correlation_id

  fixed_request :
      (nonce' correlation' : Str)
      → checked_token net (s.nonce d.nonce_random) ≡ some nonce'
      → checked_token net (s.correlation_id d.correlation_random) ≡ some correlation'
      → (wire_request net s request (ok body) (net.format_time (s.now d.clock)) nonce' correlation'
          ≡ sent)
        × (correlation' ≡ correlation_id)
  fixed_request nonce' correlation' n c =
      let same_nonce : nonce' ≡ nonce =
        ok_injective (sym (checked_token_ok net (s.nonce d.nonce_random) nonce' n).0 ∙ made) in
      let same_id : correlation' ≡ correlation_id = ok_injective (
        sym (checked_token_ok net (s.correlation_id d.correlation_random) correlation' c).0
        ∙ given) in
      (rw (clock, same_nonce, same_id) refl, same_id)

  scan-IsAnswer :
      (envelope : ScanEnvelope)
      → http_scan net d.clock d.nonce_random d.correlation_random (some s) request (some (ok body))
        ≡ ok envelope
      → IsAnswer net net.exchange s correlation_id sent envelope
  scan-IsAnswer envelope h =
      let (nonce', correlation', response, n, c, exchanged, reads) =
        http_scan_ok net d.clock d.nonce_random d.correlation_random s request (ok body) envelope
          h in
      let (same, same_id) = fixed_request nonce' correlation' n c in
      (
        response,
        ap net.exchange (sym same) ∙ exchanged,
        subst (λ id. read_response net s id response ≡ ok envelope) same_id reads,
      )

  exchanged-IsRejection :
      (request_sent : WireRequest) (id : Str) (e : Error)
      → exchanged net d.clock d.nonce_random d.correlation_random s id (net.exchange request_sent)
        ≡ err e
      → message_contains conflict e ≡ true
      → IsRejection net.exchange request_sent
  unfolding message_contains
  exchanged-IsRejection request_sent id e h mentions =
      let (_, _, _, _, _, _, _, _, _, _, execute) = messages-IsSilent in
      elim (Result-cases (net.exchange request_sent)) [
        | inl (response, answered) ↦
            inl (
              response,
              answered,
              conflict_response_409 net s id response e (ground arith) mentions,
            )
        | inr (x, failed) ↦ inr (x, failed, ground arith)
      ]

  scan-IsRejection :
      (e : Error)
      → http_scan net d.clock d.nonce_random d.correlation_random (some s) request (some (ok body))
        ≡ err e
      → message_contains conflict e ≡ true
      → IsRejection net.exchange sent
  unfolding http_scan
  scan-IsRejection e h mentions =
      let (_, _, _, _, _, _, _, invalid, no_nonce, no_correlation, _) = messages-IsSilent in
      elim (Bool-cases (request_refused net request)) [
        | inl refused ↦ absurd (ground arith)
        | inr passes ↦ elim (Option-cases (checked_token net (s.nonce d.nonce_random))) [
          | inl missing ↦ absurd (ground arith)
          | inr (nonce', n) ↦
              elim (Option-cases (checked_token net (s.correlation_id d.correlation_random))) [
                | inl missing ↦ absurd (ground arith)
                | inr (correlation', c) ↦
                    subst (IsRejection net.exchange) (fixed_request nonce' correlation' n c).0 (
                      exchanged-IsRejection
                        (wire_request net s request (ok body) (net.format_time (s.now d.clock))
                          nonce' correlation')
                        correlation' e (ground arith) mentions)
              ]
        ]
      ]

-- The three scans have passed. They were sent at one fixed time, under one nonce and one correlation ID:
-- the first two with one content, as one and the same request, and the third with the other.
pub record IsReplayed (net : Network) (first second third : WireRequest → Result WireResponse)
    (sha256 : Bytes → List ℕ) (draws : ReplayDraws) : Type 0 where
  pub scanner : HttpScanner
  pub resource_id : Str
  pub nonce : Str
  pub correlation_id : Str
  pub envelope : ScanEnvelope
  pub nonce_drawn : random_token (str "drive-replay-nonce") draws.nonce ≡ ok nonce
  pub correlation_drawn :
      random_token (str "drive-replay-correlation") draws.correlation ≡ ok correlation_id
  pub replayed : WireRequest
  pub conflicting : WireRequest
  pub replayed_request :
      replayed
      ≡ wire_request net scanner
          (replay_request sha256 resource_id replayed_content)
          (ok replayed_content)
          (net.format_time draws.fixed_time)
          nonce
          correlation_id
  pub conflicting_request :
      conflicting
      ≡ wire_request net scanner
          (replay_request sha256 resource_id conflicting_content)
          (ok conflicting_content)
          (net.format_time draws.fixed_time)
          nonce
          correlation_id
  pub first_answer : IsAnswer net first scanner correlation_id replayed envelope
  pub second_answer : IsAnswer net second scanner correlation_id replayed envelope
  pub rejected : IsRejection third conflicting

module _ (sha256 : Bytes → List ℕ) (net : Network)
    (first second third : WireRequest → Result WireResponse) (draws : ReplayDraws) where
  replay_scans-IsReplayed :
      (scanner : HttpScanner) (resource_id nonce correlation_id : Str) (r : Str × Str)
      → random_token (str "drive-replay-nonce") draws.nonce ≡ ok nonce
      → random_token (str "drive-replay-correlation") draws.correlation ≡ ok correlation_id
      → ((clock : Time) → scanner.now clock ≡ draws.fixed_time)
      → ((random : Option Bytes) → scanner.nonce random ≡ ok nonce)
      → ((random : Option Bytes) → scanner.correlation_id random ≡ ok correlation_id)
      → replay_scans sha256 net first second third draws scanner resource_id ≡ ok r
      → IsReplayed net first second third sha256 draws
  unfolding replay_scans wire_request read_response read_wire
  replay_scans-IsReplayed scanner resource_id nonce correlation_id r drawn c_drawn now made given
        h =
      let request = replay_request sha256 resource_id replayed_content in
      let other = replay_request sha256 resource_id conflicting_content in
      let d1 = draws.first_scan in
      let d2 = draws.second_scan in
      let d3 = draws.third_scan in
      elim (Result-cases (scan_by net d1 first scanner request replayed_content)) [
        | inr (e, failed) ↦ absurd (ground arith)
        | inl (a, one) ↦
            elim (Result-cases (scan_by net d2 second scanner request replayed_content)) [
              | inr (e, failed) ↦ absurd (ground arith)
              | inl (b, two) ↦
                  elim (Result-cases (scan_by net d3 third scanner other conflicting_content)) [
                    | inl (c, passed) ↦ absurd (ground arith)
                    | inr (e, refused) ↦
                        let same : a ≡ b = ground (arith, same_envelope_sound a b) in
                        record {
                          scanner = scanner;
                          resource_id = resource_id;
                          nonce = nonce;
                          correlation_id = correlation_id;
                          envelope = b;
                          nonce_drawn = drawn;
                          correlation_drawn = c_drawn;
                          replayed =
                              wire_request net scanner request (ok replayed_content)
                                (net.format_time draws.fixed_time) nonce correlation_id;
                          conflicting =
                              wire_request net scanner other (ok conflicting_content)
                                (net.format_time draws.fixed_time) nonce correlation_id;
                          replayed_request = refl;
                          conflicting_request = refl;
                          first_answer =
                              scan-IsAnswer (record net { exchange = first }) scanner d1 request
                                replayed_content draws.fixed_time nonce correlation_id
                                (now d1.clock) (made d1.nonce_random) (given d1.correlation_random)
                                b (one ∙ ap ok same);
                          second_answer =
                              scan-IsAnswer (record net { exchange = second }) scanner d2 request
                                replayed_content draws.fixed_time nonce correlation_id
                                (now d2.clock) (made d2.nonce_random) (given d2.correlation_random)
                                b two;
                          rejected =
                              scan-IsRejection (record net { exchange = third }) scanner d3 other
                                conflicting_content draws.fixed_time nonce correlation_id
                                (now d3.clock) (made d3.nonce_random) (given d3.correlation_random)
                                e refused (ground arith);
                        }
                  ]
            ]
      ]

  -- Where the replay cases pass, whatever time and random bytes their scans draw, one and the same
  -- request was answered twice with one and the same envelope; and the request that sent the other
  -- content at the same time under the same nonce and correlation ID, which are those of the case, was
  -- answered 409, or its exchange failed with an error whose text says so.
  pub run_replay_cases-IsReplayed :
      (endpoint caller_id key_id secret : Str) (r : Str × Str)
      → run_replay_cases sha256 net first second third draws endpoint caller_id key_id secret ≡ ok r
      → IsReplayed net first second third sha256 draws
  unfolding run_replay_cases
  run_replay_cases-IsReplayed endpoint caller_id key_id secret r h =
      elim (Result-cases (random_token (str "drive-replay-nonce") draws.nonce)) [
        | inr (e, failed) ↦ absurd (ground arith)
        | inl (nonce, drawn) ↦
            elim (Result-cases (random_token (str "drive-replay-correlation") draws.correlation)) [
              | inr (e, failed) ↦ absurd (ground arith)
              | inl (correlation_id, c_drawn) ↦
                  let cfg =
                    replay_config draws endpoint caller_id key_id secret nonce correlation_id in
                  elim (Result-cases (new_http_scanner net cfg)) [
                    | inr (e, failed) ↦ absurd (ground arith)
                    | inl (scanner, built) ↦ elim (Result-cases (acceptance_uuid draws.space)) [
                      | inr (e, failed) ↦ absurd (ground arith)
                      | inl (space_id, space) ↦ elim (Result-cases (acceptance_uuid draws.node)) [
                        | inr (e, failed) ↦ absurd (ground arith)
                        | inl (node_id, node) ↦
                            let (now, made, given) =
                              new_http_scanner_makers net cfg scanner built in
                            replay_scans-IsReplayed scanner
                              (str "drive:" ++ (space_id ++ (str ":file:" ++ node_id))) nonce
                              correlation_id r drawn c_drawn (λ clock. ap (λ f. f clock) now)
                              (λ random. ap (λ f. f random) made)
                              (λ random. ap (λ f. f random) given) (ground arith)
                      ]
                    ]
                  ]
            ]
      ]
