-- ===== src/Acceptance/Replay.antt =====
-- cmd/wardveil-negative-acceptance/main.go: `runReplayCases`, three scans under one nonce. The service
-- keeps a state of its own, so each of the three requests has its own exchange.
pub mod Answers
use goreecloud_drive.Prelude.{
  ℕ, ◌≡◌, ◌↔◌, refl, ap, ◌∙◌, String, Bool, true, false, not, ◌||◌, ◌&&◌, Option, none, some, List,
  [], ◌∷◌, ◌++◌, length, eqb, eqb_iff, arith, inl, inr, if◌then◌else◌,
}
use goreecloud_drive.Prelude.Text.{Str, str, ◌==◌, ==_iff, has_prefix}
use goreecloud_drive.Prelude.Int.{ℤ, pos}
use goreecloud_drive.Errors.{Error, is, wrap, blocked, text, Result, Result-cases, ok, err}
use goreecloud_drive.Ids.{hex}
use goreecloud_drive.Os.{Bytes, relabel}
use goreecloud_drive.Wardveil.Action
use goreecloud_drive.Wardveil.Types.{
  Time, Producer, Scope, ScanRecord, ScanEnvelope, ScanRequest, drive_file_resource_type,
}
use goreecloud_drive.Wardveil.Gate.{digest_of}
use goreecloud_drive.Wardveil.HttpScanner.{
  Network, WireRequest, WireResponse, HttpScannerConfig, HttpScanner, new_http_scanner, http_scan,
}
use goreecloud_drive.Acceptance.{acceptance_uuid}

-- `randomToken`
unfoldable pub random_token : Str → Option Bytes → Result Str
random_token prefix none = err (text "rand.Read")
random_token prefix (some raw) = ok (prefix ++ (b'-' ∷ hex raw))

unfoldable pub same_texts : List Str → List Str → Bool
same_texts [] [] = true
same_texts [] (b ∷ bs) = false
same_texts (a ∷ rest) [] = false
same_texts (a ∷ rest) (b ∷ bs) = a == b && same_texts rest bs

abbrev pub same_flag : Bool → Bool → Bool
same_flag true b = b
same_flag false b = not b

abbrev pub same_record : ScanRecord → ScanRecord → Bool
same_record a b =
    (a.contract_version == b.contract_version && a.record_id == b.record_id)
    && ((a.record_type == b.record_type
          && (a.producer.id == b.producer.id
              && same_flag a.producer.authoritative b.producer.authoritative))
        && ((a.scope.resource_type == b.scope.resource_type
              && a.scope.resource_id == b.scope.resource_id)
            && ((eqb a.observed_at b.observed_at && eqb a.valid_until b.valid_until)
                && (a.scan_result == b.scan_result && same_texts a.evidence_refs b.evidence_refs))))

-- reflect.DeepEqual of two envelopes.
unfoldable pub same_envelope : ScanEnvelope → ScanEnvelope → Bool
same_envelope a b =
    a.resource_id == b.resource_id
    && (a.resource_digest_sha256 == b.resource_digest_sha256
        && same_record a.scan_record b.scan_record)

-- strings.Contains(s, p)
unfoldable pub contains_text : Str → Str → Bool
contains_text [] p = p == []
contains_text (c ∷ s) p = has_prefix (c ∷ s) p || contains_text s p

-- strings.Contains(err.Error(), p), for a text that no sentinel and no block has in its message.
unfoldable pub message_contains : Str → Error → Bool
message_contains p (is _) = false
message_contains p (wrap message e) = contains_text (str message) p || message_contains p e
message_contains p (blocked _) = false
message_contains p (text message) = contains_text (str message) p

-- What one call of `Scan` may draw: the time, and the bytes of rand.Read for its two tokens.
pub record ScanDraws : Type 0 where
  pub clock : Time
  pub nonce_random : Option Bytes
  pub correlation_random : Option Bytes

-- What the case draws: the time, the bytes of rand.Read, and what its three scans draw.
pub record ReplayDraws : Type 0 where
  pub fixed_time : Time
  pub nonce : Option Bytes
  pub correlation : Option Bytes
  pub space : Option Bytes
  pub node : Option Bytes
  pub first_scan : ScanDraws
  pub second_scan : ScanDraws
  pub third_scan : ScanDraws

abbrev pub replayed_content : Bytes
replayed_content = str "GoreeCloud Drive exact replay acceptance control\n"

abbrev pub conflicting_content : Bytes
conflicting_content = str "GoreeCloud Drive conflicting replay acceptance control\n"

-- `scanner.Scan`
abbrev pub scan_by :
    Network
    → ScanDraws
    → (WireRequest → Result WireResponse)
    → HttpScanner
    → ScanRequest
    → Bytes
    → Result ScanEnvelope
scan_by net d exchange scanner request content =
    http_scan (record net { exchange = exchange }) d.clock d.nonce_random d.correlation_random
      (some scanner) request (some (ok content))

-- The configuration of the scanner: its clock and its tokens are fixed.
abbrev pub replay_config : ReplayDraws → Str → Str → Str → Str → Str → Str → HttpScannerConfig
replay_config draws endpoint caller_id key_id secret nonce correlation_id = record {
  endpoint = endpoint;
  caller_id = caller_id;
  key_id = key_id;
  secret = secret;
  timeout = pos 10000000000;
  max_response_bytes = pos 0;
  now = some (λ _. draws.fixed_time);
  nonce = some (λ _. ok nonce);
  correlation_id = some (λ _. ok correlation_id);
}

module _ (sha256 : Bytes → List ℕ) where
  -- The request about a content of this resource.
  abbrev pub replay_request : Str → Bytes → ScanRequest
  replay_request resource_id content = record {
    resource_type = drive_file_resource_type;
    resource_id = resource_id;
    digest_sha256 = digest_of sha256 content;
    size_bytes = pos (length content);
    action = Action.upload_finalize;
  }

  module _ (net : Network)
      (first_exchange second_exchange third_exchange : WireRequest → Result WireResponse) where
    -- Of `runReplayCases`: the three scans.
    unfoldable pub replay_scans : ReplayDraws → HttpScanner → Str → Result (Str × Str)
    replay_scans draws scanner resource_id =
        let request = replay_request resource_id replayed_content in
        elim (scan_by net draws.first_scan first_exchange scanner request replayed_content) [
          | err e ↦ err (wrap "first replay request" e)
          | ok first ↦
              elim (scan_by net draws.second_scan second_exchange scanner request
                replayed_content) [
                  | err e ↦ err (wrap "exact replay request" e)
                  | ok second ↦
                      if not (same_envelope first second)
                      then err (text "exact replay did not return the cached equivalent envelope")
                      else elim (scan_by net draws.third_scan third_exchange scanner
                          (replay_request resource_id conflicting_content) conflicting_content) [
                            | ok _ ↦ err (text "conflicting replay was not rejected with HTTP 409")
                            | err e ↦
                                if not (message_contains (str "HTTP 409") e)
                                then err (text "conflicting replay was not rejected with HTTP 409")
                                else ok (str "passed", str "passed")
                          ]
                ]
        ]

    -- `runReplayCases`
    unfoldable pub run_replay_cases : ReplayDraws → Str → Str → Str → Str → Result (Str × Str)
    run_replay_cases draws endpoint caller_id key_id secret =
        elim (random_token (str "drive-replay-nonce") draws.nonce) [
          | err e ↦ err e
          | ok nonce ↦ elim (random_token (str "drive-replay-correlation") draws.correlation) [
            | err e ↦ err e
            | ok correlation_id ↦
                elim (new_http_scanner net
                  (replay_config draws endpoint caller_id key_id secret nonce correlation_id)) [
                    | err e ↦ err e
                    | ok scanner ↦ elim (acceptance_uuid draws.space) [
                      | err e ↦ err e
                      | ok space_id ↦ elim (acceptance_uuid draws.node) [
                        | err e ↦ err e
                        | ok node_id ↦
                            replay_scans draws scanner
                              (str "drive:" ++ (space_id ++ (str ":file:" ++ node_id)))
                      ]
                    ]
                  ]
          ]
        ]
