-- ===== src/Acceptance/NegativeCommand.antt =====
-- `main` of cmd/wardveil-negative-acceptance, up to the evidence that it prints.
use goreecloud_drive.Prelude.{◌-◌, ◌+◌, ◌||◌, List, [], ◌∷◌, ◌++◌, replicate, if◌then◌else◌}
use goreecloud_drive.Prelude.Text.{Str, str, ◌==◌}
use goreecloud_drive.Errors.{text, Result}
use goreecloud_drive.Os.{Io, raise, pure, lift, wrapping, ◌>>=◌, time_now}
use goreecloud_drive.Storage.Local.{Local}
use goreecloud_drive.Wardveil.ScanResult
use goreecloud_drive.Wardveil.Types.{
  Time, ScanRequest, ScanEnvelope, blocked_unverified, hold_review,
}
use goreecloud_drive.Wardveil.HttpScanner.{WireRequest, WireResponse, new_http_scanner, scan_path}
use goreecloud_drive.Acceptance.{Randoms, read_secret_file}
use goreecloud_drive.Acceptance.Blocked.{
  DecisionCase, authoritative_envelope, run_unavailable_case, run_controlled_decision_case,
  run_changed_during_scan_case,
}
use goreecloud_drive.Acceptance.Replay.{ReplayDraws, run_replay_cases}
use goreecloud_drive.Acceptance.Restart.{
  RestartSources, Expected, ReplayEvidenceBinding, validate_restart_evidence,
}
use goreecloud_drive.Acceptance.Commands.{Flags, Setting, plain_config, open_store}

-- `evidence`
pub record NegativeEvidence : Type 0 where
  pub component : Str
  pub drive_revision : Str
  pub wardveil_endpoint : Str
  pub wardveil_revision : Str
  pub wardveil_restart_evidence_sha256 : Str
  pub wardveil_restart_evidence_at : Time
  pub runtime_negative_matrix : Str
  pub live_wardveil_cases : List Str
  pub validated_wardveil_runtime_cases : List Str
  pub controlled_drive_cases : List Str
  pub scanner_timeout_fail_closed : Str
  pub expired_evidence_fail_closed : DecisionCase
  pub digest_mismatch_fail_closed : DecisionCase
  pub changed_during_scan_fail_closed : DecisionCase
  pub suspicious_content_held : DecisionCase
  pub unknown_result_fail_closed : DecisionCase
  pub unsupported_result_fail_closed : DecisionCase
  pub exact_replay_cached : Str
  pub conflicting_replay_rejected : Str
  pub replay_durability : Str
  pub multi_host_replay_durability : Str
  pub revoked_credential : Str
  pub stale_signatures : Str
  pub capacity_exhaustion : Str
  pub production_runtime_acceptance : Str
  pub observed_at : Time

-- What rand.Read gives to the cases.
pub record NegativeRandoms : Type 0 where
  pub timeout : Randoms
  pub expired : Randoms
  pub digest_mismatch : Randoms
  pub changed : Randoms
  pub suspicious : Randoms
  pub unknown : Randoms
  pub unsupported : Randoms
  pub replay : ReplayDraws

-- The results of the cases.
pub record NegativeCases : Type 0 where
  pub timeout : Str
  pub expired : DecisionCase
  pub digest_mismatch : DecisionCase
  pub changed : DecisionCase
  pub suspicious : DecisionCase
  pub unknown : DecisionCase
  pub unsupported : DecisionCase
  pub exact_replay : Str
  pub conflicting_replay : Str

-- The listener of `runTimeoutCase` gives its address; the three exchanges are those of the replay.
pub record NegativeSetting : Type 0 where
  pub common : Setting
  pub restart : RestartSources
  pub listener : Result Str
  pub first_exchange : WireRequest → Result WireResponse
  pub second_exchange : WireRequest → Result WireResponse
  pub third_exchange : WireRequest → Result WireResponse

module _ (x : NegativeSetting) (flags : Flags) where
  -- `runTimeoutCase`
  unfoldable pub run_timeout_case : Local → Str → Randoms → Io Str
  run_timeout_case store secret random = do
    address ← lift x.listener
    scanner ← lift (
        new_http_scanner x.common.net
          (plain_config flags (str "http://" ++ (address ++ scan_path)) secret 100000000))
    run_unavailable_case x.common.sha256 store (x.common.connect scanner) random

  -- An envelope with a result that is current at `now`, which is far behind the zero time.
  abbrev pub current_envelope : Time → Str → ScanRequest → ScanEnvelope
  current_envelope now result request =
      authoritative_envelope request (now - 1000000000) (now + 60000000000) result

  -- Of `main`: the cases, in their order.
  unfoldable pub run_negative_cases : Local → Str → Time → NegativeRandoms → Io NegativeCases
  run_negative_cases store secret now random = do
    let sha256 = x.common.sha256
    timeout ← wrapping "scanner timeout acceptance" (run_timeout_case store secret random.timeout)
    expired ← wrapping "expired evidence acceptance" (
        run_controlled_decision_case sha256 store now random.expired (str "expired")
          (λ request.
            authoritative_envelope request (now - 120000000000) (now - 60000000000)
              ScanResult.clean)
          blocked_unverified "wardveil_evidence_expired")
    digest_mismatch ← wrapping "digest mismatch acceptance" (
        run_controlled_decision_case sha256 store now random.digest_mismatch (str "digest-mismatch")
          (λ request. record (current_envelope now ScanResult.clean request) {
            resource_digest_sha256 = replicate 64 b'f';
          })
          blocked_unverified "wardveil_digest_mismatch")
    changed ←
        wrapping "changed-during-scan acceptance"
          (run_changed_during_scan_case sha256 store now random.changed)
    suspicious ← wrapping "suspicious result acceptance" (
        run_controlled_decision_case sha256 store now random.suspicious (str "suspicious")
          (current_envelope now ScanResult.suspicious) hold_review
          "wardveil_suspicious_review_required")
    unknown ← wrapping "unknown result acceptance" (
        run_controlled_decision_case sha256 store now random.unknown (str "unknown")
          (current_envelope now ScanResult.unknown) blocked_unverified "wardveil_result_unknown")
    unsupported ← wrapping "unsupported result acceptance" (
        run_controlled_decision_case sha256 store now random.unsupported (str "unsupported")
          (current_envelope now ScanResult.unsupported) blocked_unverified
          "wardveil_result_unsupported")
    (exact_replay, conflicting_replay) ← wrapping "replay acceptance" (
        lift (
          run_replay_cases sha256 x.common.net x.first_exchange x.second_exchange x.third_exchange
            random.replay flags.endpoint flags.caller_id flags.key_id secret))
    pure (record {
      timeout = timeout;
      expired = expired;
      digest_mismatch = digest_mismatch;
      changed = changed;
      suspicious = suspicious;
      unknown = unknown;
      unsupported = unsupported;
      exact_replay = exact_replay;
      conflicting_replay = conflicting_replay;
    })

  abbrev pub expected_restart : Time → Expected
  expected_restart now = record {
    revision = flags.wardveil_revision;
    endpoint = flags.endpoint;
    caller_id = flags.caller_id;
    key_id = flags.key_id;
    now = now;
  }

  -- Of `main`: the evidence from the binding and the cases.
  abbrev pub negative_evidence : ReplayEvidenceBinding → NegativeCases → Time → NegativeEvidence
  negative_evidence binding cases now = record {
    component = str "GoreeCloud Drive Wardveil Scan runtime negative acceptance";
    drive_revision = flags.revision;
    wardveil_endpoint = flags.endpoint;
    wardveil_revision = binding.wardveil_revision;
    wardveil_restart_evidence_sha256 = binding.evidence_sha256;
    wardveil_restart_evidence_at = binding.observed_at;
    runtime_negative_matrix = str "passed";
    live_wardveil_cases = str "exact_replay_cached" ∷ str "conflicting_replay_rejected" ∷ [];
    validated_wardveil_runtime_cases = str "single_host_restart_durability" ∷ [];
    controlled_drive_cases =
        str "scanner_timeout_fail_closed"
        ∷ str "expired_evidence_fail_closed"
        ∷ str "digest_mismatch_fail_closed"
        ∷ str "changed_during_scan_fail_closed"
        ∷ str "suspicious_content_held"
        ∷ str "unknown_result_fail_closed"
        ∷ str "unsupported_result_fail_closed"
        ∷ [];
    scanner_timeout_fail_closed = cases.timeout;
    expired_evidence_fail_closed = cases.expired;
    digest_mismatch_fail_closed = cases.digest_mismatch;
    changed_during_scan_fail_closed = cases.changed;
    suspicious_content_held = cases.suspicious;
    unknown_result_fail_closed = cases.unknown;
    unsupported_result_fail_closed = cases.unsupported;
    exact_replay_cached = cases.exact_replay;
    conflicting_replay_rejected = cases.conflicting_replay;
    replay_durability = binding.replay_durability;
    multi_host_replay_durability = binding.multi_host_replay_status;
    revoked_credential = str "not_proven";
    stale_signatures = str "not_proven";
    capacity_exhaustion = str "not_proven";
    production_runtime_acceptance = str "unaccepted";
    observed_at = now;
  }

  -- `main`
  unfoldable pub accept_negative : NegativeRandoms → Io NegativeEvidence
  accept_negative random =
      if flags.secret_file == []
        || (flags.revision == []
            || (flags.wardveil_revision == [] || flags.wardveil_restart_evidence == []))
      then raise (
          text
            "--secret-file, --source-revision, --wardveil-revision, and --wardveil-restart-evidence are required")
      else do
        secret ←
            wrapping "read Wardveil Scan secret"
              (lift (read_secret_file x.common.stat_file x.common.read_file flags.secret_file))
        now ← time_now
        binding ← wrapping "validate Wardveil restart evidence" (
            lift (
              validate_restart_evidence x.restart (expected_restart now)
                flags.wardveil_restart_evidence))
        store ← open_store x.common flags
        cases ← run_negative_cases store secret now random
        end ← time_now
        pure (negative_evidence binding cases end)
