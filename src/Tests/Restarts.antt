-- ===== src/Tests/Restarts.antt =====
-- The evidence of a restart, and the three scans of a replay.
use goreecloud_drive.Prelude.{
  ◌≤◌, ◌+◌, ◌≡◌, ◌↔◌, refl, true, false, some, [], ◌++◌, replicate, none,
}
use goreecloud_drive.Prelude.Text.{str, ◌==◌, trim_space, has_prefix, strip_prefix}
use goreecloud_drive.Prelude.Int.{◌+ℤ◌}
use goreecloud_drive.Errors.{ok, Result}
use goreecloud_drive.Ids.{hex, hex_digit, new_uuid, uuid_of, set_version, set_variant}
use goreecloud_drive.Json.{is_blank}
use goreecloud_drive.Os.{Bytes}
use goreecloud_drive.Storage.Session.{chunk_limit, wrap_int64}
use goreecloud_drive.Wardveil.Types.{Time, drive_file_resource_type}
use goreecloud_drive.Wardveil.Scan.{valid_sha256, all_hex, valid_action}
use goreecloud_drive.Wardveil.ScanText.{valid_scan_token, token_bytes, to_lower, has_lower_prefix}
use goreecloud_drive.Wardveil.HttpScanner.{
  Network, WireRequest, WireResponse, validate_scan_endpoint, scanner_at, new_http_scanner,
  wire_request, read_wire, read_response, http_scan,
}
use goreecloud_drive.Acceptance.{acceptance_uuid}
use goreecloud_drive.Acceptance.Replay.{
  ReplayDraws, ScanDraws, random_token, same_texts, same_envelope, contains_text, message_contains,
  replay_scans, run_replay_cases,
}
use goreecloud_drive.Acceptance.Replay.Answers.{IsReplayed, run_replay_cases-IsReplayed}
use goreecloud_drive.Acceptance.Restart.{
  RestartEvidence, ReplayEvidenceBinding, RestartSources, Expected, passed,
  validate_restart_evidence,
}
use goreecloud_drive.Acceptance.Restart.Proof.{
  IsPrivateFile, IsRestartProof, validate_restart_evidence_iff,
}
use goreecloud_drive.Acceptance.Restart.{binding_of}
use goreecloud_drive.Tests.Exchanges.{network, wire}

abbrev evidence : RestartEvidence
evidence = record {
  component = str "Wardveil Scan durable same-host replay restart acceptance";
  wardveil_revision = str "rev-1";
  wardveil_endpoint = str "http://127.0.0.1:8791/v1/scan";
  service = str "wardveil-scan.service";
  caller_id = str "goreecloud-drive";
  key_id = str "scan-current";
  resource_type = drive_file_resource_type;
  initial_authenticated_clean_request = passed;
  service_restart = passed;
  systemd_invocation_changed = true;
  exact_replay_after_restart = passed;
  cached_envelope_identical = true;
  conflicting_replay_after_restart = passed;
  post_acceptance_health = passed;
  replay_database = str "/var/lib/wardveil-scan/replay.sqlite3";
  replay_database_mode = str "0600";
  replay_state_directory_mode = str "0700";
  transient_request_state_private = true;
  transient_request_state_removed = true;
  raw_resource_content_in_evidence = false;
  caller_secret_in_evidence = false;
  single_host_restart_durability = passed;
  multi_host_replay_durability = str "not_proven";
  production_service_identity = str "not_proven_by_acceptance";
  production_runtime_acceptance = str "unaccepted";
  protection_claim_authority = false;
  observed_at = str "2026-01-01T00:00:00Z";
}

abbrev sources : RestartSources
sources = record {
  is_abs = λ path. has_prefix path (str "/");
  lstat = λ _. ok (record { is_symlink = false; is_regular = true; permissions = 0x180; size = 2 });
  read_file = λ _. ok (str "{}");
  decode = λ _. some evidence;
  parse_time = λ _. some 90000000000000;
  sha256 = λ _. replicate 32 0;
}

abbrev expected : Expected
expected = record {
  revision = str "rev-1";
  endpoint = str "http://127.0.0.1:8791/v1/scan";
  caller_id = str "goreecloud-drive";
  key_id = str "scan-current";
  now = 100000000000000;
}

abbrev bound : ReplayEvidenceBinding
bound = binding_of sources expected (str "{}") 90000000000000

validate_restart_evidence_iff_example :
    (validate_restart_evidence sources expected (str "/run/evidence.json") ≡ ok bound) ↔ (
      (raw : Bytes) × (e : RestartEvidence) × (observed_at : Time) × IsPrivateFile sources
        (str "/run/evidence.json")
        raw
      × (sources.decode raw ≡ some e)
      × IsRestartProof expected e
      × (sources.parse_time e.observed_at ≡ some observed_at)
      × (observed_at ≤ expected.now + 300000000000)
      × (expected.now ≤ observed_at + 86400000000000)
      × (bound ≡ binding_of sources expected raw observed_at))
validate_restart_evidence_iff_example =
    validate_restart_evidence_iff sources expected (str "/run/evidence.json") bound

-- The service answers the scans of the case under their correlation ID, and the third one 409.
abbrev replay_network : Network
replay_network = record network {
  decode_wire = λ _. some (
    record wire { correlation_id = str "drive-replay-correlation-" ++ hex (replicate 16 2) },
    [],
  );
}

abbrev rejecting : WireRequest → Result WireResponse
rejecting _ = ok (record {
  status = 409;
  content_type = str "application/json";
  body = record { bytes = []; broken = false };
})

abbrev drawn_at : Time → ScanDraws
drawn_at clock = record { clock = clock; nonce_random = some []; correlation_random = none }

abbrev draws : ReplayDraws
draws = record {
  fixed_time = 1000;
  nonce = some (replicate 16 1);
  correlation = some (replicate 16 2);
  space = some (replicate 16 3);
  node = some (replicate 16 4);
  first_scan = drawn_at 2000;
  second_scan = drawn_at 3000;
  third_scan = drawn_at 4000;
}

replay_run :
    run_replay_cases
      (λ _. replicate 32 0)
      replay_network
      network.exchange
      network.exchange
      rejecting
      draws
      (str "http://127.0.0.1:8791/v1/scan")
      (str "goreecloud-drive")
      (str "scan-current")
      (replicate 32 b's')
    ≡ ok (str "passed", str "passed")
unfolding run_replay_cases replay_scans random_token acceptance_uuid new_uuid uuid_of set_version
    set_variant hex hex_digit new_http_scanner validate_scan_endpoint scanner_at http_scan
    read_response read_wire is_blank has_lower_prefix valid_scan_token token_bytes valid_sha256
    all_hex valid_action chunk_limit wrap_int64 ◌+ℤ◌ trim_space ◌==◌ same_envelope same_texts
    contains_text message_contains has_prefix strip_prefix to_lower wire_request
replay_run = refl

run_replay_cases-IsReplayed_example :
    IsReplayed replay_network network.exchange network.exchange rejecting
      (λ _. replicate 32 0)
      draws
run_replay_cases-IsReplayed_example =
    run_replay_cases-IsReplayed (λ _. replicate 32 0) replay_network network.exchange
      network.exchange rejecting draws (str "http://127.0.0.1:8791/v1/scan")
      (str "goreecloud-drive") (str "scan-current") (replicate 32 b's') (str "passed", str "passed")
      replay_run
