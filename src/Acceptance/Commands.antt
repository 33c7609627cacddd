-- ===== src/Acceptance/Commands.antt =====
-- The functions `main` of cmd/wardveil-acceptance and of cmd/wardveil-negative-acceptance, up to the
-- evidence that they print. The parsing of flags, the temporary directory, the listener of the timeout case
-- and the output of JSON are I/O; an error is an exit.
use goreecloud_drive.Prelude.{ℕ, Bool, true, false, ◌||◌, none, List, [], replicate, if◌then◌else◌}
use goreecloud_drive.Prelude.Text.{Str, str, ◌==◌}
use goreecloud_drive.Prelude.Int.{pos}
use goreecloud_drive.Errors.{text, Result}
use goreecloud_drive.Os.{Io, Bytes, raise, pure, lift, wrapping, ◌>>=◌, ◌>>◌, time_now}
use goreecloud_drive.Os.Path.{FilePath}
use goreecloud_drive.Command.{FileInfo}
use goreecloud_drive.Storage.Local.{Local, new_local, ensure_layout}
use goreecloud_drive.Wardveil.Types.{Time}
use goreecloud_drive.Wardveil.Gate.{Scanner}
use goreecloud_drive.Wardveil.HttpScanner.{
  Network, HttpScannerConfig, HttpScanner, new_http_scanner,
}
use goreecloud_drive.Acceptance.{Randoms, read_secret_file}
use goreecloud_drive.Acceptance.Upload.{CaseEvidence, run_upload_case, run_negative_case}

pub record Flags : Type 0 where
  pub endpoint : Str
  pub secret_file : Str
  pub caller_id : Str
  pub key_id : Str
  pub revision : Str
  pub wardveil_revision : Str
  pub wardveil_restart_evidence : Str

-- What the commands find around them; `connect` is a built scanner as the gate calls it.
pub record Setting : Type 0 where
  pub stat_file : Str → Result FileInfo
  pub read_file : Str → Result Bytes
  pub net : Network
  pub connect : HttpScanner → Scanner
  pub temp_dir : Result Str
  pub cwd : FilePath
  pub sha256 : Bytes → List ℕ

-- `evidence` of cmd/wardveil-acceptance.
pub record Evidence : Type 0 where
  pub component : Str
  pub drive_revision : Str
  pub wardveil_endpoint : Str
  pub application_consumer_integration : Str
  pub clean_upload_finalize : CaseEvidence
  pub malicious_upload_finalize : CaseEvidence
  pub invalid_credential_fail_closed : Str
  pub scanner_unavailable_fail_closed : Str
  pub direct_clam_av_access : Bool
  pub quarantine_execution : Str
  pub production_service_identity : Str
  pub production_runtime_acceptance : Str
  pub observed_at : Time

-- What rand.Read gives to the four cases.
pub record AcceptanceRandoms : Type 0 where
  pub clean : Randoms
  pub malicious : Randoms
  pub invalid_credential : Randoms
  pub unavailable : Randoms

abbrev pub eicar : Bytes
eicar = str "X5O!P%@AP[4\\PZX54(P^)7CC)7}$EICAR-STANDARD-ANTIVIRUS-TEST-FILE!$H+H*"

-- The configuration of a scanner with a timeout, and defaults for the rest.
abbrev pub plain_config : Flags → Str → Str → ℕ → HttpScannerConfig
plain_config flags endpoint secret timeout = record {
  endpoint = endpoint;
  caller_id = flags.caller_id;
  key_id = flags.key_id;
  secret = secret;
  timeout = pos timeout;
  max_response_bytes = pos 0;
  now = none;
  nonce = none;
  correlation_id = none;
}

module _ (x : Setting) (flags : Flags) where
  -- Of both commands: a store in the temporary directory.
  unfoldable pub open_store : Io Local
  open_store = do
    root ← wrapping "create acceptance storage" (lift x.temp_dir)
    store ← wrapping "initialize acceptance storage" (lift (new_local x.cwd root))
    wrapping "initialize acceptance storage layout" (ensure_layout store)
    pure store

  -- Of cmd/wardveil-acceptance: the cases.
  unfoldable pub run_acceptance_cases : Local → HttpScanner → Str → AcceptanceRandoms → Io Evidence
  run_acceptance_cases store scanner secret random = do
    clean ← wrapping "clean upload acceptance" (
        run_upload_case x.sha256 store (x.connect scanner) random.clean
          (str "GoreeCloud Drive live Wardveil clean acceptance control\n") true)
    malicious ←
        wrapping "malicious upload acceptance"
          (run_upload_case x.sha256 store (x.connect scanner) random.malicious eicar false)
    invalid_credential ← wrapping "invalid credential acceptance" (
        run_negative_case x.sha256 x.net x.connect store random.invalid_credential flags.endpoint
          flags.caller_id flags.key_id (replicate 64 b'0'))
    unavailable ← wrapping "scanner unavailable acceptance" (
        run_negative_case x.sha256 x.net x.connect store random.unavailable
          (str "http://127.0.0.1:8792/v1/scan") flags.caller_id flags.key_id secret)
    now ← time_now
    pure (record {
      component = str "GoreeCloud Drive Wardveil Scan live application acceptance";
      drive_revision = flags.revision;
      wardveil_endpoint = flags.endpoint;
      application_consumer_integration = str "passed";
      clean_upload_finalize = clean;
      malicious_upload_finalize = malicious;
      invalid_credential_fail_closed = invalid_credential;
      scanner_unavailable_fail_closed = unavailable;
      direct_clam_av_access = false;
      quarantine_execution = str "not_proven";
      production_service_identity = str "not_proven";
      production_runtime_acceptance = str "unaccepted";
      observed_at = now;
    })

  -- `main` of cmd/wardveil-acceptance
  unfoldable pub accept : AcceptanceRandoms → Io Evidence
  accept random =
      if flags.secret_file == [] || flags.revision == []
      then raise (text "--secret-file and --source-revision are required")
      else do
        secret ←
            wrapping "read Wardveil Scan secret"
              (lift (read_secret_file x.stat_file x.read_file flags.secret_file))
        scanner ←
            wrapping "initialize Wardveil Scan client"
              (lift (new_http_scanner x.net (plain_config flags flags.endpoint secret 10000000000)))
        store ← open_store
        run_acceptance_cases store scanner secret random
