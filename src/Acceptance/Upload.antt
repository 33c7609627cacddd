-- ===== src/Acceptance/Upload.antt =====
-- cmd/wardveil-acceptance/main.go: `runUploadCase` and `runNegativeCase`.
pub mod Published
pub mod Compared
pub mod Clean
use goreecloud_drive.Prelude.{
  ℕ, String, Bool, true, false, not, ◌||◌, ◌&&◌, Option, none, some, List, length, if◌then◌else◌,
}
use goreecloud_drive.Prelude.Text.{Str, str, ◌==◌}
use goreecloud_drive.Prelude.Int.{pos}
use goreecloud_drive.Errors.{
  Error, text, Result, ok, err, upload_security_blocked, upload_security_unavailable,
}
use goreecloud_drive.Os.{Io, Bytes, pure, raise, lift, attempt, ◌>>=◌, ◌>>◌, plain_call, read_all}
use goreecloud_drive.Storage.Local.{Local, object_path, staging_path, open_object}
use goreecloud_drive.Wardveil.Types.{
  Time, Decision, Disposition, allow, block_quarantine, FileResource,
}
use goreecloud_drive.Wardveil.Scan.{quarantine_handoff}
use goreecloud_drive.Wardveil.Gate.{Scanner, digest_of}
use goreecloud_drive.Wardveil.HttpScanner.{
  Network, HttpScannerConfig, HttpScanner, new_http_scanner,
}
use goreecloud_drive.Uploads.Interface.{Session, State, active, completed, is_active}
use goreecloud_drive.Acceptance.{
  Randoms, Sent, send_upload, service_of, complete_error, is_error, as_blocked, exists,
  same_disposition,
}

-- `caseEvidence`
pub record CaseEvidence : Type 0 where
  pub completed : Bool
  pub disposition : Disposition
  pub can_release : Bool
  pub quarantine_required : Bool
  pub object_published : Bool
  pub staging_held : Bool
  pub published_bytes_match : Bool
  pub quarantine_handoff_generated : Bool
  pub requires_explicit_executor_authority : Bool
  pub destructive_action : Bool
  pub reason_codes : List String

-- Of `runUploadCase`: the evidence before the expectation is tested.
abbrev pub observed : Decision → Bool → Bool → CaseEvidence
observed last object_published staging_held = record {
  completed = false;
  disposition = last.disposition;
  can_release = last.can_release;
  quarantine_required = last.quarantine_required;
  object_published = object_published;
  staging_held = staging_held;
  published_bytes_match = false;
  quarantine_handoff_generated = false;
  requires_explicit_executor_authority = false;
  destructive_action = false;
  reason_codes = last.reason_codes;
}

-- Of `runUploadCase`: the published object is read and compared; the copy's error comes before that of
-- Close.
unfoldable pub compare_published : Local → Sent → Bytes → CaseEvidence → Io CaseEvidence
compare_published store sent content evidence = do
  opened ← open_object store sent.space_id sent.node_id
  read ← attempt (read_all opened)
  closed ← attempt plain_call
  published ← lift read
  lift closed
  if not (published == content)
      then raise (text "published clean bytes did not match staged bytes")
      else pure (record evidence { completed = true; published_bytes_match = true })

-- Of `runUploadCase`: clean content is expected.
unfoldable pub judge_clean : Local → Sent → Bytes → CaseEvidence → Io CaseEvidence
judge_clean store sent content evidence = elim sent.outcome [
  | err e ↦ raise e
  | ok (session, some e) ↦ raise e
  | ok (session, none) ↦
      if is_active session.state
        || (not (same_disposition sent.last.disposition allow)
            || (not sent.last.can_release
                || (not evidence.object_published || evidence.staging_held)))
      then raise (text "clean upload did not complete with exact release semantics")
      else compare_published store sent content evidence
]

module _ (sha256 : Bytes → List ℕ) where
  -- Of `runUploadCase`: the decision that the block carries.
  unfoldable pub judge_decision : Sent → Bytes → CaseEvidence → Decision → Io CaseEvidence
  judge_decision sent content evidence decision =
      if not (same_disposition decision.disposition block_quarantine)
        || (decision.can_release
            || (not decision.quarantine_required
                || (evidence.object_published || not evidence.staging_held)))
      then raise (text "malicious upload enforcement semantics were not preserved")
      else elim (quarantine_handoff decision (record {
        space_id = sent.space_id;
        node_id = sent.node_id;
        digest_sha256 = digest_of sha256 content;
        size_bytes = pos (length content);
      })) [
        | none ↦
            raise (
              text
                "quarantine handoff did not preserve explicit-authority non-destructive boundary")
        | some handoff ↦
            if not handoff.requires_explicit_executor_authority || handoff.destructive_action
            then raise (
                text
                  "quarantine handoff did not preserve explicit-authority non-destructive boundary")
            else pure (record evidence {
              quarantine_handoff_generated = true;
              requires_explicit_executor_authority = handoff.requires_explicit_executor_authority;
              destructive_action = handoff.destructive_action;
            })
      ]

  -- Of `runUploadCase`: malicious content is expected.
  unfoldable pub judge_malicious : Sent → Bytes → CaseEvidence → Io CaseEvidence
  judge_malicious sent content evidence =
      if not (is_error (complete_error sent) upload_security_blocked)
      then raise (text "malicious upload did not fail with security block")
      else elim (complete_error sent) [
        | none ↦ raise (text "malicious upload did not preserve Wardveil decision")
        | some e ↦ elim (as_blocked e) [
          | none ↦ raise (text "malicious upload did not preserve Wardveil decision")
          | some decision ↦ judge_decision sent content evidence decision
        ]
      ]

  -- `runUploadCase`
  unfoldable pub run_upload_case : Local → Scanner → Randoms → Bytes → Bool → Io CaseEvidence
  run_upload_case store scanner random content expect_clean = do
    sent ← send_upload (service_of sha256 store scanner none) random (str "acceptance.bin") content
    object ← lift (object_path store sent.space_id sent.node_id)
    staging ← lift (staging_path store sent.space_id sent.upload_id)
    object_published ← exists object
    staging_held ← exists staging
    let evidence = observed sent.last object_published staging_held
    if expect_clean
        then judge_clean store sent content evidence
        else judge_malicious sent content evidence

  -- Of `runNegativeCase`: the scanner is there.
  unfoldable pub run_negative_upload : Local → Scanner → Randoms → Io Str
  run_negative_upload store scanner random = do
    sent ←
        send_upload (service_of sha256 store scanner none) random (str "negative.bin")
          (str "GoreeCloud Drive Wardveil negative acceptance control\n")
    if not (is_error (complete_error sent) upload_security_unavailable)
        then raise (text "expected fail-closed security unavailable")
        else do
          object ← lift (object_path store sent.space_id sent.node_id)
          published ← exists object
          if published
              then raise (text "negative-path upload published content")
              else pure (str "passed")

  -- `runNegativeCase`; `connect` is the built scanner as the gate calls it.
  unfoldable pub run_negative_case :
      Network → (HttpScanner → Scanner) → Local → Randoms → Str → Str → Str → Str → Io Str
  run_negative_case net connect store random endpoint caller_id key_id secret = do
    scanner ← lift (
        new_http_scanner net (record {
          endpoint = endpoint;
          caller_id = caller_id;
          key_id = key_id;
          secret = secret;
          timeout = pos 2000000000;
          max_response_bytes = pos 0;
          now = none;
          nonce = none;
          correlation_id = none;
        }))
    run_negative_upload store (connect scanner) random
