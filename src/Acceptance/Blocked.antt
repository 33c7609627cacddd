-- ===== src/Acceptance/Blocked.antt =====
-- cmd/wardveil-negative-acceptance/main.go: the cases whose uploads must not be published. Their
-- scanners read the content first; the one of `runChangedDuringScanCase` then writes to the staged file.
pub mod Held
use goreecloud_drive.Prelude.{
  ℕ, ◌-◌, ◌+◌, String, Bool, true, false, not, ◌||◌, ◌&&◌, Option, none, some, List, [], ◌∷◌, ◌++◌,
  length, replicate, if◌then◌else◌,
}
use goreecloud_drive.Prelude.Text.{Str, str, ◌==◌}
use goreecloud_drive.Prelude.Int.{pos}
use goreecloud_drive.Errors.{
  Error, text, Result, ok, err, upload_security_blocked, upload_security_unavailable,
}
use goreecloud_drive.Os.{
  Io, Bytes, World, pure, raise, lift, attempt, plain_call, ◌>>=◌, ◌>>◌, open_create, truncate,
  write_at,
}
use goreecloud_drive.Ids.{new_uuid}
use goreecloud_drive.Os.Path.{FilePath}
use goreecloud_drive.Storage.Local.{Local, object_path, staging_path}
use goreecloud_drive.Wardveil.ScanResult
use goreecloud_drive.Wardveil.Types.{
  Time, Decision, Disposition, blocked_unverified, hold_review, ScanEnvelope, ScanRequest,
  drive_file_resource_type, runtime_contract_version, scan_record_type,
}
use goreecloud_drive.Wardveil.Gate.{Scanner}
use goreecloud_drive.Acceptance.{
  Randoms, acceptance_uuid, Sent, send_upload, service_of, complete_error, is_error, as_blocked,
  exists, same_disposition, contains,
}

-- `decisionCase`
pub record DecisionCase : Type 0 where
  pub status : Str
  pub disposition : Disposition
  pub can_release : Bool
  pub object_published : Bool
  pub staging_held : Bool
  pub reason_codes : List String

-- `authoritativeEnvelope`
abbrev pub authoritative_envelope : ScanRequest → Time → Time → Str → ScanEnvelope
authoritative_envelope request observed_at valid_until result = record {
  resource_id = request.resource_id;
  resource_digest_sha256 = request.digest_sha256;
  scan_record = record {
    contract_version = runtime_contract_version;
    record_id = str "controlled-acceptance-record";
    record_type = scan_record_type;
    producer = record { id = str "controlled-acceptance"; authoritative = true };
    scope = record { resource_type = drive_file_resource_type; resource_id = request.resource_id };
    observed_at = observed_at;
    valid_until = valid_until;
    scan_result = result;
    evidence_refs = str "controlled:wardveil-negative-acceptance" ∷ [];
  };
}

-- Of `validateBlockedDecision`: the paths, and what is behind them.
unfoldable pub validate_held : Local → Sent → Decision → Io DecisionCase
validate_held store sent decision = do
  object ← lift (object_path store sent.space_id sent.node_id)
  staging ← lift (staging_path store sent.space_id sent.upload_id)
  object_published ← exists object
  staging_held ← exists staging
  if object_published || not staging_held
      then raise (text "blocked upload did not remain unpublished and staged")
      else pure (record {
        status = str "passed";
        disposition = decision.disposition;
        can_release = decision.can_release;
        object_published = object_published;
        staging_held = staging_held;
        reason_codes = decision.reason_codes;
      })

-- `validateBlockedDecision`
unfoldable pub validate_blocked_decision : Local → Sent → Disposition → String → Io DecisionCase
validate_blocked_decision store sent expected_disposition expected_reason =
    if not (is_error (complete_error sent) upload_security_blocked)
    then raise (text "expected security block")
    else elim (complete_error sent) [
      | none ↦ raise (text "security block did not preserve Wardveil decision")
      | some e ↦ elim (as_blocked e) [
        | none ↦ raise (text "security block did not preserve Wardveil decision")
        | some decision ↦
            if not (same_disposition decision.disposition expected_disposition)
              || (decision.can_release || not (contains decision.reason_codes expected_reason))
            then raise (text "unexpected Wardveil decision")
            else validate_held store sent decision
      ]
    ]

-- A reader that is copied to io.Discard, and then an action.
abbrev after_reading {ℓ} : {A : Type ℓ} → Result Bytes → Io A → Io A
after_reading read m = do content ← lift read; m

-- os.WriteFile: opening with O_TRUNC also empties the file, and the error of Write comes before that of
-- Close.
unfoldable pub write_file : FilePath → Bytes → Io (Unit {0})
write_file path bytes = do
  file ← open_create path
  truncate file 0
  written ← attempt (write_at file 0 bytes)
  closed ← attempt plain_call
  lift written
  lift closed

module _ (sha256 : Bytes → List ℕ) (store : Local) where
  -- `runUnavailableCase`
  unfoldable pub run_unavailable_case : Scanner → Randoms → Io Str
  run_unavailable_case scanner random = do
    sent ←
        send_upload (service_of sha256 store scanner none) random (str "timeout.bin")
          (str "GoreeCloud Drive Wardveil timeout acceptance control\n")
    if not (is_error (complete_error sent) upload_security_unavailable)
        then raise (text "expected fail-closed security unavailable")
        else do
          object ← lift (object_path store sent.space_id sent.node_id)
          staging ← lift (staging_path store sent.space_id sent.upload_id)
          published ← exists object
          if published
              then raise (text "timeout path did not preserve unpublished staged content")
              else do
                held ← exists staging
                if not held
                    then raise (text "timeout path did not preserve unpublished staged content")
                    else pure (str "passed")

  -- The scanner of `runControlledDecisionCase`.
  abbrev pub controlled_scanner : (ScanRequest → ScanEnvelope) → Scanner
  controlled_scanner make_envelope request read = after_reading read (pure (make_envelope request))

  -- `runControlledDecisionCase`
  unfoldable pub run_controlled_decision_case :
      Time → Randoms → Str → (ScanRequest → ScanEnvelope) → Disposition → String → Io DecisionCase
  run_controlled_decision_case now random name make_envelope expected_disposition expected_reason =
      do
        sent ←
            send_upload
              (service_of sha256 store (controlled_scanner make_envelope) (some (pure now))) random
              (name ++ str ".bin")
              (str "GoreeCloud Drive controlled Wardveil " ++ (name ++ str " acceptance control\n"))
        validate_blocked_decision store sent expected_disposition expected_reason

  -- The captured variable `stagingPath` of `runChangedDuringScanCase`. It is set before `Complete` calls
  -- the scanner, and an upload without such a path does not get beyond `Append`.
  abbrev pub captured_path : Randoms → Result FilePath
  captured_path random = elim (acceptance_uuid random.space) [
    | err e ↦ err e
    | ok space_id ↦ elim (new_uuid random.upload) [
      | err e ↦ err e
      | ok upload_id ↦ staging_path store space_id upload_id
    ]
  ]

  -- The scanner of `runChangedDuringScanCase`; `now` is far behind the zero time.
  abbrev pub changing_scanner : Time → Result FilePath → Scanner
  changing_scanner now captured request read = after_reading read (do
    path ← lift captured
    write_file path (str "changed after Wardveil inspection\n")
    pure (authoritative_envelope request (now - 1000000000) (now + 60000000000) ScanResult.clean))

  -- `runChangedDuringScanCase`
  unfoldable pub run_changed_during_scan_case : Time → Randoms → Io DecisionCase
  run_changed_during_scan_case now random = do
    sent ←
        send_upload
          (service_of sha256 store (changing_scanner now (captured_path random)) (some (pure now)))
          random (str "changed-during-scan.bin")
          (str "GoreeCloud Drive changed-during-scan acceptance control\n")
    validate_blocked_decision store sent blocked_unverified "drive_content_changed_during_scan"
