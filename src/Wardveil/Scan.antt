-- ===== src/Wardveil/Scan.antt =====
-- `Evaluate` of internal/wardveil/scan.go: the decision that a scan envelope supports.
use goreecloud_drive.Prelude.{
  ℕ, ◌+◌, String, Bool, true, false, not, ◌&&◌, ◌||◌, Option, none, some, List, [], ◌∷◌, ltb, leb,
  eqb, length, if◌then◌else◌,
}
use goreecloud_drive.Prelude.Text.{Str, ◌==◌, trim_space}
use goreecloud_drive.Prelude.Int.{pos, ltb_ℤ}
use goreecloud_drive.Wardveil.Action
use goreecloud_drive.Wardveil.ScanResult
use goreecloud_drive.Wardveil.Types.{
  Time, Disposition, allow, hold_review, block_quarantine, blocked_unverified, ScanRecord,
  ScanEnvelope, FileResource, Decision, QuarantineHandoff, resource_id_of, runtime_contract_version,
  scan_record_type, drive_file_resource_type,
}

-- A digit that hex.DecodeString accepts.
abbrev pub is_hex_digit : ℕ → Bool
is_hex_digit c =
    (leb b'0' c && leb c b'9') || ((leb b'a' c && leb c b'f') || (leb b'A' c && leb c b'F'))

unfoldable pub all_hex : Str → Bool
all_hex [] = true
all_hex (c ∷ s) = is_hex_digit c && all_hex s

-- `validSHA256`
unfoldable pub valid_sha256 : Str → Bool
unfolding all_hex
valid_sha256 value = eqb (length value) 64 && all_hex value

-- `validAction`
unfoldable pub valid_action : Str → Bool
valid_action action =
    action == Action.upload_finalize
    || (action == Action.opening
        || (action == Action.download
            || (action == Action.share || action == Action.restore_release)))

abbrev pub lower : ℕ → ℕ
lower c = if leb b'A' c && leb c b'Z' then c + 32 else c

-- strings.EqualFold where one side is hexadecimal: no rune outside ASCII folds to such a digit.
unfoldable pub equal_fold : Str → Str → Bool
equal_fold [] [] = true
equal_fold [] (d ∷ t) = false
equal_fold (c ∷ s) [] = false
equal_fold (c ∷ s) (d ∷ t) = eqb (lower c) (lower d) && equal_fold s t

abbrev pub is_empty : List Str → Bool
is_empty [] = true
is_empty (_ ∷ _) = false

abbrev pub block : Str → String → Decision
block action reason = record {
  action = action;
  disposition = blocked_unverified;
  can_release = false;
  quarantine_required = false;
  reason_codes = reason ∷ [];
  evidence_refs = [];
  scan_record_id = [];
}

-- A decision that quotes the record.
abbrev pub decide : Str → Disposition → Bool → Bool → String → ScanRecord → Decision
decide action disposition can_release quarantine_required reason scan_record = record {
  action = action;
  disposition = disposition;
  can_release = can_release;
  quarantine_required = quarantine_required;
  reason_codes = reason ∷ [];
  evidence_refs = scan_record.evidence_refs;
  scan_record_id = scan_record.record_id;
}

-- The switch on the result of a record that is current.
unfoldable pub evaluate_result : Str → ScanRecord → Decision
evaluate_result action r =
    if r.scan_result == ScanResult.clean
    then (if is_empty r.evidence_refs
        then block action "wardveil_clean_evidence_missing"
        else decide action allow true false "wardveil_clean_current" r)
    else if r.scan_result == ScanResult.suspicious
    then decide action hold_review false false "wardveil_suspicious_review_required" r
    else if r.scan_result == ScanResult.unknown
    then block action "wardveil_result_unknown"
    else if r.scan_result == ScanResult.unsupported
    then block action "wardveil_result_unsupported"
    else block action "wardveil_result_invalid"

-- The tests on the record, in the source's order.
unfoldable pub evaluate_record : FileResource → Str → ScanRecord → Time → Decision
evaluate_record resource action r now =
    if not (r.contract_version == runtime_contract_version)
    then block action "wardveil_contract_version_mismatch"
    else if not (r.record_type == scan_record_type)
    then block action "wardveil_record_type_invalid"
    else if not r.producer.authoritative || trim_space r.producer.id == []
    then block action "wardveil_producer_not_authoritative"
    else if not (r.scope.resource_type == drive_file_resource_type)
        || not (r.scope.resource_id == resource_id_of resource)
    then block action "wardveil_scope_mismatch"
    else if eqb r.observed_at 0 || (eqb r.valid_until 0 || ltb r.valid_until r.observed_at)
    then block action "wardveil_evidence_window_invalid"
    else if ltb now r.observed_at
    then block action "wardveil_evidence_future_dated"
    else if r.scan_result == ScanResult.malicious
    then decide action block_quarantine false true "wardveil_malicious_digest_match" r
    else if ltb r.valid_until now
    then block action "wardveil_evidence_expired"
    else evaluate_result action r

-- `Evaluate`
unfoldable pub evaluate : FileResource → Str → ScanEnvelope → Time → Decision
evaluate resource action envelope now =
    if resource.space_id == []
      || (resource.node_id == []
          || (ltb_ℤ resource.size_bytes (pos 0) || not (valid_sha256 resource.digest_sha256)))
    then block action "drive_resource_invalid"
    else if not (valid_action action)
    then block action "drive_action_invalid"
    else if not (envelope.resource_id == resource_id_of resource)
    then block action "wardveil_resource_id_mismatch"
    else if not (equal_fold envelope.resource_digest_sha256 resource.digest_sha256)
    then block action "wardveil_digest_mismatch"
    else evaluate_record resource action envelope.scan_record now

-- `Decision.QuarantineHandoff`; `none` is the result `false`.
unfoldable pub quarantine_handoff : Decision → FileResource → Option QuarantineHandoff
quarantine_handoff d resource =
    if not d.quarantine_required
    then none
    else some (record {
      resource_type = drive_file_resource_type;
      resource_id = resource_id_of resource;
      digest_sha256 = resource.digest_sha256;
      evidence_refs = d.evidence_refs;
      scan_record_id = d.scan_record_id;
      requires_explicit_executor_authority = true;
      destructive_action = false;
    })
