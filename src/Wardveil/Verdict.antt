-- ===== src/Wardveil/Verdict.antt =====
-- What a decision of `Evaluate` rests on.
use goreecloud_drive.Prelude.{◌≤◌, ◌<◌, ◌≡◌, ◌≢◌, ◌↔◌, refl, true, false, [], arith}
use goreecloud_drive.Prelude.Text.{Str, ◌==◌, ==_iff, trim_space}
use goreecloud_drive.Prelude.Int.{pos, ◌≤ℤ◌}
use goreecloud_drive.Wardveil.ScanResult
use goreecloud_drive.Wardveil.Types.{
  Time, ScanRecord, ScanEnvelope, FileResource, resource_id_of, runtime_contract_version,
  scan_record_type, drive_file_resource_type,
}
use goreecloud_drive.Wardveil.Scan.{
  evaluate, evaluate_record, evaluate_result, valid_sha256, valid_action, equal_fold, is_empty,
}

-- The record is authoritative evidence about the resource, made in a window that has begun.
pub record IsEvidence (resource : FileResource) (r : ScanRecord) (now : Time) : Type 0 where
  pub contract : r.contract_version ≡ runtime_contract_version
  pub kind : r.record_type ≡ scan_record_type
  pub authoritative : r.producer.authoritative ≡ true
  pub named : trim_space r.producer.id ≢ []
  pub scope_type : r.scope.resource_type ≡ drive_file_resource_type
  pub scope_id : r.scope.resource_id ≡ resource_id_of resource
  pub observed : 0 < r.observed_at
  pub window : r.observed_at ≤ r.valid_until
  pub not_future : r.observed_at ≤ now

-- The envelope is about this resource and this content.
pub record IsBound (resource : FileResource) (action : Str) (e : ScanEnvelope) : Type 0 where
  pub space : resource.space_id ≢ []
  pub node : resource.node_id ≢ []
  pub size : pos 0 ≤ℤ resource.size_bytes
  pub digest_valid : valid_sha256 resource.digest_sha256 ≡ true
  pub action_valid : valid_action action ≡ true
  pub same_id : e.resource_id ≡ resource_id_of resource
  pub same_digest : equal_fold e.resource_digest_sha256 resource.digest_sha256 ≡ true

result_release :
    (action : Str) (r : ScanRecord)
    → ((evaluate_result action r).can_release ≡ true)
      ↔ ((r.scan_result ≡ ScanResult.clean) × (is_empty r.evidence_refs ≡ false))
unfolding evaluate_result
result_release action r = ground (arith, ==_iff r.scan_result ScanResult.clean)

record_release :
    (resource : FileResource) (action : Str) (r : ScanRecord) (now : Time)
    → (evaluate_record resource action r now).can_release ≡ true
    → IsEvidence resource r now
      × (now ≤ r.valid_until)
      × (r.scan_result ≡ ScanResult.clean)
      × (is_empty r.evidence_refs ≡ false)
unfolding evaluate_record
record_release resource action r now h = ground (
  arith,
  ==_iff r.contract_version runtime_contract_version,
  ==_iff r.record_type scan_record_type,
  ==_iff (trim_space r.producer.id) [],
  ==_iff r.scope.resource_type drive_file_resource_type,
  ==_iff r.scope.resource_id (resource_id_of resource),
  result_release action r,
)

release_record :
    (resource : FileResource) (action : Str) (r : ScanRecord) (now : Time)
    → IsEvidence resource r now
    → now ≤ r.valid_until
    → r.scan_result ≡ ScanResult.clean
    → is_empty r.evidence_refs ≡ false
    → (evaluate_record resource action r now).can_release ≡ true
unfolding evaluate_record
release_record resource action r now ev current clean refs =
    let clean_not_malicious : (r.scan_result == ScanResult.malicious) ≡ false =
      rw clean (unfold ◌==◌ in refl) in
    ground (
      arith,
      clean_not_malicious,
      ==_iff r.contract_version runtime_contract_version,
      ==_iff r.record_type scan_record_type,
      ==_iff (trim_space r.producer.id) [],
      ==_iff r.scope.resource_type drive_file_resource_type,
      ==_iff r.scope.resource_id (resource_id_of resource),
      result_release action r,
    )

result_quarantine :
    (action : Str) (r : ScanRecord) → (evaluate_result action r).quarantine_required ≡ false
unfolding evaluate_result
result_quarantine action r = ground arith

record_quarantine :
    (resource : FileResource) (action : Str) (r : ScanRecord) (now : Time)
    → ((evaluate_record resource action r now).quarantine_required ≡ true)
      ↔ (IsEvidence resource r now × (r.scan_result ≡ ScanResult.malicious))
unfolding evaluate_record
record_quarantine resource action r now = ground (
  arith,
  ==_iff r.contract_version runtime_contract_version,
  ==_iff r.record_type scan_record_type,
  ==_iff (trim_space r.producer.id) [],
  ==_iff r.scope.resource_type drive_file_resource_type,
  ==_iff r.scope.resource_id (resource_id_of resource),
  ==_iff r.scan_result ScanResult.malicious,
  result_quarantine action r,
)

module _ (resource : FileResource) (action : Str) (e : ScanEnvelope) (now : Time) where
  -- A decision releases the content exactly if the envelope is bound to this resource and digest, its
  -- record is authoritative evidence whose window contains the present, and the verdict is clean with
  -- evidence given. Everything else is not released.
  pub evaluate_release_iff : ((evaluate resource action e now).can_release ≡ true) ↔ (
      IsBound resource action e
      × IsEvidence resource e.scan_record now
      × (now ≤ e.scan_record.valid_until)
      × (e.scan_record.scan_result ≡ ScanResult.clean)
      × (is_empty e.scan_record.evidence_refs ≡ false))
  unfolding evaluate
  evaluate_release_iff = ground (
    arith,
    ==_iff resource.space_id [],
    ==_iff resource.node_id [],
    ==_iff e.resource_id (resource_id_of resource),
    record_release resource action e.scan_record now,
    release_record resource action e.scan_record now,
  )

  -- Quarantine is required exactly by bound, authoritative evidence of malice whose window has begun:
  -- that the window has ended does not matter.
  pub evaluate_quarantine_iff : ((evaluate resource action e now).quarantine_required ≡ true) ↔ (
      IsBound resource action e
      × IsEvidence resource e.scan_record now
      × (e.scan_record.scan_result ≡ ScanResult.malicious))
  unfolding evaluate
  evaluate_quarantine_iff = ground (
    arith,
    ==_iff resource.space_id [],
    ==_iff resource.node_id [],
    ==_iff e.resource_id (resource_id_of resource),
    record_quarantine resource action e.scan_record now,
  )
