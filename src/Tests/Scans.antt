-- ===== src/Tests/Scans.antt =====
-- The scan decision and the quarantine resource at concrete inputs.
use goreecloud_drive.Prelude.{◌≤◌, ◌≡◌, ◌↔◌, refl, true, false, some, [], ◌∷◌}
use goreecloud_drive.Prelude.{replicate}
use goreecloud_drive.Prelude.Text.{Str, str}
use goreecloud_drive.Prelude.Int.{pos}
use goreecloud_drive.Ids.{hex}
use goreecloud_drive.Wardveil.Action
use goreecloud_drive.Wardveil.ScanResult
use goreecloud_drive.Wardveil.Types.{
  ScanEnvelope, FileResource, resource_id_of, runtime_contract_version, scan_record_type,
  drive_file_resource_type,
}
use goreecloud_drive.Wardveil.Scan.{evaluate}
use goreecloud_drive.Wardveil.Verdict.{
  IsBound, IsEvidence, evaluate_release_iff, evaluate_quarantine_iff,
}
use goreecloud_drive.Ids.{valid_storage_id, storage_bytes, storage_byte}
use goreecloud_drive.Quarantine.{parse_scope}
use goreecloud_drive.Quarantine.Resource.{parse_scope-resource_id}
use goreecloud_drive.Tests.Fixtures.{space_id, node_id}

abbrev pub zero_digest : Str
zero_digest = hex (replicate 32 0)

abbrev resource : FileResource
resource = record {
  space_id = space_id;
  node_id = node_id;
  digest_sha256 = zero_digest;
  size_bytes = pos 2;
}

-- A clean record about a resource.
abbrev pub clean_envelope : Str → Str → ScanEnvelope
clean_envelope id digest = record {
  resource_id = id;
  resource_digest_sha256 = digest;
  scan_record = record {
    contract_version = runtime_contract_version;
    record_id = str "record-1";
    record_type = scan_record_type;
    producer = record { id = str "wardveil"; authoritative = true };
    scope = record { resource_type = drive_file_resource_type; resource_id = id };
    observed_at = 900;
    valid_until = 2000;
    scan_result = ScanResult.clean;
    evidence_refs = str "evidence-1" ∷ [];
  };
}

abbrev envelope : ScanEnvelope
envelope = clean_envelope (resource_id_of resource) zero_digest

evaluate_release_iff_example :
    ((evaluate resource Action.upload_finalize envelope 1000).can_release ≡ true) ↔ (
      IsBound resource Action.upload_finalize envelope
      × IsEvidence resource envelope.scan_record 1000
      × (1000 ≤ 2000)
      × (ScanResult.clean ≡ ScanResult.clean)
      × (false ≡ false))
evaluate_release_iff_example = evaluate_release_iff resource Action.upload_finalize envelope 1000

evaluate_quarantine_iff_example :
    ((evaluate resource Action.upload_finalize envelope 1000).quarantine_required ≡ true) ↔ (
      IsBound resource Action.upload_finalize envelope
      × IsEvidence resource envelope.scan_record 1000
      × (ScanResult.clean ≡ ScanResult.malicious))
evaluate_quarantine_iff_example =
    evaluate_quarantine_iff resource Action.upload_finalize envelope 1000

valid_space : valid_storage_id space_id ≡ true
unfolding valid_storage_id storage_bytes storage_byte
valid_space = refl

valid_node : valid_storage_id node_id ≡ true
unfolding valid_storage_id storage_bytes storage_byte
valid_node = refl

parse_scope-resource_id_example :
    parse_scope
      (record { resource_type = drive_file_resource_type; resource_id = resource_id_of resource })
    ≡ some (space_id, node_id)
parse_scope-resource_id_example = parse_scope-resource_id resource valid_space valid_node
