-- ===== src/Wardveil/Types.antt =====
-- The data of internal/wardveil/scan.go: scan requests, records and decisions.
-- A `time.Time` is a number of nanoseconds since the zero time, so `IsZero` is a test for 0.
use goreecloud_drive.Prelude.{ℕ, String, Bool, List, ◌++◌}
use goreecloud_drive.Prelude.Text.{Str, str}
use goreecloud_drive.Prelude.Int.{ℤ}

abbrev pub Time : Type 0
Time = ℕ

abbrev pub runtime_contract_version : Str
runtime_contract_version = str "0.1.0"

abbrev pub scan_record_type : Str
scan_record_type = str "scan_finding"

abbrev pub drive_file_resource_type : Str
drive_file_resource_type = str "drive_file"

-- `Disposition`; `undecided` is the empty string of the zero `Decision`.
pub data Disposition : Type 0 where
  allow hold_review block_quarantine blocked_unverified undecided : Disposition

pub record Producer : Type 0 where
  pub id : Str
  pub authoritative : Bool

pub record Scope : Type 0 where
  pub resource_type : Str
  pub resource_id : Str

pub record ScanRecord : Type 0 where
  pub contract_version : Str
  pub record_id : Str
  pub record_type : Str
  pub producer : Producer
  pub scope : Scope
  pub observed_at : Time
  pub valid_until : Time
  pub scan_result : Str
  pub evidence_refs : List Str

pub record ScanEnvelope : Type 0 where
  pub resource_id : Str
  pub resource_digest_sha256 : Str
  pub scan_record : ScanRecord

pub record FileResource : Type 0 where
  pub space_id : Str
  pub node_id : Str
  pub digest_sha256 : Str
  pub size_bytes : ℤ

-- `FileResource.ResourceID`
unfoldable pub resource_id_of : FileResource → Str
resource_id_of r = str "drive:" ++ (r.space_id ++ (str ":file:" ++ r.node_id))

pub record ScanRequest : Type 0 where
  pub resource_type : Str
  pub resource_id : Str
  pub digest_sha256 : Str
  pub size_bytes : ℤ
  pub action : Str

-- Reason codes are constants that the program only hands on: native texts.
pub record Decision : Type 0 where
  pub action : Str
  pub disposition : Disposition
  pub can_release : Bool
  pub quarantine_required : Bool
  pub reason_codes : List String
  pub evidence_refs : List Str
  pub scan_record_id : Str

pub record QuarantineHandoff : Type 0 where
  pub resource_type : Str
  pub resource_id : Str
  pub digest_sha256 : Str
  pub evidence_refs : List Str
  pub scan_record_id : Str
  pub requires_explicit_executor_authority : Bool
  pub destructive_action : Bool
