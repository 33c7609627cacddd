-- ===== src/Quarantine.antt =====
-- internal/quarantine/service.go: the quarantine target that Wardveil calls, over Drive's storage.
pub mod Resource
use goreecloud_drive.Prelude.{
  String, Bool, true, false, not, ◌&&◌, ◌||◌, Option, none, some, [], ◌∷◌, if◌then◌else◌, List,
}
use goreecloud_drive.Prelude.Text.{Str, str, ◌==◌, split}
use goreecloud_drive.Errors.{
  Error, Result, ok, err, errors_is, quarantine_conflict, quarantine_reconciliation, os_not_exist,
}
use goreecloud_drive.Os.{World, Io}
use goreecloud_drive.Wardveil.Types.{Scope, drive_file_resource_type}
use goreecloud_drive.Storage.Local.{Local}
use goreecloud_drive.Storage.StateFile.{QuarantineState, JsonCodec}
use goreecloud_drive.Storage.Quarantine.{apply_quarantine, read_quarantine}

-- `ApplyRequest`
pub record ApplyRequest : Type 0 where
  pub operation_id : Str
  pub correlation_id : Str
  pub scope : Scope

-- The texts of `Status`.
pub data Status : Type 0 where
  applied already_applied failed unknown not_quarantined quarantined : Status

-- `ApplyResult`; the reason is a constant that is only handed on.
pub record ApplyResult : Type 0 where
  pub status : Status
  pub operation_id : Str
  pub state_ref : Str
  pub evidence_ref : Str
  pub reason : String

-- `ReadResult`
pub record ReadResult : Type 0 where
  pub status : Status
  pub operation_id : Str
  pub state_ref : Str
  pub evidence_ref : Str

-- The four parts of a resource ID.
scope_parts : List Str → Option (Str × Str)
scope_parts (drive ∷ space_id ∷ file ∷ node_id ∷ []) =
    if not (drive == str "drive") || (not (file == str "file") || (space_id == [] || node_id == []))
    then none
    else some (space_id, node_id)
scope_parts _ = none

-- `parseScope`; `none` is the result `false`.
unfoldable pub parse_scope : Scope → Option (Str × Str)
unfolding scope_parts
parse_scope scope =
    if not (scope.resource_type == drive_file_resource_type)
    then none
    else scope_parts (split b':' scope.resource_id)

-- A result without the references of a state.
abbrev pub refused : Status → Str → String → ApplyResult
refused status operation_id reason = record {
  status = status;
  operation_id = operation_id;
  state_ref = [];
  evidence_ref = [];
  reason = reason;
}

-- The result of `Service.Apply` for a result of the store.
unfoldable pub apply_result : Str → Result (QuarantineState × Bool) → ApplyResult
apply_result operation_id (err e) =
    if errors_is e quarantine_conflict
    then refused failed operation_id "drive_quarantine_conflict"
    else if errors_is e quarantine_reconciliation
    then refused unknown operation_id "drive_quarantine_reconciliation_required"
    else if errors_is e os_not_exist
    then refused failed operation_id "drive_object_not_found"
    else refused unknown operation_id "drive_quarantine_storage_error"
apply_result operation_id (ok (state, already)) = record {
  status = if already then already_applied else applied;
  operation_id = state.operation_id;
  state_ref = state.state_ref;
  evidence_ref = state.evidence_ref;
  reason = "drive_object_quarantined";
}

abbrev pub empty_read : Status → ReadResult
empty_read status = record { status = status; operation_id = []; state_ref = []; evidence_ref = [] }

-- The result of `Service.Read` for a result of the store.
unfoldable pub read_result : Result (Option QuarantineState) → ReadResult
read_result (err _) = empty_read unknown
read_result (ok none) = empty_read not_quarantined
read_result (ok (some state)) = record {
  status = quarantined;
  operation_id = state.operation_id;
  state_ref = state.state_ref;
  evidence_ref = state.evidence_ref;
}

module _ (codec : JsonCodec) where
  -- `Service.Apply`; `none` is a nil service or a nil store.
  unfoldable pub apply : Option Local → ApplyRequest → World → ApplyResult × World
  apply store request w = elim (parse_scope request.scope) [
    | none ↦ (refused failed request.operation_id "invalid_drive_quarantine_scope", w)
    | some (space_id, node_id) ↦ elim store [
      | none ↦ (refused failed request.operation_id "invalid_drive_quarantine_scope", w)
      | some l ↦
          let (r, w') =
            apply_quarantine codec l space_id node_id request.operation_id request.correlation_id
              w in
          (apply_result request.operation_id r, w')
    ]
  ]

  -- `Service.Read`
  unfoldable pub read : Option Local → Scope → World → ReadResult × World
  read store scope w = elim (parse_scope scope) [
    | none ↦ (empty_read unknown, w)
    | some (space_id, node_id) ↦ elim store [
      | none ↦ (empty_read unknown, w)
      | some l ↦ let (r, w') = read_quarantine codec l space_id node_id w in (read_result r, w')
    ]
  ]
