-- ===== src/Tests/Isolation.antt =====
-- A settled quarantine, read with a codec that knows one record.
use goreecloud_drive.Prelude.{
  ℕ, zero, suc, ap, ◌≡◌, refl, Bool, true, Option, none, some, [], ◌∷◌, ◌++◌, if◌then◌else◌, eqb,
}
use goreecloud_drive.Prelude.Text.{Str, str, ◌==◌, split, trim_space, has_prefix, has_byte}
use goreecloud_drive.Errors.{ok}
use goreecloud_drive.Ids.{valid_storage_id, storage_bytes, storage_byte}
use goreecloud_drive.Os.{World, Bytes, plain_call, stat, read_file}
use goreecloud_drive.Os.Files.{SameFiles}
use goreecloud_drive.Os.Path.{FilePath, same_path, clean, rel}
use goreecloud_drive.Storage.Local.{
  scoped_path, escapes, quarantine_state_path, quarantine_path, object_path,
}
use goreecloud_drive.Storage.StateFile.{
  QuarantineState, JsonCodec, quarantined, exists, read_quarantine_state,
}
use goreecloud_drive.Storage.Quarantine.{
  apply_quarantine, apply_at, reconcile, valid_operation_id, operation_bytes, operation_byte,
}
use goreecloud_drive.Storage.Quarantine.Settled.{quarantined_is_final}
use goreecloud_drive.Tests.Fixtures.{space_id, node_id, root}

-- A field of the record: each byte raised by one, ended by a zero.
abbrev frame : Str → Bytes → Bytes
frame [] rest = 0 ∷ rest
frame (c ∷ s) rest = suc c ∷ frame s rest

abbrev prepend : ℕ → Option (Str × Bytes) → Option (Str × Bytes)
prepend c none = none
prepend c (some (s, rest)) = some (c ∷ s, rest)

abbrev unframe : Bytes → Option (Str × Bytes)
unframe [] = none
unframe (zero ∷ rest) = some ([], rest)
unframe (suc c ∷ rest) = prepend c (unframe rest)

unframe-frame : (s : Str) (rest : Bytes) → unframe (frame s rest) ≡ some (s, rest)
unframe-frame [] rest = refl
unframe-frame (c ∷ s) rest = ap (prepend c) (unframe-frame s rest)

frame-append : (s : Str) (rest more : Bytes) → frame s rest ++ more ≡ frame s (rest ++ more)
frame-append [] rest more = refl
frame-append (c ∷ s) rest more = ap (λ b. suc c ∷ b) (frame-append s rest more)

-- Reads a field, and goes on with it and the rest.
abbrev field : {A : Type 0} → Option (Str × Bytes) → (Str → Bytes → Option A) → Option A
field none k = none
field (some (s, rest)) k = k s rest

abbrev marshal : QuarantineState → Bytes
marshal s = frame s.space_id (
    frame s.node_id (
      frame s.operation_id (
        frame s.correlation_id
          (frame s.status (frame s.state_ref (frame s.evidence_ref (frame s.observed_at [])))))))

abbrev unmarshal : Bytes → Option QuarantineState
unmarshal b = field (unframe b) λ space b. field (unframe b) λ node b. field (unframe b) λ op b.
    field (unframe b) λ corr b. field (unframe b) λ status b. field (unframe b) λ ref b.
      field (unframe b) λ evidence b. field (unframe b) λ observed b. some (record {
        space_id = space;
        node_id = node;
        operation_id = op;
        correlation_id = corr;
        status = status;
        state_ref = ref;
        evidence_ref = evidence;
        observed_at = observed;
      })

pub unmarshal_lem : (s : QuarantineState) → unmarshal (marshal s ++ 10 ∷ []) ≡ some s
unmarshal_lem s = simp (frame-append, unframe-frame)

abbrev pub codec : JsonCodec
codec = record {
  marshal = marshal;
  unmarshal = unmarshal;
  format_time = λ t. t ∷ [];
  unmarshal-marshal = unmarshal_lem;
  unmarshal-nil = refl;
}

abbrev settled_record : QuarantineState
settled_record = record {
  space_id = space_id;
  node_id = node_id;
  operation_id = str "op-1";
  correlation_id = str "corr-1";
  status = quarantined;
  state_ref = str "drive-quarantine";
  evidence_ref = str "drive-quarantine-operation:op-1";
  observed_at = str "now";
}

abbrev state_file : FilePath
state_file = str "data" ∷ str "quarantine-state" ∷ space_id ∷ node_id ∷ []

abbrev payload : FilePath
payload = str "data" ∷ str "quarantine" ∷ space_id ∷ node_id ∷ []

-- The payload and the state file are there, the object is not.
abbrev isolated : World
isolated = record {
  links =
      λ p. if same_path payload p then some 0 else if same_path state_file p then some 1 else none;
  inodes = λ i. record {
    regular = true;
    content = if eqb i 0 then 7 ∷ [] else marshal settled_record ++ 10 ∷ [];
  };
  next = 2;
  faults = [];
  stat_faults = [];
  now = 1000;
  ticks = [];
  suffixes = [];
}

state_path_run : quarantine_state_path (some root) space_id node_id ≡ ok state_file
unfolding quarantine_state_path scoped_path escapes valid_storage_id storage_bytes storage_byte
    clean rel split ◌==◌
state_path_run = refl

state_linked : isolated.links state_file ≡ some 1
unfolding same_path ◌==◌
state_linked = refl

abbrev replayed : QuarantineState × Bool
replayed = (settled_record, true)

replay_run :
    (apply_quarantine codec (some root) space_id node_id (str "op-1") (str "corr-1") isolated).0
    ≡ ok (settled_record, true)
unfolding apply_quarantine apply_at reconcile read_quarantine_state exists plain_call stat read_file
    valid_operation_id operation_bytes operation_byte trim_space has_prefix has_byte
    quarantine_state_path quarantine_path object_path scoped_path escapes valid_storage_id
    storage_bytes storage_byte clean rel split same_path ◌==◌
replay_run = refl

quarantined_is_final_example :
    SameFiles isolated
      (apply_quarantine codec (some root) space_id node_id (str "op-2") (str "corr-2") isolated).1
quarantined_is_final_example =
    quarantined_is_final codec (some root) space_id node_id (str "op-2") (str "corr-2") state_file
      settled_record 1 isolated state_path_run state_linked (unmarshal_lem settled_record) refl
