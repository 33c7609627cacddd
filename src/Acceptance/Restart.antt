-- ===== src/Acceptance/Restart.antt =====
-- cmd/wardveil-negative-acceptance/restart_evidence.go: the evidence that a restart of the Wardveil
-- service kept its replay state. The decoder of the evidence and time.Parse are parameters.
pub mod Proof
use goreecloud_drive.Prelude.{
  ℕ, ◌+◌, ◌-◌, ◌*◌, ◌≤◌, ◌<◌, ◌≡◌, ◌↔◌, refl, ap, Bool, true, false, not, ◌||◌, ◌&&◌, Option,
  Option-cases, none, some, List, [], ◌∷◌, length, ltb, eqb, eqb_iff, arith, inl, inr,
  if◌then◌else◌,
}
use goreecloud_drive.Prelude.Text.{Str, str, ◌==◌, ==_iff}
use goreecloud_drive.Errors.{Error, text, wrap, Result, Result-cases, ok, err}
use goreecloud_drive.Os.{Bytes}
use goreecloud_drive.Wardveil.Types.{Time, drive_file_resource_type}
use goreecloud_drive.Wardveil.Gate.{digest_of}

-- `maxWardveilRestartEvidenceBytes`
abbrev pub max_restart_evidence_bytes : ℕ
max_restart_evidence_bytes = 65536

-- `wardveilRestartEvidence`
pub record RestartEvidence : Type 0 where
  pub component : Str
  pub wardveil_revision : Str
  pub wardveil_endpoint : Str
  pub service : Str
  pub caller_id : Str
  pub key_id : Str
  pub resource_type : Str
  pub initial_authenticated_clean_request : Str
  pub service_restart : Str
  pub systemd_invocation_changed : Bool
  pub exact_replay_after_restart : Str
  pub cached_envelope_identical : Bool
  pub conflicting_replay_after_restart : Str
  pub post_acceptance_health : Str
  pub replay_database : Str
  pub replay_database_mode : Str
  pub replay_state_directory_mode : Str
  pub transient_request_state_private : Bool
  pub transient_request_state_removed : Bool
  pub raw_resource_content_in_evidence : Bool
  pub caller_secret_in_evidence : Bool
  pub single_host_restart_durability : Str
  pub multi_host_replay_durability : Str
  pub production_service_identity : Str
  pub production_runtime_acceptance : Str
  pub protection_claim_authority : Bool
  pub observed_at : Str

-- `replayEvidenceBinding`
pub record ReplayEvidenceBinding : Type 0 where
  pub wardveil_revision : Str
  pub evidence_sha256 : Str
  pub observed_at : Time
  pub replay_durability : Str
  pub multi_host_replay_status : Str

-- What os.Lstat tells of the file.
pub record EvidenceFile : Type 0 where
  pub is_symlink : Bool
  pub is_regular : Bool
  pub permissions : ℕ
  pub size : ℕ

-- What the function is called with and what it finds there.
pub record RestartSources : Type 0 where
  pub is_abs : Str → Bool
  pub lstat : Str → Result EvidenceFile
  pub read_file : Str → Result Bytes
  pub decode : Bytes → Option RestartEvidence
  pub parse_time : Str → Option Time
  pub sha256 : Bytes → List ℕ

pub record Expected : Type 0 where
  pub revision : Str
  pub endpoint : Str
  pub caller_id : Str
  pub key_id : Str
  pub now : Time

abbrev pub passed : Str
passed = str "passed"

-- The conditions of `validateWardveilRestartEvidence` on the evidence, in the source's order; each gives
-- the error if it does not hold.
unfoldable pub proves_restart : RestartEvidence → Bool
proves_restart e =
    e.initial_authenticated_clean_request == passed
    && (e.service_restart == passed
        && (e.systemd_invocation_changed
            && (e.exact_replay_after_restart == passed
                && (e.cached_envelope_identical
                    && (e.conflicting_replay_after_restart == passed
                        && e.post_acceptance_health == passed)))))

unfoldable pub proves_private_state : RestartEvidence → Bool
proves_private_state e =
    e.replay_database == str "/var/lib/wardveil-scan/replay.sqlite3"
    && (e.replay_database_mode == str "0600" && e.replay_state_directory_mode == str "0700")

abbrev pub is_minimal : RestartEvidence → Bool
is_minimal e =
    (e.transient_request_state_private && e.transient_request_state_removed)
    && not (e.raw_resource_content_in_evidence || e.caller_secret_in_evidence)

unfoldable pub within_claims : RestartEvidence → Bool
within_claims e =
    e.production_service_identity == str "not_proven_by_acceptance"
    && (e.production_runtime_acceptance == str "unaccepted" && not e.protection_claim_authority)

unfoldable pub in_scope : Expected → RestartEvidence → Bool
in_scope x e =
    e.caller_id == x.caller_id
    && (e.key_id == x.key_id && e.resource_type == drive_file_resource_type)

unfoldable pub check_restart_claims : Expected → RestartEvidence → Result (Unit {0})
check_restart_claims x e =
    if not (e.component == str "Wardveil Scan durable same-host replay restart acceptance")
    then err (text "unexpected Wardveil restart evidence component")
    else if not (e.wardveil_revision == x.revision)
    then err (text "Wardveil restart evidence revision mismatch")
    else if not (e.wardveil_endpoint == x.endpoint)
    then err (text "Wardveil restart evidence endpoint mismatch")
    else if not (e.service == str "wardveil-scan.service")
    then err (text "Wardveil restart evidence service mismatch")
    else if not (in_scope x e)
    then err (text "Wardveil restart evidence caller, key, or resource scope mismatch")
    else if not (proves_restart e)
    then err (text "Wardveil restart evidence does not prove the required restart replay behavior")
    else if not (proves_private_state e)
    then err
        (text "Wardveil restart evidence does not prove the accepted private replay-state contract")
    else if not (is_minimal e)
    then err (
        text
          "Wardveil restart evidence violates the accepted transient-state or evidence-minimization contract")
    else if not (e.single_host_restart_durability == passed)
    then err (text "Wardveil restart evidence does not prove single-host restart durability")
    else if not (e.multi_host_replay_durability == str "not_proven")
    then err (text "Wardveil restart evidence unexpectedly claims multi-host replay durability")
    else if not (within_claims e)
    then err (text "Wardveil restart evidence exceeds the accepted production claim boundary")
    else ok tt

module _ (s : RestartSources) (x : Expected) where
  -- Of `validateWardveilRestartEvidence`: the file that may be read.
  unfoldable pub check_restart_file : Str → Result Bytes
  check_restart_file path =
      if not (s.is_abs path)
      then err (text "Wardveil restart evidence path must be absolute")
      else elim (s.lstat path) [
        | err e ↦ err e
        | ok info ↦
            if info.is_symlink || not info.is_regular
            then err (text "Wardveil restart evidence must be a regular non-symlink file")
            else if not (eqb info.permissions 0x180)
            then err (text "Wardveil restart evidence must be mode 0600")
            else if eqb info.size 0 || ltb max_restart_evidence_bytes info.size
            then err (text "Wardveil restart evidence size is outside the accepted bound")
            else elim (s.read_file path) [
              | err e ↦ err e
              | ok raw ↦
                  if ltb max_restart_evidence_bytes (length raw)
                  then err (text "Wardveil restart evidence exceeds the accepted bound")
                  else ok raw
            ]
      ]

  abbrev pub binding_of : Bytes → Time → ReplayEvidenceBinding
  binding_of raw observed_at = record {
    wardveil_revision = x.revision;
    evidence_sha256 = digest_of s.sha256 raw;
    observed_at = observed_at;
    replay_durability =
        str "single_host_restart_durability_passed_by_validated_wardveil_runtime_evidence";
    multi_host_replay_status = str "not_proven";
  }

  -- Of `validateWardveilRestartEvidence`: the age of evidence that passed the other tests. A `Time` holds
  -- no instant before the zero time, which is older than any window.
  unfoldable pub check_restart_age : Bytes → RestartEvidence → Result ReplayEvidenceBinding
  check_restart_age raw e = elim (s.parse_time e.observed_at) [
    | none ↦ err (wrap "parse Wardveil restart evidence observation time" (text "time.Parse"))
    | some observed_at ↦
        if ltb (x.now + 300000000000) observed_at
        then err (text "Wardveil restart evidence observation time is unexpectedly in the future")
        else if ltb 86400000000000 (x.now - observed_at)
        then err
            (text "Wardveil restart evidence is older than the 24-hour Drive revalidation window")
        else ok (binding_of raw observed_at)
  ]

  -- `validateWardveilRestartEvidence`
  unfoldable pub validate_restart_evidence : Str → Result ReplayEvidenceBinding
  validate_restart_evidence path = elim (check_restart_file path) [
    | err e ↦ err e
    | ok raw ↦ elim (s.decode raw) [
      | none ↦ err (wrap "decode Wardveil restart evidence" (text "malformed"))
      | some e ↦ elim (check_restart_claims x e) [
        | err failed ↦ err failed
        | ok _ ↦ check_restart_age raw e
      ]
    ]
  ]
