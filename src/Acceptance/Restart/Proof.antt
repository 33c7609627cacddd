-- ===== src/Acceptance/Restart/Proof.antt =====
-- cmd/wardveil-negative-acceptance/restart_evidence.go: which evidence `validateWardveilRestartEvidence`
-- accepts.
use goreecloud_drive.Prelude.{
  ◌+◌, ◌≤◌, ◌<◌, ◌≡◌, ◌↔◌, true, false, Option-cases, some, length, eqb_iff, arith, inl, inr,
}
use goreecloud_drive.Prelude.Text.{Str, str, ◌==◌, ==_iff}
use goreecloud_drive.Errors.{Result-cases, ok}
use goreecloud_drive.Os.{Bytes}
use goreecloud_drive.Wardveil.Types.{Time, drive_file_resource_type}
use goreecloud_drive.Acceptance.Restart.{
  max_restart_evidence_bytes, RestartEvidence, ReplayEvidenceBinding, EvidenceFile, RestartSources,
  Expected, passed, proves_restart, proves_private_state, is_minimal, within_claims, in_scope,
  check_restart_claims, check_restart_file, check_restart_age, binding_of,
  validate_restart_evidence,
}

-- What the evidence says where the function accepts it.
pub record IsRestartProof (x : Expected) (e : RestartEvidence) : Type 0 where
  pub component : e.component ≡ str "Wardveil Scan durable same-host replay restart acceptance"
  pub revision : e.wardveil_revision ≡ x.revision
  pub endpoint : e.wardveil_endpoint ≡ x.endpoint
  pub service : e.service ≡ str "wardveil-scan.service"
  pub caller : e.caller_id ≡ x.caller_id
  pub key : e.key_id ≡ x.key_id
  pub resource : e.resource_type ≡ drive_file_resource_type
  pub first_request : e.initial_authenticated_clean_request ≡ passed
  pub restarted : e.service_restart ≡ passed
  pub invocation : e.systemd_invocation_changed ≡ true
  pub exact_replay : e.exact_replay_after_restart ≡ passed
  pub cached : e.cached_envelope_identical ≡ true
  pub conflicting : e.conflicting_replay_after_restart ≡ passed
  pub health : e.post_acceptance_health ≡ passed
  pub database : e.replay_database ≡ str "/var/lib/wardveil-scan/replay.sqlite3"
  pub database_mode : e.replay_database_mode ≡ str "0600"
  pub directory_mode : e.replay_state_directory_mode ≡ str "0700"
  pub transient_private : e.transient_request_state_private ≡ true
  pub transient_removed : e.transient_request_state_removed ≡ true
  pub content_absent : e.raw_resource_content_in_evidence ≡ false
  pub secret_absent : e.caller_secret_in_evidence ≡ false
  pub single_host : e.single_host_restart_durability ≡ passed
  pub multi_host : e.multi_host_replay_durability ≡ str "not_proven"
  pub identity : e.production_service_identity ≡ str "not_proven_by_acceptance"
  pub runtime : e.production_runtime_acceptance ≡ str "unaccepted"
  pub no_authority : e.protection_claim_authority ≡ false

-- The file whose content may be evidence: a regular file of its owner alone, of a bounded size.
pub record IsPrivateFile (s : RestartSources) (path : Str) (raw : Bytes) : Type 0 where
  pub absolute : s.is_abs path ≡ true
  pub info : EvidenceFile
  pub found : s.lstat path ≡ ok info
  pub direct : info.is_symlink ≡ false
  pub regular : info.is_regular ≡ true
  pub mode : info.permissions ≡ 0x180
  pub filled : 0 < info.size
  pub bounded : info.size ≤ max_restart_evidence_bytes
  pub read : s.read_file path ≡ ok raw
  pub short : length raw ≤ max_restart_evidence_bytes

proves_restart_iff :
    (e : RestartEvidence)
    → (proves_restart e ≡ true) ↔ (
        (e.initial_authenticated_clean_request ≡ passed)
        × (e.service_restart ≡ passed)
        × (e.systemd_invocation_changed ≡ true)
        × (e.exact_replay_after_restart ≡ passed)
        × (e.cached_envelope_identical ≡ true)
        × (e.conflicting_replay_after_restart ≡ passed)
        × (e.post_acceptance_health ≡ passed))
unfolding proves_restart
proves_restart_iff e = ground (
  arith,
  ==_iff e.initial_authenticated_clean_request passed,
  ==_iff e.service_restart passed,
  ==_iff e.exact_replay_after_restart passed,
  ==_iff e.conflicting_replay_after_restart passed,
  ==_iff e.post_acceptance_health passed,
)

proves_private_state_iff :
    (e : RestartEvidence)
    → (proves_private_state e ≡ true) ↔ (
        (e.replay_database ≡ str "/var/lib/wardveil-scan/replay.sqlite3")
        × (e.replay_database_mode ≡ str "0600")
        × (e.replay_state_directory_mode ≡ str "0700"))
unfolding proves_private_state
proves_private_state_iff e = ground (
  arith,
  ==_iff e.replay_database (str "/var/lib/wardveil-scan/replay.sqlite3"),
  ==_iff e.replay_database_mode (str "0600"),
  ==_iff e.replay_state_directory_mode (str "0700"),
)

within_claims_iff :
    (e : RestartEvidence)
    → (within_claims e ≡ true) ↔ (
        (e.production_service_identity ≡ str "not_proven_by_acceptance")
        × (e.production_runtime_acceptance ≡ str "unaccepted")
        × (e.protection_claim_authority ≡ false))
unfolding within_claims
within_claims_iff e = ground (
  arith,
  ==_iff e.production_service_identity (str "not_proven_by_acceptance"),
  ==_iff e.production_runtime_acceptance (str "unaccepted"),
)

in_scope_iff :
    (x : Expected) (e : RestartEvidence)
    → (in_scope x e ≡ true) ↔ (
        (e.caller_id ≡ x.caller_id)
        × (e.key_id ≡ x.key_id)
        × (e.resource_type ≡ drive_file_resource_type))
unfolding in_scope
in_scope_iff x e = ground (
  arith,
  ==_iff e.caller_id x.caller_id,
  ==_iff e.key_id x.key_id,
  ==_iff e.resource_type drive_file_resource_type,
)

is_minimal_iff :
    (e : RestartEvidence)
    → (is_minimal e ≡ true) ↔ (
        (e.transient_request_state_private ≡ true)
        × (e.transient_request_state_removed ≡ true)
        × (e.raw_resource_content_in_evidence ≡ false)
        × (e.caller_secret_in_evidence ≡ false))
is_minimal_iff e = ground arith

-- The eleven tests.
check_restart_claims_tests :
    (x : Expected) (e : RestartEvidence)
    → (check_restart_claims x e ≡ ok tt) ↔ (
        ((e.component == str "Wardveil Scan durable same-host replay restart acceptance") ≡ true)
        × ((e.wardveil_revision == x.revision) ≡ true)
        × ((e.wardveil_endpoint == x.endpoint) ≡ true)
        × ((e.service == str "wardveil-scan.service") ≡ true)
        × (in_scope x e ≡ true)
        × (proves_restart e ≡ true)
        × (proves_private_state e ≡ true)
        × (is_minimal e ≡ true)
        × ((e.single_host_restart_durability == passed) ≡ true)
        × ((e.multi_host_replay_durability == str "not_proven") ≡ true)
        × (within_claims e ≡ true))
unfolding check_restart_claims
check_restart_claims_tests x e = ground arith

module _ (x : Expected) (e : RestartEvidence) where
  claims-IsRestartProof : check_restart_claims x e ≡ ok tt → IsRestartProof x e
  claims-IsRestartProof h =
      let (
        component, revision, endpoint, service, scope, restart, state, minimal, single, multi,
        claims,
      ) =
        (check_restart_claims_tests x e).0 h in
      let (caller, key, resource) = (in_scope_iff x e).0 scope in
      let (clean, restarted, changed, exact, cached, conflict, health) =
        (proves_restart_iff e).0 restart in
      let (database, mode, directory) = (proves_private_state_iff e).0 state in
      let (kept, removed, content, secret) = (is_minimal_iff e).0 minimal in
      let (identity, runtime, authority) = (within_claims_iff e).0 claims in
      record {
        component = (==_iff _ _).0 component;
        revision = (==_iff _ _).0 revision;
        endpoint = (==_iff _ _).0 endpoint;
        service = (==_iff _ _).0 service;
        caller = caller;
        key = key;
        resource = resource;
        first_request = clean;
        restarted = restarted;
        invocation = changed;
        exact_replay = exact;
        cached = cached;
        conflicting = conflict;
        health = health;
        database = database;
        database_mode = mode;
        directory_mode = directory;
        transient_private = kept;
        transient_removed = removed;
        content_absent = content;
        secret_absent = secret;
        single_host = (==_iff _ _).0 single;
        multi_host = (==_iff _ _).0 multi;
        identity = identity;
        runtime = runtime;
        no_authority = authority;
      }

  restart_proof_accepted : IsRestartProof x e → check_restart_claims x e ≡ ok tt
  restart_proof_accepted p = (check_restart_claims_tests x e).1 (
    (==_iff _ _).1 p.component,
    (==_iff _ _).1 p.revision,
    (==_iff _ _).1 p.endpoint,
    (==_iff _ _).1 p.service,
    (in_scope_iff x e).1 (p.caller, p.key, p.resource),
    (proves_restart_iff e).1 (
      p.first_request, p.restarted, p.invocation, p.exact_replay, p.cached, p.conflicting, p.health,
    ),
    (proves_private_state_iff e).1 (p.database, p.database_mode, p.directory_mode),
    (is_minimal_iff e).1
        (p.transient_private, p.transient_removed, p.content_absent, p.secret_absent),
    (==_iff _ _).1 p.single_host,
    (==_iff _ _).1 p.multi_host,
    (within_claims_iff e).1 (p.identity, p.runtime, p.no_authority),
  )

module _ (s : RestartSources) (x : Expected) (path : Str) where
  check_restart_file-IsPrivateFile :
      (raw : Bytes) → check_restart_file s x path ≡ ok raw → IsPrivateFile s path raw
  unfolding check_restart_file
  check_restart_file-IsPrivateFile raw h = elim (Result-cases (s.lstat path)) [
    | inr (e, failed) ↦ absurd (ground arith)
    | inl (info, found) ↦ elim (Result-cases (s.read_file path)) [
      | inr (e, failed) ↦ absurd (ground arith)
      | inl (content, read) ↦ ground (arith, eqb_iff info.permissions 0x180, eqb_iff info.size 0)
    ]
  ]

  private_file_accepted :
      (raw : Bytes) → IsPrivateFile s path raw → check_restart_file s x path ≡ ok raw
  unfolding check_restart_file
  private_file_accepted raw f =
      ground (arith, f.found, f.read, eqb_iff f.info.permissions 0x180, eqb_iff f.info.size 0)

  check_restart_age_iff :
      (raw : Bytes) (e : RestartEvidence) (b : ReplayEvidenceBinding)
      → (check_restart_age s x raw e ≡ ok b) ↔ (
          (observed_at : Time) × (s.parse_time e.observed_at ≡ some observed_at)
          × (observed_at ≤ x.now + 300000000000)
          × (x.now ≤ observed_at + 86400000000000)
          × (b ≡ binding_of s x raw observed_at))
  unfolding check_restart_age
  check_restart_age_iff raw e b = elim (Option-cases (s.parse_time e.observed_at)) [
    | inl none_read ↦ ground arith
    | inr (observed_at, read) ↦ ground arith
  ]

  -- The evidence binds exactly if its file is private and bounded, its content decodes to a proof about
  -- this deployment, and it was observed in the last 24 hours and at most five minutes ahead of the clock;
  -- the binding then quotes the digest of the file and the time.
  pub validate_restart_evidence_iff :
      (b : ReplayEvidenceBinding)
      → (validate_restart_evidence s x path ≡ ok b) ↔ (
          (raw : Bytes) × (e : RestartEvidence) × (observed_at : Time) × IsPrivateFile s path raw
          × (s.decode raw ≡ some e)
          × IsRestartProof x e
          × (s.parse_time e.observed_at ≡ some observed_at)
          × (observed_at ≤ x.now + 300000000000)
          × (x.now ≤ observed_at + 86400000000000)
          × (b ≡ binding_of s x raw observed_at))
  unfolding validate_restart_evidence
  validate_restart_evidence_iff b = (
    λ h. elim (Result-cases (check_restart_file s x path)) [
      | inr (f, failed) ↦ absurd (ground arith)
      | inl (raw, read) ↦ elim (Option-cases (s.decode raw)) [
        | inl malformed ↦ absurd (ground arith)
        | inr (e, decoded) ↦ elim (Result-cases (check_restart_claims x e)) [
          | inr (f, failed) ↦ absurd (ground arith)
          | inl (u, claimed) ↦
              let (observed_at, parsed, soon, fresh, bound) =
                (check_restart_age_iff raw e b).0 (ground arith) in
              (
                raw,
                e,
                observed_at,
                check_restart_file-IsPrivateFile raw read,
                decoded,
                claims-IsRestartProof x e claimed,
                parsed,
                soon,
                fresh,
                bound,
              )
        ]
      ]
    ],
    λ (raw, e, observed_at, file, decoded, claims, parsed, soon, fresh, bound).
        let aged = (check_restart_age_iff raw e b).1 (observed_at, parsed, soon, fresh, bound) in
        let read = private_file_accepted raw file in
        let claimed = restart_proof_accepted x e claims in ground arith,
  )
