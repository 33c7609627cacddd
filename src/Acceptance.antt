-- ===== src/Acceptance.antt =====
-- cmd/wardveil-acceptance and cmd/wardveil-negative-acceptance: the commands that send uploads through
-- the upload service and judge what becomes of them. Each case makes a service of its own over the
-- store. The bytes of rand.Read are parameters of a case.
pub mod Upload
pub mod Blocked
pub mod Replay
pub mod Restart
pub mod Commands
pub mod NegativeCommand
use goreecloud_drive.Prelude.{
  ℕ, ◌+◌, ◌%◌, ◌*◌, ◌^◌, String, Bool, true, false, not, ◌||◌, ◌&&◌, Option, none, some, List, [],
  ◌∷◌, length, ltb, eqb, if◌then◌else◌,
}
use goreecloud_drive.Prelude.Text.{Str, str, ◌==◌, trim_space, contains_any}
use goreecloud_drive.Prelude.Int.{pos}
use goreecloud_drive.Errors.{Error, Sentinel, is, wrap, text, blocked, Result, ok, err, errors_is}
use goreecloud_drive.Os.{World, Io, Action, Bytes, pure, raise, lift, attempt, relabel, ◌>>=◌, stat}
use goreecloud_drive.Os.Path.{FilePath}
use goreecloud_drive.Ids.{new_uuid}
use goreecloud_drive.Command.{FileInfo}
use goreecloud_drive.Storage.Local.{Local}
use goreecloud_drive.Wardveil.Types.{
  Time, Decision, Disposition, allow, hold_review, block_quarantine, blocked_unverified, undecided,
}
use goreecloud_drive.Wardveil.Gate.{Scanner, StagedFileGate, evaluate_upload}
use goreecloud_drive.Uploads
use goreecloud_drive.Uploads.Interface.{Session, is_active}
use goreecloud_drive.Uploads.Memory.{Sessions, memory_repository}

-- `readSecretFile`; the calls of os.Stat and os.ReadFile are parameters.
unfoldable pub read_secret_file : (Str → Result FileInfo) → (Str → Result Bytes) → Str → Result Str
read_secret_file stat_file read_file path = elim (stat_file path) [
  | err e ↦ err e
  | ok info ↦
      if not info.is_regular
      then err (text "secret file must be regular")
      else if not (eqb (info.permissions % 64) 0)
      then err (text "secret file must not be readable or writable by group or others")
      else elim (read_file path) [
        | err e ↦ err e
        | ok raw ↦
            let secret = trim_space raw in
            if ltb 4096 (length raw)
            then err (text "secret file exceeds 4096 bytes")
            else if secret == [] || contains_any secret (13 ∷ 10 ∷ [])
            then err (text "secret file must contain one non-empty credential value")
            else ok secret
      ]
]

-- `exists`: a path of which Stat gives no error.
unfoldable pub exists : FilePath → Io Bool
exists path = do info ← attempt (stat path); elim info [ ok _ ↦ pure true | err _ ↦ pure false ]

-- `newUUID` of the commands.
unfoldable pub acceptance_uuid : Option (List ℕ) → Result Str
acceptance_uuid random = relabel (wrap "generate acceptance UUID") (new_uuid random)

-- The equality of two dispositions, which are constants.
abbrev pub rank : Disposition → ℕ
rank allow = 0
rank hold_review = 1
rank block_quarantine = 2
rank blocked_unverified = 3
rank undecided = 4

unfoldable pub same_disposition : Disposition → Disposition → Bool
same_disposition a b = eqb (rank a) (rank b)

-- `contains`
unfoldable pub contains : List String → String → Bool
contains [] wanted = false
contains (value ∷ values) wanted = str value == str wanted || contains values wanted

-- errors.As(err, &blocked)
abbrev pub as_blocked : Error → Option Decision
as_blocked (is _) = none
as_blocked (wrap _ e) = as_blocked e
as_blocked (blocked decision) = some decision
as_blocked (text _) = none

-- errors.Is of an error that may be nil.
abbrev pub is_error : Option Error → Sentinel → Bool
is_error none t = false
is_error (some e) t = errors_is e t

-- The zero `Decision`.
abbrev pub no_decision : Decision
no_decision = record {
  action = [];
  disposition = undecided;
  can_release = false;
  quarantine_required = false;
  reason_codes = [];
  evidence_refs = [];
  scan_record_id = [];
}

abbrev pub account : Str
account = str "acceptance-account"

-- The service of a case: a new repository of sessions, the store, and the gate.
abbrev pub service_of :
    (Bytes → List ℕ) → Local → Scanner → Option (Io Time) → Uploads.Service Sessions
service_of sha256 store scanner clock = record {
  repo = some memory_repository;
  store = some store;
  security =
      some (
        evaluate_upload sha256
          (record { store = some store; scanner = some scanner; now = clock }));
  max_chunk = pos (8 * 2 ^ 20);
  ttl = pos 600000000000;
}

-- What rand.Read gives for the identifiers of the Space, the node and the upload.
pub record Randoms : Type 0 where
  pub space : Option (List ℕ)
  pub node : Option (List ℕ)
  pub upload : Option (List ℕ)

-- An upload that a case has sent: its identifiers, and what `Complete` gave: the session and the error.
pub record Sent : Type 0 where
  pub space_id : Str
  pub node_id : Str
  pub upload_id : Str
  pub outcome : Result (Session × Option Error)
  -- `recordingGate.last`
  pub last : Decision

-- The error of `Complete`.
abbrev pub complete_error : Sent → Option Error
complete_error sent = elim sent.outcome [ err e ↦ some e | ok (session, failed) ↦ failed ]

module _ (service : Uploads.Service Sessions) where
  -- What the recording gate holds after `Complete`: the decision that the gate gives there, if it is
  -- called and gives one. The gate is a function of the state, so it is asked in the state that `Complete`
  -- asks it in.
  unfoldable pub recorded : Str → Str → Uploads.Stored Sessions → Decision
  recorded space_id upload_id st =
      let (r, st1) = Uploads.get service account space_id upload_id st in
      elim r [
        | err _ ↦ no_decision
        | ok session ↦
            if not (is_active session.state) || session.node_id == []
            then no_decision
            else elim service.security [
              | none ↦ no_decision
              | some gate ↦ elim (gate session.space_id session.id session.node_id st1.disk).0 [
                | err _ ↦ no_decision
                | ok decision ↦ decision
              ]
            ]
      ]

  -- The calls of `Create` and `Append` of a case: the new session.
  unfoldable pub stage_upload :
      Option (List ℕ) → Str → Str → Str → Bytes → Action (Uploads.Stored Sessions) Session
  stage_upload random space_id node_id name content = do
    session ← Uploads.create service random account space_id node_id [] name
    (_, failed) ←
        Uploads.append service account space_id session.id (pos 0)
          (some (record { bytes = content; broken = false }))
    elim failed [ none ↦ pure session | some e ↦ raise e ]

  -- What every case does with its new service: two identifiers, `Create`, `Append` and `Complete`.
  unfoldable pub send_upload : Randoms → Str → Bytes → Io Sent
  send_upload random name content w = elim (acceptance_uuid random.space) [
    | err e ↦ (err e, w)
    | ok space_id ↦ elim (acceptance_uuid random.node) [
      | err e ↦ (err e, w)
      | ok node_id ↦
          let (staged, st) =
            stage_upload random.upload space_id node_id name content
              (record { disk = w; sessions = λ _. none }) in
          elim staged [
            | err e ↦ (err e, st.disk)
            | ok session ↦
                let (outcome, st') = Uploads.complete service account space_id session.id st in
                (
                  ok (record {
                    space_id = space_id;
                    node_id = node_id;
                    upload_id = session.id;
                    outcome = outcome;
                    last = recorded space_id session.id st;
                  }),
                  st'.disk,
                )
          ]
    ]
  ]
