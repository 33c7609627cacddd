-- ===== src/Uploads.antt =====
-- internal/uploads/session.go: resumable upload sessions over a session repository, the staging store
-- and the security gate. The repository and the gate are the source's interfaces; the store is
-- `*storage.Local`. Contexts (cancellation) are not modelled.
pub mod Postgres
pub mod Interface
pub mod Memory
pub mod Access
pub mod Completion
pub mod Publication
pub mod Confirmed
pub mod Overlap
pub mod Live
pub mod Changes
pub mod Machine
pub mod Progress
pub mod Creation
use goreecloud_drive.Prelude.{
  ℕ, ◌+◌, String, Bool, true, false, not, ◌&&◌, ◌||◌, Option, none, some, List, [], ◌∷◌, length,
  ltb, leb, eqb, if◌then◌else◌,
}
use goreecloud_drive.Prelude.Text.{Str, str, ◌==◌, trim_space, contains_any}
use goreecloud_drive.Prelude.Int.{ℤ, pos, leb_ℤ, eq_ℤ, pos_part}
use goreecloud_drive.Errors.{
  Error, is, wrap, text, blocked, Result, ok, err, upload_forbidden, upload_expired,
  upload_offset_mismatch, upload_completed, upload_invalid_target, upload_security_unavailable,
}
use goreecloud_drive.Os.{
  World, Action, Io, Reader, pure, raise, lift, attempt, wrapping, relabelling, ◌>>=◌, ◌>>◌,
  time_now,
}
use goreecloud_drive.Ids.{new_uuid}
use goreecloud_drive.Wardveil.Types.{Time, Decision}
use goreecloud_drive.Storage.Local.{Local, finalize}
use goreecloud_drive.Storage.Session.{append_staging, discard_staging}
use Interface.{Session, active, completed, Repository, is_active}

-- `SecurityGate.EvaluateUpload`
abbrev pub SecurityGate : Type 0
SecurityGate = Str → Str → Str → Io Decision

-- The state that the service works on: the disk and the repository's sessions.
pub record Stored (R : Type 0) : Type 0 where
  pub disk : World
  pub sessions : R

-- `Service`; `none` is a nil interface.
pub record Service (R : Type 0) : Type 0 where
  pub repo : Option (Repository R)
  pub store : Option Local
  pub security : Option SecurityGate
  pub max_chunk : ℤ
  pub ttl : ℤ

abbrev unavailable : Error
unavailable = text "upload service unavailable"

-- The test on a target name, trimmed.
unfoldable pub invalid_target : Str → Str → Bool
invalid_target node_id target_name =
    node_id == []
    || (target_name == []
        || (ltb 255 (length target_name)
            || (target_name == str "."
                || (target_name == str ".." || contains_any target_name (b'/' ∷ 0x5c ∷ 0 ∷ [])))))

-- `isExpired`, at a reading of the clock.
unfoldable pub is_expired : Session → Time → Bool
is_expired session now = if eqb session.expires_at 0 then true else not (ltb now session.expires_at)

module _ {R : Type 0} where
  -- An action on the disk, and one on the repository.
  abbrev pub on_disk {ℓ} : {A : Type ℓ} → Io A → Action (Stored R) A
  on_disk m st = let (r, w) = m st.disk in (r, record st { disk = w })

  abbrev pub on_repo {ℓ} : {A : Type ℓ} → Action R A → Action (Stored R) A
  on_repo m st = let (r, rs) = m st.sessions in (r, record st { sessions = rs })

  -- A call through an interface that the caller has found not to be nil.
  abbrev pub need {ℓ} : {A : Type ℓ} → Option A → Action (Stored R) A
  need none = raise (text "nil pointer dereference")
  need (some a) = pure a

  -- `Create`; `random` is what rand.Read gives, and the TTL is positive where it is added.
  unfoldable pub create :
      Service R → Option (List ℕ) → Str → Str → Str → Str → Str → Action (Stored R) Session
  create s random account_id space_id node_id parent_node_id raw_name = elim s.repo [
    | none ↦ raise unavailable
    | some repo ↦ elim s.store [
      | none ↦ raise unavailable
      | some store ↦
          if leb_ℤ s.max_chunk (pos 0) || leb_ℤ s.ttl (pos 0)
          then raise unavailable
          else (let target_name = trim_space raw_name in
              if invalid_target node_id target_name then raise (is upload_invalid_target) else do
                id ← relabelling (wrap "generate upload ID") (lift (new_uuid random))
                now ← on_disk time_now
                let session : Session = record {
                  id = id;
                  space_id = space_id;
                  account_id = account_id;
                  parent_node_id = parent_node_id;
                  target_name = target_name;
                  node_id = node_id;
                  offset = pos 0;
                  state = active;
                  expires_at = now + pos_part s.ttl;
                }
                on_repo (repo.create session)
                pure session)
    ]
  ]

  -- `rejectExpired`: expiry holds whether or not the staged content can be discarded. The clock is
  -- not read for a session without an expiry, which is expired at any time.
  unfoldable pub reject_expired : Option Local → Session → Action (Stored R) (Unit {0})
  reject_expired store session = do
    now ← if eqb session.expires_at 0 then pure 0 else on_disk time_now
    if not (is_expired session now) then pure tt else elim store [
      | none ↦ raise (is upload_expired)
      | some l ↦ do
        discarded ← on_disk (attempt (discard_staging l session.space_id session.id))
        elim discarded [
          | err _ ↦ raise (wrap "discard staged content" (is upload_expired))
          | ok _ ↦ raise (is upload_expired)
        ]
    ]

  -- `Get`
  unfoldable pub get : Service R → Str → Str → Str → Action (Stored R) Session
  get s account_id space_id upload_id = elim s.repo [
    | none ↦ raise unavailable
    | some repo ↦ elim s.store [
      | none ↦ raise unavailable
      | some store ↦ do
        session ← on_repo (repo.get upload_id)
        if not (session.account_id == account_id) || not (session.space_id == space_id)
            then raise (is upload_forbidden)
            else reject_expired s.store session >> pure session
    ]
  ]

  -- `Append`: a session and an error are returned together; where the source returns the empty
  -- session beside an error, the action raises. `Get` has found that repository and store are there.
  unfoldable pub append :
      Service R → Str → Str → Str → ℤ → Option Reader → Action (Stored R) (Session × Option Error)
  append s account_id space_id upload_id expected_offset body = do
    session ← get s account_id space_id upload_id
    if not (is_active session.state)
        then raise (is upload_completed)
        else if not (eq_ℤ session.offset expected_offset)
        then pure (session, some (is upload_offset_mismatch))
        else do
          store ← need s.store
          repo ← need s.repo
          next ←
              on_disk
                (attempt (append_staging store space_id upload_id expected_offset body s.max_chunk))
          elim next [
            | err e ↦ pure (session, some e)
            | ok offset ↦ do
              let advanced = record session { offset = pos offset }
              on_repo (repo.update advanced)
              pure (advanced, none)
          ]

  -- Of `Complete`: what follows a decision to release.
  unfoldable pub publish :
      Service R
      → Local
      → Repository R
      → Str
      → Str
      → Session
      → Action (Stored R) (Session × Option Error)
  publish s store repo space_id upload_id session = do
    expired ← attempt (reject_expired s.store session)
    elim expired [
      | err e ↦ pure (session, some e)
      | ok _ ↦ do
        on_disk (finalize store space_id upload_id session.node_id)
        let done = record session { state = completed }
        on_repo (repo.update done)
        pure (done, none)
    ]

  -- `Complete`
  unfoldable pub complete : Service R → Str → Str → Str → Action (Stored R) (Session × Option Error)
  complete s account_id space_id upload_id = do
    session ← get s account_id space_id upload_id
    if not (is_active session.state)
        then raise (is upload_completed)
        else if session.node_id == []
        then pure (session, some (wrap "final node is not assigned" (is upload_invalid_target)))
        else elim s.security [
          | none ↦ pure (session, some (is upload_security_unavailable))
          | some security ↦ do
            decided ← on_disk (attempt (security session.space_id session.id session.node_id))
            elim decided [
              | err e ↦ pure (session, some (wrap "security" (is upload_security_unavailable)))
              | ok decision ↦
                  if not decision.can_release then pure (session, some (blocked decision)) else do
                    store ← need s.store
                    repo ← need s.repo
                    publish s store repo space_id upload_id session
            ]
        ]
