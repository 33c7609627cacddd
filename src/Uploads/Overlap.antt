-- ===== src/Uploads/Overlap.antt =====
-- `Complete` of internal/uploads/session.go while another call runs. No lock is held from the gate's
-- decision to the publication, so that a call of another request may take effect between the two.
pub mod Appended
pub mod Once
use goreecloud_drive.Prelude.{
  Option, ℕ, ◌≡◌, refl, sym, subst, ◌∙◌, ap, ap₂, true, not, none, some, List, [], arith, inl, inr,
  if◌then◌else◌,
}
use goreecloud_drive.Prelude.Text.{Str, ◌==◌}
use goreecloud_drive.Prelude.Int.{ℤ}
use goreecloud_drive.Errors.{
  Error, is, wrap, blocked, Result-cases, ok, err, ok_injective, upload_completed,
  upload_invalid_target, upload_security_unavailable,
}
use goreecloud_drive.Os.Path.{FilePath}
use goreecloud_drive.Os.{World, Io, Bytes, Action, attempt, pure, raise, ◌>>=◌}
use goreecloud_drive.Os.Files.{SameFiles, content_at, content_at-SameFiles, moved_content}
use goreecloud_drive.Storage.Local.{Local, staging_path, object_path, finalize}
use goreecloud_drive.Storage.Local.Boundary.{IsClean, staging_path-valid}
use goreecloud_drive.Storage.Local.Publish.{finalize_publishes}
use goreecloud_drive.Wardveil.Types.{Time, Decision}
use goreecloud_drive.Wardveil.Gate.{Scanner, evaluate_upload}
use goreecloud_drive.Wardveil.Gate.Confirmed.{IsConfirmed, IsHashedAs, evaluate_upload-IsConfirmed}
use goreecloud_drive.Uploads.Interface.{
  Session, active, completed, is_active, Repository, IsRepository,
}
use goreecloud_drive.Uploads.{Service, Stored, SecurityGate, get, publish, complete, on_disk, need}
use goreecloud_drive.Uploads.Access.{get_ok}
use goreecloud_drive.Uploads.Completion.{finalize_paths, publish_ok}
use goreecloud_drive.Uploads.Publication.{wired_with}

module _ {R : Type 0} (s : Service R) (account_id space_id upload_id : Str) where
  -- `Complete`; `other` takes effect once the gate has decided to release.
  unfoldable pub complete_around :
      (Stored R → Stored R) → Action (Stored R) (Session × Option Error)
  complete_around other = do
    session ← get s account_id space_id upload_id
    if not (is_active session.state)
        then raise (is upload_completed)
        else if session.node_id == []
        then pure (session, some (wrap "final node is not assigned" (is upload_invalid_target)))
        else elim s.security [
          | none ↦ pure (session, some (is upload_security_unavailable))
          | some security ↦ do
            decided ← on_disk (attempt (security session.space_id session.id session.node_id))
            elim decided [
              | err e ↦ pure (session, some (wrap "security" (is upload_security_unavailable)))
              | ok decision ↦
                  if not decision.can_release then pure (session, some (blocked decision)) else do
                    store ← need s.store
                    repo ← need s.repo
                    λ st. publish s store repo space_id upload_id session (other st)
            ]
        ]

  -- Where nothing happens in between, it is `Complete`.
  pub complete_around-id :
      (st : Stored R) → complete_around (λ x. x) st ≡ complete s account_id space_id upload_id st
  unfolding complete_around complete
  complete_around-id st = refl

  -- The state in which the gate has given its decision.
  unfoldable pub verified : Stored R → Stored R
  verified st =
      let (r, st1) = get s account_id space_id upload_id st in
      elim r [
        | err _ ↦ st1
        | ok session ↦ elim s.security [
          | none ↦ st1
          | some security ↦ record st1 {
            disk = (security session.space_id session.id session.node_id st1.disk).1;
          }
        ]
      ]

module _ {R : Type 0} (s : Service R) (repo : Repository R) (store : Local) (gate : SecurityGate)
    (here : s.repo ≡ some repo) (there : s.store ≡ some store) (guard : s.security ≡ some gate)
    (account_id space_id upload_id : Str) (other : Stored R → Stored R) (st : Stored R) where
  pub complete_around_ok :
      (done : Session)
      → (complete_around s account_id space_id upload_id other st).0 ≡ ok (done, none)
      → (session : Session) × (decision : Decision) × ((get s account_id space_id upload_id st).0
          ≡ ok session)
        × (session.state ≡ active)
        × ((gate session.space_id session.id session.node_id
              (get s account_id space_id upload_id st).1.disk).0
            ≡ ok decision)
        × (decision.can_release ≡ true)
        × ((verified s account_id space_id upload_id st).disk
            ≡ (gate session.space_id session.id session.node_id
                (get s account_id space_id upload_id st).1.disk).1)
        × (complete_around s account_id space_id upload_id other st
            ≡ publish s store repo space_id upload_id session
                (other (verified s account_id space_id upload_id st)))
  unfolding complete_around verified
  complete_around_ok done h =
      let (r, st1) = get s account_id space_id upload_id st in
      elim (Result-cases r) [
        | inr (e, failed) ↦ absurd (ground arith)
        | inl (session, got) ↦
            let g = gate session.space_id session.id session.node_id st1.disk in
            elim (Result-cases g.0) [
              | inr (e, failed) ↦ absurd (ground arith)
              | inl (decision, decided) ↦ (
                session,
                decision,
                got,
                ground arith,
                decided,
                ground arith,
                ground arith,
                ground arith,
              )
            ]
      ]

module _ {R : Type 0} (sha256 : Bytes → List ℕ) (repo : Repository R) (root : FilePath)
    (scanner : Scanner) (clock : Option (Io Time)) (max_chunk ttl : ℤ)
    (account_id space_id upload_id : Str) (other : Stored R → Stored R) where
  abbrev service : Service R
  service = wired_with sha256 repo root scanner clock max_chunk ttl

  -- What is at the node's object path is what was staged after the other call, and the gate has
  -- confirmed and released what was staged before it.
  pub record IsPublishedAround (session done : Session) (st st' : Stored R) : Type 0 where
    pub owner : session.account_id ≡ account_id
    pub space : session.space_id ≡ space_id
    pub was_active : session.state ≡ active
    pub completes : done ≡ record session { state = completed }
    pub decision : Decision
    pub before : World
    pub same : SameFiles st.disk before
    pub released : decision.can_release ≡ true
    pub confirmed :
        IsConfirmed sha256
          (some root)
          session.space_id
          session.id
          scanner
          session.node_id
          before
          (verified service account_id space_id upload_id st).disk
          decision
    pub staged : staging_path (some root) space_id upload_id ≡ ok confirmed.path
    pub object : FilePath
    pub placed : object_path (some root) space_id session.node_id ≡ ok object
    pub linked : (i : ℕ) × (st'.disk.links object ≡ some i)
    pub published :
        content_at st'.disk object
        ≡ content_at (other (verified service account_id space_id upload_id st)).disk confirmed.path

  pub complete_around-IsPublishedAround :
      {Holds : R → Type 0} {Storable : Session → Type 0}
      → {view : R → Str → Option Session} (laws : IsRepository repo Holds Storable view)
      → (st : Stored R) (done : Session) → IsClean root
      → Holds st.sessions
      → let (r, st') = complete_around service account_id space_id upload_id other st in
        r ≡ ok (done, none)
        → (session : Session) × ((repo.get upload_id st.sessions).0 ≡ ok session)
          × IsPublishedAround session done st st'
  complete_around-IsPublishedAround laws st done rooted holds h =
      let gate =
        evaluate_upload sha256
          (record { store = some (some root); scanner = some scanner; now = clock }) in
      let (session, decision, got, act, decided, released, disk1, whole) =
        complete_around_ok service repo (some root) gate refl refl refl account_id space_id
          upload_id other st done h in
      let (stored, owner, space, same1, _) =
        get_ok service repo (some root) refl refl account_id space_id upload_id st session got in
      let st1 = (get service account_id space_id upload_id st).1 in
      let st2 = other (verified service account_id space_id upload_id st) in
      let (w, same2, moved, disk, completes, _, _) =
        publish_ok service repo (some root) space_id upload_id session st2 done
          (sym (ap (λ x. x.0) whole) ∙ h) in
      let (p, o, path, object) =
        finalize_paths (some root) space_id upload_id session.node_id w moved in
      let named : session.id ≡ upload_id =
        laws.view_id upload_id st.sessions session holds
          (staging_path-valid (some root) space_id upload_id p path)
          (laws.get_view upload_id st.sessions session holds stored) in
      let (i, from, free, to, gone, kept) =
        finalize_publishes root space_id upload_id session.node_id p o w rooted path object moved in
      let confirmed =
        subst
          (λ x.
            IsConfirmed sha256 (some root) session.space_id session.id scanner session.node_id
              st1.disk x decision)
          (sym disk1)
          (evaluate_upload-IsConfirmed sha256 (some root) session.space_id session.id scanner clock
            session.node_id st1.disk decision decided released) in
      let final : World = (complete_around service account_id space_id upload_id other st).1.disk in
      let placed : final ≡ (finalize (some root) space_id upload_id session.node_id w).1 =
        ap (λ x. x.1.disk) whole ∙ disk in
      let same_path : confirmed.path ≡ p =
        ok_injective (sym confirmed.staged ∙ (ap₂ (staging_path (some root)) space named ∙ path)) in
      (
        session,
        stored,
        record {
          owner = owner;
          space = space;
          was_active = act;
          completes = completes;
          decision = decision;
          before = st1.disk;
          same = same1;
          released = released;
          confirmed = confirmed;
          staged = path ∙ ap ok (sym same_path);
          object = o;
          placed = object;
          linked = (i, subst (λ x. x.links o ≡ some i) (sym placed) to);
          published =
              ap (λ x. content_at x o) placed
              ∙ (moved_content w (finalize (some root) space_id upload_id session.node_id w).1 p o i
                    from to kept
                  ∙ (content_at-SameFiles st2.disk w p same2
                      ∙ ap (content_at st2.disk) (sym same_path)));
        },
      )
