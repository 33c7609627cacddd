-- ===== src/Uploads/Completion.antt =====
-- `Complete` of internal/uploads/session.go, over any gate: what a completion that succeeds went through.
use goreecloud_drive.Prelude.{◌≡◌, true, none, some, arith, inl, inr}
use goreecloud_drive.Prelude.Text.{Str}
use goreecloud_drive.Errors.{Result-cases, ok}
use goreecloud_drive.Os.Path.{FilePath}
use goreecloud_drive.Os.{World}
use goreecloud_drive.Os.Files.{SameFiles}
use goreecloud_drive.Storage.Local.{Local, staging_path, object_path, finalize}
use goreecloud_drive.Wardveil.Types.{Decision}
use goreecloud_drive.Uploads.Interface.{Session, active, completed, Repository}
use goreecloud_drive.Uploads.{Service, Stored, SecurityGate, get, reject_expired, publish, complete}
use goreecloud_drive.Uploads.Access.{reject_expired_ok}

-- The paths that `Finalize` resolves.
pub finalize_paths :
    (l : Local) (space_id upload_id node_id : Str) (w : World)
    → (finalize l space_id upload_id node_id w).0 ≡ ok tt
    → (p : FilePath) × (o : FilePath) × (staging_path l space_id upload_id ≡ ok p)
      × (object_path l space_id node_id ≡ ok o)
unfolding finalize
finalize_paths l sp up node w h = elim (Result-cases (staging_path l sp up)) [
  | inr (e, bad) ↦ absurd (ground arith)
  | inl (p, hp) ↦ elim (Result-cases (object_path l sp node)) [
    | inr (e, bad) ↦ absurd (ground arith)
    | inl (o, ho) ↦ (p, o, hp, ho)
  ]
]

module _ {R : Type 0} (s : Service R) (repo : Repository R) (store : Local)
    (space_id upload_id : Str) (session : Session) (st : Stored R) where
  pub publish_ok :
      (done : Session)
      → (publish s store repo space_id upload_id session st).0 ≡ ok (done, none)
      → (w : World) × SameFiles st.disk w
        × ((finalize store space_id upload_id session.node_id w).0 ≡ ok tt)
        × ((publish s store repo space_id upload_id session st).1.disk
            ≡ (finalize store space_id upload_id session.node_id w).1)
        × (done ≡ record session { state = completed })
        × ((repo.update done st.sessions).0 ≡ ok tt)
        × ((publish s store repo space_id upload_id session st).1.sessions
            ≡ (repo.update done st.sessions).1)
  unfolding publish
  publish_ok done h =
      let (r, st1) = reject_expired s.store session st in
      elim (Result-cases r) [
        | inr (e, expired) ↦ absurd (ground arith)
        | inl (passed, fresh) ↦
            let (same, kept, _) = reject_expired_ok s s.store session st fresh in
            elim (Result-cases (finalize store space_id upload_id session.node_id st1.disk).0) [
              | inr (e, failed) ↦ absurd (ground arith)
              | inl (x, moved) ↦
                  (st1.disk, same, moved, ground arith, ground arith, ground arith, ground arith)
            ]
      ]

module _ {R : Type 0} (s : Service R) (repo : Repository R) (store : Local) (gate : SecurityGate)
    (here : s.repo ≡ some repo) (there : s.store ≡ some store) (guard : s.security ≡ some gate)
    (account_id space_id upload_id : Str) (st : Stored R) where
  -- A completion that succeeds went through every test, and then through `publish`.
  pub complete_ok :
      (done : Session)
      → (complete s account_id space_id upload_id st).0 ≡ ok (done, none)
      → (session : Session) × (decision : Decision) × ((get s account_id space_id upload_id st).0
          ≡ ok session)
        × (session.state ≡ active)
        × ((gate session.space_id session.id session.node_id
              (get s account_id space_id upload_id st).1.disk).0
            ≡ ok decision)
        × (decision.can_release ≡ true)
        × (complete s account_id space_id upload_id st
            ≡ publish s store repo space_id upload_id session
                (record (get s account_id space_id upload_id st).1 {
                  disk =
                      (gate session.space_id session.id session.node_id
                        (get s account_id space_id upload_id st).1.disk).1;
                }))
  unfolding complete
  complete_ok done h =
      let (r, st1) = get s account_id space_id upload_id st in
      elim (Result-cases r) [
        | inr (e, failed) ↦ absurd (ground arith)
        | inl (session, got) ↦
            let g = gate session.space_id session.id session.node_id st1.disk in
            elim (Result-cases g.0) [
              | inr (e, failed) ↦ absurd (ground arith)
              | inl (decision, decided) ↦
                  (session, decision, got, ground arith, decided, ground arith, ground arith)
            ]
      ]
