-- ===== src/Http/Published.antt =====
-- The upload endpoints in the server's wiring: what a success means for the stores.
use goreecloud_drive.Prelude.{
  ℕ, ◌≡◌, Option, subst, sym, none, some, List, arith, inl, inr, Option-cases,
}
use goreecloud_drive.Prelude.Text.{Str}
use goreecloud_drive.Prelude.Int.{ℤ}
use goreecloud_drive.Errors.{Error, Result-cases, ok}
use goreecloud_drive.Os.{Bytes}
use goreecloud_drive.Os.Path.{FilePath}
use goreecloud_drive.Storage.Local.Boundary.{IsClean}
use goreecloud_drive.Wardveil.Gate.{Answers}
use goreecloud_drive.Uploads
use goreecloud_drive.Uploads.Interface.{Session, active, Repository, IsRepository}
use goreecloud_drive.Uploads.{Stored}
use goreecloud_drive.Uploads.Publication.{wired, IsPublished, complete_publishes_released}
use goreecloud_drive.Http.Message.{Request}
use goreecloud_drive.Http.Principal.{Resolver, resolve_principal}
use goreecloud_drive.Http.Uploads.{Stores, complete_upload_handler, write_upload_error}
use goreecloud_drive.Http.Middleware.{middleware}
use goreecloud_drive.Http.Server.{Dependencies, Platform, complete_upload, serve, upload_route}
use goreecloud_drive.Http.Anonymous.{status_of}

-- No error of the upload service is answered by a success.
error_status : (e : Error) → ((write_upload_error e).status ≡ 200) → ⊥
unfolding write_upload_error
error_status e h = ground arith

module _ {N R : Type 0} (platform : Platform) (deps : Dependencies N) (s : Uploads.Service R)
    (space_id upload_id : Str) (request : Request) (st : Stores N (Stored R)) where
  completed_ok :
      status_of (serve platform deps (some s) (complete_upload space_id upload_id) request st).0
        ≡ some 200
      → (principals : Resolver) × (account_id : Str) × (done : Session) × (deps.principals
          ≡ some principals)
        × (resolve_principal principals request ≡ some account_id)
        × ((Uploads.complete s account_id space_id upload_id st.uploads).0 ≡ ok (done, none))
        × ((serve platform deps (some s) (complete_upload space_id upload_id) request st).1.uploads
            ≡ (Uploads.complete s account_id space_id upload_id st.uploads).1)
  unfolding serve upload_route middleware complete_upload_handler
  completed_ok h = elim (Option-cases deps.principals) [
    | inl missing ↦ absurd (ground arith)
    | inr (principals, given) ↦ elim (Option-cases (resolve_principal principals request)) [
      | inl unknown ↦ absurd (ground arith)
      | inr (account_id, known) ↦
          elim (Result-cases (Uploads.complete s account_id space_id upload_id st.uploads).0) [
            | inr (e, failed) ↦ absurd (ground (arith, error_status e))
            | inl ((session, none), done) ↦
                (principals, account_id, session, given, known, done, ground arith)
            | inl ((session, some e), failed) ↦ absurd (ground (arith, error_status e))
          ]
    ]
  ]

-- Over HTTP, with uploads wired as the server wires them: a completion that is answered 200 was asked for
-- by an account that the resolver finds behind the request, and it has published exactly the staged
-- content of that account's active session, which the gate released (`IsPublished`). The root is clean,
-- and the session repository lawful and in a state that it keeps.
pub complete_upload-IsPublished :
    {N R : Type 0} (platform : Platform) (deps : Dependencies N) (sha256 : Bytes → List ℕ)
    → (repo : Repository R) {Holds : R → Type 0} {Storable : Session → Type 0}
    → {view : R → Str → Option Session} (laws : IsRepository repo Holds Storable view)
      (root : FilePath) (scanner : Answers)
    → (max_chunk ttl : ℤ) (space_id upload_id : Str) (request : Request) (st : Stores N (Stored R))
    → IsClean root
    → Holds st.uploads.sessions
    → let (reply, st') =
        serve platform deps
          (some (wired sha256 repo root scanner max_chunk ttl))
          (complete_upload space_id upload_id)
          request
          st in
      status_of reply ≡ some 200
      → (principals : Resolver) × (account_id : Str) × (session : Session) × (deps.principals
          ≡ some principals)
        × (resolve_principal principals request ≡ some account_id)
        × ((repo.get upload_id st.uploads.sessions).0 ≡ ok session)
        × (session.account_id ≡ account_id)
        × (session.space_id ≡ space_id)
        × (session.state ≡ active)
        × IsPublished sha256 root scanner space_id upload_id session st.uploads st'.uploads
complete_upload-IsPublished platform deps sha256 repo laws root scanner max_chunk ttl sp up request
      st rooted holds h =
    let s = wired sha256 repo root scanner max_chunk ttl in
    let (principals, account_id, done, given, known, completes, whole) =
      completed_ok platform deps s sp up request st h in
    let (session, stored, owner, space, act, _, published) =
      complete_publishes_released sha256 repo laws root scanner max_chunk ttl account_id sp up
        st.uploads done rooted holds completes in
    (
      principals,
      account_id,
      session,
      given,
      known,
      stored,
      owner,
      space,
      act,
      subst (λ x. IsPublished sha256 root scanner sp up session st.uploads x) (sym whole) published,
    )
