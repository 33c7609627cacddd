-- ===== src/Uploads/Publication.antt =====
-- `Complete` of the upload service behind the Wardveil gate, as the server wires it.
use goreecloud_drive.Prelude.{Option, ℕ, ◌≡◌, refl, sym, subst, ◌∙◌, ap, true, none, some, List}
use goreecloud_drive.Prelude.Text.{Str}
use goreecloud_drive.Prelude.Int.{ℤ}
use goreecloud_drive.Errors.{ok}
use goreecloud_drive.Os.Path.{FilePath}
use goreecloud_drive.Os.{Io, Bytes}
use goreecloud_drive.Os.Files.{SameFiles, SameFiles-trans, content_at, content_at-SameFiles}
use goreecloud_drive.Storage.Local.{staging_path, object_path}
use goreecloud_drive.Storage.Local.Boundary.{IsClean, staging_path-valid}
use goreecloud_drive.Storage.Local.Publish.{finalize_publishes}
use goreecloud_drive.Wardveil.Types.{Time, Decision}
use goreecloud_drive.Wardveil.Gate.{Scanner, Answers, asks, evaluate_upload}
use goreecloud_drive.Wardveil.Gate.Evidence.{
  IsReleased, evaluate_upload-SameFiles, evaluate_upload_release,
}
use goreecloud_drive.Uploads.Interface.{Session, active, completed, Repository, IsRepository}
use goreecloud_drive.Uploads.{Service, Stored, get, publish, complete}
use goreecloud_drive.Uploads.Access.{get_ok}
use goreecloud_drive.Uploads.Completion.{finalize_paths, publish_ok, complete_ok}

-- One local store, and the gate over that store and a scanner.
abbrev pub wired_with :
    {R : Type 0}
    → (Bytes → List ℕ)
    → Repository R
    → FilePath
    → Scanner
    → Option (Io Time)
    → ℤ
    → ℤ
    → Service R
wired_with sha256 repo root scanner clock max_chunk ttl = record {
  repo = some repo;
  store = some (some root);
  security = some (
      evaluate_upload sha256
        (record { store = some (some root); scanner = some scanner; now = clock }));
  max_chunk = max_chunk;
  ttl = ttl;
}

-- The server's wiring: the scanner only answers.
abbrev pub wired :
    {R : Type 0} → (Bytes → List ℕ) → Repository R → FilePath → Answers → ℤ → ℤ → Service R
wired sha256 repo root answers = wired_with sha256 repo root (asks answers) none

-- What a completion has done to the files between `st` and `st'` for the session and the gate's scanner.
abbrev pub IsPublished :
    {R : Type 0}
    → (Bytes → List ℕ)
    → FilePath
    → Answers
    → Str
    → Str
    → Session
    → Stored R
    → Stored R
    → Type 0
IsPublished sha256 root scanner space_id upload_id session st st' =
    (p : FilePath) × (o : FilePath) × (i : ℕ) × (staging_path (some root) space_id upload_id ≡ ok p)
    × (object_path (some root) space_id session.node_id ≡ ok o)
    × (st.disk.links p ≡ some i)
    × (st.disk.links o ≡ none)
    × (st'.disk.links o ≡ some i)
    × (st'.disk.links p ≡ none)
    × (st'.disk.inodes ≡ st.disk.inodes)
    × IsReleased sha256 (some root) space_id upload_id scanner session.node_id
        (content_at st.disk p)

module _ {R : Type 0} (sha256 : Bytes → List ℕ) (repo : Repository R) (root : FilePath)
    (scanner : Answers) (max_chunk ttl : ℤ) (space_id upload_id : Str) (rooted : IsClean root)
    (session done : Session) (decision : Decision) (st st1 : Stored R)
    (space : session.space_id ≡ space_id) (named : session.id ≡ upload_id)
    (same1 : SameFiles st.disk st1.disk) (released : decision.can_release ≡ true) where
  abbrev Evidence : Str → Str → Type 0
  Evidence sp up =
      (p : FilePath) × (staging_path (some root) sp up ≡ ok p)
      × IsReleased sha256 (some root) sp up scanner session.node_id (content_at st1.disk p)

  publish_released :
      let gate =
        evaluate_upload sha256
          (record { store = some (some root); scanner = some (asks scanner); now = none })
          session.space_id
          session.id
          session.node_id
          st1.disk in
      let st2 = record st1 { disk = gate.1 } in
      let (r, st') =
        publish
          (wired sha256 repo root scanner max_chunk ttl)
          (some root)
          repo
          space_id
          upload_id
          session
          st2 in
      gate.0 ≡ ok decision
      → r ≡ ok (done, none)
      → (done ≡ record session { state = completed })
        × IsPublished sha256 root scanner space_id upload_id session st st'
  publish_released decided h =
      let gate_same =
        evaluate_upload-SameFiles sha256 (some root) session.space_id session.id scanner
          session.node_id st1.disk in
      let gate_release =
        evaluate_upload_release sha256 (some root) session.space_id session.id scanner
          session.node_id st1.disk in
      let (p, path, evidence) =
        subst (Evidence space_id) named
          (subst (λ q. Evidence q session.id) space (gate_release decision decided released)) in
      let (w, same2, moved, disk, completes, _, _) =
        publish_ok (wired sha256 repo root scanner max_chunk ttl) repo (some root) space_id
          upload_id session _ done h in
      let same : SameFiles st.disk w = SameFiles-trans same1 (SameFiles-trans gate_same same2) in
      let (p', o, path', object) =
        finalize_paths (some root) space_id upload_id session.node_id w moved in
      let (i, from, free, to, gone, kept) =
        finalize_publishes root space_id upload_id session.node_id p o w rooted path object moved in
      (
        completes,
        (
          p,
          o,
          i,
          path,
          object,
          rw (← same.links) from,
          rw (← same.links) free,
          rw disk to,
          rw disk gone,
          rw disk (kept ∙ same.inodes),
          rw (← content_at-SameFiles st.disk st1.disk p same1) evidence,
        ),
      )

-- In the server's wiring a completion that succeeds has published exactly the staged content, and the
-- gate released that content. The session is the stored one of this upload, it belongs to the calling
-- account and the requested Space and was active, and it is returned as completed. The inode that the
-- staging path was linked to is now the object of the session's node, whose name was free. And the
-- scanner, asked about the SHA-256 digest and the size of that inode's content, gave an envelope that
-- `Evaluate` releases. The root is clean, and the repository lawful and in a state that it keeps.
pub complete_publishes_released :
    {R : Type 0} (sha256 : Bytes → List ℕ) (repo : Repository R) {Holds : R → Type 0}
    {Storable : Session → Type 0}
    → {view : R → Str → Option Session} (laws : IsRepository repo Holds Storable view)
    → (root : FilePath) (scanner : Answers) (max_chunk ttl : ℤ)
    → (account_id space_id upload_id : Str) (st : Stored R) (done : Session) → IsClean root
    → Holds st.sessions
    → let (r, st') =
        complete (wired sha256 repo root scanner max_chunk ttl) account_id space_id upload_id st in
      r ≡ ok (done, none)
      → (session : Session) × ((repo.get upload_id st.sessions).0 ≡ ok session)
        × (session.account_id ≡ account_id)
        × (session.space_id ≡ space_id)
        × (session.state ≡ active)
        × (done ≡ record session { state = completed })
        × IsPublished sha256 root scanner space_id upload_id session st st'
complete_publishes_released sha256 repo laws root scanner max_chunk ttl a sp up st done rooted holds
      h =
    let s = wired sha256 repo root scanner max_chunk ttl in
    let gate =
      evaluate_upload sha256
        (record { store = some (some root); scanner = some (asks scanner); now = none }) in
    let (session, decision, got, act, decided, released, whole) =
      complete_ok s repo (some root) gate refl refl refl a sp up st done h in
    let (stored, owner, space, same1, _) =
      get_ok s repo (some root) refl refl a sp up st session got in
    let st1 = (get s a sp up st).1 in
    let (_, _, moved, _, _, _, _) =
      publish_ok s repo (some root) sp up session _ done (sym (ap (λ x. x.0) whole) ∙ h) in
    let (p, _, path, _) = finalize_paths (some root) sp up session.node_id _ moved in
    let named : session.id ≡ up =
      laws.view_id up st.sessions session holds (staging_path-valid (some root) sp up p path)
        (laws.get_view up st.sessions session holds stored) in
    let (completes, published) =
      publish_released sha256 repo root scanner max_chunk ttl sp up rooted session done decision st
        st1 space named same1 released decided (sym (ap (λ x. x.0) whole) ∙ h) in
    (
      session,
      stored,
      owner,
      space,
      act,
      completes,
      subst (λ x. IsPublished sha256 root scanner sp up session st x.1) (sym whole) published,
    )
