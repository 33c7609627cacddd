-- ===== src/Uploads/Confirmed.antt =====
-- `Complete` of the upload service behind a gate whose scanner may change anything on the disk.
use goreecloud_drive.Prelude.{Option, ℕ, ◌≡◌, sym, subst, ◌∙◌, ap, true, none, some, List}
use goreecloud_drive.Prelude.Text.{Str}
use goreecloud_drive.Prelude.Int.{ℤ}
use goreecloud_drive.Errors.{ok}
use goreecloud_drive.Os.Path.{FilePath}
use goreecloud_drive.Os.{World, Io, Bytes}
use goreecloud_drive.Os.Files.{SameFiles, content_at}
use goreecloud_drive.Storage.Local.{object_path}
use goreecloud_drive.Storage.Local.Boundary.{IsClean}
use goreecloud_drive.Wardveil.Types.{Time, Decision}
use goreecloud_drive.Wardveil.Gate.{Scanner}
use goreecloud_drive.Wardveil.Gate.Confirmed.{IsConfirmed, IsHashedAs}
use goreecloud_drive.Uploads.Interface.{Session, active, completed, Repository, IsRepository}
use goreecloud_drive.Uploads.{Stored, complete}
use goreecloud_drive.Uploads.Overlap.{
  complete_around-id, verified, complete_around-IsPublishedAround,
}
use goreecloud_drive.Uploads.Publication.{wired_with}

module _ {R : Type 0} (sha256 : Bytes → List ℕ) (repo : Repository R) (root : FilePath)
    (scanner : Scanner) (clock : Option (Io Time)) (max_chunk ttl : ℤ)
    (account_id space_id upload_id : Str) where
  -- What is published at the node's object path was confirmed as the content that was asked about.
  pub record IsReleasedObject (session : Session) (st st' : Stored R) : Type 0 where
    pub decision : Decision
    pub before : World
    pub after : World
    pub same : SameFiles st.disk before
    pub released : decision.can_release ≡ true
    pub confirmed :
        IsConfirmed sha256
          (some root)
          session.space_id
          session.id
          scanner
          session.node_id
          before
          after
          decision
    pub object : FilePath
    pub placed : object_path (some root) space_id session.node_id ≡ ok object
    pub linked : (i : ℕ) × (st'.disk.links object ≡ some i)
    pub published : IsHashedAs sha256 confirmed.hashed (content_at st'.disk object)

  -- A completion that succeeds, whatever the scanner does to the disk while it runs, has published at the
  -- object path of the stored session's node content with the very size and (up to the case of its
  -- letters) digest that the scanner was asked about before any file had changed, and `Evaluate` released
  -- the scanner's answer. The session belongs to the caller and the Space, was active and is returned as
  -- completed. The root is clean, and the repository lawful and in a state that it keeps.
  pub complete_publishes_confirmed :
      {Holds : R → Type 0} {Storable : Session → Type 0}
      → {view : R → Str → Option Session} (laws : IsRepository repo Holds Storable view)
      → (st : Stored R) (done : Session) → IsClean root
      → Holds st.sessions
      → let (r, st') =
          complete
            (wired_with sha256 repo root scanner clock max_chunk ttl)
            account_id
            space_id
            upload_id
            st in
        r ≡ ok (done, none)
        → (session : Session) × ((repo.get upload_id st.sessions).0 ≡ ok session)
          × (session.account_id ≡ account_id)
          × (session.space_id ≡ space_id)
          × (session.state ≡ active)
          × (done ≡ record session { state = completed })
          × IsReleasedObject session st st'
  complete_publishes_confirmed laws st done rooted holds h =
      let s = wired_with sha256 repo root scanner clock max_chunk ttl in
      let whole = complete_around-id s account_id space_id upload_id st in
      let (session, stored, x) =
        complete_around-IsPublishedAround sha256 repo root scanner clock max_chunk ttl account_id
          space_id upload_id (λ y. y) laws st done rooted holds (ap (λ y. y.0) whole ∙ h) in
      (
        session,
        stored,
        x.owner,
        x.space,
        x.was_active,
        x.completes,
        subst (λ y. IsReleasedObject session st y.1) whole
            (record {
              decision = x.decision;
              before = x.before;
              after = (verified s account_id space_id upload_id st).disk;
              same = x.same;
              released = x.released;
              confirmed = x.confirmed;
              object = x.object;
              placed = x.placed;
              linked = x.linked;
              published =
                  subst (IsHashedAs sha256 x.confirmed.hashed) (sym x.published)
                    x.confirmed.unchanged;
            }),
      )
