-- ===== src/Uploads/Overlap/Appended.antt =====
-- What `Complete` of internal/uploads/session.go publishes when a call that leaves the staged content
-- alone, or an `Append` to the same upload, takes effect between verification and publication.
use goreecloud_drive.Prelude.{
  Option, ℕ, ◌-◌, ◌^◌, ◌<◌, ◌≡◌, ◌≢◌, refl, sym, subst, ◌∙◌, none, some, List, [], ◌∷◌, ◌++◌,
  length-append, arith,
}
use goreecloud_drive.Prelude.Text.{Str}
use goreecloud_drive.Prelude.Int.{ℤ, pos}
use goreecloud_drive.Errors.{ok}
use goreecloud_drive.Os.Path.{FilePath}
use goreecloud_drive.Os.{Io, Bytes, Reader}
use goreecloud_drive.Os.Files.{content_at, content_at-SameFiles}
use goreecloud_drive.Storage.Local.{Local, staging_path}
use goreecloud_drive.Storage.Local.Boundary.{IsClean}
use goreecloud_drive.Storage.Session.Appending.{append_staging_appends}
use goreecloud_drive.Wardveil.Types.{Time}
use goreecloud_drive.Wardveil.Gate.{Scanner}
use goreecloud_drive.Wardveil.Gate.Confirmed.{IsHashedAs}
use goreecloud_drive.Uploads.Interface.{Session, Repository, IsRepository}
use goreecloud_drive.Uploads.{Service, Stored, get, append}
use goreecloud_drive.Uploads.Access.{get_ok}
use goreecloud_drive.Uploads.Progress.{append_ok}
use goreecloud_drive.Uploads.Publication.{wired_with}
use goreecloud_drive.Uploads.Overlap.{
  complete_around, verified, IsPublishedAround, complete_around-IsPublishedAround,
}

-- An append that succeeds adds the bytes of its body to the staged content.
append-content_at :
    {R : Type 0} (s : Service R) (repo : Repository R) (store : Local) (max : ℕ)
    → (account_id space_id upload_id : Str) (expected : ℤ) (src : Reader) (st : Stored R)
    → (p : FilePath) (advanced : Session) → s.repo ≡ some repo
    → s.store ≡ some store
    → s.max_chunk ≡ pos max
    → max < 2 ^ 63 - 1
    → staging_path store space_id upload_id ≡ ok p
    → (append s account_id space_id upload_id expected (some src) st).0 ≡ ok (advanced, none)
    → content_at (append s account_id space_id upload_id expected (some src) st).1.disk p
      ≡ content_at st.disk p ++ src.bytes
append-content_at s repo store max a sp up expected src st p advanced here there limit bound path
      h =
    let (session, n, got, act, right, appended, whole, disk, updated, kept) =
      append_ok s repo store max here there limit a sp up expected src st advanced h in
    let (stored, _, _, same, read) = get_ok s repo store here there a sp up st session got in
    let st1 = (get s a sp up st).1 in
    let (offset, size, _, content) =
      append_staging_appends store sp up p expected max src st1.disk n path bound appended in
    rw (disk, content, content_at-SameFiles st.disk st1.disk p same)

longer-not-IsHashedAs :
    (sha256 : Bytes → List ℕ) (hashed : Str × ℕ) (content more : Bytes)
    → more ≢ []
    → IsHashedAs sha256 hashed content
    → ¬ IsHashedAs sha256 hashed (content ++ more)
longer-not-IsHashedAs sha256 hashed content [] some_more before after = some_more refl
longer-not-IsHashedAs sha256 (digest, size) content (c ∷ more) some_more before after =
    omega (arith, before.0, after.0, length-append content (c ∷ more))

module _ {R : Type 0} (sha256 : Bytes → List ℕ) (repo : Repository R) {Holds : R → Type 0}
    {Storable : Session → Type 0} {view : R → Str → Option Session}
    (laws : IsRepository repo Holds Storable view) (root : FilePath) (scanner : Scanner)
    (clock : Option (Io Time)) (ttl : ℤ) (account_id space_id upload_id : Str) (st : Stored R)
    (done : Session) where
  -- A completion that succeeds while another call takes effect between the gate's decision and the
  -- publication: where that call leaves the staged content as it is, content with the very size and (up
  -- to the case of its letters) digest that the scanner was asked about is at the object path of the
  -- stored session's node, and `Evaluate` released the scanner's answer. The session belongs to the
  -- caller and the Space, was active and is returned as completed. The root is clean, and the repository
  -- lawful and in a state that it keeps.
  pub overlap_keeps_confirmed :
      (max_chunk : ℤ) (other : Stored R → Stored R)
      → IsClean root
      → Holds st.sessions
      → let s = wired_with sha256 repo root scanner clock max_chunk ttl in
        let mid = verified s account_id space_id upload_id st in
        let (r, st') = complete_around s account_id space_id upload_id other st in
        ((p : FilePath)
          → staging_path (some root) space_id upload_id ≡ ok p
          → content_at (other mid).disk p ≡ content_at mid.disk p)
        → r ≡ ok (done, none)
        → (session : Session) × ((repo.get upload_id st.sessions).0 ≡ ok session)
          × (x : IsPublishedAround sha256 repo root scanner clock max_chunk ttl account_id space_id
              upload_id other session done st st')
          × IsHashedAs sha256 x.confirmed.hashed (content_at st'.disk x.object)
  overlap_keeps_confirmed max_chunk other rooted holds keeps h =
      let (session, stored, x) =
        complete_around-IsPublishedAround sha256 repo root scanner clock max_chunk ttl account_id
          space_id upload_id other laws st done rooted holds h in
      (
        session,
        stored,
        x,
        subst (IsHashedAs sha256 x.confirmed.hashed)
            (sym (x.published ∙ keeps x.confirmed.path x.staged)) x.confirmed.unchanged,
      )

  -- A completion that succeeds while an `Append` to the same upload, of one byte or more, succeeds
  -- between the gate's decision and the publication, publishes the appended bytes behind those that
  -- were verified: content that does not have the size and digest that the scanner was asked about. The
  -- root is clean, the repository lawful and in a state that it keeps, and the maximum of a chunk below
  -- the largest int64.
  pub overlapping_append_is_published :
      (max : ℕ) (writer : Str) (expected : ℤ) (src : Reader) (advanced : Session)
      → IsClean root
      → Holds st.sessions
      → max < 2 ^ 63 - 1
      → src.bytes ≢ []
      → let s = wired_with sha256 repo root scanner clock (pos max) ttl in
        let mid = verified s account_id space_id upload_id st in
        let appends = append s writer space_id upload_id expected (some src) in
        let (r, st') = complete_around s account_id space_id upload_id (λ x. (appends x).1) st in
        (appends mid).0 ≡ ok (advanced, none)
        → r ≡ ok (done, none)
        → (session : Session) × ((repo.get upload_id st.sessions).0 ≡ ok session)
          × (x : IsPublishedAround sha256 repo root scanner clock
              (pos max)
              ttl
              account_id
              space_id
              upload_id
              (λ x. (appends x).1)
              session
              done
              st
              st')
          × (content_at st'.disk x.object ≡ content_at mid.disk x.confirmed.path ++ src.bytes)
          × ¬ IsHashedAs sha256 x.confirmed.hashed (content_at st'.disk x.object)
  overlapping_append_is_published max writer expected src advanced rooted holds bound some_more
        appended h =
      let s = wired_with sha256 repo root scanner clock (pos max) ttl in
      let mid = verified s account_id space_id upload_id st in
      let (session, stored, x) =
        complete_around-IsPublishedAround sha256 repo root scanner clock (pos max) ttl account_id
          space_id upload_id (λ x. (append s writer space_id upload_id expected (some src) x).1)
          laws st done rooted holds h in
      let content =
        x.published
        ∙ append-content_at s repo (some root) max writer space_id upload_id expected src mid
            x.confirmed.path advanced refl refl refl bound x.staged appended in
      (
        session,
        stored,
        x,
        content,
        λ same.
            longer-not-IsHashedAs sha256 x.confirmed.hashed (content_at mid.disk x.confirmed.path)
              src.bytes some_more x.confirmed.unchanged
              (subst (IsHashedAs sha256 x.confirmed.hashed) content same),
      )
