-- ===== src/Uploads/Progress.antt =====
-- `Append` of the upload service over a local store: the session's offset and the staged content.
use goreecloud_drive.Prelude.{
  Option, ℕ, ◌^◌, ◌-◌, ◌<◌, ◌≡◌, ◌≢◌, ap, sym, ◌∙◌, true, none, some, ◌++◌, arith, inl, inr, length,
  length-append,
}
use goreecloud_drive.Prelude.Text.{Str, if_same, if_other}
use goreecloud_drive.Prelude.Int.{ℤ, pos, eq_ℤ, eq_of_parts}
use goreecloud_drive.Errors.{Result-cases, ok}
use goreecloud_drive.Os.Path.{FilePath}
use goreecloud_drive.Os.{Reader}
use goreecloud_drive.Os.Files.{content_at, content_at-SameFiles}
use goreecloud_drive.Ids.{valid_storage_id}
use goreecloud_drive.Storage.Local.Boundary.{staging_path-valid}
use goreecloud_drive.Storage.Local.{Local, staging_path}
use goreecloud_drive.Storage.Session.{append_staging}
use goreecloud_drive.Storage.Session.Appending.{append_staging_appends}
use goreecloud_drive.Uploads.Interface.{Session, active, Repository, IsRepository}
use goreecloud_drive.Uploads.{Service, Stored, get, append}
use goreecloud_drive.Uploads.Access.{get_ok}

module _ {R : Type 0} (s : Service R) (repo : Repository R) (store : Local) (max : ℕ)
    (here : s.repo ≡ some repo) (there : s.store ≡ some store) (limit : s.max_chunk ≡ pos max)
    (account_id space_id upload_id : Str) (expected : ℤ) (src : Reader) (st : Stored R) where
  -- An append that succeeds went through every test, the store and the repository.
  pub append_ok :
      (advanced : Session)
      → (append s account_id space_id upload_id expected (some src) st).0 ≡ ok (advanced, none)
      → (session : Session) × (n : ℕ) × ((get s account_id space_id upload_id st).0 ≡ ok session)
        × (session.state ≡ active)
        × (eq_ℤ session.offset expected ≡ true)
        × ((append_staging store space_id upload_id expected
              (some src)
              (pos max)
              (get s account_id space_id upload_id st).1.disk).0
            ≡ ok n)
        × (advanced ≡ record session { offset = pos n })
        × ((append s account_id space_id upload_id expected (some src) st).1.disk
            ≡ (append_staging store space_id upload_id expected
                (some src)
                (pos max)
                (get s account_id space_id upload_id st).1.disk).1)
        × ((repo.update advanced (get s account_id space_id upload_id st).1.sessions).0 ≡ ok tt)
        × ((append s account_id space_id upload_id expected (some src) st).1.sessions
            ≡ (repo.update advanced (get s account_id space_id upload_id st).1.sessions).1)
  unfolding append
  append_ok advanced h = elim (Result-cases (get s account_id space_id upload_id st).0) [
    | inr (e, failed) ↦ absurd (ground arith)
    | inl (session, got) ↦
        let w = (get s account_id space_id upload_id st).1.disk in
        elim (Result-cases
          (append_staging store space_id upload_id expected (some src) (pos max) w).0) [
            | inr (e, failed) ↦ absurd (ground arith)
            | inl (n, appended) ↦ (
              session,
              n,
              got,
              ground arith,
              ground arith,
              appended,
              ground arith,
              ground arith,
              ground arith,
              ground arith,
            )
          ]
  ]

-- An append that succeeds, over a local store whose maximum is below the largest int64 and a lawful
-- repository: the stored session of this upload was active and its offset was the size of the staged
-- content; exactly the bytes of the body were added at the end; and the session that is returned, and
-- that the repository now gives, is the old one with the new size as its
-- offset, while every other session is as it was and the repository stays in a state that it keeps.
pub append_advances :
    {R : Type 0} (s : Service R) (repo : Repository R) {Holds : R → Type 0}
    {Storable : Session → Type 0}
    → {view : R → Str → Option Session} (laws : IsRepository repo Holds Storable view)
      (store : Local)
    → (max : ℕ) (account_id space_id upload_id : Str) (expected : ℤ) (src : Reader) (st : Stored R)
    → (p : FilePath) (advanced : Session) (other : Str) → s.repo ≡ some repo
    → s.store ≡ some store
    → s.max_chunk ≡ pos max
    → max < 2 ^ 63 - 1
    → staging_path store space_id upload_id ≡ ok p
    → Holds st.sessions
    → valid_storage_id other ≡ true
    → upload_id ≢ other
    → let (r, st') = append s account_id space_id upload_id expected (some src) st in
      r ≡ ok (advanced, none)
      → (session : Session) × (view st.sessions upload_id ≡ some session)
        × (session.state ≡ active)
        × (session.offset ≡ pos (length (content_at st.disk p)))
        × (content_at st'.disk p ≡ content_at st.disk p ++ src.bytes)
        × (advanced ≡ record session { offset = pos (length (content_at st'.disk p)) })
        × (view st'.sessions upload_id ≡ some advanced)
        × (view st'.sessions other ≡ view st.sessions other)
        × Holds st'.sessions
append_advances {R} s repo {Holds} {Storable} {view} laws store max a sp up expected src st p
      advanced other here there limit bound path holds canonical ne h =
    let (session, n, got, act, right, appended, whole, disk, updated, kept) =
      append_ok s repo store max here there limit a sp up expected src st advanced h in
    let (stored, _, _, same, read) = get_ok s repo store here there a sp up st session got in
    let st1 = (get s a sp up st).1 in
    let valid = staging_path-valid store sp up p path in
    let there_is = laws.get_view up st.sessions session holds stored in
    let named = laws.view_id up st.sessions session holds valid there_is in
    let holds1 : Holds st1.sessions = rw read (laws.get_holds up st.sessions holds) in
    let same_view : (j : Str) → view st1.sessions j ≡ view st.sessions j =
      λ j. rw read (laws.get_keeps up j st.sessions) in
    let update = λ (j : Str) (ok_id : valid_storage_id j ≡ true).
      laws.update_view session (pos n) session.state j st1.sessions holds1 (rw named valid) ok_id
        (same_view session.id ∙ rw named there_is) (rw (← whole) updated) in
    let before = content_at-SameFiles st.disk st1.disk p same in
    let (offset, size, _, content) =
      append_staging_appends store sp up p expected max src st1.disk n path bound appended in
    let after : content_at (append s a sp up expected (some src) st).1.disk p
        ≡ content_at st.disk p ++ src.bytes =
      rw (disk, content, before) in
    (
      session,
      there_is,
      act,
      ground (arith, eq_of_parts session.offset expected, before),
      after,
      whole
          ∙ ap (λ m. record session { offset = pos m })
              (rw (after, length-append (content_at st.disk p) src.bytes) (rw before at size)),
      rw (kept, whole) (update up valid ∙ if_same session.id up _ _ named),
      rw (kept, whole)
          (update other canonical
            ∙ if_other session.id other _ _ (λ e. ne (sym named ∙ e))
            ∙ same_view other),
      rw kept (laws.update_holds advanced st1.sessions holds1),
    )
