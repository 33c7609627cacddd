-- ===== src/Uploads/Access.antt =====
-- `Get` of the upload service: what a session that it hands out has passed.
use goreecloud_drive.Prelude.{◌≡◌, false, Option, some, arith, inl, inr}
use goreecloud_drive.Prelude.Text.{Str, ==_iff}
use goreecloud_drive.Errors.{Result-cases, ok}
use goreecloud_drive.Os.{time_now}
use goreecloud_drive.Os.Files.{SameFiles}
use goreecloud_drive.Storage.Local.{Local}
use goreecloud_drive.Uploads.Interface.{Session, Repository}
use goreecloud_drive.Uploads.{Service, Stored, get, reject_expired, is_expired}

module _ {R : Type 0} (s : Service R) where
  -- A session that has not expired costs a reading of the clock.
  pub reject_expired_ok :
      (store : Option Local) (session : Session) (st : Stored R)
      → (reject_expired store session st).0 ≡ ok tt
      → SameFiles st.disk (reject_expired store session st).1.disk
        × ((reject_expired store session st).1.sessions ≡ st.sessions)
        × (is_expired session (reject_expired store session st).1.disk.now ≡ false)
  unfolding reject_expired is_expired time_now
  reject_expired_ok store session st h = ground arith

  module _ (repo : Repository R) (store : Local) (here : s.repo ≡ some repo)
      (there : s.store ≡ some store) (account_id space_id upload_id : Str) (st : Stored R)
      (session : Session) where
    pub get_ok :
        (get s account_id space_id upload_id st).0 ≡ ok session
        → ((repo.get upload_id st.sessions).0 ≡ ok session)
          × (session.account_id ≡ account_id)
          × (session.space_id ≡ space_id)
          × SameFiles st.disk (get s account_id space_id upload_id st).1.disk
          × ((get s account_id space_id upload_id st).1.sessions
              ≡ (repo.get upload_id st.sessions).1)
    unfolding get
    get_ok h = elim (Result-cases (repo.get upload_id st.sessions).0) [
      | inr (e, failed) ↦ absurd (ground arith)
      | inl (found, e) ↦
          let st1 : Stored R = record st { sessions = (repo.get upload_id st.sessions).1 } in
          elim (Result-cases (reject_expired s.store found st1).0) [
            | inr (x, expired) ↦ absurd (ground arith)
            | inl (done, passed) ↦
                let same = reject_expired_ok s.store found st1 passed in
                ground (arith, ==_iff found.account_id account_id, ==_iff found.space_id space_id)
          ]
    ]
