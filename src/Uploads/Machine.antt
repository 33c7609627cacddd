-- ===== src/Uploads/Machine.antt =====
-- The upload service over the in-memory repository as a state machine: its calls one after another.
use goreecloud_drive.Prelude.{ℕ, ◌≡◌, inl, inr, sym, subst, Option, some, List, arith}
use goreecloud_drive.Prelude.Text.{Str}
use goreecloud_drive.Prelude.Int.{ℤ}
use goreecloud_drive.Errors.{Error, is, upload_completed, Result-cases, err}
use goreecloud_drive.Os.{Reader}
use goreecloud_drive.Uploads.Interface.{Session, completed}
use goreecloud_drive.Uploads.Memory.{Sessions, IsKeyed, memory_get, memory_repository}
use goreecloud_drive.Uploads.{Service, Stored, create, get, append, complete}
use goreecloud_drive.Uploads.Changes.{
  Change, nothing, Change-IsKeyed, completed_unchanged, get_keeps, got_session, create-Change,
  append-Change, complete-Change,
}

-- One call of the service, whatever it returns.
pub data Step (s : Service Sessions) (st : Stored Sessions) : Stored Sessions → Type 0 where
  creating :
      (random : Option (List ℕ)) (account_id space_id node_id parent_node_id name : Str)
      → Step s st (create s random account_id space_id node_id parent_node_id name st).1
  getting :
      (account_id space_id upload_id : Str) → Step s st (get s account_id space_id upload_id st).1
  appending :
      (account_id space_id upload_id : Str) (expected : ℤ) (body : Option Reader)
      → Step s st (append s account_id space_id upload_id expected body st).1
  completing :
      (account_id space_id upload_id : Str)
      → Step s st (complete s account_id space_id upload_id st).1

pub data Run (s : Service Sessions) (st : Stored Sessions) : Stored Sessions → Type 0 where
  still : Run s st st
  further : (mid last : Stored Sessions) → Run s st mid → Step s mid last → Run s st last

module _ (s : Service Sessions) (here : s.repo ≡ some memory_repository) where
  Step-Change : (st st' : Stored Sessions) → Step s st st' → Change st.sessions st'.sessions
  Step-Change st _ (creating random account_id space_id node_id parent_node_id name) =
      create-Change s here st random account_id space_id node_id parent_node_id name
  Step-Change st _ (getting account_id space_id upload_id) =
      subst (Change st.sessions) (sym (get_keeps s here st account_id space_id upload_id)) nothing
  Step-Change st _ (appending account_id space_id upload_id expected body) =
      append-Change s here st account_id space_id upload_id expected body
  Step-Change st _ (completing account_id space_id upload_id) =
      complete-Change s here st account_id space_id upload_id

  Run-IsKeyed :
      (st st' : Stored Sessions) → Run s st st' → IsKeyed st.sessions → IsKeyed st'.sessions
  Run-IsKeyed st _ still keyed = keyed
  Run-IsKeyed st _ (further mid last run step) keyed =
      Change-IsKeyed mid.sessions last.sessions (Step-Change mid last step)
        (Run-IsKeyed st mid run keyed)

  completed_stays :
      (st st' : Stored Sessions) (id : Str) (done : Session)
      → Run s st st'
      → IsKeyed st.sessions
      → done.state ≡ completed
      → st.sessions id ≡ some done
      → st'.sessions id ≡ some done
  completed_stays st _ id done still keyed closed there = there
  completed_stays st _ id done (further mid last run step) keyed closed there =
      completed_unchanged mid.sessions last.sessions id done (Step-Change mid last step)
        (Run-IsKeyed st mid run keyed) closed
        (completed_stays st mid id done run keyed closed there)

  complete_refused :
      (st : Stored Sessions) (account_id space_id id : Str) (done : Session)
      → done.state ≡ completed
      → st.sessions id ≡ some done
      → (e : Error) × ((complete s account_id space_id id st).0 ≡ err e)
  unfolding complete memory_get
  complete_refused st account_id space_id id done closed there =
      elim (Result-cases (get s account_id space_id id st).0) [
        | inr (e, failed) ↦ (e, ground arith)
        | inl (session, got) ↦
            let (store, kept, found) = got_session s here st account_id space_id id session got in
            let same : session ≡ done = ground (arith, there) in
            (is upload_completed, ground (arith, closed, same))
      ]

  append_refused :
      (st : Stored Sessions) (account_id space_id id : Str) (expected : ℤ) (body : Option Reader)
      → (done : Session) → done.state ≡ completed
      → st.sessions id ≡ some done
      → (e : Error) × ((append s account_id space_id id expected body st).0 ≡ err e)
  unfolding append memory_get
  append_refused st account_id space_id id expected body done closed there =
      elim (Result-cases (get s account_id space_id id st).0) [
        | inr (e, failed) ↦ (e, ground arith)
        | inl (session, got) ↦
            let (store, kept, found) = got_session s here st account_id space_id id session got in
            let same : session ≡ done = ground (arith, there) in
            (is upload_completed, ground (arith, closed, same))
      ]

  -- A session that is completed is final: after any calls of the service, whatever they return, it is
  -- stored as it was, and a further `Append` or `Complete` of it, by any account, gives an error. The
  -- service keeps its sessions in the in-memory repository, which has filed every session under its own
  -- ID.
  pub completed_is_final :
      (st st' : Stored Sessions) (id : Str) (done : Session) (account_id space_id : Str)
      → (expected : ℤ) (body : Option Reader) → Run s st st'
      → IsKeyed st.sessions
      → done.state ≡ completed
      → st.sessions id ≡ some done
      → (st'.sessions id ≡ some done)
        × ((e : Error) × ((append s account_id space_id id expected body st').0 ≡ err e))
        × ((e : Error) × ((complete s account_id space_id id st').0 ≡ err e))
  completed_is_final st st' id done account_id space_id expected body run keyed closed there =
      let after = completed_stays st st' id done run keyed closed there in
      (
        after,
        append_refused st' account_id space_id id expected body done closed after,
        complete_refused st' account_id space_id id done closed after,
      )
