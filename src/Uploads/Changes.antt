-- ===== src/Uploads/Changes.antt =====
-- What one call of the upload service makes of the sessions in the in-memory repository.
use goreecloud_drive.Prelude.{
  ℕ, ◌≡◌, inl, inr, refl, sym, not, Bool-cases, ◌&&◌, subst, Option, Option-cases, some, List, [],
  arith,
}
use goreecloud_drive.Prelude.Text.{Str, ◌==◌, ==_iff}
use goreecloud_drive.Prelude.Int.{ℤ, pos, eq_ℤ}
use goreecloud_drive.Errors.{Error, Result-cases, ok, err}
use goreecloud_drive.Os.{Reader, time_now}
use goreecloud_drive.Ids.{new_uuid}
use goreecloud_drive.Storage.Session.{append_staging}
use goreecloud_drive.Storage.Local.{Local, finalize}
use goreecloud_drive.Uploads.Interface.{Session, active, completed, is_active}
use goreecloud_drive.Uploads.Memory.{
  Sessions, IsKeyed, memory_create, memory_get, memory_update, memory_repository,
  memory_create-IsKeyed, memory_update-IsKeyed,
}
use goreecloud_drive.Uploads.Access.{get_ok}
use goreecloud_drive.Uploads.Creation.{create_ok}
use goreecloud_drive.Uploads.{
  Service, Stored, create, get, append, publish, complete, reject_expired,
}

-- What a call makes of the sessions: nothing, a new session, or a change of an active one.
pub data Change (r : Sessions) : Sessions → Type 0 where
  nothing : Change r r
  added : (new : Session) → Change r (memory_create new r).1
  changed :
      (id : Str) (old new : Session)
      → (memory_get id r).0 ≡ ok old
      → old.state ≡ active
      → new.id ≡ old.id
      → Change r (memory_update new r).1

pub Change-IsKeyed : (r r' : Sessions) → Change r r' → IsKeyed r → IsKeyed r'
Change-IsKeyed r _ nothing keyed = keyed
Change-IsKeyed r _ (added new) keyed = memory_create-IsKeyed new r keyed
Change-IsKeyed r _ (changed id old new got act same) keyed = memory_update-IsKeyed new r keyed

pub completed_unchanged :
    (r r' : Sessions) (k : Str) (done : Session)
    → Change r r'
    → IsKeyed r
    → done.state ≡ completed
    → r k ≡ some done
    → r' k ≡ some done
unfolding memory_create memory_update memory_get
completed_unchanged r _ k done nothing keyed closed there = there
completed_unchanged r _ k done (added new) keyed closed there = ground (arith, ==_iff new.id k)
completed_unchanged r _ k done (changed id old new got act same) keyed closed there =
    ground (arith, ==_iff new.id k, keyed id old)

module _ (s : Service Sessions) (here : s.repo ≡ some memory_repository)
    (st : Stored Sessions) where
  get_same : (id : Str) → (memory_get id st.sessions).1 ≡ st.sessions
  unfolding memory_get
  get_same id = ground arith

  reject_same :
      (session : Session) (w : Stored Sessions)
      → (reject_expired s.store session w).1.sessions ≡ w.sessions
  unfolding reject_expired
  reject_same session w = ground arith

  pub get_keeps :
      (account_id space_id upload_id : Str)
      → (get s account_id space_id upload_id st).1.sessions ≡ st.sessions
  unfolding get
  get_keeps account_id space_id upload_id = elim (Option-cases s.store) [
    | inl missing ↦ ground arith
    | inr (store, there) ↦ elim (Result-cases (memory_get upload_id st.sessions).0) [
      | inr (e, failed) ↦ ground (arith, get_same upload_id)
      | inl (session, found) ↦
          let mid : Stored Sessions = record st {
            sessions = (memory_get upload_id st.sessions).1;
          } in
          ground (arith, get_same upload_id, reject_same session mid)
    ]
  ]

  pub got_session :
      (account_id space_id upload_id : Str) (session : Session)
      → (get s account_id space_id upload_id st).0 ≡ ok session
      → (store : Local) × (s.store ≡ some store)
        × ((memory_get upload_id st.sessions).0 ≡ ok session)
  unfolding get
  got_session account_id space_id upload_id session h = elim (Option-cases s.store) [
    | inl missing ↦ absurd (ground arith)
    | inr (store, there) ↦ (
      store,
      there,
      (get_ok s memory_repository store here there account_id space_id upload_id st session h).0,
    )
  ]

  memory_create_refused :
      (session : Session) (r : Sessions) (e : Error)
      → (memory_create session r).0 ≡ err e
      → (memory_create session r).1 ≡ r
  unfolding memory_create
  memory_create_refused session r e h = ground arith

  create_refused :
      (random : Option (List ℕ)) (account_id space_id node_id parent_node_id name : Str) (e : Error)
      → (create s random account_id space_id node_id parent_node_id name st).0 ≡ err e
      → (create s random account_id space_id node_id parent_node_id name st).1.sessions
        ≡ st.sessions
  unfolding create time_now
  create_refused random account_id space_id node_id parent_node_id name e h =
      elim (Option-cases s.store) [
        | inl missing ↦ ground arith
        | inr (store, there) ↦ elim (Result-cases (new_uuid random)) [
          | inr (x, failed) ↦ ground arith
          | inl (id, made) ↦ grind (arith, memory_create_refused)
        ]
      ]

  pub create-Change :
      (random : Option (List ℕ)) (account_id space_id node_id parent_node_id name : Str)
      → Change st.sessions
          (create s random account_id space_id node_id parent_node_id name st).1.sessions
  unfolding create time_now
  create-Change random account_id space_id node_id parent_node_id name =
      elim (Result-cases (create s random account_id space_id node_id parent_node_id name st).0) [
        | inl (new, made) ↦
            let is_new =
              create_ok s memory_repository random account_id space_id node_id parent_node_id name
                st new here made in
            subst (Change st.sessions) (sym is_new.kept) (added new)
        | inr (e, failed) ↦
            subst (Change st.sessions)
              (sym (create_refused random account_id space_id node_id parent_node_id name e failed))
              nothing
      ]

  pub append-Change :
      (account_id space_id upload_id : Str) (expected : ℤ) (body : Option Reader)
      → Change st.sessions (append s account_id space_id upload_id expected body st).1.sessions
  unfolding append
  append-Change account_id space_id upload_id expected body =
      let st1 = (get s account_id space_id upload_id st).1 in
      let kept = get_keeps account_id space_id upload_id in
      elim (Result-cases (get s account_id space_id upload_id st).0) [
        | inr (e, failed) ↦ subst (Change st.sessions) (ground (arith, kept)) nothing
        | inl (session, got) ↦
            let (store, there, found) = got_session account_id space_id upload_id session got in
            let grown =
              append_staging store space_id upload_id expected body s.max_chunk st1.disk in
            elim (Bool-cases (is_active session.state && eq_ℤ session.offset expected)) [
              | inr refused ↦ subst (Change st.sessions) (ground (arith, kept)) nothing
              | inl open_now ↦ elim (Result-cases grown.0) [
                | inr (e, failed) ↦ subst (Change st.sessions) (ground (arith, kept)) nothing
                | inl (n, appended) ↦
                    let new : Session = record session { offset = pos n } in
                    subst (Change st.sessions) (ground (arith, kept))
                      (changed upload_id session new found (ground arith) refl)
              ]
            ]
      ]

  publish-Change :
      (store : Local) (space_id upload_id id : Str) (session : Session) (w : Stored Sessions)
      → w.sessions ≡ st.sessions
      → (memory_get id st.sessions).0 ≡ ok session
      → session.state ≡ active
      → Change st.sessions
          (publish s store memory_repository space_id upload_id session w).1.sessions
  unfolding publish
  publish-Change store space_id upload_id id session w same found act =
      let w1 = (reject_expired s.store session w).1 in
      let kept = reject_same session w in
      elim (Result-cases (reject_expired s.store session w).0) [
        | inr (e, expired) ↦ subst (Change st.sessions) (ground (arith, kept, same)) nothing
        | inl (u, fresh) ↦
            elim (Result-cases (finalize store space_id upload_id session.node_id w1.disk).0) [
              | inr (e, failed) ↦ subst (Change st.sessions) (ground (arith, kept, same)) nothing
              | inl (v, moved) ↦
                  let new : Session = record session { state = completed } in
                  subst (Change st.sessions) (ground (arith, kept, same))
                    (changed id session new found act refl)
            ]
      ]

  pub complete-Change :
      (account_id space_id upload_id : Str)
      → Change st.sessions (complete s account_id space_id upload_id st).1.sessions
  unfolding complete
  complete-Change account_id space_id upload_id =
      let st1 = (get s account_id space_id upload_id st).1 in
      let kept = get_keeps account_id space_id upload_id in
      elim (Result-cases (get s account_id space_id upload_id st).0) [
        | inr (e, failed) ↦ subst (Change st.sessions) (ground (arith, kept)) nothing
        | inl (session, got) ↦
            let (store, there, found) = got_session account_id space_id upload_id session got in
            elim (Option-cases s.security) [
              | inl unguarded ↦ subst (Change st.sessions) (ground (arith, kept)) nothing
              | inr (gate, guarded) ↦
                  let g = gate session.space_id session.id session.node_id st1.disk in
                  let st2 : Stored Sessions = record st1 { disk = g.1 } in
                  elim (Bool-cases (is_active session.state && not (session.node_id == []))) [
                    | inr refused ↦ subst (Change st.sessions) (ground (arith, kept)) nothing
                    | inl open_now ↦ elim (Result-cases g.0) [
                      | inr (e, failed) ↦ subst (Change st.sessions) (ground (arith, kept)) nothing
                      | inl (decision, decided) ↦ elim (Bool-cases decision.can_release) [
                        | inr held ↦ subst (Change st.sessions) (ground (arith, kept)) nothing
                        | inl released ↦ subst (Change st.sessions) (ground (arith, kept)) (
                            publish-Change store space_id upload_id upload_id session st2 kept found
                              (ground arith))
                      ]
                    ]
                  ]
            ]
      ]
