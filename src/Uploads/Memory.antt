-- ===== src/Uploads/Memory.antt =====
-- internal/uploads/memory.go: the in-memory repository. Its lock makes every call one step.
use goreecloud_drive.Prelude.{◌≡◌, true, Option, none, some, if◌then◌else◌, arith}
use goreecloud_drive.Prelude.Text.{Str, ◌==◌, ==_iff}
use goreecloud_drive.Errors.{is, text, ok, err, upload_not_found}
use goreecloud_drive.Os.{Action}
use goreecloud_drive.Uploads.Interface.{Session, State, Repository, IsRepository}
use goreecloud_drive.Prelude.Int.{ℤ}
use goreecloud_drive.Ids.{valid_storage_id}

-- `MemoryRepository.sessions`
abbrev pub Sessions : Type 0
Sessions = Str → Option Session

abbrev set_session : Session → Sessions → Sessions
set_session session sessions k = if session.id == k then some session else sessions k

-- `MemoryRepository.Create`
unfoldable pub memory_create : Session → Action Sessions (Unit {0})
memory_create session sessions = elim (sessions session.id) [
  | some _ ↦ (err (text "upload session already exists"), sessions)
  | none ↦ (ok tt, set_session session sessions)
]

-- `MemoryRepository.Get`
unfoldable pub memory_get : Str → Action Sessions Session
memory_get id sessions = elim (sessions id) [
  | none ↦ (err (is upload_not_found), sessions)
  | some session ↦ (ok session, sessions)
]

-- `MemoryRepository.Update`
unfoldable pub memory_update : Session → Action Sessions (Unit {0})
memory_update session sessions = elim (sessions session.id) [
  | none ↦ (err (is upload_not_found), sessions)
  | some _ ↦ (ok tt, set_session session sessions)
]

abbrev pub memory_repository : Repository Sessions
memory_repository = record { create = memory_create; get = memory_get; update = memory_update }

-- Every session is stored under its own ID.
abbrev pub IsKeyed : Sessions → Type 0
IsKeyed sessions = (k : Str) (s : Session) → sessions k ≡ some s → s.id ≡ k

pub memory_update-IsKeyed :
    (session : Session) (sessions : Sessions)
    → IsKeyed sessions
    → IsKeyed (memory_update session sessions).1
unfolding memory_update
memory_update-IsKeyed session sessions keyed k s h = ground (arith, ==_iff session.id k, keyed k s)

pub memory_create-IsKeyed :
    (session : Session) (sessions : Sessions)
    → IsKeyed sessions
    → IsKeyed (memory_create session sessions).1
unfolding memory_create
memory_create-IsKeyed session sessions keyed k s h = ground (arith, ==_iff session.id k, keyed k s)

pub memory_get_keeps : (id j : Str) (r : Sessions) → (memory_get id r).1 j ≡ r j
unfolding memory_get
memory_get_keeps id j r = ground arith

pub memory_get-IsKeyed : (id : Str) (r : Sessions) → IsKeyed r → IsKeyed (memory_get id r).1
unfolding memory_get
memory_get-IsKeyed id r keyed k s h = ground (arith, keyed k s)

pub memory_get_view :
    (id : Str) (r : Sessions) (s : Session) → IsKeyed r → (memory_get id r).0 ≡ ok s → r id ≡ some s
unfolding memory_get
memory_get_view id r s keyed h = ground arith

pub memory_create_view :
    (s : Session) (j : Str) (r : Sessions)
    → Unit {0}
    → valid_storage_id s.id ≡ true
    → valid_storage_id j ≡ true
    → (memory_create s r).0 ≡ ok tt
    → (r s.id ≡ none) × ((memory_create s r).1 j ≡ (if s.id == j then some s else r j))
unfolding memory_create
memory_create_view s j r u v w h = ground arith

pub memory_update_view :
    (old : Session) (offset : ℤ) (state : State) (j : Str) (r : Sessions)
    → IsKeyed r
    → valid_storage_id old.id ≡ true
    → valid_storage_id j ≡ true
    → r old.id ≡ some old
    → (memory_update (record old { offset = offset; state = state }) r).0 ≡ ok tt
    → (memory_update (record old { offset = offset; state = state }) r).1 j
      ≡ (if old.id == j then some (record old { offset = offset; state = state }) else r j)
unfolding memory_update
memory_update_view old offset state j r keyed v w there h = ground arith

-- The in-memory repository implements the map of its own entries, where every session is filed under its
-- own ID, which is what `Create` and `Update` keep.
unfoldable pub memory-IsRepository :
    IsRepository memory_repository IsKeyed (λ _. Unit {0}) (λ sessions. sessions)
memory-IsRepository = record {
  create_holds = memory_create-IsKeyed;
  get_holds = memory_get-IsKeyed;
  update_holds = memory_update-IsKeyed;
  view_id = λ id r s keyed valid h. keyed id s h;
  get_view = memory_get_view;
  get_keeps = memory_get_keeps;
  create_view = memory_create_view;
  update_view = memory_update_view;
}
