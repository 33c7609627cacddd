-- ===== src/Uploads/Interface.antt =====
-- The session record of internal/uploads/session.go and the interface `Repository`.
use goreecloud_drive.Prelude.{◌≡◌, Bool, true, false, Option, none, some, if◌then◌else◌}
use goreecloud_drive.Prelude.Text.{Str, ◌==◌}
use goreecloud_drive.Prelude.Int.{ℤ}
use goreecloud_drive.Os.{Action}
use goreecloud_drive.Errors.{ok}
use goreecloud_drive.Ids.{valid_storage_id}
use goreecloud_drive.Wardveil.Types.{Time}

-- `State`
pub data State : Type 0 where
  active completed : State

abbrev pub is_active : State → Bool
is_active active = true
is_active completed = false

-- `Session`
pub record Session : Type 0 where
  pub id : Str
  pub space_id : Str
  pub account_id : Str
  pub parent_node_id : Str
  pub target_name : Str
  pub node_id : Str
  pub offset : ℤ
  pub state : State
  pub expires_at : Time

-- `Repository` over a state `R` of stored sessions; every call may fail.
pub record Repository (R : Type 0) : Type 0 where
  pub create : Session → Action R (Unit {0})
  pub get : Str → Action R Session
  pub update : Session → Action R (Unit {0})

-- What the service relies on: a repository implements a map from upload IDs to sessions. `Holds` are the
-- states that it is in and `Storable` the sessions that it gives back as they are. Of the texts it
-- answers for, only the canonical IDs need be told apart. A call that fails leaves a state that holds.
pub record IsRepository {R : Type 0} (repo : Repository R) (Holds : R → Type 0)
    (Storable : Session → Type 0) (view : R → Str → Option Session) : Type 0 where
  pub create_holds : (s : Session) (r : R) → Holds r → Holds (repo.create s r).1
  pub get_holds : (id : Str) (r : R) → Holds r → Holds (repo.get id r).1
  pub update_holds : (s : Session) (r : R) → Holds r → Holds (repo.update s r).1
  pub view_id :
      (id : Str) (r : R) (s : Session)
      → Holds r
      → valid_storage_id id ≡ true
      → view r id ≡ some s
      → s.id ≡ id
  pub get_view :
      (id : Str) (r : R) (s : Session) → Holds r → (repo.get id r).0 ≡ ok s → view r id ≡ some s
  pub get_keeps : (id j : Str) (r : R) → view (repo.get id r).1 j ≡ view r j
  pub create_view :
      (s : Session) (j : Str) (r : R)
      → Storable s
      → valid_storage_id s.id ≡ true
      → valid_storage_id j ≡ true
      → (repo.create s r).0 ≡ ok tt
      → (view r s.id ≡ none)
        × (view (repo.create s r).1 j ≡ (if s.id == j then some s else view r j))
  pub update_view :
      (old : Session) (offset : ℤ) (state : State) (j : Str) (r : R)
      → Holds r
      → valid_storage_id old.id ≡ true
      → valid_storage_id j ≡ true
      → view r old.id ≡ some old
      → (repo.update (record old { offset = offset; state = state }) r).0 ≡ ok tt
      → view (repo.update (record old { offset = offset; state = state }) r).1 j
        ≡ (if old.id == j then some (record old { offset = offset; state = state }) else view r j)
