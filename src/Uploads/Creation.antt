-- ===== src/Uploads/Creation.antt =====
-- `Create` of the upload service: the session that it stores.
use goreecloud_drive.Prelude.{ℕ, ◌≡◌, false, Option, some, List, arith, inl, inr, Option-cases}
use goreecloud_drive.Prelude.Text.{Str, trim_space}
use goreecloud_drive.Prelude.Int.{pos}
use goreecloud_drive.Errors.{Result-cases, ok}
use goreecloud_drive.Ids.{new_uuid}
use goreecloud_drive.Os.{time_now}
use goreecloud_drive.Uploads.Interface.{Session, active, Repository}
use goreecloud_drive.Uploads.{Service, Stored, create, invalid_target}

-- A new session for a node: active, at offset 0, under the trimmed name, and stored.
pub record IsNew {R : Type 0} (repo : Repository R)
    (account_id space_id node_id parent_node_id name : Str) (session : Session) (st st' : Stored R)
    : Type 0 where
  pub owner : session.account_id ≡ account_id
  pub space : session.space_id ≡ space_id
  pub node : session.node_id ≡ node_id
  pub parent : session.parent_node_id ≡ parent_node_id
  pub target : session.target_name ≡ trim_space name
  pub valid : invalid_target node_id (trim_space name) ≡ false
  pub start : session.offset ≡ pos 0
  pub open_state : session.state ≡ active
  pub stored : (repo.create session st.sessions).0 ≡ ok tt
  pub kept : st'.sessions ≡ (repo.create session st.sessions).1

pub create_ok :
    {R : Type 0} (s : Service R) (repo : Repository R) (random : Option (List ℕ))
    → (account_id space_id node_id parent_node_id name : Str) (st : Stored R) (session : Session)
    → s.repo ≡ some repo
    → (create s random account_id space_id node_id parent_node_id name st).0 ≡ ok session
    → IsNew repo account_id space_id node_id parent_node_id name session st
        (create s random account_id space_id node_id parent_node_id name st).1
unfolding create time_now
create_ok s repo random a sp n parent name st session here h = elim (Option-cases s.store) [
  | inl missing ↦ absurd (ground arith)
  | inr (store, there) ↦ elim (Result-cases (new_uuid random)) [
    | inr (e, failed) ↦ absurd (ground arith)
    | inl (id, made) ↦ ground arith
  ]
]
