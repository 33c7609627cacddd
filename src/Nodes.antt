-- ===== src/Nodes.antt =====
-- internal/nodes/service.go: the authorization-aware metadata service over the interfaces
-- `Repository` and `Authorizer`. Contexts (cancellation) are not modelled.
pub mod Guarded
pub mod Rows
pub mod Postgres
use goreecloud_drive.Prelude.{
  ℕ, Bool, true, false, not, ◌&&◌, ◌||◌, Option, none, some, List, [], ◌∷◌, length, ltb,
  if◌then◌else◌,
}
use goreecloud_drive.Prelude.Text.{Str, str, ◌==◌, trim_space, contains_any, has_control}
use goreecloud_drive.Errors.{
  Error, is, wrap, Result, ok, err, node_forbidden, node_invalid, node_unavailable,
}
use goreecloud_drive.Os.{Action, pure, raise, lift, relabelling, ◌>>=◌}
use goreecloud_drive.Ids.{new_uuid}
use goreecloud_drive.Authz

abbrev pub kind_file : Str
kind_file = str "file"

abbrev pub kind_folder : Str
kind_folder = str "folder"

-- `Node`
pub record Node : Type 0 where
  pub id : Str
  pub space_id : Str
  pub parent_id : Option Str
  pub kind : Str
  pub name : Str
  pub created_by : Str
  pub created_at : Str
  pub modified_at : Str
  pub trashed_at : Option Str

-- `Repository` over a state `R`
pub record Repository (R : Type 0) : Type 0 where
  pub list : Str → Option Str → Action R (List Node)
  pub get : Str → Str → Action R Node
  pub create : Node → Action R Node
  pub rename : Str → Str → Str → Action R Node
  pub trash : Str → Str → Action R Node

-- `Authorizer`: an account, a Space and an action.
abbrev pub Authorizer : Type 0
Authorizer = Str → Str → Str → Bool

-- `Service`; `none` is a nil interface.
pub record Service (R : Type 0) : Type 0 where
  pub repo : Option (Repository R)
  pub auth : Option Authorizer

-- `validName`
unfoldable pub valid_name : Str → Bool
valid_name raw =
    let name = trim_space raw in
    if name == []
      || (ltb 255 (length name)
          || (name == str "." || (name == str ".." || contains_any name (b'/' ∷ 0x5c ∷ []))))
    then false
    else not (has_control name)

-- The action that creating a node of the kind wants; `none` for another kind.
unfoldable pub create_action : Str → Option Str
create_action kind =
    if kind == kind_folder
    then some Authz.Action.create_folder
    else if not (kind == kind_file)
    then none
    else some Authz.Action.create_file

-- The node that `Create` hands to the repository.
abbrev pub new_node : Str → Str → Str → Option Str → Str → Str → Node
new_node id account_id space_id parent_id kind name = record {
  id = id;
  space_id = space_id;
  parent_id = parent_id;
  kind = kind;
  name = trim_space name;
  created_by = account_id;
  created_at = [];
  modified_at = [];
  trashed_at = none;
}

module _ {R : Type 0} where
  -- `allowed`
  unfoldable pub allowed : Service R → Str → Str → Str → Bool
  allowed s account_id space_id action = elim s.auth [
    | none ↦ false
    | some allows ↦
        not (account_id == []) && (not (space_id == []) && allows account_id space_id action)
  ]

  -- The two tests before a call of the repository: the account is allowed, the repository is there.
  unfoldable pub guarded {ℓ} :
      {A : Type ℓ} → Service R → Str → Str → Str → (Repository R → Action R A) → Action R A
  guarded s account_id space_id action call =
      if not (allowed s account_id space_id action)
      then raise (is node_forbidden)
      else elim s.repo [ none ↦ raise (is node_unavailable) | some repo ↦ call repo ]

  -- `List`
  unfoldable pub list : Service R → Str → Str → Option Str → Action R (List Node)
  list s account_id space_id parent_id =
      guarded s account_id space_id Authz.Action.listing (λ repo. repo.list space_id parent_id)

  -- `Get`
  unfoldable pub get : Service R → Str → Str → Str → Action R Node
  get s account_id space_id node_id =
      guarded s account_id space_id Authz.Action.reading (λ repo. repo.get space_id node_id)

  -- `Create`; `random` is what rand.Read gives.
  unfoldable pub create :
      Service R → Option (List ℕ) → Str → Str → Option Str → Str → Str → Action R Node
  create s random account_id space_id parent_id kind name = elim (create_action kind) [
    | none ↦ raise (is node_invalid)
    | some action ↦
        if not (valid_name name)
        then raise (is node_invalid)
        else guarded s account_id space_id action λ repo. do
          id ← relabelling (wrap "generate node id") (lift (new_uuid random))
          repo.create (new_node id account_id space_id parent_id kind name)
  ]

  -- `Rename`
  unfoldable pub rename : Service R → Str → Str → Str → Str → Action R Node
  rename s account_id space_id node_id name =
      if not (valid_name name)
      then raise (is node_invalid)
      else guarded s account_id space_id Authz.Action.update
          (λ repo. repo.rename space_id node_id (trim_space name))

  -- `Trash`
  unfoldable pub trash : Service R → Str → Str → Str → Action R Node
  trash s account_id space_id node_id =
      guarded s account_id space_id Authz.Action.delete (λ repo. repo.trash space_id node_id)
