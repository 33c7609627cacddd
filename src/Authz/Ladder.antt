-- ===== src/Authz/Ladder.antt =====
-- An independent description of the policy: the membership roles other than drop-only form a
-- ladder, and each action wants a rung.
use goreecloud_drive.Prelude.{ℕ, ◌≡◌, refl, leb}
use goreecloud_drive.Prelude.Text.{Str, ◌==◌}
use goreecloud_drive.Authz
use goreecloud_drive.Authz.{allows}

-- The ladder of roles, lowest first.
pub data Rung : Type 0 where
  viewer commenter contributor editor manager owner : Rung

pub data Capability : Type 0 where
  reading listing create_file create_folder update delete : Capability
  comment share manage_members manage_space : Capability

abbrev pub role_of : Rung → Str
role_of viewer = Authz.Role.viewer
role_of commenter = Authz.Role.commenter
role_of contributor = Authz.Role.contributor
role_of editor = Authz.Role.editor
role_of manager = Authz.Role.manager
role_of owner = Authz.Role.owner

abbrev pub action_of : Capability → Str
action_of reading = Authz.Action.reading
action_of listing = Authz.Action.listing
action_of create_file = Authz.Action.create_file
action_of create_folder = Authz.Action.create_folder
action_of update = Authz.Action.update
action_of delete = Authz.Action.delete
action_of comment = Authz.Action.comment
action_of share = Authz.Action.share
action_of manage_members = Authz.Action.manage_members
action_of manage_space = Authz.Action.manage_space

abbrev pub height : Rung → ℕ
height viewer = 1
height commenter = 2
height contributor = 3
height editor = 4
height manager = 5
height owner = 6

-- The lowest rung at which the action is allowed.
abbrev pub needed : Capability → ℕ
needed reading = 1
needed listing = 1
needed comment = 2
needed create_file = 3
needed create_folder = 3
needed update = 3
needed delete = 4
needed share = 4
needed manage_members = 5
needed manage_space = 6

-- A role of the ladder is allowed exactly the actions whose rung is not above its own, and the
-- drop-only role exactly the creation of files.
pub allows-eq-ladder :
    (c : Capability)
    → ((r : Rung) → allows (role_of r) (action_of c) ≡ leb (needed c) (height r))
      × (allows Authz.Role.drop_only (action_of c) ≡ (action_of c == Authz.Action.create_file))
unfolding allows ◌==◌
allows-eq-ladder reading = (
  elim [
    | viewer ↦ refl
    | commenter ↦ refl
    | contributor ↦ refl
    | editor ↦ refl
    | manager ↦ refl
    | owner ↦ refl
  ],
  refl,
)
allows-eq-ladder _ = (
  elim [
    | viewer ↦ refl
    | commenter ↦ refl
    | contributor ↦ refl
    | editor ↦ refl
    | manager ↦ refl
    | owner ↦ refl
  ],
  refl,
)
