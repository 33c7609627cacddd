-- ===== src/Authz.antt =====
-- The capability policy of internal/authz/policy.go: roles and actions are strings, and the policy
-- is a map from roles to sets of actions.
pub mod Role
pub mod Action
pub mod Ladder
pub mod Closed
use Role
use Action
use goreecloud_drive.Prelude.{Bool, true, false, List, [], ◌∷◌, Option, none, some, if◌then◌else◌}
use goreecloud_drive.Prelude.Text.{Str, ◌==◌, elem}

-- `roleCapabilities`; a set of actions is the list of its members.
unfoldable pub role_capabilities : List (Str × List Str)
role_capabilities =
    (
      Role.owner,
      Action.reading ∷ Action.listing ∷ Action.create_file ∷ Action.create_folder ∷ Action.update
          ∷ Action.delete ∷ Action.comment ∷ Action.share ∷ Action.manage_members
          ∷ Action.manage_space ∷ [],
    )
    ∷ (
      Role.manager,
      Action.reading ∷ Action.listing ∷ Action.create_file ∷ Action.create_folder ∷ Action.update
          ∷ Action.delete ∷ Action.comment ∷ Action.share ∷ Action.manage_members ∷ [],
    )
    ∷ (
      Role.editor,
      Action.reading ∷ Action.listing ∷ Action.create_file ∷ Action.create_folder ∷ Action.update
          ∷ Action.delete ∷ Action.comment ∷ Action.share ∷ [],
    )
    ∷ (
      Role.contributor,
      Action.reading ∷ Action.listing ∷ Action.create_file ∷ Action.create_folder ∷ Action.update
          ∷ Action.comment ∷ [],
    )
    ∷ (Role.commenter, Action.reading ∷ Action.listing ∷ Action.comment ∷ [])
    ∷ (Role.viewer, Action.reading ∷ Action.listing ∷ [])
    ∷ (Role.drop_only, Action.create_file ∷ [])
    ∷ []

-- A map lookup by key.
unfoldable pub capabilities_of : Str → List (Str × List Str) → Option (List Str)
capabilities_of role [] = none
capabilities_of role ((r, actions) ∷ rest) =
    if r == role then some actions else capabilities_of role rest

-- `Allows`
unfoldable pub allows : Str → Str → Bool
unfolding capabilities_of role_capabilities elem
allows role action = elim (capabilities_of role role_capabilities) [
  | none ↦ false
  | some capabilities ↦ elem action capabilities
]
