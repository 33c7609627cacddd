-- ===== src/SpaceAccess.antt =====
-- internal/spaceaccess/service.go: the membership is resolved before the capability policy is asked.
-- The resolver is the interface `MembershipResolver`; contexts (cancellation) are not modelled.
use goreecloud_drive.Prelude.{
  ◌≡◌, ◌≢◌, ◌↔◌, Bool, true, false, ◌||◌, Option, none, some, [], if◌then◌else◌, arith,
}
use goreecloud_drive.Prelude.Text.{Str, ◌==◌, ==_iff}
use goreecloud_drive.Errors.{Result, ok, err}
use goreecloud_drive.Authz.{allows}

-- `MembershipResolver.RoleForAccount`: an account and a Space to a role.
abbrev pub MembershipResolver : Type 0
MembershipResolver = Str → Str → Result Str

-- `Service`; `none` is a nil resolver.
pub record Service : Type 0 where
  pub memberships : Option MembershipResolver

resolved : MembershipResolver → Str → Str → Str → Bool
resolved role_for_account account_id space_id action = elim (role_for_account account_id space_id) [
  | ok role ↦ allows role action
  | err _ ↦ false
]

-- `Service.Allows`
unfoldable pub access_allows : Service → Str → Str → Str → Bool
unfolding resolved
access_allows s account_id space_id action = elim s.memberships [
  | none ↦ false
  | some role_for_account ↦
      if account_id == [] || space_id == []
      then false
      else resolved role_for_account account_id space_id action
]

-- Access is allowed exactly if there is a resolver, both identifiers are given, the account has a
-- role in that Space and the policy allows that role the action.
pub access_allows_iff :
    (resolver : MembershipResolver) (account_id space_id action : Str)
    → (access_allows (record { memberships = some resolver }) account_id space_id action ≡ true) ↔ (
        (account_id ≢ [])
        × (space_id ≢ [])
        × ((role : Str) × (resolver account_id space_id ≡ ok role) × (allows role action ≡ true)))
unfolding access_allows
access_allows_iff resolver a s act = ground (arith, ==_iff a [], ==_iff s [])
