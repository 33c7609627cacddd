-- ===== src/Nodes/Guarded.antt =====
-- The permissions of the node service of internal/nodes/service.go, its operations brought together as
-- requests.
use goreecloud_drive.Prelude.{
  ℕ, ◌≡◌, [], ◌∷◌, true, false, Option, none, some, List, arith, inl, inr, ◌⊎◌, Bool-cases,
  Option-cases, if◌then◌else◌,
}
use goreecloud_drive.Prelude.Text.{Str}
use goreecloud_drive.Errors.{Error, Result, ok, err, is, node_forbidden, node_invalid}
use goreecloud_drive.Authz
use goreecloud_drive.Authz.{allows}
use goreecloud_drive.SpaceAccess.{MembershipResolver, access_allows, access_allows_iff}
use goreecloud_drive.Nodes.{
  Node, Repository, Service, allowed, guarded, list, get, create, rename, trash, valid_name,
  create_action,
}

-- An operation of the service with its arguments.
pub data Request : Type 0 where
  listing : Option Str → Request
  reading : Str → Request
  creating : Option (List ℕ) → Option Str → Str → Str → Request
  renaming : Str → Str → Request
  trashing : Str → Request

-- The nodes that a request answers with.
abbrev pub single : {R : Type 0} → Result Node × R → Result (List Node) × R
single (ok node, r) = (ok (node ∷ []), r)
single (err e, r) = (err e, r)

unfoldable pub perform : {R : Type 0} → Service R → Str → Str → Request → R → Result (List Node) × R
perform s account_id space_id (listing parent_id) r = list s account_id space_id parent_id r
perform s account_id space_id (reading node_id) r = single (get s account_id space_id node_id r)
perform s account_id space_id (creating random parent_id kind name) r =
    single (create s random account_id space_id parent_id kind name r)
perform s account_id space_id (renaming node_id name) r =
    single (rename s account_id space_id node_id name r)
perform s account_id space_id (trashing node_id) r = single (trash s account_id space_id node_id r)

-- The action that a request wants, and the error where it is not allowed.
unfoldable pub wanted : Request → Option Str
wanted (listing parent_id) = some Authz.Action.listing
wanted (reading node_id) = some Authz.Action.reading
wanted (creating random parent_id kind name) = create_action kind
wanted (renaming node_id name) = some Authz.Action.update
wanted (trashing node_id) = some Authz.Action.delete

unfoldable pub refusal : Request → Error
refusal (listing parent_id) = is node_forbidden
refusal (reading node_id) = is node_forbidden
refusal (creating random parent_id kind name) = elim (create_action kind) [
  | none ↦ is node_invalid
  | some action ↦ if valid_name name then is node_forbidden else is node_invalid
]
refusal (renaming node_id name) = if valid_name name then is node_forbidden else is node_invalid
refusal (trashing node_id) = is node_forbidden

denied_keeps :
    {R : Type 0} (s : Service R) (account_id space_id : Str) (q : Request) (action : Str) (r : R)
    → wanted q ≡ some action
    → allowed s account_id space_id action ≡ false
    → perform s account_id space_id q r ≡ (err (refusal q), r)
unfolding perform wanted refusal list get rename trash create guarded
denied_keeps s a sp (listing parent) action r e h = ground arith
denied_keeps s a sp (reading n) action r e h = ground arith
denied_keeps s a sp (creating random parent kind name) action r e h = ground arith
denied_keeps s a sp (renaming n name) action r e h = ground arith
denied_keeps s a sp (trashing n) action r e h = ground arith

-- The account has a role in the Space that the capability policy allows the action.
abbrev pub HasRole : MembershipResolver → Str → Str → Str → Type 0
HasRole resolver account_id space_id action =
    (role : Str) × (resolver account_id space_id ≡ ok role) × (allows role action ≡ true)

-- The server's wiring: the authorizer is the membership service.
abbrev pub wired : {R : Type 0} → Option (Repository R) → MembershipResolver → Service R
wired repo resolver = record {
  repo = repo;
  auth = some (access_allows (record { memberships = some resolver }));
}

allowed-HasRole :
    {R : Type 0} (repo : Option (Repository R)) (resolver : MembershipResolver) (a sp action : Str)
    → allowed (wired repo resolver) a sp action ≡ true
    → HasRole resolver a sp action
unfolding allowed
allowed-HasRole repo resolver a sp action h =
    ((access_allows_iff resolver a sp action).0 (ground arith)).2

pub guarded-HasRole :
    {R A : Type 0} (repo : Option (Repository R)) (resolver : MembershipResolver)
    (a sp action : Str)
    → (call : Repository R → R → Result A × R) (r : R) (x : A)
    → (guarded (wired repo resolver) a sp action call r).0 ≡ ok x
    → HasRole resolver a sp action
unfolding guarded
guarded-HasRole repo resolver a sp action call r x h =
    elim (Bool-cases (allowed (wired repo resolver) a sp action)) [
      | inl granted ↦ allowed-HasRole repo resolver a sp action granted
      | inr denied ↦ ground arith
    ]

unknown_keeps :
    {R : Type 0} (s : Service R) (account_id space_id : Str) (q : Request) (r : R)
    → wanted q ≡ none
    → perform s account_id space_id q r ≡ (err (refusal q), r)
unfolding perform wanted refusal create
unknown_keeps s a sp (listing parent) r e = absurd (ground arith)
unknown_keeps s a sp (reading n) r e = absurd (ground arith)
unknown_keeps s a sp (creating random parent kind name) r e = ground arith
unknown_keeps s a sp (renaming n name) r e = absurd (ground arith)
unknown_keeps s a sp (trashing n) r e = absurd (ground arith)

-- In the server's wiring a request wants a known action and is made by an account whose role in that
-- very Space is allowed it, or it is refused and leaves the repository as it was: with `ErrInvalid`
-- where it creates or renames with an invalid name or creates an unknown kind, and else with
-- `ErrForbidden`.
pub request_is_guarded :
    {R : Type 0} (repo : Option (Repository R)) (resolver : MembershipResolver)
    → (account_id space_id : Str) (q : Request) (r : R)
    → ((action : Str) × (wanted q ≡ some action) × HasRole resolver account_id space_id action)
      ⊎ (perform (wired repo resolver) account_id space_id q r ≡ (err (refusal q), r))
request_is_guarded repo resolver a sp q r = elim (Option-cases (wanted q)) [
  | inl unknown ↦ inr (unknown_keeps (wired repo resolver) a sp q r unknown)
  | inr (action, e) ↦ elim (Bool-cases (allowed (wired repo resolver) a sp action)) [
    | inl granted ↦ inl (action, e, allowed-HasRole repo resolver a sp action granted)
    | inr denied ↦ inr (denied_keeps (wired repo resolver) a sp q action r e denied)
  ]
]

-- So a request that succeeds was made by such an account.
success_needs_role :
    {R : Type 0} (repo : Option (Repository R)) (resolver : MembershipResolver)
    → (account_id space_id : Str) (q : Request) (r : R) (nodes : List Node)
    → (perform (wired repo resolver) account_id space_id q r).0 ≡ ok nodes
    → (action : Str) × (wanted q ≡ some action) × HasRole resolver account_id space_id action
success_needs_role repo resolver a sp q r nodes h =
    elim (request_is_guarded repo resolver a sp q r) [
      | inl allowed_it ↦ allowed_it
      | inr refused ↦ absurd (ground arith)
    ]
