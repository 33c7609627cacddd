-- ===== src/Authz/Closed.antt =====
-- The capability policy of internal/authz/policy.go over arbitrary texts: known roles and actions.
use goreecloud_drive.Prelude.{
  ◌≡◌, ◌≢◌, ◌⊎◌, ◌&&◌, Bool, true, All, refl, inl, inr, Option, none, some, subst, false,
  Bool-cases, &&-eq-true, List, [], ◌∷◌, arith,
}
use goreecloud_drive.Prelude.Text.{Str, ◌==◌, ==_sound, ==_iff, elem}
use goreecloud_drive.Authz
use goreecloud_drive.Authz.{allows, capabilities_of, role_capabilities}

abbrev pub known_roles : List Str
known_roles =
    Authz.Role.owner ∷ Authz.Role.manager ∷ Authz.Role.editor ∷ Authz.Role.contributor
    ∷ Authz.Role.commenter ∷ Authz.Role.viewer ∷ Authz.Role.drop_only ∷ []

abbrev pub known_actions : List Str
known_actions =
    Authz.Action.reading ∷ Authz.Action.listing ∷ Authz.Action.create_file
    ∷ Authz.Action.create_folder ∷ Authz.Action.update ∷ Authz.Action.delete ∷ Authz.Action.comment
    ∷ Authz.Action.share ∷ Authz.Action.manage_members ∷ Authz.Action.manage_space ∷ []

-- Every entry of `xs` is one of `ys`.
abbrev subset : List Str → List Str → Bool
subset [] ys = true
subset (x ∷ xs) ys = elem x ys && subset xs ys

elem-subset :
    (a : Str) (xs ys : List Str) → subset xs ys ≡ true → elem a xs ≡ true → elem a ys ≡ true
unfolding elem
elem-subset a [] ys s h = cc
elem-subset a (x ∷ xs) ys s h = elim (Bool-cases (x == a)) [
  | inl e ↦ rw (==_sound x a e) at (&&-eq-true (elem x ys) (subset xs ys) s).0
  | inr ne ↦ elem-subset a xs ys (&&-eq-true (elem x ys) (subset xs ys) s).1 (ground arith)
]

-- What the fail-closed reading asks of a row of the table.
abbrev RowIsClosed : Str × List Str → Type 0
RowIsClosed (r, actions) =
    (elem r known_roles ≡ true)
    × (subset actions known_actions ≡ true)
    × (elem Authz.Action.manage_space actions ≡ true → r ≡ Authz.Role.owner)

row_of_lookup :
    (role : Str) (table : List (Str × List Str)) {actions : List Str}
    → All RowIsClosed table
    → capabilities_of role table ≡ some actions
    → RowIsClosed (role, actions)
unfolding capabilities_of
row_of_lookup role [] rows h = cc
row_of_lookup role ((r, acts) ∷ table) {actions} rows h = elim (Bool-cases (r == role)) [
  | inl e ↦
      let same : r ≡ role = ==_sound r role e in
      let acts_eq : acts ≡ actions = ground arith in
      subst (λ q. RowIsClosed (q, actions)) same (subst (λ q. RowIsClosed (r, q)) acts_eq rows.0)
  | inr ne ↦ row_of_lookup role table rows.1 (ground arith)
]

table_is_closed : All RowIsClosed role_capabilities
unfolding role_capabilities elem ◌==◌
table_is_closed = (
  (refl, refl, λ _. refl),
  (
    (refl, refl, λ h. cc),
    (
      (refl, refl, λ h. cc),
      (
        (refl, refl, λ h. cc),
        ((refl, refl, λ h. cc), ((refl, refl, λ h. cc), ((refl, refl, λ h. cc), tt))),
      ),
    ),
  ),
)

allows_row :
    (role action : Str)
    → allows role action ≡ true
    → (acts : List Str) × (capabilities_of role role_capabilities ≡ some acts)
      × (elem action acts ≡ true)
unfolding allows
allows_row role action h = go (capabilities_of role role_capabilities) refl h
  where
    go :
        (o : Option (List Str))
        → capabilities_of role role_capabilities ≡ o
        → elim o [ none ↦ false | some acts ↦ elem action acts ] ≡ true
        → (acts : List Str) × (capabilities_of role role_capabilities ≡ some acts)
          × (elem action acts ≡ true)
    go none e p = cc
    go (some acts) e p = (acts, e, p)

-- What is allowed is allowed to a known role, for a known action; managing the Space is allowed to
-- the owner alone.
pub allows_closed :
    (role action : Str)
    → allows role action ≡ true
    → (elem role known_roles ≡ true)
      × (elem action known_actions ≡ true)
      × ((action ≢ Authz.Action.manage_space) ⊎ (role ≡ Authz.Role.owner))
allows_closed role action h =
    let (acts, row, allowed) = allows_row role action h in
    let (known, within, owned) = row_of_lookup role role_capabilities table_is_closed row in
    (
      known,
      elem-subset action acts known_actions within allowed,
      elim (Bool-cases (action == Authz.Action.manage_space)) [
        | inl e ↦ inr (
            owned (
              subst (λ q. elem q acts ≡ true) ((==_iff action Authz.Action.manage_space).0 e)
                allowed))
        | inr ne ↦ inl (λ e. absurd (ground (arith, ==_iff action Authz.Action.manage_space)))
      ],
    )
