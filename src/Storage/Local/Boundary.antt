-- ===== src/Storage/Local/Boundary.antt =====
-- The storage boundary: where a path may lie.
use mathlib.Core.List.{append-nil, append_assoc, reverse-cons}
use goreecloud_drive.Prelude.{
  ℕ, ◌+◌, ◌≤◌, ◌≡◌, refl, sym, ap, ◌∙◌, true, false, ◌&&◌, some, none, [], ◌∷◌, ◌++◌, reverse,
  length, All, All-append, subst, arith, inl, inr, Bool-cases, &&-eq-true, eqb, eqb_iff,
  if◌then◌else◌,
}
use goreecloud_drive.Prelude.Text.{Str, str, ◌==◌, ==_refl, has_byte, split, split-without}
use goreecloud_drive.Errors.{ok, err, text}
use goreecloud_drive.Os.Path.{FilePath, clean, clean_onto, clean_step, components, rel, is_plain}
use goreecloud_drive.Ids.{valid_storage_id, storage_bytes, storage_byte}
use goreecloud_drive.Storage.Local.{Local, staging_path, new_local, scoped_path, escapes}

abbrev pub IsPlain : Str → Type 0
IsPlain c = is_plain c ≡ true

-- What `filepath.Clean` gives: no component is empty, `.` or `..`.
abbrev pub IsClean : FilePath → Type 0
IsClean = All IsPlain

clean_step-plain : (stack : FilePath) (c : Str) → IsPlain c → clean_step stack c ≡ c ∷ stack
unfolding clean_step
clean_step-plain stack c h = ground arith

clean_onto-plain : (stack cs : FilePath) → IsClean cs → clean_onto stack cs ≡ reverse stack ++ cs
unfolding clean_onto
clean_onto-plain stack [] h = rw append-nil
clean_onto-plain stack (c ∷ cs) h =
    rw (clean_step-plain stack c h.0, clean_onto-plain (c ∷ stack) cs h.1)
      (ap (λ l. l ++ cs) (reverse-cons c stack) ∙ append_assoc (reverse stack) (c ∷ []) cs)

-- The result of `clean` is clean, whatever the components are.
clean_step-IsClean : (stack : FilePath) (c : Str) → IsClean stack → IsClean (clean_step stack c)
unfolding clean_step
clean_step-IsClean [] c h = ground arith
clean_step-IsClean (d ∷ stack) c h = ground arith

storage_bytes-no_slash : (i : ℕ) (s : Str) → storage_bytes i s ≡ true → has_byte b'/' s ≡ false
unfolding storage_bytes storage_byte has_byte
storage_bytes-no_slash i [] h = refl
storage_bytes-no_slash i (c ∷ s) h = ground (arith, storage_bytes-no_slash (i + 1) s)

-- Going down from a directory to what lies under it.
rel_under :
    (base : FilePath) (a s o : Str) → rel (base ++ (a ∷ [])) (base ++ (a ∷ s ∷ o ∷ [])) ≡ s ∷ o ∷ []
unfolding rel
rel_under [] a s o = ground (arith, ==_refl a)
rel_under (b ∷ base) a s o = ground (arith, ==_refl b, rel_under base a s o)

IsClean-append : (a b : FilePath) → IsClean a → IsClean b → IsClean (a ++ b)
IsClean-append = All-append IsPlain

reverse-IsClean : (l : FilePath) → IsClean l → IsClean (reverse l)
reverse-IsClean [] h = tt
reverse-IsClean (c ∷ l) h =
    subst IsClean (sym (reverse-cons c l))
      (IsClean-append (reverse l) (c ∷ []) (reverse-IsClean l h.1) (h.0, tt))

clean_onto-IsClean : (stack cs : FilePath) → IsClean stack → IsClean (clean_onto stack cs)
unfolding clean_onto
clean_onto-IsClean stack [] h = reverse-IsClean stack h
clean_onto-IsClean stack (c ∷ cs) h =
    clean_onto-IsClean (clean_step stack c) cs (clean_step-IsClean stack c h)

-- The root that `NewLocal` keeps is clean.
pub new_local-IsClean :
    (cwd : FilePath) (given : Str) (root : FilePath)
    → new_local cwd given ≡ ok (some root)
    → IsClean root
unfolding new_local clean
new_local-IsClean cwd given root h = ground (
  arith,
  clean_onto-IsClean [] (components given) tt,
  clean_onto-IsClean [] (cwd ++ components given) tt,
)

IsPlain-of_length : (s : Str) → 3 ≤ length s → IsPlain s
unfolding ◌==◌
IsPlain-of_length [] h = absurd (omega arith)
IsPlain-of_length (x ∷ []) h = absurd (omega arith)
IsPlain-of_length (x ∷ y ∷ []) h = absurd (omega arith)
IsPlain-of_length (x ∷ y ∷ z ∷ s) h = ground arith

-- An identifier that passes the test is one plain component.
valid_id-component : (s : Str) → valid_storage_id s ≡ true → (components s ≡ s ∷ []) × IsPlain s
unfolding valid_storage_id
valid_id-component s h =
    let (len, bytes) = &&-eq-true (eqb (length s) 36) (storage_bytes 0 s) h in
    (
      split-without b'/' s (storage_bytes-no_slash 0 s bytes),
      IsPlain-of_length s (ground (arith, eqb_iff (length s) 36)),
    )

-- The name of an area is one plain component.
pub record IsArea (area : Str) : Type 0 where
  pub one : components area ≡ area ∷ []
  pub plain : IsPlain area

module _ (root : FilePath) (area scope_id object_id : Str) (rooted : IsClean root)
    (named : IsArea area) where
  clean_area : clean (root ++ components area) ≡ root ++ (area ∷ [])
  unfolding clean
  clean_area = rw named.one (
      clean_onto-plain [] (root ++ area ∷ [])
        (IsClean-append root (area ∷ []) rooted (named.plain, tt)))

  clean_object :
      valid_storage_id scope_id ≡ true
      → valid_storage_id object_id ≡ true
      → clean (root ++ (components area ++ (components scope_id ++ components object_id)))
        ≡ root ++ (area ∷ scope_id ∷ object_id ∷ [])
  unfolding clean
  clean_object vs vo =
      let (cs, ps) = valid_id-component scope_id vs in
      let (co, po) = valid_id-component object_id vo in
      rw (named.one, cs, co)
        (clean_onto-plain [] (root ++ area ∷ scope_id ∷ object_id ∷ []) (
          IsClean-append root (area ∷ scope_id ∷ object_id ∷ []) rooted
            (named.plain, (ps, (po, tt)))))

  -- With a clean root and the name of an area, two valid identifiers give exactly the path of three
  -- components under the root, and any other identifiers are refused: no path leaves its area.
  pub scoped_path_lem : scoped_path (some root) area scope_id object_id ≡ (
      if valid_storage_id scope_id && valid_storage_id object_id
      then ok (root ++ (area ∷ scope_id ∷ object_id ∷ []))
      else err (text "storage identifiers must be canonical UUIDs"))
  unfolding scoped_path escapes
  scoped_path_lem = elim (Bool-cases (valid_storage_id scope_id)) [
    | inr bad ↦ rw bad
    | inl vs ↦ elim (Bool-cases (valid_storage_id object_id)) [
      | inr bad ↦ rw (vs, bad)
      | inl vo ↦
          rw (vs, vo, clean_object vs vo, clean_area, rel_under root area scope_id object_id)
            (ground (arith, (valid_id-component scope_id vs).1))
    ]
  ]

tail_eq : {a b : Str} {p q : FilePath} → a ∷ p ≡ b ∷ q → p ≡ q
tail_eq h = cc

cancel_root : (root p q : FilePath) → root ++ p ≡ root ++ q → p ≡ q
cancel_root [] p q h = h
cancel_root (c ∷ root) p q h = cancel_root root p q (tail_eq h)

-- What `StagingPath` accepts.
pub staging_path-valid :
    (l : Local) (space_id upload_id : Str) (p : FilePath)
    → staging_path l space_id upload_id ≡ ok p
    → valid_storage_id upload_id ≡ true
unfolding staging_path scoped_path
staging_path-valid none sp up p h = absurd (ground arith)
staging_path-valid (some root) sp up p h = ground arith

-- An accepted path is the one of three components, and its identifiers are valid.
pub accepted :
    (root : FilePath) (a s o : Str) (path : FilePath)
    → IsClean root
    → IsArea a
    → scoped_path (some root) a s o ≡ ok path
    → ((valid_storage_id s && valid_storage_id o) ≡ true) × (path ≡ root ++ (a ∷ s ∷ o ∷ []))
accepted root a s o path rooted named h = ground (arith, scoped_path_lem root a s o rooted named)

-- Under a clean root no two areas, Spaces or identifiers share a path: from an accepted path the
-- area and both identifiers can be read back.
pub scoped_path_injective :
    (root : FilePath) (a s o a' s' o' : Str) (path : FilePath)
    → IsClean root
    → IsArea a
    → IsArea a'
    → scoped_path (some root) a s o ≡ ok path
    → scoped_path (some root) a' s' o' ≡ ok path
    → (a ≡ a') × (s ≡ s') × (o ≡ o')
scoped_path_injective root a s o a' s' o' path rooted na na' h h' =
    let (p, e) = accepted root a s o path rooted na h in
    let (p', e') = accepted root a' s' o' path rooted na' h' in
    let same : a ∷ s ∷ o ∷ [] ≡ a' ∷ s' ∷ o' ∷ [] = cancel_root root _ _ (sym e ∙ e') in
    (cc, cc, cc)

pub objects-IsArea : IsArea (str "objects")
unfolding split ◌==◌
objects-IsArea = record { one = refl; plain = refl }

pub staging-IsArea : IsArea (str "staging")
unfolding split ◌==◌
staging-IsArea = record { one = refl; plain = refl }

pub trash-IsArea : IsArea (str "trash")
unfolding split ◌==◌
trash-IsArea = record { one = refl; plain = refl }

pub quarantine-IsArea : IsArea (str "quarantine")
unfolding split ◌==◌
quarantine-IsArea = record { one = refl; plain = refl }

pub quarantine_state-IsArea : IsArea (str "quarantine-state")
unfolding split ◌==◌
quarantine_state-IsArea = record { one = refl; plain = refl }
