-- ===== src/Quota/Bounds.antt =====
-- The quota service of internal/quota over its table.
use goreecloud_drive.Prelude.{
  ◌≡◌, ◌≢◌, true, false, not, ◌||◌, Option, none, some, arith, inl, inr, ◌⊎◌, subst, refl,
  Option-cases, Bool-cases, [], ap, if◌then◌else◌,
}
use goreecloud_drive.Prelude.Text.{Str, ◌==◌}
use goreecloud_drive.Prelude.Int.{
  ℤ, pos, ◌+ℤ◌, ◌-ℤ◌, ◌≤ℤ◌, int_laws, leb_ℤ, ltb_ℤ, +ℤ_parts, -ℤ_parts,
}
use goreecloud_drive.Errors.{
  Error, Result, Result-cases, ok, err, is, wrap, text, quota_unavailable, quota_invalid_size,
}
use goreecloud_drive.Storage.Session.{wrap_int64}
use goreecloud_drive.Sql.{Outcome, fine, refused, lost, next_outcome}
use goreecloud_drive.Quota.{Usage, reserve, exceeds, over_limit}
use goreecloud_drive.Quota.Table.{
  Row, Quotas, row_usage, max_bigint, fits, reserve_row, release_row, quota_table, table_get,
  table_reserve,
}

-- The CHECK constraints of the table, and the range of its columns.
pub record IsSound (row : Row) : Type 0 where
  pub used_nonneg : pos 0 ≤ℤ row.used_bytes
  pub used_range : row.used_bytes ≤ℤ max_bigint
  pub limit_nonneg : (limit : ℤ) → row.limit_bytes ≡ some limit → pos 0 ≤ℤ limit
  pub limit_range : (limit : ℤ) → row.limit_bytes ≡ some limit → limit ≤ℤ max_bigint

-- The row that a reservation charges.
abbrev pub charged : ℤ → Row → Row
charged bytes row = record row { used_bytes = row.used_bytes +ℤ bytes }

abbrev pub IsWithin : Option ℤ → ℤ → Type 0
IsWithin none used = Unit
IsWithin (some limit) used = used ≤ℤ limit

fits-IsWithin : (limit : Option ℤ) (used : ℤ) → fits limit used ≡ true → IsWithin limit used
fits-IsWithin none used h = tt
fits-IsWithin (some limit) used h = ground arith

reserve_row-IsWithin :
    (bytes : ℤ) (row new : Row)
    → reserve_row bytes row ≡ ok (some new)
    → (new ≡ charged bytes row) × IsWithin row.limit_bytes (row.used_bytes +ℤ bytes)
unfolding reserve_row
reserve_row-IsWithin bytes row new h =
    (ground arith, fits-IsWithin row.limit_bytes (row.used_bytes +ℤ bytes) (ground arith))

-- The test of the service on a usage that the statement returned does not fire.
returned_usage_valid :
    (bytes : ℤ) (row : Row)
    → pos 0 ≤ℤ row.used_bytes
    → leb_ℤ bytes (pos 0) ≡ false
    → IsWithin row.limit_bytes (row.used_bytes +ℤ bytes)
    → (ltb_ℤ (row.used_bytes +ℤ bytes) (pos 0)
        || over_limit row.limit_bytes (row.used_bytes +ℤ bytes))
      ≡ false
unfolding over_limit
returned_usage_valid bytes row nonneg positive within = elim (Option-cases row.limit_bytes) [
  | inl e ↦ ground (arith, +ℤ_parts row.used_bytes bytes)
  | inr (limit, e) ↦
      let below : row.used_bytes +ℤ bytes ≤ℤ limit =
        subst (λ l. IsWithin l (row.used_bytes +ℤ bytes)) e within in
      ground (arith, +ℤ_parts row.used_bytes bytes)
]

Outcome-cases : (o : Outcome) → (o ≡ fine) ⊎ (o ≡ refused) ⊎ (o ≡ lost)
Outcome-cases fine = inl refl
Outcome-cases refused = inr (inl refl)
Outcome-cases lost = inr (inr refl)

module _ (uuid_in : Str → Option Str) (k c : Str) (bytes : ℤ) (t : Quotas) (row : Row)
    (canonical : uuid_in k ≡ some c) (at : t.rows c ≡ some row) where
  -- The Space's row is charged within its limit, and no other is touched; the answer may be lost.
  abbrev pub IsCharged : Result Usage × Quotas → Type 0
  IsCharged (r, t') =
      IsWithin row.limit_bytes (row.used_bytes +ℤ bytes)
      × ((j : Str) → t'.rows j ≡ (if c == j then some (charged bytes row) else t.rows j))
      × ((r ≡ ok (row_usage c (charged bytes row)))
          ⊎ ((e : Error) × (r ≡ err e) × ((next_outcome t.schedule).0 ≡ lost)))

  abbrev pub IsRefused : Result Usage × Quotas → Type 0
  IsRefused (r, t') = ((j : Str) → t'.rows j ≡ t.rows j) × ((e : Error) × (r ≡ err e))

  table_get-rows : (u : Quotas) (j : Str) → (table_get uuid_in k u).1.rows j ≡ u.rows j
  unfolding table_get
  table_get-rows u j = ground arith

  table_reserve-IsCharged :
      (new : Row)
      → reserve_row bytes row ≡ ok (some new)
      → (next_outcome t.schedule).0 ≢ refused
      → IsCharged (table_reserve uuid_in k bytes t)
  unfolding table_reserve
  table_reserve-IsCharged new stepped effect =
      let (same, within) = reserve_row-IsWithin bytes row new stepped in
      (
        within,
        λ j. ground arith,
        elim (Outcome-cases (next_outcome t.schedule).0) [
          | inl answered ↦ inl (ground arith)
          | inr (inl not_run) ↦ absurd (effect not_run)
          | inr (inr gone) ↦ inr (wrap "reserve quota" (text "database error"), ground arith, gone)
        ],
      )

  -- No row is charged where the statement was refused, or its step gives no row.
  table_reserve-IsRefused :
      ((next_outcome t.schedule).0 ≡ refused)
        ⊎ (reserve_row bytes row ≡ ok none)
        ⊎ ((e : Error) × (reserve_row bytes row ≡ err e))
      → IsRefused (table_reserve uuid_in k bytes t)
  unfolding table_reserve table_get
  table_reserve-IsRefused (inl not_run) = (
    λ j. ground arith,
    elim (Result-cases (table_reserve uuid_in k bytes t).0) [
      | inl (u, done) ↦ absurd (ground arith)
      | inr failed ↦ failed
    ],
  )
  table_reserve-IsRefused (inr (inl no_room)) = (
    λ j. ground arith,
    elim (Result-cases (table_reserve uuid_in k bytes t).0) [
      | inl (u, done) ↦ absurd (ground arith)
      | inr failed ↦ failed
    ],
  )
  table_reserve-IsRefused (inr (inr (e, out_of_range))) = (
    λ j. ground arith,
    elim (Result-cases (table_reserve uuid_in k bytes t).0) [
      | inl (u, done) ↦ absurd (ground arith)
      | inr failed ↦ failed
    ],
  )

  table_reserve_cases :
      IsCharged (table_reserve uuid_in k bytes t) ⊎ IsRefused (table_reserve uuid_in k bytes t)
  table_reserve_cases = elim (Outcome-cases (next_outcome t.schedule).0) [
    | inr (inl not_run) ↦ inr (table_reserve-IsRefused (inl not_run))
    | inl here ↦ stepped (λ h. ground arith)
    | inr (inr gone) ↦ stepped (λ h. ground arith)
  ]
    where
      stepped :
          (next_outcome t.schedule).0 ≢ refused
          → IsCharged (table_reserve uuid_in k bytes t)
            ⊎ IsRefused (table_reserve uuid_in k bytes t)
      stepped effect = elim (Result-cases (reserve_row bytes row)) [
        | inr out_of_range ↦ inr (table_reserve-IsRefused (inr (inr out_of_range)))
        | inl (new, found) ↦ elim (Option-cases new) [
          | inl no_room ↦ inr (table_reserve-IsRefused (inr (inl (ground arith))))
          | inr (row', some_row) ↦ inl (table_reserve-IsCharged row' (ground arith) effect)
        ]
      ]

  service_reserve :
      leb_ℤ bytes (pos 0) ≡ false
      → (k == []) ≡ false
      → pos 0 ≤ℤ row.used_bytes
      → IsCharged (reserve (some (quota_table uuid_in)) k bytes t)
        ⊎ IsRefused (reserve (some (quota_table uuid_in)) k bytes t)
  unfolding reserve
  service_reserve positive named nonneg = elim table_reserve_cases [
    | inr (kept, (e, failed)) ↦ inr (λ j. ground (arith, kept j), (e, ground arith))
    | inl (within, rows, inl given) ↦
        let valid = returned_usage_valid bytes row nonneg positive within in
        inl (within, λ j. ground (arith, rows j), inl (ground (arith, valid)))
    | inl (within, rows, inr (e, failed, gone)) ↦
        inl (within, λ j. ground (arith, rows j), inr (e, ground arith, gone))
  ]

  -- A reservation, whatever fails, either charges exactly the bytes asked for to the Space's row, which
  -- stays within its limit, and touches no other row: then it succeeds with the new usage of that row,
  -- unless the answer of the statement is lost. Or it gives an error and leaves every row as it was. The
  -- Space is what PostgreSQL reads as the uuid of the row, whose used bytes are not negative, as the
  -- table's constraint demands.
  pub reserve-IsCharged :
      pos 0 ≤ℤ row.used_bytes
      → IsCharged (reserve (some (quota_table uuid_in)) k bytes t)
        ⊎ IsRefused (reserve (some (quota_table uuid_in)) k bytes t)
  unfolding reserve
  reserve-IsCharged nonneg = elim (Bool-cases (k == [])) [
    | inl blank ↦ inr (refused_at_once (is quota_unavailable) (rw blank refl))
    | inr named ↦ elim (Bool-cases (leb_ℤ bytes (pos 0))) [
      | inl small ↦ inr (refused_at_once (is quota_invalid_size) (rw (named, small) refl))
      | inr positive ↦ service_reserve positive named nonneg
    ]
  ]
    where
      refused_at_once :
          (e : Error)
          → reserve (some (quota_table uuid_in)) k bytes t ≡ (err e, t)
          → IsRefused (reserve (some (quota_table uuid_in)) k bytes t)
      refused_at_once e h = (λ j. ap (λ x. x.1.rows j) h, (e, ap (λ x. x.0) h))

-- The difference that `Check` computes does not wrap around on a row within the constraints.
wrap_in_range :
    (limit used : ℤ)
    → pos 0 ≤ℤ limit
    → limit ≤ℤ max_bigint
    → pos 0 ≤ℤ used
    → used ≤ℤ max_bigint
    → wrap_int64 (limit -ℤ used) ≡ limit -ℤ used
unfolding wrap_int64 ◌-ℤ◌
wrap_in_range limit used a b c d = ground arith

-- On a row within the table's constraints the int64 difference of `Check` does not overflow, and
-- `Check` accepts an amount exactly if the condition of the reserving statement holds for it.
pub check_foretells_reserve :
    (row : Row) (additional : ℤ)
    → IsSound row
    → exceeds row.limit_bytes row.used_bytes additional
      ≡ not (fits row.limit_bytes (row.used_bytes +ℤ additional))
unfolding exceeds
check_foretells_reserve row additional s = elim (Option-cases row.limit_bytes) [
  | inl e ↦ ground arith
  | inr (limit, e) ↦ ground (
    arith,
    wrap_in_range limit row.used_bytes (s.limit_nonneg limit e) (s.limit_range limit e),
    +ℤ_parts row.used_bytes additional,
    -ℤ_parts limit row.used_bytes,
  )
]

cancels : (a b : ℤ) → pos 0 ≤ℤ a → a +ℤ b -ℤ b ≡ a
cancels a b h = omega int_laws

-- Where the reserving statement updates a row whose used bytes are not negative, the releasing
-- statement for the same amount gives exactly the old row back.
pub release-reserve :
    (bytes : ℤ) (row charged_row : Row)
    → pos 0 ≤ℤ row.used_bytes
    → reserve_row bytes row ≡ ok (some charged_row)
    → release_row bytes charged_row ≡ ok (some row)
unfolding reserve_row release_row
release-reserve bytes row charged_row nonneg h = ground (arith, cancels row.used_bytes bytes nonneg)
