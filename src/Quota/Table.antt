-- ===== src/Quota/Table.antt =====
-- `PostgresRepository` of internal/quota/postgres.go: the statements as functions on the rows of the
-- table `quotas`, whose key is the Space. What PostgreSQL reads as a uuid is a parameter. A statement may
-- fail by its outcome in the schedule, by a Space that is no uuid, or by a sum out of the range of bigint.
use goreecloud_drive.Prelude.{
  ◌-◌, ◌^◌, Bool, true, false, not, ◌&&◌, Option, none, some, List, if◌then◌else◌,
}
use goreecloud_drive.Prelude.Text.{Str, ◌==◌}
use goreecloud_drive.Prelude.Int.{ℤ, pos, ◌+ℤ◌, ◌-ℤ◌, ltb_ℤ, leb_ℤ}
use goreecloud_drive.Errors.{
  Error, is, wrap, text, Result, ok, err, errors_is, quota_unavailable, quota_exceeded, sql_no_rows,
}
use goreecloud_drive.Os.{Action, pure, raise, attempt, ◌>>=◌}
use goreecloud_drive.Sql.{Outcome, fine, refused, lost, next_outcome}
use goreecloud_drive.Quota.{Usage, Repository}

pub record Row : Type 0 where
  pub limit_bytes : Option ℤ
  pub used_bytes : ℤ

-- The rows by their canonical Space, and for each statement to come its outcome.
pub record Quotas : Type 0 where
  pub rows : Str → Option Row
  pub schedule : List Outcome

abbrev pub max_bigint : ℤ
max_bigint = pos (2 ^ 63 - 1)

abbrev pub row_usage : Str → Row → Usage
row_usage space_id row = record {
  space_id = space_id;
  limit_bytes = row.limit_bytes;
  used_bytes = row.used_bytes;
}

abbrev database_error : Error
database_error = text "database error"

-- What arrives of an answer.
abbrev answered : Outcome → Result Usage → Result Usage
answered fine r = r
answered refused r = err database_error
answered lost r = err database_error

abbrev takes_effect : Outcome → Bool
takes_effect refused = false
takes_effect _ = true

module _ (uuid_in : Str → Option Str) where
  -- An UPDATE of the row of a Space: `step` gives the new row, `none` where WHERE does not hold, or an
  -- error.
  abbrev update_row : Str → (Row → Result (Option Row)) → Action Quotas Usage
  update_row space_id step t =
      let (o, later) = next_outcome t.schedule in
      let t' = record t { schedule = later } in
      if not (takes_effect o) then (err database_error, t') else elim (uuid_in space_id) [
        | none ↦ (err database_error, t')
        | some space ↦ elim (t.rows space) [
          | none ↦ (answered o (err (is sql_no_rows)), t')
          | some row ↦ elim (step row) [
            | err e ↦ (err e, t')
            | ok none ↦ (answered o (err (is sql_no_rows)), t')
            | ok (some row') ↦ (
              answered o (ok (row_usage space row')),
              record t' { rows = λ k. if space == k then some row' else t.rows k },
            )
          ]
        ]
      ]

  -- SELECT of the row of a Space.
  abbrev select : Str → Action Quotas Usage
  select space_id t =
      let (o, later) = next_outcome t.schedule in
      let t' = record t { schedule = later } in
      if not (takes_effect o) then (err database_error, t') else elim (uuid_in space_id) [
        | none ↦ (err database_error, t')
        | some space ↦ elim (t.rows space) [
          | none ↦ (answered o (err (is sql_no_rows)), t')
          | some row ↦ (answered o (ok (row_usage space row)), t')
        ]
      ]

-- used_bytes + $2 <= limit_bytes, or no limit
abbrev pub fits : Option ℤ → ℤ → Bool
fits none used = true
fits (some limit) used = leb_ℤ used limit

-- UPDATE ... SET used_bytes = used_bytes + $2 WHERE $2 > 0 AND (...)
unfoldable pub reserve_row : ℤ → Row → Result (Option Row)
reserve_row bytes row =
    let used = row.used_bytes +ℤ bytes in
    if ltb_ℤ max_bigint used
    then err (text "bigint out of range")
    else if ltb_ℤ (pos 0) bytes && fits row.limit_bytes used
    then ok (some (record row { used_bytes = used }))
    else ok none

-- UPDATE ... SET used_bytes = GREATEST(used_bytes - $2, 0) WHERE $2 > 0
unfoldable pub release_row : ℤ → Row → Result (Option Row)
release_row bytes row =
    let used = row.used_bytes -ℤ bytes in
    if ltb_ℤ (pos 0) bytes
    then ok (some (record row { used_bytes = if ltb_ℤ used (pos 0) then pos 0 else used }))
    else ok none

module _ (uuid_in : Str → Option Str) where
  -- `PostgresRepository.Get`
  unfoldable pub table_get : Str → Action Quotas Usage
  table_get space_id = do
    read ← attempt (select uuid_in space_id)
    elim read [
      | ok usage ↦ pure usage
      | err e ↦
          if errors_is e sql_no_rows
          then raise (is quota_unavailable)
          else raise (wrap "read quota" e)
    ]

  -- `PostgresRepository.Reserve`
  unfoldable pub table_reserve : Str → ℤ → Action Quotas Usage
  unfolding reserve_row table_get
  table_reserve space_id bytes = do
    updated ← attempt (update_row uuid_in space_id (reserve_row bytes))
    elim updated [
      | ok usage ↦ pure usage
      | err e ↦
          if errors_is e sql_no_rows
          then (do seen ← table_get space_id; raise (is quota_exceeded))
          else raise (wrap "reserve quota" e)
    ]

  -- `PostgresRepository.Release`
  unfoldable pub table_release : Str → ℤ → Action Quotas Usage
  unfolding release_row
  table_release space_id bytes = do
    updated ← attempt (update_row uuid_in space_id (release_row bytes))
    elim updated [
      | ok usage ↦ pure usage
      | err e ↦
          if errors_is e sql_no_rows
          then raise (is quota_unavailable)
          else raise (wrap "release quota" e)
    ]

  abbrev pub quota_table : Repository Quotas
  quota_table = record { get = table_get; reserve = table_reserve; release = table_release }
