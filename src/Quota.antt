-- ===== src/Quota.antt =====
-- internal/quota: the byte quota of a Space, the service (quota.go) over its repository, and the
-- PostgreSQL repository (postgres.go) as the statements that it runs on the table `quotas`.
pub mod Table
pub mod Bounds
use goreecloud_drive.Prelude.{
  ℕ, Bool, true, false, not, ◌&&◌, ◌||◌, Option, none, some, [], ◌∷◌, if◌then◌else◌,
}
use goreecloud_drive.Prelude.Text.{Str, ◌==◌}
use goreecloud_drive.Prelude.Int.{ℤ, pos, ◌-ℤ◌, ltb_ℤ, leb_ℤ}
use goreecloud_drive.Errors.{
  Error, is, wrap, Result, ok, err, quota_unavailable, quota_exceeded, quota_invalid_size,
}
use goreecloud_drive.Os.{Action, pure, raise, ◌>>=◌}
use goreecloud_drive.Storage.Session.{wrap_int64}

-- `Usage`
pub record Usage : Type 0 where
  pub space_id : Str
  pub limit_bytes : Option ℤ
  pub used_bytes : ℤ

-- `Repository` over a state `R`
pub record Repository (R : Type 0) : Type 0 where
  pub get : Str → Action R Usage
  pub reserve : Str → ℤ → Action R Usage
  pub release : Str → ℤ → Action R Usage

-- `usage.LimitBytes != nil && additionalBytes > *usage.LimitBytes-usage.UsedBytes`, on int64.
unfoldable pub exceeds : Option ℤ → ℤ → ℤ → Bool
exceeds none used additional = false
exceeds (some limit) used additional = ltb_ℤ (wrap_int64 (limit -ℤ used)) additional

-- `usage.LimitBytes != nil && usage.UsedBytes > *usage.LimitBytes`
unfoldable pub over_limit : Option ℤ → ℤ → Bool
over_limit none used = false
over_limit (some limit) used = ltb_ℤ limit used

module _ {R : Type 0} where
  -- The tests at the head of each method: the repository, the Space and the size.
  unfoldable pub checked {ℓ} :
      {A : Type ℓ} → Option (Repository R) → Str → ℤ → (Repository R → Action R A) → Action R A
  checked none space_id bytes call = raise (is quota_unavailable)
  checked (some repo) space_id bytes call =
      if space_id == []
      then raise (is quota_unavailable)
      else if leb_ℤ bytes (pos 0)
      then raise (is quota_invalid_size)
      else call repo

  -- `Service.Check`: usage and error are returned together where the quota is exceeded.
  unfoldable pub check : Option (Repository R) → Str → ℤ → Action R (Usage × Option Error)
  unfolding checked
  check service space_id additional_bytes = checked service space_id additional_bytes λ repo. do
    usage ← repo.get space_id
    if exceeds usage.limit_bytes usage.used_bytes additional_bytes
        then pure (usage, some (is quota_exceeded))
        else pure (usage, none)

  -- `Service.Reserve`
  unfoldable pub reserve : Option (Repository R) → Str → ℤ → Action R Usage
  unfolding checked
  reserve service space_id bytes = checked service space_id bytes λ repo. do
    usage ← repo.reserve space_id bytes
    if ltb_ℤ usage.used_bytes (pos 0) || over_limit usage.limit_bytes usage.used_bytes
        then raise (wrap "repository returned invalid usage" (is quota_unavailable))
        else pure usage

  -- `Service.Release`
  unfoldable pub release : Option (Repository R) → Str → ℤ → Action R Usage
  unfolding checked
  release service space_id bytes =
      checked service space_id bytes λ repo. repo.release space_id bytes
