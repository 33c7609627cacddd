-- ===== src/Tests/Policy.antt =====
-- Identifiers, the policy, the node service and the quota at concrete inputs.
use goreecloud_drive.Prelude.{
  ℕ, suc, ◌≡◌, ◌⊎◌, refl, true, false, not, none, some, List, [], ◌∷◌, arith, leb, if◌then◌else◌,
}
use goreecloud_drive.Prelude.Text.{Str, str, ◌==◌}
use goreecloud_drive.Prelude.Int.{pos, ◌+ℤ◌}
use goreecloud_drive.Errors.{ok, err, is, quota_exceeded}
use goreecloud_drive.Ids.{uuid_of, set_version, set_variant}
use goreecloud_drive.Authz
use goreecloud_drive.Authz.{allows}
use goreecloud_drive.Authz.Ladder.{Rung, Capability, allows-eq-ladder, role_of, needed, height}
use goreecloud_drive.SpaceAccess.{MembershipResolver, access_allows}
use goreecloud_drive.Nodes.{Node, Repository, allowed, guarded, get}
use goreecloud_drive.Nodes.Guarded.{
  request_is_guarded, reading, trashing, perform, wanted, refusal, wired, HasRole,
}
use goreecloud_drive.Quota.{reserve, exceeds, over_limit}
use goreecloud_drive.Quota.Table.{Row, Quotas, fits, quota_table, table_reserve}
use goreecloud_drive.Quota.Bounds.{
  IsSound, IsCharged, IsRefused, reserve-IsCharged, check_foretells_reserve,
}
use goreecloud_drive.Tests.Fixtures.{space_id, account_id, node_id}

abbrev sixteen : List ℕ
sixteen = 0 ∷ 1 ∷ 2 ∷ 3 ∷ 4 ∷ 5 ∷ 255 ∷ 7 ∷ 255 ∷ 9 ∷ 10 ∷ 11 ∷ 12 ∷ 13 ∷ 14 ∷ 15 ∷ []

uuid_run : uuid_of sixteen ≡ str "00010203-0405-4f07-bf09-0a0b0c0d0e0f"
unfolding uuid_of set_version set_variant
uuid_run = refl

allows-eq-ladder_example :
    ((r : Rung) → allows (role_of r) Authz.Action.share ≡ leb (needed Capability.share) (height r))
    × (allows Authz.Role.drop_only Authz.Action.share
        ≡ (Authz.Action.share == Authz.Action.create_file))
allows-eq-ladder_example = allows-eq-ladder Capability.share

editor_shares : allows Authz.Role.editor Authz.Action.share ≡ true
unfolding allows ◌==◌
editor_shares = refl

abbrev members : MembershipResolver
members account space = ok Authz.Role.viewer

abbrev half_full : Row
half_full = record { limit_bytes = some (pos 10); used_bytes = pos 4 }

abbrev quotas : Quotas
quotas = record { rows = λ k. if k == space_id then some half_full else none; schedule = [] }

quotas_row : quotas.rows space_id ≡ some half_full
unfolding ◌==◌
quotas_row = refl

quotas_space : some space_id ≡ some space_id
quotas_space = refl

reserve_run :
    (reserve (some (quota_table some)) space_id (pos 6) quotas).0
    ≡ ok (record { space_id = space_id; limit_bytes = some (pos 10); used_bytes = pos 10 })
unfolding reserve table_reserve over_limit ◌==◌ ◌+ℤ◌
reserve_run = refl

reserve-IsCharged_example :
    IsCharged some space_id space_id
      (pos 6)
      quotas
      half_full
      quotas_space
      quotas_row
      (reserve (some (quota_table some)) space_id (pos 6) quotas)
    ⊎ IsRefused some space_id space_id
        (pos 6)
        quotas
        half_full
        quotas_space
        quotas_row
        (reserve (some (quota_table some)) space_id (pos 6) quotas)
reserve-IsCharged_example =
    reserve-IsCharged some space_id space_id (pos 6) quotas half_full quotas_space quotas_row
      (omega arith)

refused_run :
    (reserve (some (quota_table some)) space_id (pos 7) quotas).0 ≡ err (is quota_exceeded)
unfolding reserve table_reserve over_limit ◌==◌ ◌+ℤ◌
refused_run = refl

half_full-IsSound : IsSound half_full
half_full-IsSound = record {
  used_nonneg = omega arith;
  used_range = omega arith;
  limit_nonneg = λ limit e. ground arith;
  limit_range = λ limit e. ground arith;
}

check_foretells_reserve_example :
    exceeds (some (pos 10)) (pos 4) (pos 7) ≡ not (fits (some (pos 10)) (pos 4 +ℤ pos 7))
check_foretells_reserve_example = check_foretells_reserve half_full (pos 7) half_full-IsSound

abbrev report : Node
report = record {
  id = node_id;
  space_id = space_id;
  parent_id = none;
  kind = str "file";
  name = str "report";
  created_by = account_id;
  created_at = [];
  modified_at = [];
  trashed_at = none;
}

-- A repository that counts its changes.
abbrev counting : Repository ℕ
counting = record {
  list = λ _ _ n. (ok (report ∷ []), n);
  get = λ _ _ n. (ok report, n);
  create = λ node n. (ok node, suc n);
  rename = λ _ _ name n. (ok (record report { name = name }), suc n);
  trash = λ _ _ n. (ok report, suc n);
}

-- A viewer may not trash a node, and may read it.
trash_denied :
    allowed (wired (some counting) members) account_id space_id Authz.Action.delete ≡ false
unfolding allowed access_allows allows ◌==◌
trash_denied = refl

read_run :
    (perform (wired (some counting) members) account_id space_id (reading node_id) 0).0
    ≡ ok (report ∷ [])
unfolding perform get guarded allowed access_allows allows ◌==◌
read_run = refl

request_is_guarded_example :
    ((action : Str) × (wanted (trashing node_id) ≡ some action)
      × HasRole members account_id space_id action)
    ⊎ (perform (wired (some counting) members) account_id space_id (trashing node_id) 0
        ≡ (err (refusal (trashing node_id)), 0))
request_is_guarded_example =
    request_is_guarded (some counting) members account_id space_id (trashing node_id) 0
