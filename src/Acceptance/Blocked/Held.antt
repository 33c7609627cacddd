-- ===== src/Acceptance/Blocked/Held.antt =====
-- cmd/wardveil-negative-acceptance/main.go: what a case that passes has found.
use goreecloud_drive.Prelude.{
  ℕ, ◌≡◌, true, false, Option-cases, none, some, [], String, arith, inl, inr,
}
use goreecloud_drive.Errors.{Error, ok}
use goreecloud_drive.Os.{World, stat}
use goreecloud_drive.Os.Files.{SameFiles}
use goreecloud_drive.Os.Path.{FilePath}
use goreecloud_drive.Storage.Local.{Local, object_path, staging_path}
use goreecloud_drive.Wardveil.Types.{Decision, Disposition}
use goreecloud_drive.Acceptance.{
  Sent, complete_error, as_blocked, exists, same_disposition, contains,
}
use goreecloud_drive.Acceptance.Blocked.{DecisionCase}

module _ (path : FilePath) (w : World) where
  -- A path that exists is linked, and one that does not is free unless Stat failed.
  pub exists_true : (exists path w).0 ≡ ok true → (i : ℕ) × (w.links path ≡ some i)
  unfolding exists stat
  exists_true h = elim (Option-cases (w.links path)) [
    | inl free ↦ absurd (ground arith)
    | inr (i, at) ↦ (i, at)
  ]

  pub exists_false : w.stat_faults ≡ [] → (exists path w).0 ≡ ok false → w.links path ≡ none
  unfolding exists stat
  exists_false quiet h = elim (Option-cases (w.links path)) [
    | inl free ↦ free
    | inr (i, at) ↦ absurd (ground arith)
  ]

  pub exists_quiet : w.stat_faults ≡ [] → (exists path w).1.stat_faults ≡ []
  unfolding exists stat
  exists_quiet quiet = ground arith

  pub exists-SameFiles : SameFiles w (exists path w).1
  unfolding exists stat
  exists-SameFiles = ground arith

-- An upload that was blocked and kept back: its decision does not release it, nothing is at its object
-- path, and its staging path still names a file.
pub record IsHeldBack (store : Local) (sent : Sent) (disposition : Disposition) (reason : String)
    (w : World) (c : DecisionCase) : Type 0 where
  pub error : Error
  pub decision : Decision
  pub failed : complete_error sent ≡ some error
  pub carries : as_blocked error ≡ some decision
  pub not_released : decision.can_release ≡ false
  pub as_expected : same_disposition decision.disposition disposition ≡ true
  pub because : contains decision.reason_codes reason ≡ true
  pub object : FilePath
  pub staging : FilePath
  pub inode : ℕ
  pub object_at : object_path store sent.space_id sent.node_id ≡ ok object
  pub staging_at : staging_path store sent.space_id sent.upload_id ≡ ok staging
  pub unpublished : w.links object ≡ none
  pub held : w.links staging ≡ some inode
  pub quoted : c.disposition ≡ decision.disposition
  pub quoted_release : c.can_release ≡ false
  pub quoted_object : c.object_published ≡ false
  pub quoted_staging : c.staging_held ≡ true
  pub quoted_reasons : c.reason_codes ≡ decision.reason_codes
