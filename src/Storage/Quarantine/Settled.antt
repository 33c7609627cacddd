-- ===== src/Storage/Quarantine/Settled.antt =====
-- `ApplyQuarantine` of a node whose quarantine is settled.
use goreecloud_drive.Prelude.{ℕ, ◌≡◌, Bool, true, Option, some, arith, inl, inr}
use goreecloud_drive.Prelude.Text.{Str, ==_iff}
use goreecloud_drive.Errors.{Result-cases, ok}
use goreecloud_drive.Os.Path.{FilePath}
use goreecloud_drive.Os.{World, plain_call, stat, read_file}
use goreecloud_drive.Os.Files.{SameFiles, SameFiles-trans, plain_call-SameFiles}
use goreecloud_drive.Storage.Local.{Local, quarantine_state_path, quarantine_path, object_path}
use goreecloud_drive.Storage.StateFile.{
  QuarantineState, JsonCodec, quarantined, exists, read_quarantine_state,
}
use goreecloud_drive.Storage.Quarantine.{reconcile, apply_at, apply_quarantine}

exists-SameFiles : (p : FilePath) (w : World) → SameFiles w (exists p w).1
unfolding exists stat
exists-SameFiles p w = ground arith

module _ (codec : JsonCodec) (object quarantine state_path : FilePath) (state : QuarantineState)
    (settled : state.status ≡ quarantined) where
  reconcile_settled :
      (w : World) → SameFiles w (reconcile codec object quarantine state_path state w).1
  unfolding reconcile
  reconcile_settled w =
      let w1 = (exists object w).1 in
      let same = SameFiles-trans (exists-SameFiles object w) (exists-SameFiles quarantine w1) in
      ground (arith, ==_iff state.status quarantined, exists-SameFiles object w)

  reconcile_settled_ok :
      (w : World) (r : QuarantineState × Bool)
      → (reconcile codec object quarantine state_path state w).0 ≡ ok r
      → r ≡ (state, true)
  unfolding reconcile
  reconcile_settled_ok w r h = ground (arith, ==_iff state.status quarantined)

-- A state file whose record the code reads.
module _ (codec : JsonCodec) (state_path : FilePath) (state : QuarantineState) (j : ℕ) (w : World)
    (at : w.links state_path ≡ some j)
    (written : codec.unmarshal (w.inodes j).content ≡ some state) where
  read_recorded : SameFiles w (read_quarantine_state codec state_path w).1
  unfolding read_quarantine_state read_file
  read_recorded = ground arith

  read_recorded_ok :
      (found : Option QuarantineState)
      → (read_quarantine_state codec state_path w).0 ≡ ok found
      → found ≡ some state
  unfolding read_quarantine_state read_file
  read_recorded_ok found h = ground arith

module _ (codec : JsonCodec) (object quarantine state_path : FilePath) (sp n op corr : Str)
    (state : QuarantineState) (settled : state.status ≡ quarantined) (j : ℕ) (w : World)
    (at : w.links state_path ≡ some j)
    (written : codec.unmarshal (w.inodes j).content ≡ some state) where
  apply_at_settled : SameFiles w (apply_at codec object quarantine state_path sp n op corr w).1
  unfolding apply_at plain_call
  apply_at_settled =
      let w2 = (plain_call (plain_call w).1).1 in
      let same : SameFiles w w2 =
        SameFiles-trans (plain_call-SameFiles w) (plain_call-SameFiles (plain_call w).1) in
      let at2 : w2.links state_path ≡ some j = rw same.links at in
      let written2 : codec.unmarshal (w2.inodes j).content ≡ some state = rw same.inodes written in
      let w3 = (read_quarantine_state codec state_path w2).1 in
      elim (Result-cases (read_quarantine_state codec state_path w2).0) [
        | inr (e, failed) ↦
            ground (
              arith,
              plain_call-SameFiles w,
              read_recorded codec state_path state j w2 at2 written2,
            )
        | inl (found, o) ↦ ground (
          arith,
          plain_call-SameFiles w,
          read_recorded codec state_path state j w2 at2 written2,
          read_recorded_ok codec state_path state j w2 at2 written2 found o,
          reconcile_settled codec object quarantine state_path state settled w3,
        )
      ]

  apply_at_settled_ok :
      (r : QuarantineState × Bool)
      → (apply_at codec object quarantine state_path sp n op corr w).0 ≡ ok r
      → (r ≡ (state, true)) × (state.operation_id ≡ op) × (state.correlation_id ≡ corr)
  unfolding apply_at plain_call
  apply_at_settled_ok r h =
      let w2 = (plain_call (plain_call w).1).1 in
      let same : SameFiles w w2 =
        SameFiles-trans (plain_call-SameFiles w) (plain_call-SameFiles (plain_call w).1) in
      let at2 : w2.links state_path ≡ some j = rw same.links at in
      let written2 : codec.unmarshal (w2.inodes j).content ≡ some state = rw same.inodes written in
      let w3 = (read_quarantine_state codec state_path w2).1 in
      elim (Result-cases (read_quarantine_state codec state_path w2).0) [
        | inr (e, failed) ↦ absurd (ground arith)
        | inl (found, o) ↦ ground (
          arith,
          read_recorded_ok codec state_path state j w2 at2 written2 found o,
          reconcile_settled_ok codec object quarantine state_path state settled w3 r,
          ==_iff state.operation_id op,
          ==_iff state.correlation_id corr,
        )
      ]

-- Once the state file of a node holds a quarantined record, `ApplyQuarantine` changes no file, for
-- whatever operation it is called and whatever fails.
pub quarantined_is_final :
    (codec : JsonCodec) (l : Local) (space_id node_id operation_id correlation_id : Str)
    → (state_path : FilePath) (state : QuarantineState) (j : ℕ) (w : World)
    → quarantine_state_path l space_id node_id ≡ ok state_path
    → w.links state_path ≡ some j
    → codec.unmarshal (w.inodes j).content ≡ some state
    → state.status ≡ quarantined
    → SameFiles w (apply_quarantine codec l space_id node_id operation_id correlation_id w).1
unfolding apply_quarantine
quarantined_is_final codec l sp n op corr t state j w path at written settled =
    elim (Result-cases (object_path l sp n)) [
      | inr (e, bad) ↦ ground arith
      | inl (o, ho) ↦ elim (Result-cases (quarantine_path l sp n)) [
        | inr (e, bad) ↦ ground arith
        | inl (q, hq) ↦
            ground (arith, apply_at_settled codec o q t sp n op corr state settled j w at written)
      ]
    ]

-- Where the state file of a node holds a quarantined record, an `ApplyQuarantine` that succeeds was
-- called for the recorded operation and correlation, and gives the record, as applied already.
pub replay_gives_record :
    (codec : JsonCodec) (l : Local) (space_id node_id operation_id correlation_id : Str)
    → (state_path : FilePath) (state : QuarantineState) (j : ℕ) (w : World)
      (r : QuarantineState × Bool)
    → quarantine_state_path l space_id node_id ≡ ok state_path
    → w.links state_path ≡ some j
    → codec.unmarshal (w.inodes j).content ≡ some state
    → state.status ≡ quarantined
    → (apply_quarantine codec l space_id node_id operation_id correlation_id w).0 ≡ ok r
    → (r ≡ (state, true))
      × (state.operation_id ≡ operation_id)
      × (state.correlation_id ≡ correlation_id)
unfolding apply_quarantine
replay_gives_record codec l sp n op corr t state j w r path at written settled h =
    elim (Result-cases (object_path l sp n)) [
      | inr (e, bad) ↦ absurd (ground arith)
      | inl (o, ho) ↦ elim (Result-cases (quarantine_path l sp n)) [
        | inr (e, bad) ↦ absurd (ground arith)
        | inl (q, hq) ↦
            ground
              (arith, apply_at_settled_ok codec o q t sp n op corr state settled j w at written r)
      ]
    ]
