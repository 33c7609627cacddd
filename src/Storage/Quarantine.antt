-- ===== src/Storage/Quarantine.antt =====
-- internal/storage/quarantine.go: isolation of a finalized object, with a durable state record that
-- is claimed before the side effect.
pub mod Settled
use goreecloud_drive.Prelude.{
  ℕ, Bool, true, false, not, ◌&&◌, ◌||◌, Option, none, some, [], ◌∷◌, ◌++◌, length, ltb, leb,
  if◌then◌else◌,
}
use goreecloud_drive.Prelude.Text.{Str, str, ◌==◌, trim_space, has_byte}
use goreecloud_drive.Errors.{
  is, text, wrap, Result, ok, err, errors_is, os_exist, os_not_exist, quarantine_conflict,
  quarantine_reconciliation,
}
use goreecloud_drive.Wardveil.Types.{Time}
use goreecloud_drive.Os.Path.{FilePath}
use goreecloud_drive.Os.{
  Io, pure, raise, lift, attempt, wrapping, ◌>>=◌, ◌>>◌, plain_call, link, remove, time_now,
}
use goreecloud_drive.Storage.Local.{Local, object_path, quarantine_path, quarantine_state_path}
use goreecloud_drive.Storage.StateFile.{
  QuarantineState, JsonCodec, pending, quarantined, exists, read_quarantine_state,
  write_state_exclusive, write_state_atomic,
}

-- The runes of `validOperationID`: ASCII letters, digits and `-_.:`.
unfoldable pub operation_byte : ℕ → Bool
operation_byte r =
    (leb b'a' r && leb r b'z')
    || ((leb b'A' r && leb r b'Z') || ((leb b'0' r && leb r b'9') || has_byte r (str "-_.:")))

unfoldable pub operation_bytes : Str → Bool
unfolding operation_byte
operation_bytes [] = true
operation_bytes (r ∷ value) = operation_byte r && operation_bytes value

-- `validOperationID`
unfoldable pub valid_operation_id : Str → Bool
unfolding operation_bytes
valid_operation_id value =
    let trimmed = trim_space value in
    not (trimmed == [] || ltb 160 (length trimmed)) && operation_bytes trimmed

module _ (codec : JsonCodec) where
  open codec use {format_time}

  abbrev conflict_or :
      Str → Str → QuarantineState → Io (QuarantineState × Bool) → Io (QuarantineState × Bool)
  conflict_or operation_id correlation_id state m =
      if not (state.operation_id == operation_id) || not (state.correlation_id == correlation_id)
      then raise (is quarantine_conflict)
      else m

  -- The error of the payload's Link: a name that is taken is no error.
  abbrev unless_taken : Result (Unit {0}) → Io (Unit {0})
  unless_taken (ok _) = pure tt
  unless_taken (err e) =
      if errors_is e os_exist then pure tt else raise (wrap "publish quarantine payload" e)

  -- Of `reconcileQuarantine`: the payload gets its quarantine name. (The test of quarantineExists
  -- that follows in the source can no longer fail.)
  publish_payload : FilePath → FilePath → Bool → Bool → Io (Unit {0})
  publish_payload object quarantine object_exists quarantine_exists =
      if quarantine_exists
      then pure tt
      else if not object_exists
      then raise (is quarantine_reconciliation)
      else do linked ← attempt (link object quarantine); unless_taken linked

  remove_active : FilePath → Bool → Io (Unit {0})
  remove_active object object_exists =
      if object_exists
      then wrapping "remove active object after quarantine publish" (remove object)
      else pure tt

  -- The part of `reconcileQuarantine` for a pending state.
  unfoldable pub isolate :
      FilePath → FilePath → FilePath → QuarantineState → Bool → Bool → Io (QuarantineState × Bool)
  unfolding publish_payload remove_active
  isolate object quarantine state_path state object_exists quarantine_exists = do
    publish_payload object quarantine object_exists quarantine_exists
    remove_active object object_exists
    observed ← time_now
    let done = record state { status = quarantined; observed_at = format_time observed }
    wrapping "finalize quarantine state" (write_state_atomic codec state_path done)
    pure (done, false)

  -- `reconcileQuarantine`
  unfoldable pub reconcile :
      FilePath → FilePath → FilePath → QuarantineState → Io (QuarantineState × Bool)
  reconcile object quarantine state_path state = do
    object_exists ← exists object
    quarantine_exists ← exists quarantine
    if state.status == quarantined
        then (if not quarantine_exists || object_exists
            then raise (is quarantine_reconciliation)
            else pure (state, true))
        else if not (state.status == pending)
        then raise (is quarantine_reconciliation)
        else isolate object quarantine state_path state object_exists quarantine_exists

  -- The record that `ApplyQuarantine` claims the operation with.
  unfoldable pub claim : Str → Str → Str → Str → Time → QuarantineState
  claim space_id node_id operation_id correlation_id observed = record {
    space_id = space_id;
    node_id = node_id;
    operation_id = operation_id;
    correlation_id = correlation_id;
    status = pending;
    state_ref = str "drive-quarantine:" ++ (space_id ++ (b':' ∷ node_id));
    evidence_ref = str "drive-quarantine-operation:" ++ operation_id;
    observed_at = format_time observed;
  }

  -- The result of reading the state again after the exclusive write found one.
  abbrev after_race :
      FilePath
      → FilePath
      → FilePath
      → Str
      → Str
      → Result (Option QuarantineState)
      → Io (QuarantineState × Bool)
  after_race object quarantine state_path operation_id correlation_id (err _) =
      raise (is quarantine_reconciliation)
  after_race object quarantine state_path operation_id correlation_id (ok none) =
      raise (is quarantine_reconciliation)
  after_race object quarantine state_path operation_id correlation_id (ok (some state)) =
      conflict_or operation_id correlation_id state (reconcile object quarantine state_path state)

  -- Of `ApplyQuarantine`: what follows the exclusive write of the claim.
  unfoldable pub claimed :
      FilePath
      → FilePath
      → FilePath
      → QuarantineState
      → Result (Unit {0})
      → Io (QuarantineState × Bool)
  claimed object quarantine state_path state (ok _) = reconcile object quarantine state_path state
  claimed object quarantine state_path state (err e) =
      if errors_is e os_exist
      then (do
        again ← attempt (read_quarantine_state codec state_path)
        after_race object quarantine state_path state.operation_id state.correlation_id again)
      else raise e

  -- Of `ApplyQuarantine`: no state record was found.
  unfoldable pub start_quarantine :
      FilePath → FilePath → FilePath → Str → Str → Str → Str → Io (QuarantineState × Bool)
  unfolding claim claimed
  start_quarantine object quarantine state_path space_id node_id operation_id correlation_id = do
    quarantine_exists ← exists quarantine
    if quarantine_exists then raise (is quarantine_reconciliation) else do
      object_exists ← exists object
      if not object_exists then raise (is os_not_exist) else do
        observed ← time_now
        let state = claim space_id node_id operation_id correlation_id observed
        written ← attempt (write_state_exclusive codec state_path state)
        claimed object quarantine state_path state written

  -- `ApplyQuarantine`, once the paths are known: the second part of the result is `alreadyApplied`.
  unfoldable pub apply_at :
      FilePath → FilePath → FilePath → Str → Str → Str → Str → Io (QuarantineState × Bool)
  apply_at object quarantine state_path space_id node_id operation_id correlation_id = do
    wrapping "create quarantine scope" plain_call
    wrapping "create quarantine state scope" plain_call
    found ← read_quarantine_state codec state_path
    elim found [
      | some state ↦
          conflict_or operation_id correlation_id state
            (reconcile object quarantine state_path state)
      | none ↦
          start_quarantine object quarantine state_path space_id node_id operation_id correlation_id
    ]

  -- `ApplyQuarantine`
  unfoldable pub apply_quarantine : Local → Str → Str → Str → Str → Io (QuarantineState × Bool)
  unfolding object_path quarantine_path quarantine_state_path
  apply_quarantine l space_id node_id operation_id correlation_id =
      if not (valid_operation_id operation_id) || not (valid_operation_id correlation_id)
      then raise (text "quarantine operation identifiers are invalid")
      else do
        object ← lift (object_path l space_id node_id)
        quarantine ← lift (quarantine_path l space_id node_id)
        state_path ← lift (quarantine_state_path l space_id node_id)
        apply_at object quarantine state_path space_id node_id operation_id correlation_id

  -- `ReadQuarantine`, once the paths are known; `none` is `found == false`. The tests of the source's
  -- `||` are made in its order.
  unfoldable pub read_at : FilePath → FilePath → FilePath → Io (Option QuarantineState)
  read_at object quarantine state_path = do
    found ← read_quarantine_state codec state_path
    elim found [
      | none ↦ do
        quarantine_exists ← exists quarantine
        if quarantine_exists then raise (is quarantine_reconciliation) else pure none
      | some state ↦
          if not (state.status == quarantined) then raise (is quarantine_reconciliation) else do
            quarantine_exists ← exists quarantine
            if not quarantine_exists then raise (is quarantine_reconciliation) else do
              object_exists ← exists object
              if object_exists then raise (is quarantine_reconciliation) else pure (some state)
    ]

  -- `ReadQuarantine`
  unfoldable pub read_quarantine : Local → Str → Str → Io (Option QuarantineState)
  unfolding object_path quarantine_path quarantine_state_path
  read_quarantine l space_id node_id = do
    object ← lift (object_path l space_id node_id)
    quarantine ← lift (quarantine_path l space_id node_id)
    state_path ← lift (quarantine_state_path l space_id node_id)
    read_at object quarantine state_path
