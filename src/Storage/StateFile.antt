-- ===== src/Storage/StateFile.antt =====
-- The durable state records of internal/storage/quarantine.go: `QuarantineState` and the functions
-- that read and write its file. The record's JSON text is a parameter: `JsonCodec` is what the code
-- relies on of encoding/json for this struct of eight strings.
use goreecloud_drive.Prelude.{
  ℕ, ◌≡◌, Bool, true, false, not, ◌&&◌, Option, none, some, [], ◌∷◌, ◌++◌, if◌then◌else◌,
}
use goreecloud_drive.Prelude.Text.{Str, str, ◌==◌}
use goreecloud_drive.Errors.{is, wrap, ok, err, errors_is, os_not_exist, quarantine_reconciliation}
use goreecloud_drive.Wardveil.Types.{Time}
use goreecloud_drive.Os.Path.{FilePath}
use goreecloud_drive.Os.{
  Io, Bytes, pure, raise, lift, attempt, ignoring, wrapping, ◌>>=◌, ◌>>◌, plain_call, stat, remove,
  rename, open_exclusive, create_temp, write_at, read_file,
}

-- `QuarantineState`
pub record QuarantineState : Type 0 where
  pub space_id : Str
  pub node_id : Str
  pub operation_id : Str
  pub correlation_id : Str
  pub status : Str
  pub state_ref : Str
  pub evidence_ref : Str
  pub observed_at : Str

-- json.Marshal and json.Unmarshal at `QuarantineState` (a marshalled value and a newline unmarshal to
-- the value, an empty text does not), and `Time.Format(time.RFC3339Nano)`.
pub record JsonCodec : Type 0 where
  pub marshal : QuarantineState → Bytes
  pub unmarshal : Bytes → Option QuarantineState
  pub format_time : Time → Str
  pub unmarshal-marshal : (s : QuarantineState) → unmarshal (marshal s ++ 10 ∷ []) ≡ some s
  pub unmarshal-nil : unmarshal [] ≡ none

abbrev pub pending : Str
pending = str "pending"

abbrev pub quarantined : Str
quarantined = str "quarantined"

-- `exists`: false on any error of Stat.
unfoldable pub exists : FilePath → Io Bool
exists path = do info ← attempt (stat path); elim info [ ok _ ↦ pure true | err _ ↦ pure false ]

-- The directory of a path, and the path in it.
abbrev pub parent : FilePath → FilePath
parent [] = []
parent (c ∷ []) = []
parent (c ∷ d ∷ cs) = c ∷ parent (d ∷ cs)

module _ (codec : JsonCodec) where
  open codec use {marshal, unmarshal, format_time}

  -- The fields that `readQuarantineState` requires.
  is_complete : QuarantineState → Bool
  is_complete s =
      not (s.space_id == [])
      && (not (s.node_id == [])
          && (not (s.operation_id == [])
              && (not (s.correlation_id == [])
                  && (not (s.state_ref == []) && not (s.evidence_ref == [])))))

  decode_state : Bytes → Io (Option QuarantineState)
  unfolding is_complete
  decode_state bytes = elim (unmarshal bytes) [
    | none ↦ raise (is quarantine_reconciliation)
    | some state ↦
        if is_complete state then pure (some state) else raise (is quarantine_reconciliation)
  ]

  -- `readQuarantineState`; `none` is `found == false`.
  unfoldable pub read_quarantine_state : FilePath → Io (Option QuarantineState)
  unfolding decode_state
  read_quarantine_state path = do
    bytes ← attempt (read_file path)
    elim bytes [
      | err e ↦
          if errors_is e os_not_exist then pure none else raise (wrap "read quarantine state" e)
      | ok b ↦ decode_state b
    ]

  -- `writeQuarantineStateExclusive`
  unfoldable pub write_state_exclusive : FilePath → QuarantineState → Io (Unit {0})
  write_state_exclusive path state = do
    file ← open_exclusive path
    wrapping "write quarantine state" (write_at file 0 (marshal state ++ 10 ∷ []))
    wrapping "sync quarantine state" plain_call
    plain_call

  -- The steps on the open temporary file: Chmod, Write, Sync, Close, Rename.
  unfoldable pub fill_temp : FilePath → ℕ → FilePath → QuarantineState → Io (Unit {0})
  fill_temp name temp path state = do
    plain_call
    write_at temp 0 (marshal state ++ 10 ∷ [])
    plain_call
    plain_call
    rename name path

  -- `writeQuarantineStateAtomic`; the deferred Remove runs on every way out.
  unfoldable pub write_state_atomic : FilePath → QuarantineState → Io (Unit {0})
  unfolding fill_temp
  write_state_atomic path state = do
    (name, temp) ←
        wrapping "create quarantine state temporary file"
          (create_temp (parent path) (str ".quarantine-state-"))
    filled ← attempt (fill_temp name temp path state)
    ignoring (remove name)
    lift filled
