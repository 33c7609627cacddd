-- ===== src/Wardveil/Gate.antt =====
-- `StagedFileGate` of internal/wardveil/scan.go: staged content is hashed, scanned, judged and hashed
-- again. SHA-256 is a function on byte strings, and the scanner (the interface `Scanner`) an action
-- that is given the request and what reading the content gives: both are parameters.
pub mod Evidence
pub mod Confirmed
pub mod Live
use goreecloud_drive.Prelude.{
  ℕ, String, Bool, true, false, not, ◌&&◌, ◌||◌, Option, none, some, List, [], ◌∷◌, eqb, length,
  if◌then◌else◌,
}
use goreecloud_drive.Prelude.Text.{Str, str}
use goreecloud_drive.Prelude.Int.{pos}
use goreecloud_drive.Errors.{Error, text, wrap, Result, ok, err}
use goreecloud_drive.Os.{
  Io, Bytes, pure, raise, lift, attempt, wrapping, ◌>>=◌, ◌>>◌, plain_call, read_all, time_now,
}
use goreecloud_drive.Ids.{hex}
use goreecloud_drive.Storage.Local.{Local}
use goreecloud_drive.Storage.Session.{open_staging}
use goreecloud_drive.Wardveil.Action
use goreecloud_drive.Wardveil.Types.{
  Time, Decision, FileResource, ScanRequest, ScanEnvelope, resource_id_of, drive_file_resource_type,
}
use goreecloud_drive.Wardveil.Scan.{evaluate, equal_fold, block}

-- The interface `Scanner`: its call may change the disk. A scanner that only answers is the special
-- case of the server, whose scanner asks a service over HTTP.
abbrev pub Scanner : Type 0
Scanner = ScanRequest → Result Bytes → Io ScanEnvelope

abbrev pub Answers : Type 0
Answers = ScanRequest → Result Bytes → Result ScanEnvelope

abbrev pub asks : Answers → Scanner
asks answers request read = lift (answers request read)

-- `StagedFileGate`; `none` is a nil interface.
pub record StagedFileGate : Type 0 where
  pub store : Option Local
  pub scanner : Option Scanner
  pub now : Option (Io Time)

abbrev pub clock_of : Option (Io Time) → Io Time
clock_of none = time_now
clock_of (some clock) = clock

module _ (sha256 : Bytes → List ℕ) where
  -- hex.EncodeToString(hash.Sum(nil))
  abbrev pub digest_of : Bytes → Str
  digest_of content = hex (sha256 content)

  -- `hashStaging`: the copy's error comes before that of Close.
  unfoldable pub hash_staging : Local → Str → Str → Io (Str × ℕ)
  hash_staging store space_id upload_id = do
    content ← open_staging store space_id upload_id
    copied ← attempt (read_all content)
    closed ← attempt plain_call
    bytes ← lift copied
    lift closed
    pure (digest_of bytes, length bytes)

  -- The resource of a staged upload, and the request for its scan.
  abbrev pub staged_resource : Str → Str → Str × ℕ → FileResource
  staged_resource space_id node_id (digest, size) = record {
    space_id = space_id;
    node_id = node_id;
    digest_sha256 = digest;
    size_bytes = pos size;
  }

  abbrev pub scan_request : FileResource → ScanRequest
  scan_request resource = record {
    resource_type = drive_file_resource_type;
    resource_id = resource_id_of resource;
    digest_sha256 = resource.digest_sha256;
    size_bytes = resource.size_bytes;
    action = Action.upload_finalize;
  }

  -- Of `EvaluateUpload`: the content is opened, scanned and closed.
  unfoldable pub scan_staging : Local → Scanner → Str → Str → FileResource → Io ScanEnvelope
  scan_staging store scanner space_id upload_id resource = do
    content ←
        wrapping "open staged Drive file for Wardveil Scan" (open_staging store space_id upload_id)
    read ← attempt (read_all content)
    scanned ← attempt (scanner (scan_request resource) read)
    closed ← attempt plain_call
    envelope ← wrapping "Wardveil Scan failed" (lift scanned)
    wrapping "close staged Drive file after Wardveil Scan" (lift closed)
    pure envelope

  -- Of `EvaluateUpload`: a decision to release holds only if the content has not changed.
  unfoldable pub confirm : Local → Str → Str → Str × ℕ → Decision → Io Decision
  confirm store space_id upload_id (digest, size) decision =
      if not decision.can_release then pure decision else do
        (after_digest, after_size) ←
            wrapping "rehash staged Drive file after Wardveil Scan"
              (hash_staging store space_id upload_id)
        if not (eqb after_size size) || not (equal_fold after_digest digest)
            then pure (block Action.upload_finalize "drive_content_changed_during_scan")
            else pure decision

  -- `EvaluateUpload` of a gate with a store and a scanner.
  unfoldable pub evaluate_with : Local → Scanner → Io Time → Str → Str → Str → Io Decision
  evaluate_with store scanner clock space_id upload_id node_id = do
    hashed ← wrapping "hash staged Drive file" (hash_staging store space_id upload_id)
    let resource = staged_resource space_id node_id hashed
    envelope ← scan_staging store scanner space_id upload_id resource
    now ← clock
    confirm store space_id upload_id hashed (evaluate resource Action.upload_finalize envelope now)

  -- `EvaluateUpload`
  unfoldable pub evaluate_upload : StagedFileGate → Str → Str → Str → Io Decision
  evaluate_upload g space_id upload_id node_id = elim g.store [
    | none ↦ raise (text "Wardveil scan gate unavailable")
    | some store ↦ elim g.scanner [
      | none ↦ raise (text "Wardveil scan gate unavailable")
      | some scanner ↦ evaluate_with store scanner (clock_of g.now) space_id upload_id node_id
    ]
  ]
