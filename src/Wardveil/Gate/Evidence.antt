-- ===== src/Wardveil/Gate/Evidence.antt =====
-- `EvaluateUpload` of internal/wardveil/scan.go: what a decision of the gate rests on.
use goreecloud_drive.Prelude.{
  ℕ, ◌≡◌, refl, subst, ◌+◌, ◌∙◌, true, none, some, List, arith, length, inl, inr,
}
use goreecloud_drive.Prelude.Text.{Str}
use goreecloud_drive.Errors.{Result, Result-cases, ok}
use goreecloud_drive.Os.Path.{FilePath}
use goreecloud_drive.Os.{World, Bytes, read_all, time_now, next_tick}
use goreecloud_drive.Os.Files.{
  SameFiles, plain_call-SameFiles, read_all-SameFiles, read_all_ok, time_now-SameFiles, content_at,
  content_of,
}
use goreecloud_drive.Storage.Local.{Local, staging_path}
use goreecloud_drive.Storage.Session.{open_staging}
use goreecloud_drive.Storage.Session.Reading.{open_staging-SameFiles, open_staging_ok}
use goreecloud_drive.Wardveil.Action
use goreecloud_drive.Wardveil.Types.{Decision, FileResource, ScanEnvelope, Time}
use goreecloud_drive.Wardveil.Scan.{evaluate}
use goreecloud_drive.Wardveil.Gate.{
  Answers, asks, digest_of, hash_staging, scan_staging, confirm, evaluate_with, evaluate_upload,
  staged_resource, scan_request,
}

pub SameFiles-refl : (w : World) → SameFiles w w
SameFiles-refl w = record { links = refl; inodes = refl }

pub SameFiles-trans : {u v w : World} → SameFiles u v → SameFiles v w → SameFiles u w
SameFiles-trans a b = record { links = b.links ∙ a.links; inodes = b.inodes ∙ a.inodes }

module _ (sha256 : Bytes → List ℕ) (l : Local) (space_id upload_id : Str) where
  pub hash_staging-SameFiles :
      (w : World) → SameFiles w (hash_staging sha256 l space_id upload_id w).1
  unfolding hash_staging
  hash_staging-SameFiles w =
      let (r, w1) = open_staging l space_id upload_id w in
      grind (
        arith,
        open_staging-SameFiles l space_id upload_id w,
        read_all-SameFiles,
        plain_call-SameFiles,
      )

  pub hash_staging_ok :
      (w : World) (d : Str) (n : ℕ)
      → (hash_staging sha256 l space_id upload_id w).0 ≡ ok (d, n)
      → (p : FilePath) × (staging_path l space_id upload_id ≡ ok p)
        × (d ≡ digest_of sha256 (content_at w p))
        × (n ≡ length (content_at w p))
  unfolding hash_staging content_at
  hash_staging_ok w d n h = elim (Result-cases (open_staging l space_id upload_id w).0) [
    | inr (e, failed) ↦ absurd (ground arith)
    | inl (i, opened) ↦
        let w1 = (open_staging l space_id upload_id w).1 in
        let (p, path, at) = open_staging_ok l space_id upload_id w i opened in
        let same = open_staging-SameFiles l space_id upload_id w in
        elim (Result-cases (read_all i w1).0) [
          | inr (e, failed) ↦ absurd (ground arith)
          | inl (b, copied) ↦
              let content : b ≡ content_of w (w.links p) =
                read_all_ok i w1 copied ∙ rw (same.inodes, at) in
              (p, path, ground arith, ground arith)
        ]
  ]

  scan_staging-SameFiles :
      (scanner : Answers) (r : FileResource) (w : World)
      → SameFiles w (scan_staging sha256 l (asks scanner) space_id upload_id r w).1
  unfolding scan_staging
  scan_staging-SameFiles scanner r w = grind (
    arith,
    open_staging-SameFiles l space_id upload_id w,
    read_all-SameFiles,
    plain_call-SameFiles,
  )

  -- An envelope comes from the scanner, asked about this resource.
  scan_staging_ok :
      (scanner : Answers) (r : FileResource) (w : World) (e : ScanEnvelope)
      → (scan_staging sha256 l (asks scanner) space_id upload_id r w).0 ≡ ok e
      → (read : Result Bytes) × (scanner (scan_request sha256 r) read ≡ ok e)
  unfolding scan_staging
  scan_staging_ok scanner r w e h = elim (Result-cases (open_staging l space_id upload_id w).0) [
    | inr (x, failed) ↦ absurd (ground arith)
    | inl (i, opened) ↦
        let w1 = (open_staging l space_id upload_id w).1 in ((read_all i w1).0, ground arith)
  ]

  confirm-SameFiles :
      (hashed : Str × ℕ) (d : Decision) (w : World)
      → SameFiles w (confirm sha256 l space_id upload_id hashed d w).1
  unfolding confirm
  confirm-SameFiles hashed d w = grind (arith, hash_staging-SameFiles w)

  confirm_release :
      (hashed : Str × ℕ) (d d' : Decision) (w : World)
      → (confirm sha256 l space_id upload_id hashed d w).0 ≡ ok d'
      → d'.can_release ≡ true
      → d.can_release ≡ true
  unfolding confirm
  confirm_release hashed d d' w h rel = ground arith

  module _ (scanner : Answers) (node_id : Str) where
    evaluate_with-SameFiles :
        (w : World)
        → SameFiles w
            (evaluate_with sha256 l (asks scanner) time_now space_id upload_id node_id w).1
    unfolding evaluate_with
    evaluate_with-SameFiles w = grind (
      arith,
      hash_staging-SameFiles w,
      scan_staging-SameFiles,
      time_now-SameFiles,
      confirm-SameFiles,
    )

    -- What a decision to release rests on, for the content `c`.
    abbrev IsReleasedAs : Str × ℕ → Type 0
    IsReleasedAs hashed =
        let r = staged_resource sha256 space_id node_id hashed in
        (read : Result Bytes) × (envelope : ScanEnvelope) × (now : Time) × (scanner
            (scan_request sha256 r) read
          ≡ ok envelope)
        × ((evaluate r Action.upload_finalize envelope now).can_release ≡ true)

    abbrev pub IsReleased : Bytes → Type 0
    IsReleased c = IsReleasedAs (digest_of sha256 c, length c)

    evaluate_with_release :
        (w : World) (d : Decision)
        → (evaluate_with sha256 l (asks scanner) time_now space_id upload_id node_id w).0 ≡ ok d
        → d.can_release ≡ true
        → (p : FilePath) × (staging_path l space_id upload_id ≡ ok p) × IsReleased (content_at w p)
    unfolding evaluate_with time_now
    evaluate_with_release w d h rel =
        elim (Result-cases (hash_staging sha256 l space_id upload_id w).0) [
          | inr (x, failed) ↦ absurd (ground arith)
          | inl ((digest, size), hashed) ↦
              let w1 = (hash_staging sha256 l space_id upload_id w).1 in
              let r = staged_resource sha256 space_id node_id (digest, size) in
              let (p, path, digest_eq, size_eq) = hash_staging_ok w digest size hashed in
              elim (Result-cases (scan_staging sha256 l (asks scanner) space_id upload_id r w1).0) [
                | inr (x, failed) ↦ absurd (ground arith)
                | inl (envelope, scanned) ↦
                    let w2 = (scan_staging sha256 l (asks scanner) space_id upload_id r w1).1 in
                    let (read, asked) = scan_staging_ok scanner r w1 envelope scanned in
                    let w3 = (time_now w2).1 in
                    let now : Time = w2.now + (next_tick w2.ticks).0 in
                    let judged = evaluate r Action.upload_finalize envelope now in
                    let released : IsReleasedAs (digest, size) = (
                      read,
                      envelope,
                      now,
                      asked,
                      ground (arith, confirm_release (digest, size) judged d w3),
                    ) in
                    (
                      p,
                      path,
                      subst (λ n. IsReleasedAs (digest_of sha256 (content_at w p), n)) size_eq
                          (subst (λ s. IsReleasedAs (s, size)) digest_eq released),
                    )
              ]
        ]

    pub evaluate_upload-SameFiles :
        (w : World)
        → SameFiles w
            (evaluate_upload sha256
              (record { store = some l; scanner = some (asks scanner); now = none })
              space_id
              upload_id
              node_id
              w).1
    unfolding evaluate_upload
    evaluate_upload-SameFiles = evaluate_with-SameFiles

    -- If the gate with this store and scanner decides to release, the scanner was asked about the digest
    -- and size of the staged content, and `Evaluate` releases the envelope that it answered.
    pub evaluate_upload_release :
        (w : World) (d : Decision)
        → (evaluate_upload sha256
            (record { store = some l; scanner = some (asks scanner); now = none })
            space_id
            upload_id
            node_id
            w).0
          ≡ ok d
        → d.can_release ≡ true
        → (p : FilePath) × (staging_path l space_id upload_id ≡ ok p) × IsReleased (content_at w p)
    unfolding evaluate_upload
    evaluate_upload_release = evaluate_with_release
