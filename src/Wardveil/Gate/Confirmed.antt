-- ===== src/Wardveil/Gate/Confirmed.antt =====
-- `EvaluateUpload` of internal/wardveil/scan.go with a scanner that may change anything on the disk while
-- it runs: the second hash of the staged content.
use goreecloud_drive.Prelude.{
  ℕ, ◌≡◌, subst, ap₂, true, Option, some, List, arith, length, inl, inr, eqb_iff,
}
use goreecloud_drive.Prelude.Text.{Str}
use goreecloud_drive.Errors.{Result, Result-cases, ok}
use goreecloud_drive.Os.Path.{FilePath}
use goreecloud_drive.Os.{World, Io, Bytes, read_all}
use goreecloud_drive.Os.Files.{SameFiles, read_all-SameFiles, content_at, content_at-SameFiles}
use goreecloud_drive.Storage.Local.{Local, staging_path}
use goreecloud_drive.Storage.Session.{open_staging}
use goreecloud_drive.Storage.Session.Reading.{open_staging-SameFiles}
use goreecloud_drive.Wardveil.Action
use goreecloud_drive.Wardveil.Types.{Decision, FileResource, ScanEnvelope, Time}
use goreecloud_drive.Wardveil.Scan.{evaluate, equal_fold}
use goreecloud_drive.Wardveil.Gate.{
  Scanner, clock_of, digest_of, hash_staging, scan_staging, confirm, evaluate_with, evaluate_upload,
  staged_resource, scan_request,
}
use goreecloud_drive.Wardveil.Gate.Evidence.{
  SameFiles-trans, hash_staging-SameFiles, hash_staging_ok,
}

-- The content has the size, and the digest up to the case of its letters.
abbrev pub IsHashedAs : (Bytes → List ℕ) → Str × ℕ → Bytes → Type 0
IsHashedAs sha256 (digest, size) content =
    (length content ≡ size) × (equal_fold (digest_of sha256 content) digest ≡ true)

module _ (sha256 : Bytes → List ℕ) (l : Local) (space_id upload_id : Str) where
  -- A release that is confirmed: the content now is the content that was hashed first.
  confirm_ok :
      (digest : Str) (size : ℕ) (d d' : Decision) (w : World)
      → (confirm sha256 l space_id upload_id (digest, size) d w).0 ≡ ok d'
      → d'.can_release ≡ true
      → (d ≡ d')
        × (p : FilePath) × (staging_path l space_id upload_id ≡ ok p)
        × IsHashedAs sha256
            (digest, size)
            (content_at (confirm sha256 l space_id upload_id (digest, size) d w).1 p)
  unfolding confirm
  confirm_ok digest size d d' w h rel =
      let same = hash_staging-SameFiles sha256 l space_id upload_id w in
      elim (Result-cases (hash_staging sha256 l space_id upload_id w).0) [
        | inr (x, failed) ↦ absurd (ground arith)
        | inl ((after_digest, after_size), hashed) ↦
            let (p, path, digest_eq, size_eq) =
              hash_staging_ok sha256 l space_id upload_id w after_digest after_size hashed in
            let w' = (hash_staging sha256 l space_id upload_id w).1 in
            let kept = content_at-SameFiles w w' p same in
            (
              ground arith,
              p,
              path,
              (ground (arith, eqb_iff after_size size), ground (arith, eqb_iff after_size size)),
            )
      ]

  module _ (scanner : Scanner) where
    -- An envelope comes from the scanner, which found the files as they were.
    scan_staging_asked :
        (r : FileResource) (w : World) (e : ScanEnvelope)
        → (scan_staging sha256 l scanner space_id upload_id r w).0 ≡ ok e
        → (read : Result Bytes) × (seen : World) × SameFiles w seen
          × ((scanner (scan_request sha256 r) read seen).0 ≡ ok e)
    unfolding scan_staging
    scan_staging_asked r w e h = elim (Result-cases (open_staging l space_id upload_id w).0) [
      | inr (x, failed) ↦ absurd (ground arith)
      | inl (i, opened) ↦
          let w1 = (open_staging l space_id upload_id w).1 in
          let w2 = (read_all i w1).1 in
          let asked = scanner (scan_request sha256 r) (read_all i w1).0 w2 in
          elim (Result-cases asked.0) [
            | inr (x, failed) ↦ absurd (ground arith)
            | inl (answer, given) ↦ (
              (read_all i w1).0,
              w2,
              SameFiles-trans (open_staging-SameFiles l space_id upload_id w)
                  (read_all-SameFiles i w1),
              ground arith,
            )
          ]
    ]

    module _ (node_id : Str) (w w' : World) (d : Decision) where
      -- What a release between `w` and `w'` rests on: the staged content that was there first was hashed,
      -- the scanner was asked about its digest and size before any file had changed, `Evaluate` makes the
      -- decision of its envelope, and what is staged at the end still has that size and digest.
      pub record IsConfirmed : Type 0 where
        pub path : FilePath
        pub staged : staging_path l space_id upload_id ≡ ok path
        pub read : Result Bytes
        pub envelope : ScanEnvelope
        pub now : Time
        pub seen : World
        pub before : SameFiles w seen
        pub hashed : Str × ℕ
        pub first : hashed ≡ (digest_of sha256 (content_at w path), length (content_at w path))
        pub asked :
            (scanner
              (scan_request sha256 (staged_resource sha256 space_id node_id hashed))
              read
              seen).0
            ≡ ok envelope
        pub judged :
            evaluate
              (staged_resource sha256 space_id node_id hashed)
              Action.upload_finalize
              envelope
              now
            ≡ d
        pub unchanged : IsHashedAs sha256 hashed (content_at w' path)

    module _ (clock : Option (Io Time)) (node_id : Str) (w : World) (d : Decision) where
      evaluate_with-IsConfirmed :
          (evaluate_with sha256 l scanner (clock_of clock) space_id upload_id node_id w).0 ≡ ok d
          → d.can_release ≡ true
          → IsConfirmed node_id w
              (evaluate_with sha256 l scanner (clock_of clock) space_id upload_id node_id w).1
              d
      unfolding evaluate_with
      evaluate_with-IsConfirmed h rel =
          elim (Result-cases (hash_staging sha256 l space_id upload_id w).0) [
            | inr (x, failed) ↦ absurd (ground arith)
            | inl ((digest, size), hashed) ↦
                let w1 = (hash_staging sha256 l space_id upload_id w).1 in
                let r = staged_resource sha256 space_id node_id (digest, size) in
                let (p, path, digest_eq, size_eq) =
                  hash_staging_ok sha256 l space_id upload_id w digest size hashed in
                elim (Result-cases (scan_staging sha256 l scanner space_id upload_id r w1).0) [
                  | inr (x, failed) ↦ absurd (ground arith)
                  | inl (envelope, scanned) ↦
                      let w2 = (scan_staging sha256 l scanner space_id upload_id r w1).1 in
                      let (read, seen, same, asked) = scan_staging_asked r w1 envelope scanned in
                      elim (Result-cases (clock_of clock w2).0) [
                        | inr (x, failed) ↦ absurd (ground arith)
                        | inl (now, read_clock) ↦
                            let w3 = (clock_of clock w2).1 in
                            let judged = evaluate r Action.upload_finalize envelope now in
                            let (kept, q, again, unchanged) =
                              confirm_ok digest size judged d w3 (ground arith) rel in
                            let one : q ≡ p = ground (arith, again, path) in
                            let w' : World =
                              (confirm sha256 l space_id upload_id (digest, size) judged w3).1 in
                            let last : w'
                                ≡ (evaluate_with sha256 l scanner (clock_of clock) space_id
                                    upload_id node_id w).1 =
                              ground arith in
                            record {
                              path = p;
                              staged = path;
                              read = read;
                              envelope = envelope;
                              now = now;
                              seen = seen;
                              before =
                                  SameFiles-trans
                                    (hash_staging-SameFiles sha256 l space_id upload_id w) same;
                              hashed = (digest, size);
                              first = ap₂ (λ a b. (a, b)) digest_eq size_eq;
                              asked = asked;
                              judged = kept;
                              unchanged =
                                  subst (λ x. IsHashedAs sha256 (digest, size) (content_at x p))
                                    last
                                    (subst (λ o. IsHashedAs sha256 (digest, size) (content_at w' o))
                                      one unchanged);
                            }
                      ]
                ]
          ]

      -- Whatever the scanner does to the disk, a decision of the gate to release the content was made from
      -- the scanner's answer about the digest and size of the staged content as it was before the scan, and
      -- when the gate returns the staged content still has that size and that digest.
      pub evaluate_upload-IsConfirmed :
          (evaluate_upload sha256
              (record { store = some l; scanner = some scanner; now = clock })
              space_id
              upload_id
              node_id
              w).0
            ≡ ok d
          → d.can_release ≡ true
          → IsConfirmed node_id w
              (evaluate_upload sha256
                (record { store = some l; scanner = some scanner; now = clock })
                space_id
                upload_id
                node_id
                w).1
              d
      unfolding evaluate_upload
      evaluate_upload-IsConfirmed = evaluate_with-IsConfirmed
