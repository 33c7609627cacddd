-- ===== src/Wardveil/Gate/Live.antt =====
-- `EvaluateUpload` of internal/wardveil/scan.go where nothing fails: a scanner that answers is heard.
use goreecloud_drive.Prelude.{
  ℕ, ◌≡◌, refl, subst, true, none, some, List, [], ◌∷◌, arith, length, eqb_iff,
}
use goreecloud_drive.Prelude.Text.{Str}
use goreecloud_drive.Errors.{ok}
use goreecloud_drive.Os.Path.{FilePath}
use goreecloud_drive.Os.{World, Bytes, read_all, plain_call, time_now, open_read, stat_inode}
use goreecloud_drive.Storage.Local.{Local, staging_path}
use goreecloud_drive.Storage.Session.{open_staging}
use goreecloud_drive.Wardveil.Action
use goreecloud_drive.Wardveil.Types.{Decision, FileResource, ScanEnvelope}
use goreecloud_drive.Wardveil.Scan.{evaluate, equal_fold, lower}
use goreecloud_drive.Wardveil.Gate.{
  Answers, asks, digest_of, hash_staging, scan_staging, confirm, evaluate_with, evaluate_upload,
  staged_resource, scan_request,
}

equal_fold_refl : (a : Str) → equal_fold a a ≡ true
unfolding equal_fold
equal_fold_refl [] = refl
equal_fold_refl (c ∷ s) = ground (arith, equal_fold_refl s, eqb_iff (lower c) (lower c))

-- No call fails any more, and the clock stands still.
pub record IsCalm (w : World) : Type 0 where
  pub no_faults : w.faults ≡ []
  pub no_stat_faults : w.stat_faults ≡ []
  pub no_ticks : w.ticks ≡ []

-- A scanner that answers with an envelope that `Evaluate` releases at this time.
pub record IsAnswered (sha256 : Bytes → List ℕ) (space_id node_id : Str) (content : Bytes) (now : ℕ)
    (answers : Answers) (d : Decision) : Type 0 where
  pub envelope : ScanEnvelope
  pub given :
      answers
        (scan_request sha256
          (staged_resource sha256 space_id node_id (digest_of sha256 content, length content)))
        (ok content)
      ≡ ok envelope
  pub judged :
      evaluate
        (staged_resource sha256 space_id node_id (digest_of sha256 content, length content))
        Action.upload_finalize
        envelope
        now
      ≡ d
  pub released : d.can_release ≡ true

module _ (sha256 : Bytes → List ℕ) (l : Local) (space_id upload_id : Str) (p : FilePath) (i : ℕ)
    (path : staging_path l space_id upload_id ≡ ok p) where
  -- The staged file, and its content.
  pub record IsStaged (content : Bytes) (now : ℕ) (w : World) : Type 0 where
    pub calm : IsCalm w
    pub at : w.links p ≡ some i
    pub regular : (w.inodes i).regular ≡ true
    pub holds : (w.inodes i).content ≡ content
    pub clock : w.now ≡ now

  module _ (content : Bytes) (now : ℕ) (w : World) (staged : IsStaged content now w) where
    open_staging_live :
        ((open_staging l space_id upload_id w).0 ≡ ok i)
        × IsStaged content now (open_staging l space_id upload_id w).1
    unfolding open_staging open_read stat_inode
    open_staging_live = ground (arith, path, staged.calm, staged.at, staged.regular, staged.holds)

    read_all_live : ((read_all i w).0 ≡ ok content) × IsStaged content now (read_all i w).1
    unfolding read_all
    read_all_live = ground (arith, staged.calm, staged.at, staged.regular, staged.holds)

    plain_call_live : ((plain_call w).0 ≡ ok tt) × IsStaged content now (plain_call w).1
    unfolding plain_call
    plain_call_live = ground (arith, staged.calm, staged.at, staged.regular, staged.holds)

    time_now_live : ((time_now w).0 ≡ ok now) × IsStaged content now (time_now w).1
    unfolding time_now
    time_now_live = ground (arith, staged.calm, staged.at, staged.regular, staged.holds)

  module _ (content : Bytes) (now : ℕ) (w : World) (staged : IsStaged content now w) where
    hash_staging_live :
        ((hash_staging sha256 l space_id upload_id w).0
          ≡ ok (digest_of sha256 content, length content))
        × IsStaged content now (hash_staging sha256 l space_id upload_id w).1
    unfolding hash_staging
    hash_staging_live =
        let (opened, s1) = open_staging_live content now w staged in
        let w1 = (open_staging l space_id upload_id w).1 in
        let (read, s2) = read_all_live content now w1 s1 in
        let w2 = (read_all i w1).1 in
        let (closed, s3) = plain_call_live content now w2 s2 in
        (ground arith, subst (IsStaged content now) (ground arith) s3)

    scan_staging_live :
        (answers : Answers) (r : FileResource) (envelope : ScanEnvelope)
        → answers (scan_request sha256 r) (ok content) ≡ ok envelope
        → ((scan_staging sha256 l (asks answers) space_id upload_id r w).0 ≡ ok envelope)
          × IsStaged content now (scan_staging sha256 l (asks answers) space_id upload_id r w).1
    unfolding scan_staging
    scan_staging_live answers r envelope answered =
        let (opened, s1) = open_staging_live content now w staged in
        let w1 = (open_staging l space_id upload_id w).1 in
        let (read, s2) = read_all_live content now w1 s1 in
        let w2 = (read_all i w1).1 in
        let (closed, s3) = plain_call_live content now w2 s2 in
        (ground arith, subst (IsStaged content now) (ground arith) s3)

    confirm_live :
        (d : Decision)
        → d.can_release ≡ true
        → ((confirm sha256 l space_id upload_id (digest_of sha256 content, length content) d w).0
            ≡ ok d)
          × IsStaged content now
              (confirm sha256 l space_id upload_id (digest_of sha256 content, length content) d w).1
    unfolding confirm
    confirm_live d released =
        let (hashed, s1) = hash_staging_live in
        (
          ground (
            arith,
            equal_fold_refl (digest_of sha256 content),
            eqb_iff (length content) (length content),
          ),
          subst (IsStaged content now)
              (ground (
                arith,
                equal_fold_refl (digest_of sha256 content),
                eqb_iff (length content) (length content),
              ))
              s1,
        )

  pub evaluate_upload_live :
      (content : Bytes) (now : ℕ) (w : World) (staged : IsStaged content now w) (answers : Answers)
      → (node_id : Str) (d : Decision) → IsAnswered sha256 space_id node_id content now answers d
      → ((evaluate_upload sha256
            (record { store = some l; scanner = some (asks answers); now = none })
            space_id
            upload_id
            node_id
            w).0
          ≡ ok d)
        × IsStaged content now
            (evaluate_upload sha256
              (record { store = some l; scanner = some (asks answers); now = none })
              space_id
              upload_id
              node_id
              w).1
  unfolding evaluate_upload evaluate_with
  evaluate_upload_live content now w staged answers node_id d a =
      let r = staged_resource sha256 space_id node_id (digest_of sha256 content, length content) in
      let (first, s1) = hash_staging_live content now w staged in
      let w1 = (hash_staging sha256 l space_id upload_id w).1 in
      let (scanned, s2) = scan_staging_live content now w1 s1 answers r a.envelope a.given in
      let w2 = (scan_staging sha256 l (asks answers) space_id upload_id r w1).1 in
      let (read, s3) = time_now_live content now w2 s2 in
      let w3 = (time_now w2).1 in
      let (confirmed, s4) = confirm_live content now w3 s3 d a.released in
      (ground (arith, a.judged), subst (IsStaged content now) (ground (arith, a.judged)) s4)
