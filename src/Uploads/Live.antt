-- ===== src/Uploads/Live.antt =====
-- `Complete` of the upload service where nothing fails: an upload that the gate releases is published.
use goreecloud_drive.Prelude.{ℕ, ◌≡◌, refl, sym, ap, subst, ◌∙◌, false, none, some, List, [], arith}
use goreecloud_drive.Prelude.Text.{Str, str, ◌==◌, ==_iff, ==_refl}
use goreecloud_drive.Prelude.Int.{ℤ}
use goreecloud_drive.Errors.{ok}
use goreecloud_drive.Os.Path.{FilePath, same_path}
use goreecloud_drive.Os.{World, Bytes, plain_call, link, remove, time_now}
use goreecloud_drive.Storage.Local.{staging_path, object_path, finalize}
use goreecloud_drive.Storage.Local.Boundary.{IsClean, objects-IsArea, staging-IsArea}
use goreecloud_drive.Storage.Local.Publish.{areas_differ, finalize_publishes}
use goreecloud_drive.Wardveil.Types.{Decision}
use goreecloud_drive.Wardveil.Gate.{StagedFileGate, Answers, asks, evaluate_upload}
use goreecloud_drive.Wardveil.Gate.Evidence.{evaluate_upload-SameFiles}
use goreecloud_drive.Wardveil.Gate.Live.{IsCalm, IsStaged, IsAnswered, evaluate_upload_live}
use goreecloud_drive.Uploads.Interface.{Session, active, completed, Repository}
use goreecloud_drive.Uploads.{Service, Stored, get, complete, publish, reject_expired, is_expired}
use goreecloud_drive.Uploads.Publication.{wired}

module _ (root : FilePath) (space_id upload_id node_id : Str) (p o : FilePath) (i : ℕ) (w : World)
    (staged : staging_path (some root) space_id upload_id ≡ ok p)
    (final : object_path (some root) space_id node_id ≡ ok o) (apart : same_path o p ≡ false) where
  finalize_live :
      IsCalm w
      → w.links p ≡ some i
      → w.links o ≡ none
      → (finalize (some root) space_id upload_id node_id w).0 ≡ ok tt
  unfolding finalize plain_call link remove
  finalize_live calm at free = ground (arith, calm, at, free, staged, final)

-- An object and staged content have different paths.
object_staging_differ :
    (root : FilePath) (space_id upload_id node_id : Str) (p o : FilePath)
    → IsClean root
    → staging_path (some root) space_id upload_id ≡ ok p
    → object_path (some root) space_id node_id ≡ ok o
    → same_path o p ≡ false
unfolding staging_path object_path ◌==◌
object_staging_differ root sp up node p o rooted hp ho =
    areas_differ root (str "objects") sp node (str "staging") sp up o p rooted objects-IsArea
      staging-IsArea refl ho hp

module _ {R : Type 0} (sha256 : Bytes → List ℕ) (repo : Repository R) (root : FilePath)
    (answers : Answers) (max_chunk ttl : ℤ) (account_id : Str) (session : Session) (p o : FilePath)
    (i : ℕ) (content : Bytes) (now : ℕ) (d : Decision)
    (path : staging_path (some root) session.space_id session.id ≡ ok p) where
  abbrev service : Service R
  service = wired sha256 repo root answers max_chunk ttl

  -- A session that its owner can complete now: it is active and not expired, its node is set, its content
  -- is staged, its object's name is free, and the scanner's answer is released. The repository gives the
  -- session and takes its update.
  pub record IsReady (st : Stored R) : Type 0 where
    pub owner : session.account_id ≡ account_id
    pub open_state : session.state ≡ active
    pub node : (session.node_id == []) ≡ false
    pub fresh : is_expired session now ≡ false
    pub staged :
        IsStaged sha256 (some root) session.space_id session.id p i path content now st.disk
    pub placed : object_path (some root) session.space_id session.node_id ≡ ok o
    pub free : st.disk.links o ≡ none
    pub answered : IsAnswered sha256 session.space_id session.node_id content now answers d
    pub stored : (repo.get session.id st.sessions).0 ≡ ok session
    pub taken :
        (repo.update (record session { state = completed }) (repo.get session.id st.sessions).1).0
        ≡ ok tt

  module _ (st : Stored R) (ready : IsReady st) where
    reject_expired_live :
        (w : Stored R)
        → IsStaged sha256 (some root) session.space_id session.id p i path content now w.disk
        → ((reject_expired (some (some root)) session w).0 ≡ ok tt)
          × IsStaged sha256
              (some root)
              session.space_id
              session.id
              p
              i
              path
              content
              now
              (reject_expired (some (some root)) session w).1.disk
          × ((reject_expired (some (some root)) session w).1.sessions ≡ w.sessions)
          × ((reject_expired (some (some root)) session w).1.disk.links ≡ w.disk.links)
    unfolding reject_expired is_expired time_now
    reject_expired_live w staged = (
      ground (arith, staged, ready.fresh),
      ground (arith, staged, ready.fresh),
      ground (arith, staged, ready.fresh),
      ground (arith, staged, ready.fresh),
    )

    get_live :
        ((get service account_id session.space_id session.id st).0 ≡ ok session)
        × IsStaged sha256
            (some root)
            session.space_id
            session.id
            p
            i
            path
            content
            now
            (get service account_id session.space_id session.id st).1.disk
        × ((get service account_id session.space_id session.id st).1.sessions
            ≡ (repo.get session.id st.sessions).1)
        × ((get service account_id session.space_id session.id st).1.disk.links ≡ st.disk.links)
    unfolding get
    get_live =
        let mid : Stored R = record st { sessions = (repo.get session.id st.sessions).1 } in
        let (passed, staged, same, links) = reject_expired_live mid ready.staged in
        let here = ==_iff session.account_id account_id in
        let space = ==_refl session.space_id in
        (
          ground (arith, ready.stored, ready.owner, here, space),
          subst (IsStaged sha256 (some root) session.space_id session.id p i path content now)
              (ground (arith, ready.stored, ready.owner, here, space)) staged,
          ground (arith, ready.stored, ready.owner, here, space),
          ground (arith, ready.stored, ready.owner, here, space),
        )

    -- The completed session, and its content at its object's path.
    abbrev pub IsDone : Stored R → Type 0
    IsDone st' = (st'.disk.links o ≡ some i) × ((st'.disk.inodes i).content ≡ content)

    publish_live :
        (w : Stored R)
        → IsClean root
        → IsStaged sha256 (some root) session.space_id session.id p i path content now w.disk
        → w.disk.links o ≡ none
        → (repo.update (record session { state = completed }) w.sessions).0 ≡ ok tt
        → ((publish service (some root) repo session.space_id session.id session w).0
            ≡ ok (record session { state = completed }, none))
          × IsDone (publish service (some root) repo session.space_id session.id session w).1
    unfolding publish
    publish_live w rooted staged free taken =
        let (passed, staged1, same, links) = reject_expired_live w staged in
        let w1 = (reject_expired (some (some root)) session w).1 in
        let free1 : w1.disk.links o ≡ none = ap (λ f. f o) links ∙ free in
        let moved =
          finalize_live root session.space_id session.id session.node_id p o i w1.disk path
            ready.placed
            (object_staging_differ root session.space_id session.id session.node_id p o rooted path
              ready.placed)
            staged1.calm staged1.at free1 in
        let (j, from, _, to, _, kept) =
          finalize_publishes root session.space_id session.id session.node_id p o w1.disk rooted
            path ready.placed moved in
        let one : j ≡ i = ground (arith, from, staged1.at) in
        let w2 = (finalize (some root) session.space_id session.id session.node_id w1.disk).1 in
        let whole : (publish service (some root) repo session.space_id session.id session w).1.disk
            ≡ w2 =
          ground (arith, passed, moved, same, taken) in
        (
          ground (arith, passed, moved, same, taken),
          (
            subst (λ x. x.links o ≡ some i) (sym whole) (to ∙ ap some one),
            subst (λ x. (x.inodes i).content ≡ content) (sym whole)
                (ap (λ inodes. (inodes i).content) kept ∙ staged1.holds),
          ),
        )

    -- In the server's wiring over a clean root, where nothing fails any more and the clock stands
    -- still while `Complete` runs, a session that is ready is completed: `Complete` returns it as
    -- completed without an error, and its object's path then has exactly the content that was
    -- staged. Ready is a session that the repository gives to its owner and whose update it takes,
    -- active, not expired, with a node whose object name is free, with staged content, and with an
    -- answer of the scanner about that content that `Evaluate` releases now.
    pub complete_live :
        IsClean root
        → ((complete service account_id session.space_id session.id st).0
            ≡ ok (record session { state = completed }, none))
          × IsDone (complete service account_id session.space_id session.id st).1
    unfolding complete
    complete_live rooted =
        let (got, staged1, same, links) = get_live in
        let st1 = (get service account_id session.space_id session.id st).1 in
        let (decided, staged2) =
          evaluate_upload_live sha256 (some root) session.space_id session.id p i path content now
            st1.disk staged1 answers session.node_id d ready.answered in
        let gate : StagedFileGate = record {
          store = some (some root);
          scanner = some (asks answers);
          now = none;
        } in
        let after =
          evaluate_upload sha256 gate session.space_id session.id session.node_id st1.disk in
        let st2 : Stored R = record st1 { disk = after.1 } in
        let kept =
          evaluate_upload-SameFiles sha256 (some root) session.space_id session.id answers
            session.node_id st1.disk in
        let free : st2.disk.links o ≡ none = ap (λ f. f o) (kept.links ∙ links) ∙ ready.free in
        let taken =
          ap (λ r. (repo.update (record session { state = completed }) r).0) same ∙ ready.taken in
        let (done, published) = publish_live st2 rooted staged2 free taken in
        let whole : complete service account_id session.space_id session.id st
            ≡ publish service (some root) repo session.space_id session.id session st2 =
          ground (arith, got, ready.open_state, ready.node, decided, ready.answered.released) in
        (ap (λ x. x.0) whole ∙ done, subst (λ x. IsDone x.1) (sym whole) published)
