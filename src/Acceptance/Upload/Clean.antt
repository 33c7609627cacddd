-- ===== src/Acceptance/Upload/Clean.antt =====
-- cmd/wardveil-acceptance/main.go: what a clean case that passes has published.
use goreecloud_drive.Prelude.{
  ℕ, ◌*◌, ◌^◌, ◌≡◌, sym, ap, ap₂, subst, ◌∙◌, true, none, some, List, arith, inl, inr,
}
use goreecloud_drive.Prelude.Text.{Str, str}
use goreecloud_drive.Prelude.Int.{pos}
use goreecloud_drive.Errors.{Result, Result-cases, ok, ok_injective}
use goreecloud_drive.Os.{World, Bytes}
use goreecloud_drive.Os.Path.{FilePath}
use goreecloud_drive.Os.Files.{SameFiles, SameFiles-trans, content_at, content_at-SameFiles}
use goreecloud_drive.Storage.Local.{object_path, staging_path}
use goreecloud_drive.Storage.Local.Boundary.{IsClean}
use goreecloud_drive.Wardveil.Action
use goreecloud_drive.Wardveil.Scan.{evaluate}
use goreecloud_drive.Wardveil.Types.{Time, ScanRequest, ScanEnvelope}
use goreecloud_drive.Wardveil.Gate.{Scanner, scan_request, staged_resource}
use goreecloud_drive.Wardveil.Gate.Confirmed.{IsHashedAs}
use goreecloud_drive.Uploads
use goreecloud_drive.Uploads.Interface.{Session}
use goreecloud_drive.Uploads.Memory.{Sessions, memory_repository, memory-IsRepository}
use goreecloud_drive.Uploads.Confirmed.{IsReleasedObject, complete_publishes_confirmed}
use goreecloud_drive.Acceptance.{
  Randoms, Sent, send_upload, stage_upload, service_of, acceptance_uuid, account, exists,
}
use goreecloud_drive.Acceptance.Blocked.Held.{exists-SameFiles}
use goreecloud_drive.Acceptance.Upload.{CaseEvidence, observed, judge_clean, run_upload_case}
use goreecloud_drive.Acceptance.Upload.Published.{stage_upload_ok}
use goreecloud_drive.Acceptance.Upload.Compared.{HasObject, judge_clean_ok}

-- What a clean case that passes leaves behind: the object of the new node in the new Space is exactly the
-- content, and the scanner was asked about its digest and size and answered with an envelope that `Evaluate`
-- releases.
pub record IsCleanRelease (sha256 : Bytes → List ℕ) (root : FilePath) (scanner : Scanner)
    (random : Randoms) (content : Bytes) (w : World) : Type 0 where
  pub space_id : Str
  pub node_id : Str
  pub space_drawn : acceptance_uuid random.space ≡ ok space_id
  pub node_drawn : acceptance_uuid random.node ≡ ok node_id
  pub object : HasObject (some root) space_id node_id content w
  pub hashed : Str × ℕ
  pub about : IsHashedAs sha256 hashed content
  pub read : Result Bytes
  pub seen : World
  pub envelope : ScanEnvelope
  pub now : Time
  pub asked :
      (scanner (scan_request sha256 (staged_resource sha256 space_id node_id hashed)) read seen).0
      ≡ ok envelope
  pub released :
      (evaluate
        (staged_resource sha256 space_id node_id hashed)
        Action.upload_finalize
        envelope
        now).can_release
      ≡ true

module _ (sha256 : Bytes → List ℕ) (root : FilePath) (scanner : Scanner) (random : Randoms)
    (content : Bytes) (rooted : IsClean root) (w : World) where
  abbrev service : Uploads.Service Sessions
  service = service_of sha256 (some root) scanner none

  abbrev Release : Session → Uploads.Stored Sessions → Uploads.Stored Sessions → Str → Str → Type 0
  Release session st st' space_id upload_id =
      IsReleasedObject sha256 memory_repository root scanner none (pos (8 * 2 ^ 20))
        (pos 600000000000) account space_id upload_id session st st'

  -- The upload that was sent, where `Complete` gave no error.
  record IsSent (sent : Sent) (w' : World) : Type 0 where
    space_drawn : acceptance_uuid random.space ≡ ok sent.space_id
    node_drawn : acceptance_uuid random.node ≡ ok sent.node_id
    session : Session
    st : Uploads.Stored Sessions
    st' : Uploads.Stored Sessions
    space : session.space_id ≡ sent.space_id
    node : session.node_id ≡ sent.node_id
    final : st'.disk ≡ w'
    released : Release session st st' sent.space_id sent.upload_id

  send_upload-IsSent :
      (name : Str) (sent : Sent) (done : Session)
      → (send_upload service random name content w).0 ≡ ok sent
      → sent.outcome ≡ ok (done, none)
      → IsSent sent (send_upload service random name content w).1
  unfolding send_upload
  send_upload-IsSent name sent done h passed = elim (Result-cases (acceptance_uuid random.space)) [
    | inr (e, failed) ↦ absurd (ground arith)
    | inl (space_id, space) ↦ elim (Result-cases (acceptance_uuid random.node)) [
      | inr (e, failed) ↦ absurd (ground arith)
      | inl (node_id, node) ↦
          let fresh : Uploads.Stored Sessions = record { disk = w; sessions = λ _. none } in
          let staged = stage_upload service random.upload space_id node_id name content fresh in
          elim (Result-cases staged.0) [
            | inr (e, failed) ↦ absurd (ground arith)
            | inl (new, created) ↦
                let (keyed, found_node) =
                  stage_upload_ok sha256 root scanner random.upload space_id node_id name content w
                    new created in
                let completion = Uploads.complete service account space_id new.id staged.1 in
                let done_is : completion.0 ≡ ok (done, none) = ground arith in
                let (session, stored, owner, space_is, act, completes, released) =
                  complete_publishes_confirmed sha256 memory_repository root scanner none
                    (pos (8 * 2 ^ 20)) (pos 600000000000) account space_id new.id
                    memory-IsRepository staged.1 done rooted keyed done_is in
                let in_space : space_id ≡ sent.space_id = ground arith in
                let at_node : node_id ≡ sent.node_id = ground arith in
                let as_upload : new.id ≡ sent.upload_id = ground arith in
                record {
                  space_drawn = space ∙ ap ok in_space;
                  node_drawn = node ∙ ap ok at_node;
                  session = session;
                  st = staged.1;
                  st' = completion.1;
                  space = space_is ∙ in_space;
                  node = found_node session stored ∙ at_node;
                  final = ground arith;
                  released = subst (Release session staged.1 completion.1 sent.space_id) as_upload (
                      subst (λ sp. Release session staged.1 completion.1 sp new.id) in_space
                        released);
                }
          ]
    ]
  ]

  abbrev request_about : Str → Str → Str × ℕ → ScanRequest
  request_about space_id node_id hashed =
      scan_request sha256 (staged_resource sha256 space_id node_id hashed)

  clean_release :
      (sent : Sent) (w' : World)
      → IsSent sent w'
      → (final : World) → HasObject (some root) sent.space_id sent.node_id content final
      → SameFiles w' final
      → IsCleanRelease sha256 root scanner random content final
  clean_release sent w' s final (o, i, placed, at, exact) same =
      let r = s.released in
      let c = r.confirmed in
      let same_object : r.object ≡ o =
        ok_injective
          (sym r.placed ∙ (ap (object_path (some root) sent.space_id) s.node ∙ placed)) in
      let content_is : content_at s.st'.disk r.object ≡ content =
        ap₂ content_at s.final same_object ∙ (sym (content_at-SameFiles w' final o same) ∙ exact) in
      let old : Str × Str = (s.session.space_id, s.session.node_id) in
      let new : Str × Str = (sent.space_id, sent.node_id) in
      let scope : old ≡ new = ap₂ (λ a b. (a, b)) s.space s.node in
      record {
        space_id = sent.space_id;
        node_id = sent.node_id;
        space_drawn = s.space_drawn;
        node_drawn = s.node_drawn;
        object = (o, i, placed, at, exact);
        hashed = c.hashed;
        about = subst (IsHashedAs sha256 c.hashed) content_is r.published;
        read = c.read;
        seen = c.seen;
        envelope = c.envelope;
        now = c.now;
        asked =
            subst (λ q. (scanner (request_about q.0 q.1 c.hashed) c.read c.seen).0 ≡ ok c.envelope)
              scope c.asked;
        released =
            subst
              (λ q.
                (evaluate (staged_resource sha256 q.0 q.1 c.hashed) Action.upload_finalize
                  c.envelope c.now).can_release
                ≡ true)
              scope (ap (λ d. d.can_release) c.judged ∙ r.released);
      }

  -- A clean case that passes, whatever its scanner does, leaves at the object path of the new node exactly
  -- the content that was sent; and the scanner, asked about the size and (up to the case of its letters)
  -- the digest of that content, gave an envelope that `Evaluate` releases. The root is clean.
  pub run_upload_case-IsCleanRelease :
      (evidence : CaseEvidence)
      → (run_upload_case sha256 (some root) scanner random content true w).0 ≡ ok evidence
      → IsCleanRelease sha256 root scanner random content
          (run_upload_case sha256 (some root) scanner random content true w).1
  unfolding run_upload_case
  run_upload_case-IsCleanRelease evidence h =
      let upload = send_upload service random (str "acceptance.bin") content w in
      elim (Result-cases upload.0) [
        | inr (e, failed) ↦ absurd (ground arith)
        | inl (sent, given) ↦
            elim (Result-cases (object_path (some root) sent.space_id sent.node_id)) [
              | inr (e, failed) ↦ absurd (ground arith)
              | inl (o, placed) ↦
                  elim (Result-cases (staging_path (some root) sent.space_id sent.upload_id)) [
                    | inr (e, failed) ↦ absurd (ground arith)
                    | inl (p, staged) ↦
                        let w1 = upload.1 in
                        let w2 = (exists o w1).1 in
                        elim (Result-cases (exists o w1).0) [
                          | inr (e, failed) ↦ absurd (ground arith)
                          | inl (published, seen) ↦ elim (Result-cases (exists p w2).0) [
                            | inr (e, failed) ↦ absurd (ground arith)
                            | inl (held, looked) ↦
                                let w3 = (exists p w2).1 in
                                let facts = observed sent.last published held in
                                let judged : (judge_clean (some root) sent content facts w3).0
                                    ≡ ok evidence =
                                  ground arith in
                                let final : (run_upload_case sha256 (some root) scanner random
                                      content true w).1
                                    ≡ (judge_clean (some root) sent content facts w3).1 =
                                  ground arith in
                                let (done, passed, object, same) =
                                  judge_clean_ok (some root) sent content facts evidence w3
                                    judged in
                                clean_release sent _
                                  (send_upload-IsSent (str "acceptance.bin") sent done given passed)
                                  _
                                  (subst (HasObject (some root) sent.space_id sent.node_id content)
                                    (sym final) object)
                                  (subst (SameFiles w1) (sym final) (
                                    SameFiles-trans (exists-SameFiles o w1)
                                      (SameFiles-trans (exists-SameFiles p w2) same)))
                          ]
                        ]
                  ]
            ]
      ]
