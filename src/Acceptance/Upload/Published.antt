-- ===== src/Acceptance/Upload/Published.antt =====
-- cmd/wardveil-acceptance/main.go: what a clean case that passes has published.
use goreecloud_drive.Prelude.{
  ℕ, ◌^◌, ◌*◌, ◌≡◌, refl, sym, ap, subst, ◌∙◌, false, Option, none, some, List, [], arith, inl, inr,
}
use goreecloud_drive.Prelude.Text.{Str, ==_refl}
use goreecloud_drive.Prelude.Int.{pos}
use goreecloud_drive.Errors.{Result, Result-cases, ok}
use goreecloud_drive.Os.{World, Bytes, Reader}
use goreecloud_drive.Os.Path.{FilePath}
use goreecloud_drive.Wardveil.Gate.{Scanner}
use goreecloud_drive.Uploads
use goreecloud_drive.Uploads.Interface.{Session}
use goreecloud_drive.Uploads.Memory.{
  Sessions, IsKeyed, memory_create, memory_get, memory_update, memory_repository,
  memory_create-IsKeyed, memory_update-IsKeyed,
}
use goreecloud_drive.Uploads.Creation.{create_ok}
use goreecloud_drive.Uploads.Access.{get_ok}
use goreecloud_drive.Uploads.Progress.{append_ok}
use goreecloud_drive.Acceptance.{stage_upload, service_of, account}

-- The new repository of a case, after one `Create`, and after an `Update` of that session.
created_session :
    (s found : Session) → (memory_get s.id (memory_create s (λ _. none)).1).0 ≡ ok found → found ≡ s
unfolding memory_get memory_create
created_session s found h = ground (arith, ==_refl s.id)

updated_session :
    (s found : Session) (r : Sessions)
    → (memory_update s r).0 ≡ ok tt
    → (memory_get s.id (memory_update s r).1).0 ≡ ok found
    → found ≡ s
unfolding memory_get memory_update
updated_session s found r updated h = ground (arith, ==_refl s.id)

get_same : (id : Str) (r : Sessions) → (memory_get id r).1 ≡ r
unfolding memory_get
get_same id r = ground arith

module _ (sha256 : Bytes → List ℕ) (root : FilePath) (scanner : Scanner) (random : Option (List ℕ))
    (space_id node_id name : Str) (content : Bytes) (w : World) (session : Session) where
  abbrev case_service : Uploads.Service Sessions
  case_service = service_of sha256 (some root) scanner none

  abbrev staged : Result Session × Uploads.Stored Sessions
  staged =
      stage_upload case_service random space_id node_id name content
        (record { disk = w; sessions = λ _. none })

  -- The session that is staged is stored, under its ID, for the node.
  pub stage_upload_ok :
      staged.0 ≡ ok session
      → IsKeyed staged.1.sessions
        × ((found : Session)
            → (memory_get session.id staged.1.sessions).0 ≡ ok found
            → found.node_id ≡ node_id)
  unfolding stage_upload
  stage_upload_ok h =
      let fresh : Uploads.Stored Sessions = record { disk = w; sessions = λ _. none } in
      let made = Uploads.create case_service random account space_id node_id [] name fresh in
      elim (Result-cases made.0) [
        | inr (e, failed) ↦ absurd (ground arith)
        | inl (new, created) ↦
            let is_new =
              create_ok case_service memory_repository random account space_id node_id [] name fresh
                new refl created in
            let reader : Reader = record { bytes = content; broken = false } in
            let appended =
              Uploads.append case_service account space_id new.id (pos 0) (some reader) made.1 in
            elim (Result-cases appended.0) [
              | inr (e, failed) ↦ absurd (ground arith)
              | inl ((advanced, some e), grown) ↦ absurd (ground arith)
              | inl ((advanced, none), grown) ↦
                  let (before, n, got, _, _, _, adv, _, updated, kept) =
                    append_ok case_service memory_repository (some root) (8 * 2 ^ 20) refl refl refl
                      account space_id new.id (pos 0) reader made.1 advanced grown in
                  let (stored, _, _, _, read) =
                    get_ok case_service memory_repository (some root) refl refl account space_id
                      new.id made.1 before got in
                  let r1 = (Uploads.get case_service account space_id new.id made.1).1.sessions in
                  let r1_is : r1 ≡ (memory_create new (λ _. none)).1 =
                    read ∙ (get_same new.id made.1.sessions ∙ is_new.kept) in
                  let same : before ≡ new =
                    created_session new before
                      (ap (λ r. (memory_get new.id r).0) (sym is_new.kept) ∙ stored) in
                  let id_is : advanced.id ≡ new.id = ap (λ s. s.id) adv ∙ ap (λ s. s.id) same in
                  let node_is : advanced.node_id ≡ node_id =
                    ap (λ s. s.node_id) adv ∙ (ap (λ s. s.node_id) same ∙ is_new.node) in
                  let last : staged.1.sessions ≡ appended.1.sessions = ground arith in
                  let final : staged.1.sessions ≡ (memory_update advanced r1).1 = last ∙ kept in
                  let chosen : session ≡ new = ground arith in
                  let named : session.id ≡ advanced.id = ap (λ s. s.id) chosen ∙ sym id_is in
                  let keyed : IsKeyed r1 =
                    subst IsKeyed (sym r1_is)
                      (memory_create-IsKeyed new (λ _. none) (λ k s g. absurd (ground arith))) in
                  (
                    subst IsKeyed (sym final) (memory_update-IsKeyed advanced r1 keyed),
                    λ found there.
                        ap (λ s. s.node_id)
                          (updated_session advanced found r1 updated (
                            ap (λ r. (memory_get advanced.id r).0) (sym final)
                            ∙ (ap (λ id. (memory_get id staged.1.sessions).0) (sym named) ∙ there)))
                        ∙ node_is,
                  )
            ]
      ]
