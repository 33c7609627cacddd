-- ===== src/Acceptance/Upload/Compared.antt =====
-- cmd/wardveil-acceptance/main.go: what the comparison of a published object has found.
use goreecloud_drive.Prelude.{ℕ, ◌≡◌, refl, sym, ap, subst, ◌∙◌, none, some, arith, inl, inr}
use goreecloud_drive.Prelude.Text.{Str, ==_iff}
use goreecloud_drive.Errors.{Result-cases, ok}
use goreecloud_drive.Os.{World, Bytes, read_all, plain_call, open_read}
use goreecloud_drive.Os.Path.{FilePath}
use goreecloud_drive.Os.Files.{
  SameFiles, SameFiles-trans, plain_call-SameFiles, read_all-SameFiles, read_all_ok, content_at,
  content_at-SameFiles,
}
use goreecloud_drive.Storage.Local.{Local, object_path, open_object}
use goreecloud_drive.Uploads.Interface.{Session}
use goreecloud_drive.Acceptance.{Sent}
use goreecloud_drive.Acceptance.Upload.{CaseEvidence, compare_published, judge_clean}

open_object_ok :
    (l : Local) (space_id node_id : Str) (w : World) (i : ℕ)
    → (open_object l space_id node_id w).0 ≡ ok i
    → (o : FilePath) × (object_path l space_id node_id ≡ ok o)
      × (w.links o ≡ some i)
      × SameFiles w (open_object l space_id node_id w).1
unfolding open_object open_read
open_object_ok l space_id node_id w i h = elim (Result-cases (object_path l space_id node_id)) [
  | inr (e, failed) ↦ absurd (ground arith)
  | inl (o, placed) ↦ (o, placed, ground arith, ground arith)
]

content_of_link :
    (w : World) (o : FilePath) (i : ℕ) → w.links o ≡ some i → content_at w o ≡ (w.inodes i).content
unfolding content_at
content_of_link w o i at = rw at refl

-- The content of this node's object is exactly this.
abbrev pub HasObject : Local → Str → Str → Bytes → World → Type 0
HasObject l space_id node_id content w =
    (o : FilePath) × (i : ℕ) × (object_path l space_id node_id ≡ ok o)
    × (w.links o ≡ some i)
    × (content_at w o ≡ content)

module _ (l : Local) (sent : Sent) (content : Bytes) (evidence result : CaseEvidence)
    (w : World) where
  compare_published_ok :
      (compare_published l sent content evidence w).0 ≡ ok result
      → HasObject l sent.space_id sent.node_id content
          (compare_published l sent content evidence w).1
        × SameFiles w (compare_published l sent content evidence w).1
  unfolding compare_published
  compare_published_ok h = elim (Result-cases (open_object l sent.space_id sent.node_id w).0) [
    | inr (e, failed) ↦ absurd (ground arith)
    | inl (i, opened) ↦
        let w1 = (open_object l sent.space_id sent.node_id w).1 in
        let (o, placed, at, same) = open_object_ok l sent.space_id sent.node_id w i opened in
        elim (Result-cases (read_all i w1).0) [
          | inr (e, failed) ↦ absurd (ground arith)
          | inl (bytes, read) ↦
              let same1 = read_all-SameFiles i w1 in
              let w2 = (read_all i w1).1 in
              let same2 = plain_call-SameFiles w2 in
              let equal : bytes ≡ content = ground (arith, ==_iff bytes content) in
              let is_content = read_all_ok i w1 read in
              let final : (plain_call w2).1 ≡ (compare_published l sent content evidence w).1 =
                ground arith in
              let whole : SameFiles w (compare_published l sent content evidence w).1 =
                subst (SameFiles w) final (SameFiles-trans same (SameFiles-trans same1 same2)) in
              let here : content_at w o ≡ (w.inodes i).content = content_of_link w o i at in
              (
                (
                  o,
                  i,
                  placed,
                  ap (λ links. links o) whole.links ∙ at,
                  content_at-SameFiles w _ o whole
                      ∙ (here
                          ∙ (ap (λ inodes. (inodes i).content) (sym same.inodes)
                              ∙ (sym is_content ∙ equal))),
                ),
                whole,
              )
        ]
  ]

  pub judge_clean_ok :
      (judge_clean l sent content evidence w).0 ≡ ok result
      → (done : Session) × (sent.outcome ≡ ok (done, none))
        × HasObject l sent.space_id sent.node_id content (judge_clean l sent content evidence w).1
        × SameFiles w (judge_clean l sent content evidence w).1
  unfolding judge_clean
  judge_clean_ok h = elim (Result-cases sent.outcome) [
    | inr (e, failed) ↦ absurd (ground arith)
    | inl ((done, some e), failed) ↦ absurd (ground arith)
    | inl ((done, none), passed) ↦
        let compared : (compare_published l sent content evidence w).0 ≡ ok result = ground arith in
        let last : (judge_clean l sent content evidence w).1
            ≡ (compare_published l sent content evidence w).1 =
          ground arith in
        let (object, same) = compare_published_ok compared in
        (
          done,
          passed,
          subst (HasObject l sent.space_id sent.node_id content) (sym last) object,
          subst (SameFiles w) (sym last) same,
        )
  ]
