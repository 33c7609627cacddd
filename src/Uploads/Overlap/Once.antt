-- ===== src/Uploads/Overlap/Once.antt =====
-- Two calls of `Complete` of internal/uploads/session.go for one upload, of which one takes effect between
-- the verification and the publication of the other.
use goreecloud_drive.Prelude.{
  Option, ◌≡◌, ◌≢◌, refl, sym, ◌∙◌, ap, none, some, List, ℕ, subst, arith,
}
use goreecloud_drive.Prelude.Text.{Str}
use goreecloud_drive.Prelude.Int.{ℤ}
use goreecloud_drive.Errors.{ok, ok_injective}
use goreecloud_drive.Os.Path.{FilePath}
use goreecloud_drive.Os.{Io, Bytes}
use goreecloud_drive.Storage.Local.{staging_path}
use goreecloud_drive.Storage.Local.Boundary.{IsClean}
use goreecloud_drive.Storage.Local.Publish.{finalize_publishes}
use goreecloud_drive.Wardveil.Types.{Time}
use goreecloud_drive.Wardveil.Gate.{Scanner, evaluate_upload}
use goreecloud_drive.Uploads.Interface.{Session, Repository}
use goreecloud_drive.Uploads.{Service, Stored, complete, publish}
use goreecloud_drive.Uploads.Completion.{finalize_paths, publish_ok, complete_ok}
use goreecloud_drive.Uploads.Publication.{wired_with}
use goreecloud_drive.Uploads.Overlap.{complete_around, complete_around_ok, verified}

-- A publication that succeeds found the staging name, and took it away.
publish-unstaged :
    {R : Type 0} (s : Service R) (repo : Repository R) (root : FilePath)
    → (space_id upload_id : Str) (session : Session) (st : Stored R) (done : Session) → IsClean root
    → let (r, st') = publish s (some root) repo space_id upload_id session st in
      r ≡ ok (done, none)
      → (p : FilePath) × (staging_path (some root) space_id upload_id ≡ ok p)
        × (st.disk.links p ≢ none)
        × (st'.disk.links p ≡ none)
publish-unstaged s repo root sp up session st done rooted h =
    let (w, same, moved, disk, _, _, _) = publish_ok s repo (some root) sp up session st done h in
    let (p, o, path, object) = finalize_paths (some root) sp up session.node_id w moved in
    let (i, from, free, to, gone, kept) =
      finalize_publishes root sp up session.node_id p o w rooted path object moved in
    let linked : st.disk.links p ≡ some i = rw (← same.links) from in
    (p, path, λ unlinked. ground (arith, linked, unlinked), rw disk gone)

module _ {R : Type 0} (sha256 : Bytes → List ℕ) (repo : Repository R) (root : FilePath)
    (scanner : Scanner) (clock : Option (Io Time)) (max_chunk ttl : ℤ)
    (account_id space_id upload_id second : Str) (st : Stored R) (done done' : Session) where
  -- An upload is published once: where a second completion of it succeeds between the gate's decision in
  -- the first and the publication of the first, the first gives an error. The root is clean.
  pub completes_publish_once :
      IsClean root
      → let s = wired_with sha256 repo root scanner clock max_chunk ttl in
        let completes = complete s second space_id upload_id in
        (completes (verified s account_id space_id upload_id st)).0 ≡ ok (done, none)
        → (complete_around s account_id space_id upload_id (λ x. (completes x).1) st).0
          ≢ ok (done', none)
  completes_publish_once rooted inner outer =
      let s = wired_with sha256 repo root scanner clock max_chunk ttl in
      let gate =
        evaluate_upload sha256
          (record { store = some (some root); scanner = some scanner; now = clock }) in
      let mid = verified s account_id space_id upload_id st in
      let (session, _, _, _, _, _, whole) =
        complete_ok s repo (some root) gate refl refl refl second space_id upload_id mid done
          inner in
      let (p, path, _, gone) =
        publish-unstaged s repo root space_id upload_id session _ done rooted
          (sym (ap (λ x. x.0) whole) ∙ inner) in
      let (session', _, _, _, _, _, _, whole') =
        complete_around_ok s repo (some root) gate refl refl refl account_id space_id upload_id
          (λ x. (complete s second space_id upload_id x).1) st done' outer in
      let (p', path', staged, _) =
        publish-unstaged s repo root space_id upload_id session' _ done' rooted
          (sym (ap (λ x. x.0) whole') ∙ outer) in
      let same : p ≡ p' = ok_injective (sym path ∙ path') in
      staged (
        subst (λ q. (complete s second space_id upload_id mid).1.disk.links q ≡ none) same
          (ap (λ x. x.1.disk.links p) whole ∙ gone))
