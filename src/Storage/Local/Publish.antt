-- ===== src/Storage/Local/Publish.antt =====
-- `Finalize` and `MoveToTrash`: a hard link, then the removal of the old name.
use goreecloud_drive.Prelude.{
  ℕ, ◌≡◌, ◌≢◌, ◌⊎◌, refl, false, none, some, arith, inl, inr, Option-cases,
}
use goreecloud_drive.Prelude.Text.{Str, str, ◌==◌, ==_iff}
use goreecloud_drive.Errors.{ok}
use goreecloud_drive.Os.Path.{FilePath, same_path, same_path_refl, same_path-false}
use goreecloud_drive.Os.{World, plain_call, link, remove}
use goreecloud_drive.Storage.Local.{
  scoped_path, object_path, staging_path, trash_path, finalize, move_to_trash,
}
use goreecloud_drive.Storage.Local.Boundary.{
  IsClean, IsArea, scoped_path_injective, objects-IsArea, staging-IsArea, trash-IsArea,
}

-- Paths of different areas differ.
pub areas_differ :
    (root : FilePath) (a s o a' s' o' : Str) (p p' : FilePath)
    → IsClean root
    → IsArea a
    → IsArea a'
    → (a == a') ≡ false
    → scoped_path (some root) a s o ≡ ok p
    → scoped_path (some root) a' s' o' ≡ ok p'
    → same_path p p' ≡ false
areas_differ root a s o a' s' o' p p' rooted na na' ne h h' = same_path-false p p' λ e.
    let (same, _, _) = scoped_path_injective root a s o a' s' o' p rooted na na' h (rw e h') in
    ground (arith, ==_iff a a')

module _ (root : FilePath) (space_id upload_id node_id : Str) (s o : FilePath) (w : World)
    (staged : staging_path (some root) space_id upload_id ≡ ok s)
    (final : object_path (some root) space_id node_id ≡ ok o) (apart : same_path s o ≡ false) where
  -- Success publishes the staged inode under the object's name, which was free, and takes the staging
  -- name away.
  finalize_inode :
      (finalize (some root) space_id upload_id node_id w).0 ≡ ok tt
      → (i : ℕ) × (w.links s ≡ some i)
        × (w.links o ≡ none)
        × ((finalize (some root) space_id upload_id node_id w).1.links o ≡ some i)
        × ((finalize (some root) space_id upload_id node_id w).1.links s ≡ none)
        × ((finalize (some root) space_id upload_id node_id w).1.inodes ≡ w.inodes)
  unfolding finalize plain_call link remove
  finalize_inode h = elim (Option-cases (w.links s)) [
    | inl missing ↦ absurd (ground arith)
    | inr (i, at) ↦ (
      i,
      at,
      ground arith,
      ground (arith, same_path_refl o),
      ground (arith, same_path_refl s),
      ground arith,
    )
  ]

  -- Whatever happens, an object that is there stays, and so does every content.
  finalize_keeps :
      (i : ℕ)
      → w.links o ≡ some i
      → ((finalize (some root) space_id upload_id node_id w).1.links o ≡ some i)
        × ((finalize (some root) space_id upload_id node_id w).1.inodes ≡ w.inodes)
  unfolding finalize plain_call link remove
  finalize_keeps i at = (ground arith, ground arith)

-- A `Finalize` over a clean root that succeeds: the inode that was staged is now the object, whose
-- name was free, the staging name is gone and no content has changed.
pub finalize_publishes :
    (root : FilePath) (space_id upload_id node_id : Str) (s o : FilePath) (w : World)
    → IsClean root
    → staging_path (some root) space_id upload_id ≡ ok s
    → object_path (some root) space_id node_id ≡ ok o
    → (finalize (some root) space_id upload_id node_id w).0 ≡ ok tt
    → (i : ℕ) × (w.links s ≡ some i)
      × (w.links o ≡ none)
      × ((finalize (some root) space_id upload_id node_id w).1.links o ≡ some i)
      × ((finalize (some root) space_id upload_id node_id w).1.links s ≡ none)
      × ((finalize (some root) space_id upload_id node_id w).1.inodes ≡ w.inodes)
unfolding staging_path object_path ◌==◌
finalize_publishes root sp up node s o w rooted hs ho = finalize_inode root sp up node s o w hs ho (
    areas_differ root (str "staging") sp up (str "objects") sp node s o rooted staging-IsArea
      objects-IsArea refl hs ho)

-- Over a clean root, whatever fails, `Finalize` leaves an object that is already there linked to its
-- inode with every content unchanged: it never replaces an object.
pub finalize_keeps_object :
    (root : FilePath) (space_id upload_id node_id : Str) (s o : FilePath) (w : World) (i : ℕ)
    → IsClean root
    → staging_path (some root) space_id upload_id ≡ ok s
    → object_path (some root) space_id node_id ≡ ok o
    → w.links o ≡ some i
    → ((finalize (some root) space_id upload_id node_id w).1.links o ≡ some i)
      × ((finalize (some root) space_id upload_id node_id w).1.inodes ≡ w.inodes)
unfolding staging_path object_path ◌==◌
finalize_keeps_object root sp up node s o w i rooted hs ho =
    finalize_keeps root sp up node s o w hs ho
      (areas_differ root (str "staging") sp up (str "objects") sp node s o rooted staging-IsArea
        objects-IsArea refl hs ho)
      i

module _ (root : FilePath) (space_id node_id : Str) (o t : FilePath) (w : World)
    (final : object_path (some root) space_id node_id ≡ ok o)
    (trashed : trash_path (some root) space_id node_id ≡ ok t) (apart : same_path o t ≡ false) where
  move_inode :
      (i : ℕ)
      → w.links o ≡ some i
      → ((move_to_trash (some root) space_id node_id w).1.inodes ≡ w.inodes)
        × ((((move_to_trash (some root) space_id node_id w).0 ≡ ok tt)
              × (w.links t ≡ none)
              × ((move_to_trash (some root) space_id node_id w).1.links o ≡ none)
              × ((move_to_trash (some root) space_id node_id w).1.links t ≡ some i))
            ⊎ (((move_to_trash (some root) space_id node_id w).0 ≢ ok tt)
                × ((move_to_trash (some root) space_id node_id w).1.links o ≡ some i)))
  unfolding move_to_trash plain_call link remove
  move_inode i at = (
    ground (arith, same_path_refl o, same_path_refl t),
    ground (arith, same_path_refl o, same_path_refl t),
  )

-- `MoveToTrash` of an object over a clean root: either it succeeds, the trash name was free, and the
-- object's inode is there and no longer under the object's name; or it fails and the object is still
-- in its place. In each case every content is unchanged, so that the payload is never lost.
pub move_to_trash_lem :
    (root : FilePath) (space_id node_id : Str) (o t : FilePath) (w : World) (i : ℕ)
    → IsClean root
    → object_path (some root) space_id node_id ≡ ok o
    → trash_path (some root) space_id node_id ≡ ok t
    → w.links o ≡ some i
    → ((move_to_trash (some root) space_id node_id w).1.inodes ≡ w.inodes)
      × ((((move_to_trash (some root) space_id node_id w).0 ≡ ok tt)
            × (w.links t ≡ none)
            × ((move_to_trash (some root) space_id node_id w).1.links o ≡ none)
            × ((move_to_trash (some root) space_id node_id w).1.links t ≡ some i))
          ⊎ (((move_to_trash (some root) space_id node_id w).0 ≢ ok tt)
              × ((move_to_trash (some root) space_id node_id w).1.links o ≡ some i)))
unfolding object_path trash_path ◌==◌
move_to_trash_lem root sp node o t w i rooted ho ht at =
    move_inode root sp node o t w ho ht
      (areas_differ root (str "objects") sp node (str "trash") sp node o t rooted objects-IsArea
        trash-IsArea refl ho ht)
      i at
