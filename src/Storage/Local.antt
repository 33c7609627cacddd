-- ===== src/Storage/Local.antt =====
-- internal/storage/local.go. A `*Local` is its root; `none` is a nil pointer or an empty root.
pub mod Boundary
pub mod Publish
use goreecloud_drive.Prelude.{
  ℕ, String, Bool, true, false, not, ◌&&◌, ◌||◌, Option, none, some, List, [], ◌∷◌, ◌++◌, length,
  ltb, leb, if◌then◌else◌,
}
use goreecloud_drive.Prelude.Text.{Str, str, ◌==◌, trim_space, has_prefix}
use goreecloud_drive.Errors.{Error, is, text, wrap, Result, ok, err, errors_is, os_exist}
use goreecloud_drive.Os.Path.{FilePath, clean, components, rel}
use goreecloud_drive.Os.{
  Io, pure, raise, lift, attempt, wrapping, relabelling, ◌>>=◌, ◌>>◌, plain_call, link, remove,
  open_read,
}
use goreecloud_drive.Ids.{valid_storage_id}

abbrev pub Local : Type 0
Local = Option FilePath

-- `NewLocal`; `cwd` is the working directory that filepath.Abs reads. A text that begins with a
-- slash is absolute.
unfoldable pub new_local : FilePath → Str → Result Local
new_local cwd root =
    if trim_space root == []
    then err (text "storage root must not be empty")
    else if has_prefix root (str "/")
    then ok (some (clean (components root)))
    else ok (some (clean (cwd ++ components root)))

-- The test that a relative path stays under its base: `.`, a `../` in front, or absolute.
unfoldable pub escapes : FilePath → Bool
escapes [] = true
escapes (c ∷ []) = false
escapes (c ∷ d ∷ cs) = c == str ".."

-- `scopedPath`
unfoldable pub scoped_path : Local → Str → Str → Str → Result FilePath
scoped_path none area scope_id object_id = err (text "storage backend is unavailable")
scoped_path (some root) area scope_id object_id =
    if not (valid_storage_id scope_id) || not (valid_storage_id object_id)
    then err (text "storage identifiers must be canonical UUIDs")
    else let path =
        clean (root ++ (components area ++ (components scope_id ++ components object_id))) in
      let base = clean (root ++ components area) in
      if escapes (rel base path)
      then err (text "storage path escaped configured boundary")
      else ok path

-- `ObjectPath`, `StagingPath`, `TrashPath`, and of quarantine.go `QuarantinePath` and
-- `QuarantineStatePath`
unfoldable pub object_path : Local → Str → Str → Result FilePath
object_path l = scoped_path l (str "objects")

unfoldable pub staging_path : Local → Str → Str → Result FilePath
staging_path l = scoped_path l (str "staging")

unfoldable pub trash_path : Local → Str → Str → Result FilePath
trash_path l = scoped_path l (str "trash")

unfoldable pub quarantine_path : Local → Str → Str → Result FilePath
quarantine_path l = scoped_path l (str "quarantine")

unfoldable pub quarantine_state_path : Local → Str → Str → Result FilePath
quarantine_state_path l = scoped_path l (str "quarantine-state")

-- `EnsureLayout`: one MkdirAll for each area.
unfoldable pub ensure_dirs : List Str → Io (Unit {0})
ensure_dirs [] = pure tt
ensure_dirs (name ∷ names) = wrapping "create directory" plain_call >> ensure_dirs names

unfoldable pub ensure_layout : Local → Io (Unit {0})
ensure_layout none = raise (text "storage backend is unavailable")
ensure_layout (some root) =
    ensure_dirs
      (str "objects" ∷ str "staging" ∷ str "trash" ∷ str "quarantine" ∷ str "quarantine-state" ∷ [])

-- The error of a failed link: `errors.Is(err, os.ErrExist)` has a message of its own.
abbrev pub link_error : String → String → Error → Error
link_error taken message e = if errors_is e os_exist then text taken else wrap message e

-- `Finalize`
unfoldable pub finalize : Local → Str → Str → Str → Io (Unit {0})
unfolding staging_path object_path
finalize l space_id upload_id node_id = do
  staging ← lift (staging_path l space_id upload_id)
  object ← lift (object_path l space_id node_id)
  wrapping "create object scope" plain_call
  relabelling (link_error "finalized object already exists" "publish finalized object")
      (link staging object)
  wrapping "remove finalized staging object" (remove staging)

-- `MoveToTrash`
unfoldable pub move_to_trash : Local → Str → Str → Io (Unit {0})
unfolding object_path trash_path
move_to_trash l space_id node_id = do
  object ← lift (object_path l space_id node_id)
  trash ← lift (trash_path l space_id node_id)
  wrapping "create trash scope" plain_call
  relabelling (link_error "trash object already exists" "publish trash object") (link object trash)
  wrapping "remove active object after trash publish" (remove object)

-- `OpenObject`
unfoldable pub open_object : Local → Str → Str → Io ℕ
unfolding object_path
open_object l space_id node_id = do
  path ← lift (object_path l space_id node_id)
  wrapping "open finalized object" (open_read path)
