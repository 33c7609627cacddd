-- ===== src/Authz/Role.antt =====
-- `Role` of internal/authz/policy.go.
use goreecloud_drive.Prelude.Text.{Str, str}

abbrev pub owner : Str
owner = str "owner"

abbrev pub manager : Str
manager = str "manager"

abbrev pub editor : Str
editor = str "editor"

abbrev pub contributor : Str
contributor = str "contributor"

abbrev pub commenter : Str
commenter = str "commenter"

abbrev pub viewer : Str
viewer = str "viewer"

abbrev pub drop_only : Str
drop_only = str "drop_only"
