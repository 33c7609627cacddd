-- ===== src/Authz/Action.antt =====
-- `Action` of internal/authz/policy.go.
use goreecloud_drive.Prelude.Text.{Str, str}

abbrev pub reading : Str
reading = str "read"

abbrev pub listing : Str
listing = str "list"

abbrev pub create_file : Str
create_file = str "create_file"

abbrev pub create_folder : Str
create_folder = str "create_folder"

abbrev pub update : Str
update = str "update"

abbrev pub delete : Str
delete = str "delete"

abbrev pub comment : Str
comment = str "comment"

abbrev pub share : Str
share = str "share"

abbrev pub manage_members : Str
manage_members = str "manage_members"

abbrev pub manage_space : Str
manage_space = str "manage_space"
