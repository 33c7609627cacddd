-- ===== src/Tests/Fixtures.antt =====
-- The data that the tests share: identifiers, a small disk and a session on it.
use goreecloud_drive.Prelude.{true, none, some, [], ◌∷◌, if◌then◌else◌}
use goreecloud_drive.Prelude.Text.{Str, str}
use goreecloud_drive.Os.Path.{FilePath, same_path}
use goreecloud_drive.Os.{World, Bytes}

abbrev pub space_id : Str
space_id = str "00000000-0000-4000-8000-0000000000aa"

abbrev pub node_id : Str
node_id = str "00000000-0000-4000-8000-0000000000bb"

abbrev pub upload_id : Str
upload_id = str "00000000-0000-4000-8000-0000000000cc"

abbrev pub account_id : Str
account_id = str "00000000-0000-4000-8000-0000000000dd"

abbrev pub root : FilePath
root = str "data" ∷ []

abbrev pub staging : FilePath
staging = str "data" ∷ str "staging" ∷ space_id ∷ upload_id ∷ []

abbrev pub object : FilePath
object = str "data" ∷ str "objects" ∷ space_id ∷ node_id ∷ []

abbrev pub trash : FilePath
trash = str "data" ∷ str "trash" ∷ space_id ∷ node_id ∷ []

-- A disk with one file, and nothing that fails.
abbrev pub disk_with : FilePath → Bytes → World
disk_with path content = record {
  links = λ p. if same_path path p then some 0 else none;
  inodes = λ _. record { regular = true; content = content };
  next = 1;
  faults = [];
  stat_faults = [];
  now = 1000;
  ticks = [];
  suffixes = [];
}
