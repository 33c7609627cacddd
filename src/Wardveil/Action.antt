-- ===== src/Wardveil/Action.antt =====
-- `Action` of internal/wardveil/scan.go: a string type with these constants.
use goreecloud_drive.Prelude.Text.{Str, str}

abbrev pub upload_finalize : Str
upload_finalize = str "upload_finalize"

abbrev pub opening : Str
opening = str "open"

abbrev pub download : Str
download = str "download"

abbrev pub share : Str
share = str "share"

abbrev pub restore_release : Str
restore_release = str "restore_release"
