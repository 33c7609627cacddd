-- ===== src/Wardveil/ScanResult.antt =====
-- `Result` of internal/wardveil/scan.go: a string type with these constants; a scanner may send any
-- other text.
use goreecloud_drive.Prelude.Text.{Str, str}

abbrev pub clean : Str
clean = str "clean"

abbrev pub suspicious : Str
suspicious = str "suspicious"

abbrev pub malicious : Str
malicious = str "malicious"

abbrev pub unknown : Str
unknown = str "unknown"

abbrev pub unsupported : Str
unsupported = str "unsupported"
