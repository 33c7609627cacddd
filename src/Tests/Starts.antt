-- ===== src/Tests/Starts.antt =====
-- A start of the server with uploads.
use goreecloud_drive.Prelude.{◌≡◌, refl, true, false, none, some, [], ◌∷◌, replicate, if◌then◌else◌}
use goreecloud_drive.Prelude.Text.{str, ◌==◌, trim_space, contains_any, has_prefix, split}
use goreecloud_drive.Prelude.Int.{pos}
use goreecloud_drive.Errors.{ok}
use goreecloud_drive.Os.{plain_call}
use goreecloud_drive.Os.Path.{clean}
use goreecloud_drive.Storage.Local.{new_local, ensure_dirs, ensure_layout}
use goreecloud_drive.Wardveil.ScanText.{valid_scan_token, token_bytes, random_scan_token}
use goreecloud_drive.Wardveil.HttpScanner.{
  HttpScanner, validate_scan_endpoint, scanner_at, new_http_scanner,
}
use goreecloud_drive.Uploads
use goreecloud_drive.Uploads.Memory.{Sessions}
use goreecloud_drive.Config.{
  Config, Environment, env_or, setting, checked_config, config_of, load, is_loopback_host, IsSafe,
}
use goreecloud_drive.Command.{
  Surroundings, Running, load_wardveil_scan_secret, build_server, server_deps, upload_service_of,
  start,
}
use goreecloud_drive.Command.Started.{IsWired, start_lem}
use goreecloud_drive.Tests.Fixtures.{staging, disk_with}
use goreecloud_drive.Tests.Exchanges.{network, loopback_url}
use goreecloud_drive.Tests.Isolation.{codec}

-- Uploads are enabled, and all else is by default.
abbrev env : Environment
env key =
    if key == str "GC_DRIVE_UPLOADS_ENABLED"
    then str "true"
    else if key == str "GC_DRIVE_WARDVEIL_SCAN_SECRET_FILE"
    then str "/etc/drive/secret"
    else []

abbrev pub surroundings : Surroundings
surroundings = record {
  parsers = record {
    parse_bool = λ _. some true;
    parse_duration = λ _. none;
    split_host_port = λ _. some (str "localhost");
    parse_ip = λ _. none;
  };
  env = env;
  cwd = [];
  stat = λ _. ok (record { is_regular = true; permissions = 0x180 });
  read_file = λ _. ok (replicate 40 b's');
  net = network;
  draws = λ _. record { clock = 0; nonce_random = none; correlation_random = none };
  sha256 = λ bytes. bytes;
  codec = codec;
}

abbrev config : Config
config = config_of env false true (pos 10000000000) (pos 8388608) (pos 86400000000000)

abbrev scanner : HttpScanner
scanner = record {
  endpoint = loopback_url;
  caller_id = str "goreecloud-drive";
  key_id = str "scan-current";
  secret = replicate 40 b's';
  timeout = pos 35000000000;
  max_response_bytes = pos 1048576;
  now = λ clock. clock;
  nonce = random_scan_token (str "drive-nonce");
  correlation_id = random_scan_token (str "drive-scan");
}

abbrev pub running : Running
running = record {
  config = config;
  deps = server_deps surroundings config (some (str "data" ∷ []));
  uploads = some (upload_service_of surroundings config (some (str "data" ∷ [])) scanner);
}

pub start_run : (start surroundings (disk_with staging [])).0 ≡ ok running
unfolding start load setting env_or checked_config is_loopback_host new_local ensure_layout
    ensure_dirs plain_call build_server load_wardveil_scan_secret new_http_scanner
    validate_scan_endpoint scanner_at valid_scan_token token_bytes trim_space contains_any
    has_prefix clean split ◌==◌
start_run = refl

start_lem_example :
    IsSafe surroundings.parsers running.config
    × (running.deps.principals ≡ none)
    × ((s : Uploads.Service Sessions) → running.uploads ≡ some s → IsWired surroundings running s)
start_lem_example = start_lem surroundings (disk_with staging []) running start_run
