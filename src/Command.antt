-- ===== src/Command.antt =====
-- cmd/server/main.go: the server that the configuration starts. Its run is in Lifecycle; the log
-- is I/O. Files outside the store are parameters, as are those of the components.
pub mod Started
pub mod Lifecycle
use goreecloud_drive.Prelude.{
  ℕ, ◌%◌, ◌≡◌, refl, sym, subst, eqb_iff, ap, ◌∙◌, Bool, true, not, Option, none, some, List, [],
  ◌∷◌, length, ltb, eqb, arith, inl, inr, Bool-cases, if◌then◌else◌,
}
use goreecloud_drive.Prelude.Text.{Str, ◌==◌, trim_space, contains_any}
use goreecloud_drive.Prelude.Int.{pos}
use goreecloud_drive.Errors.{text, wrap, Result, Result-cases, ok, err}
use goreecloud_drive.Os.{World, Bytes}
use goreecloud_drive.Os.Path.{FilePath}
use goreecloud_drive.Storage.Local.{Local, new_local, ensure_layout}
use goreecloud_drive.Storage.Local.Boundary.{IsClean, new_local-IsClean}
use goreecloud_drive.Storage.StateFile.{JsonCodec}
use goreecloud_drive.Wardveil.Types.{Time, ScanRequest}
use goreecloud_drive.Wardveil.Gate.{Answers, asks, evaluate_upload}
use goreecloud_drive.Wardveil.HttpScanner.{
  Network, HttpScannerConfig, HttpScanner, new_http_scanner, http_scan,
}
use goreecloud_drive.Wardveil.HttpScanner.Exchange.{
  IsLoopbackScanner, new_http_scanner-IsLoopbackScanner,
}
use goreecloud_drive.Quarantine
use goreecloud_drive.Uploads
use goreecloud_drive.Uploads.Memory.{Sessions, memory_repository}
use goreecloud_drive.Uploads.Publication.{wired}
use goreecloud_drive.Config.{Config, Parsers, Environment, load, IsSafe, load-IsSafe}
use goreecloud_drive.Http.Server.{Dependencies}

pub record FileInfo : Type 0 where
  pub is_regular : Bool
  pub permissions : ℕ

-- What one call of `Scan` draws: the time, and the bytes of rand.Read for its two tokens.
pub record Draws : Type 0 where
  pub clock : Time
  pub nonce_random : Option Bytes
  pub correlation_random : Option Bytes

-- The surroundings of the command; the draws may differ from request to request.
pub record Surroundings : Type 0 where
  pub parsers : Parsers
  pub env : Environment
  pub cwd : FilePath
  pub stat : Str → Result FileInfo
  pub read_file : Str → Result Bytes
  pub net : Network
  pub draws : ScanRequest → Draws
  pub sha256 : Bytes → List ℕ
  pub codec : JsonCodec

-- `loadWardveilScanSecret`. The permissions of group and others are the lower six bits.
unfoldable pub load_wardveil_scan_secret : Surroundings → Str → Result Str
load_wardveil_scan_secret x path = elim (x.stat path) [
  | err e ↦ err (wrap "stat Wardveil Scan secret file" e)
  | ok info ↦
      if not info.is_regular
      then err (text "Wardveil Scan secret file must be regular")
      else if not (eqb (info.permissions % 64) 0)
      then err
          (text "Wardveil Scan secret file must not be readable or writable by group or others")
      else elim (x.read_file path) [
        | err e ↦ err (wrap "read Wardveil Scan secret file" e)
        | ok raw ↦
            let secret = trim_space raw in
            if ltb 4096 (length raw)
            then err (text "Wardveil Scan secret file exceeds 4096 bytes")
            else if secret == []
            then err (text "Wardveil Scan secret file is empty")
            else if contains_any secret (13 ∷ 10 ∷ [])
            then err (text "Wardveil Scan secret file must contain one credential value")
            else ok secret
      ]
]

-- What `main` builds: the dependencies of the server, and the upload service where uploads are enabled.
pub record Running : Type 0 where
  pub config : Config
  pub deps : Dependencies (Unit {0})
  pub uploads : Option (Uploads.Service Sessions)

-- The scanner as the gate sees it.
abbrev pub scanner_of : Surroundings → HttpScanner → Answers
scanner_of x s request body =
    let d = x.draws request in
    http_scan x.net d.clock d.nonce_random d.correlation_random (some s) request (some body)

abbrev pub scanner_config : Config → Str → HttpScannerConfig
scanner_config cfg secret = record {
  endpoint = cfg.wardveil_scan_endpoint;
  caller_id = cfg.wardveil_scan_caller_id;
  key_id = cfg.wardveil_scan_key_id;
  secret = secret;
  timeout = pos 0;
  max_response_bytes = pos 0;
  now = none;
  nonce = none;
  correlation_id = none;
}

abbrev pub server_deps : Surroundings → Config → Local → Dependencies (Unit {0})
server_deps x cfg store = record {
  principals = none;
  memberships = none;
  nodes = none;
  quarantine = some (record {
    apply = Quarantine.apply x.codec (some store);
    read = Quarantine.read x.codec (some store);
  });
  wardveil_service_token = cfg.wardveil_service_token;
}

abbrev pub upload_service_of :
    Surroundings → Config → Local → HttpScanner → Uploads.Service Sessions
upload_service_of x cfg store s = record {
  repo = some memory_repository;
  store = some store;
  security = some (
      evaluate_upload x.sha256
        (record { store = some store; scanner = some (asks (scanner_of x s)); now = none }));
  max_chunk = cfg.upload_max_chunk_bytes;
  ttl = cfg.upload_session_ttl;
}

-- Of `main`: the server over a store.
unfoldable pub build_server : Surroundings → Config → Local → Result Running
build_server x cfg store =
    if not cfg.uploads_enabled
    then ok (record { config = cfg; deps = server_deps x cfg store; uploads = none })
    else elim (load_wardveil_scan_secret x cfg.wardveil_scan_secret_file) [
      | err e ↦ err e
      | ok secret ↦ elim (new_http_scanner x.net (scanner_config cfg secret)) [
        | err e ↦ err e
        | ok s ↦ ok (record {
          config = cfg;
          deps = server_deps x cfg store;
          uploads = some (upload_service_of x cfg store s);
        })
      ]
    ]

-- `main` up to the listener; an error is an exit.
unfoldable pub start : Surroundings → World → Result Running × World
start x w = elim (load x.parsers x.env) [
  | err e ↦ (err e, w)
  | ok cfg ↦ elim (new_local x.cwd cfg.data_dir) [
    | err e ↦ (err e, w)
    | ok store ↦
        let (made, w') = ensure_layout store w in
        elim made [ err e ↦ (err e, w') | ok _ ↦ (build_server x cfg store, w') ]
  ]
]
