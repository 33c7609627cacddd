-- ===== src/Config.antt =====
-- internal/config/config.go: the configuration from the environment, a function that gives the empty
-- text for a variable that is not set. The parsers of the standard library are parameters, but ParseInt.
use goreecloud_drive.Prelude.{
  ◌*◌, ◌≡◌, ◌≢◌, refl, sym, ap, ◌∙◌, Bool, true, false, not, ◌&&◌, ◌||◌, Option, none, some, [],
  arith, inl, inr, Option-cases, if◌then◌else◌,
}
use goreecloud_drive.Prelude.Text.{Str, str, ◌==◌, ==_iff}
use goreecloud_drive.Prelude.Int.{ℤ, pos, leb_ℤ}
use goreecloud_drive.Prelude.Decimal.{parse_int}
use goreecloud_drive.Errors.{text, wrap, Result, Result-cases, ok, err}
use goreecloud_drive.Wardveil.HttpScanner.{Ip}

-- `Config`; durations are nanoseconds.
pub record Config : Type 0 where
  pub bind : Str
  pub data_dir : Str
  pub web_dir : Str
  pub allow_public_bind : Bool
  pub shutdown_timeout : ℤ
  pub wardveil_service_token : Str
  pub uploads_enabled : Bool
  pub upload_max_chunk_bytes : ℤ
  pub upload_session_ttl : ℤ
  pub wardveil_scan_endpoint : Str
  pub wardveil_scan_caller_id : Str
  pub wardveil_scan_key_id : Str
  pub wardveil_scan_secret_file : Str

-- strconv.ParseBool, time.ParseDuration, the host of net.SplitHostPort, and net.ParseIP.
pub record Parsers : Type 0 where
  pub parse_bool : Str → Option Bool
  pub parse_duration : Str → Option ℤ
  pub split_host_port : Str → Option Str
  pub parse_ip : Str → Option Ip

abbrev pub Environment : Type 0
Environment = Str → Str

-- `envOr`
unfoldable pub env_or : Environment → Str → Str → Str
env_or env key fallback = if env key == [] then fallback else env key

-- A variable with a parser: its default where it is not set, an error where it is malformed.
unfoldable pub setting : {A : Type 0} → (Str → Option A) → A → Str → Result A
setting parse fallback raw =
    if raw == []
    then ok fallback
    else elim (parse raw) [ none ↦ err (text "malformed setting") | some value ↦ ok value ]

abbrev pub positive : Option ℤ → Option ℤ
positive none = none
positive (some value) = if leb_ℤ value (pos 0) then none else some value

abbrev loopback_ip : Option Ip → Bool
loopback_ip none = false
loopback_ip (some ip) = ip.is_loopback

-- `isLoopbackHost`
unfoldable pub is_loopback_host : Parsers → Str → Bool
is_loopback_host parsers host =
    if host == str "localhost" then true else loopback_ip (parsers.parse_ip host)

-- The last tests of `Load`.
unfoldable pub checked_config : Parsers → Config → Result Config
checked_config parsers cfg =
    if cfg.data_dir == [] || cfg.web_dir == []
    then err (text "data and web directories must not be empty")
    else elim (parsers.split_host_port cfg.bind) [
      | none ↦ err (wrap "GC_DRIVE_BIND" (text "malformed address"))
      | some host ↦
          if not cfg.allow_public_bind && not (is_loopback_host parsers host)
          then err (text "refusing non-loopback bind")
          else if cfg.uploads_enabled && cfg.wardveil_scan_secret_file == []
          then err (text "GC_DRIVE_WARDVEIL_SCAN_SECRET_FILE is required when uploads are enabled")
          else ok cfg
    ]

infixl 5 ◌>>=◌
abbrev ◌>>=◌ : {A B : Type 0} → Result A → (A → Result B) → Result B
◌>>=◌ (ok a) f = f a
◌>>=◌ (err e) f = err e

-- The configuration with the settings that are parsed.
abbrev pub config_of : Environment → Bool → Bool → ℤ → ℤ → ℤ → Config
config_of env allow_public_bind uploads_enabled shutdown_timeout upload_max_chunk_bytes
      upload_session_ttl =
    record {
      bind = env_or env (str "GC_DRIVE_BIND") (str "127.0.0.1:8080");
      data_dir = env_or env (str "GC_DRIVE_DATA_DIR") (str "./data");
      web_dir = env_or env (str "GC_DRIVE_WEB_DIR") (str "./web");
      allow_public_bind = allow_public_bind;
      shutdown_timeout = shutdown_timeout;
      wardveil_service_token = env (str "GC_DRIVE_WARDVEIL_SERVICE_TOKEN");
      uploads_enabled = uploads_enabled;
      upload_max_chunk_bytes = upload_max_chunk_bytes;
      upload_session_ttl = upload_session_ttl;
      wardveil_scan_endpoint =
          env_or env (str "GC_DRIVE_WARDVEIL_SCAN_ENDPOINT") (str "http://127.0.0.1:8791/v1/scan");
      wardveil_scan_caller_id =
          env_or env (str "GC_DRIVE_WARDVEIL_SCAN_CALLER_ID") (str "goreecloud-drive");
      wardveil_scan_key_id = env_or env (str "GC_DRIVE_WARDVEIL_SCAN_KEY_ID") (str "scan-current");
      wardveil_scan_secret_file = env (str "GC_DRIVE_WARDVEIL_SCAN_SECRET_FILE");
    }

-- `Load`
unfoldable pub load : Parsers → Environment → Result Config
load parsers env = do
  allow_public_bind ← setting parsers.parse_bool false (env (str "GC_DRIVE_ALLOW_PUBLIC_BIND"))
  uploads_enabled ← setting parsers.parse_bool false (env (str "GC_DRIVE_UPLOADS_ENABLED"))
  shutdown_timeout ←
      setting (λ raw. positive (parsers.parse_duration raw)) (pos (10 * 1000000000))
        (env (str "GC_DRIVE_SHUTDOWN_TIMEOUT"))
  upload_max_chunk_bytes ←
      setting (λ raw. positive (parse_int raw)) (pos (8 * 1048576))
        (env (str "GC_DRIVE_UPLOAD_MAX_CHUNK_BYTES"))
  upload_session_ttl ←
      setting (λ raw. positive (parsers.parse_duration raw)) (pos (24 * 3600 * 1000000000))
        (env (str "GC_DRIVE_UPLOAD_SESSION_TTL"))
  checked_config parsers (
      config_of env allow_public_bind uploads_enabled shutdown_timeout upload_max_chunk_bytes
        upload_session_ttl)

-- What `Load` accepts: a bind to a loopback host unless a public one is allowed, positive limits, a
-- secret file where uploads are enabled.
pub record IsSafe (parsers : Parsers) (cfg : Config) : Type 0 where
  pub host : Str
  pub bound : parsers.split_host_port cfg.bind ≡ some host
  pub local : cfg.allow_public_bind ≡ false → is_loopback_host parsers host ≡ true
  pub secret : cfg.uploads_enabled ≡ true → cfg.wardveil_scan_secret_file ≢ []
  pub chunk : leb_ℤ cfg.upload_max_chunk_bytes (pos 0) ≡ false
  pub ttl : leb_ℤ cfg.upload_session_ttl (pos 0) ≡ false
  pub timeout : leb_ℤ cfg.shutdown_timeout (pos 0) ≡ false

setting-positive :
    (parse : Str → Option ℤ) (fallback value : ℤ) (raw : Str)
    → leb_ℤ fallback (pos 0) ≡ false
    → setting (λ text. positive (parse text)) fallback raw ≡ ok value
    → leb_ℤ value (pos 0) ≡ false
unfolding setting
setting-positive parse fallback value raw h e = elim (Option-cases (parse raw)) [
  | inl bad ↦ ground arith
  | inr (v, read) ↦ ground arith
]

checked_config_ok :
    (parsers : Parsers) (given cfg : Config)
    → checked_config parsers given ≡ ok cfg
    → (given ≡ cfg)
      × (host : Str) × (parsers.split_host_port cfg.bind ≡ some host)
      × (cfg.allow_public_bind ≡ false → is_loopback_host parsers host ≡ true)
      × (cfg.uploads_enabled ≡ true → cfg.wardveil_scan_secret_file ≢ [])
unfolding checked_config
checked_config_ok parsers given cfg h = elim (Option-cases (parsers.split_host_port given.bind)) [
  | inl bad ↦ absurd (ground arith)
  | inr (host, split) ↦
      let same : given ≡ cfg = ground arith in
      (
        same,
        host,
        ap (λ c. parsers.split_host_port c.bind) (sym same) ∙ split,
        λ private_bind. ground arith,
        λ enabled missing. ground (arith, ==_iff given.wardveil_scan_secret_file []),
      )
]

-- What `Load` accepts is safe.
pub load-IsSafe :
    (parsers : Parsers) (env : Environment) (cfg : Config)
    → load parsers env ≡ ok cfg
    → IsSafe parsers cfg
unfolding load
load-IsSafe parsers env cfg h =
    let duration = λ (fallback : ℤ) (key : Str).
      setting (λ raw. positive (parsers.parse_duration raw)) fallback (env key) in
    let bytes =
      setting (λ raw. positive (parse_int raw)) (pos (8 * 1048576))
        (env (str "GC_DRIVE_UPLOAD_MAX_CHUNK_BYTES")) in
    elim (Result-cases
      (setting parsers.parse_bool false (env (str "GC_DRIVE_ALLOW_PUBLIC_BIND")))) [
        | inr (e, bad) ↦ absurd (ground arith)
        | inl (public_bind, a) ↦
            elim (Result-cases
              (setting parsers.parse_bool false (env (str "GC_DRIVE_UPLOADS_ENABLED")))) [
                | inr (e, bad) ↦ absurd (ground arith)
                | inl (enabled, b) ↦
                    elim (Result-cases
                      (duration (pos (10 * 1000000000)) (str "GC_DRIVE_SHUTDOWN_TIMEOUT"))) [
                        | inr (e, bad) ↦ absurd (ground arith)
                        | inl (timeout, c) ↦ elim (Result-cases bytes) [
                          | inr (e, bad) ↦ absurd (ground arith)
                          | inl (chunk, d) ↦
                              elim (Result-cases (
                                duration (pos (24 * 3600 * 1000000000))
                                  (str "GC_DRIVE_UPLOAD_SESSION_TTL"))) [
                                    | inr (e, bad) ↦ absurd (ground arith)
                                    | inl (ttl, f) ↦
                                        let (same, host, split, loopback, secret) =
                                          checked_config_ok parsers
                                            (config_of env public_bind enabled timeout chunk ttl)
                                            cfg (ground arith) in
                                        record {
                                          host = host;
                                          bound = split;
                                          local = loopback;
                                          secret = secret;
                                          chunk = rw (← same) (
                                              setting-positive parse_int (pos (8 * 1048576)) chunk
                                                (env (str "GC_DRIVE_UPLOAD_MAX_CHUNK_BYTES")) refl
                                                d);
                                          ttl = rw (← same) (
                                              setting-positive parsers.parse_duration
                                                (pos (24 * 3600 * 1000000000)) ttl
                                                (env (str "GC_DRIVE_UPLOAD_SESSION_TTL")) refl f);
                                          timeout = rw (← same) (
                                              setting-positive parsers.parse_duration
                                                (pos (10 * 1000000000)) timeout
                                                (env (str "GC_DRIVE_SHUTDOWN_TIMEOUT")) refl c);
                                        }
                                  ]
                        ]
                      ]
              ]
      ]
