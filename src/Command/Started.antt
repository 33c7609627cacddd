-- ===== src/Command/Started.antt =====
-- `main` of cmd/server/main.go: what a server that has started is.
use goreecloud_drive.Prelude.{
  ◌%◌, ◌≡◌, refl, sym, subst, eqb_iff, ap, ◌∙◌, true, none, some, arith, inl, inr, Bool-cases,
}
use goreecloud_drive.Prelude.Text.{Str, trim_space}
use goreecloud_drive.Errors.{Result-cases, ok}
use goreecloud_drive.Os.{World, Bytes}
use goreecloud_drive.Os.Path.{FilePath}
use goreecloud_drive.Storage.Local.{Local, new_local, ensure_layout}
use goreecloud_drive.Storage.Local.Boundary.{IsClean, new_local-IsClean}
use goreecloud_drive.Wardveil.HttpScanner.{HttpScanner, new_http_scanner}
use goreecloud_drive.Wardveil.HttpScanner.Exchange.{
  IsLoopbackScanner, new_http_scanner-IsLoopbackScanner, new_http_scanner-secret,
}
use goreecloud_drive.Uploads
use goreecloud_drive.Uploads.Memory.{Sessions, memory_repository}
use goreecloud_drive.Uploads.Publication.{wired}
use goreecloud_drive.Config.{Config, load, IsSafe, load-IsSafe}
use goreecloud_drive.Command.{
  FileInfo, Surroundings, load_wardveil_scan_secret, Running, scanner_of, scanner_config,
  server_deps, build_server, start,
}

-- The upload service of the command: the wiring over a clean root, with a scanner at a loopback address
-- whose secret is that of a regular file that only its owner reaches.
pub record IsWired (x : Surroundings) (running : Running) (s : Uploads.Service Sessions)
    : Type 0 where
  pub root : FilePath
  pub scanner : HttpScanner
  pub info : FileInfo
  pub rooted : IsClean root
  pub loopback : IsLoopbackScanner x.net scanner
  pub kept : x.stat running.config.wardveil_scan_secret_file ≡ ok info
  pub regular : info.is_regular ≡ true
  pub private_file : info.permissions % 64 ≡ 0
  pub raw : Bytes
  pub read : x.read_file running.config.wardveil_scan_secret_file ≡ ok raw
  pub secret : scanner.secret ≡ trim_space raw
  pub wiring :
      s
      ≡ wired x.sha256 memory_repository root
          (scanner_of x scanner)
          running.config.upload_max_chunk_bytes
          running.config.upload_session_ttl

secret_private :
    (x : Surroundings) (path secret : Str)
    → load_wardveil_scan_secret x path ≡ ok secret
    → ((info : FileInfo) × (x.stat path ≡ ok info)
        × (info.is_regular ≡ true)
        × (info.permissions % 64 ≡ 0))
      × ((raw : Bytes) × (x.read_file path ≡ ok raw) × (secret ≡ trim_space raw))
unfolding load_wardveil_scan_secret
secret_private x path secret h = elim (Result-cases (x.stat path)) [
  | inr (e, failed) ↦ absurd (ground arith)
  | inl (info, given) ↦ elim (Result-cases (x.read_file path)) [
    | inr (e, failed) ↦ absurd (ground arith)
    | inl (raw, read) ↦ (
      (info, given, ground arith, ground (arith, eqb_iff (info.permissions % 64) 0)),
      (raw, read, ground arith),
    )
  ]
]

new_local-some :
    (cwd : FilePath) (given : Str) (store : Local)
    → new_local cwd given ≡ ok store
    → (root : FilePath) × (store ≡ some root)
unfolding new_local
new_local-some cwd given none h = absurd (ground arith)
new_local-some cwd given (some root) h = (root, refl)

module _ (x : Surroundings) (cfg : Config) (root : FilePath) (rooted : IsClean root)
    (running : Running) where
  build_server_ok :
      build_server x cfg (some root) ≡ ok running
      → (running.config ≡ cfg)
        × (running.deps ≡ server_deps x cfg (some root))
        × ((s : Uploads.Service Sessions) → running.uploads ≡ some s → IsWired x running s)
  unfolding build_server
  build_server_ok h = elim (Bool-cases cfg.uploads_enabled) [
    | inr off ↦ (ground arith, ground arith, λ s given. absurd (ground arith))
    | inl on ↦ elim (Result-cases (load_wardveil_scan_secret x cfg.wardveil_scan_secret_file)) [
      | inr (e, failed) ↦ absurd (ground arith)
      | inl (secret, loaded) ↦
          elim (Result-cases (new_http_scanner x.net (scanner_config cfg secret))) [
            | inr (e, failed) ↦ absurd (ground arith)
            | inl (scanner, built) ↦
                let ((info, kept, regular, private_file), (raw, read, trimmed)) =
                  secret_private x cfg.wardveil_scan_secret_file secret loaded in
                let same : running.config ≡ cfg = ground arith in
                (
                  same,
                  ground arith,
                  λ s given. record {
                    root = root;
                    scanner = scanner;
                    info = info;
                    rooted = rooted;
                    loopback =
                        new_http_scanner-IsLoopbackScanner x.net (scanner_config cfg secret) scanner
                          built;
                    kept = ap (λ c. x.stat c.wardveil_scan_secret_file) same ∙ kept;
                    regular = regular;
                    private_file = private_file;
                    raw = raw;
                    read = ap (λ c. x.read_file c.wardveil_scan_secret_file) same ∙ read;
                    secret =
                        new_http_scanner-secret x.net (scanner_config cfg secret) scanner built
                        ∙ trimmed;
                    wiring = ground arith;
                  },
                )
          ]
    ]
  ]

-- A server that starts has a safe configuration, no resolver of principals, and, if it has uploads, the
-- upload service of the wiring: over a clean root, behind a scanner at an IPv4 loopback address whose
-- secret is the text, without the spaces around it, of a regular file that only its owner reaches.
pub start_lem :
    (x : Surroundings) (w : World) (running : Running)
    → (start x w).0 ≡ ok running
    → IsSafe x.parsers running.config
      × (running.deps.principals ≡ none)
      × ((s : Uploads.Service Sessions) → running.uploads ≡ some s → IsWired x running s)
unfolding start
start_lem x w running h = elim (Result-cases (load x.parsers x.env)) [
  | inr (e, failed) ↦ absurd (ground arith)
  | inl (cfg, loaded) ↦ elim (Result-cases (new_local x.cwd cfg.data_dir)) [
    | inr (e, failed) ↦ absurd (ground arith)
    | inl (store, made) ↦ elim (Result-cases (ensure_layout store w).0) [
      | inr (e, failed) ↦ absurd (ground arith)
      | inl (u, laid) ↦
          let (root, rooted) = new_local-some x.cwd cfg.data_dir store made in
          let (same, deps, uploads) =
            build_server_ok x cfg root (new_local-IsClean x.cwd cfg.data_dir root (ground arith))
              running (ground arith) in
          (
            subst (IsSafe x.parsers) (sym same) (load-IsSafe x.parsers x.env cfg loaded),
            ground arith,
            uploads,
          )
    ]
  ]
]
