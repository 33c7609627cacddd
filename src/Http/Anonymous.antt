-- ===== src/Http/Anonymous.antt =====
-- Requests without a principal, against the servers of internal/httpapi.
use goreecloud_drive.Prelude.{ℕ, ◌≡◌, Bool, true, false, Option, none, some, arith}
use goreecloud_drive.Uploads
use goreecloud_drive.Uploads.{Stored}
use goreecloud_drive.Http.Message.{Request, Reply, replied, panicked}
use goreecloud_drive.Http.Principal.{Resolver, resolve_principal}
use goreecloud_drive.Http.Nodes.{
  capability_handler, list_nodes_handler, create_node_handler, get_node_handler,
  rename_node_handler, trash_node_handler,
}
use goreecloud_drive.Http.Uploads.{
  Stores, create_upload_handler, get_upload_handler, append_upload_handler, complete_upload_handler,
}
use goreecloud_drive.Http.Middleware.{middleware}
use goreecloud_drive.Http.Server.{
  Route, healthz, readyz, api_status, web, quarantine_apply, quarantine_read, create_upload,
  get_upload, append_upload, complete_upload, Dependencies, Platform, base_route, base_server,
  upload_route, serve,
}

-- The routes of an account's own requests.
unfoldable pub needs_account : Route → Bool
needs_account healthz = false
needs_account readyz = false
needs_account api_status = false
needs_account web = false
needs_account quarantine_apply = false
needs_account quarantine_read = false
needs_account _ = true

unfoldable pub is_upload : Route → Bool
is_upload (create_upload space_id) = true
is_upload (get_upload space_id upload_id) = true
is_upload (append_upload space_id upload_id) = true
is_upload (complete_upload space_id upload_id) = true
is_upload _ = false

-- The status of a reply: none where the handler panics.
abbrev pub status_of : Reply → Option ℕ
status_of (replied r) = some r.status
status_of panicked = none

module _ {N R : Type 0} (platform : Platform) (deps : Dependencies N) (s : Uploads.Service R)
    (request : Request) (st : Stores N (Stored R)) where
  -- A server with uploads, whose resolver finds no account behind the request: each route for accounts
  -- answers 401, and nothing is changed.
  pub anonymous_refused :
      (principals : Resolver) (route : Route)
      → deps.principals ≡ some principals
      → resolve_principal principals request ≡ none
      → needs_account route ≡ true
      → (status_of (serve platform deps (some s) route request st).0 ≡ some 401)
        × ((serve platform deps (some s) route request st).1 ≡ st)
  unfolding serve upload_route base_server base_route middleware needs_account capability_handler
      list_nodes_handler create_node_handler get_node_handler rename_node_handler trash_node_handler
      create_upload_handler get_upload_handler append_upload_handler complete_upload_handler
  anonymous_refused principals healthz given unknown needs = absurd (ground arith)
  anonymous_refused principals readyz given unknown needs = absurd (ground arith)
  anonymous_refused principals api_status given unknown needs = absurd (ground arith)
  anonymous_refused principals web given unknown needs = absurd (ground arith)
  anonymous_refused principals quarantine_apply given unknown needs = absurd (ground arith)
  anonymous_refused principals quarantine_read given unknown needs = absurd (ground arith)
  anonymous_refused principals route given unknown needs = ground arith

  -- A server with uploads and no resolver: every upload route panics before it changes anything.
  pub uploads_panic_without_resolver :
      (route : Route)
      → deps.principals ≡ none
      → is_upload route ≡ true
      → (status_of (serve platform deps (some s) route request st).0 ≡ none)
        × ((serve platform deps (some s) route request st).1 ≡ st)
  unfolding serve upload_route middleware is_upload create_upload_handler get_upload_handler
      append_upload_handler complete_upload_handler
  uploads_panic_without_resolver (create_upload space_id) missing upload = ground arith
  uploads_panic_without_resolver (get_upload space_id upload_id) missing upload = ground arith
  uploads_panic_without_resolver (append_upload space_id upload_id) missing upload = ground arith
  uploads_panic_without_resolver (complete_upload space_id upload_id) missing upload = ground arith
  uploads_panic_without_resolver route missing upload = absurd (ground arith)
