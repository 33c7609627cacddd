-- ===== src/Http/Server.antt =====
-- `NewWithDependencies` of internal/httpapi/server.go and `NewWithUploads` of uploads.go: the routes and
-- their handlers over the repositories and the disk. The file server of the web directory is a
-- parameter.
use goreecloud_drive.Prelude.{ℕ, Option, none, some, List}
use goreecloud_drive.Prelude.Text.{Str}
use goreecloud_drive.Os.{World, Bytes}
use goreecloud_drive.Wardveil.Types.{Scope}
use goreecloud_drive.SpaceAccess
use goreecloud_drive.SpaceAccess.{MembershipResolver, access_allows}
use goreecloud_drive.Nodes
use goreecloud_drive.Quarantine.{ApplyRequest}
use goreecloud_drive.Uploads
use goreecloud_drive.Uploads.{Stored}
use goreecloud_drive.Http.Message.{
  Request, Response, replied, health, service, service_status, Decoder, write_json,
}
use goreecloud_drive.Http.Principal.{Resolver, or_deny_all}
use goreecloud_drive.Http.Nodes.{
  Handler, CreateNode, RenameNode, capability_handler, list_nodes_handler, create_node_handler,
  get_node_handler, rename_node_handler, trash_node_handler,
}
use goreecloud_drive.Http.Uploads.{
  UploadService, CreateUpload, Stores, create_upload_handler, get_upload_handler,
  append_upload_handler, complete_upload_handler,
}
use goreecloud_drive.Http.Quarantine.{Target, quarantine_apply_handler, quarantine_read_handler}
use goreecloud_drive.Http.Middleware.{middleware}

-- The patterns of the two ServeMuxes, with the values of their wildcards. `web` is the pattern `/`, and
-- any path and method that no other pattern matches.
pub data Route : Type 0 where
  healthz readyz api_status web : Route
  list_nodes create_node : Str → Route
  capability get_node rename_node trash_node : Str → Str → Route
  quarantine_apply quarantine_read : Route
  create_upload : Str → Route
  get_upload append_upload complete_upload : Str → Str → Route

-- `Dependencies`; `none` is a nil interface.
pub record Dependencies (N : Type 0) : Type 0 where
  pub principals : Option Resolver
  pub memberships : Option MembershipResolver
  pub nodes : Option (Nodes.Repository N)
  pub quarantine : Option Target
  pub wardveil_service_token : Str

-- The JSON decoders of the request bodies.
pub record Decoders : Type 0 where
  pub create_node_body : Decoder CreateNode
  pub rename_node_body : Decoder RenameNode
  pub create_upload_body : Decoder CreateUpload
  pub apply_body : Decoder ApplyRequest
  pub read_body : Decoder Scope

-- What a server is built from besides its dependencies: SHA-256, the decoders and the file server.
pub record Platform : Type 0 where
  pub sha256 : Bytes → List ℕ
  pub decoders : Decoders
  pub web_files : Request → Response

-- The upload service as the handlers see it.
abbrev pub upload_service : {R : Type 0} → Uploads.Service R → UploadService (Stored R)
upload_service s = record {
  create = Uploads.create s;
  get = Uploads.get s;
  append = Uploads.append s;
  complete = Uploads.complete s;
}

-- A handler of one part of the state.
abbrev pub on_nodes : {N U : Type 0} → Handler N → Handler (Stores N U)
on_nodes handle request st =
    let (r, nodes) = handle request st.nodes in (r, record st { nodes = nodes })

abbrev pub on_uploads : {N U : Type 0} → Handler U → Handler (Stores N U)
on_uploads handle request st =
    let (r, uploads) = handle request st.uploads in (r, record st { uploads = uploads })

abbrev pub on_disk : {N R : Type 0} → Handler World → Handler (Stores N (Stored R))
on_disk handle request st =
    let (r, disk) = handle request st.uploads.disk in
    (r, record st { uploads = record st.uploads { disk = disk } })

abbrev pub constant : {S : Type 0} → (Request → Response) → Handler S
constant respond request st = (replied (respond request), st)

module _ {N : Type 0} (deps : Dependencies N) where
  abbrev pub access : SpaceAccess.Service
  access = record { memberships = deps.memberships }

  abbrev pub node_service : Nodes.Service N
  node_service = record { repo = deps.nodes; auth = some (access_allows access) }

  -- The resolver of the handlers of `NewWithDependencies`. (That of `NewWithUploads` is as it is given.)
  abbrev pub principals : Option Resolver
  principals = some (or_deny_all deps.principals)

module _ {N R : Type 0} (platform : Platform) (deps : Dependencies N) where
  -- The mux of `NewWithDependencies`: it has no pattern for uploads but `/`.
  unfoldable pub base_route : Route → Handler (Stores N (Stored R))
  base_route healthz = constant λ _. write_json 200 (health "ok")
  base_route readyz = constant λ _. write_json 200 (health "ready")
  base_route api_status = constant λ _. write_json 200 (service service_status)
  base_route (capability space_id action) =
      on_nodes (capability_handler (principals deps) (access deps) space_id action)
  base_route (list_nodes space_id) =
      on_nodes (list_nodes_handler (principals deps) (node_service deps) space_id)
  base_route (create_node space_id) = on_nodes (
      create_node_handler (principals deps) (node_service deps) platform.decoders.create_node_body
        space_id)
  base_route (get_node space_id node_id) =
      on_nodes (get_node_handler (principals deps) (node_service deps) space_id node_id)
  base_route (rename_node space_id node_id) = on_nodes (
      rename_node_handler (principals deps) (node_service deps) platform.decoders.rename_node_body
        space_id node_id)
  base_route (trash_node space_id node_id) =
      on_nodes (trash_node_handler (principals deps) (node_service deps) space_id node_id)
  base_route quarantine_apply = on_disk (
      quarantine_apply_handler platform.sha256 deps.quarantine deps.wardveil_service_token
        platform.decoders.apply_body)
  base_route quarantine_read = on_disk (
      quarantine_read_handler platform.sha256 deps.quarantine deps.wardveil_service_token
        platform.decoders.read_body)
  base_route web = constant platform.web_files
  base_route (create_upload space_id) = constant platform.web_files
  base_route (get_upload space_id upload_id) = constant platform.web_files
  base_route (append_upload space_id upload_id) = constant platform.web_files
  base_route (complete_upload space_id upload_id) = constant platform.web_files

  -- `NewWithDependencies`
  unfoldable pub base_server : (Request → Option Bytes) → Route → Handler (Stores N (Stored R))
  base_server id route = middleware id (base_route route)

  -- The mux of `NewWithUploads`: every other route goes to the server of `NewWithDependencies`.
  unfoldable pub upload_route : Uploads.Service R → Route → Handler (Stores N (Stored R))
  upload_route s (create_upload space_id) =
      create_upload_handler deps.principals (access deps) (node_service deps) (upload_service s)
        platform.decoders.create_upload_body space_id
  upload_route s (get_upload space_id upload_id) =
      on_uploads (get_upload_handler deps.principals (upload_service s) space_id upload_id)
  upload_route s (append_upload space_id upload_id) =
      on_uploads (append_upload_handler deps.principals (upload_service s) space_id upload_id)
  upload_route s (complete_upload space_id upload_id) =
      on_uploads (complete_upload_handler deps.principals (upload_service s) space_id upload_id)
  upload_route s route = base_server (λ request. request.inner_id_random) route

  -- `NewWithUploads`; `none` is a nil upload service.
  unfoldable pub serve : Option (Uploads.Service R) → Route → Handler (Stores N (Stored R))
  serve none route = base_server (λ request. request.id_random) route
  serve (some s) route = middleware (λ request. request.id_random) (upload_route s route)
