-- ===== src/Tests/Requests.antt =====
-- Requests to the server: without an account, without the service token, for a new upload and for the
-- completion of one.
use goreecloud_drive.Prelude.{
  ◌≡◌, ◌≢◌, ◌⊎◌, refl, true, false, Option, none, some, [], ◌∷◌, replicate, if◌then◌else◌, arith,
}
use goreecloud_drive.Prelude.Text.{
  Str, str, ◌==◌, trim_space, contains_any, has_control, has_prefix, strip_prefix, split,
}
use goreecloud_drive.Prelude.Int.{pos}
use goreecloud_drive.Errors.{ok, err, text, is, node_not_found}
use goreecloud_drive.Ids.{hex, hex_digit, new_uuid, valid_storage_id, storage_bytes, storage_byte}
use goreecloud_drive.Os.{plain_call, stat_inode, open_read, read_all, time_now, link, remove}
use goreecloud_drive.Os.Path.{same_path, clean, rel}
use goreecloud_drive.Storage.Local.{scoped_path, escapes, staging_path, object_path, finalize}
use goreecloud_drive.Storage.Session.{open_staging}
use goreecloud_drive.Wardveil.Types.{resource_id_of}
use goreecloud_drive.Wardveil.Scan.{
  all_hex, valid_sha256, valid_action, equal_fold, evaluate_result, evaluate_record, evaluate,
}
use goreecloud_drive.Wardveil.Gate.{
  hash_staging, scan_staging, confirm, evaluate_with, evaluate_upload,
}
use goreecloud_drive.Authz.{allows, capabilities_of, role_capabilities}
use goreecloud_drive.SpaceAccess.{MembershipResolver, access_allows}
use goreecloud_drive.Nodes
use goreecloud_drive.Nodes.{Node, kind_file, guarded}
use goreecloud_drive.Uploads
use goreecloud_drive.Uploads.Interface.{Session, active}
use goreecloud_drive.Uploads.Memory.{
  Sessions, memory_create, memory_get, memory_update, memory_repository, memory-IsRepository,
}
use goreecloud_drive.Uploads.{Stored, Service, invalid_target, is_expired, reject_expired, publish}
use goreecloud_drive.Uploads.Publication.{wired, IsPublished}
use goreecloud_drive.Json.{is_blank}
use goreecloud_drive.Http.Message.{Request, file, write_json, decode_json}
use goreecloud_drive.Http.Principal.{Resolver, deny_all, resolve_principal}
use goreecloud_drive.Http.Uploads.{
  Stores, create_upload_handler, upload_to, complete_upload_handler,
}
use goreecloud_drive.Http.Quarantine.{authorize_service}
use goreecloud_drive.Http.Middleware.{middleware}
use goreecloud_drive.Http.Server.{
  Dependencies, Platform, create_upload, complete_upload, quarantine_apply, serve, upload_route,
}
use goreecloud_drive.Http.Anonymous.{
  status_of, needs_account, is_upload, anonymous_refused, uploads_panic_without_resolver,
}
use goreecloud_drive.Http.Token.{
  HasToken, is_quarantine, authorize_service_iff, without_token_refused,
}
use goreecloud_drive.Http.Published.{complete_upload-IsPublished}
use goreecloud_drive.Http.Created.{IsUpload, create_upload-IsUpload}
use goreecloud_drive.Tests.Fixtures.{space_id, node_id, upload_id, account_id, root}
use goreecloud_drive.Tests.Files.{root-IsClean}
use goreecloud_drive.Tests.Sessions.{digest, clean_scanner, before, before_holds}

abbrev platform : Platform
platform = record {
  sha256 = λ bytes. bytes;
  decoders = record {
    create_node_body = λ _. none;
    rename_node_body = λ _. none;
    create_upload_body = λ bytes. some (record { node_id = node_id }, []);
    apply_body = λ _. none;
    read_body = λ _. none;
  };
  web_files = λ _. write_json 200 (file []);
}

-- A request with the Authorization header of another scheme.
abbrev request : Request
request = record {
  header = λ name. if name == str "Authorization" then str "Basic token" else [];
  query = λ _. [];
  body = record { bytes = str "{}"; broken = false };
  id_random = none;
  inner_id_random = none;
  random = some (replicate 16 7);
}

abbrev file_node : Node
file_node = record {
  id = node_id;
  space_id = space_id;
  parent_id = none;
  kind = kind_file;
  name = str "report.txt";
  created_by = account_id;
  created_at = [];
  modified_at = [];
  trashed_at = none;
}

-- A node store with one node, that changes nothing.
abbrev one_node : Nodes.Repository (Unit {0})
one_node = record {
  list = λ _ _ st. (ok (file_node ∷ []), st);
  get = λ _ id st. (if id == node_id then ok file_node else err (is node_not_found), st);
  create = λ _ st. (err (text "read only"), st);
  rename = λ _ _ _ st. (err (text "read only"), st);
  trash = λ _ _ st. (err (text "read only"), st);
}

abbrev editors : MembershipResolver
editors _ _ = ok (str "editor")

-- Dependencies whose resolver is given.
abbrev with_resolver : Option Resolver → Dependencies (Unit {0})
with_resolver principals = record {
  principals = principals;
  memberships = some editors;
  nodes = some one_node;
  quarantine = none;
  wardveil_service_token = str "token";
}

abbrev one_account : Resolver
one_account _ = ok (record { account_id = account_id })

abbrev service : Service Sessions
service = wired digest memory_repository root clean_scanner (pos 1024) (pos 3600)

abbrev stores : Stores (Unit {0}) (Stored Sessions)
stores = record { nodes = tt; uploads = before }

unknown_account : resolve_principal deny_all request ≡ none
unfolding resolve_principal
unknown_account = refl

completion_needs_account : needs_account (complete_upload space_id upload_id) ≡ true
unfolding needs_account
completion_needs_account = refl

anonymous_refused_example :
    (status_of
        (serve platform
          (with_resolver (some deny_all))
          (some service)
          (complete_upload space_id upload_id)
          request
          stores).0
      ≡ some 401)
    × ((serve platform
          (with_resolver (some deny_all))
          (some service)
          (complete_upload space_id upload_id)
          request
          stores).1
        ≡ stores)
anonymous_refused_example =
    anonymous_refused platform (with_resolver (some deny_all)) service request stores deny_all
      (complete_upload space_id upload_id) refl unknown_account completion_needs_account

completion_is_upload : is_upload (complete_upload space_id upload_id) ≡ true
unfolding is_upload
completion_is_upload = refl

uploads_panic_without_resolver_example :
    (status_of
        (serve platform
          (with_resolver none)
          (some service)
          (complete_upload space_id upload_id)
          request
          stores).0
      ≡ none)
    × ((serve platform
          (with_resolver none)
          (some service)
          (complete_upload space_id upload_id)
          request
          stores).1
        ≡ stores)
uploads_panic_without_resolver_example =
    uploads_panic_without_resolver platform (with_resolver none) service request stores
      (complete_upload space_id upload_id) refl completion_is_upload

basic_refused : authorize_service platform.sha256 request (str "token") ≢ none
unfolding authorize_service strip_prefix trim_space has_prefix ◌==◌
basic_refused h = ground arith

no_token : ¬ HasToken platform.sha256 (str "token") request
no_token h = basic_refused ((authorize_service_iff platform.sha256 request (str "token")).1 h)

apply_is_quarantine : is_quarantine quarantine_apply ≡ true
unfolding is_quarantine
apply_is_quarantine = refl

without_token_refused_example :
    ((status_of
          (serve platform (with_resolver none) (some service) quarantine_apply request stores).0
        ≡ some 404)
      ⊎ (status_of
            (serve platform (with_resolver none) (some service) quarantine_apply request stores).0
          ≡ some 503))
    × ((serve platform (with_resolver none) (some service) quarantine_apply request stores).1
        ≡ stores)
without_token_refused_example =
    without_token_refused platform (with_resolver none) (some service) quarantine_apply request
      stores apply_is_quarantine no_token

completion_run :
    status_of
      (serve platform
        (with_resolver (some one_account))
        (some service)
        (complete_upload space_id upload_id)
        request
        stores).0
    ≡ some 200
unfolding serve upload_route middleware complete_upload_handler resolve_principal Uploads.complete
    Uploads.get publish reject_expired is_expired memory_get memory_update finalize evaluate_upload
    evaluate_with confirm scan_staging hash_staging open_staging evaluate evaluate_record
    evaluate_result equal_fold valid_action valid_sha256 all_hex link remove plain_call time_now
    read_all open_read stat_inode same_path staging_path object_path scoped_path escapes
    valid_storage_id storage_bytes storage_byte clean rel split ◌==◌ trim_space has_prefix hex
    hex_digit resource_id_of
completion_run = refl

complete_upload-IsPublished_example :
    (principals : Resolver) × (account : Str) × (session : Session) × (some one_account
      ≡ some principals)
    × (resolve_principal principals request ≡ some account)
    × ((memory_get upload_id before.sessions).0 ≡ ok session)
    × (session.account_id ≡ account)
    × (session.space_id ≡ space_id)
    × (session.state ≡ active)
    × IsPublished digest root clean_scanner space_id upload_id session before
        (serve platform
          (with_resolver (some one_account))
          (some service)
          (complete_upload space_id upload_id)
          request
          stores).1.uploads
complete_upload-IsPublished_example =
    complete_upload-IsPublished platform (with_resolver (some one_account)) digest memory_repository
      memory-IsRepository root clean_scanner (pos 1024) (pos 3600) space_id upload_id request stores
      root-IsClean before_holds completion_run

creation_run :
    status_of
      (serve platform
        (with_resolver (some one_account))
        (some service)
        (create_upload space_id)
        request
        stores).0
    ≡ some 201
unfolding serve upload_route middleware create_upload_handler resolve_principal decode_json is_blank
    access_allows allows capabilities_of role_capabilities Nodes.get guarded Nodes.allowed upload_to
    Uploads.create invalid_target new_uuid memory_create time_now trim_space contains_any
    has_control has_prefix ◌==◌
creation_run = refl

create_upload-IsUpload_example :
    IsUpload platform
      (with_resolver (some one_account))
      service
      memory_repository
      space_id
      request
      stores
      (serve platform
        (with_resolver (some one_account))
        (some service)
        (create_upload space_id)
        request
        stores).1
create_upload-IsUpload_example =
    create_upload-IsUpload platform (with_resolver (some one_account)) service memory_repository
      refl space_id request stores creation_run
