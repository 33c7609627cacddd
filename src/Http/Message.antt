-- ===== src/Http/Message.antt =====
-- What the handlers of internal/httpapi read and write: requests, responses, and the functions
-- `decodeJSON` and `writeJSON` of server.go. A JSON value that is written is kept as the Go value; the
-- JSON decoder is a parameter.
use goreecloud_drive.Prelude.{
  ℕ, String, Bool, true, false, not, ◌||◌, Option, none, some, List, [], ◌∷◌, length, ltb,
  if◌then◌else◌,
}
use goreecloud_drive.Prelude.Text.{Str, str, ◌==◌}
pub use goreecloud_drive.Json.{Decoder}
use goreecloud_drive.Json.{is_blank}
use goreecloud_drive.Errors.{Result, ok, err, text}
use goreecloud_drive.Os.{Bytes, Reader}
use goreecloud_drive.Nodes.{Node}
use goreecloud_drive.Quarantine.{ApplyResult, ReadResult}
use goreecloud_drive.Uploads.Interface.{Session}

-- A request: `Header.Get` (of a name in its canonical form), the query, and the body. The other
-- fields are what rand.Read gives while the request is served, to the request IDs of the outer and the
-- inner handler and to a new UUID.
pub record Request : Type 0 where
  pub header : Str → Str
  pub query : Str → Str
  pub body : Reader
  pub id_random : Option Bytes
  pub inner_id_random : Option Bytes
  pub random : Option Bytes

-- The value that `statusHandler` writes.
pub record Capabilities : Type 0 where
  pub authentication : Bool
  pub authorization_core : Bool
  pub persistent_node_crud : Bool
  pub file_content_io : Bool
  pub resumable_uploads : Bool
  pub private_spaces : Bool
  pub shared_spaces : Bool

pub record ServiceStatus : Type 0 where
  pub service : Str
  pub version : Str
  pub lifecycle : Str
  pub capabilities : Capabilities

abbrev pub development_version : Str
development_version = str "0.0.0-dev"

-- `statusHandler`: the same for every server.
abbrev pub service_status : ServiceStatus
service_status = record {
  service = str "GoreeCloud Drive";
  version = development_version;
  lifecycle = str "Development";
  capabilities = record {
    authentication = false;
    authorization_core = true;
    persistent_node_crud = true;
    file_content_io = false;
    resumable_uploads = false;
    private_spaces = false;
    shared_spaces = false;
  };
}

-- The value that a response carries: a map with the key "error" or "status", or
-- another Go value.
pub data Body : Type 0 where
  empty : Body
  message health : String → Body
  service : ServiceStatus → Body
  allowed : Str → Str → Body
  node : Node → Body
  nodes : List Node → Body
  upload : Session → Body
  applied : ApplyResult → Body
  read : ReadResult → Body
  file : Bytes → Body

pub record Response : Type 0 where
  pub status : ℕ
  pub headers : List (Str × Str)
  pub body : Body

-- `Header().Set`: the value of a key is replaced.
unfoldable pub set_header : Str → Str → List (Str × Str) → List (Str × Str)
set_header key value [] = (key, value) ∷ []
set_header key value ((k, v) ∷ headers) =
    if k == key then (key, value) ∷ headers else (k, v) ∷ set_header key value headers

-- What a handler does: it writes a response, or it panics, and net/http closes the connection.
pub data Reply : Type 0 where
  replied : Response → Reply
  panicked : Reply

-- `writeJSON`
abbrev pub write_json : ℕ → Body → Response
write_json status body = record {
  status = status;
  headers = (str "Content-Type", str "application/json; charset=utf-8") ∷ [];
  body = body;
}

-- A JSON object with the key "error".
abbrev pub write_error : ℕ → String → Response
write_error status reason = write_json status (message reason)

-- A header of a response that is set before its status is written.
abbrev pub with_header : String → Str → Response → Response
with_header key value r = record r { headers = set_header (str key) value r.headers }

-- `decodeJSON`. The reader of the body gives an error past 64 KiB and where the body breaks, so the
-- second Decode does not find the end of such a body.
unfoldable pub decode_json : {T : Type 0} → Decoder T → Reader → Result T
unfolding is_blank
decode_json decoder body = elim (decoder body.bytes) [
  | none ↦ err (text "invalid JSON value")
  | some (value, rest) ↦
      if ltb 65536 (length body.bytes) || (body.broken || not (is_blank rest))
      then err (text "request body must contain one JSON value")
      else ok value
]
