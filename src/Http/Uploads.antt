-- ===== src/Http/Uploads.antt =====
-- The upload handlers of internal/httpapi/uploads.go, over the node service and the upload service.
use goreecloud_drive.Prelude.{ℕ, not, Option, none, some, List, [], ◌++◌, if◌then◌else◌}
use goreecloud_drive.Prelude.Text.{Str, str, ◌==◌}
use goreecloud_drive.Prelude.Int.{ℤ, pos, ltb_ℤ}
use goreecloud_drive.Prelude.Decimal.{format_int, parse_int}
use goreecloud_drive.Errors.{
  Error, Result, ok, err, errors_is, upload_not_found, upload_forbidden, upload_expired,
  upload_offset_mismatch, upload_completed, upload_invalid_target, upload_security_blocked,
  upload_security_unavailable,
}
use goreecloud_drive.Os.{Action, Reader}
use goreecloud_drive.Authz
use goreecloud_drive.SpaceAccess
use goreecloud_drive.SpaceAccess.{access_allows}
use goreecloud_drive.Nodes
use goreecloud_drive.Nodes.{Node, kind_file}
use goreecloud_drive.Uploads.Interface.{Session}
use goreecloud_drive.Http.Message.{
  Request, Response, empty, upload, Decoder, decode_json, write_json, write_error, with_header,
}
use goreecloud_drive.Http.Principal.{Resolver}
use goreecloud_drive.Http.Nodes.{Handler, authenticated, write_node_error}

-- `UploadService` over a state `U`. Create takes what rand.Read gives. Append and Complete return a
-- session beside an error, and raise where that session is empty.
pub record UploadService (U : Type 0) : Type 0 where
  pub create : Option (List ℕ) → Str → Str → Str → Str → Str → Action U Session
  pub get : Str → Str → Str → Action U Session
  pub append : Str → Str → Str → ℤ → Option Reader → Action U (Session × Option Error)
  pub complete : Str → Str → Str → Action U (Session × Option Error)

-- The body of `createUploadHandler`.
pub record CreateUpload : Type 0 where
  pub node_id : Str

-- `writeUploadError`
unfoldable pub write_upload_error : Error → Response
write_upload_error e =
    if errors_is e upload_not_found
    then write_error 404 "upload session not found"
    else if errors_is e upload_forbidden
    then write_error 403 "access denied"
    else if errors_is e upload_expired
    then write_error 410 "upload session expired"
    else if errors_is e upload_offset_mismatch
    then write_error 409 "upload offset mismatch"
    else if errors_is e upload_completed
    then write_error 409 "upload session already completed"
    else if errors_is e upload_invalid_target
    then write_error 400 "invalid upload target"
    else if errors_is e upload_security_blocked
    then write_error 422 "upload blocked by security policy"
    else if errors_is e upload_security_unavailable
    then write_error 503 "upload security verification unavailable"
    else write_error 500 "upload operation failed"

-- The two states that an upload request works on.
pub record Stores (N U : Type 0) : Type 0 where
  pub nodes : N
  pub uploads : U

-- Of `createUploadHandler`: the responses to a new session.
abbrev pub upload_created : Str → Result Session → Response
upload_created space_id (err e) = write_upload_error e
upload_created space_id (ok session) = with_header "Upload-Offset" (str "0") (
    with_header "Location" (str "/api/v1/spaces/" ++ (space_id ++ (str "/uploads/" ++ session.id)))
      (write_json 201 (upload session)))

abbrev pub parent_text : Option Str → Str
parent_text none = []
parent_text (some parent_id) = parent_id

-- Of `createUploadHandler`: the node is known.
unfoldable pub upload_to :
    {N U : Type 0}
    → UploadService U
    → Str
    → Str
    → Option (List ℕ)
    → Result Node
    → Stores N U
    → Response × Stores N U
upload_to service account_id space_id random (err e) st = (write_node_error e, st)
upload_to service account_id space_id random (ok node) st =
    if not (node.kind == kind_file)
    then (write_error 400 "uploads require a file node", st)
    else (let (r, uploads) =
          service.create random account_id space_id node.id (parent_text node.parent_id) node.name
            st.uploads in
        (upload_created space_id r, record st { uploads = uploads }))

-- `createUploadHandler`
unfoldable pub create_upload_handler :
    {N U : Type 0}
    → Option Resolver
    → SpaceAccess.Service
    → Nodes.Service N
    → UploadService U
    → Decoder CreateUpload
    → Str
    → Handler (Stores N U)
create_upload_handler principals access node_service service decoder space_id =
    authenticated principals λ account_id request st.
      if not (access_allows access account_id space_id Authz.Action.create_file)
      then (write_error 403 "access denied", st)
      else elim (decode_json decoder request.body) [
        | err _ ↦ (write_error 400 "invalid request body", st)
        | ok body ↦
            let (found, nodes) = Nodes.get node_service account_id space_id body.node_id st.nodes in
            upload_to service account_id space_id request.random found (record st { nodes = nodes })
      ]

module _ {U : Type 0} (principals : Option Resolver) (service : UploadService U) where
  -- `getUploadHandler`
  abbrev pub upload_found : Result Session → Response
  upload_found (err e) = write_upload_error e
  upload_found (ok session) =
      with_header "Upload-Offset" (format_int session.offset) (write_json 200 (upload session))

  unfoldable pub get_upload_handler : Str → Str → Handler U
  get_upload_handler space_id upload_id = authenticated principals λ account_id request st.
      let (r, st') = service.get account_id space_id upload_id st in (upload_found r, st')

  -- Of `appendUploadHandler`: the response to a session and an error.
  abbrev pub append_failed : ℤ → Error → Response
  append_failed offset e =
      if errors_is e upload_offset_mismatch
      then with_header "Upload-Offset" (format_int offset) (write_upload_error e)
      else write_upload_error e

  abbrev pub appended : Result (Session × Option Error) → Response
  appended (err e) = append_failed (pos 0) e
  appended (ok (session, some e)) = append_failed session.offset e
  appended (ok (session, none)) =
      with_header "Upload-Offset" (format_int session.offset)
        (record { status = 204; headers = []; body = empty })

  -- The offset that a request names: an int64 that is not negative.
  unfoldable pub offset_of : Request → Option ℤ
  offset_of request = elim (parse_int (request.header (str "Upload-Offset"))) [
    | none ↦ none
    | some offset ↦ if ltb_ℤ offset (pos 0) then none else some offset
  ]

  -- `appendUploadHandler`
  unfoldable pub append_upload_handler : Str → Str → Handler U
  append_upload_handler space_id upload_id = authenticated principals λ account_id request st.
      elim (offset_of request) [
        | none ↦ (write_error 400 "valid Upload-Offset header required", st)
        | some offset ↦
            let (r, st') =
              service.append account_id space_id upload_id offset (some request.body) st in
            (appended r, st')
      ]

  -- `completeUploadHandler`
  abbrev pub upload_completion : Result (Session × Option Error) → Response
  upload_completion (err e) = write_upload_error e
  upload_completion (ok (session, some e)) = write_upload_error e
  upload_completion (ok (session, none)) = write_json 200 (upload session)

  unfoldable pub complete_upload_handler : Str → Str → Handler U
  complete_upload_handler space_id upload_id = authenticated principals λ account_id request st.
      let (r, st') = service.complete account_id space_id upload_id st in (upload_completion r, st')
