-- ===== src/Http/Nodes.antt =====
-- The node handlers of internal/httpapi/server.go, over the node service and its repository.
use goreecloud_drive.Prelude.{not, Option, none, some, [], if◌then◌else◌}
use goreecloud_drive.Prelude.Text.{Str, str, ◌==◌, trim_space}
use goreecloud_drive.Errors.{
  Error, Result, ok, err, errors_is, node_forbidden, node_invalid, node_not_found, node_unavailable,
}
use goreecloud_drive.SpaceAccess
use goreecloud_drive.SpaceAccess.{access_allows}
use goreecloud_drive.Nodes
use goreecloud_drive.Nodes.{Node}
use goreecloud_drive.Http.Message.{
  Request, Response, Reply, replied, panicked, node, nodes, allowed, Decoder, decode_json,
  write_json, write_error,
}
use goreecloud_drive.Http.Principal.{Resolver, resolve_principal, unauthorized}

-- The bodies of `createNodeHandler` and `renameNodeHandler`.
pub record CreateNode : Type 0 where
  pub parent_id : Option Str
  pub kind : Str
  pub name : Str

pub record RenameNode : Type 0 where
  pub name : Str

-- `writeNodeError`
unfoldable pub write_node_error : Error → Response
write_node_error e =
    if errors_is e node_forbidden
    then write_error 403 "access denied"
    else if errors_is e node_invalid
    then write_error 400 "invalid node input"
    else if errors_is e node_not_found
    then write_error 404 "node not found"
    else if errors_is e node_unavailable
    then write_error 503 "node service unavailable"
    else write_error 500 "node operation failed"

-- The response to a result of the service: the value under the status, or the error.
abbrev pub node_response : {T : Type 0} → (T → Response) → Result T → Response
node_response write (ok value) = write value
node_response write (err e) = write_node_error e

abbrev pub Handler : Type 0 → Type 0
Handler S = Request → S → Reply × S

-- A handler that always writes a response.
abbrev pub Answer : Type 0 → Type 0
Answer S = Request → S → Response × S

abbrev pub replying : {S : Type 0} → Answer S → Handler S
replying answer request st = let (r, st') = answer request st in (replied r, st')

-- A handler for an authenticated account; `none` is a nil resolver, whose call panics.
abbrev pub authenticated : {S : Type 0} → Option Resolver → (Str → Answer S) → Handler S
authenticated none answer request st = (panicked, st)
authenticated (some principals) answer request st = elim (resolve_principal principals request) [
  | none ↦ (replied unauthorized, st)
  | some account_id ↦ replying (answer account_id) request st
]

-- `parent_id` of the query: nil where it is blank.
abbrev pub parent_of : Request → Option Str
parent_of request =
    let value = trim_space (request.query (str "parent_id")) in
    if value == [] then none else some value

-- `capabilityHandler`
unfoldable pub capability_handler :
    {S : Type 0} → Option Resolver → SpaceAccess.Service → Str → Str → Handler S
capability_handler principals access space_id action =
    authenticated principals λ account_id request st.
      if not (access_allows access account_id space_id action)
      then (write_error 403 "access denied", st)
      else (write_json 200 (allowed space_id action), st)

module _ {R : Type 0} (principals : Option Resolver) (service : Nodes.Service R) where
  -- `listNodesHandler`
  unfoldable pub list_nodes_handler : Str → Handler R
  list_nodes_handler space_id = authenticated principals λ account_id request st.
      let (r, st') = Nodes.list service account_id space_id (parent_of request) st in
      (node_response (λ items. write_json 200 (nodes items)) r, st')

  -- `createNodeHandler`
  unfoldable pub create_node_handler : Decoder CreateNode → Str → Handler R
  create_node_handler decoder space_id = authenticated principals λ account_id request st.
      elim (decode_json decoder request.body) [
        | err _ ↦ (write_error 400 "invalid request body", st)
        | ok body ↦
            let (r, st') =
              Nodes.create service request.random account_id space_id body.parent_id body.kind
                body.name st in
            (node_response (λ created. write_json 201 (node created)) r, st')
      ]

  -- `getNodeHandler`
  unfoldable pub get_node_handler : Str → Str → Handler R
  get_node_handler space_id node_id = authenticated principals λ account_id request st.
      let (r, st') = Nodes.get service account_id space_id node_id st in
      (node_response (λ found. write_json 200 (node found)) r, st')

  -- `renameNodeHandler`
  unfoldable pub rename_node_handler : Decoder RenameNode → Str → Str → Handler R
  rename_node_handler decoder space_id node_id = authenticated principals λ account_id request st.
      elim (decode_json decoder request.body) [
        | err _ ↦ (write_error 400 "invalid request body", st)
        | ok body ↦
            let (r, st') = Nodes.rename service account_id space_id node_id body.name st in
            (node_response (λ renamed. write_json 200 (node renamed)) r, st')
      ]

  -- `trashNodeHandler`
  unfoldable pub trash_node_handler : Str → Str → Handler R
  trash_node_handler space_id node_id = authenticated principals λ account_id request st.
      let (r, st') = Nodes.trash service account_id space_id node_id st in
      (node_response (λ trashed. write_json 200 (node trashed)) r, st')
