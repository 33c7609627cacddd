-- ===== src/Http/Created.antt =====
-- `createUploadHandler` in the server's wiring: what a new upload rests on.
use goreecloud_drive.Prelude.{
  ℕ, ◌≡◌, refl, sym, subst, true, Option, some, List, arith, inl, inr, Option-cases, Bool-cases,
}
use goreecloud_drive.Prelude.Text.{Str, ==_iff}
use goreecloud_drive.Errors.{Error, Result, Result-cases, ok, err}
use goreecloud_drive.Authz
use goreecloud_drive.SpaceAccess.{MembershipResolver, access_allows, access_allows_iff}
use goreecloud_drive.Nodes
use goreecloud_drive.Nodes.{Node, kind_file}
use goreecloud_drive.Nodes.Guarded.{HasRole, guarded-HasRole}
use goreecloud_drive.Uploads
use goreecloud_drive.Uploads.Interface.{Session, Repository}
use goreecloud_drive.Uploads.{Stored}
use goreecloud_drive.Uploads.Creation.{IsNew, create_ok}
use goreecloud_drive.Http.Message.{Request, decode_json}
use goreecloud_drive.Http.Principal.{Resolver, resolve_principal}
use goreecloud_drive.Http.Nodes.{write_node_error}
use goreecloud_drive.Http.Uploads.{
  Stores, CreateUpload, create_upload_handler, upload_to, parent_text, write_upload_error,
}
use goreecloud_drive.Http.Middleware.{middleware}
use goreecloud_drive.Http.Server.{
  Dependencies, Platform, node_service, access, upload_service, create_upload, serve, upload_route,
}
use goreecloud_drive.Http.Anonymous.{status_of}

-- No error is answered 201.
upload_error_status : (e : Error) → ((write_upload_error e).status ≡ 201) → ⊥
unfolding write_upload_error
upload_error_status e h = ground arith

node_error_status : (e : Error) → ((write_node_error e).status ≡ 201) → ⊥
unfolding write_node_error
node_error_status e h = ground arith

-- What lies behind a new upload: an account with the two permissions, a file node that it may read, and
-- a new session for that node.
pub record IsUpload {N R : Type 0} (platform : Platform) (deps : Dependencies N)
    (s : Uploads.Service R) (repo : Repository R) (space_id : Str) (request : Request)
    (st st' : Stores N (Stored R)) : Type 0 where
  pub principals : Resolver
  pub account_id : Str
  pub memberships : MembershipResolver
  pub body : CreateUpload
  pub node : Node
  pub session : Session
  pub given : deps.principals ≡ some principals
  pub known : resolve_principal principals request ≡ some account_id
  pub resolved : deps.memberships ≡ some memberships
  pub may_create : HasRole memberships account_id space_id Authz.Action.create_file
  pub may_read : HasRole memberships account_id space_id Authz.Action.reading
  pub decoded : decode_json platform.decoders.create_upload_body request.body ≡ ok body
  pub found : (Nodes.get (node_service deps) account_id space_id body.node_id st.nodes).0 ≡ ok node
  pub is_file : node.kind ≡ kind_file
  pub created :
      IsNew repo account_id space_id node.id
        (parent_text node.parent_id)
        node.name
        session
        st.uploads
        st'.uploads

-- Reading a node of the wired service wants the role for it.
get_HasRole :
    {N : Type 0} (deps : Dependencies N) (memberships : MembershipResolver)
    → (account_id space_id node_id : Str) (nodes : N) (node : Node)
    → deps.memberships ≡ some memberships
    → (Nodes.get (node_service deps) account_id space_id node_id nodes).0 ≡ ok node
    → HasRole memberships account_id space_id Authz.Action.reading
unfolding Nodes.get
get_HasRole deps memberships a sp id nodes node resolved got =
    guarded-HasRole deps.nodes memberships a sp Authz.Action.reading (λ repo. repo.get sp id) nodes
      node
      (subst
        (λ q.
          (Nodes.get
            (record { repo = deps.nodes; auth = some (access_allows (record { memberships = q })) })
            a sp id nodes).0
          ≡ ok node)
        resolved got)

-- What is allowed is allowed by a resolver, for a role.
access-HasRole :
    {N : Type 0} (deps : Dependencies N) (account_id space_id action : Str)
    → access_allows (access deps) account_id space_id action ≡ true
    → (memberships : MembershipResolver) × (deps.memberships ≡ some memberships)
      × HasRole memberships account_id space_id action
unfolding access_allows
access-HasRole deps a sp action h = elim (Option-cases deps.memberships) [
  | inl missing ↦ absurd (ground arith)
  | inr (memberships, resolved) ↦
      (memberships, resolved, ((access_allows_iff memberships a sp action).0 (ground arith)).2)
]

upload_to_ok :
    {N R : Type 0} (s : Uploads.Service R) (account_id space_id : Str) (random : Option (List ℕ))
    → (r : Result Node) (st : Stores N (Stored R))
    → (upload_to (upload_service s) account_id space_id random r st).0.status ≡ 201
    → (node : Node) × (session : Session) × (r ≡ ok node)
      × (node.kind ≡ kind_file)
      × ((Uploads.create s random account_id space_id node.id
            (parent_text node.parent_id)
            node.name
            st.uploads).0
          ≡ ok session)
      × ((upload_to (upload_service s) account_id space_id random r st).1.uploads
          ≡ (Uploads.create s random account_id space_id node.id
              (parent_text node.parent_id)
              node.name
              st.uploads).1)
unfolding upload_to
upload_to_ok s a sp random (err e) st h = absurd (node_error_status e h)
upload_to_ok s a sp random (ok node) st h =
    elim (Result-cases
      (Uploads.create s random a sp node.id (parent_text node.parent_id) node.name st.uploads).0) [
        | inl (session, made) ↦
            (node, session, refl, ground (arith, ==_iff node.kind kind_file), made, ground arith)
        | inr (e, failed) ↦ absurd (ground (arith, upload_error_status e))
      ]

module _ {N R : Type 0} (platform : Platform) (deps : Dependencies N) (s : Uploads.Service R)
    (repo : Repository R) (here : s.repo ≡ some repo) (space_id : Str) (request : Request)
    (st : Stores N (Stored R)) where
  -- A request for a new upload that is answered 201 was made by an account that the resolver finds behind
  -- it, whose role in the Space is allowed to read and to create files; the node that its body names was
  -- found there and is a file; and a new, active session at offset 0 for exactly that node, owned by the
  -- account, is stored.
  pub create_upload-IsUpload :
      status_of (serve platform deps (some s) (create_upload space_id) request st).0 ≡ some 201
      → IsUpload platform deps s repo space_id request st
          (serve platform deps (some s) (create_upload space_id) request st).1
  unfolding serve upload_route middleware create_upload_handler upload_to
  create_upload-IsUpload h = elim (Option-cases deps.principals) [
    | inl missing ↦ absurd (ground arith)
    | inr (principals, given) ↦ elim (Option-cases (resolve_principal principals request)) [
      | inl unknown ↦ absurd (ground arith)
      | inr (account_id, known) ↦ permitted principals account_id given known
    ]
  ]
    where
      permitted :
          (principals : Resolver) (account_id : Str)
          → deps.principals ≡ some principals
          → resolve_principal principals request ≡ some account_id
          → IsUpload platform deps s repo space_id request st
              (serve platform deps (some s) (create_upload space_id) request st).1
      permitted principals account_id given known =
          elim (Bool-cases
            (access_allows (access deps) account_id space_id Authz.Action.create_file)) [
              | inr denied ↦ absurd (ground arith)
              | inl granted ↦
                  elim (Result-cases
                    (decode_json platform.decoders.create_upload_body request.body)) [
                      | inr (e, malformed) ↦ absurd (ground arith)
                      | inl (body, decoded) ↦
                          let (memberships, resolved, role) =
                            access-HasRole deps account_id space_id Authz.Action.create_file
                              granted in
                          let (r, nodes) =
                            Nodes.get (node_service deps) account_id space_id body.node_id
                              st.nodes in
                          let (node, session, got, is_file, made, kept) =
                            upload_to_ok s account_id space_id request.random r
                              (record st { nodes = nodes }) (ground arith) in
                          let parent = parent_text node.parent_id in
                          let whole : (serve platform deps (some s) (create_upload space_id) request
                                st).1.uploads
                              ≡ (Uploads.create s request.random account_id space_id node.id parent
                                  node.name st.uploads).1 =
                            ground arith in
                          record {
                            principals = principals;
                            account_id = account_id;
                            memberships = memberships;
                            body = body;
                            node = node;
                            session = session;
                            given = given;
                            known = known;
                            resolved = resolved;
                            may_create = role;
                            may_read =
                                get_HasRole deps memberships account_id space_id body.node_id
                                  st.nodes node resolved got;
                            decoded = decoded;
                            found = got;
                            is_file = is_file;
                            created =
                                subst
                                  (λ x.
                                    IsNew repo account_id space_id node.id parent node.name session
                                      st.uploads x)
                                  (sym whole)
                                  (create_ok s repo request.random account_id space_id node.id
                                    parent node.name st.uploads session here made);
                          }
                    ]
            ]
