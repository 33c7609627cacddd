-- ===== src/Http/Principal.antt =====
-- internal/authn/principal.go, and `resolvePrincipal` of internal/httpapi/server.go.
use goreecloud_drive.Prelude.{Option, none, some, [], if◌then◌else◌}
use goreecloud_drive.Prelude.Text.{Str, ◌==◌}
use goreecloud_drive.Errors.{Result, ok, err, is, unauthenticated}
use goreecloud_drive.Http.Message.{Request, Response, write_error}

-- `Principal`
pub record Principal : Type 0 where
  pub account_id : Str

-- `Resolver`
abbrev pub Resolver : Type 0
Resolver = Request → Result Principal

-- `DenyAllResolver`
abbrev pub deny_all : Resolver
deny_all request = err (is unauthenticated)

-- The resolver of a server: no resolver is replaced by the one that denies all.
abbrev pub or_deny_all : Option Resolver → Resolver
or_deny_all none = deny_all
or_deny_all (some resolver) = resolver

-- The account that a request is made by, if there is one.
abbrev known_account : Result Principal → Option Str
known_account (err _) = none
known_account (ok principal) =
    if principal.account_id == [] then none else some principal.account_id

-- `resolvePrincipal`; `none` is the result `false`, and its response is `unauthorized`.
unfoldable pub resolve_principal : Resolver → Request → Option Str
resolve_principal principals request = known_account (principals request)

abbrev pub unauthorized : Response
unauthorized = write_error 401 "authentication required"
