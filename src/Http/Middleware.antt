-- ===== src/Http/Middleware.antt =====
-- `securityHeaders` and `requestID` of internal/httpapi/server.go: headers that are set before the
-- handler runs. (`requestLogging` changes no response.)
use goreecloud_drive.Prelude.{Option, none, some, List, [], ◌∷◌}
use goreecloud_drive.Prelude.Text.{Str, str}
use goreecloud_drive.Ids.{hex}
use goreecloud_drive.Os.{Bytes}
use goreecloud_drive.Http.Message.{Request, Response, Reply, replied, panicked, set_header}
use goreecloud_drive.Http.Nodes.{Handler}

-- The headers that a handler sets, onto those that are set before.
unfoldable pub set_all : List (Str × Str) → List (Str × Str) → List (Str × Str)
set_all [] base = base
set_all ((key, value) ∷ headers) base = set_all headers (set_header key value base)

abbrev pub security_policy : List (Str × Str)
security_policy =
    (
      str "Content-Security-Policy",
      str "default-src 'self'; object-src 'none'; base-uri 'none'; frame-ancestors 'none'",
    )
    ∷ (str "Referrer-Policy", str "no-referrer")
    ∷ (str "X-Content-Type-Options", str "nosniff")
    ∷ (str "X-Frame-Options", str "DENY")
    ∷ (str "Permissions-Policy", str "camera=(), microphone=(), geolocation=()")
    ∷ []

-- `requestID`: no header where rand.Read fails.
abbrev pub request_id : Option Bytes → List (Str × Str)
request_id none = []
request_id (some id) = (str "X-Request-ID", hex id) ∷ []

-- `securityHeaders(requestID(next))`
unfoldable pub guarded_response : Option Bytes → Response → Response
guarded_response id r = record r {
  headers = set_all r.headers (set_all (request_id id) security_policy);
}

abbrev pub guarded_reply : Option Bytes → Reply → Reply
guarded_reply id (replied r) = replied (guarded_response id r)
guarded_reply id panicked = panicked

unfoldable pub middleware : {S : Type 0} → (Request → Option Bytes) → Handler S → Handler S
unfolding guarded_response
middleware id handle request st =
    let (r, st') = handle request st in (guarded_reply (id request) r, st')
