-- ===== src/Http/Token.antt =====
-- The service token of internal/httpapi/quarantine.go.
use goreecloud_drive.Prelude.{
  ℕ, ◌≡◌, ◌≢◌, ◌⊎◌, ◌↔◌, refl, Bool, true, false, Option, none, some, List, [], ◌∷◌, ◌++◌, arith,
  inl, inr, Option-cases, Bool-cases,
}
use goreecloud_drive.Prelude.Text.{Str, str, ◌==◌, ==_iff, trim_space, strip_prefix}
use goreecloud_drive.Os.{Bytes}
use goreecloud_drive.Uploads
use goreecloud_drive.Uploads.{Stored}
use goreecloud_drive.Http.Message.{Request, Response}
use goreecloud_drive.Http.Uploads.{Stores}
use goreecloud_drive.Http.Quarantine.{
  authorize_service, quarantine_apply_handler, quarantine_read_handler,
}
use goreecloud_drive.Http.Middleware.{middleware}
use goreecloud_drive.Http.Server.{
  Route, quarantine_apply, quarantine_read, Dependencies, Platform, base_route, base_server, serve,
  upload_route,
}
use goreecloud_drive.Http.Anonymous.{status_of}

strip_prefix-some : (p s t : Str) → strip_prefix p s ≡ some t → s ≡ p ++ t
unfolding strip_prefix
strip_prefix-some [] s t h = ground arith
strip_prefix-some (b ∷ p) [] t h = absurd (ground arith)
strip_prefix-some (b ∷ p) (c ∷ s) t h = ground (arith, strip_prefix-some p s t)

strip_prefix-append : (p t : Str) → strip_prefix p (p ++ t) ≡ some t
unfolding strip_prefix
strip_prefix-append [] t = refl
strip_prefix-append (b ∷ p) t = ground (arith, strip_prefix-append p t)

-- What the Authorization header has to hold for a service token.
abbrev pub HasToken : (Bytes → List ℕ) → Str → Request → Type 0
HasToken sha256 expected request =
    (trim_space expected ≢ [])
    × (provided : Str) × (request.header (str "Authorization") ≡ str "Bearer " ++ provided)
    × (sha256 provided ≡ sha256 expected)

-- A request is authorized exactly if the configured token is not blank and the Authorization header is
-- `Bearer ` and a text with the token's SHA-256 digest.
pub authorize_service_iff :
    (sha256 : Bytes → List ℕ) (request : Request) (expected : Str)
    → (authorize_service sha256 request expected ≡ none) ↔ HasToken sha256 expected request
unfolding authorize_service
authorize_service_iff sha256 request expected = (
  λ h.
      let header = request.header (str "Authorization") in
      elim (Option-cases (strip_prefix (str "Bearer ") header)) [
        | inl e ↦ absurd (ground arith)
        | inr (t, e) ↦ (
          ground (arith, ==_iff (trim_space expected) []),
          t,
          strip_prefix-some (str "Bearer ") header t e,
          ground (arith, ==_iff (sha256 t) (sha256 expected)),
        )
      ],
  λ h.
      let (some_token, t, header, same) = h in
      ground (
        arith,
        ==_iff (trim_space expected) [],
        ==_iff (sha256 t) (sha256 expected),
        strip_prefix-append (str "Bearer ") t,
      ),
)

unfoldable pub is_quarantine : Route → Bool
is_quarantine quarantine_apply = true
is_quarantine quarantine_read = true
is_quarantine _ = false

refusal_status :
    (sha256 : Bytes → List ℕ) (request : Request) (expected : Str) (r : Response)
    → authorize_service sha256 request expected ≡ some r
    → (r.status ≡ 404) ⊎ (r.status ≡ 503)
unfolding authorize_service
refusal_status sha256 request expected r h =
    elim (Option-cases (strip_prefix (str "Bearer ") (request.header (str "Authorization")))) [
      | inl e ↦ elim (Bool-cases (trim_space expected == [])) [
        | inl blank ↦ inr (ground arith)
        | inr given ↦ inl (ground arith)
      ]
      | inr (t, e) ↦ elim (Bool-cases (trim_space expected == [])) [
        | inl blank ↦ inr (ground arith)
        | inr given ↦ inl (ground arith)
      ]
    ]

-- Without the token a request to a quarantine endpoint is answered 404 or 503, by a server with uploads
-- or without, and changes nothing.
pub without_token_refused :
    {N R : Type 0} (platform : Platform) (deps : Dependencies N) (s : Option (Uploads.Service R))
    → (route : Route) (request : Request) (st : Stores N (Stored R)) → is_quarantine route ≡ true
    → ¬ HasToken platform.sha256 deps.wardveil_service_token request
    → ((status_of (serve platform deps s route request st).0 ≡ some 404)
        ⊎ (status_of (serve platform deps s route request st).0 ≡ some 503))
      × ((serve platform deps s route request st).1 ≡ st)
unfolding serve upload_route base_server base_route middleware is_quarantine
    quarantine_apply_handler quarantine_read_handler
without_token_refused {R} platform deps s route request st which missing =
    elim (Option-cases (authorize_service platform.sha256 request deps.wardveil_service_token)) [
      | inl authorized ↦ absurd (
          missing (
            (authorize_service_iff platform.sha256 request deps.wardveil_service_token).0
              authorized))
      | inr (r, refused) ↦
          answer route s which r refused
            (refusal_status platform.sha256 request deps.wardveil_service_token r refused)
    ]
  where
    answer :
        (route : Route) (s : Option (Uploads.Service R))
        → is_quarantine route ≡ true
        → (r : Response)
        → authorize_service platform.sha256 request deps.wardveil_service_token ≡ some r
        → (r.status ≡ 404) ⊎ (r.status ≡ 503)
        → ((status_of (serve platform deps s route request st).0 ≡ some 404)
            ⊎ (status_of (serve platform deps s route request st).0 ≡ some 503))
          × ((serve platform deps s route request st).1 ≡ st)
    answer quarantine_apply none w r e c = ground arith
    answer quarantine_apply (some s) w r e c = ground arith
    answer quarantine_read none w r e c = ground arith
    answer quarantine_read (some s) w r e c = ground arith
    answer route s w r e c = absurd (ground arith)
