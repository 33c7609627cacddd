-- ===== src/Http/Quarantine.antt =====
-- internal/httpapi/quarantine.go: the internal endpoints that Wardveil calls, behind a service token.
-- SHA-256 is a function on byte strings.
use goreecloud_drive.Prelude.{ℕ, not, Option, none, some, List, [], if◌then◌else◌}
use goreecloud_drive.Prelude.Text.{Str, str, ◌==◌, trim_space, strip_prefix}
use goreecloud_drive.Errors.{ok, err}
use goreecloud_drive.Os.{World, Bytes}
use goreecloud_drive.Wardveil.Types.{Scope}
use goreecloud_drive.Quarantine.{
  ApplyRequest, ApplyResult, ReadResult, Status, applied, already_applied, failed, unknown,
}
use goreecloud_drive.Http.Message
use goreecloud_drive.Http.Message.{Request, Response, Decoder, decode_json, write_json, write_error}
use goreecloud_drive.Http.Nodes.{Handler, Answer, replying}

-- `Target` over the disk.
pub record Target : Type 0 where
  pub apply : ApplyRequest → World → ApplyResult × World
  pub read : Scope → World → ReadResult × World

-- The digests are compared in constant time: the result is their equality.
abbrev same_token : (Bytes → List ℕ) → Str → Option Str → Option Response
same_token sha256 expected none = some (write_error 404 "not found")
same_token sha256 expected (some provided) =
    if not (sha256 provided == sha256 expected) then some (write_error 404 "not found") else none

-- `authorizeWardveilService`: the refusal, or none.
unfoldable pub authorize_service : (Bytes → List ℕ) → Request → Str → Option Response
authorize_service sha256 request expected =
    if trim_space expected == []
    then some (write_error 503 "service authorization unavailable")
    else same_token sha256 expected
        (strip_prefix (str "Bearer ") (request.header (str "Authorization")))

-- The status of the response to a result.
unfoldable pub apply_status : Status → ℕ
apply_status applied = 200
apply_status already_applied = 200
apply_status failed = 409
apply_status _ = 503

unfoldable pub read_status : Status → ℕ
read_status unknown = 503
read_status _ = 200

module _ (sha256 : Bytes → List ℕ) (target : Option Target) (service_token : Str) where
  -- The handlers up to the call of the target.
  abbrev for_service :
      {T : Type 0} → Decoder T → (Target → T → World → Response × World) → Answer World
  for_service decoder call request w = elim (authorize_service sha256 request service_token) [
    | some refusal ↦ (refusal, w)
    | none ↦ elim target [
      | none ↦ (write_error 503 "quarantine target unavailable", w)
      | some t ↦ elim (decode_json decoder request.body) [
        | err _ ↦ (write_error 400 "invalid request body", w)
        | ok body ↦ call t body w
      ]
    ]
  ]

  -- `quarantineApplyHandler`
  unfoldable pub quarantine_apply_handler : Decoder ApplyRequest → Handler World
  quarantine_apply_handler decoder = replying (
      for_service decoder λ t body w.
        let (r, w') = t.apply body w in
        (write_json (apply_status r.status) (Message.applied r), w'))

  -- `quarantineReadHandler`
  unfoldable pub quarantine_read_handler : Decoder Scope → Handler World
  quarantine_read_handler decoder = replying (
      for_service decoder λ t scope w.
        let (r, w') = t.read scope w in (write_json (read_status r.status) (Message.read r), w'))
