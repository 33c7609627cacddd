-- ===== src/Errors.antt =====
-- Go's `error` values: the sentinels that the packages declare with `errors.New`, and the wrapping
-- by `fmt.Errorf`. Messages are kept as text and never inspected; `errors.Is` walks the `%w` chain.
use goreecloud_drive.Prelude.{ℕ, String, ◌≡◌, refl, ap, ◌⊎◌, inl, inr, Bool, false, eqb}
use goreecloud_drive.Wardveil.Types.{Decision}

-- The package-level error variables, and the standard library's sentinels that the code tests for.
pub data Sentinel : Type 0 where
  unauthenticated : Sentinel
  not_member : Sentinel
  node_forbidden node_invalid node_not_found node_unavailable : Sentinel
  quota_unavailable quota_exceeded quota_invalid_size : Sentinel
  quarantine_conflict quarantine_reconciliation : Sentinel
  upload_not_found upload_forbidden upload_expired upload_offset_mismatch : Sentinel
  upload_completed upload_invalid_target : Sentinel
  upload_security_unavailable upload_security_blocked : Sentinel
  os_exist os_not_exist : Sentinel
  sql_no_rows : Sentinel
  http_server_closed : Sentinel

-- `is` is a variable of its package, `wrap` is `fmt.Errorf("...: %w", err)`, `blocked` is a
-- `*SecurityBlockedError`, and `text` any other error: one with no sentinel in its chain.
pub data Error : Type 0 where
  is : Sentinel → Error
  wrap : String → Error → Error
  blocked : Decision → Error
  text : String → Error

-- The identity of a sentinel: its address in the program.
abbrev pub address : Sentinel → ℕ
address unauthenticated = 0
address not_member = 1
address node_forbidden = 2
address node_invalid = 3
address node_not_found = 4
address node_unavailable = 5
address quota_unavailable = 6
address quota_exceeded = 7
address quota_invalid_size = 8
address quarantine_conflict = 9
address quarantine_reconciliation = 10
address upload_not_found = 11
address upload_forbidden = 12
address upload_expired = 13
address upload_offset_mismatch = 14
address upload_completed = 15
address upload_invalid_target = 16
address upload_security_unavailable = 17
address upload_security_blocked = 18
address os_exist = 19
address os_not_exist = 20
address sql_no_rows = 21
address http_server_closed = 22

-- errors.Is(err, target)
abbrev pub errors_is : Error → Sentinel → Bool
errors_is (is s) t = eqb (address s) (address t)
errors_is (wrap _ e) t = errors_is e t
errors_is (blocked _) t = eqb (address upload_security_blocked) (address t)
errors_is (text _) t = false

-- A Go result `(T, error)` whose value is not used beside an error.
pub data Result {ℓ} (A : Type ℓ) : Type ℓ where
  ok : A → Result A
  err : Error → Result A

pub Result-cases {ℓ} :
    {A : Type ℓ} (r : Result A) → ((a : A) × (r ≡ ok a)) ⊎ ((e : Error) × (r ≡ err e))
Result-cases (ok a) = inl (a, refl)
Result-cases (err e) = inr (e, refl)

pub ok_injective {ℓ} : {A : Type ℓ} {a b : A} → ok a ≡ ok b → a ≡ b
ok_injective {A} {a} {b} h = ap (λ r. elim r [ ok x ↦ x | err _ ↦ a ]) h
