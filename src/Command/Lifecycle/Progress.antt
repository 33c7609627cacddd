-- ===== src/Command/Lifecycle/Progress.antt =====
-- How a run of `main` of cmd/server/main.go goes on, and how it ends.
use goreecloud_drive.Prelude.{
  ◌≡◌, refl, Bool, true, false, Option, none, some, ℕ, ◌+◌, ◌≤◌, arith, inl, inr, ◌⊎◌, Bool-cases,
  subst,
}
use goreecloud_drive.Errors.{Error, Result}
use goreecloud_drive.Command.{Running}
use goreecloud_drive.Command.Lifecycle.{
  Ending, Listener, listening, sending, closing, finished, Main, at_select, shutting_down, exited,
  Process, serve_returned, received, on_error, on_shutdown, begin, is_running, OwnStep, sends,
  closes, receives, notices, Step, own, serve_returns, signals, shutdown_returns, Run, still,
  further,
}

abbrev listener_left : Listener → ℕ
listener_left listening = 3
listener_left (sending _) = 2
listener_left closing = 1
listener_left finished = 0

abbrev main_left : Main → ℕ
main_left at_select = 2
main_left shutting_down = 1
main_left (exited _) = 0

abbrev signal_left : Bool → ℕ
signal_left true = 0
signal_left false = 1

-- The steps that may be left.
abbrev left : Process → ℕ
left p = listener_left p.listener + main_left p.main + signal_left p.signalled

serve_returned-left : (r : Option Error) → listener_left (serve_returned r) ≤ 2
unfolding serve_returned
serve_returned-left none = omega arith
serve_returned-left (some e) = ground arith

on_error-left : (r : Option Error) → main_left (on_error r) ≤ 1
unfolding on_error
on_error-left none = omega arith
on_error-left (some e) = omega arith

on_shutdown-left : (r : Option Error) → main_left (on_shutdown r) ≡ 0
unfolding on_shutdown
on_shutdown-left none = refl
on_shutdown-left (some e) = refl

OwnStep-left : (p q : Process) → OwnStep p q → left q + 1 ≤ left p
OwnStep-left p _ (sends e live at empty) = ground arith
OwnStep-left p _ (closes live at) = ground arith
OwnStep-left p _ (receives got at there) = ground (arith, on_error-left got)
OwnStep-left p _ (notices at done) = ground arith

module _ (returns : Bool → Option Error → Type 0) where
  Step-left : (p q : Process) → Step returns p q → left q + 1 ≤ left p
  Step-left p _ (own q step) = OwnStep-left p q step
  Step-left p _ (serve_returns r live at may) = ground (arith, serve_returned-left r)
  Step-left p _ (signals live before) = ground arith
  Step-left p _ (shutdown_returns r at) = ground (arith, on_shutdown-left r)

  Run-left : (p q : Process) (n : ℕ) → Run returns p n q → left q + n ≤ left p
  Run-left p _ _ still = omega arith
  Run-left p _ _ (further n mid last run step) =
      omega (arith, Run-left p mid n run, Step-left mid last step)

-- What the goroutine has done so far.
abbrev IsTidy : Listener → Option Error → Bool → Type 0
IsTidy listening buffered closed = (buffered ≡ none) × (closed ≡ false)
IsTidy (sending _) buffered closed = (buffered ≡ none) × (closed ≡ false)
IsTidy closing buffered closed = closed ≡ false
IsTidy finished buffered closed = closed ≡ true

abbrev ProcessIsTidy : Process → Type 0
ProcessIsTidy p = IsTidy p.listener p.buffered p.closed

serve_returned-IsTidy :
    (r : Option Error) (buffered : Option Error) (closed : Bool)
    → buffered ≡ none
    → closed ≡ false
    → IsTidy (serve_returned r) buffered closed
unfolding serve_returned
serve_returned-IsTidy none buffered closed e f = f
serve_returned-IsTidy (some e) buffered closed empty opened = ground arith

emptied-IsTidy :
    (l : Listener) (buffered : Option Error) (closed : Bool)
    → IsTidy l buffered closed
    → IsTidy l none closed
emptied-IsTidy listening buffered closed tidy = (refl, tidy.1)
emptied-IsTidy (sending _) buffered closed tidy = (refl, tidy.1)
emptied-IsTidy closing buffered closed tidy = tidy
emptied-IsTidy finished buffered closed tidy = tidy

at_listener :
    {l : Listener} (p : Process) → p.listener ≡ l → ProcessIsTidy p → IsTidy l p.buffered p.closed
at_listener p at tidy = subst (λ l. IsTidy l p.buffered p.closed) at tidy

OwnStep-IsTidy : (p q : Process) → OwnStep p q → ProcessIsTidy p → ProcessIsTidy q
OwnStep-IsTidy p _ (sends e live at empty) tidy = (at_listener p at tidy).1
OwnStep-IsTidy p _ (closes live at) tidy = refl
OwnStep-IsTidy p _ (receives got at there) tidy = emptied-IsTidy p.listener p.buffered p.closed tidy
OwnStep-IsTidy p _ (notices at done) tidy = tidy

module _ (returns : Bool → Option Error → Type 0) where
  Step-IsTidy : (p q : Process) → Step returns p q → ProcessIsTidy p → ProcessIsTidy q
  Step-IsTidy p _ (own q step) tidy = OwnStep-IsTidy p q step tidy
  Step-IsTidy p _ (serve_returns r live at may) tidy =
      let (empty, opened) = at_listener p at tidy in
      serve_returned-IsTidy r p.buffered p.closed empty opened
  Step-IsTidy p _ (signals live before) tidy = tidy
  Step-IsTidy p _ (shutdown_returns r at) tidy = tidy

  Run-IsTidy : (p q : Process) (n : ℕ) → Run returns p n q → ProcessIsTidy p → ProcessIsTidy q
  Run-IsTidy p _ _ still tidy = tidy
  Run-IsTidy p _ _ (further n mid last run step) tidy =
      Step-IsTidy mid last step (Run-IsTidy p mid n run tidy)

-- Where a process is: it has exited, has a step of its own, waits for `Shutdown`, which returns by its
-- timeout, or serves and has had no signal.
abbrev pub Whereabouts : Process → Type 0
Whereabouts p =
    ((e : Ending) × (p.main ≡ exited e))
    ⊎ ((q : Process) × OwnStep p q)
    ⊎ (p.main ≡ shutting_down)
    ⊎ ((p.main ≡ at_select) × (p.listener ≡ listening) × (p.signalled ≡ false))

select_goes_on :
    (p : Process) (l : Listener)
    → p.main ≡ at_select
    → p.listener ≡ l
    → p.signalled ≡ false
    → IsTidy l p.buffered p.closed
    → Whereabouts p
unfolding is_running received
select_goes_on p listening at here quiet tidy = inr (inr (inr (at, here, quiet)))
select_goes_on p (sending e) at here quiet tidy =
    inr
      (inl (record p { listener = closing; buffered = some e }, sends e (ground arith) here tidy.0))
select_goes_on p closing at here quiet tidy =
    inr (inl (record p { listener = finished; closed = true }, closes (ground arith) here))
select_goes_on p finished at here quiet tidy =
    let there : received p ≡ some p.buffered = ground arith in
    inr
      (inl (record p { buffered = none; main = on_error p.buffered }, receives p.buffered at there))

goes_on : (p : Process) (m : Main) → p.main ≡ m → ProcessIsTidy p → Whereabouts p
goes_on p (exited e) at tidy = inl (e, at)
goes_on p shutting_down at tidy = inr (inr (inl at))
goes_on p at_select at tidy = elim (Bool-cases p.signalled) [
  | inl told ↦ inr (inl (record p { main = shutting_down }, notices at told))
  | inr quiet ↦ select_goes_on p p.listener at refl quiet tidy
]

-- The command ends: a run of it, from the components built or rejected, has at most 6 steps, in any
-- order and whatever `ListenAndServe` and `Shutdown` return. And it never gets stuck: after a run it has
-- exited, or it has a step of its own, or it waits for `Shutdown` to return, or it is still in
-- `ListenAndServe` and has had no signal.
pub command_ends :
    (returns : Bool → Option Error → Type 0) (built : Result Running) (n : ℕ) (p : Process)
    → Run returns (begin built) n p
    → (n ≤ 6) × Whereabouts p
unfolding begin
command_ends returns built n p run = (
  ground (arith, Run-left returns (begin built) p n run),
  goes_on p p.main refl (Run-IsTidy returns (begin built) p n run (refl, refl)),
)
