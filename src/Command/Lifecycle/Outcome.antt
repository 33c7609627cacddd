-- ===== src/Command/Lifecycle/Outcome.antt =====
-- What an exit of `main` of cmd/server/main.go says: where the status is 0, and where it is not.
use goreecloud_drive.Prelude.{
  ◌≡◌, refl, Bool, true, false, Option, none, some, ℕ, arith, inl, inr, subst, sym,
}
use goreecloud_drive.Errors.{Error, http_server_closed, errors_is, Result, Result-cases, ok, err}
use goreecloud_drive.Os.{World}
use goreecloud_drive.Config.{IsSafe}
use goreecloud_drive.Command.{Surroundings, Running, start}
use goreecloud_drive.Command.Started.{start_lem}
use goreecloud_drive.Command.Lifecycle.{
  Ending, not_started, stopped_unexpectedly, shutdown_failed, stopped, exit_code, Listener,
  listening, sending, closing, finished, Main, at_select, shutting_down, exited, Process,
  serve_returned, received, on_error, on_shutdown, begin, is_running, called_shutdown, OwnStep,
  sends, closes, receives, notices, Step, own, serve_returns, signals, shutdown_returns, Run, still,
  further,
}

-- The documented behaviour of `ListenAndServe`: it returns an error, and not ErrServerClosed before
-- `Shutdown` is called.
abbrev pub FailsBeforeShutdown : (Bool → Option Error → Type 0) → Type 0
FailsBeforeShutdown returns =
    (r : Option Error)
    → returns false r
    → (e : Error) × (r ≡ some e) × (errors_is e http_server_closed ≡ false)

abbrev IsFailure : Option Error → Type 0
IsFailure r = (e : Error) × (r ≡ some e) × (errors_is e http_server_closed ≡ false)

-- While `main` is at the select, what the goroutine has brought back is a failure of the listener.
abbrev Brought : Listener → Option Error → Bool → Type 0
Brought listening buffered closed = (buffered ≡ none) × (closed ≡ false)
Brought (sending e) buffered closed =
    (buffered ≡ none) × (closed ≡ false) × (errors_is e http_server_closed ≡ false)
Brought closing buffered closed = (closed ≡ false) × IsFailure buffered
Brought finished buffered closed = IsFailure buffered

-- What the place of `main` says of the goroutine and of the signals.
abbrev IsOrderly : Process → Main → Type 0
IsOrderly p at_select = Brought p.listener p.buffered p.closed
IsOrderly p shutting_down = p.signalled ≡ true
IsOrderly p (exited (not_started _)) = Unit
IsOrderly p (exited (stopped_unexpectedly e)) = errors_is e http_server_closed ≡ false
IsOrderly p (exited (shutdown_failed _)) = p.signalled ≡ true
IsOrderly p (exited stopped) = p.signalled ≡ true

at_listener :
    {l : Listener} (p : Process)
    → p.listener ≡ l
    → IsOrderly p at_select
    → Brought l p.buffered p.closed
at_listener p at brought = subst (λ l. Brought l p.buffered p.closed) at brought

received-IsFailure :
    (p : Process) (l : Listener) (got : Option Error)
    → Brought l p.buffered p.closed
    → received p ≡ some got
    → IsFailure got
unfolding received
received-IsFailure p listening got (empty, opened) there = absurd (ground arith)
received-IsFailure p (sending e) got (empty, opened, odd) there = absurd (ground arith)
received-IsFailure p closing got (opened, (e, held, odd)) there = (e, ground arith, odd)
received-IsFailure p finished got (e, held, odd) there = (e, ground arith, odd)

on_error-IsOrderly : (p : Process) (got : Option Error) → IsFailure got → IsOrderly p (on_error got)
unfolding on_error
on_error-IsOrderly p none (e, same, odd) = absurd (ground arith)
on_error-IsOrderly p (some f) (e, same, odd) = ground arith

on_shutdown-IsOrderly :
    (p : Process) (r : Option Error) → p.signalled ≡ true → IsOrderly p (on_shutdown r)
unfolding on_shutdown
on_shutdown-IsOrderly p none told = told
on_shutdown-IsOrderly p (some e) told = told

sends-IsOrderly :
    (p : Process) (e : Error) (m : Main)
    → is_running m ≡ true
    → p.listener ≡ sending e
    → IsOrderly p m
    → IsOrderly (record p { listener = closing; buffered = some e }) m
unfolding is_running
sends-IsOrderly p e at_select live at orderly =
    let (empty, opened, odd) = at_listener p at orderly in (opened, (e, refl, odd))
sends-IsOrderly p e shutting_down live at told = told
sends-IsOrderly p e (exited x) live at told = absurd (ground arith)

closes-IsOrderly :
    (p : Process) (m : Main)
    → is_running m ≡ true
    → p.listener ≡ closing
    → IsOrderly p m
    → IsOrderly (record p { listener = finished; closed = true }) m
unfolding is_running
closes-IsOrderly p at_select live at orderly = (at_listener p at orderly).1
closes-IsOrderly p shutting_down live at told = told
closes-IsOrderly p (exited x) live at told = absurd (ground arith)

signals-IsOrderly :
    (p : Process) (m : Main)
    → is_running m ≡ true
    → IsOrderly p m
    → IsOrderly (record p { signalled = true }) m
unfolding is_running
signals-IsOrderly p at_select live orderly = orderly
signals-IsOrderly p shutting_down live told = refl
signals-IsOrderly p (exited x) live told = absurd (ground arith)

OwnStep-IsOrderly : (p q : Process) → OwnStep p q → IsOrderly p p.main → IsOrderly q q.main
OwnStep-IsOrderly p _ (sends e live at empty) orderly = sends-IsOrderly p e p.main live at orderly
OwnStep-IsOrderly p _ (closes live at) orderly = closes-IsOrderly p p.main live at orderly
OwnStep-IsOrderly p _ (receives got at there) orderly =
    on_error-IsOrderly (record p { buffered = none; main = on_error got }) got
      (received-IsFailure p p.listener got (subst (IsOrderly p) at orderly) there)
OwnStep-IsOrderly p _ (notices at told) orderly = told

module _ (returns : Bool → Option Error → Type 0) (fails : FailsBeforeShutdown returns) where
  serve_returns-IsOrderly :
      (p : Process) (r : Option Error) (m : Main)
      → is_running m ≡ true
      → p.listener ≡ listening
      → returns (called_shutdown m) r
      → IsOrderly p m
      → IsOrderly (record p { listener = serve_returned r }) m
  unfolding is_running called_shutdown serve_returned
  serve_returns-IsOrderly p r at_select live at may orderly =
      let (empty, opened) = at_listener p at orderly in
      let (e, same, odd) = fails r may in
      let now : serve_returned r ≡ sending e = ground arith in
      subst (λ l. Brought l p.buffered p.closed) (sym now) (empty, opened, odd)
  serve_returns-IsOrderly p r shutting_down live at may told = told
  serve_returns-IsOrderly p r (exited x) live at may told = absurd (ground arith)

  Step-IsOrderly : (p q : Process) → Step returns p q → IsOrderly p p.main → IsOrderly q q.main
  Step-IsOrderly p _ (own q step) orderly = OwnStep-IsOrderly p q step orderly
  Step-IsOrderly p _ (serve_returns r live at may) orderly =
      serve_returns-IsOrderly p r p.main live at may orderly
  Step-IsOrderly p _ (signals live before) orderly = signals-IsOrderly p p.main live orderly
  Step-IsOrderly p _ (shutdown_returns r at) orderly =
      on_shutdown-IsOrderly (record p { main = on_shutdown r }) r (subst (IsOrderly p) at orderly)

  Run-IsOrderly :
      (p q : Process) (n : ℕ) → Run returns p n q → IsOrderly p p.main → IsOrderly q q.main
  Run-IsOrderly p _ _ still orderly = orderly
  Run-IsOrderly p _ _ (further n mid last run step) orderly =
      Step-IsOrderly mid last step (Run-IsOrderly p mid n run orderly)

begin-IsOrderly : (built : Result Running) → IsOrderly (begin built) (begin built).main
unfolding begin
begin-IsOrderly (ok running) = (refl, refl)
begin-IsOrderly (err e) = tt

OwnStep-is_running : (p q : Process) → OwnStep p q → is_running p.main ≡ true
unfolding is_running
OwnStep-is_running p _ (sends e live at empty) = live
OwnStep-is_running p _ (closes live at) = live
OwnStep-is_running p _ (receives got at there) = ground arith
OwnStep-is_running p _ (notices at told) = ground arith

module _ (returns : Bool → Option Error → Type 0) where
  Step-is_running : (p q : Process) → Step returns p q → is_running p.main ≡ true
  unfolding is_running
  Step-is_running p _ (own q step) = OwnStep-is_running p q step
  Step-is_running p _ (serve_returns r live at may) = live
  Step-is_running p _ (signals live before) = live
  Step-is_running p _ (shutdown_returns r at) = ground arith

  -- Only a server that has started runs.
  Run-started :
      (built : Result Running) (p : Process) (n : ℕ)
      → Run returns (begin built) n p
      → is_running p.main ≡ true
      → (running : Running) × (built ≡ ok running)
  unfolding begin is_running
  Run-started (ok running) p n run live = (running, refl)
  Run-started (err e) _ _ still live = absurd (ground arith)
  Run-started (err e) _ _ (further n mid last run step) live =
      Run-started (err e) mid n run (Step-is_running mid last step)

-- The exit with status 0 is the step from a `Shutdown` without error.
abbrev pub IsStopped : (Bool → Option Error → Type 0) → Process → Process → Type 0
IsStopped returns first p =
    (m : ℕ) × (mid : Process) × Run returns first m mid
    × (mid.main ≡ shutting_down)
    × (mid.signalled ≡ true)
    × (p ≡ record mid { main = on_shutdown none })

module _ (returns : Bool → Option Error → Type 0) (fails : FailsBeforeShutdown returns)
    (built : Result Running) where
  final-IsStopped :
      (m : ℕ) (mid p : Process) (e : Ending)
      → Run returns (begin built) m mid
      → Step returns mid p
      → p.main ≡ exited e
      → exit_code e ≡ 0
      → IsStopped returns (begin built) p
  unfolding on_shutdown on_error exit_code is_running
  final-IsStopped m mid _ e run (own q (sends f live at empty)) ended zero = absurd (ground arith)
  final-IsStopped m mid _ e run (own q (closes live at)) ended zero = absurd (ground arith)
  final-IsStopped m mid _ e run (own q (receives none at there)) ended zero = absurd (ground arith)
  final-IsStopped m mid _ e run (own q (receives (some f) at there)) ended zero =
      absurd (ground arith)
  final-IsStopped m mid _ e run (own q (notices at told)) ended zero = absurd (ground arith)
  final-IsStopped m mid _ e run (serve_returns r live at may) ended zero = absurd (ground arith)
  final-IsStopped m mid _ e run (signals live before) ended zero = absurd (ground arith)
  final-IsStopped m mid _ e run (shutdown_returns (some f) at) ended zero = absurd (ground arith)
  final-IsStopped m mid _ e run (shutdown_returns none at) ended zero =
      let orderly = Run-IsOrderly returns fails (begin built) mid m run (begin-IsOrderly built) in
      (m, mid, run, at, subst (IsOrderly mid) at orderly, refl)

  ended-IsStopped :
      (n : ℕ) (p : Process) (e : Ending)
      → Run returns (begin built) n p
      → p.main ≡ exited e
      → exit_code e ≡ 0
      → IsStopped returns (begin built) p
  unfolding begin exit_code
  ended-IsStopped _ _ e still ended zero = elim (Result-cases built) [
    | inl (running, same) ↦ absurd (ground arith)
    | inr (cause, same) ↦ absurd (ground arith)
  ]
  ended-IsStopped _ _ e (further n mid last run step) ended zero =
      final-IsStopped n mid last e run step ended zero

-- A command that exits with status 0 had started, with a safe configuration, was told to stop by a
-- signal, and ended with the step in which `Shutdown` returned no error: whatever the order of the steps
-- and whatever `ListenAndServe` returns, as long as it is documented: an error, and before `Shutdown` is
-- called not ErrServerClosed.
pub zero_exit_was_asked_for :
    (x : Surroundings) (w : World) (returns : Bool → Option Error → Type 0) (n : ℕ) (p : Process)
    → (e : Ending) → FailsBeforeShutdown returns
    → Run returns (begin (start x w).0) n p
    → p.main ≡ exited e
    → exit_code e ≡ 0
    → ((running : Running) × ((start x w).0 ≡ ok running) × IsSafe x.parsers running.config)
      × IsStopped returns (begin (start x w).0) p
unfolding is_running
zero_exit_was_asked_for x w returns n p e fails run ended zero =
    let (m, mid, before, at, told, same) =
      ended-IsStopped returns fails (start x w).0 n p e run ended zero in
    let (running, started) = Run-started returns (start x w).0 mid m before (ground arith) in
    ((running, started, (start_lem x w running started).0), (m, mid, before, at, told, same))
