-- ===== src/Command/Lifecycle.antt =====
-- `main` of cmd/server/main.go from the listener to the exit: the goroutine that listens, the channel
-- errCh, the select and the shutdown, as steps that interleave in any order. The listener of net/http is
-- a parameter: what `ListenAndServe` may return. The signals, and the result of `Shutdown`, are chosen
-- by the surroundings. The model begins where signal.NotifyContext has returned.
pub mod Progress
pub mod Outcome
use goreecloud_drive.Prelude.{
  ◌≡◌, Bool, true, false, not, Option, none, some, if◌then◌else◌, ℕ, suc,
}
use goreecloud_drive.Errors.{Error, http_server_closed, errors_is, Result, ok, err}
use goreecloud_drive.Command.{Running}

-- The last line of the log. `not_started` is any of the errors before the listener.
pub data Ending : Type 0 where
  not_started : Error → Ending
  stopped_unexpectedly : Error → Ending
  shutdown_failed : Error → Ending
  stopped : Ending

-- The exit status.
unfoldable pub exit_code : Ending → ℕ
exit_code stopped = 0
exit_code _ = 1

-- The goroutine: in `ListenAndServe`, at `errCh <- err`, at `close(errCh)`, or at its end.
pub data Listener : Type 0 where
  listening : Listener
  sending : Error → Listener
  closing : Listener
  finished : Listener

-- `main`: at the select, in `Shutdown`, or at its end.
pub data Main : Type 0 where
  at_select : Main
  shutting_down : Main
  exited : Ending → Main

-- `buffered` is the one place of errCh, `signalled` whether ctx is done.
pub record Process : Type 0 where
  pub listener : Listener
  pub buffered : Option Error
  pub closed : Bool
  pub signalled : Bool
  pub main : Main

-- The goroutine after `ListenAndServe`.
unfoldable pub serve_returned : Option Error → Listener
serve_returned none = closing
serve_returned (some e) = if not (errors_is e http_server_closed) then sending e else closing

-- What a receive from errCh gives: a nil error once it is closed and empty; `none` is a wait.
unfoldable pub received : Process → Option (Option Error)
received p = elim p.buffered [
  | some e ↦ some (some e)
  | none ↦ if p.closed then some none else none
]

-- `case err := <-errCh`
unfoldable pub on_error : Option Error → Main
on_error (some e) = exited (stopped_unexpectedly e)
on_error none = shutting_down

-- `main` after `Shutdown`.
unfoldable pub on_shutdown : Option Error → Main
on_shutdown (some e) = exited (shutdown_failed e)
on_shutdown none = exited stopped

-- `main` once the components are built or rejected.
unfoldable pub begin : Result Running → Process
begin built = record {
  listener = listening;
  buffered = none;
  closed = false;
  signalled = false;
  main = elim built [ err e ↦ exited (not_started e) | ok _ ↦ at_select ];
}

-- An exit ends the goroutine as well.
unfoldable pub is_running : Main → Bool
is_running (exited _) = false
is_running _ = true

unfoldable pub called_shutdown : Main → Bool
called_shutdown at_select = false
called_shutdown _ = true

-- The steps that the command takes by itself.
pub data OwnStep (p : Process) : Process → Type 0 where
  sends :
      (e : Error)
      → is_running p.main ≡ true
      → p.listener ≡ sending e
      → p.buffered ≡ none
      → OwnStep p (record p { listener = closing; buffered = some e })
  closes :
      is_running p.main ≡ true
      → p.listener ≡ closing
      → OwnStep p (record p { listener = finished; closed = true })
  receives :
      (got : Option Error)
      → p.main ≡ at_select
      → received p ≡ some got
      → OwnStep p (record p { buffered = none; main = on_error got })
  notices : p.main ≡ at_select → p.signalled ≡ true → OwnStep p (record p { main = shutting_down })

-- All steps. `returns` tells what `ListenAndServe` may return, before `Shutdown` was called (`false`)
-- and after. The first signal counts; a later one finds ctx done.
pub data Step (returns : Bool → Option Error → Type 0) (p : Process) : Process → Type 0 where
  own : (q : Process) → OwnStep p q → Step returns p q
  serve_returns :
      (r : Option Error)
      → is_running p.main ≡ true
      → p.listener ≡ listening
      → returns (called_shutdown p.main) r
      → Step returns p (record p { listener = serve_returned r })
  signals :
      is_running p.main ≡ true
      → p.signalled ≡ false
      → Step returns p (record p { signalled = true })
  shutdown_returns :
      (r : Option Error)
      → p.main ≡ shutting_down
      → Step returns p (record p { main = on_shutdown r })

-- A run of so many steps.
pub data Run (returns : Bool → Option Error → Type 0) (p : Process) : ℕ → Process → Type 0 where
  still : Run returns p 0 p
  further :
      (n : ℕ) (mid last : Process)
      → Run returns p n mid
      → Step returns mid last
      → Run returns p (suc n) last
