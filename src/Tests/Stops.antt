-- ===== src/Tests/Stops.antt =====
-- A server that is told to stop by a signal.
use goreecloud_drive.Prelude.{◌≡◌, refl, Bool, true, false, Option, none, some, [], ◌≤◌}
use goreecloud_drive.Errors.{Error, is, text, http_server_closed, ok}
use goreecloud_drive.Config.{IsSafe}
use goreecloud_drive.Command.{Running, start}
use goreecloud_drive.Command.Lifecycle.{
  exit_code, stopped, listening, finished, at_select, shutting_down, exited, Process,
  serve_returned, on_shutdown, begin, is_running, called_shutdown, own, closes, notices,
  serve_returns, signals, shutdown_returns, Run, still, further,
}
use goreecloud_drive.Command.Lifecycle.Progress.{Whereabouts, command_ends}
use goreecloud_drive.Command.Lifecycle.Outcome.{
  FailsBeforeShutdown, IsStopped, zero_exit_was_asked_for,
}
use goreecloud_drive.Tests.Fixtures.{staging, disk_with}
use goreecloud_drive.Tests.Starts.{surroundings, running, start_run}

abbrev Gives : Bool → Option Error → Type 0
Gives false r = r ≡ some (text "accept")
Gives true r = r ≡ some (is http_server_closed)

Gives-FailsBeforeShutdown : FailsBeforeShutdown Gives
Gives-FailsBeforeShutdown r same = (text "accept", same, refl)

abbrev first : Process
first = record {
  listener = listening;
  buffered = none;
  closed = false;
  signalled = false;
  main = at_select;
}

-- `ListenAndServe` returns ErrServerClosed while `Shutdown` waits, and errCh is closed.
abbrev last : Process
last = record {
  listener = finished;
  buffered = none;
  closed = true;
  signalled = true;
  main = exited stopped;
}

abbrev told : Process
told = record first { signalled = true }

abbrev waiting : Process
waiting = record told { main = shutting_down }

abbrev served : Process
served = record waiting { listener = serve_returned (some (is http_server_closed)) }

abbrev closed : Process
closed = record waiting { listener = finished; closed = true }

stopping : Run Gives first 5 last
unfolding serve_returned on_shutdown is_running called_shutdown
stopping =
    further 4 closed last
      (further 3 served closed
        (further 2 waiting served
          (further 1 told waiting (further 0 first told still (signals refl refl))
            (own waiting (notices refl refl)))
          (serve_returns (some (is http_server_closed)) refl refl refl))
        (own closed (closes refl refl)))
      (shutdown_returns none refl)

began : begin (ok running) ≡ first
unfolding begin
began = refl

stopping_from : Run Gives (begin (ok running)) 5 last
unfolding begin
stopping_from = stopping

command_ends_example : (5 ≤ 6) × Whereabouts last
command_ends_example = command_ends Gives (ok running) 5 last stopping_from

start_stopping : Run Gives (begin (start surroundings (disk_with staging [])).0) 5 last
start_stopping = rw start_run stopping_from

zero_exit_was_asked_for_example :
    ((given : Running) × ((start surroundings (disk_with staging [])).0 ≡ ok given)
      × IsSafe surroundings.parsers given.config)
    × IsStopped Gives (begin (start surroundings (disk_with staging [])).0) last
unfolding exit_code
zero_exit_was_asked_for_example =
    zero_exit_was_asked_for surroundings (disk_with staging []) Gives 5 last stopped
      Gives-FailsBeforeShutdown start_stopping refl refl
