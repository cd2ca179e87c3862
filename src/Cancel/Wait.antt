-- ===== src/Cancel/Wait.antt =====
-- `wait_for_process_exit` of src/cancellation.rs: the race of a blocking wait with the token. An
-- exit code is the bit pattern of its 32 bits.
use Prim.Native.String.{String}
use windows_command_runner.Base.{ℕ, ◌≡◌, ◌≢◌, refl, Option, none, some, List, [], ◌∷◌, ◌++◌, All}
use windows_command_runner.Windows.{minus_one}
use windows_command_runner.Error.{
  Result, ok, err, process_launch_failed, wait_cancelled, wait_failed,
}

-- What the race may see next: a wait of one second that ends without the process, a wait that the
-- process ends, with what `GetExitCodeProcess` gives if it succeeds, a blocking task that is lost,
-- with its error, or the cancellation.
pub data WaitEvent : Type 0 where
  still_running cancelled : WaitEvent
  exited : Option ℕ → WaitEvent
  lost : String → WaitEvent

abbrev pub exit_code_or_minus_one : Option ℕ → ℕ
exit_code_or_minus_one (some code) = code
exit_code_or_minus_one none = minus_one

-- `none` while it waits.
unfoldable pub wait_for_process_exit : List WaitEvent → Option (Result ℕ)
wait_for_process_exit [] = none
wait_for_process_exit (still_running ∷ events) = wait_for_process_exit events
wait_for_process_exit (exited code ∷ events) = some (ok (exit_code_or_minus_one code))
wait_for_process_exit (lost text ∷ events) = some (err (process_launch_failed (wait_failed text)))
wait_for_process_exit (cancelled ∷ events) = some (err (process_launch_failed wait_cancelled))

-- `.unwrap_or(-1)` of the caller, in src/pipe_server.rs.
abbrev pub reported : Result ℕ → ℕ
reported (ok code) = code
reported (err _) = minus_one

abbrev pub IsWaiting : WaitEvent → Type 0
IsWaiting e = e ≡ still_running

-- What an event that ends the wait makes the caller report.
abbrev pub code_of : WaitEvent → ℕ
code_of (exited code) = exit_code_or_minus_one code
code_of _ = minus_one

-- The wait lasts while the process runs on, and the first other event decides it, whatever
-- follows: the caller reports the exit code if the process has ended and it could be read, and -1
-- if not, so also after a cancellation.
wait_for_process_exit_lem :
    (waits : List WaitEvent) (e : WaitEvent) (events : List WaitEvent)
    → All IsWaiting waits
    → e ≢ still_running
    → (wait_for_process_exit waits ≡ none)
      × ((r : Result ℕ) × (wait_for_process_exit (waits ++ e ∷ events) ≡ some r)
          × (reported r ≡ code_of e))
unfolding wait_for_process_exit
wait_for_process_exit_lem [] still_running events h n = absurd (n refl)
wait_for_process_exit_lem [] cancelled events h n = (refl, (_, refl, refl))
wait_for_process_exit_lem [] (exited code) events h n = (refl, (_, refl, refl))
wait_for_process_exit_lem [] (lost text) events h n = (refl, (_, refl, refl))
wait_for_process_exit_lem (w ∷ waits) e events (h, hs) n =
    rw (h, wait_for_process_exit) (wait_for_process_exit_lem waits e events hs n)
