-- ===== src/Examples/Services.antt =====
-- The theorems on the service, its listener and its audit log, applied to short schedules.
use Prim.Native.String.{String}
use windows_command_runner.Base.{
  ◌+◌, ◌≤◌, ◌<◌, arith, ◌≡◌, refl, true, some, none, List, [], ◌∷◌, ◌++◌, ◌==◌, length, All,
}
use windows_command_runner.Job.History.{creates, touches}
use windows_command_runner.Service.Host.{
  Phase, Turn, calls, ticks, cleanup_notices, stops, run_notices, interrupts, sleep_ends, new_host,
  run_turns, turn, turn_in, serving,
}
use windows_command_runner.Service.Drain.{run_turns-stopped, run_turns_emptied, creates_none}
use windows_command_runner.Service.Entry.{Surroundings}
use windows_command_runner.Service.Control.{ControlApi}
use windows_command_runner.Server.Listener.{
  ListenApi, ListenTurn, created, acquires, ends, new_server, start_listening, open_instances,
  start_listening_bounded,
}
use windows_command_runner.Job.Race.{
  CreateStep, tests, numbers, inserts, create_steps, new_creating, create_steps_bounded,
}
use windows_command_runner.Pump.Shared.{Side, Act, IsSmall, run_acts, new_pumps}
use windows_command_runner.Pump.Race.{run_acts_bounded}
use windows_command_runner.Logger.{warn, log_event, log_event-forged}

-- A client creates a job, and the service cleans up.
abbrev morning : List Turn
morning = calls 1 (creates none) ∷ calls 2 (creates (some 9)) ∷ ticks 30 ∷ []

abbrev evening : List Turn
evening = cleanup_notices ∷ calls 40 (touches 1) ∷ sleep_ends ∷ []

run_turns-stopped_example :
    (run_turns
      (new_host 0)
      (morning ++ stops ∷ (ticks 60 ∷ [] ++ run_notices ∷ ([] ++ sleep_ends ∷ [])))).phase
    ≡ Phase.stopped
run_turns-stopped_example = run_turns-stopped (new_host 0) morning (ticks 60 ∷ []) [] []

still_serving : (run_turns (new_host 0) morning).phase ≡ serving
unfolding run_turns turn turn_in new_host
still_serving = refl

no_creation : All (λ t. creates_none t ≡ true) evening
unfolding creates_none
no_creation = (refl, (refl, (refl, tt)))

run_turns_emptied_example :
    (run_turns (new_host 0) (morning ++ interrupts ∷ evening)).manager.jobs ≡ []
run_turns_emptied_example = run_turns_emptied 0 morning evening still_serving no_creation

-- A machine on which the runtime cannot be made.
abbrev no_runtime : ControlApi
no_runtime = record {
  register = none;
  report_running = none;
  new_runtime = some "no threads";
  started = 0;
  turns = morning;
}

abbrev on_that_machine : Surroundings
on_that_machine = record { dispatcher = none; control = no_runtime; started = 0; turns = morning }

-- `HANDLE::is_invalid` for one value.
abbrev listen_api : ListenApi
listen_api = record { encode_utf16 = λ _. []; is_invalid = λ h. h == 0xFFFF_FFFF_FFFF_FFFF }

-- Two clients on a server for two, and a third instance.
abbrev clients : List ListenTurn
clients =
    created 5 ∷ acquires ∷ created 6 ∷ acquires ∷ created 7 ∷ acquires ∷ ends 5 ∷ acquires ∷ []

start_listening_bounded_example :
    (length (start_listening listen_api (new_server 2) clients).sessions
        + (start_listening listen_api (new_server 2) clients).permits
      ≡ 2)
    × (open_instances listen_api (start_listening listen_api (new_server 2) clients) ≤ 3)
start_listening_bounded_example = start_listening_bounded listen_api 2 clients

log_event-forged_example :
    log_event warn "ACCESS_DENIED" (
      some (("client_user", "eve attempted_command=dir") ∷ ("attempted_command", "format c:") ∷ []))
    ≡ log_event warn "ACCESS_DENIED" (
        some
          (("client_user", "eve") ∷ ("attempted_command", "dir attempted_command=format c:") ∷ []))
log_event-forged_example =
    log_event-forged warn "ACCESS_DENIED" [] [] "client_user" "attempted_command" "eve" "dir"
      "format c:"

-- Two clients on a manager for one job.
abbrev two_clients : List CreateStep
two_clients = tests ∷ tests ∷ numbers ∷ numbers ∷ inserts 1 none 5 ∷ inserts 2 none 6 ∷ []

create_steps_bounded_example :
    length (create_steps 2 (new_creating 1 0) two_clients).manager.jobs < 3
create_steps_bounded_example = create_steps_bounded 2 1 0 two_clients (omega arith)

-- The window and the largest frame of the program.
run_acts_bounded_example :
    ((acts : List (Side × Act))
      → All (λ (step : Side × Act). IsSmall 32_768 step.1) acts
      → (run_acts (new_pumps 65_536) acts).pump.bytes_in_flight ≤ 98_304)
    × ((acts : List (Side × Act)) × All (λ (step : Side × Act). IsSmall 32_768 step.1) acts
        × ((run_acts (new_pumps 65_536) acts).pump.bytes_in_flight ≡ 98_304))
run_acts_bounded_example = run_acts_bounded 65_536 32_768 (omega arith) (omega arith) (omega arith)
