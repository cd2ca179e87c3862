-- ===== src/Service/Entry.antt =====
-- `main` of src/main.rs and what it starts in src/service_host.rs: `start_service` with
-- `my_service_main`, and `run_console`. The dispatcher of the service manager is a parameter.
use Prim.Native.String.{String}
use text.Mathlib.Text.{◌==◌ as ◌=str=◌}
use windows_command_runner.Base.{
  ℕ, ◌≡◌, ◌≢◌, ◌⊎◌, Bool, true, false, Option, none, some, List, [], ◌∷◌, if◌then◌else◌,
}
use windows_command_runner.Error.{Result, ok, err, start_dispatcher_failed}
use windows_command_runner.Service.Host.{Phase, Turn, run}
use windows_command_runner.Service.Control.{
  ControlApi, ServiceStatus, running, stopped, check, run_service, phase_after,
}
use mathlib.Core.Option

-- What the program meets: the error text of a dispatcher that does not start, and the calls of the
-- service, or the start and the turns of the host of the console. A dispatcher that starts runs
-- the service, and returns after it.
pub record Surroundings : Type 0 where
  pub dispatcher : Option String
  pub control : ControlApi
  pub started : ℕ
  pub turns : List Turn

-- The error is only logged: what remains is whether it has returned, and the states that were
-- reported.
unfoldable pub my_service_main : ControlApi → Option (Unit {0}) × List ServiceStatus
my_service_main api =
    let (r, told) = run_service api in (Option.map (λ (_ : Result (Unit {0})). tt) r, told)

unfoldable pub start_service : Surroundings → Option (Result (Unit {0})) × List ServiceStatus
unfolding my_service_main
start_service s = elim (check s.dispatcher start_dispatcher_failed) [
  | err e ↦ (some (err e), [])
  | ok _ ↦
      let (r, told) = my_service_main s.control in (Option.map (λ (_ : Unit {0}). ok tt) r, told)
]

-- `run` on a new host.
unfoldable pub run_console : Surroundings → Option (Result (Unit {0}))
unfolding run
run_console s = run s.started s.turns

unfoldable pub has_service_flag : List String → Bool
has_service_flag [] = false
has_service_flag (a ∷ args) =
    let rest = has_service_flag args in if a =str= "--service" then true else rest

-- What `main` has returned, if it has, and what the service manager has been told.
unfoldable pub main : Surroundings → List String → Option (Result (Unit {0})) × List ServiceStatus
unfolding start_service run_console
main s args = if has_service_flag args then start_service s else (run_console s, [])

-- What the service manager has been told and what `main` has returned, once the service was
-- started: success, and nothing told, if the handler cannot be registered or the first report
-- fails; success and running alone, if the runtime cannot be made; running alone and not returned
-- yet, while the host is not stopped; or success, and running and then stopped with code 0.
abbrev pub Tells : ControlApi → Option (Result (Unit {0})) × List ServiceStatus → Type 0
Tells api (r, told) =
    ((told ≡ [])
      × (((e : String) × (api.register ≡ some e)) ⊎ ((e : String) × (api.report_running ≡ some e)))
      × (r ≡ some (ok tt)))
    ⊎ ((told ≡ running ∷ [])
        × (api.register ≡ none)
        × (api.report_running ≡ none)
        × (((e : String) × (api.new_runtime ≡ some e) × (r ≡ some (ok tt)))
            ⊎ ((api.new_runtime ≡ none) × (phase_after api ≢ Phase.stopped) × (r ≡ none))))
    ⊎ ((told ≡ running ∷ stopped 0 ∷ [])
        × (api.register ≡ none)
        × (api.report_running ≡ none)
        × (api.new_runtime ≡ none)
        × (phase_after api ≡ Phase.stopped)
        × (r ≡ some (ok tt)))

-- A result of the service is only logged.
abbrev logged :
    Option (Result (Unit {0})) × List ServiceStatus
    → Option (Result (Unit {0})) × List ServiceStatus
logged (r, told) =
    (Option.map (λ (_ : Unit {0}). ok tt) (Option.map (λ (_ : Result (Unit {0})). tt) r), told)
