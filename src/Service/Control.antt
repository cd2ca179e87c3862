-- ===== src/Service/Control.antt =====
-- The module `service_impl` of src/service_host.rs: controls and reported states. The service
-- manager and the runtime are parameters.
use Prim.Native.String.{String}
use windows_command_runner.Base.{
  ℕ, ◌≡◌, ◌≢◌, refl, ◌⊎◌, inl, inr, Option-cases, Option, none, some, arith, List, [], ◌∷◌,
}
use windows_command_runner.Error.{
  Result, ok, err, Message, service, register_handler_failed, set_status_failed, runtime_failed,
}
use windows_command_runner.Service.Host.{
  ServiceHost, Phase, Turn, stop, run, run_result, run_turns, new_host,
}

pub data ServiceControl : Type 0 where
  stop_control shutdown_control interrogate other_control : ServiceControl

pub data HandlerResult : Type 0 where
  no_error not_implemented : HandlerResult

-- `event_handler`
unfoldable pub event_handler : ServiceHost → ServiceControl → ServiceHost × HandlerResult
event_handler s stop_control = (stop s, no_error)
event_handler s shutdown_control = (stop s, no_error)
event_handler s interrogate = (s, no_error)
event_handler s other_control = (s, not_implemented)

-- A reported status: running, which accepts stop and shutdown, or stopped with an exit code.
pub data ServiceStatus : Type 0 where
  running : ServiceStatus
  stopped : ℕ → ServiceStatus

-- What the calls of `run_service` give, with the error text of one that fails, and the start and
-- the turns of the host that it runs.
pub record ControlApi : Type 0 where
  pub register : Option String
  pub report_running : Option String
  pub new_runtime : Option String
  pub started : ℕ
  pub turns : List Turn

-- `map_err(..)?` on a call.
abbrev pub check : Option String → (String → Message) → Result (Unit {0})
check none f = ok tt
check (some e) f = err (service (f e))

abbrev pub exit_code : Result (Unit {0}) → ℕ
exit_code (ok _) = 0
exit_code (err _) = 1

-- From the run of the host: nothing more while it runs, then the last report, whether or not the
-- report succeeds, and the result.
abbrev after_run : Option (Result (Unit {0})) → Option (Result (Unit {0})) × List ServiceStatus
after_run none = (none, running ∷ [])
after_run (some r) = (some r, running ∷ stopped (exit_code r) ∷ [])

-- `run_service`: its result, once it has returned, and the states that it has reported.
unfoldable pub run_service : ControlApi → Option (Result (Unit {0})) × List ServiceStatus
unfolding run
run_service api = elim (check api.register register_handler_failed) [
  | err e ↦ (some (err e), [])
  | ok _ ↦ elim (check api.report_running set_status_failed) [
    | err e ↦ (some (err e), [])
    | ok _ ↦ elim (check api.new_runtime runtime_failed) [
      | err e ↦ (some (err e), running ∷ [])
      | ok _ ↦ after_run (run api.started api.turns)
    ]
  ]
]

-- The phase of the host after its turns.
abbrev pub phase_after : ControlApi → Phase
phase_after api = (run_turns (new_host api.started) api.turns).phase

-- What the service manager has been told, and what the call has returned, on every path: nothing,
-- and the error of the call that failed, if the handler cannot be registered or the first report
-- fails; running alone, and the error, if the runtime cannot be made; running alone, and nothing
-- yet, while the host is not stopped; or running and then stopped with code 0, and success.
abbrev pub Reports : ControlApi → Option (Result (Unit {0})) × List ServiceStatus → Type 0
Reports api (r, told) =
    ((told ≡ [])
      × (((e : String) × (api.register ≡ some e)
            × (r ≡ some (err (service (register_handler_failed e)))))
          ⊎ ((e : String) × (api.register ≡ none)
              × (api.report_running ≡ some e)
              × (r ≡ some (err (service (set_status_failed e)))))))
    ⊎ ((told ≡ running ∷ [])
        × (api.register ≡ none)
        × (api.report_running ≡ none)
        × (((e : String) × (api.new_runtime ≡ some e)
              × (r ≡ some (err (service (runtime_failed e)))))
            ⊎ ((api.new_runtime ≡ none) × (phase_after api ≢ Phase.stopped) × (r ≡ none))))
    ⊎ ((told ≡ running ∷ stopped 0 ∷ [])
        × (api.register ≡ none)
        × (api.report_running ≡ none)
        × (api.new_runtime ≡ none)
        × (phase_after api ≡ Phase.stopped)
        × (r ≡ some (ok tt)))

pub run_cases :
    (now : ℕ) (ts : List Turn)
    → ((run now ts ≡ none) × ((run_turns (new_host now) ts).phase ≢ Phase.stopped))
      ⊎ ((run now ts ≡ some (ok tt)) × ((run_turns (new_host now) ts).phase ≡ Phase.stopped))
unfolding run run_result
run_cases now ts = ground arith

pub run_service_lem : (api : ControlApi) → Reports api (run_service api)
unfolding run_service
run_service_lem api = elim (Option-cases api.register) [
  | inr (e, q) ↦ inl (ground arith, inl (e, q, ground arith))
  | inl registered ↦ elim (Option-cases api.report_running) [
    | inr (e, q) ↦ inl (ground arith, inr (e, registered, q, ground arith))
    | inl reported ↦ elim (Option-cases api.new_runtime) [
      | inr (e, q) ↦ inr (inl (ground arith, registered, reported, inl (e, q, ground arith)))
      | inl made ↦ elim (run_cases api.started api.turns) [
        | inl (going, later) ↦ inr (
            inl (
              rw (registered, reported, made, going) refl,
              registered,
              reported,
              inr (made, later, rw (registered, reported, made, going) refl),
            ))
        | inr (over, phase) ↦ inr (
            inr (
              rw (registered, reported, made, over) refl,
              registered,
              reported,
              made,
              phase,
              rw (registered, reported, made, over) refl,
            ))
      ]
    ]
  ]
]
