-- ===== src/Examples/Jobs.antt =====
-- The theorems on the job manager, applied to a manager with a running and a completed job.
use windows_command_runner.Base.{
  ℕ, ◌≡◌, ◌⊎◌, ◌≢◌, ◌↔◌, refl, Option, true, false, none, some, [], ◌∷◌, arith,
}
use windows_command_runner.Base.Assoc.{get, contains_key, update}
use windows_command_runner.Error.{ok}
use windows_command_runner.Cancel.{TerminationApi, terminate_job}
use windows_command_runner.Job.State.{
  starting, running, completed, failed, can_transition_to, is_terminal,
}
use windows_command_runner.Job.Handle.{JobHandle, new_handle}
use windows_command_runner.Job.Manager.{
  JobManager, new_manager, transition_state, cancel_job, cleanup_idle_jobs,
}
use windows_command_runner.Job.Diagram.{can_transition_to_iff, ◌⟶◌, IsUndocumented}
use windows_command_runner.Job.Invariant.{Inv}
use windows_command_runner.Job.Idle.{IsDue, IsQuiet, cleanup_idle_jobs-get}
use windows_command_runner.Job.History.{
  creates, transitions, cancels, step, run, run-new_manager-Inv, Held, run-terminal,
}

-- A job that runs since time 10, and one that completed at time 20.
abbrev running_job : JobHandle
running_job = record {
  job_id = 1;
  state = running;
  process_handle = new_handle 100;
  job_object = new_handle 101;
  is_cancelled = false;
  start_time = 10;
  timeout = none;
  completed_at = none;
  last_activity = 90;
}

abbrev completed_job : JobHandle
completed_job = record {
  job_id = 2;
  state = completed;
  process_handle = new_handle 102;
  job_object = new_handle 103;
  is_cancelled = false;
  start_time = 10;
  timeout = none;
  completed_at = some 20;
  last_activity = 20;
}

abbrev two_jobs : JobManager
two_jobs = record {
  jobs = (1, running_job) ∷ (2, completed_job) ∷ [];
  next_job_id = 3;
  max_concurrent_jobs = 4;
  last_job_created = 10;
  detached = [];
}

two_jobs-Inv : Inv two_jobs
unfolding contains_key is_terminal
two_jobs-Inv = record {
  unique = (refl, (refl, tt));
  entries = (
    record { keyed = refl; nonzero = omega arith; range = omega arith; stamped = refl },
    (record { keyed = refl; nonzero = omega arith; range = omega arith; stamped = refl }, tt),
  );
  counter = omega arith;
  capacity = omega arith;
  released = tt;
}

found_completed : get 2 two_jobs.jobs ≡ some completed_job
unfolding get
found_completed = refl

not-IsQuiet : ¬ IsQuiet two_jobs 100 50
unfolding is_terminal
not-IsQuiet q = cc (q.ended.0)

final : is_terminal completed ≡ true
unfolding is_terminal
final = refl

present : {o : Option JobHandle} {job : JobHandle} → o ≡ some job → o ≢ none
present h e = cc

held : Held 2 two_jobs ((100, transitions 2 running) ∷ (101, cancels 1) ∷ [])
unfolding step transition_state cancel_job get can_transition_to is_terminal update
held = (present refl, (present refl, tt))

run-new_manager-Inv_example : Inv (run (new_manager 4 0) ((5, creates none) ∷ (6, cancels 1) ∷ []))
run-new_manager-Inv_example = run-new_manager-Inv 4 0 ((5, creates none) ∷ (6, cancels 1) ∷ [])

run-terminal_example :
    (job : JobHandle) × (get 2
        (run two_jobs ((100, transitions 2 running) ∷ (101, cancels 1) ∷ [])).jobs
      ≡ some job)
    × (job.state ≡ completed)
    × (job.completed_at ≡ some 20)
run-terminal_example =
    run-terminal two_jobs ((100, transitions 2 running) ∷ (101, cancels 1) ∷ []) 2 completed_job
      two_jobs-Inv found_completed final held

cleanup_idle_jobs-get_example :
    (get 2 (cleanup_idle_jobs two_jobs 100 50 50).0.jobs ≡ some completed_job)
    ↔ ((get 2 two_jobs.jobs ≡ some completed_job) × ¬ IsDue 100 50 completed_job)
cleanup_idle_jobs-get_example =
    cleanup_idle_jobs-get two_jobs 100 50 50 2 completed_job two_jobs-Inv.unique not-IsQuiet

can_transition_to_iff_example :
    (can_transition_to starting failed ≡ true)
    ↔ ((starting ⟶ failed) ⊎ IsUndocumented starting failed)
can_transition_to_iff_example = can_transition_to_iff starting failed

-- A machine on which the job object cannot be terminated, and the process can or cannot.
abbrev no_object : Option ℕ → TerminationApi
no_object answer = record { terminate_job_object = λ _. false; terminate_process = λ _. answer }

terminated : (terminate_job (no_object none) running_job []).1 ≡ ok tt
unfolding terminate_job
terminated = refl
