-- ===== src/Service/Life.antt =====
-- What holds of the service of src/service_host.rs at every moment: the invariant of its job
-- manager, and the limit on its jobs.
use windows_command_runner.Base.{
  ℕ, ◌≤◌, ◌≡◌, refl, ◌∙◌, inl, inr, true, false, List, [], ◌∷◌, arith, length, Bool-cases,
  if◌then◌else◌, Bool, Option,
}
use windows_command_runner.Base.Assoc.{keys}
use windows_command_runner.Job.State.{JobState}
use windows_command_runner.Job.Manager.{
  JobManager, new_manager, cleanup_job, cleanup_each, count_ok, to_remove, is_quiet,
  cleanup_idle_jobs, force_cleanup_all, create_job, cancel_job, transition_state, update_activity,
}
use windows_command_runner.Job.Calls.{
  create_job_cases, transition_state_cases, cancel_job_cases, cleanup_job_cases,
  update_activity_cases,
}
use windows_command_runner.Job.Invariant.{
  Inv, new_manager-Inv, cleanup_idle_jobs-Inv, force_cleanup_all-Inv,
}
use windows_command_runner.Job.History.{
  Call, creates, transitions, cancels, cleans, touches, sweeps, clears, step, step-Inv,
}
use windows_command_runner.Service.Host.{
  ServiceHost, Phase, serving, draining, stopped, Turn, calls, ticks, cleanup_notices, stops,
  run_notices, interrupts, sleep_ends, max_concurrent_jobs, idle_cleanup_threshold,
  quiet_cleanup_threshold, new_host, begin_shutdown, cleanup_tick, turn_in, turn, run_turns,
}

-- The limit of a manager is never changed.
abbrev SameLimit : JobManager → JobManager → Type 0
SameLimit m m' = m'.max_concurrent_jobs ≡ m.max_concurrent_jobs

cleanup_job-SameLimit : (m : JobManager) (id : ℕ) → SameLimit m (cleanup_job m id).0
cleanup_job-SameLimit m id = elim (cleanup_job_cases m id) [
  | inl (e, q) ↦ rw q refl
  | inr (job, e, q) ↦ rw q refl
]

cleanup_each-SameLimit :
    (m : JobManager) (ids : List ℕ) (c : ℕ) → SameLimit m (cleanup_each m ids c).0
unfolding cleanup_each
cleanup_each-SameLimit m [] c = refl
cleanup_each-SameLimit m (id ∷ ids) c =
    cleanup_each-SameLimit (cleanup_job m id).0 ids (count_ok (cleanup_job m id).1 c)
    ∙ cleanup_job-SameLimit m id

cleanup_idle_jobs-SameLimit :
    (m : JobManager) (now idle quiet : ℕ) → SameLimit m (cleanup_idle_jobs m now idle quiet).0
unfolding cleanup_idle_jobs
cleanup_idle_jobs-SameLimit m now idle quiet = elim (Bool-cases (is_quiet m now quiet)) [
  | inl q ↦ rw q (cleanup_each-SameLimit m (keys m.jobs) 0)
  | inr q ↦ rw q (cleanup_each-SameLimit m (to_remove now idle m.jobs) 0)
]

force_cleanup_all-SameLimit : (m : JobManager) → SameLimit m (force_cleanup_all m).0
unfolding force_cleanup_all
force_cleanup_all-SameLimit m = cleanup_each-SameLimit m (keys m.jobs) 0

create_job-SameLimit :
    (m : JobManager) (timeout : Option ℕ) (now : ℕ) → SameLimit m (create_job m timeout now).0
create_job-SameLimit m timeout now = elim (create_job_cases m timeout now) [
  | inl (_, q) ↦ rw q refl
  | inr (inl (_, q)) ↦ rw q refl
  | inr (inr (_, _, q)) ↦ rw q refl
]

transition_state-SameLimit :
    (m : JobManager) (id : ℕ) (s : JobState) (now : ℕ) → SameLimit m (transition_state m id s now).0
transition_state-SameLimit m id s now = elim (transition_state_cases m id s now) [
  | inl q ↦ rw q refl
  | inr (_, _, _, q) ↦ rw q refl
]

cancel_job-SameLimit : (m : JobManager) (id now : ℕ) → SameLimit m (cancel_job m id now).0
cancel_job-SameLimit m id now = elim (cancel_job_cases m id now) [
  | inl q ↦ rw q refl
  | inr (_, _, _, q) ↦ rw q refl
]

update_activity-SameLimit : (m : JobManager) (id now : ℕ) → SameLimit m (update_activity m id now)
update_activity-SameLimit m id now = elim (update_activity_cases m id now) [
  | inl q ↦ rw q refl
  | inr (_, _, q) ↦ rw q refl
]

step-SameLimit : (m : JobManager) (now : ℕ) (c : Call) → SameLimit m (step m (now, c))
unfolding step
step-SameLimit m now (creates timeout) = create_job-SameLimit m timeout now
step-SameLimit m now (transitions id s) = transition_state-SameLimit m id s now
step-SameLimit m now (cancels id) = cancel_job-SameLimit m id now
step-SameLimit m now (cleans id) = cleanup_job-SameLimit m id
step-SameLimit m now (touches id) = update_activity-SameLimit m id now
step-SameLimit m now (sweeps idle quiet) = cleanup_idle_jobs-SameLimit m now idle quiet
step-SameLimit m now clears = force_cleanup_all-SameLimit m

-- The manager of the service satisfies its invariant, with the limit of the service.
pub record IsSound (s : ServiceHost) : Type 0 where
  pub inv : Inv s.manager
  pub limit : s.manager.max_concurrent_jobs ≡ max_concurrent_jobs

begin_shutdown-IsSound : (s : ServiceHost) → IsSound s → IsSound (begin_shutdown s)
unfolding begin_shutdown
begin_shutdown-IsSound s v = record {
  inv = force_cleanup_all-Inv s.manager v.inv;
  limit = force_cleanup_all-SameLimit s.manager ∙ v.limit;
}

cleanup_tick-IsSound : (s : ServiceHost) (now : ℕ) → IsSound s → IsSound (cleanup_tick s now)
cleanup_tick-IsSound s now v = record {
  inv = cleanup_idle_jobs-Inv s.manager now idle_cleanup_threshold quiet_cleanup_threshold v.inv;
  limit =
      cleanup_idle_jobs-SameLimit s.manager now idle_cleanup_threshold quiet_cleanup_threshold
      ∙ v.limit;
}

step-IsSound :
    (s : ServiceHost) (now : ℕ) (c : Call)
    → IsSound s
    → IsSound (record s { manager = step s.manager (now, c) })
step-IsSound s now c v = record {
  inv = step-Inv s.manager (now, c) v.inv;
  limit = step-SameLimit s.manager now c ∙ v.limit;
}

-- A write to another field.
keep-IsSound :
    (s : ServiceHost) (b c : Bool) (p : Phase)
    → IsSound s
    → IsSound (record s { shutdown = b; cleaning = c; phase = p })
keep-IsSound s b c p v = record { inv = v.inv; limit = v.limit }

if-IsSound : (b : Bool) (s t : ServiceHost) → IsSound s → IsSound t → IsSound (if b then s else t)
if-IsSound true s t v w = v
if-IsSound false s t v w = w

turn_in-IsSound : (p : Phase) (s : ServiceHost) (t : Turn) → IsSound s → IsSound (turn_in p s t)
unfolding turn_in
turn_in-IsSound stopped s t v = v
turn_in-IsSound serving s (calls now c) v = step-IsSound s now c v
turn_in-IsSound draining s (calls now c) v = step-IsSound s now c v
turn_in-IsSound serving s (ticks now) v = if-IsSound s.cleaning _ _ (cleanup_tick-IsSound s now v) v
turn_in-IsSound draining s (ticks now) v =
    if-IsSound s.cleaning _ _ (cleanup_tick-IsSound s now v) v
turn_in-IsSound serving s cleanup_notices v =
    if-IsSound s.shutdown _ _ (keep-IsSound s s.shutdown false s.phase v) v
turn_in-IsSound draining s cleanup_notices v =
    if-IsSound s.shutdown _ _ (keep-IsSound s s.shutdown false s.phase v) v
turn_in-IsSound serving s stops v = keep-IsSound s true s.cleaning s.phase v
turn_in-IsSound draining s stops v = keep-IsSound s true s.cleaning s.phase v
turn_in-IsSound serving s run_notices v = if-IsSound s.shutdown _ _ (begin_shutdown-IsSound s v) v
turn_in-IsSound draining s run_notices v = v
turn_in-IsSound serving s interrupts v = begin_shutdown-IsSound s v
turn_in-IsSound draining s interrupts v = v
turn_in-IsSound serving s sleep_ends v = v
turn_in-IsSound draining s sleep_ends v = keep-IsSound s s.shutdown false stopped v

run_turns-IsSound : (s : ServiceHost) (ts : List Turn) → IsSound s → IsSound (run_turns s ts)
unfolding run_turns turn
run_turns-IsSound s [] v = v
run_turns-IsSound s (t ∷ ts) v = run_turns-IsSound (turn s t) ts (turn_in-IsSound s.phase s t v)

-- If each call of the job manager is one step, then at every moment of every schedule of the
-- service, its sessions, its cleanup task and its shutdown, the invariant of the job manager holds,
-- and there are at most 50 jobs.
pub run_turns_bounded :
    (now : ℕ) (ts : List Turn)
    → Inv (run_turns (new_host now) ts).manager
      × (length (run_turns (new_host now) ts).manager.jobs ≤ 50)
unfolding new_host
run_turns_bounded now ts =
    let v =
      run_turns-IsSound (new_host now) ts
        (record { inv = new_manager-Inv max_concurrent_jobs now; limit = limit_of_new }) in
    (v.inv, omega (arith, v.inv.capacity, v.limit))
  where
    limit_of_new : (new_manager max_concurrent_jobs now).max_concurrent_jobs ≡ max_concurrent_jobs
    limit_of_new = unfold new_manager in refl
