-- ===== src/Job/Manager.antt =====
-- The `JobManager` of src/job_manager.rs. A method that changes the manager returns it with its
-- result; each is one step, as under the locks that it takes. The clock is an argument. `jobs` is
-- the `DashMap` from ids to shared handles; `detached` are the handles that a method took out of
-- the map, which running tasks may still hold. Log lines are left out.
use windows_command_runner.Base.{
  ℕ, suc, ◌+◌, ◌-◌, ◌%◌, Bool, true, false, not, ◌&&◌, Option, none, some, List, [], ◌∷◌, leb, ◌==◌,
  if◌then◌else◌, length,
}
use windows_command_runner.Base.Assoc.{get, contains_key, insert, remove, update, keys}
use windows_command_runner.Error.{
  Result, ok, err, service, job_exists, job_not_found, invalid_state_transition, max_jobs_reached,
  cannot_transition,
}
use windows_command_runner.Job.State.{JobState, created, canceled, can_transition_to, is_terminal}
use windows_command_runner.Job.Handle.{JobHandle, default_handle}

pub record JobManager : Type 0 where
  pub jobs : List (ℕ × JobHandle)
  pub next_job_id : ℕ  -- u32
  pub max_concurrent_jobs : ℕ
  pub last_job_created : ℕ
  pub detached : List JobHandle

unfoldable pub new_manager : ℕ → ℕ → JobManager
new_manager max_concurrent_jobs now = record {
  jobs = [];
  next_job_id = 1;
  max_concurrent_jobs = max_concurrent_jobs;
  last_job_created = now;
  detached = [];
}

-- `fetch_add(1)` on an `AtomicU32`: the old value is returned, the new one wraps.
abbrev pub wrapping_next : ℕ → ℕ
wrapping_next n = (n + 1) % 4294967296

-- The id that `create_job` takes, and the counter after it: 0 is skipped.
unfoldable pub next_id : ℕ → ℕ × ℕ
next_id n =
    if n == 0 then (wrapping_next n, wrapping_next (wrapping_next n)) else (n, wrapping_next n)

abbrev pub fresh_job : ℕ → Option ℕ → ℕ → JobHandle
fresh_job job_id timeout now = record {
  job_id = job_id;
  state = created;
  process_handle = default_handle;
  job_object = default_handle;
  is_cancelled = false;
  start_time = now;
  timeout = timeout;
  completed_at = none;
  last_activity = now;
}

unfoldable pub create_job : JobManager → Option ℕ → ℕ → JobManager × Result JobHandle
create_job m timeout now =
    if leb m.max_concurrent_jobs (length m.jobs)
    then (m, err (service (max_jobs_reached m.max_concurrent_jobs)))
    else let (job_id, counter) = next_id m.next_job_id in
      let counted = record m { next_job_id = counter } in
      if contains_key job_id m.jobs
      then (counted, err (job_exists job_id))
      else let handle = fresh_job job_id timeout now in
        (record counted { jobs = insert job_id handle m.jobs; last_job_created = now }, ok handle)

abbrev pub get_job : JobManager → ℕ → Option JobHandle
get_job m job_id = get job_id m.jobs

-- What a permitted transition writes to the job.
abbrev pub enter_state : JobState → ℕ → JobHandle → JobHandle
enter_state new_state now job = record job {
  last_activity = now;
  completed_at = if is_terminal new_state then some now else job.completed_at;
  state = new_state;
}

unfoldable pub transition_state : JobManager → ℕ → JobState → ℕ → JobManager × Result JobState
transition_state m job_id new_state now = elim (get_job m job_id) [
  | none ↦ (m, err (job_not_found job_id))
  | some job ↦
      let old_state = job.state in
      if not (can_transition_to old_state new_state)
      then (m, err (invalid_state_transition (cannot_transition job_id old_state new_state)))
      else (record m { jobs = update job_id (enter_state new_state now) m.jobs }, ok old_state)
]

abbrev pub cancel_token : JobHandle → JobHandle
cancel_token job = record job { is_cancelled = true }

-- The `reason` is only logged.
unfoldable pub cancel_job : JobManager → ℕ → ℕ → JobManager × Result (Unit {0})
unfolding transition_state
cancel_job m job_id now = elim (get_job m job_id) [
  | none ↦ (m, err (job_not_found job_id))
  | some job ↦
      let cancelled = record m { jobs = update job_id cancel_token m.jobs } in
      if is_terminal job.state
      then (m, ok tt)
      else ((transition_state cancelled job_id canceled now).0, ok tt)
]

unfoldable pub cleanup_job : JobManager → ℕ → JobManager × Result (Unit {0})
cleanup_job m job_id = elim (get_job m job_id) [
  | none ↦ (m, err (job_not_found job_id))
  | some job ↦
      (record m { jobs = remove job_id m.jobs; detached = cancel_token job ∷ m.detached }, ok tt)
]

abbrev pub list_active_jobs : JobManager → List ℕ
list_active_jobs m = keys m.jobs

abbrev pub is_empty {ℓ} : {A : Type ℓ} → List A → Bool
is_empty [] = true
is_empty (_ ∷ _) = false

abbrev pub has_active_jobs : JobManager → Bool
has_active_jobs m = not (is_empty m.jobs)

abbrev pub job_count : JobManager → ℕ
job_count m = length m.jobs

abbrev pub count_ok : Result (Unit {0}) → ℕ → ℕ
count_ok (ok _) cleaned = suc cleaned
count_ok (err _) cleaned = cleaned

-- The loops `for job_id in job_ids` over `cleanup_job`, with the number of successes.
unfoldable pub cleanup_each : JobManager → List ℕ → ℕ → JobManager × ℕ
cleanup_each m [] cleaned = (m, cleaned)
cleanup_each m (job_id ∷ ids) cleaned =
    let (m', r) = cleanup_job m job_id in cleanup_each m' ids (count_ok r cleaned)

unfoldable pub force_cleanup_all : JobManager → JobManager × Result (Unit {0})
force_cleanup_all m = ((cleanup_each m (keys m.jobs) 0).0, ok tt)

-- `SystemTime::duration_since`: an error if the other time is later.
abbrev pub duration_since : ℕ → ℕ → Option ℕ
duration_since now earlier = if leb earlier now then some (now - earlier) else none

-- `if let Ok(elapsed) = now.duration_since(t) { elapsed >= d }`, false otherwise.
abbrev pub elapsed_at_least : ℕ → ℕ → ℕ → Bool
elapsed_at_least now earlier d = elim (duration_since now earlier) [
  | some elapsed ↦ leb d elapsed
  | none ↦ false
]

unfoldable pub all_terminal : List (ℕ × JobHandle) → Bool
all_terminal [] = true
all_terminal ((_, job) ∷ rest) =
    let others = all_terminal rest in if not (is_terminal job.state) then false else others

unfoldable pub should_cleanup : ℕ → ℕ → JobHandle → Bool
should_cleanup now idle_duration job =
    if is_terminal job.state
    then elim job.completed_at [
      | some completed_time ↦ elapsed_at_least now completed_time idle_duration
      | none ↦ false
    ]
    else elapsed_at_least now job.last_activity idle_duration

unfoldable pub to_remove : ℕ → ℕ → List (ℕ × JobHandle) → List ℕ
to_remove now idle_duration [] = []
to_remove now idle_duration ((job_id, job) ∷ rest) =
    let others = to_remove now idle_duration rest in
    if should_cleanup now idle_duration job then job_id ∷ others else others

-- All jobs are terminal, there is one, and none was created for `quiet_duration`.
unfoldable pub is_quiet : JobManager → ℕ → ℕ → Bool
is_quiet m now quiet_duration =
    if has_active_jobs m && all_terminal m.jobs
    then elapsed_at_least now m.last_job_created quiet_duration
    else false

unfoldable pub cleanup_idle_jobs : JobManager → ℕ → ℕ → ℕ → JobManager × ℕ
cleanup_idle_jobs m now idle_duration quiet_duration =
    if is_quiet m now quiet_duration
    then cleanup_each m (keys m.jobs) 0
    else cleanup_each m (to_remove now idle_duration m.jobs) 0

unfoldable pub update_activity : JobManager → ℕ → ℕ → JobManager
update_activity m job_id now = elim (get_job m job_id) [
  | none ↦ m
  | some _ ↦ record m { jobs = update job_id (λ job. record job { last_activity = now }) m.jobs }
]
