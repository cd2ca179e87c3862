-- ===== src/Job/Effects.antt =====
-- What `create_job`, `transition_state` and `cancel_job` of src/job_manager.rs do to the job that
-- they name and to all others when they succeed, and when they fail. The map is seen through
-- `get`, so the order of its entries is left out.
use mathlib.Core.Path.{subst}
use windows_command_runner.Base.{
  ℕ, ◌≤◌, ◌<◌, ◌≡◌, refl, ◌⊎◌, inl, inr, true, false, Option, none, some, ◌==◌, if◌then◌else◌,
  arith, length, Option-cases,
}
use windows_command_runner.Base.Assoc.{
  get, contains_key, contains_key-eq-false, get-insert, get-update-some, get-update_self,
  get-eq-none, contains_key_of_get, update,
}
use windows_command_runner.Error.{
  Error, ok, ok-injective, err, service, job_exists, job_not_found, invalid_state_transition,
  max_jobs_reached, cannot_transition,
}
use windows_command_runner.Job.State.{JobState, canceled, can_transition_to, is_terminal}
use windows_command_runner.Job.Handle.{JobHandle}
use windows_command_runner.Job.Manager.{
  JobManager, create_job, next_id, fresh_job, transition_state, enter_state, cancel_job,
  cancel_token,
}
use windows_command_runner.Job.Calls.{
  next_id-range, create_job_cases, transition_state-eq, cancel_job-eq,
}

-- With a u32 counter, a job that `create_job` returns is new: its id was not in use and is a
-- nonzero u32, there was room, the job is in `Created`, and it is added while every other entry
-- stays.
pub create_job-ok :
    (m : JobManager) (timeout : Option ℕ) (now : ℕ) (h : JobHandle)
    → m.next_job_id < 4294967296
    → (create_job m timeout now).1 ≡ ok h
    → (get h.job_id m.jobs ≡ none)
      × (0 < h.job_id)
      × (h.job_id < 4294967296)
      × (length m.jobs < m.max_concurrent_jobs)
      × (h ≡ fresh_job h.job_id timeout now)
      × ((j : ℕ)
          → get j (create_job m timeout now).0.jobs
            ≡ (if j == h.job_id then some h else get j m.jobs))
create_job-ok m timeout now h r e = elim (create_job_cases m timeout now) [
  | inl (full, q) ↦ cc
  | inr (inl (known, q)) ↦ cc
  | inr (inr (room, new, q)) ↦
      let id = (next_id m.next_job_id).0 in
      subst
        (λ h.
          (get h.job_id m.jobs ≡ none)
          × (0 < h.job_id)
          × (h.job_id < 4294967296)
          × (length m.jobs < m.max_concurrent_jobs)
          × (h ≡ fresh_job h.job_id timeout now)
          × ((j : ℕ)
              → get j (create_job m timeout now).0.jobs
                ≡ (if j == h.job_id then some h else get j m.jobs)))
        (ok-injective (rw q at e))
        (
          contains_key-eq-false id m.jobs new,
          (next_id-range m.next_job_id r).0,
          (next_id-range m.next_job_id r).1,
          room,
          refl,
          λ j. rw q (get-insert j id (fresh_job id timeout now) m.jobs),
        )
]

-- When `create_job` fails the jobs are as they were, and either the limit was reached or the id
-- that the counter gave was still in use.
create_job-err :
    (m : JobManager) (timeout : Option ℕ) (now : ℕ) (x : Error)
    → (create_job m timeout now).1 ≡ err x
    → ((create_job m timeout now).0.jobs ≡ m.jobs)
      × (((m.max_concurrent_jobs ≤ length m.jobs)
            × (x ≡ service (max_jobs_reached m.max_concurrent_jobs)))
          ⊎ ((contains_key (next_id m.next_job_id).0 m.jobs ≡ true)
              × (x ≡ job_exists (next_id m.next_job_id).0)))
unfolding create_job
create_job-err m timeout now x e = ground arith

-- A permitted transition returns the old state, and writes the new state and the times to that
-- job alone.
transition_state-ok :
    (m : JobManager) (id : ℕ) (new_state : JobState) (now : ℕ) (job : JobHandle)
    → get id m.jobs ≡ some job
    → can_transition_to job.state new_state ≡ true
    → ((transition_state m id new_state now).1 ≡ ok job.state)
      × ((j : ℕ)
          → get j (transition_state m id new_state now).0.jobs
            ≡ (if j == id then some (enter_state new_state now job) else get j m.jobs))
transition_state-ok m id new_state now job e c =
    rw (transition_state-eq m id new_state now job e c)
      (refl, λ j. get-update-some j id (enter_state new_state now) m.jobs job e)

-- A refused transition changes nothing, and the error says whether the job is missing or the
-- transition is not permitted.
transition_state-err :
    (m : JobManager) (id : ℕ) (new_state : JobState) (now : ℕ) (x : Error)
    → (transition_state m id new_state now).1 ≡ err x
    → ((transition_state m id new_state now).0 ≡ m)
      × (((get id m.jobs ≡ none) × (x ≡ job_not_found id))
          ⊎ ((job : JobHandle) × (get id m.jobs ≡ some job)
              × (can_transition_to job.state new_state ≡ false)
              × (x ≡ invalid_state_transition (cannot_transition id job.state new_state))))
unfolding transition_state
transition_state-err m id new_state now x e = ground arith

-- Cancelling a job that is not terminal always brings it to `Canceled`, with its token cancelled
-- and both times set, and leaves the other jobs alone.
cancel_job-active :
    (m : JobManager) (id now : ℕ) (job : JobHandle)
    → get id m.jobs ≡ some job
    → is_terminal job.state ≡ false
    → ((cancel_job m id now).1 ≡ ok tt)
      × ((j : ℕ)
          → get j (cancel_job m id now).0.jobs ≡ (
              if j == id then some (enter_state canceled now (cancel_token job)) else get j m.jobs))
cancel_job-active m id now job e a = rw (cancel_job-eq m id now job e a) (
  refl,
  λ j.
      rw
        (
          get-update-some j id (enter_state canceled now) (update id cancel_token m.jobs) _
              (get-update_self id cancel_token m.jobs job e),
          get-update-some j id cancel_token m.jobs job e,
        )
        (ground arith),
)

-- Cancelling a terminal job succeeds and changes nothing; an unknown id is an error and changes
-- nothing either.
cancel_job-idle :
    (m : JobManager) (id now : ℕ)
    → ((job : JobHandle) → get id m.jobs ≡ some job → is_terminal job.state ≡ true)
    → cancel_job m id now ≡ (m, if contains_key id m.jobs then ok tt else err (job_not_found id))
unfolding cancel_job
cancel_job-idle m id now t = elim (Option-cases (get id m.jobs)) [
  | inl e ↦ rw (e, cancel_job) (rw (get-eq-none id m.jobs e))
  | inr (job, e) ↦ rw (e, cancel_job) (rw (t job e, contains_key_of_get id m.jobs job e))
]
