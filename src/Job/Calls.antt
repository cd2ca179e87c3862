-- ===== src/Job/Calls.antt =====
-- The cases of each method of the job manager of src/job_manager.rs, by what its tests find: the
-- manager that it leaves, and its result.
use windows_command_runner.Base.{
  ℕ, ◌≤◌, ◌<◌, ◌≡◌, ◌⊎◌, inl, inr, true, false, Option, none, some, arith, leb, length,
  Option-cases, ◌∷◌, Bool-cases,
}
use windows_command_runner.Base.Assoc.{get, contains_key, insert, get-update_self, update, remove}
use windows_command_runner.Error.{ok, err, service, job_exists, job_not_found, max_jobs_reached}
use windows_command_runner.Job.State.{JobState, canceled, can_transition_to, is_terminal}
use windows_command_runner.Job.Handle.{JobHandle}
use windows_command_runner.Job.Diagram.{is_terminal_iff}
use windows_command_runner.Job.Manager.{
  JobManager, create_job, next_id, fresh_job, transition_state, enter_state, cancel_job,
  cancel_token, cleanup_job, update_activity,
}

pub next_id-range :
    (n : ℕ)
    → n < 4294967296
    → (0 < (next_id n).0) × ((next_id n).0 < 4294967296) × ((next_id n).1 < 4294967296)
unfolding next_id
next_id-range n h = ground arith

-- The two tests of `create_job`, and its effect when both pass.
pub create_job_cases :
    (m : JobManager) (timeout : Option ℕ) (now : ℕ)
    → let id = (next_id m.next_job_id).0 in
      let counted = record m { next_job_id = (next_id m.next_job_id).1 } in
      ((m.max_concurrent_jobs ≤ length m.jobs)
        × (create_job m timeout now ≡ (m, err (service (max_jobs_reached m.max_concurrent_jobs)))))
      ⊎ ((contains_key id m.jobs ≡ true)
          × (create_job m timeout now ≡ (counted, err (job_exists id))))
      ⊎ ((length m.jobs < m.max_concurrent_jobs)
          × (contains_key id m.jobs ≡ false)
          × (create_job m timeout now ≡ (
            record counted {
              jobs = insert id (fresh_job id timeout now) m.jobs;
              last_job_created = now;
            },
            ok (fresh_job id timeout now),
          )))
unfolding create_job
create_job_cases m timeout now = elim (Bool-cases (leb m.max_concurrent_jobs (length m.jobs))) [
  | inl full ↦ inl (ground arith, rw full)
  | inr room ↦ elim (Bool-cases (contains_key (next_id m.next_job_id).0 m.jobs)) [
    | inl known ↦ inr (inl (known, rw (room, known)))
    | inr new ↦ inr (inr (ground arith, new, rw (room, new)))
  ]
]

pub transition_state-eq :
    (m : JobManager) (id : ℕ) (new_state : JobState) (now : ℕ) (job : JobHandle)
    → get id m.jobs ≡ some job
    → can_transition_to job.state new_state ≡ true
    → transition_state m id new_state now
      ≡ (record m { jobs = update id (enter_state new_state now) m.jobs }, ok job.state)
unfolding transition_state
transition_state-eq m id new_state now job e c = rw (e, transition_state) (rw c)

-- Cleaning up a job that is there takes it, and no other, out of the map, with its token cancelled.
-- An unknown id is an error and changes nothing.
pub cleanup_job_cases :
    (m : JobManager) (id : ℕ)
    → ((get id m.jobs ≡ none) × (cleanup_job m id ≡ (m, err (job_not_found id))))
      ⊎ ((job : JobHandle) × (get id m.jobs ≡ some job)
          × (cleanup_job m id ≡ (
            record m { jobs = remove id m.jobs; detached = cancel_token job ∷ m.detached },
            ok tt,
          )))
unfolding cleanup_job
cleanup_job_cases m id = elim (Option-cases (get id m.jobs)) [
  | inl e ↦ inl (e, rw (e, cleanup_job))
  | inr (job, e) ↦ inr (job, e, rw (e, cleanup_job))
]

-- What `transition_state` leaves: the manager as it was, or with the new state written.
pub transition_state_cases :
    (m : JobManager) (id : ℕ) (new_state : JobState) (now : ℕ)
    → ((transition_state m id new_state now).0 ≡ m)
      ⊎ ((job : JobHandle) × (get id m.jobs ≡ some job)
          × (can_transition_to job.state new_state ≡ true)
          × ((transition_state m id new_state now).0
              ≡ record m { jobs = update id (enter_state new_state now) m.jobs }))
unfolding transition_state
transition_state_cases m id new_state now = elim (Option-cases (get id m.jobs)) [
  | inl e ↦ inl (rw (e, transition_state))
  | inr (job, e) ↦ elim (Bool-cases (can_transition_to job.state new_state)) [
    | inl c ↦ inr (job, e, c, rw (transition_state-eq m id new_state now job e c))
    | inr c ↦ inl (rw (e, transition_state) (rw c))
  ]
]

pub cancel_job-eq :
    (m : JobManager) (id now : ℕ) (job : JobHandle)
    → get id m.jobs ≡ some job
    → is_terminal job.state ≡ false
    → cancel_job m id now ≡ (
      record m { jobs = update id (enter_state canceled now) (update id cancel_token m.jobs) },
      ok tt,
    )
unfolding cancel_job
cancel_job-eq m id now job e a =
    rw (e, cancel_job)
      (rw (
        a,
        transition_state-eq (record m { jobs = update id cancel_token m.jobs }) id canceled now
            (cancel_token job) (get-update_self id cancel_token m.jobs job e)
            ((is_terminal_iff job.state).1.0 a),
      ))

-- What `cancel_job` leaves: the manager as it was, or with a job canceled that was not terminal.
pub cancel_job_cases :
    (m : JobManager) (id now : ℕ)
    → ((cancel_job m id now).0 ≡ m)
      ⊎ ((job : JobHandle) × (get id m.jobs ≡ some job)
          × (is_terminal job.state ≡ false)
          × ((cancel_job m id now).0 ≡ record m {
            jobs = update id (enter_state canceled now) (update id cancel_token m.jobs);
          }))
unfolding cancel_job
cancel_job_cases m id now = elim (Option-cases (get id m.jobs)) [
  | inl e ↦ inl (rw (e, cancel_job))
  | inr (job, e) ↦ elim (Bool-cases (is_terminal job.state)) [
    | inl t ↦ inl (rw (e, cancel_job) (rw t))
    | inr a ↦ inr (job, e, a, rw (cancel_job-eq m id now job e a))
  ]
]

-- What `update_activity` leaves: the manager as it was, or with the time written.
pub update_activity_cases :
    (m : JobManager) (id now : ℕ)
    → (update_activity m id now ≡ m)
      ⊎ ((job : JobHandle) × (get id m.jobs ≡ some job)
          × (update_activity m id now
              ≡ record m { jobs = update id (λ job. record job { last_activity = now }) m.jobs }))
unfolding update_activity
update_activity_cases m id now = elim (Option-cases (get id m.jobs)) [
  | inl e ↦ inl (rw (e, update_activity))
  | inr (job, e) ↦ inr (job, e, rw (e, update_activity))
]

pub update_activity-eq :
    (m : JobManager) (id now : ℕ) (job : JobHandle)
    → get id m.jobs ≡ some job
    → update_activity m id now
      ≡ record m { jobs = update id (λ job. record job { last_activity = now }) m.jobs }
unfolding update_activity
update_activity-eq m id now job e = rw (e, update_activity)

pub cleanup_job-eq :
    (m : JobManager) (id : ℕ) (job : JobHandle)
    → get id m.jobs ≡ some job
    → cleanup_job m id
      ≡ (record m { jobs = remove id m.jobs; detached = cancel_token job ∷ m.detached }, ok tt)
unfolding cleanup_job
cleanup_job-eq m id job e = rw (e, cleanup_job)

pub create_job-eq :
    (m : JobManager) (timeout : Option ℕ) (now : ℕ)
    → let id = (next_id m.next_job_id).0 in
      length m.jobs < m.max_concurrent_jobs
      → contains_key id m.jobs ≡ false
      → create_job m timeout now ≡ (
        record m {
          next_job_id = (next_id m.next_job_id).1;
          jobs = insert id (fresh_job id timeout now) m.jobs;
          last_job_created = now;
        },
        ok (fresh_job id timeout now),
      )
create_job-eq m timeout now room new = elim (create_job_cases m timeout now) [
  | inl (full, q) ↦ absurd (omega arith)
  | inr (inl (known, q)) ↦ cc
  | inr (inr (_, _, q)) ↦ q
]
