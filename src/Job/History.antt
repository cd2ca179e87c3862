-- ===== src/Job/History.antt =====
-- What holds of the job manager after any history of calls, and along one.
use windows_command_runner.Base.{
  ℕ, ◌≡◌, ◌≢◌, refl, ◌⊎◌, inl, inr, true, Option, none, some, List, [], ◌∷◌, arith, Bool, ◌∙◌,
  Bool-cases, Option-cases, ◌==◌,
}
use windows_command_runner.Base.Assoc.{
  get, update, get-update-some, get-insert, get-remove, contains_key_of_get, keep, keep_sound,
  UniqueKeys, update-update,
}
use windows_command_runner.Job.State.{JobState, canceled, is_terminal, can_transition_to}
use windows_command_runner.Job.Handle.{JobHandle}
use mathlib.Core.Path.{subst}
use windows_command_runner.Job.Calls.{
  create_job_cases, transition_state_cases, cancel_job_cases, cleanup_job_cases,
  update_activity_cases,
}
use windows_command_runner.Job.Diagram.{is_terminal_iff, leaves_active}
use windows_command_runner.Job.Cleanup.{cleanup_idle_jobs_lem, force_cleanup_all_lem}
use windows_command_runner.Job.Invariant.{
  Inv, new_manager-Inv, create_job-Inv, transition_state-Inv, cancel_job-Inv, cleanup_job-Inv,
  update_activity-Inv, cleanup_idle_jobs-Inv, force_cleanup_all-Inv,
}
use windows_command_runner.Job.Manager.{
  JobManager, new_manager, create_job, transition_state, cancel_job, cleanup_job, force_cleanup_all,
  cleanup_idle_jobs, update_activity, next_id, fresh_job, is_quiet, enter_state, cancel_token,
}

-- A call of a method, with its arguments.
pub data Call : Type 0 where
  creates : Option ℕ → Call
  transitions : ℕ → JobState → Call
  cancels cleans touches : ℕ → Call
  sweeps : ℕ → ℕ → Call
  clears : Call

-- The manager after a call at a time.
unfoldable pub step : JobManager → ℕ × Call → JobManager
step m (now, creates timeout) = (create_job m timeout now).0
step m (now, transitions id new_state) = (transition_state m id new_state now).0
step m (now, cancels id) = (cancel_job m id now).0
step m (now, cleans id) = (cleanup_job m id).0
step m (now, touches id) = update_activity m id now
step m (now, sweeps idle quiet) = (cleanup_idle_jobs m now idle quiet).0
step m (now, clears) = (force_cleanup_all m).0

unfoldable pub run : JobManager → List (ℕ × Call) → JobManager
run m [] = m
run m (c ∷ cs) = run (step m c) cs

pub step-Inv : (m : JobManager) (c : ℕ × Call) → Inv m → Inv (step m c)
unfolding step
step-Inv m (now, creates timeout) v = create_job-Inv m v timeout now
step-Inv m (now, transitions id new_state) v = transition_state-Inv m v id new_state now
step-Inv m (now, cancels id) v = cancel_job-Inv m v id now
step-Inv m (now, cleans id) v = cleanup_job-Inv m v id
step-Inv m (now, touches id) v = update_activity-Inv m v id now
step-Inv m (now, sweeps idle quiet) v = cleanup_idle_jobs-Inv m now idle quiet v
step-Inv m (now, clears) v = force_cleanup_all-Inv m v

run-Inv : (m : JobManager) (cs : List (ℕ × Call)) → Inv m → Inv (run m cs)
unfolding run
run-Inv m [] v = v
run-Inv m (c ∷ cs) v = run-Inv (step m c) cs (step-Inv m c v)

-- After any history of calls on a new manager: ids are distinct nonzero u32 numbers, each the id of
-- its job, a job has a completion time exactly if it is terminal, there are no more jobs than the
-- limit, and every job that was taken out has its token cancelled.
pub run-new_manager-Inv : (n start : ℕ) (cs : List (ℕ × Call)) → Inv (run (new_manager n start) cs)
run-new_manager-Inv n start cs = run-Inv (new_manager n start) cs (new_manager-Inv n start)

-- How a job may stand after a call: gone, as before, or after one permitted transition.
abbrev pub Follows : JobHandle → Option JobHandle → Type 0
Follows job none = Unit {0}
Follows job (some job') =
    ((job'.state ≡ job.state) × (job'.completed_at ≡ job.completed_at))
    ⊎ (can_transition_to job.state job'.state ≡ true)

module _ (m : JobManager) (id : ℕ) (job : JobHandle) (found : get id m.jobs ≡ some job) where
  unchanged : Follows job (get id m.jobs)
  unchanged = rw found (inl (refl, refl))

  update-Follows :
      (k : ℕ) (f : JobHandle → JobHandle) (held : JobHandle)
      → get k m.jobs ≡ some held
      → Follows held (some (f held))
      → Follows job (get id (update k f m.jobs))
  update-Follows k f held e follows =
      rw (get-update-some id k f m.jobs held e) (elim (Bool-cases (id == k)) [
        | inl same ↦
            let eq : held ≡ job = ground arith in
            rw same (subst (λ j. Follows j (some (f held))) eq follows)
        | inr other ↦ rw other unchanged
      ])

  create_job-Follows :
      (timeout : Option ℕ) (now : ℕ) → Follows job (get id (create_job m timeout now).0.jobs)
  create_job-Follows timeout now = elim (create_job_cases m timeout now) [
    | inl (full, q) ↦ rw q unchanged
    | inr (inl (known, q)) ↦ rw q unchanged
    | inr (inr (room, new, q)) ↦
        rw
          (
            q,
            get-insert id (next_id m.next_job_id).0
                (fresh_job (next_id m.next_job_id).0 timeout now) m.jobs,
          )
          (elim (Bool-cases (id == (next_id m.next_job_id).0)) [
            | inl same ↦ absurd (ground (arith, contains_key_of_get id m.jobs job found))
            | inr other ↦ rw other unchanged
          ])
  ]

  transition_state-Follows :
      (k : ℕ) (new_state : JobState) (now : ℕ)
      → Follows job (get id (transition_state m k new_state now).0.jobs)
  transition_state-Follows k new_state now = elim (transition_state_cases m k new_state now) [
    | inl q ↦ rw q unchanged
    | inr (held, e, c, q) ↦ rw q (update-Follows k (enter_state new_state now) held e (inr c))
  ]

  cleanup_job-Follows : (k : ℕ) → Follows job (get id (cleanup_job m k).0.jobs)
  cleanup_job-Follows k = elim (cleanup_job_cases m k) [
    | inl (e, q) ↦ rw q unchanged
    | inr (held, e, q) ↦
        rw (q, get-remove id k m.jobs)
          (elim (Bool-cases (id == k)) [ inl same ↦ rw same tt | inr other ↦ rw other unchanged ])
  ]

  cancel_job-Follows : (k now : ℕ) → Follows job (get id (cancel_job m k now).0.jobs)
  cancel_job-Follows k now = elim (cancel_job_cases m k now) [
    | inl q ↦ rw q unchanged
    | inr (held, e, a, q) ↦
        rw (q, update-update k (enter_state canceled now) cancel_token m.jobs)
          (update-Follows k (λ j. enter_state canceled now (cancel_token j)) held e
            (inr ((is_terminal_iff held.state).1.0 a)))
  ]

  update_activity-Follows : (k now : ℕ) → Follows job (get id (update_activity m k now).jobs)
  update_activity-Follows k now = elim (update_activity_cases m k now) [
    | inl q ↦ rw q unchanged
    | inr (held, e, q) ↦ rw q (update-Follows k _ held e (inl (refl, refl)))
  ]

  cleanup_idle_jobs-Follows :
      (now idle quiet : ℕ)
      → UniqueKeys m.jobs
      → Follows job (get id (cleanup_idle_jobs m now idle quiet).0.jobs)
  cleanup_idle_jobs-Follows now idle quiet u =
      rw (cleanup_idle_jobs_lem m now idle quiet u).0 (elim (Bool-cases (is_quiet m now quiet)) [
        | inl q ↦ rw q (unfold get in tt)
        | inr q ↦ rw q (filtered _)
      ])
    where
      filtered : (p : JobHandle → Bool) → Follows job (get id (keep p m.jobs))
      filtered p = elim (Option-cases (get id (keep p m.jobs))) [
        | inl e ↦ rw e tt
        | inr (left, e) ↦
            let same : left ≡ job = ground (arith, keep_sound id p m.jobs left u e) in
            rw (e, same) (inl (refl, refl))
      ]

-- Along any call on a manager that satisfies the invariant, a job that was in the map either is
-- taken out, or keeps its state and completion time, or makes one permitted transition.
step-Follows :
    (m : JobManager) (c : ℕ × Call) (id : ℕ) (job : JobHandle)
    → Inv m
    → get id m.jobs ≡ some job
    → Follows job (get id (step m c).jobs)
unfolding step
step-Follows m (now, creates timeout) id job v e = create_job-Follows m id job e timeout now
step-Follows m (now, transitions k new_state) id job v e =
    transition_state-Follows m id job e k new_state now
step-Follows m (now, cancels k) id job v e = cancel_job-Follows m id job e k now
step-Follows m (now, cleans k) id job v e = cleanup_job-Follows m id job e k
step-Follows m (now, touches k) id job v e = update_activity-Follows m id job e k now
step-Follows m (now, sweeps idle quiet) id job v e =
    cleanup_idle_jobs-Follows m id job e now idle quiet v.unique
step-Follows m (now, clears) id job v e = rw (force_cleanup_all_lem m v.unique).0 (unfold get in tt)

-- The id stays in the map all along a history.
abbrev pub Held : ℕ → JobManager → List (ℕ × Call) → Type 0
Held id m [] = Unit {0}
Held id m (c ∷ cs) = (get id (step m c).jobs ≢ none) × Held id (step m c) cs

Follows-terminal :
    (job : JobHandle) (o : Option JobHandle)
    → is_terminal job.state ≡ true
    → Follows job o
    → o ≢ none
    → (job' : JobHandle) × (o ≡ some job')
      × (job'.state ≡ job.state)
      × (job'.completed_at ≡ job.completed_at)
Follows-terminal job none t f n = absurd (n refl)
Follows-terminal job (some job') t (inl same) n = (job', refl, same.0, same.1)
Follows-terminal job (some job') t (inr c) n = absurd (cc (leaves_active job.state job'.state c, t))

-- In a manager that satisfies the invariant, a job that has ended keeps its state and its
-- completion time for as long as it is in the map, whatever is called, on this job or on others.
pub run-terminal :
    (m : JobManager) (cs : List (ℕ × Call)) (id : ℕ) (job : JobHandle)
    → Inv m
    → get id m.jobs ≡ some job
    → is_terminal job.state ≡ true
    → Held id m cs
    → (job' : JobHandle) × (get id (run m cs).jobs ≡ some job')
      × (job'.state ≡ job.state)
      × (job'.completed_at ≡ job.completed_at)
unfolding run
run-terminal m [] id job v e t h = (job, e, refl, refl)
run-terminal m (c ∷ cs) id job v e t h =
    let (next, e', s, d) =
      Follows-terminal job (get id (step m c).jobs) t (step-Follows m c id job v e) h.0 in
    let (last, e'', s', d') = run-terminal (step m c) cs id next (step-Inv m c v) e' (rw s t) h.1 in
    (last, e'', s' ∙ s, d' ∙ d)
