-- ===== src/Job/Invariant.antt =====
-- What holds of the job manager between two calls, whatever the calls were.
use windows_command_runner.Base.{
  ℕ, ◌≤◌, ◌<◌, ◌≡◌, refl, inl, inr, true, Option, some, List, [], ◌∷◌, arith, length, All, is_some,
}
use windows_command_runner.Base.Assoc.{
  get, keys, UniqueKeys, AllEntries, update, insert-UniqueKeys, remove-UniqueKeys,
  update-UniqueKeys, update-AllEntries, insert-AllEntries, length-insert_new, remove-AllEntries,
  length-remove, length-update,
}
use windows_command_runner.Job.State.{JobState, canceled, is_terminal, can_transition_to}
use windows_command_runner.Job.Handle.{JobHandle}
use windows_command_runner.Job.Diagram.{leaves_active}
use windows_command_runner.Job.Calls.{
  create_job_cases, cleanup_job_cases, next_id-range, transition_state_cases, cancel_job_cases,
  update_activity_cases,
}
use windows_command_runner.Job.Manager.{
  JobManager, new_manager, create_job, next_id, fresh_job, transition_state, enter_state,
  cancel_job, cancel_token, cleanup_job, cleanup_each, to_remove, count_ok, force_cleanup_all,
  cleanup_idle_jobs, update_activity,
}

-- A job in the map stands under its own id, a nonzero u32, and has a completion time exactly if its
-- state is terminal.
pub record IsEntry (id : ℕ) (job : JobHandle) : Type 0 where
  pub keyed : job.job_id ≡ id
  pub nonzero : 0 < id
  pub range : id < 4294967296
  pub stamped : is_terminal job.state ≡ is_some job.completed_at

pub record Inv (m : JobManager) : Type 0 where
  pub unique : UniqueKeys m.jobs
  pub entries : AllEntries IsEntry m.jobs
  pub counter : m.next_job_id < 4294967296
  pub capacity : length m.jobs ≤ m.max_concurrent_jobs
  pub released : All (λ job. job.is_cancelled ≡ true) m.detached

-- A new manager satisfies the invariant.
pub new_manager-Inv : (n now : ℕ) → Inv (new_manager n now)
unfolding new_manager
new_manager-Inv n now = record {
  unique = tt;
  entries = tt;
  counter = omega arith;
  capacity = omega arith;
  released = tt;
}

-- A write to one entry keeps the invariant if it keeps what holds of that entry.
pub update-Inv :
    (m : JobManager) (id : ℕ) (f : JobHandle → JobHandle)
    → ((job : JobHandle) → get id m.jobs ≡ some job → IsEntry id job → IsEntry id (f job))
    → Inv m
    → Inv (record m { jobs = update id f m.jobs })
update-Inv m id f step v = record {
  unique = update-UniqueKeys id f m.jobs v.unique;
  entries = update-AllEntries IsEntry id f m.jobs step v.unique v.entries;
  counter = v.counter;
  capacity = omega (arith, length-update id f m.jobs, v.capacity);
  released = v.released;
}

enter_state-IsEntry :
    (id : ℕ) (new_state : JobState) (now : ℕ) (job : JobHandle)
    → can_transition_to job.state new_state ≡ true
    → IsEntry id job
    → IsEntry id (enter_state new_state now job)
enter_state-IsEntry id new_state now job c e = record {
  keyed = e.keyed;
  nonzero = e.nonzero;
  range = e.range;
  stamped = ground (arith, leaves_active job.state new_state c, e.stamped);
}

canceled-IsEntry :
    (id now : ℕ) (job : JobHandle) → IsEntry id job → IsEntry id (enter_state canceled now job)
unfolding is_terminal
canceled-IsEntry id now job e = record {
  keyed = e.keyed;
  nonzero = e.nonzero;
  range = e.range;
  stamped = refl;
}

cancel_token-IsEntry : (id : ℕ) (job : JobHandle) → IsEntry id job → IsEntry id (cancel_token job)
cancel_token-IsEntry id job e = record {
  keyed = e.keyed;
  nonzero = e.nonzero;
  range = e.range;
  stamped = e.stamped;
}

module _ (m : JobManager) (v : Inv m) where
  pub create_job-Inv : (timeout : Option ℕ) (now : ℕ) → Inv (create_job m timeout now).0
  unfolding is_terminal
  create_job-Inv timeout now = elim (create_job_cases m timeout now) [
    | inl (full, q) ↦ rw q v
    | inr (inl (known, q)) ↦ rw q (record {
      unique = v.unique;
      entries = v.entries;
      counter = (next_id-range m.next_job_id v.counter).2;
      capacity = v.capacity;
      released = v.released;
    })
    | inr (inr (room, new, q)) ↦
        let id = (next_id m.next_job_id).0 in
        let (nonzero, range, counter) = next_id-range m.next_job_id v.counter in
        let entry : IsEntry id (fresh_job id timeout now) = record {
          keyed = refl;
          nonzero = nonzero;
          range = range;
          stamped = refl;
        } in
        rw q (record {
          unique = insert-UniqueKeys id (fresh_job id timeout now) m.jobs v.unique;
          entries = insert-AllEntries IsEntry id (fresh_job id timeout now) m.jobs entry v.entries;
          counter = counter;
          capacity =
              omega (arith, length-insert_new id (fresh_job id timeout now) m.jobs new, room);
          released = v.released;
        })
  ]

  pub transition_state-Inv :
      (id : ℕ) (new_state : JobState) (now : ℕ) → Inv (transition_state m id new_state now).0
  transition_state-Inv id new_state now = elim (transition_state_cases m id new_state now) [
    | inl q ↦ rw q v
    | inr (job, found, c, q) ↦ rw q (
        update-Inv m id (enter_state new_state now)
          (λ j e. enter_state-IsEntry id new_state now j (ground arith)) v)
  ]

  pub cancel_job-Inv : (id now : ℕ) → Inv (cancel_job m id now).0
  cancel_job-Inv id now = elim (cancel_job_cases m id now) [
    | inl q ↦ rw q v
    | inr (job, found, a, q) ↦ rw q (
        update-Inv (record m { jobs = update id cancel_token m.jobs }) id (enter_state canceled now)
          (λ j _ e. canceled-IsEntry id now j e)
          (update-Inv m id cancel_token (λ j _ e. cancel_token-IsEntry id j e) v))
  ]

  pub cleanup_job-Inv : (id : ℕ) → Inv (cleanup_job m id).0
  cleanup_job-Inv id = elim (cleanup_job_cases m id) [
    | inl (e, q) ↦ rw q v
    | inr (job, e, q) ↦ rw q (record {
      unique = remove-UniqueKeys id m.jobs v.unique;
      entries = remove-AllEntries IsEntry id m.jobs v.entries;
      counter = v.counter;
      capacity = omega (arith, length-remove id m.jobs v.unique, v.capacity);
      released = (refl, v.released);
    })
  ]

  pub update_activity-Inv : (id now : ℕ) → Inv (update_activity m id now)
  update_activity-Inv id now = elim (update_activity_cases m id now) [
    | inl q ↦ rw q v
    | inr (held, found, q) ↦ rw q (
        update-Inv m id _
          (λ job _ e. record {
            keyed = e.keyed;
            nonzero = e.nonzero;
            range = e.range;
            stamped = e.stamped;
          })
          v)
  ]

cleanup_each-Inv : (m : JobManager) (ids : List ℕ) (c : ℕ) → Inv m → Inv (cleanup_each m ids c).0
unfolding cleanup_each
cleanup_each-Inv m [] c v = v
cleanup_each-Inv m (id ∷ ids) c v =
    cleanup_each-Inv (cleanup_job m id).0 ids (count_ok (cleanup_job m id).1 c)
      (cleanup_job-Inv m v id)

pub force_cleanup_all-Inv : (m : JobManager) → Inv m → Inv (force_cleanup_all m).0
unfolding force_cleanup_all
force_cleanup_all-Inv m v = cleanup_each-Inv m (keys m.jobs) 0 v

pub cleanup_idle_jobs-Inv :
    (m : JobManager) (now idle quiet : ℕ) → Inv m → Inv (cleanup_idle_jobs m now idle quiet).0
unfolding cleanup_idle_jobs
cleanup_idle_jobs-Inv m now idle quiet v = ground (
  arith,
  cleanup_each-Inv m (keys m.jobs) 0 v,
  cleanup_each-Inv m (to_remove now idle m.jobs) 0 v,
)
