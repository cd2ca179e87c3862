-- ===== src/Job/Idle.antt =====
-- `cleanup_idle_jobs` in terms of times: which jobs a round takes out and which it leaves.
use windows_command_runner.Base.{
  ℕ, ◌+◌, ◌≤◌, ◌<◌, ◌≡◌, ◌≢◌, ◌↔◌, refl, inl, inr, true, false, not, Option, some, List, [], ◌∷◌,
  if◌then◌else◌, arith, length, Bool-cases, Option-cases, ap,
}
use windows_command_runner.Base.Assoc.{
  get, UniqueKeys, AllEntries, AllEntries-get, keep_sound, keep_complete,
}
use windows_command_runner.Job.State.{is_terminal}
use windows_command_runner.Job.Handle.{JobHandle}
use windows_command_runner.Job.Cleanup.{cleanup_idle_jobs_lem}
use windows_command_runner.Job.Manager.{
  JobManager, should_cleanup, all_terminal, is_quiet, cleanup_idle_jobs, has_active_jobs, is_empty,
}

-- The moment from which a job counts as idle: its completion, or its last activity.
abbrev pub idle_since : JobHandle → Option ℕ
idle_since job = if is_terminal job.state then job.completed_at else some job.last_activity

-- The job has been idle for the duration at the time.
abbrev pub IsDue : ℕ → ℕ → JobHandle → Type 0
IsDue now idle job = (since : ℕ) × (idle_since job ≡ some since) × (since + idle ≤ now)

should_cleanup-IsDue :
    (now idle : ℕ) (job : JobHandle) → should_cleanup now idle job ≡ true → IsDue now idle job
unfolding should_cleanup
should_cleanup-IsDue now idle job h = elim (Option-cases (idle_since job)) [
  | inl e ↦ absurd (ground arith)
  | inr (since, e) ↦ (since, e, ground arith)
]

IsDue-should_cleanup :
    (now idle : ℕ) (job : JobHandle) → IsDue now idle job → should_cleanup now idle job ≡ true
unfolding should_cleanup
IsDue-should_cleanup now idle job (since, e, h) = ground arith

-- The test of the code says that the job has been idle for long enough: since its completion if
-- it is terminal, since its last activity otherwise.
should_cleanup_iff :
    (now idle : ℕ) (job : JobHandle) → (should_cleanup now idle job ≡ true) ↔ IsDue now idle job
should_cleanup_iff now idle job =
    (should_cleanup-IsDue now idle job, IsDue-should_cleanup now idle job)

-- Every job is terminal, there is a job, and none was created for the duration.
pub record IsQuiet (m : JobManager) (now quiet : ℕ) : Type 0 where
  pub busy : m.jobs ≢ []
  pub ended : AllEntries (λ _ job. is_terminal job.state ≡ true) m.jobs
  pub calm : m.last_job_created + quiet ≤ now

all_terminal-AllEntries :
    (m : List (ℕ × JobHandle))
    → all_terminal m ≡ true
    → AllEntries (λ _ job. is_terminal job.state ≡ true) m
unfolding all_terminal
all_terminal-AllEntries [] h = tt
all_terminal-AllEntries ((k, j) ∷ m) h = ground (arith, all_terminal-AllEntries m)

AllEntries-all_terminal :
    (m : List (ℕ × JobHandle))
    → AllEntries (λ _ job. is_terminal job.state ≡ true) m
    → all_terminal m ≡ true
unfolding all_terminal
AllEntries-all_terminal [] h = refl
AllEntries-all_terminal ((k, j) ∷ m) h = ground (arith, AllEntries-all_terminal m h.1)

is_empty-eq-false : (m : List (ℕ × JobHandle)) → m ≢ [] → is_empty m ≡ false
is_empty-eq-false [] h = absurd (h refl)
is_empty-eq-false (_ ∷ _) h = refl

is_quiet-IsQuiet :
    (m : JobManager) (now quiet : ℕ) → is_quiet m now quiet ≡ true → IsQuiet m now quiet
unfolding is_quiet
is_quiet-IsQuiet m now quiet h = record {
  busy = λ e. cc (rw e at (nonempty h));
  ended = all_terminal-AllEntries m.jobs (ground arith);
  calm = ground arith;
}
  where
    nonempty : is_quiet m now quiet ≡ true → has_active_jobs m ≡ true
    nonempty h = ground arith

IsQuiet-is_quiet :
    (m : JobManager) (now quiet : ℕ) → IsQuiet m now quiet → is_quiet m now quiet ≡ true
unfolding is_quiet
IsQuiet-is_quiet m now quiet q =
    ground (arith, AllEntries-all_terminal m.jobs q.ended, is_empty-eq-false m.jobs q.busy)

-- In a quiet manager, with no id twice in its map, a round takes every job out, and returns how
-- many there were.
cleanup_idle_jobs-IsQuiet :
    (m : JobManager) (now idle quiet : ℕ)
    → UniqueKeys m.jobs
    → IsQuiet m now quiet
    → ((cleanup_idle_jobs m now idle quiet).0.jobs ≡ [])
      × ((cleanup_idle_jobs m now idle quiet).1 ≡ length m.jobs)
cleanup_idle_jobs-IsQuiet m now idle quiet u q =
    let (jobs, count) = cleanup_idle_jobs_lem m now idle quiet u in
    let empty = rw (IsQuiet-is_quiet m now quiet q) at jobs in
    (empty, ground (arith, ap length empty))

-- In a manager that is not quiet, with no id twice in its map, a job is in the map after a round
-- exactly if it was before and is not due.
pub cleanup_idle_jobs-get :
    (m : JobManager) (now idle quiet id : ℕ) (job : JobHandle)
    → UniqueKeys m.jobs
    → ¬ IsQuiet m now quiet
    → (get id (cleanup_idle_jobs m now idle quiet).0.jobs ≡ some job)
      ↔ ((get id m.jobs ≡ some job) × ¬ IsDue now idle job)
cleanup_idle_jobs-get m now idle quiet id job u q = elim (Bool-cases (is_quiet m now quiet)) [
  | inl e ↦ absurd (q (is_quiet-IsQuiet m now quiet e))
  | inr e ↦
      rw ((cleanup_idle_jobs_lem m now idle quiet u).0, e)
        (
          λ h.
              let (there, p) = keep_sound id _ m.jobs job u h in
              (there, λ due. cc (p, IsDue-should_cleanup now idle job due)),
          λ h. keep_complete id _ m.jobs job h.0 (not_due h.1),
        )
]
  where
    not_due : ¬ IsDue now idle job → not (should_cleanup now idle job) ≡ true
    not_due n = elim (Bool-cases (should_cleanup now idle job)) [
      | inl s ↦ absurd (n (should_cleanup-IsDue now idle job s))
      | inr s ↦ rw s
    ]

-- In a manager with no id twice in its map, a job that has not ended and was active within the
-- idle duration is not taken out by a round.
cleanup_idle_jobs-active :
    (m : JobManager) (now idle quiet id : ℕ) (job : JobHandle)
    → UniqueKeys m.jobs
    → get id m.jobs ≡ some job
    → is_terminal job.state ≡ false
    → now < job.last_activity + idle
    → get id (cleanup_idle_jobs m now idle quiet).0.jobs ≡ some job
cleanup_idle_jobs-active m now idle quiet id job u e live recent =
    (cleanup_idle_jobs-get m now idle quiet id job u (λ q.
        cc (live, AllEntries-get (λ _ j. is_terminal j.state ≡ true) id m.jobs job q.ended e))).1
      (e, λ due. ground (arith, due.1, due.2))
