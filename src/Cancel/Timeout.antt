-- ===== src/Cancel/Timeout.antt =====
-- `monitor_timeout` of src/cancellation.rs. A poll is one look of the loop at the shared job, with
-- the sleep after it. Times are numbers of nanoseconds.
use windows_command_runner.Base.{
  ℕ, ◌-◌, ◌≤◌, ◌≡◌, ◌⊎◌, refl, inl, inr, Bool, false, none, some, List, [], ◌∷◌, leb, ◌==◌,
  if◌then◌else◌, arith, Bool-cases, Option-cases,
}
use windows_command_runner.Base.Assoc.{get, update, get-update-some}
use windows_command_runner.Base.{==_iff}
use windows_command_runner.Error.{Result}
use windows_command_runner.Job.State.{JobState, timed_out, is_terminal, can_transition_to}
use windows_command_runner.Job.Handle.{JobHandle}
use windows_command_runner.Job.Manager.{JobManager, transition_state, cancel_token, enter_state}
use windows_command_runner.Job.Calls.{transition_state-eq}
use windows_command_runner.Cancel.{TerminationApi, Kill, terminate_job}

abbrev pub check_interval : ℕ
check_interval = 1_000_000_000

pub record Poll : Type 0 where
  pub manager : JobManager
  pub job : JobHandle  -- what the shared handle holds
  pub now : ℕ
  pub exits : List Bool  -- the polls of the wait, should the job be terminated now
  pub woken : Bool  -- the token is cancelled during the sleep

-- What the monitor has come to: it returned without having done anything, or after the timeout,
-- with what `terminate_job` gives, or it still watches.
pub data Monitor : Type 0 where
  returned watching : Monitor
  fired : JobManager → JobHandle × Result (Unit {0}) × List Kill → Monitor

-- What the handle of a job holds while the map has it too; otherwise what it held before.
abbrev pub shared : JobManager → JobHandle → JobHandle
shared m job = elim (get job.job_id m.jobs) [ some j ↦ j | none ↦ job ]

transition_state-refused :
    (m : JobManager) (id : ℕ) (new_state : JobState) (now : ℕ) (job : JobHandle)
    → get id m.jobs ≡ some job
    → can_transition_to job.state new_state ≡ false
    → (transition_state m id new_state now).0 ≡ m
unfolding transition_state
transition_state-refused m id new_state now job e c = rw (e, transition_state) (rw c refl)

-- What the map holds after a transition to some state, permitted or not.
pub get-transition_state :
    (m : JobManager) (id : ℕ) (new_state : JobState) (now : ℕ) (job : JobHandle)
    → get id m.jobs ≡ some job
    → (j : ℕ)
    → get j (transition_state m id new_state now).0.jobs ≡ (
        if j == id
        then some
            (if can_transition_to job.state new_state then enter_state new_state now job else job)
        else get j m.jobs)
get-transition_state m id new_state now job e j =
    elim (Bool-cases (can_transition_to job.state new_state)) [
      | inl c ↦
          rw (transition_state-eq m id new_state now job e c, c)
            (get-update-some j id (enter_state new_state now) m.jobs job e)
      | inr c ↦ elim (Bool-cases (j == id)) [
        | inl q ↦
            rw (transition_state-refused m id new_state now job e c, c, q, (==_iff j id).0 q) e
        | inr q ↦ rw (transition_state-refused m id new_state now job e c, q) refl
      ]
    ]

pub get-transition_state_self :
    (m : JobManager) (id : ℕ) (new_state : JobState) (now : ℕ) (job : JobHandle)
    → get id m.jobs ≡ some job
    → get id (transition_state m id new_state now).0.jobs
      ≡ some (if can_transition_to job.state new_state then enter_state new_state now job else job)
get-transition_state_self m id new_state now job e =
    rw (get-transition_state m id new_state now job e id, (==_iff id id).1 refl) refl

module _ (api : TerminationApi) where
  -- `terminate_job` cancels the token of the shared handle.
  unfoldable pub fire : Poll → Monitor
  unfolding terminate_job
  fire p =
      let id = p.job.job_id in
      let m = (transition_state p.manager id timed_out p.now).0 in
      fired (record m { jobs = update id cancel_token m.jobs })
        (terminate_job api (shared m p.job) p.exits)

  -- The loop, from the time at which the monitor starts.
  unfoldable pub watch : ℕ → ℕ → List Poll → Monitor
  unfolding fire
  watch timeout start [] = watching
  watch timeout start (p ∷ polls) =
      let later = watch timeout start polls in
      if is_terminal p.job.state
      then returned
      else if p.job.is_cancelled
      then returned
      else if leb timeout (p.now - start)
      then fire p
      else if p.woken
      then returned
      else later

  unfoldable pub monitor_timeout : JobHandle → ℕ → List Poll → Monitor
  unfolding watch
  monitor_timeout job start polls = elim job.timeout [
    | none ↦ returned
    | some timeout ↦ watch timeout start polls
  ]

  -- A poll at which the job runs on, and the timeout has passed.
  pub record IsDue (timeout start : ℕ) (p : Poll) : Type 0 where
    pub live : is_terminal p.job.state ≡ false
    pub kept : p.job.is_cancelled ≡ false
    pub over : timeout ≤ p.now - start

  -- One of the polls is due, and the monitor has fired at it.
  abbrev pub FiresAt : ℕ → ℕ → List Poll → Monitor → Type 0
  FiresAt timeout start [] r = ⊥
  FiresAt timeout start (p ∷ polls) r =
      (IsDue timeout start p × (r ≡ fire p)) ⊎ FiresAt timeout start polls r

  watch-fired :
      (timeout start : ℕ) (polls : List Poll) (m : JobManager)
      (r : JobHandle × Result (Unit {0}) × List Kill)
      → watch timeout start polls ≡ fired m r
      → FiresAt timeout start polls (fired m r)
  unfolding watch
  watch-fired timeout start [] m r e = absurd (ground arith)
  watch-fired timeout start (p ∷ polls) m r e = elim (Bool-cases (is_terminal p.job.state)) [
    | inl t ↦ absurd (ground arith)
    | inr t ↦ elim (Bool-cases p.job.is_cancelled) [
      | inl c ↦ absurd (ground arith)
      | inr c ↦ elim (Bool-cases (leb timeout (p.now - start))) [
        | inl o ↦ inl (record { live = t; kept = c; over = ground arith }, ground arith)
        | inr o ↦ inr (watch-fired timeout start polls m r (ground arith))
      ]
    ]
  ]

  -- The monitor stops a job only if the job has a timeout, and it then stops it as it is at one of
  -- the polls, at which the job is not in a terminal state, its token is not cancelled, and the
  -- timeout has passed since the monitor started.
  pub monitor_timeout-fired :
      (job : JobHandle) (start : ℕ) (polls : List Poll) (m : JobManager)
      (r : JobHandle × Result (Unit {0}) × List Kill)
      → monitor_timeout job start polls ≡ fired m r
      → (timeout : ℕ) × (job.timeout ≡ some timeout) × FiresAt timeout start polls (fired m r)
  unfolding monitor_timeout
  monitor_timeout-fired job start polls m r e = elim (Option-cases job.timeout) [
    | inl none_set ↦ absurd (ground arith)
    | inr (timeout, set) ↦ (timeout, set, watch-fired timeout start polls m r (ground arith))
  ]
