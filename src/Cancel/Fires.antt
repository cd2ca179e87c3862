-- ===== src/Cancel/Fires.antt =====
-- That `monitor_timeout` of src/cancellation.rs stops a job in time, and what stopping it does.
use windows_command_runner.Base.{
  ℕ, ◌+◌, ◌-◌, ◌*◌, ◌<◌, ◌≤◌, ◌≡◌, ◌≢◌, ◌⊎◌, refl, ◌∙◌, inl, inr, false, some, List, [], ◌∷◌, leb,
  ◌==◌, if◌then◌else◌, length, arith, Bool-cases,
}
use windows_command_runner.Base.Assoc.{get, update, get-update-some}
use windows_command_runner.Job.State.{timed_out, is_terminal, can_transition_to}
use windows_command_runner.Job.Handle.{JobHandle, get_handle}
use windows_command_runner.Job.Manager.{transition_state, cancel_token, enter_state}
use windows_command_runner.Cancel.{TerminationApi, terminate_job, Ends, terminate_job-Ends}
use windows_command_runner.Cancel.Timeout.{
  check_interval, Poll, Monitor, returned, watching, fired, shared, get-transition_state,
  get-transition_state_self, fire, watch, monitor_timeout, IsDue, FiresAt,
}

-- The job of a poll once it is stopped: its token is cancelled, and its state is `timed_out` if
-- that transition is permitted.
abbrev pub stopped_job : Poll → JobHandle
stopped_job p =
    cancel_token
      (if can_transition_to p.job.state timed_out then enter_state timed_out p.now p.job else p.job)

module _ (api : TerminationApi) where
  -- The monitor has stopped the job of a poll: the map has the stopped job and is otherwise as it
  -- was, and the process was ended as `terminate_job` ends it.
  abbrev pub Stops : Poll → Monitor → Type 0
  Stops p returned = ⊥
  Stops p watching = ⊥
  Stops p (fired m outcome) =
      ((id : ℕ)
        → get id m.jobs
          ≡ (if id == p.job.job_id then some (stopped_job p) else get id p.manager.jobs))
      × Ends api p.job p.exits outcome

  -- One of the polls is due, and the monitor has stopped its job.
  abbrev pub StopsAt : ℕ → ℕ → List Poll → Monitor → Type 0
  StopsAt timeout start [] r = ⊥
  StopsAt timeout start (p ∷ polls) r =
      (IsDue api timeout start p × Stops p r) ⊎ StopsAt timeout start polls r

  fire-jobs :
      (p : Poll) (id : ℕ)
      → get p.job.job_id p.manager.jobs ≡ some p.job
      → get id (
          update p.job.job_id cancel_token
            (transition_state p.manager p.job.job_id timed_out p.now).0.jobs)
        ≡ (if id == p.job.job_id then some (stopped_job p) else get id p.manager.jobs)
  fire-jobs p j held =
      let id = p.job.job_id in
      let m = (transition_state p.manager id timed_out p.now).0 in
      let here = get-transition_state_self p.manager id timed_out p.now p.job held in
      get-update-some j id cancel_token m.jobs _ here ∙ elim (Bool-cases (j == id)) [
        | inl q ↦ rw q refl
        | inr q ↦ rw q (get-transition_state p.manager id timed_out p.now p.job held j ∙ rw q refl)
      ]

  -- The transition keeps the handles of the job.
  fire-Ends :
      (p : Poll)
      → get p.job.job_id p.manager.jobs ≡ some p.job
      → get_handle p.job.process_handle ≢ 0
      → Ends api p.job p.exits (
          terminate_job api
            (shared (transition_state p.manager p.job.job_id timed_out p.now).0 p.job)
            p.exits)
  fire-Ends p held process =
      let here = get-transition_state_self p.manager p.job.job_id timed_out p.now p.job held in
      elim (Bool-cases (can_transition_to p.job.state timed_out)) [
        | inl c ↦
            rw (here, shared)
              (rw c (terminate_job-Ends api (enter_state timed_out p.now p.job) p.exits process))
        | inr c ↦ rw (here, shared) (rw c (terminate_job-Ends api p.job p.exits process))
      ]

  fire-Stops :
      (p : Poll)
      → get p.job.job_id p.manager.jobs ≡ some p.job
      → get_handle p.job.process_handle ≢ 0
      → Stops p (fire api p)
  unfolding fire
  fire-Stops p held process = (λ id. fire-jobs p id held, fire-Ends p held process)

  -- Each poll finds the job at work, with a process and as the map has it, and the sleep after it
  -- is not interrupted.
  abbrev pub Undisturbed : List Poll → Type 0
  Undisturbed [] = Unit {0}
  Undisturbed (p ∷ polls) =
      ((is_terminal p.job.state ≡ false)
        × (p.job.is_cancelled ≡ false)
        × (p.woken ≡ false)
        × (get p.job.job_id p.manager.jobs ≡ some p.job)
        × (get_handle p.job.process_handle ≢ 0))
      × Undisturbed polls

  -- Each poll comes at least the interval of the sleep after the one before it, the first not
  -- before a given time.
  abbrev pub Spaced : ℕ → List Poll → Type 0
  Spaced earliest [] = Unit {0}
  Spaced earliest (p ∷ polls) = (earliest ≤ p.now) × Spaced (earliest + check_interval) polls

  watch_fires :
      (timeout start earliest : ℕ) (polls : List Poll)
      → Undisturbed polls
      → Spaced earliest polls
      → 0 < length polls
      → start + timeout + check_interval ≤ earliest + length polls * check_interval
      → FiresAt api timeout start polls (watch api timeout start polls)
  unfolding watch
  watch_fires timeout start earliest [] u s h g = absurd (omega arith)
  watch_fires timeout start earliest (p ∷ polls) ((t, c, w, _, _), u) (s, ss) h g =
      elim (Bool-cases (leb timeout (p.now - start))) [
        | inl o ↦ inl (record { live = t; kept = c; over = ground arith }, ground arith)
        | inr o ↦
            let early : p.now - start < timeout = ground arith in
            inr (
              rw (t, c, o, w)
                (watch_fires timeout start (earliest + check_interval) polls u ss (omega arith)
                  (omega arith)))
      ]

  FiresAt-StopsAt :
      (timeout start : ℕ) (polls : List Poll) (r : Monitor)
      → Undisturbed polls
      → FiresAt api timeout start polls r
      → StopsAt timeout start polls r
  FiresAt-StopsAt timeout start [] r u f = absurd f
  FiresAt-StopsAt timeout start (p ∷ polls) r ((_, _, _, held, process), u) (inl (due, same)) =
      inl (due, rw same (fire-Stops p held process))
  FiresAt-StopsAt timeout start (p ∷ polls) r (_, u) (inr f) =
      inr (FiresAt-StopsAt timeout start polls r u f)

  -- If a job has a timeout, nothing else ends it or cancels it at the polls and in the sleeps
  -- between them, each poll finds it in the map and with a process, and each comes a second or more
  -- after the one before, then the monitor stops it at one of the first polls that are enough to
  -- cover the timeout at one second each, and one more. Its token is then cancelled, its state is
  -- `timed_out` if that transition is permitted, so if it was running, and kept otherwise, no other
  -- job changes, and either the job object was terminated and the process seen to exit, or the last
  -- call is `TerminateProcess` on the process, and the monitor has its result.
  pub monitor_timeout_fires :
      (job : JobHandle) (timeout start : ℕ) (polls : List Poll)
      → job.timeout ≡ some timeout
      → Undisturbed polls
      → Spaced start polls
      → timeout + check_interval ≤ length polls * check_interval
      → StopsAt timeout start polls (monitor_timeout api job start polls)
  unfolding monitor_timeout
  monitor_timeout_fires job timeout start polls e u s h =
      rw (e, monitor_timeout)
        (FiresAt-StopsAt timeout start polls _ u
          (watch_fires timeout start start polls u s (omega arith) (omega arith)))
