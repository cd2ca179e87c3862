-- ===== src/Service/Drain.antt =====
-- The shutdown of src/service_host.rs.
use windows_command_runner.Base.{
  ℕ, ◌≡◌, ◌≢◌, refl, ap, ◌∙◌, ◌⊎◌, inl, inr, Bool, true, false, some, List, [], ◌∷◌, ◌++◌, arith,
  All, if◌then◌else◌,
}
use windows_command_runner.Base.Assoc.{get, keep, UniqueKeys}
use windows_command_runner.Job.Handle.{JobHandle}
use windows_command_runner.Service.Life.{run_turns_bounded}
use windows_command_runner.Service.Host.{idle_cleanup_threshold, quiet_cleanup_threshold}
use windows_command_runner.Job.Manager.{cleanup_job, JobManager, cleanup_idle_jobs}
use windows_command_runner.Job.Calls.{
  transition_state_cases, cancel_job_cases, cleanup_job_cases, update_activity_cases,
}
use windows_command_runner.Job.Cleanup.{cleanup_idle_jobs_lem, force_cleanup_all_lem}
use windows_command_runner.Job.History.{
  Call, creates, transitions, cancels, cleans, touches, sweeps, clears, step,
}
use windows_command_runner.Service.Host.{
  ServiceHost, Phase, serving, draining, stopped, Turn, calls, ticks, cleanup_notices, stops,
  run_notices, interrupts, sleep_ends, new_host, begin_shutdown, cleanup_tick, turn_in, turn,
  run_turns,
}

-- The flag is set, or `run` has gone on past its wait.
abbrev IsTold : ServiceHost → Type 0
IsTold s = (s.shutdown ≡ true) ⊎ (s.phase ≢ serving)

abbrev IsPast : ServiceHost → Type 0
IsPast s = s.phase ≢ serving

missing : (id : ℕ) (job : JobHandle) (m : JobManager) → m.jobs ≡ [] → get id m.jobs ≢ some job
unfolding get
missing id job m e f = cc (e, f)

cleanup_idle_jobs_empty :
    (m : JobManager) (now idle quiet : ℕ)
    → m.jobs ≡ []
    → (cleanup_idle_jobs m now idle quiet).0.jobs ≡ []
unfolding keep
cleanup_idle_jobs_empty m now idle quiet e =
    (cleanup_idle_jobs_lem m now idle quiet (rw e tt)).0 ∙ rw e (ground arith)

turn_in-IsTold :
    (p : Phase) (s : ServiceHost) (t : Turn) → s.phase ≡ p → IsTold s → IsTold (turn_in p s t)
unfolding turn_in
turn_in-IsTold p s t e v = ground arith

turn_in-IsPast :
    (p : Phase) (s : ServiceHost) (t : Turn) → s.phase ≡ p → IsPast s → IsPast (turn_in p s t)
unfolding turn_in
turn_in-IsPast p s t e v = ground arith

turn_in-stopped :
    (p : Phase) (s : ServiceHost) (t : Turn)
    → s.phase ≡ p
    → s.phase ≡ stopped
    → (turn_in p s t).phase ≡ stopped
unfolding turn_in
turn_in-stopped p s t e v = ground arith

turn_in-stops : (p : Phase) (s : ServiceHost) → s.phase ≡ p → IsTold (turn_in p s stops)
unfolding turn_in
turn_in-stops p s e = ground arith

turn_in-run_notices :
    (p : Phase) (s : ServiceHost) → s.phase ≡ p → IsTold s → IsPast (turn_in p s run_notices)
unfolding turn_in
turn_in-run_notices p s e v = ground arith

turn_in-sleep_ends :
    (p : Phase) (s : ServiceHost)
    → s.phase ≡ p
    → IsPast s
    → (turn_in p s sleep_ends).phase ≡ stopped
unfolding turn_in
turn_in-sleep_ends p s e v = ground arith

if_keeps :
    (P : ServiceHost → Type 0) (b : Bool) (s t : ServiceHost) → P s → P t → P (if b then s else t)
if_keeps P true s t v w = v
if_keeps P false s t v w = w

-- What a turn keeps, a schedule keeps.
keep_all :
    (P : ServiceHost → Type 0)
    → ((s : ServiceHost) (t : Turn) → P s → P (turn s t))
    → (s : ServiceHost) (ts : List Turn) → P s
    → P (run_turns s ts)
unfolding run_turns
keep_all P keep s [] v = v
keep_all P keep s (t ∷ ts) v = keep_all P keep (turn s t) ts (keep s t v)

run_turns-append :
    (s : ServiceHost) (ts us : List Turn) → run_turns s (ts ++ us) ≡ run_turns (run_turns s ts) us
unfolding run_turns
run_turns-append s [] us = refl
run_turns-append s (t ∷ ts) us = run_turns-append (turn s t) ts us

-- A schedule in which `stop` is called, `run` later looks at the flag, and its sleep later ends,
-- leaves the service stopped, whatever the turns between and after these are and from whatever
-- state.
pub run_turns-stopped :
    (s : ServiceHost) (a b c d : List Turn)
    → (run_turns s (a ++ stops ∷ (b ++ run_notices ∷ (c ++ sleep_ends ∷ d)))).phase ≡ stopped
unfolding run_turns turn
run_turns-stopped s a b c d =
    let s1 = run_turns s a in
    let s2 = run_turns (turn s1 stops) b in
    let s3 = run_turns (turn s2 run_notices) c in
    let told : IsTold s2 =
      keep_all IsTold (λ s t. turn_in-IsTold s.phase s t refl) (turn s1 stops) b
        (turn_in-stops s1.phase s1 refl) in
    let past : IsPast s3 =
      keep_all IsPast (λ s t. turn_in-IsPast s.phase s t refl) (turn s2 run_notices) c
        (turn_in-run_notices s2.phase s2 refl told) in
    rw
      (
        run_turns-append s a (stops ∷ (b ++ run_notices ∷ (c ++ sleep_ends ∷ d))),
        run_turns-append (turn s1 stops) b (run_notices ∷ (c ++ sleep_ends ∷ d)),
        run_turns-append (turn s2 run_notices) c (sleep_ends ∷ d),
      )
      (keep_all (λ s. s.phase ≡ stopped) (λ s t. turn_in-stopped s.phase s t refl)
        (turn s3 sleep_ends) d (turn_in-sleep_ends s3.phase s3 refl past))

cleanup_job_empty : (m : JobManager) (id : ℕ) → m.jobs ≡ [] → (cleanup_job m id).0.jobs ≡ []
cleanup_job_empty m id e = elim (cleanup_job_cases m id) [
  | inl (_, q) ↦ rw q e
  | inr (job, f, _) ↦ absurd (missing id job m e f)
]

-- Every call but the creation of a job.
unfoldable pub creates_none : Turn → Bool
creates_none (calls now (creates timeout)) = false
creates_none t = true

step_empty :
    (m : JobManager) (now : ℕ) (c : Call)
    → m.jobs ≡ []
    → creates_none (calls now c) ≡ true
    → (step m (now, c)).jobs ≡ []
unfolding step creates_none
step_empty m now (creates timeout) e n = absurd (ground arith)
step_empty m now (transitions id t) e n = elim (transition_state_cases m id t now) [
  | inl q ↦ rw q e
  | inr (job, f, _, _) ↦ absurd (missing id job m e f)
]
step_empty m now (cancels id) e n = elim (cancel_job_cases m id now) [
  | inl q ↦ rw q e
  | inr (job, f, _, _) ↦ absurd (missing id job m e f)
]
step_empty m now (cleans id) e n = cleanup_job_empty m id e
step_empty m now (touches id) e n = elim (update_activity_cases m id now) [
  | inl q ↦ rw q e
  | inr (job, f, _) ↦ absurd (missing id job m e f)
]
step_empty m now (sweeps idle quiet) e n = cleanup_idle_jobs_empty m now idle quiet e
step_empty m now clears e n = (force_cleanup_all_lem m (rw e tt)).0

-- The shutdown has begun, and there are no jobs.
abbrev IsEmptied : ServiceHost → Type 0
IsEmptied s = (s.phase ≢ serving) × (s.manager.jobs ≡ [])

turn_in-IsEmptied :
    (p : Phase) (s : ServiceHost) (t : Turn)
    → s.phase ≡ p
    → creates_none t ≡ true
    → IsEmptied s
    → IsEmptied (turn_in p s t)
unfolding turn_in
turn_in-IsEmptied stopped s t e n v = v
turn_in-IsEmptied serving s t e n v = absurd (v.0 e)
turn_in-IsEmptied draining s (calls now c) e n v = (v.0, step_empty s.manager now c v.1 n)
turn_in-IsEmptied draining s (ticks now) e n v =
    let tick : IsEmptied (cleanup_tick s now) = (
      v.0,
      cleanup_idle_jobs_empty s.manager now idle_cleanup_threshold quiet_cleanup_threshold v.1,
    ) in
    if_keeps IsEmptied s.cleaning (cleanup_tick s now) s tick v
turn_in-IsEmptied draining s cleanup_notices e n v = ground arith
turn_in-IsEmptied draining s stops e n v = v
turn_in-IsEmptied draining s run_notices e n v = v
turn_in-IsEmptied draining s interrupts e n v = v
turn_in-IsEmptied draining s sleep_ends e n v = (λ e. ground arith, v.1)

run_turns-IsEmptied :
    (s : ServiceHost) (ts : List Turn)
    → All (λ t. creates_none t ≡ true) ts
    → IsEmptied s
    → IsEmptied (run_turns s ts)
unfolding run_turns turn
run_turns-IsEmptied s [] ns v = v
run_turns-IsEmptied s (t ∷ ts) (n, ns) v =
    run_turns-IsEmptied (turn s t) ts ns (turn_in-IsEmptied s.phase s t refl n v)

turn_in-interrupts :
    (p : Phase) (s : ServiceHost) → p ≡ serving → turn_in p s interrupts ≡ begin_shutdown s
unfolding turn_in
turn_in-interrupts p s e = ground arith

begin_shutdown-IsEmptied :
    (s : ServiceHost) → UniqueKeys s.manager.jobs → IsEmptied (begin_shutdown s)
unfolding begin_shutdown
begin_shutdown-IsEmptied s u = (λ e. ground arith, (force_cleanup_all_lem s.manager u).0)

run_turns-interrupts :
    (s : ServiceHost) (after : List Turn)
    → s.phase ≡ serving
    → run_turns s (interrupts ∷ after) ≡ run_turns (begin_shutdown s) after
unfolding run_turns turn
run_turns-interrupts s after e = ap (λ h. run_turns h after) (turn_in-interrupts s.phase s e)

-- If the service was started and is still serving after some schedule, and is then interrupted,
-- then after every further schedule in which no session creates a job there are no jobs.
pub run_turns_emptied :
    (now : ℕ) (before after : List Turn)
    → (run_turns (new_host now) before).phase ≡ serving
    → All (λ t. creates_none t ≡ true) after
    → (run_turns (new_host now) (before ++ interrupts ∷ after)).manager.jobs ≡ []
run_turns_emptied now before after e ns =
    let s = run_turns (new_host now) before in
    rw (run_turns-append (new_host now) before (interrupts ∷ after), run_turns-interrupts s after e)
      (run_turns-IsEmptied (begin_shutdown s) after ns
        (begin_shutdown-IsEmptied s (run_turns_bounded now before).0.unique)).1
