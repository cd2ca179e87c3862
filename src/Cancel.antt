-- ===== src/Cancel.antt =====
-- `terminate_job` and `wait_for_exit_timeout` of src/cancellation.rs. The calls of Windows and of
-- the launcher are parameters; the polls of the wait are the answers that it gets before its
-- deadline.
pub mod Timeout
pub mod Fires
pub mod Wait
use windows_command_runner.Base.{
  ℕ, ◌≡◌, ◌≢◌, ◌⊎◌, Bool, true, false, not, ◌&&◌, Option, none, some, List, [], ◌∷◌, ◌++◌, ◌==◌,
  if◌then◌else◌, arith, inl, inr, Bool-cases, Option-cases,
}
use windows_command_runner.Error.{
  Error, Result, ok, err, process_launch_failed, terminate_process_failed,
}
use windows_command_runner.Job.Handle.{JobHandle, get_handle}
use windows_command_runner.Job.Manager.{cancel_token}

-- `terminate_job_object`, by whether it succeeds, and `TerminateProcess`, by its error if any.
pub record TerminationApi : Type 0 where
  pub terminate_job_object : ℕ → Bool
  pub terminate_process : ℕ → Option ℕ

-- A call that ends processes.
pub data Kill : Type 0 where
  kill_object kill_process : ℕ → Kill

-- Whether the process is signaled at one of the polls.
unfoldable pub wait_for_exit_timeout : List Bool → Bool
wait_for_exit_timeout [] = false
wait_for_exit_timeout (signaled ∷ polls) =
    let later = wait_for_exit_timeout polls in if signaled then true else later

module _ (api : TerminationApi) where
  open api use {terminate_job_object, terminate_process}

  -- The fallback, after the calls made so far.
  unfoldable pub terminate_directly :
      JobHandle → List Kill → JobHandle × Result (Unit {0}) × List Kill
  terminate_directly job calls =
      let proc = get_handle job.process_handle in
      if not (proc == 0)
      then elim (terminate_process proc) [
        | none ↦ (job, ok tt, calls ++ kill_process proc ∷ [])
        | some code ↦ (
          job,
          err (process_launch_failed (terminate_process_failed code)),
          calls ++ kill_process proc ∷ [],
        )
      ]
      else (job, ok tt, calls)

  unfoldable pub terminate_job : JobHandle → List Bool → JobHandle × Result (Unit {0}) × List Kill
  unfolding terminate_directly wait_for_exit_timeout
  terminate_job handle polls =
      let job = cancel_token handle in
      let object = get_handle job.job_object in
      let proc = get_handle job.process_handle in
      if not (object == 0)
      then if terminate_job_object object
        then if not (proc == 0) && wait_for_exit_timeout polls
          then (job, ok tt, kill_object object ∷ [])
          else terminate_directly job (kill_object object ∷ [])
        else terminate_directly job (kill_object object ∷ [])
      else terminate_directly job []

  -- Terminating a job cancels its token. If it succeeds for a job with a process, then the job
  -- object was terminated and the process was seen to exit, or `TerminateProcess` succeeded on the
  -- process.
  terminate_job-ok :
      (handle : JobHandle) (polls : List Bool)
      → get_handle handle.process_handle ≢ 0
      → (terminate_job handle polls).1 ≡ ok tt
      → ((terminate_job handle polls).0.is_cancelled ≡ true)
        × (((terminate_job_object (get_handle handle.job_object) ≡ true)
              × (get_handle handle.job_object ≢ 0)
              × (wait_for_exit_timeout polls ≡ true))
            ⊎ (terminate_process (get_handle handle.process_handle) ≡ none))
  unfolding terminate_job terminate_directly
  terminate_job-ok handle polls process e = ground arith

  -- What a call for a job with a process has done: it terminated the job object and the process was
  -- seen to exit, or its last call ends the process itself, and it has the result of that call.
  abbrev pub Ends : JobHandle → List Bool → JobHandle × Result (Unit {0}) × List Kill → Type 0
  Ends handle polls (_, r, kills) =
      let object = get_handle handle.job_object in
      let proc = get_handle handle.process_handle in
      ((kills ≡ kill_object object ∷ [])
        × (terminate_job_object object ≡ true)
        × (wait_for_exit_timeout polls ≡ true)
        × (r ≡ ok tt))
      ⊎ ((front : List Kill) × (kills ≡ front ++ kill_process proc ∷ [])
          × (((terminate_process proc ≡ none) × (r ≡ ok tt))
              ⊎ ((code : ℕ) × (terminate_process proc ≡ some code)
                  × (r ≡ err (process_launch_failed (terminate_process_failed code))))))

  terminate_directly-Ends :
      (handle : JobHandle) (polls : List Bool) (front : List Kill)
      → get_handle handle.process_handle ≢ 0
      → Ends handle polls (terminate_directly handle front)
  unfolding terminate_directly
  terminate_directly-Ends handle polls front process =
      elim (Option-cases (terminate_process (get_handle handle.process_handle))) [
        | inl e ↦ inr (front, ground arith, inl (e, ground arith))
        | inr (code, e) ↦ inr (front, ground arith, inr (code, e, ground arith))
      ]

  pub terminate_job-Ends :
      (handle : JobHandle) (polls : List Bool)
      → get_handle handle.process_handle ≢ 0
      → Ends handle polls (terminate_job handle polls)
  unfolding terminate_job
  terminate_job-Ends handle polls process =
      let object = get_handle handle.job_object in
      let directly = terminate_directly-Ends (cancel_token handle) polls in
      elim (Bool-cases (object == 0)) [
        | inl absent ↦ rw absent (directly [] process)
        | inr there ↦ elim (Bool-cases (terminate_job_object object)) [
          | inr refused ↦
              let same : terminate_job handle polls
                  ≡ terminate_directly (cancel_token handle) (kill_object object ∷ []) =
                ground arith in
              rw same (directly (kill_object object ∷ []) process)
          | inl killed ↦ elim (Bool-cases (wait_for_exit_timeout polls)) [
            | inr late ↦
                let same : terminate_job handle polls
                    ≡ terminate_directly (cancel_token handle) (kill_object object ∷ []) =
                  ground arith in
                rw same (directly (kill_object object ∷ []) process)
            | inl seen ↦ inl (ground arith, killed, seen, ground arith)
          ]
        ]
      ]

  -- Terminating a job fails only if the job has a process, the wait was not seen to succeed after
  -- the job object was terminated, and `TerminateProcess` fails, whose code is in the error.
  terminate_job-err :
      (handle : JobHandle) (polls : List Bool) (x : Error)
      → (terminate_job handle polls).1 ≡ err x
      → (get_handle handle.process_handle ≢ 0)
        × ((get_handle handle.job_object ≡ 0)
            ⊎ (terminate_job_object (get_handle handle.job_object) ≡ false)
            ⊎ (wait_for_exit_timeout polls ≡ false))
        × ((code : ℕ) × (terminate_process (get_handle handle.process_handle) ≡ some code)
            × (x ≡ process_launch_failed (terminate_process_failed code)))
  unfolding terminate_job terminate_directly
  terminate_job-err handle polls x e = ground arith
