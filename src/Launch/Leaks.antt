-- ===== src/Launch/Leaks.antt =====
-- What is open once there is a process: after a launch of src/process_launcher.rs, and after the
-- `Drop` of a job of src/job_manager.rs.
use Prim.Native.String.{String}
use windows_command_runner.Base.{
  ℕ, ◌≡◌, ◌≢◌, refl, ◌∙◌, false, Option, List, [], ◌∷◌, ◌++◌, arith, map,
}
use windows_command_runner.Error.{Error, ok, err}
use windows_command_runner.Job.Handle.{JobHandle, drop_job, take_handle}
use windows_command_runner.Launch.Pipes.{
  granted, refused, LaunchApi, ProcessInfo, HandleEvent, opened, closed, ChildPipeHandles,
  close_open, close_all,
}
use windows_command_runner.Launch.EnvBlock.{WideApi}
use windows_command_runner.Launch.Process.{
  LaunchedProcess, create_args, drop_process, do_launch, adopt, launch_in, launch,
}
use windows_command_runner.Launch.Handles.{
  is_open, IsHandle, handles, elem, Apart, is_open-append, is_open-close_all,
}
use windows_command_runner.Launch.Failures.{
  HasPipes, HasJob, fresh_process, pipe_log, launch-launch_in,
}

module _ (api : LaunchApi) (wide : WideApi) (p : ChildPipeHandles) (has_pipes : HasPipes api p)
    (command : String) (directory : Option String) (environment : Option (List (String × String)))
    (job : ℕ) (has_job : HasJob api job) (info : ProcessInfo)
    (started : api.create_process (create_args api wide command directory environment p)
      ≡ granted info)
    (thread_valid : IsHandle api info.thread)
    (apart : Apart (handles p ++ job ∷ info.process ∷ info.thread ∷ [])) where
  abbrev start_log : List HandleEvent
  start_log = pipe_log p ++ (opened job ∷ opened info.process ∷ opened info.thread ∷ [])

  launch-adopt : launch api wide command directory environment ≡ (
    (adopt api wide (fresh_process info) p job).0,
    start_log ++ (adopt api wide (fresh_process info) p job).1,
  )
  launch-adopt =
      launch-launch_in api wide p has_pipes command directory environment job has_job
      ∙ rw in_eq refl
    where
      in_eq : launch_in api wide command directory environment p job ≡ (
        (adopt api wide (fresh_process info) p job).0,
        opened info.process ∷ opened info.thread ∷ (adopt api wide (fresh_process info) p job).1,
      )
      in_eq = unfold launch_in do_launch in ground arith

  drop_process-eq :
      (proc : LaunchedProcess)
      → proc.thread_handle ≡ info.thread
      → drop_process api wide proc ≡ closed info.thread ∷ []
  unfolding drop_process
  drop_process-eq proc e = ground (arith, thread_valid.0, thread_valid.1)

  -- If only the assignment to the job object is refused, and the handles are valid and differ,
  -- the launch fails although the process runs, and just the handles of the process and of the
  -- job object stay open, for good.
  pub launch-no_assignment :
      (code : ℕ)
      → api.assign_process job info.process ≡ refused code
      → ((launch api wide command directory environment).0 ≡ err (Error.windows code))
        × ((h : ℕ)
            → is_open h false (launch api wide command directory environment).1
              ≡ elem h (job ∷ info.process ∷ []))
  launch-no_assignment code e =
      let eq : adopt api wide (fresh_process info) p job ≡ (
        err (Error.windows code),
        drop_process api wide (fresh_process info) ++ (close_all api p).1,
      ) =
        unfold adopt in ground arith in
      rw launch-adopt (
        rw eq (
          rw (drop_process-eq (fresh_process info) refl) (
            refl,
            λ h.
                is_open-append h false (start_log ++ (closed info.thread ∷ [])) (close_all api p).1
                ∙ is_open-close_all api h _ p has_pipes.valid
                ∙ (unfold is_open in ground arith),
          )))

  -- The process that a successful launch returns.
  abbrev pub launched : LaunchedProcess
  launched = record (fresh_process info) {
    job_object = job;
    stdout_read = p.stdout_read;
    stderr_read = p.stderr_read;
    stdin_write = p.stdin_write;
  }

  adopt-ok :
      api.assign_process job info.process ≡ granted tt
      → adopt api wide (fresh_process info) p job
        ≡ (ok launched, closed p.stdout_write ∷ closed p.stderr_write ∷ closed p.stdin_read ∷ [])
  unfolding adopt close_all close_open
  adopt-ok e =
      ground (arith, has_pipes.valid.0, has_pipes.valid.1.1.1.0, has_pipes.valid.1.1.1.1.1.0)

  -- If Windows grants everything, with valid handles that all differ, the launch returns the
  -- process with its job object and the server's ends of the three pipes. Once it is dropped,
  -- exactly these five handles are open: the child's ends of the pipes and the thread have
  -- been closed.
  pub launch-ok :
      api.assign_process job info.process ≡ granted tt
      → ((launch api wide command directory environment).0 ≡ ok launched)
        × ((h : ℕ)
            → is_open h false (
                (launch api wide command directory environment).1 ++ drop_process api wide launched)
              ≡ elem h (job ∷ info.process ∷ p.stdin_write ∷ p.stdout_read ∷ p.stderr_read ∷ []))
  launch-ok e = rw launch-adopt (
      rw (adopt-ok e)
        (rw (drop_process-eq launched refl) (refl, λ h. unfold is_open in ground arith)))

  -- After a launch for which Windows grants everything, with valid handles that all differ,
  -- and once the `JobHandle` that holds the process and the job object is dropped, exactly the
  -- server's ends of the three pipes are open: nothing closes them.
  pub launch-drop_job :
      (held : JobHandle)
      → api.assign_process job info.process ≡ granted tt
      → held.process_handle.value ≡ info.process
      → held.job_object.value ≡ job
      → job ≢ 0
      → info.process ≢ 0
      → (h : ℕ)
      → is_open h false (
          (launch api wide command directory environment).1
          ++ (drop_process api wide launched ++ map closed (drop_job held).1))
        ≡ elem h (p.stdin_write ∷ p.stdout_read ∷ p.stderr_read ∷ [])
  launch-drop_job held e same_process same_job job_set process_set h = rw launch-adopt (
      rw (adopt-ok e)
        (rw (drop_process-eq launched refl) (rw dropped (unfold is_open in ground arith))))
    where
      dropped : map closed (drop_job held).1 ≡ closed info.process ∷ closed job ∷ []
      dropped = unfold drop_job take_handle in ground arith
