-- ===== src/Launch/Failures.antt =====
-- How a launch of src/process_launcher.rs fails before there is a process.
use Prim.Native.String.{String}
use windows_command_runner.Base.{
  ℕ, ◌≡◌, refl, ◌∙◌, false, Option, List, [], ◌∷◌, ◌++◌, arith, All, map,
}
use windows_command_runner.Error.{
  ok, err, process_launch_failed, create_process_failed, create_job_object_failed,
  create_pipe_stdout_failed,
}
use windows_command_runner.Launch.Pipes.{
  granted, refused, LaunchApi, ProcessInfo, HandleEvent, opened, closed, ChildPipeHandles,
  close_all, create_pipes, create_job_object,
}
use windows_command_runner.Launch.EnvBlock.{WideApi}
use windows_command_runner.Launch.Process.{
  LaunchedProcess, create_args, do_launch, launch_in, launch_with, launch,
}
use windows_command_runner.Launch.Handles.{
  is_open, IsHandle, handles, elem, is_open-append, is_open-close_all,
}

-- Windows gives the three pipes.
pub record HasPipes (api : LaunchApi) (p : ChildPipeHandles) : Type 0 where
  pub stdin : api.stdin_pipe ≡ granted (p.stdin_read, p.stdin_write)
  pub stdout : api.stdout_pipe ≡ granted (p.stdout_read, p.stdout_write)
  pub stderr : api.stderr_pipe ≡ granted (p.stderr_read, p.stderr_write)
  pub valid : All (IsHandle api) (handles p)

-- What `do_launch` makes of a started process.
abbrev pub fresh_process : ProcessInfo → LaunchedProcess
fresh_process info = record {
  process_handle = info.process;
  thread_handle = info.thread;
  process_id = info.id;
  job_object = 0;
  stdout_read = 0;
  stderr_read = 0;
  stdin_write = 0;
}

-- It also gives a job object.
pub record HasJob (api : LaunchApi) (job : ℕ) : Type 0 where
  pub made : api.create_job ≡ granted job
  pub limited : api.set_information job ≡ granted tt

create_job_object-eq :
    (api : LaunchApi) (job : ℕ) → HasJob api job → create_job_object api ≡ (ok job, opened job ∷ [])
unfolding create_job_object
create_job_object-eq api job has = ground (arith, has.made, has.limited)

create_job_object-err :
    (api : LaunchApi) (code : ℕ)
    → api.create_job ≡ refused code
    → create_job_object api ≡ (err (process_launch_failed (create_job_object_failed code)), [])
unfolding create_job_object
create_job_object-err api code e = ground arith

abbrev pub pipe_log : ChildPipeHandles → List HandleEvent
pipe_log p = map opened (handles p)

-- If the second pipe is refused, the launch fails and both ends of the first stay open, for good.
launch-no_stdout_pipe :
    (api : LaunchApi) (wide : WideApi) (command : String) (directory : Option String)
    (environment : Option (List (String × String))) (in_read in_write code h : ℕ)
    → api.stdin_pipe ≡ granted (in_read, in_write)
    → api.stdout_pipe ≡ refused code
    → ((launch api wide command directory environment).0
        ≡ err (process_launch_failed (create_pipe_stdout_failed code)))
      × (is_open h false (launch api wide command directory environment).1
          ≡ elem h (in_read ∷ in_write ∷ []))
unfolding launch create_pipes is_open
launch-no_stdout_pipe api wide command directory environment in_read in_write code h e f =
    ground arith

module _ (api : LaunchApi) (wide : WideApi) (p : ChildPipeHandles) (has_pipes : HasPipes api p)
    (command : String) (directory : Option String)
    (environment : Option (List (String × String))) where
  launch-launch_with : launch api wide command directory environment ≡ (
    (launch_with api wide command directory environment p).0,
    pipe_log p ++ (launch_with api wide command directory environment p).1,
  )
  unfolding launch create_pipes
  launch-launch_with = rw (has_pipes.stdin, has_pipes.stdout, has_pipes.stderr) refl

  -- If Windows gives the pipes and refuses the job object, the launch fails with that error, and
  -- every handle that was opened has been closed.
  launch-no_job :
      (code : ℕ)
      → api.create_job ≡ refused code
      → ((launch api wide command directory environment).0
          ≡ err (process_launch_failed (create_job_object_failed code)))
        × ((h : ℕ) → is_open h false (launch api wide command directory environment).1 ≡ false)
  unfolding launch_with
  launch-no_job code e =
      let eq : launch_with api wide command directory environment p
          ≡ (err (process_launch_failed (create_job_object_failed code)), (close_all api p).1) =
        rw (create_job_object-err api code e, launch_with)
          (rw (create_job_object-err api code e)) in
      rw launch-launch_with (
        rw eq (
          refl,
          λ h.
              is_open-append h false (pipe_log p) (close_all api p).1
              ∙ is_open-close_all api h _ p has_pipes.valid
              ∙ (unfold is_open in ground arith),
        ))

  module _ (job : ℕ) (has_job : HasJob api job) where
    pub launch-launch_in : launch api wide command directory environment ≡ (
      (launch_in api wide command directory environment p job).0,
      pipe_log p ++ (opened job ∷ (launch_in api wide command directory environment p job).1),
    )
    unfolding launch_with
    launch-launch_in =
        launch-launch_with
        ∙ rw (create_job_object-eq api job has_job, launch_with)
            (rw (create_job_object-eq api job has_job))

    -- If Windows gives the pipes and the job object, with valid handles, and refuses the
    -- process, the launch fails with that error, and every handle that was opened has been
    -- closed.
    launch-no_process :
        (code : ℕ)
        → IsHandle api job
        → api.create_process (create_args api wide command directory environment p) ≡ refused code
        → ((launch api wide command directory environment).0
            ≡ err (process_launch_failed (create_process_failed code)))
          × ((h : ℕ) → is_open h false (launch api wide command directory environment).1 ≡ false)
    launch-no_process code valid e =
        let eq : launch_in api wide command directory environment p job ≡ (
          err (process_launch_failed (create_process_failed code)),
          closed job ∷ (close_all api p).1,
        ) =
          unfold launch_in do_launch in ground arith in
        rw launch-launch_in (
          rw eq (
            refl,
            λ h.
                is_open-append h false (pipe_log p ++ (opened job ∷ closed job ∷ []))
                  (close_all api p).1
                ∙ is_open-close_all api h _ p has_pipes.valid
                ∙ (unfold is_open in ground arith),
          ))
