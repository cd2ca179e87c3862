-- ===== src/Launch/Process.antt =====
-- `launch` and `do_launch` of src/process_launcher.rs, with the drops that Rust adds on every path.
use Prim.Native.String.{String}
use mathlib.Core.Option
use windows_command_runner.Base.{ℕ, not, ◌&&◌, Option, List, [], ◌∷◌, ◌++◌, ◌==◌, if◌then◌else◌}
use windows_command_runner.Error.{Error, Result, ok, err, create_process_failed}
use windows_command_runner.Launch.Pipes.{
  granted, refused, CreateArgs, LaunchApi, HandleEvent, opened, closed, ChildPipeHandles,
  launch_error, close_all, create_pipes, create_job_object,
}
use windows_command_runner.Launch.EnvBlock.{WideApi, build_env_block, wide_with_nul}

pub record LaunchedProcess : Type 0 where
  pub process_handle : ℕ
  pub thread_handle : ℕ
  pub process_id : ℕ
  pub job_object : ℕ
  pub stdout_read : ℕ
  pub stderr_read : ℕ
  pub stdin_write : ℕ

module _ (api : LaunchApi) (wide : WideApi) where
  open api use {is_invalid, create_process, assign_process}

  -- `drop` of a `LaunchedProcess`.
  unfoldable pub drop_process : LaunchedProcess → List HandleEvent
  drop_process proc =
      if not (is_invalid proc.thread_handle) && not (proc.thread_handle == 0)
      then closed proc.thread_handle ∷ []
      else []

  -- What `do_launch` hands to `CreateProcessW`.
  abbrev pub create_args :
      String → Option String → Option (List (String × String)) → ChildPipeHandles → CreateArgs
  create_args command_line working_directory environment pipes = record {
    command = wide_with_nul wide command_line;
    environment = Option.map (build_env_block wide) environment;
    directory = Option.map (wide_with_nul wide) working_directory;
    std_input = pipes.stdin_read;
    std_output = pipes.stdout_write;
    std_error = pipes.stderr_write;
  }

  unfoldable pub do_launch :
      String
      → Option String
      → Option (List (String × String))
      → ChildPipeHandles
      → Result LaunchedProcess × List HandleEvent
  do_launch command_line working_directory environment pipes =
      elim (create_process (create_args command_line working_directory environment pipes)) [
        | refused code ↦ (launch_error (create_process_failed code), [])
        | granted info ↦ (
          ok (record {
            process_handle = info.process;
            thread_handle = info.thread;
            process_id = info.id;
            job_object = 0;
            stdout_read = 0;
            stderr_read = 0;
            stdin_write = 0;
          }),
          opened info.process ∷ opened info.thread ∷ [],
        )
      ]

  -- `if !h.is_invalid() { CloseHandle(h); h = default }`
  abbrev pub close_valid : ℕ → ℕ × List HandleEvent
  close_valid h = if not (is_invalid h) then (0, closed h ∷ []) else (h, [])

  -- The pipes once the ends of the child are closed and those of the server are taken out.
  abbrev pub emptied : ChildPipeHandles → ChildPipeHandles
  emptied pipes = record {
    stdin_read = (close_valid pipes.stdin_read).0;
    stdin_write = 0;
    stdout_read = 0;
    stdout_write = (close_valid pipes.stdout_write).0;
    stderr_read = 0;
    stderr_write = (close_valid pipes.stderr_write).0;
  }

  -- The arm `Ok(proc)`. If the assignment fails, `proc` and `pipes` are dropped.
  unfoldable pub adopt :
      LaunchedProcess → ChildPipeHandles → ℕ → Result LaunchedProcess × List HandleEvent
  unfolding drop_process
  adopt proc pipes job = elim (assign_process job proc.process_handle) [
    | refused code ↦ (err (Error.windows code), drop_process proc ++ (close_all api pipes).1)
    | granted _ ↦ (
      ok (record proc {
        job_object = job;
        stdout_read = pipes.stdout_read;
        stderr_read = pipes.stderr_read;
        stdin_write = pipes.stdin_write;
      }),
      (close_valid pipes.stdout_write).1
          ++ ((close_valid pipes.stderr_write).1
              ++ ((close_valid pipes.stdin_read).1 ++ (close_all api (emptied pipes)).1)),
    )
  ]

  -- After the pipes and the job object are there.
  unfoldable pub launch_in :
      String
      → Option String
      → Option (List (String × String))
      → ChildPipeHandles
      → ℕ
      → Result LaunchedProcess × List HandleEvent
  unfolding adopt do_launch
  launch_in command_line working_directory environment pipes job =
      let (result, log) = do_launch command_line working_directory environment pipes in
      elim result [
        | err e ↦ (err e, log ++ (closed job ∷ (close_all api pipes).1))
        | ok proc ↦ ((adopt proc pipes job).0, log ++ (adopt proc pipes job).1)
      ]

  -- After the pipes are there.
  unfoldable pub launch_with :
      String
      → Option String
      → Option (List (String × String))
      → ChildPipeHandles
      → Result LaunchedProcess × List HandleEvent
  unfolding launch_in
  launch_with command_line working_directory environment pipes =
      let (made, log) = create_job_object api in
      elim made [
        | err e ↦ (err e, log ++ (close_all api pipes).1)
        | ok job ↦
            let (result, rest) = launch_in command_line working_directory environment pipes job in
            (result, log ++ rest)
      ]

  unfoldable pub launch :
      String
      → Option String
      → Option (List (String × String))
      → Result LaunchedProcess × List HandleEvent
  unfolding launch_with
  launch command_line working_directory environment =
      let (made, log) = create_pipes api in
      elim made [
        | err e ↦ (err e, log)
        | ok pipes ↦
            let (result, rest) = launch_with command_line working_directory environment pipes in
            (result, log ++ rest)
      ]
