-- ===== src/Launch/Pipes.antt =====
-- `ChildPipeHandles`, `create_pipes`, `create_job_object` and `terminate_job_object` of
-- src/process_launcher.rs. A function returns, with its result, the log of what it did to handles.
-- What a call of Windows answers is a parameter.
use windows_command_runner.Base.{
  ℕ, Bool, not, ◌&&◌, Option, List, [], ◌∷◌, ◌++◌, ◌==◌, if◌then◌else◌,
}
use windows_command_runner.Error.{
  Result, ok, err, Message, process_launch_failed, create_pipe_stdin_failed,
  create_pipe_stdout_failed, create_pipe_stderr_failed, create_job_object_failed,
  set_information_failed, terminate_job_object_failed,
}

-- A call of Windows gives its result or fails with a code.
pub data Answer (A : Type 0) : Type 0 where
  granted : A → Answer A
  refused : ℕ → Answer A

-- What `CreateProcessW` is given.
pub record CreateArgs : Type 0 where
  pub command : List ℕ
  pub environment : Option (List ℕ)
  pub directory : Option (List ℕ)
  pub std_input : ℕ
  pub std_output : ℕ
  pub std_error : ℕ

pub record ProcessInfo : Type 0 where
  pub process : ℕ
  pub thread : ℕ
  pub id : ℕ

-- The calls of Windows that a launch makes, and `HANDLE::is_invalid` of the windows crate.
pub record LaunchApi : Type 0 where
  pub is_invalid : ℕ → Bool
  pub stdin_pipe : Answer (ℕ × ℕ)
  pub stdout_pipe : Answer (ℕ × ℕ)
  pub stderr_pipe : Answer (ℕ × ℕ)
  pub create_job : Answer ℕ
  pub set_information : ℕ → Answer (Unit {0})
  pub create_process : CreateArgs → Answer ProcessInfo
  pub assign_process : ℕ → ℕ → Answer (Unit {0})

-- What happens to a handle: a call of Windows opens it, or `CloseHandle` is called on it.
pub data HandleEvent : Type 0 where
  opened closed : ℕ → HandleEvent

pub record ChildPipeHandles : Type 0 where
  pub stdin_read : ℕ
  pub stdin_write : ℕ
  pub stdout_read : ℕ
  pub stdout_write : ℕ
  pub stderr_read : ℕ
  pub stderr_write : ℕ

-- `Err(Error::ProcessLaunchFailed(..))`
abbrev pub launch_error : {A : Type 0} → Message → Result A
launch_error message = err (process_launch_failed message)

module _ (api : LaunchApi) where
  open api use {is_invalid, stdin_pipe, stdout_pipe, stderr_pipe, create_job, set_information}

  -- The body of the loop of `close_all`.
  unfoldable pub close_open : ℕ → ℕ × List HandleEvent
  close_open h = if not (is_invalid h) && not (h == 0) then (0, closed h ∷ []) else (h, [])

  -- `close_all`, which is also `drop`.
  unfoldable pub close_all : ChildPipeHandles → ChildPipeHandles × List HandleEvent
  unfolding close_open
  close_all p = (
    record {
      stdin_read = (close_open p.stdin_read).0;
      stdin_write = (close_open p.stdin_write).0;
      stdout_read = (close_open p.stdout_read).0;
      stdout_write = (close_open p.stdout_write).0;
      stderr_read = (close_open p.stderr_read).0;
      stderr_write = (close_open p.stderr_write).0;
    },
    (close_open p.stdin_read).1
        ++ ((close_open p.stdin_write).1
            ++ ((close_open p.stdout_read).1
                ++ ((close_open p.stdout_write).1
                    ++ ((close_open p.stderr_read).1 ++ (close_open p.stderr_write).1)))),
  )

  -- A pipe that was created is not closed when a later call fails: the handles are plain values.
  unfoldable pub create_pipes : Result ChildPipeHandles × List HandleEvent
  create_pipes = elim stdin_pipe [
    | refused code ↦ (launch_error (create_pipe_stdin_failed code), [])
    | granted (in_read, in_write) ↦ elim stdout_pipe [
      | refused code ↦
          (launch_error (create_pipe_stdout_failed code), opened in_read ∷ opened in_write ∷ [])
      | granted (out_read, out_write) ↦ elim stderr_pipe [
        | refused code ↦ (
          launch_error (create_pipe_stderr_failed code),
          opened in_read ∷ opened in_write ∷ opened out_read ∷ opened out_write ∷ [],
        )
        | granted (err_read, err_write) ↦ (
          ok (record {
            stdin_read = in_read;
            stdin_write = in_write;
            stdout_read = out_read;
            stdout_write = out_write;
            stderr_read = err_read;
            stderr_write = err_write;
          }),
          opened in_read
              ∷ opened in_write
              ∷ opened out_read
              ∷ opened out_write
              ∷ opened err_read
              ∷ opened err_write
              ∷ [],
        )
      ]
    ]
  ]

  unfoldable pub create_job_object : Result ℕ × List HandleEvent
  create_job_object = elim create_job [
    | refused code ↦ (launch_error (create_job_object_failed code), [])
    | granted job ↦ elim (set_information job) [
      | refused code ↦ (launch_error (set_information_failed code), opened job ∷ [])
      | granted _ ↦ (ok job, opened job ∷ [])
    ]
  ]

-- `terminate_job_object`, by the answer of `TerminateJobObject`.
abbrev pub terminate_job_object : Answer (Unit {0}) → Result (Unit {0})
terminate_job_object (granted _) = ok tt
terminate_job_object (refused code) = launch_error (terminate_job_object_failed code)
