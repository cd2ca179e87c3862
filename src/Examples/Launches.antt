-- ===== src/Examples/Launches.antt =====
-- The theorems on the launch of a process, applied to a launch that Windows grants, and to one
-- whose last call it refuses.
use Prim.Native.String.{String, ◌++◌ as ◌<>◌}
use Prim.Native.Char.{code}
use text.Mathlib.TextLemmas.{nil-append, cons-append}
use windows_command_runner.Base.{
  ℕ, ◌≡◌, refl, ap, false, none, some, List, [], ◌∷◌, ◌++◌, ◌==◌, arith, map, All,
}
use windows_command_runner.Error.{Error, ok, err}
use windows_command_runner.Job.State.{completed}
use windows_command_runner.Job.Handle.{JobHandle, new_handle, drop_job}
use windows_command_runner.Launch.Pipes.{
  Answer, granted, refused, LaunchApi, ProcessInfo, CreateArgs, ChildPipeHandles, closed,
}
use windows_command_runner.Launch.EnvBlock.{WideApi, build_env_block}
use windows_command_runner.Launch.Process.{LaunchedProcess, launch, drop_process}
use windows_command_runner.Launch.Handles.{is_open, elem, handles, Apart}
use windows_command_runner.Launch.Failures.{HasPipes, HasJob}
use windows_command_runner.Launch.Leaks.{launch-ok, launch-drop_job, launch-no_assignment}
use windows_command_runner.Launch.Variables.{
  IsPlain, variable, env_strings, env_strings-build_env_block,
}

-- The code points of a text, which are its UTF-16 where they are below 2^16.
abbrev codes : String → List ℕ
codes String.[] = []
codes (String.◌∷◌ c s) = code c ∷ codes s

codes-append : (s t : String) → codes (s <> t) ≡ codes s ++ codes t
codes-append String.[] t = rw (nil-append t) refl
codes-append (String.◌∷◌ c s) t = rw (cons-append c s t) (ap (◌∷◌ (code c)) (codes-append s t))

abbrev plain_text : WideApi
plain_text = record {
  encode_wide = codes;
  encode_wide-append = codes-append;
  encode_wide-equals = refl;
}

abbrev pipes : ChildPipeHandles
pipes = record {
  stdin_read = 10;
  stdin_write = 11;
  stdout_read = 12;
  stdout_write = 13;
  stderr_read = 14;
  stderr_write = 15;
}

abbrev info : ProcessInfo
info = record { process = 30; thread = 31; id = 4242 }

-- Windows with the given answers to its last two calls.
abbrev windows_with : (CreateArgs → Answer ProcessInfo) → (ℕ → ℕ → Answer (Unit {0})) → LaunchApi
windows_with create assign = record {
  is_invalid = λ h. h == 0xFFFF_FFFF_FFFF_FFFF;
  stdin_pipe = granted (10, 11);
  stdout_pipe = granted (12, 13);
  stderr_pipe = granted (14, 15);
  create_job = granted 20;
  set_information = λ _. granted tt;
  create_process = create;
  assign_process = assign;
}

abbrev willing : LaunchApi
willing = windows_with (λ _. granted info) (λ _ _. granted tt)

abbrev unassigned : LaunchApi
unassigned = windows_with (λ _. granted info) (λ _ _. refused 5)

has_pipes :
    (create : CreateArgs → Answer ProcessInfo) (assign : ℕ → ℕ → Answer (Unit {0}))
    → HasPipes (windows_with create assign) pipes
has_pipes create assign = record {
  stdin = refl;
  stdout = refl;
  stderr = refl;
  valid = (
    (refl, omega arith),
    (
      (refl, omega arith),
      (
        (refl, omega arith),
        ((refl, omega arith), ((refl, omega arith), ((refl, omega arith), tt))),
      ),
    ),
  );
}

has_job :
    (create : CreateArgs → Answer ProcessInfo) (assign : ℕ → ℕ → Answer (Unit {0}))
    → HasJob (windows_with create assign) 20
has_job create assign = record { made = refl; limited = refl }

all-Apart : Apart (handles pipes ++ 20 ∷ 30 ∷ 31 ∷ [])
all-Apart = ground arith

abbrev held : JobHandle
held = record {
  job_id = 1;
  state = completed;
  process_handle = new_handle 30;
  job_object = new_handle 20;
  is_cancelled = false;
  start_time = 0;
  timeout = none;
  completed_at = some 5;
  last_activity = 5;
}

-- The process that the launch returns.
abbrev running_process : LaunchedProcess
running_process = record {
  process_handle = 30;
  thread_handle = 31;
  process_id = 4242;
  job_object = 20;
  stdout_read = 12;
  stderr_read = 14;
  stdin_write = 11;
}

abbrev started : CreateArgs → Answer ProcessInfo
started _ = granted info

abbrev assigned : ℕ → ℕ → Answer (Unit {0})
assigned _ _ = granted tt

launch-ok_example :
    ((launch willing plain_text "dir" none none).0 ≡ ok running_process)
    × ((h : ℕ)
        → is_open h false (
            (launch willing plain_text "dir" none none).1
            ++ drop_process willing plain_text running_process)
          ≡ elem h (20 ∷ 30 ∷ 11 ∷ 12 ∷ 14 ∷ []))
launch-ok_example =
    launch-ok willing plain_text pipes (has_pipes started assigned) "dir" none none 20
      (has_job started assigned) info refl (refl, omega arith) all-Apart refl

-- The read end of the standard output is still open.
launch-drop_job_example :
    is_open 12 false (
      (launch willing plain_text "dir" none none).1
      ++ (drop_process willing plain_text running_process ++ map closed (drop_job held).1))
    ≡ elem 12 (11 ∷ 12 ∷ 14 ∷ [])
launch-drop_job_example =
    launch-drop_job willing plain_text pipes (has_pipes started assigned) "dir" none none 20
      (has_job started assigned) info refl (refl, omega arith) all-Apart held refl refl refl
      (omega arith) (omega arith) 12

launch-no_assignment_example :
    ((launch unassigned plain_text "dir" none none).0 ≡ err (Error.windows 5))
    × ((h : ℕ)
        → is_open h false (launch unassigned plain_text "dir" none none).1 ≡ elem h (20 ∷ 30 ∷ []))
launch-no_assignment_example =
    launch-no_assignment unassigned plain_text pipes (has_pipes started (λ _ _. refused 5)) "dir"
      none none 20 (has_job started (λ _ _. refused 5)) info refl (refl, omega arith) all-Apart 5
      refl

abbrev variables : List (String × String)
variables = ("A", "1") ∷ ("PATH", "x=y") ∷ []

variables-IsPlain : All (λ (kv : String × String). IsPlain (variable plain_text kv)) variables
variables-IsPlain = ground arith

env_strings-build_env_block_example :
    env_strings [] (build_env_block plain_text variables)
    ≡ some (map (variable plain_text) variables)
env_strings-build_env_block_example =
    env_strings-build_env_block plain_text ("A", "1") (("PATH", "x=y") ∷ []) variables-IsPlain
