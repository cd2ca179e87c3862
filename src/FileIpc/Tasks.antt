-- ===== src/FileIpc/Tasks.antt =====
-- The tasks that `process_requests` of src/file_ipc.rs spawns, side by side on one file system:
-- each is `process_single_request`, cut where it awaits between the read, the deletion and the
-- answer.
use Prim.Native.String.{String}
use windows_command_runner.Base.{ℕ, zero, suc, List, [], ◌∷◌, ◌++◌}
use windows_command_runner.Error.{Result, err, io}
use windows_command_runner.FileIpc.Files.{FileApi, done, failed}
use windows_command_runner.FileIpc.Request.{
  CommandSpec, good_request, bad_request, RequestApi, command_spec, without, answer,
}

-- Before the read, after it with the content, after the deletion, and at the end.
pub data Stage : Type 0 where
  spawned : Stage
  holding deleted : String → Stage
  finished : Result (Unit {0}) → Stage

pub record Task : Type 0 where
  pub path : String
  pub stage : Stage

module _ (files : FileApi) (api : RequestApi) where
  open files use {Disk, read_to_string}
  open api use {parse_request}

  unfoldable pub advance : Disk → String → Stage → Disk × Stage
  advance d path spawned = elim (read_to_string d path) [
    | failed e ↦ (d, finished (err (io e)))
    | done content ↦ (d, holding content)
  ]
  advance d path (holding content) = (without files api d path, deleted content)
  advance d path (deleted content) =
      let (d', r) = answer files api d path content in (d', finished r)
  advance d path (finished r) = (d, finished r)

  -- The command that a step runs.
  unfoldable pub executes : Stage → List CommandSpec
  executes spawned = []
  executes (holding content) = []
  executes (deleted content) = elim (parse_request content) [
    | bad_request e ↦ []
    | good_request request ↦ command_spec files api request ∷ []
  ]
  executes (finished r) = []

  -- A step of the task at a position: the file system, the tasks, and the commands run.
  unfoldable pub step_at : ℕ → Disk → List Task → Disk × List Task × List CommandSpec
  unfolding advance executes
  step_at i d [] = (d, [], [])
  step_at zero d (t ∷ ts) =
      let (d', stage) = advance d t.path t.stage in
      (d', record t { stage = stage } ∷ ts, executes t.stage)
  step_at (suc i) d (t ∷ ts) = let (d', ts', commands) = step_at i d ts in (d', t ∷ ts', commands)

  -- A schedule: the positions of the tasks that take a step.
  unfoldable pub run_tasks : Disk → List Task → List ℕ → Disk × List Task × List CommandSpec
  unfolding step_at
  run_tasks d ts [] = (d, ts, [])
  run_tasks d ts (i ∷ is) =
      let (d1, ts1, commands) = step_at i d ts in
      let (d2, ts2, more) = run_tasks d1 ts1 is in (d2, ts2, commands ++ more)
