-- ===== src/FileIpc/SideBySide.antt =====
-- The requests of src/file_ipc.rs that are handled side by side: a task alone, two tasks for one
-- file, and tasks that have nothing to do with one another.
use Prim.Native.String.{String}
use windows_command_runner.Base.{
  ℕ, zero, suc, ◌≡◌, inl, inr, some, List, [], ◌∷◌, arith, ◌+◌, ◌-◌, ◌≤◌, ◌==◌, if◌then◌else◌,
}
use windows_command_runner.Error.{ok, err}
use windows_command_runner.FileIpc.Files.{FileApi, FileLaws}
use windows_command_runner.FileIpc.Request.{json, RequestApi}
use windows_command_runner.FileIpc.Reply.{reply}
use windows_command_runner.FileIpc.Write.{IoResult-cases}
use windows_command_runner.FileIpc.Parallel.{target, Fails}
use windows_command_runner.FileIpc.Tasks.{
  Stage, spawned, holding, deleted, finished, Task, advance, step_at, run_tasks,
}

abbrev pub spawn : String → Task
spawn path = record { path = path; stage = spawned }

-- The steps that a task still takes.
abbrev pub left : Stage → ℕ
left spawned = 3
left (holding content) = 2
left (deleted content) = 1
left (finished r) = 0

-- The same for the task at a position.
abbrev pub left_at : ℕ → List Task → ℕ
left_at j [] = 0
left_at zero (t ∷ ts) = left t.stage
left_at (suc j) (t ∷ ts) = left_at j ts

abbrev pub count : ℕ → List ℕ → ℕ
count j [] = 0
count j (i ∷ is) = (if j == i then 1 else 0) + count j is

module _ (files : FileApi) (api : RequestApi) where
  open files use {Disk, read_to_string}

  advance-left :
      (d : Disk) (path : String) (s : Stage) → left (advance files api d path s).1 ≤ left s - 1
  unfolding advance
  advance-left d path spawned = elim (IoResult-cases (read_to_string d path)) [
    | inl (content, e) ↦ rw (e, advance) (omega arith)
    | inr (e, q) ↦ rw (q, advance) (omega arith)
  ]
  advance-left d path (holding content) = omega arith
  advance-left d path (deleted content) = omega arith
  advance-left d path (finished r) = omega arith

  step_at-left_at :
      (i j : ℕ) (d : Disk) (ts : List Task)
      → left_at j (step_at files api i d ts).1 ≤ left_at j ts - (if j == i then 1 else 0)
  unfolding step_at
  step_at-left_at i j d [] = omega arith
  step_at-left_at zero zero d (t ∷ ts) = advance-left d t.path t.stage
  step_at-left_at zero (suc j) d (t ∷ ts) = ground arith
  step_at-left_at (suc i) zero d (t ∷ ts) = ground arith
  step_at-left_at (suc i) (suc j) d (t ∷ ts) = ground (arith, step_at-left_at i j d ts)

  pub run_tasks-left_at :
      (is : List ℕ) (j : ℕ) (d : Disk) (ts : List Task)
      → left_at j (run_tasks files api d ts is).1 ≤ left_at j ts - count j is
  unfolding run_tasks
  run_tasks-left_at [] j d ts = omega arith
  run_tasks-left_at (i ∷ is) j d ts =
      let (d1, ts1, _) = step_at files api i d ts in
      omega (arith, step_at-left_at i j d ts, run_tasks-left_at is j d1 ts1)

module _ (files : FileApi) (laws : FileLaws files) (api : RequestApi)
    (expected : String → String) where
  open files use {Disk}
  open laws use {contents}
  open api use {to_string_pretty}

  -- A task that has ended has left the JSON of its reply in the response file, or one of its own
  -- operations has failed, and it has that error.
  abbrev pub IsAnswered : Disk → String → Stage → Type 0
  IsAnswered d path (finished (ok _)) =
      (text : String) × (to_string_pretty (reply files laws api path (expected path)) ≡ json text)
      × (contents d (target files laws api expected path) ≡ some text)
  IsAnswered d path (finished (err x)) = Fails files laws api expected path x
  IsAnswered d path _ = Unit {0}
