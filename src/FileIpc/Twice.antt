-- ===== src/FileIpc/Twice.antt =====
-- Several tasks of src/file_ipc.rs for one request file: each that has read it runs its command.
use Prim.Native.String.{String}
use windows_command_runner.Base.{
  ℕ, zero, suc, ◌+◌, ◌≤◌, ◌≡◌, refl, ap, ◌∙◌, List, [], ◌∷◌, ◌++◌, All, arith,
}
use windows_command_runner.FileIpc.Files.{FileApi, done}
use windows_command_runner.FileIpc.Request.{
  Request, CommandSpec, good_request, RequestApi, command_spec,
}
use windows_command_runner.FileIpc.Tasks.{
  Stage, spawned, holding, deleted, finished, Task, advance, executes, step_at, run_tasks,
}
use windows_command_runner.FileIpc.SideBySide.{spawn, left, left_at, count, run_tasks-left_at}

-- The runs of the command that a task still makes.
abbrev pending : Stage → ℕ
pending spawned = 0
pending (holding content) = 1
pending (deleted content) = 1
pending (finished r) = 0

abbrev total : List Task → ℕ
total [] = 0
total (t ∷ ts) = pending t.stage + total ts

-- The task has read the content, or has ended.
abbrev IsReady : String → Stage → Type 0
IsReady content spawned = ⊥
IsReady content (holding c) = c ≡ content
IsReady content (deleted c) = c ≡ content
IsReady content (finished r) = Unit {0}

abbrev AllReady : String → List Task → Type 0
AllReady content ts = All (λ (t : Task). IsReady content t.stage) ts

abbrev copies : ℕ → CommandSpec → List CommandSpec
copies zero c = []
copies (suc n) c = c ∷ copies n c

copies-add : (m n : ℕ) (c : CommandSpec) → copies m c ++ copies n c ≡ copies (m + n) c
copies-add zero n c = let e : n ≡ 0 + n = omega arith in ap (λ k. copies k c) e
copies-add (suc m) n c =
    let e : suc (m + n) ≡ suc m + n = omega arith in
    ap (◌∷◌ c) (copies-add m n c) ∙ ap (λ k. copies k c) e

total_of_ended : (ts : List Task) → ((j : ℕ) → left_at j ts ≡ 0) → total ts ≡ 0
total_of_ended [] h = refl
total_of_ended (t ∷ ts) h =
    omega (arith, none_pending t.stage (h 0), total_of_ended ts (λ j. h (suc j)))
  where
    none_pending : (s : Stage) → left s ≡ 0 → pending s ≡ 0
    none_pending spawned e = refl
    none_pending (holding content) e = absurd (omega arith)
    none_pending (deleted content) e = absurd (omega arith)
    none_pending (finished r) e = refl

module _ (files : FileApi) (api : RequestApi) (content : String) (request : Request)
    (parsed : api.parse_request content ≡ good_request request) where
  open files use {Disk, read_to_string}

  abbrev spec : CommandSpec
  spec = command_spec files api request

  -- A part of a run: what it executes is so many runs fewer to make.
  abbrev Runs : List Task → List Task × List CommandSpec → Type 0
  Runs ts (ts', commands) =
      (n : ℕ) × (commands ≡ copies n spec) × (total ts ≡ n + total ts') × AllReady content ts'

  advance-IsReady :
      (d : Disk) (path : String) (s : Stage)
      → IsReady content s
      → (n : ℕ) × (executes files api s ≡ copies n spec)
        × (pending s ≡ n + pending (advance files api d path s).1)
        × IsReady content (advance files api d path s).1
  unfolding advance executes
  advance-IsReady d path spawned r = absurd r
  advance-IsReady d path (holding c) r = (0, refl, omega arith, r)
  advance-IsReady d path (deleted c) r = (1, rw r (rw (parsed, executes) refl), omega arith, tt)
  advance-IsReady d path (finished x) r = (0, refl, omega arith, tt)

  step_at-Runs :
      (i : ℕ) (d : Disk) (ts : List Task)
      → AllReady content ts
      → Runs ts ((step_at files api i d ts).1, (step_at files api i d ts).2)
  unfolding step_at
  step_at-Runs i d [] r = (0, refl, omega arith, tt)
  step_at-Runs zero d (t ∷ ts) (r, rs) =
      let (n, same, fewer, ready) = advance-IsReady d t.path t.stage r in
      (n, same, omega (arith, fewer), (ready, rs))
  step_at-Runs (suc i) d (t ∷ ts) (r, rs) =
      let (n, same, fewer, ready) = step_at-Runs i d ts rs in
      (n, same, omega (arith, fewer), (r, ready))

  run_tasks-Runs :
      (is : List ℕ) (d : Disk) (ts : List Task)
      → AllReady content ts
      → Runs ts ((run_tasks files api d ts is).1, (run_tasks files api d ts is).2)
  unfolding run_tasks
  run_tasks-Runs [] d ts r = (0, refl, omega arith, r)
  run_tasks-Runs (i ∷ is) d ts r =
      let stepped = step_at files api i d ts in
      let (m, first, fewer, ready) = step_at-Runs i d ts r in
      let (n, rest, fewer', ready') = run_tasks-Runs is stepped.0 stepped.1 ready in
      (m + n, rw (first, rest) (copies-add m n spec), omega (arith, fewer, fewer'), ready')

  abbrev both : String → List Task
  both path =
      record { path = path; stage = holding content }
      ∷ record { path = path; stage = holding content }
      ∷ []

  both_read :
      (d : Disk) (path : String) (is : List ℕ)
      → read_to_string d path ≡ done content
      → (run_tasks files api d (spawn path ∷ spawn path ∷ []) (0 ∷ 1 ∷ is)).2
        ≡ (run_tasks files api d (both path) is).2
  unfolding run_tasks
  both_read d path is e = ground arith

  both_end :
      (d : Disk) (path : String) (is : List ℕ) (j : ℕ)
      → 2 ≤ count 0 is
      → 2 ≤ count 1 is
      → left_at j (run_tasks files api d (both path) is).1 ≡ 0
  both_end d path is zero first second =
      omega (arith, run_tasks-left_at files api is 0 d (both path))
  both_end d path is (suc zero) first second =
      omega (arith, run_tasks-left_at files api is 1 d (both path))
  both_end d path is (suc (suc j)) first second =
      omega (arith, run_tasks-left_at files api is (suc (suc j)) d (both path))

  -- Two tasks for one request file that have both read it run its command twice, once each has
  -- taken two more steps, whatever the order of these steps and whether or not the file can be
  -- deleted.
  pub run_tasks_twice :
      (d : Disk) (path : String) (is : List ℕ)
      → read_to_string d path ≡ done content
      → 2 ≤ count 0 is
      → 2 ≤ count 1 is
      → (run_tasks files api d (spawn path ∷ spawn path ∷ []) (0 ∷ 1 ∷ is)).2
        ≡ command_spec files api request ∷ command_spec files api request ∷ []
  run_tasks_twice d path is e first second =
      let (n, same, fewer, _) = run_tasks-Runs is d (both path) (refl, (refl, tt)) in
      let over =
        total_of_ended (run_tasks files api d (both path) is).1
          (λ j. both_end d path is j first second) in
      let runs : n ≡ 2 = omega (arith, fewer, over) in
      both_read d path is e ∙ same ∙ ap (λ k. copies k spec) runs
