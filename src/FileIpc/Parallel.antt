-- ===== src/FileIpc/Parallel.antt =====
-- What every schedule of the tasks of src/file_ipc.rs keeps, when their requests have nothing to
-- do with one another.
use Prim.Native.String.{String}
use windows_command_runner.Base.{
  ℕ, zero, suc, ◌≡◌, ◌⊎◌, refl, ◌∙◌, inl, inr, some, List, [], ◌∷◌, All, arith, map,
}
use windows_command_runner.Error.{IoError, Error, Result, ok, err, io}
use windows_command_runner.FileIpc.Files.{FileApi, FileLaws, failed}
use windows_command_runner.FileIpc.Request.{
  json, RequestApi, response_path, answer, write_response, write_error_response,
}
use windows_command_runner.FileIpc.Reply.{reply, without-elsewhere}
use windows_command_runner.FileIpc.Write.{
  IoResult-cases, WriteFails, write_response-ok, write_response-err, write_response-elsewhere,
}
use windows_command_runner.FileIpc.Tasks.{
  Stage, spawned, holding, deleted, finished, Task, advance, step_at, run_tasks,
}

abbrev pub paths : List Task → List String
paths = map (λ t. t.path)

module _ (files : FileApi) (laws : FileLaws files) (api : RequestApi)
    (expected : String → String) where
  open files use {Disk, read_to_string}
  open laws use {IsOther, contents, read_contents}
  open api use {to_string_pretty}

  -- The response file for the request at a path, whose content is the expected one.
  abbrev pub target : String → String
  target path = response_path files api (reply files laws api path (expected path)).id

  -- An error with which a task ends: that of a read of its request file, or of the write of its
  -- response.
  abbrev pub Fails : String → Error → Type 0
  Fails path x =
      ((e : IoError) × (d : Disk) × (read_to_string d path ≡ failed e) × (x ≡ io e))
      ⊎ WriteFails files laws api (target path) (reply files laws api path (expected path)) x

  -- What holds of a task: its file is there until it is read, what it holds is the content of the
  -- file, and once it has ended its reply is in the response file, or one of its own operations
  -- failed.
  abbrev pub Holds : Disk → String → Stage → Type 0
  Holds d path spawned = contents d path ≡ some (expected path)
  Holds d path (holding content) = content ≡ expected path
  Holds d path (deleted content) = content ≡ expected path
  Holds d path (finished (err x)) = Fails path x
  Holds d path (finished (ok _)) =
      (text : String) × (to_string_pretty (reply files laws api path (expected path)) ≡ json text)
      × (contents d (target path) ≡ some text)

  abbrev pub AllHold : Disk → List Task → Type 0
  AllHold d ts = All (λ (t : Task). Holds d t.path t.stage) ts

  -- Neither request of two is the other's request or response file, and their response files
  -- differ.
  abbrev pub Apart : String → String → Type 0
  Apart p q =
      IsOther p q × IsOther (target p) q × IsOther p (target q) × IsOther (target p) (target q)

  abbrev pub AllApart : List String → Type 0
  AllApart [] = Unit {0}
  AllApart (p ∷ ps) = All (λ q. Apart p q × Apart q p) ps × AllApart ps

  answer-reply :
      (d : Disk) (path content : String)
      → answer files api d path content
        ≡ write_response files api d (reply files laws api path content)
  unfolding answer write_error_response
  answer-reply d path content = ground arith

  finished-Holds :
      (d : Disk) (path : String) (r : Result (Unit {0}))
      → (r ≡ ok tt
          → (text : String) × (to_string_pretty (reply files laws api path (expected path))
              ≡ json text)
            × (contents d (target path) ≡ some text))
      → ((x : Error) → r ≡ err x → Fails path x)
      → Holds d path (finished r)
  finished-Holds d path (ok _) h k = h refl
  finished-Holds d path (err x) h k = k x refl

  advance-Holds :
      (d : Disk) (path : String) (s : Stage)
      → Holds d path s
      → Holds (advance files api d path s).0 path (advance files api d path s).1
  unfolding advance
  advance-Holds d path spawned h = elim (IoResult-cases (read_to_string d path)) [
    | inr (e, q) ↦ rw (q, advance) (inl (e, d, q, refl))
    | inl (content, q) ↦ rw (q, advance) (cc (read_contents d path content q, h))
  ]
  advance-Holds d path (holding content) h = h
  advance-Holds d path (deleted content) h =
      rw (h, answer-reply d path (expected path))
        (finished-Holds _ path _
          (write_response-ok files laws api d (reply files laws api path (expected path)))
          (λ x e.
            inr (
              write_response-err files laws api d (reply files laws api path (expected path)) x e)))
  advance-Holds d path (finished (ok _)) h = h
  advance-Holds d path (finished (err x)) h = h

  advance-elsewhere :
      (d : Disk) (path q : String) (s : Stage)
      → Holds d path s
      → IsOther q path
      → IsOther q (target path)
      → contents (advance files api d path s).0 q ≡ contents d q
  unfolding advance
  advance-elsewhere d path q spawned h n m = elim (IoResult-cases (read_to_string d path)) [
    | inr (e, f) ↦ rw (f, advance) refl
    | inl (content, f) ↦ rw (f, advance) refl
  ]
  advance-elsewhere d path q (holding content) h n m = without-elsewhere files laws api d path q n
  advance-elsewhere d path q (deleted content) h n m =
      rw (h, answer-reply d path (expected path))
        (write_response-elsewhere files laws api d (reply files laws api path (expected path)) q m)
  advance-elsewhere d path q (finished r) h n m = refl

  -- A change of other files keeps what holds of a task.
  Holds-kept :
      (d d' : Disk) (path : String) (s : Stage)
      → contents d' path ≡ contents d path
      → contents d' (target path) ≡ contents d (target path)
      → Holds d path s
      → Holds d' path s
  Holds-kept d d' path spawned own other h = own ∙ h
  Holds-kept d d' path (holding content) own other h = h
  Holds-kept d d' path (deleted content) own other h = h
  Holds-kept d d' path (finished (err x)) own other h = h
  Holds-kept d d' path (finished (ok _)) own other (text, e, h) = (text, e, other ∙ h)

  AllHold-kept :
      (d : Disk) (path : String) (s : Stage) (ts : List Task)
      → Holds d path s
      → All (λ q. Apart path q × Apart q path) (paths ts)
      → AllHold d ts
      → AllHold (advance files api d path s).0 ts
  AllHold-kept d path s [] h a v = tt
  AllHold-kept d path s (t ∷ ts) h ((_, (n, n', m, m')), a) (v, vs) = (
    Holds-kept d _ t.path t.stage (advance-elsewhere d path t.path s h n m)
        (advance-elsewhere d path (target t.path) s h n' m') v,
    AllHold-kept d path s ts h a vs,
  )

  step_at-elsewhere :
      (i : ℕ) (d : Disk) (path : String) (ts : List Task)
      → All (λ q. Apart path q × Apart q path) (paths ts)
      → AllHold d ts
      → (contents (step_at files api i d ts).0 path ≡ contents d path)
        × (contents (step_at files api i d ts).0 (target path) ≡ contents d (target path))
  unfolding step_at
  step_at-elsewhere i d path [] a v = (refl, refl)
  step_at-elsewhere zero d path (t ∷ ts) (((n, n', m, m'), _), a) (v, vs) = (
    advance-elsewhere d t.path path t.stage v n m,
    advance-elsewhere d t.path (target path) t.stage v n' m',
  )
  step_at-elsewhere (suc i) d path (t ∷ ts) (_, a) (_, vs) = step_at-elsewhere i d path ts a vs

  step_at-paths :
      (i : ℕ) (d : Disk) (ts : List Task) → paths (step_at files api i d ts).1 ≡ paths ts
  unfolding step_at
  step_at-paths i d [] = refl
  step_at-paths zero d (t ∷ ts) = refl
  step_at-paths (suc i) d (t ∷ ts) = rw (step_at-paths i d ts) refl

  step_at-AllHold :
      (i : ℕ) (d : Disk) (ts : List Task)
      → AllApart (paths ts)
      → AllHold d ts
      → AllHold (step_at files api i d ts).0 (step_at files api i d ts).1
  unfolding step_at
  step_at-AllHold i d [] a v = tt
  step_at-AllHold zero d (t ∷ ts) (first, a) (v, vs) =
      (advance-Holds d t.path t.stage v, AllHold-kept d t.path t.stage ts v first vs)
  step_at-AllHold (suc i) d (t ∷ ts) (first, a) (v, vs) =
      let (own, other) = step_at-elsewhere i d t.path ts first vs in
      (Holds-kept d _ t.path t.stage own other v, step_at-AllHold i d ts a vs)

  pub run_tasks-AllHold :
      (is : List ℕ) (d : Disk) (ts : List Task)
      → AllApart (paths ts)
      → AllHold d ts
      → AllHold (run_tasks files api d ts is).0 (run_tasks files api d ts is).1
  unfolding run_tasks
  run_tasks-AllHold [] d ts a v = v
  run_tasks-AllHold (i ∷ is) d ts a v =
      run_tasks-AllHold is _ _ (rw (step_at-paths i d ts) a) (step_at-AllHold i d ts a v)
