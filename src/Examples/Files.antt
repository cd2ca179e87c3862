-- ===== src/Examples/Files.antt =====
-- The theorems on the file transport, applied to a disk with one request, and to short runs of the
-- server.
use Prim.Native.String.{String, ◌++◌ as ◌<>◌}
use text.Mathlib.Text.{◌==◌ as ◌=str=◌}
use text.Mathlib.TextEquality.{eq_iff}
use windows_command_runner.Base.{
  arith, ◌≤◌, ◌≡◌, ◌≢◌, refl, ◌∙◌, Bool, true, inl, inr, Bool-cases, Option, none, some, List, [],
  ◌∷◌, length, if◌then◌else◌,
}
use windows_command_runner.Error.{raw_os_error}
use windows_command_runner.FileIpc.Files.{FileApi, FileLaws, IoResult, done, failed}
use windows_command_runner.FileIpc.Request.{
  Request, RequestApi, command_spec, good_request, json, exited,
}
use windows_command_runner.FileIpc.Tasks.{run_tasks}
use windows_command_runner.FileIpc.SideBySide.{spawn}
use windows_command_runner.FileIpc.Twice.{run_tasks_twice}
use windows_command_runner.FileIpc.Server.{
  IpcEvent, poll, task_ended, entries, new_pool, ipc_loop, max_concurrent,
}
use windows_command_runner.FileIpc.Permits.{IsBalanced, ipc_loop_bounded}

-- The content of each path that has a file.
abbrev Contents : Type 0
Contents = String → Option String

abbrev put : Contents → String → Option String → Contents
put d p content q = if q =str= p then content else d q

-- The files, and for each path what was written and not flushed.
abbrev Disk : Type 0
Disk = Contents × Contents

abbrev read_result : Option String → IoResult String
read_result (some text) = done text
read_result none = failed (raw_os_error 2)

abbrev remove_result : Option String → Disk → String → IoResult Disk
remove_result (some text) d p = done (put d.0 p none, d.1)
remove_result none d p = failed (raw_os_error 2)

abbrev disk_api : FileApi
disk_api = record {
  Disk = Disk;
  exists = λ d p. true;
  create_dir_all = λ d p. done d;
  read_to_string = λ d p. read_result (d.0 p);
  remove_file = λ d p. remove_result (d.0 p) d p;
  create = λ d p. done (put d.0 p (some ""), d.1);
  write_all = λ d p text. ((d.0, put d.1 p (some text)), none);
  flush = λ d p. ((put d.0 p (d.1 p), d.1), none);
}

put-same : (d : Contents) (p : String) (content : Option String) → put d p content p ≡ content
put-same d p content = rw ((eq_iff p p).1 refl) refl

put-other :
    (d : Contents) (p q : String) (content : Option String) → q ≢ p → put d p content q ≡ d q
put-other d p q content n = elim (Bool-cases (q =str= p)) [
  | inl e ↦ absurd (n ((eq_iff q p).0 e))
  | inr e ↦ rw e refl
]

read_back :
    (content : Option String) (text : String)
    → read_result content ≡ done text
    → content ≡ some text
read_back (some t) text e = cc
read_back none text e = cc

put_removed :
    (content : Option String) (d d' : Disk) (p : String)
    → remove_result content d p ≡ done d'
    → d' ≡ (put d.0 p none, d.1)
put_removed (some t) d d' p e = cc
put_removed none d d' p e = cc

put_created :
    (d d' : Disk) (p : String)
    → done (put d.0 p (some ""), d.1) ≡ done d'
    → d' ≡ (put d.0 p (some ""), d.1)
put_created d d' p e = cc

-- Different texts are different files here.
abbrev disk_laws : FileLaws disk_api
disk_laws = record {
  IsOther = λ q p. q ≢ p;
  contents = λ d p. d.0 p;
  read_contents = λ d p text e. read_back (d.0 p) text e;
  removed = λ d d' p e.
      rw (put_removed (d.0 p) d d' p e) (put-same d.0 p none, λ q n. put-other d.0 p q none n);
  created = λ d d' p e.
      rw (put_created d d' p e) (put-same d.0 p (some ""), λ q n. put-other d.0 p q (some "") n);
  written = λ d p text e n m. put-same d.0 p _ ∙ put-same d.1 p (some text);
  written_elsewhere = λ d p text q n. refl;
  flushed_elsewhere = λ d p q n. put-other d.0 p q (d.1 p) n;
}

abbrev echo : Request
echo = record {
  id = "7";
  command = "echo hi";
  working_dir = none;
  environment = none;
  timeout_ms = 1000;
}

-- Every content is the request, and every command prints one text.
abbrev echo_api : RequestApi
echo_api = record {
  parse_request = λ _. good_request echo;
  to_string_pretty = λ response. json response.stdout;
  file_stem = λ _. some "7";
  join = λ directory name. directory <> ("\\" <> name);
  from_utf8_lossy = λ _. "hi";
  run = λ _. exited (some 0) (104 ∷ 105 ∷ []) [];
}

-- One request, and another file.
abbrev one_request : Disk
one_request = (put (put (λ _. none) "keep" (some "kept")) "7.json" (some "{}"), λ _. none)

-- Each content is the id of its request.
abbrev named_api : RequestApi
named_api = record echo_api { parse_request = λ text. good_request (record echo { id = text }) }

abbrev two_requests : Disk
two_requests = (put (put (λ _. none) "a.json" (some "a")) "b.json" (some "b"), λ _. none)

abbrev named : String → String
named path = if path =str= "a.json" then "a" else "b"

run_tasks_twice_example :
    (run_tasks disk_api echo_api one_request
      (spawn "7.json" ∷ spawn "7.json" ∷ [])
      (0 ∷ 1 ∷ 0 ∷ 0 ∷ 1 ∷ 1 ∷ [])).2
    ≡ command_spec disk_api echo_api echo ∷ command_spec disk_api echo_api echo ∷ []
run_tasks_twice_example =
    run_tasks_twice disk_api echo_api "{}" echo refl one_request "7.json" (0 ∷ 0 ∷ 1 ∷ 1 ∷ []) refl
      (omega arith) (omega arith)

abbrev all_json : String → Bool
all_json _ = true

-- Two polls, and the end of a task between them.
abbrev short_run : List IpcEvent
short_run =
    poll (entries ("a.json" ∷ "b.json" ∷ []))
    ∷ task_ended "a.json"
    ∷ poll (entries ("b.json" ∷ []))
    ∷ []

ipc_loop_bounded_example :
    IsBalanced (ipc_loop all_json new_pool short_run).0
    × (length (ipc_loop all_json new_pool short_run).0.tasks ≤ max_concurrent)
ipc_loop_bounded_example = ipc_loop_bounded all_json short_run
