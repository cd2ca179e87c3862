-- ===== src/FileIpc/Server.antt =====
-- `FileIpcServer` of src/file_ipc.rs: `run` and `process_requests`. The semaphore is the number of
-- its free permits; a spawned task is the path of its request until it ends. Whether the extension
-- of a path is `json` (std) is a parameter.
use Prim.Native.String.{String}
use text.Mathlib.Text.{◌==◌ as ◌=str=◌}
use windows_command_runner.Base.{
  ℕ, ◌+◌, ◌-◌, Bool, true, false, List, [], ◌∷◌, ◌++◌, ◌==◌, if◌then◌else◌,
}
use windows_command_runner.Error.{Result, ok, err}
use windows_command_runner.FileIpc.Files.{FileApi}
use windows_command_runner.FileIpc.Request.{RequestApi, ensure_directories}

abbrev pub max_concurrent : ℕ
max_concurrent = 10

-- `default_timeout`, in milliseconds.
abbrev pub default_timeout : ℕ
default_timeout = 300_000

pub record Pool : Type 0 where
  pub available : ℕ
  pub tasks : List String

abbrev pub new_pool : Pool
new_pool = record { available = max_concurrent; tasks = [] }

-- What a poll finds: no directory, one that cannot be read, or the entries up to the first that
-- cannot be read.
pub data Listing : Type 0 where
  missing unreadable : Listing
  entries : List String → Listing

-- What the loop meets: the shutdown, the end of the poll interval, or, beside it, the end of a
-- task.
pub data IpcEvent : Type 0 where
  shutdown : IpcEvent
  poll : Listing → IpcEvent
  task_ended : String → IpcEvent

module _ (is_json : String → Bool) where
  -- The body of the loop over the entries.
  unfoldable pub take_request : Pool → String → Pool
  take_request s path =
      if is_json path
      then if s.available == 0
        then s
        else record { available = s.available - 1; tasks = s.tasks ++ path ∷ [] }
      else s

  unfoldable pub take_requests : Pool → List String → Pool
  unfolding take_request
  take_requests s [] = s
  take_requests s (path ∷ rest) = take_requests (take_request s path) rest

  unfoldable pub process_requests : Pool → Listing → Pool
  process_requests s missing = s
  process_requests s unreadable = s
  process_requests s (entries paths) = take_requests s paths

  -- One task for the path ends, and gives its permit back.
  unfoldable pub without_task : String → List String → List String
  without_task path [] = []
  without_task path (t ∷ ts) =
      let rest = without_task path ts in if t =str= path then ts else t ∷ rest

  unfoldable pub has_task : String → List String → Bool
  has_task path [] = false
  has_task path (t ∷ ts) = let rest = has_task path ts in if t =str= path then true else rest

  unfoldable pub end_task : Pool → String → Pool
  end_task s path =
      if has_task path s.tasks
      then record { available = s.available + 1; tasks = without_task path s.tasks }
      else s

  -- The loop of `run`, and whether it goes on.
  unfoldable pub ipc_loop : Pool → List IpcEvent → Pool × Bool
  unfolding process_requests
  ipc_loop s [] = (s, true)
  ipc_loop s (shutdown ∷ events) = (s, false)
  ipc_loop s (poll listing ∷ events) = ipc_loop (process_requests s listing) events
  ipc_loop s (task_ended path ∷ events) = ipc_loop (end_task s path) events

-- `run`: the directories are made first, and an error there ends it.
unfoldable pub run_server :
    (files : FileApi)
    → RequestApi
    → (String → Bool)
    → files.Disk
    → List IpcEvent
    → files.Disk × Result (Pool × Bool)
run_server files api is_json d events =
    let (d', r) = ensure_directories files api d in
    elim r [ err e ↦ (d', err e) | ok _ ↦ (d', ok (ipc_loop is_json new_pool events)) ]
