-- ===== src/FileIpc/Request.antt =====
-- One request of src/file_ipc.rs: `ensure_directories`, `process_single_request`,
-- `execute_command`, `write_response` and `write_error_response`. The task is alone with its
-- files. serde_json, the paths of std and the run of a command are parameters. An exit code is the
-- bit pattern of an i32.
use Prim.Native.String.{String, ◌++◌ as ◌<>◌}
use windows_command_runner.Base.{ℕ, ◌*◌, Option, none, some, List, [], ◌∷◌, if◌then◌else◌}
use windows_command_runner.Windows.{minus_one}
use windows_command_runner.Error.{IoError, Result, ok, err, io, protocol, json_serialize}
use windows_command_runner.FileIpc.Files.{FileApi, done, failed}

abbrev pub base_dir : String
base_dir = "C:\\Windows\\Temp\\VirimaAgent"

abbrev pub request_dir : String
request_dir = "C:\\Windows\\Temp\\VirimaAgent\\requests"

abbrev pub response_dir : String
response_dir = "C:\\Windows\\Temp\\VirimaAgent\\responses"

pub record Request : Type 0 where
  pub id : String
  pub command : String
  pub working_dir : Option String
  pub environment : Option (List (String × String))
  pub timeout_ms : ℕ

-- The texts that the code formats for `error`.
pub data Report : Type 0 where
  spawn_failed process_error invalid_json : String → Report
  timed_out : ℕ → Report

pub record Response : Type 0 where
  pub id : String
  pub exit_code : ℕ
  pub stdout : String
  pub stderr : String
  pub error : Option Report

pub data ParsedRequest : Type 0 where
  good_request : Request → ParsedRequest
  bad_request : String → ParsedRequest

-- What is given to `tokio::process::Command` and to `timeout`.
pub record CommandSpec : Type 0 where
  pub program : String
  pub args : List String
  pub current_dir : Option String
  pub envs : List (String × String)
  pub timeout : ℕ  -- nanoseconds

-- How a spawned command ends: with its status code, if it has one, and its output; with an error
-- of the wait; or not before the timeout.
pub data Ending : Type 0 where
  not_spawned : String → Ending
  exited : Option ℕ → List ℕ → List ℕ → Ending
  wait_error : String → Ending
  elapsed : Ending

-- A value as JSON, or the text of the error.
pub data Json : Type 0 where
  json : String → Json
  no_json : String → Json

pub record RequestApi : Type 0 where
  pub parse_request : String → ParsedRequest
  pub to_string_pretty : Response → Json
  pub file_stem : String → Option String
  pub join : String → String → String
  pub from_utf8_lossy : List ℕ → String
  pub run : CommandSpec → Ending

module _ (files : FileApi) (api : RequestApi) where
  open files use {
    Disk, exists, create_dir_all, read_to_string, remove_file, create, write_all, flush,
  }
  open api use {parse_request, to_string_pretty, file_stem, join, from_utf8_lossy, run}

  abbrev ensure_directory : Disk → String → Disk × Result (Unit {0})
  ensure_directory d p =
      if exists d p
      then (d, ok tt)
      else elim (create_dir_all d p) [ done d' ↦ (d', ok tt) | failed e ↦ (d, err (io e)) ]

  -- The next directory, if the one before is there.
  abbrev and_directory : String → Disk × Result (Unit {0}) → Disk × Result (Unit {0})
  and_directory p (d, err e) = (d, err e)
  and_directory p (d, ok _) = ensure_directory d p

  unfoldable pub ensure_directories : Disk → Disk × Result (Unit {0})
  ensure_directories d =
      and_directory response_dir (and_directory request_dir (ensure_directory d base_dir))

  abbrev pub env_list : Option (List (String × String)) → List (String × String)
  env_list none = []
  env_list (some env) = env

  -- The command of a request, run by the shell.
  abbrev pub command_spec : Request → CommandSpec
  command_spec request = record {
    program = "cmd.exe";
    args = "/C" ∷ request.command ∷ [];
    current_dir = request.working_dir;
    envs = env_list request.environment;
    timeout = request.timeout_ms * 1_000_000;
  }

  abbrev pub code_or_minus_one : Option ℕ → ℕ
  code_or_minus_one none = minus_one
  code_or_minus_one (some code) = code

  abbrev pub failure : String → Report → Response
  failure id report = record {
    id = id;
    exit_code = minus_one;
    stdout = "";
    stderr = "";
    error = some report;
  }

  unfoldable pub execute_command : Request → Response
  execute_command request = elim (run (command_spec request)) [
    | not_spawned e ↦ failure request.id (spawn_failed e)
    | exited code out err_out ↦ record {
      id = request.id;
      exit_code = code_or_minus_one code;
      stdout = from_utf8_lossy out;
      stderr = from_utf8_lossy err_out;
      error = none;
    }
    | wait_error e ↦ failure request.id (process_error e)
    | elapsed ↦ failure request.id (timed_out (request.timeout_ms * 1_000_000))
  ]

  abbrev pub response_path : String → String
  response_path id = join response_dir (id <> ".json")

  -- `?` after an operation on the open file.
  abbrev pub checked : Disk × Option IoError → Disk × Result (Unit {0})
  checked (d, none) = (d, ok tt)
  checked (d, some e) = (d, err (io e))

  abbrev pub then_flush : String → Disk × Result (Unit {0}) → Disk × Result (Unit {0})
  then_flush p (d, err e) = (d, err e)
  then_flush p (d, ok _) = checked (flush d p)

  -- `write_response` once the JSON is there.
  unfoldable pub write_json : Disk → String → String → Disk × Result (Unit {0})
  write_json d p text = elim (create d p) [
    | failed e ↦ (d, err (io e))
    | done d' ↦ then_flush p (checked (write_all d' p text))
  ]

  unfoldable pub write_response : Disk → Response → Disk × Result (Unit {0})
  unfolding write_json
  write_response d response = elim (to_string_pretty response) [
    | no_json e ↦ (d, err (protocol (json_serialize e)))
    | json text ↦ write_json d (response_path response.id) text
  ]

  unfoldable pub write_error_response : Disk → String → String → Disk × Result (Unit {0})
  unfolding write_response
  write_error_response d request_id e = write_response d (failure request_id (invalid_json e))

  -- The id in the name of the request file.
  abbrev pub request_id : String → String
  request_id path = elim (file_stem path) [ some stem ↦ stem | none ↦ "unknown" ]

  -- A request file that cannot be deleted stays.
  abbrev pub without : Disk → String → Disk
  without d path = elim (remove_file d path) [ done d' ↦ d' | failed _ ↦ d ]

  unfoldable pub answer : Disk → String → String → Disk × Result (Unit {0})
  unfolding write_error_response execute_command
  answer d path content = elim (parse_request content) [
    | bad_request e ↦ write_error_response d (request_id path) e
    | good_request request ↦ write_response d (execute_command request)
  ]

  unfoldable pub process_single_request : Disk → String → Disk × Result (Unit {0})
  unfolding answer
  process_single_request d path = elim (read_to_string d path) [
    | failed e ↦ (d, err (io e))
    | done content ↦ answer (without d path) path content
  ]
