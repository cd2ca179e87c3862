-- ===== src/Error.antt =====
-- src/error.rs: the error type of the crate and its `Result`. A text that the code formats is a
-- value of `Message`, one constructor for each format string, with the values that it prints. An
-- error of a foreign crate is known by its printed text, one of the operating system by its code.
use Prim.Native.String.{String}
use windows_command_runner.Base.{ℕ, ◌≡◌, refl, ◌⊎◌, inl, inr}
use windows_command_runner.Job.State.{JobState}

-- std::io::Error: a raw operating system code, or an error kind.
pub data IoError : Type 0 where
  raw_os_error : ℕ → IoError
  unexpected_eof invalid_data : IoError

pub data Message : Type 0 where
  unknown_frame_type invalid_stream_id : ℕ → Message
  payload_too_large frame_too_large : ℕ → ℕ → Message
  frame_too_short length_too_large : Message
  expected_hello : Message
  invalid_hello : String → Message
  version_mismatch : ℕ → ℕ → Message
  invalid_run_payload : String → Message
  send_ack_failed send_frame_failed spawn_blocking_failed : Message
  terminate_process_failed terminate_job_object_failed create_pipe_stdin_failed : ℕ → Message
  create_pipe_stdout_failed create_pipe_stderr_failed create_job_object_failed : ℕ → Message
  set_information_failed create_process_failed : ℕ → Message
  not_exited wait_cancelled : Message
  wait_failed : String → Message
  json_serialize register_handler_failed set_status_failed runtime_failed start_dispatcher_failed :
      String → Message
  invalid_pipe_handle : Message
  max_jobs_reached : ℕ → Message
  cannot_transition : ℕ → JobState → JobState → Message

pub data Error : Type 0 where
  windows : ℕ → Error
  io : IoError → Error
  protocol : Message → Error
  job_not_found : ℕ → Error
  job_exists : ℕ → Error
  invalid_state_transition : Message → Error
  authorization_failed : Message → Error
  process_launch_failed : Message → Error
  serialization : String → Error
  service : Message → Error

pub data Result {ℓ} (A : Type ℓ) : Type ℓ where
  ok : A → Result A
  err : Error → Result A

pub Result-cases {ℓ} :
    {A : Type ℓ} (r : Result A) → ((a : A) × (r ≡ ok a)) ⊎ ((e : Error) × (r ≡ err e))
Result-cases (ok a) = inl (a, refl)
Result-cases (err e) = inr (e, refl)

-- The `?` operator: an error is returned at once.
infixl 5 ◌>>=◌
abbrev pub ◌>>=◌ {ℓ κ} : {T : Type ℓ} {U : Type κ} → Result T → (T → Result U) → Result U
err x >>= next = err x
ok value >>= next = next value

-- A chain of `?` succeeds only if its first step does.
pub >>=-eq-ok {ℓ κ} :
    {T : Type ℓ} {U : Type κ} {last : U} (r : Result T) (next : T → Result U)
    → (r >>= next) ≡ ok last
    → (value : T) × (r ≡ ok value) × (next value ≡ ok last)
>>=-eq-ok (err x) next h = cc
>>=-eq-ok (ok value) next h = (value, refl, h)

pub ok-injective {ℓ} : {A : Type ℓ} {x y : A} → ok x ≡ ok y → x ≡ y
ok-injective same = cc
