-- ===== src/Logger.antt =====
-- src/logger.rs: the audit log. An entry goes to the macro of tracing for its level. The fields of
-- an entry come in the order in which the map gives them. `to_string` of the numbers is a
-- parameter.
use Prim.Native.String.{String, ◌++◌ as ◌<>◌}
use text.Mathlib.TextLemmas.{append_assoc}
use windows_command_runner.Base.{ℕ, ◌≡◌, refl, ap, Option, none, some, List, [], ◌∷◌, ◌++◌}
use windows_command_runner.Error.{Result, ok}

pub data LogLevel : Type 0 where
  error warn info debug trace : LogLevel

-- `Display` of `LogLevel`.
unfoldable pub level_text : LogLevel → String
level_text error = "ERROR"
level_text warn = "WARN"
level_text info = "INFO"
level_text debug = "DEBUG"
level_text trace = "TRACE"

abbrev pub Field : Type 0
Field = String × String

-- The loop over the fields: ` key=value` for each.
unfoldable pub fields_text : List Field → String
fields_text [] = ""
fields_text ((key, value) ∷ fields) = " " <> (key <> ("=" <> (value <> fields_text fields)))

abbrev pub optional_fields : Option (List Field) → String
optional_fields none = ""
optional_fields (some fields) = fields_text fields

-- What is logged, with its level, and the result.
unfoldable pub log_event :
    LogLevel → String → Option (List Field) → (LogLevel × String) × Result (Unit {0})
log_event level message fields =
    ((level, ("[" <> (level_text level <> ("] " <> message))) <> optional_fields fields), ok tt)

-- The text of one field.
abbrev pub field_text : String → String → String
field_text key value = " " <> (key <> ("=" <> value))

field_text-append :
    (key value rest : String) → field_text key value <> rest ≡ field_text key (value <> rest)
field_text-append key value rest =
    rw
      (
        append_assoc " " (key <> ("=" <> value)) rest,
        append_assoc key ("=" <> value) rest,
        append_assoc "=" value rest,
      )
      refl

fields_text-shifted :
    (front back : List Field) (key next user command more : String)
    → fields_text (front ++ (key, user <> field_text next command) ∷ (next, more) ∷ back)
      ≡ fields_text (front ++ (key, user) ∷ (next, command <> field_text next more) ∷ back)
unfolding fields_text
fields_text-shifted ((k, v) ∷ front) back key next user command more =
    ap (λ (rest : String). field_text k (v <> rest))
      (fields_text-shifted front back key next user command more)
fields_text-shifted [] back key next user command more =
    rw
      (
        append_assoc user (field_text next command) (field_text next (more <> fields_text back)),
        field_text-append next command (field_text next (more <> fields_text back)),
        append_assoc command (field_text next more) (fields_text back),
        field_text-append next more (fields_text back),
      )
      refl

-- An entry does not tell where the value of a field ends: whatever the other fields and their
-- order, a value that goes on with the text of the next field, as of another user name or command,
-- gives the same entry as the value without it followed by a longer next field.
pub log_event-forged :
    (level : LogLevel) (message : String) (front back : List Field)
    (key next user command more : String)
    → log_event level message
        (some (front ++ (key, user <> field_text next command) ∷ (next, more) ∷ back))
      ≡ log_event level message
          (some (front ++ (key, user) ∷ (next, command <> field_text next more) ∷ back))
unfolding log_event
log_event-forged level message front back key next user command more =
    ap
      (λ (text : String).
        ((level, ("[" <> (level_text level <> ("] " <> message))) <> text), ok tt))
      (fields_text-shifted front back key next user command more)

-- The fields that are there only if a value is.
abbrev pub optional_field : String → Option String → List Field
optional_field key none = []
optional_field key (some value) = (key, value) ∷ []

-- `to_string` of an unsigned number and of an `i32`, and the order in which a map gives its fields.
pub record LogApi : Type 0 where
  pub decimal : ℕ → String
  pub signed_decimal : ℕ → String
  pub iteration : List Field → List Field

module _ (api : LogApi) where
  open api use {decimal, signed_decimal, iteration}

  unfoldable pub audit_command_started :
      ℕ → String → String → Option String → (LogLevel × String) × Result (Unit {0})
  audit_command_started job_id client_user command_line working_dir =
      log_event info "COMMAND_STARTED" (
        some (
          iteration (
            ("job_id", decimal job_id)
            ∷ ("client_user", client_user)
            ∷ ("command_line", command_line)
            ∷ optional_field "working_directory" working_dir)))

  unfoldable pub audit_command_completed : ℕ → ℕ → ℕ → (LogLevel × String) × Result (Unit {0})
  audit_command_completed job_id exit_code duration_ms = log_event info "COMMAND_COMPLETED" (
      some (
        iteration (
          ("job_id", decimal job_id)
          ∷ ("exit_code", signed_decimal exit_code)
          ∷ ("duration_ms", decimal duration_ms)
          ∷ [])))

  unfoldable pub audit_command_failed : ℕ → ℕ → String → (LogLevel × String) × Result (Unit {0})
  audit_command_failed job_id error_code error_message = log_event error "COMMAND_FAILED" (
      some (
        iteration (
          ("job_id", decimal job_id)
          ∷ ("error_code", decimal error_code)
          ∷ ("error_message", error_message)
          ∷ [])))

  unfoldable pub audit_command_canceled : ℕ → String → (LogLevel × String) × Result (Unit {0})
  audit_command_canceled job_id reason =
      log_event warn "COMMAND_CANCELED"
        (some (iteration (("job_id", decimal job_id) ∷ ("reason", reason) ∷ [])))

  unfoldable pub audit_access_denied : String → String → (LogLevel × String) × Result (Unit {0})
  audit_access_denied client_user attempted_command = log_event warn "ACCESS_DENIED" (
      some
        (iteration (("client_user", client_user) ∷ ("attempted_command", attempted_command) ∷ [])))
