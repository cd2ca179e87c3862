-- ===== src/Server/Client.antt =====
-- The version negotiation of `handle_client` and `send_error_frame` of src/pipe_server.rs, on the
-- pipe of Pipe.Io. The JSON of the HELLO payloads and the bytes of a message are parameters.
-- `none` is a write that runs out of fuel.
use Prim.Native.String.{String}
use windows_command_runner.Base.{
  ℕ, Bool, true, false, not, Option, none, some, List, ◌==◌, if◌then◌else◌,
}
use windows_command_runner.Error.{
  Result, ok, err, Message, protocol, expected_hello, invalid_hello, version_mismatch,
}
use windows_command_runner.Protocol.Bytes.{Endian, BytesApi}
use windows_command_runner.Protocol.Frame.{
  Frame, FrameType, control, new_frame, with_payload, protocol_version,
}
use windows_command_runner.Pipe.Io.{PipeApi, read_frame, write_frame}
use windows_command_runner.Server.Session.{error_frame}

pub record HelloPayload : Type 0 where
  pub version : ℕ  -- u8
  pub client_id : Option String

-- A HELLO payload as serde_json reads it, or the text of its error.
pub data ParsedHello : Type 0 where
  good_hello : HelloPayload → ParsedHello
  bad_hello : String → ParsedHello

-- What the negotiation uses of serde_json, and the UTF-8 of a formatted message.
pub record HelloApi : Type 0 where
  pub parse_hello : List ℕ → ParsedHello
  pub hello_bytes : HelloPayload → List ℕ
  pub message_bytes : Message → List ℕ

abbrev pub is_hello : FrameType → Bool
is_hello FrameType.hello = true
is_hello _ = false

abbrev pub ack_payload : HelloPayload → HelloPayload
ack_payload hello = record { version = protocol_version; client_id = hello.client_id }

unfoldable pub hello_ack : List ℕ → Frame
unfolding new_frame with_payload
hello_ack payload = with_payload (new_frame FrameType.hello_ack control) payload

-- What follows a write with `?`.
abbrev pub after_write :
    {P A : Type 0} → Result A → Option (P × Result (Unit {0})) → Option (P × Result A)
after_write r none = none
after_write r (some (p, err x)) = some (p, err x)
after_write r (some (p, ok _)) = some (p, r)

module _ (pipe : PipeApi) (bytes : BytesApi) (e : Endian) (api : HelloApi) where
  open pipe use {Pipe}
  open api use {parse_hello, hello_bytes, message_bytes}

  unfoldable pub send_error_frame : Pipe → ℕ → Message → Option (Pipe × Result (Unit {0}))
  send_error_frame p job_id message =
      write_frame pipe bytes e p (error_frame job_id (message_bytes message))

  unfoldable pub check_version : Pipe → HelloPayload → Option (Pipe × Result HelloPayload)
  unfolding send_error_frame
  check_version p hello =
      if not (hello.version == protocol_version)
      then after_write (err (protocol (version_mismatch hello.version protocol_version)))
          (send_error_frame p 0 (version_mismatch hello.version protocol_version))
      else after_write (ok hello)
          (write_frame pipe bytes e p (hello_ack (hello_bytes (ack_payload hello))))

  unfoldable pub check_hello : Pipe → Frame → Option (Pipe × Result HelloPayload)
  check_hello p hello_frame =
      if not (is_hello hello_frame.frame_type)
      then some (p, err (protocol expected_hello))
      else elim (parse_hello hello_frame.payload) [
        | bad_hello text ↦ some (p, err (protocol (invalid_hello text)))
        | good_hello hello ↦ check_version p hello
      ]

  -- What follows the read of the first frame.
  unfoldable pub after_hello : Pipe × Result Frame → Option (Pipe × Result HelloPayload)
  after_hello (p, err x) = some (p, err x)
  after_hello (p, ok frame) = check_hello p frame

  -- `handle_client` up to the request loop: the client's payload once it is acknowledged.
  unfoldable pub negotiate : Pipe → Option (Pipe × Result HelloPayload)
  unfolding after_hello
  negotiate p = after_hello (read_frame pipe p)
