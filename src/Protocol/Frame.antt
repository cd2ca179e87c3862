-- ===== src/Protocol/Frame.antt =====
-- src/protocol.rs: the frame types, the streams, the frame, and its encoding as bytes. A `Bytes`
-- value is the list of its bytes. The machine's byte order and the bytes crate are parameters.
use Prim.Native.Nat.{bit_and, bit_or}
use windows_command_runner.Base.{
  ℕ, ◌+◌, Bool, not, List, [], ltb, ◌==◌, if◌then◌else◌, length, drop, get_or, All,
}
use windows_command_runner.Error.{
  Result, ok, err, ◌>>=◌, protocol, unknown_frame_type, invalid_stream_id, payload_too_large,
  frame_too_large, frame_too_short,
}
use windows_command_runner.Protocol.Bytes.{
  Endian, BytesApi, IsByte, IsU16, IsU32, to_be_u16, to_be_u32, from_be_bytes_u16,
  from_be_bytes_u32,
}

abbrev pub protocol_version : ℕ
protocol_version = 1

abbrev pub max_frame_size : ℕ
max_frame_size = 1_048_576

abbrev pub max_payload_size : ℕ
max_payload_size = 32_768

abbrev pub default_window_size : ℕ
default_window_size = 65_536

abbrev pub flag_eos : ℕ
flag_eos = 0x01

abbrev pub flag_urgent : ℕ
flag_urgent = 0x02

pub data FrameType : Type 0 where
  hello hello_ack run run_ack output status exit cancel cancel_ack window_update error : FrameType
  ping pong goodbye : FrameType

-- `frame_type as u8`
unfoldable pub frame_type_code : FrameType → ℕ
frame_type_code hello = 0x01
frame_type_code hello_ack = 0x02
frame_type_code run = 0x10
frame_type_code run_ack = 0x11
frame_type_code output = 0x20
frame_type_code status = 0x30
frame_type_code exit = 0x40
frame_type_code cancel = 0x50
frame_type_code cancel_ack = 0x51
frame_type_code window_update = 0x60
frame_type_code error = 0xF0
frame_type_code ping = 0xFE
frame_type_code pong = 0xFF
frame_type_code goodbye = 0xFD

unfoldable pub frame_type_try_from : ℕ → Result FrameType
frame_type_try_from value =
    if value == 0x01
    then ok hello
    else if value == 0x02
    then ok hello_ack
    else if value == 0x10
    then ok run
    else if value == 0x11
    then ok run_ack
    else if value == 0x20
    then ok output
    else if value == 0x30
    then ok status
    else if value == 0x40
    then ok exit
    else if value == 0x50
    then ok cancel
    else if value == 0x51
    then ok cancel_ack
    else if value == 0x60
    then ok window_update
    else if value == 0xF0
    then ok error
    else if value == 0xFD
    then ok goodbye
    else if value == 0xFE
    then ok ping
    else if value == 0xFF
    then ok pong
    else err (protocol (unknown_frame_type value))

pub data StreamId : Type 0 where
  control stdout stderr stdin : StreamId

-- `stream_id as u8`
unfoldable pub stream_id_code : StreamId → ℕ
stream_id_code control = 0
stream_id_code stdout = 1
stream_id_code stderr = 2
stream_id_code stdin = 3

unfoldable pub stream_id_try_from : ℕ → Result StreamId
stream_id_try_from value =
    if value == 0
    then ok control
    else if value == 1
    then ok stdout
    else if value == 2
    then ok stderr
    else if value == 3
    then ok stdin
    else err (protocol (invalid_stream_id value))

pub record Frame : Type 0 where
  pub frame_type : FrameType
  pub stream_id : StreamId
  pub flags : ℕ  -- u16
  pub job_id : ℕ  -- u32
  pub sequence_number : ℕ  -- u32
  pub payload : List ℕ

-- The ranges of the machine integers of a frame.
pub record IsFrame (f : Frame) : Type 0 where
  pub flags_range : IsU16 f.flags
  pub job_id_range : IsU32 f.job_id
  pub sequence_range : IsU32 f.sequence_number
  pub payload_bytes : All IsByte f.payload

unfoldable pub new_frame : FrameType → StreamId → Frame
new_frame frame_type stream_id = record {
  frame_type = frame_type;
  stream_id = stream_id;
  flags = 0;
  job_id = 0;
  sequence_number = 0;
  payload = [];
}

unfoldable pub with_job_id : Frame → ℕ → Frame
with_job_id f job_id = record f { job_id = job_id }

unfoldable pub with_sequence : Frame → ℕ → Frame
with_sequence f seq = record f { sequence_number = seq }

unfoldable pub with_payload : Frame → List ℕ → Frame
with_payload f payload = record f { payload = payload }

unfoldable pub with_flag : Frame → ℕ → Frame
with_flag f flag = record f { flags = bit_or f.flags flag }

unfoldable pub has_flag : Frame → ℕ → Bool
has_flag f flag = not (bit_and f.flags flag == 0)

-- The two checks of `encode`, then the buffer as the code fills it.
unfoldable pub encode : BytesApi → Endian → Frame → Result (List ℕ)
encode api e f =
    let payload_len = length f.payload in
    let frame_len = 1 + 1 + 2 + 4 + 4 + payload_len in
    if ltb max_payload_size payload_len
    then err (protocol (payload_too_large payload_len max_payload_size))
    else if ltb max_frame_size frame_len
    then err (protocol (frame_too_large frame_len max_frame_size))
    else let b0 = api.with_capacity frame_len in
      let b1 = api.put_u8 b0 (frame_type_code f.frame_type) in
      let b2 = api.put_u8 b1 (stream_id_code f.stream_id) in
      let b3 = api.put_u16 b2 (to_be_u16 e f.flags) in
      let b4 = api.put_u32 b3 (to_be_u32 e f.job_id) in
      let b5 = api.put_u32 b4 (to_be_u32 e f.sequence_number) in
      let b6 = api.put_slice b5 f.payload in ok (api.freeze b6)

-- `data[i]`; the length test above every use keeps the index in range.
abbrev byte_at : List ℕ → ℕ → ℕ
byte_at data' i = get_or data' i 0

unfoldable pub decode : List ℕ → Result Frame
decode bytes = if ltb (length bytes) 12 then err (protocol frame_too_short) else do
  frame_type ← frame_type_try_from (byte_at bytes 0)
  stream_id ← stream_id_try_from (byte_at bytes 1)
  let flags = from_be_bytes_u16 (byte_at bytes 2) (byte_at bytes 3)
  let job_id =
      from_be_bytes_u32 (byte_at bytes 4) (byte_at bytes 5) (byte_at bytes 6) (byte_at bytes 7)
  let sequence_number =
      from_be_bytes_u32 (byte_at bytes 8) (byte_at bytes 9) (byte_at bytes 10) (byte_at bytes 11)
  ok (record {
    frame_type = frame_type;
    stream_id = stream_id;
    flags = flags;
    job_id = job_id;
    sequence_number = sequence_number;
    payload = drop 12 bytes;
  })
