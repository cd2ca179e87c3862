-- ===== src/Examples/Wire.antt =====
-- The theorems on the wire format and on pipes, applied to a frame and to a pipe that moves one
-- byte at a time.
use windows_command_runner.Base.{ℕ, ◌≡◌, ◌≢◌, refl, none, List, [], ◌∷◌, ◌++◌, arith}
use windows_command_runner.Error.{ok, ◌>>=◌, version_mismatch}
use windows_command_runner.Protocol.Bytes.{little, swap_bytes_u32}
use windows_command_runner.Protocol.Frame.{
  Frame, FrameType, StreamId, IsFrame, encode, decode, output,
}
use windows_command_runner.Protocol.RoundTrip.{received, encode-decode, round_trip_fails}
use windows_command_runner.Pipe.Transport.{framed}
use windows_command_runner.Server.Client.{HelloApi, good_hello, negotiate}
use windows_command_runner.Server.Negotiation.{Refuses, negotiate-Refuses}
use windows_command_runner.Examples.Models.{
  list_bytes, byte_pipe, byte_pipe_laws, byte_pipe_progress,
}

abbrev pub sample : Frame
sample = record {
  frame_type = output;
  stream_id = StreamId.stdout;
  flags = 1;
  job_id = 7;
  sequence_number = 3;
  payload = 65 ∷ 66 ∷ [];
}

sample-IsFrame : IsFrame sample
sample-IsFrame = record {
  flags_range = omega arith;
  job_id_range = omega arith;
  sequence_range = omega arith;
  payload_bytes = (omega arith, (omega arith, tt));
}

swap-seven : swap_bytes_u32 7 ≢ 7
unfolding swap_bytes_u32
swap-seven = omega arith

encode-decode_example : (encode list_bytes little sample >>= decode) ≡ ok (received little sample)
encode-decode_example = encode-decode list_bytes little sample sample-IsFrame (omega arith)

round_trip_fails_example : (encode list_bytes little sample >>= decode) ≢ ok sample
round_trip_fails_example =
    round_trip_fails list_bytes sample sample-IsFrame (omega arith) swap-seven

-- The HELLO texts of a client that speaks the given version.
abbrev pub hello_texts : ℕ → HelloApi
hello_texts version = record {
  parse_hello = λ _. good_hello (record { version = version; client_id = none });
  hello_bytes = λ _. 49 ∷ [];
  message_bytes = λ _. 50 ∷ [];
}

abbrev pub greeting : Frame
greeting = record sample { frame_type = FrameType.hello; job_id = 0 }

greeting-IsFrame : IsFrame greeting
greeting-IsFrame = record {
  flags_range = omega arith;
  job_id_range = omega arith;
  sequence_range = omega arith;
  payload_bytes = (omega arith, (omega arith, tt));
}

negotiate-Refuses_example :
    (q : List ℕ × List ℕ) × (q.0 ≡ 9 ∷ [])
    × (q.1 ≡ [])
    × Refuses byte_pipe byte_pipe_laws list_bytes little (hello_texts 2) q (version_mismatch 2 1) (
        negotiate byte_pipe list_bytes little
          (hello_texts 2)
          (framed little greeting ++ 9 ∷ [], []))
negotiate-Refuses_example =
    negotiate-Refuses byte_pipe byte_pipe_laws list_bytes little (hello_texts 2) byte_pipe_progress
      (framed little greeting ++ 9 ∷ [], []) greeting (record { version = 2; client_id = none })
      (9 ∷ []) greeting-IsFrame (omega arith) refl refl (omega arith) (omega arith, tt) refl
