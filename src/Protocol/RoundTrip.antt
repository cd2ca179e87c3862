-- ===== src/Protocol/RoundTrip.antt =====
-- What `encode` puts on the wire, and what `decode` makes of it.
use windows_command_runner.Base.{
  ℕ, ◌+◌, ◌/◌, ◌%◌, ◌≤◌, ◌≡◌, ◌≢◌, sym, ap, ◌∙◌, List, ◌∷◌, ◌++◌, arith, length, if◌then◌else◌, leb,
}
use mathlib.Core.List.{append_assoc}
use windows_command_runner.Error.{ok, err, ◌>>=◌, ok-injective, protocol, payload_too_large}
use windows_command_runner.Protocol.Bytes.{
  Endian, little, BytesApi, IsU16, IsU32, to_be_u16, to_be_u32, from_be_bytes_u16,
  from_be_bytes_u32, to_be_bytes_u16, to_be_bytes_u32, to_be_u16-lt, to_be_u32-lt, swap_bytes_u32,
}
use windows_command_runner.Protocol.Frame.{
  Frame, IsFrame, encode, decode, max_payload_size, frame_type_code, stream_id_code,
}
use windows_command_runner.Protocol.Tags.{
  frame_type_code-lt, stream_id_code-lt, frame_type_try_from-code, stream_id_try_from-code,
}

-- The bytes that stand for a frame: type, stream, flags, job, sequence, payload, each integer in
-- big-endian order of its `to_be`.
unfoldable pub wire : Endian → Frame → List ℕ
wire e f =
    frame_type_code f.frame_type
    ∷ stream_id_code f.stream_id
    ∷ (to_be_bytes_u16 (to_be_u16 e f.flags)
        ++ (to_be_bytes_u32 (to_be_u32 e f.job_id)
            ++ (to_be_bytes_u32 (to_be_u32 e f.sequence_number) ++ f.payload)))

-- The frame that a reader of the wire gets.
unfoldable pub received : Endian → Frame → Frame
received e f = record f {
  flags = to_be_u16 e f.flags;
  job_id = to_be_u32 e f.job_id;
  sequence_number = to_be_u32 e f.sequence_number;
}

pub length-wire : (e : Endian) (f : Frame) → length (wire e f) ≡ 12 + length f.payload
unfolding wire to_be_bytes_u16 to_be_bytes_u32
length-wire e f = omega arith

module _ (api : BytesApi) (e : Endian) (f : Frame) where
  open api use {
    with_capacity, put_u8, put_u16, put_u32, put_slice, freeze, freeze-with_capacity, freeze-put_u8,
    freeze-put_u16, freeze-put_u32, freeze-put_slice,
  }

  -- The buffer as `encode` fills it.
  filled :
      (n : ℕ)
      → IsFrame f
      → freeze (
          put_slice
            (put_u32
              (put_u32
                (put_u16
                  (put_u8
                    (put_u8 (with_capacity n) (frame_type_code f.frame_type))
                    (stream_id_code f.stream_id))
                  (to_be_u16 e f.flags))
                (to_be_u32 e f.job_id))
              (to_be_u32 e f.sequence_number))
            f.payload)
        ≡ wire e f
  unfolding wire
  filled n r =
      rw
        (
          freeze-put_slice _ f.payload,
          freeze-put_u32 _ _ (to_be_u32-lt e _ r.sequence_range),
          freeze-put_u32 _ _ (to_be_u32-lt e _ r.job_id_range),
          freeze-put_u16 _ _ (to_be_u16-lt e _ r.flags_range),
          freeze-put_u8 _ _ (stream_id_code-lt f.stream_id),
          freeze-put_u8 _ _ (frame_type_code-lt f.frame_type),
          freeze-with_capacity n,
        )
        (simp append_assoc)

  -- A frame is encoded as its wire form if its payload is within the limit, and refused otherwise,
  -- which is the only error: the second size check cannot fail once the first has passed.
  pub encode_cases :
      IsFrame f
      → encode api e f ≡ (
          if leb (length f.payload) max_payload_size
          then ok (wire e f)
          else err (protocol (payload_too_large (length f.payload) max_payload_size)))
  unfolding encode
  encode_cases r = ground (arith, filled (1 + 1 + 2 + 4 + 4 + length f.payload) r)

from_be_bytes_u16-to_be_bytes : (n : ℕ) → IsU16 n → from_be_bytes_u16 (n / 256 % 256) (n % 256) ≡ n
unfolding from_be_bytes_u16
from_be_bytes_u16-to_be_bytes n h = omega arith

pub from_be_bytes_u32-to_be_bytes :
    (n : ℕ)
    → IsU32 n
    → from_be_bytes_u32 (n / 16777216 % 256) (n / 65536 % 256) (n / 256 % 256) (n % 256) ≡ n
unfolding from_be_bytes_u32
from_be_bytes_u32-to_be_bytes n h = omega arith

pub decode-wire : (e : Endian) (f : Frame) → IsFrame f → decode (wire e f) ≡ ok (received e f)
unfolding decode wire received to_be_bytes_u16 to_be_bytes_u32
decode-wire e f r =
    rw
      (
        frame_type_try_from-code f.frame_type,
        stream_id_try_from-code f.stream_id,
        from_be_bytes_u16-to_be_bytes _ (to_be_u16-lt e _ r.flags_range),
        from_be_bytes_u32-to_be_bytes _ (to_be_u32-lt e _ r.job_id_range),
        from_be_bytes_u32-to_be_bytes _ (to_be_u32-lt e _ r.sequence_range),
      )
      (ground arith)

-- A frame within the payload limit is encoded, and decoding gives the frame back with flags, job
-- and sequence number passed through `to_be`.
pub encode-decode :
    (api : BytesApi) (e : Endian) (f : Frame)
    → IsFrame f
    → length f.payload ≤ max_payload_size
    → (encode api e f >>= decode) ≡ ok (received e f)
encode-decode api e f r h = rw (encode_cases api e f r) (ground (arith, decode-wire e f r))

-- On a little-endian machine a frame within the payload limit whose job id is not its own byte
-- reversal does not come back from the wire.
pub round_trip_fails :
    (api : BytesApi) (f : Frame)
    → IsFrame f
    → length f.payload ≤ max_payload_size
    → swap_bytes_u32 f.job_id ≢ f.job_id
    → (encode api little f >>= decode) ≢ ok f
unfolding received to_be_u32
round_trip_fails api f r h n e =
    n (ap (λ g. g.job_id) (ok-injective (sym (encode-decode api little f r h) ∙ e)))
