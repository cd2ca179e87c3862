-- ===== src/Protocol/Canonical.antt =====
-- Decoding loses nothing: the bytes that `Frame::decode` of src/protocol.rs takes are those of the
-- frame.
use windows_command_runner.Base.{
  ℕ, suc, ◌≤◌, ◌≡◌, refl, List, [], ◌∷◌, arith, false, length, ltb, All,
}
use mathlib.Core.Path.{subst}
use windows_command_runner.Error.{ok, >>=-eq-ok, ok-injective}
use windows_command_runner.Protocol.Bytes.{
  Endian, big, BytesApi, IsByte, IsU16, IsU32, to_be_u16, to_be_u32, from_be_bytes_u16,
  from_be_bytes_u32, to_be_bytes_u16, to_be_bytes_u32, to_be_u16-lt, to_be_u32-lt,
  to_be_u16-to_be_u16, to_be_u32-to_be_u32,
}
use windows_command_runner.Protocol.Frame.{
  Frame, IsFrame, FrameType, StreamId, frame_type_try_from, stream_id_try_from, encode, decode,
  max_payload_size, frame_type_code, stream_id_code,
}
use windows_command_runner.Protocol.Tags.{
  frame_type_try_from-ok, stream_id_try_from-ok, frame_type_try_from-ok, stream_id_try_from-ok,
}
use windows_command_runner.Protocol.RoundTrip.{encode_cases, wire, received}

to_be_bytes_u16-from_be_bytes :
    (a b : ℕ) → IsByte a → IsByte b → to_be_bytes_u16 (from_be_bytes_u16 a b) ≡ a ∷ b ∷ []
unfolding to_be_bytes_u16 from_be_bytes_u16
to_be_bytes_u16-from_be_bytes a b ha hb = ground arith

to_be_bytes_u32-from_be_bytes :
    (a b c d : ℕ)
    → IsByte a
    → IsByte b
    → IsByte c
    → IsByte d
    → to_be_bytes_u32 (from_be_bytes_u32 a b c d) ≡ a ∷ b ∷ c ∷ d ∷ []
unfolding to_be_bytes_u32 from_be_bytes_u32
to_be_bytes_u32-from_be_bytes a b c d ha hb hc hd = ground arith

from_be_bytes_u16-lt : (a b : ℕ) → IsByte a → IsByte b → IsU16 (from_be_bytes_u16 a b)
unfolding from_be_bytes_u16
from_be_bytes_u16-lt a b ha hb = omega arith

from_be_bytes_u32-lt :
    (a b c d : ℕ) → IsByte a → IsByte b → IsByte c → IsByte d → IsU32 (from_be_bytes_u32 a b c d)
unfolding from_be_bytes_u32
from_be_bytes_u32-lt a b c d ha hb hc hd = omega arith

-- The bytes of a header, put together as integers and taken apart again, are the same bytes.
wire_of_bytes :
    (t : FrameType) (s : StreamId) (f : Frame) (a b c0 c1 d0 d1 d2 d3 e0 e1 e2 e3 : ℕ)
    (rest : List ℕ)
    → All IsByte (c0 ∷ c1 ∷ d0 ∷ d1 ∷ d2 ∷ d3 ∷ e0 ∷ e1 ∷ e2 ∷ e3 ∷ rest)
    → a ≡ frame_type_code t
    → b ≡ stream_id_code s
    → record {
      frame_type = t;
      stream_id = s;
      flags = from_be_bytes_u16 c0 c1;
      job_id = from_be_bytes_u32 d0 d1 d2 d3;
      sequence_number = from_be_bytes_u32 e0 e1 e2 e3;
      payload = rest;
    }
      ≡ f
    → IsFrame f × (a ∷ b ∷ c0 ∷ c1 ∷ d0 ∷ d1 ∷ d2 ∷ d3 ∷ e0 ∷ e1 ∷ e2 ∷ e3 ∷ rest ≡ wire big f)
unfolding wire to_be_u16 to_be_u32
wire_of_bytes t s f a b c0 c1 d0 d1 d2 d3 e0 e1 e2 e3 rest
      (rc0, (rc1, (rd0, (rd1, (rd2, (rd3, (re0, (re1, (re2, (re3, r)))))))))) ea eb ef =
    subst
      (λ g.
        IsFrame g × (a ∷ b ∷ c0 ∷ c1 ∷ d0 ∷ d1 ∷ d2 ∷ d3 ∷ e0 ∷ e1 ∷ e2 ∷ e3 ∷ rest ≡ wire big g))
      ef
      (
        record {
          flags_range = from_be_bytes_u16-lt c0 c1 rc0 rc1;
          job_id_range = from_be_bytes_u32-lt d0 d1 d2 d3 rd0 rd1 rd2 rd3;
          sequence_range = from_be_bytes_u32-lt e0 e1 e2 e3 re0 re1 re2 re3;
          payload_bytes = r;
        },
        rw (
          ea,
          eb,
          to_be_bytes_u16-from_be_bytes c0 c1 rc0 rc1,
          to_be_bytes_u32-from_be_bytes d0 d1 d2 d3 rd0 rd1 rd2 rd3,
          to_be_bytes_u32-from_be_bytes e0 e1 e2 e3 re0 re1 re2 re3,
        ),
      )

ltb_ge : (m n : ℕ) → n ≤ m → ltb m n ≡ false
ltb_ge m n h = ground arith

-- Whatever `decode` accepts is the wire form, on a big-endian machine, of the frame that it
-- returns.
decode-eq-ok :
    (bs : List ℕ) (f : Frame) → All IsByte bs → decode bs ≡ ok f → IsFrame f × (bs ≡ wire big f)
unfolding decode
decode-eq-ok (a ∷ b ∷ c0 ∷ c1 ∷ d0 ∷ d1 ∷ d2 ∷ d3 ∷ e0 ∷ e1 ∷ e2 ∷ e3 ∷ rest) f (ra, (rb, r)) h =
    let long =
      simp
        (ltb_ge
          (suc (suc (suc (suc (suc (suc (suc (suc (suc (suc (suc (suc (length rest))))))))))))) 12
          (omega arith))
        at h in
    let (t, et, h1) = >>=-eq-ok (frame_type_try_from a) _ long in
    let (s, es, h2) = >>=-eq-ok (stream_id_try_from b) _ h1 in
    wire_of_bytes t s f a b c0 c1 d0 d1 d2 d3 e0 e1 e2 e3 rest r (frame_type_try_from-ok a t et)
      (stream_id_try_from-ok b s es) (ok-injective h2)
decode-eq-ok _ f r h = ground arith

received-IsFrame : (e : Endian) (f : Frame) → IsFrame f → IsFrame (received e f)
unfolding received
received-IsFrame e f r = record {
  flags_range = to_be_u16-lt e _ r.flags_range;
  job_id_range = to_be_u32-lt e _ r.job_id_range;
  sequence_range = to_be_u32-lt e _ r.sequence_range;
  payload_bytes = r.payload_bytes;
}

wire-received : (e : Endian) (f : Frame) → IsFrame f → wire e (received e f) ≡ wire big f
unfolding wire received
wire-received e f r =
    rw
      (
        to_be_u16-to_be_u16 e _ r.flags_range,
        to_be_u32-to_be_u32 e _ r.job_id_range,
        to_be_u32-to_be_u32 e _ r.sequence_range,
      )
      (unfold to_be_u16 to_be_u32 in refl)

-- Bytes that `decode` accepts, with a payload within the limit, come back when the decoded frame is
-- passed through `to_be` and encoded, on either machine; the decoded frame is in range.
decode-encode :
    (api : BytesApi) (e : Endian) (bs : List ℕ) (f : Frame)
    → All IsByte bs
    → decode bs ≡ ok f
    → length f.payload ≤ max_payload_size
    → IsFrame f × (encode api e (received e f) ≡ ok bs)
unfolding received
decode-encode api e bs f r h small =
    let (range, eq) = decode-eq-ok bs f r h in
    (
      range,
      rw
          (
            encode_cases api e (received e f) (received-IsFrame e f range),
            wire-received e f range,
            eq,
          )
          (ground arith),
    )
