-- ===== src/Pipe/Transport.antt =====
-- How a frame crosses a pipe: what `write_frame` of src/pipe_server.rs puts there, and what
-- `read_frame` takes from it.
use windows_command_runner.Base.{
  ℕ, ◌<◌, ◌≤◌, ◌≡◌, ap, ◌∙◌, List, ◌++◌, length, arith, Option, none, some, leb, Bool-cases, inl,
  inr,
}
use mathlib.Core.List.{append_assoc}
use windows_command_runner.Error.{Result, ok, err, protocol, length_too_large}
use windows_command_runner.Protocol.Bytes.{Endian, BytesApi, IsU32, to_be_bytes_u32}
use windows_command_runner.Protocol.Frame.{Frame, IsFrame, max_payload_size}
use windows_command_runner.Protocol.RoundTrip.{
  wire, received, encode_cases, decode-wire, length-wire, from_be_bytes_u32-to_be_bytes,
}
use windows_command_runner.Pipe.Io.{
  PipeApi, read_exact, read_sized, read_frame, read_body, write_all, write_rest, write_frame,
}
use windows_command_runner.Pipe.Delivery.{
  PipeLaws, ReadProgress, Writes, Writes-append, write_all-Writes, read_exact_gets,
}

-- The bytes of a frame on a pipe: the length of its wire form, and the wire form.
unfoldable pub framed : Endian → Frame → List ℕ
framed e f = to_be_bytes_u32 (length (wire e f)) ++ wire e f

module _ (api : PipeApi) (laws : PipeLaws api) where
  open api use {Pipe}
  open laws use {pending}

  write_rest-Writes :
      (p : Pipe) (prefix bytes : List ℕ) (r : Option (Pipe × Result (Unit {0})))
      → Writes api laws p prefix r
      → Writes api laws p (prefix ++ bytes) (write_rest api bytes r)
  unfolding write_rest
  write_rest-Writes p prefix bytes none w = w
  write_rest-Writes p prefix bytes (some (q, err e)) w = tt
  write_rest-Writes p prefix bytes (some (q, ok _)) w =
      Writes-append api laws p q prefix bytes (write_all api q bytes) w
        (write_all-Writes api laws q bytes)

  -- Writing a frame always returns, and when it succeeds the length and the wire form of the frame
  -- were written, and nothing else.
  pub write_frame-Writes :
      (b : BytesApi) (e : Endian) (p : Pipe) (f : Frame)
      → IsFrame f
      → Writes api laws p (framed e f) (write_frame api b e p f)
  unfolding write_frame framed
  write_frame-Writes b e p f range = elim (Bool-cases (leb (length f.payload) max_payload_size)) [
    | inr long ↦ rw (encode_cases b e f range, write_frame) (rw long tt)
    | inl fits ↦
        rw (encode_cases b e f range, write_frame)
          (rw fits (
            write_rest-Writes p (to_be_bytes_u32 (length (wire e f))) (wire e f) _
              (write_all-Writes api laws p (to_be_bytes_u32 (length (wire e f))))))
  ]

  -- A write that succeeded was of a frame within the payload limit.
  abbrev pub WasSmall : Frame → Option (Pipe × Result (Unit {0})) → Type 0
  WasSmall f none = Unit {0}
  WasSmall f (some (q, err x)) = Unit {0}
  WasSmall f (some (q, ok _)) = length f.payload ≤ max_payload_size

  small-WasSmall :
      (f : Frame) (r : Option (Pipe × Result (Unit {0})))
      → length f.payload ≤ max_payload_size
      → WasSmall f r
  small-WasSmall f none h = tt
  small-WasSmall f (some (q, err x)) h = tt
  small-WasSmall f (some (q, ok _)) h = h

  pub write_frame-WasSmall :
      (b : BytesApi) (e : Endian) (p : Pipe) (f : Frame)
      → IsFrame f
      → WasSmall f (write_frame api b e p f)
  unfolding write_frame
  write_frame-WasSmall b e p f range = elim (Bool-cases (leb (length f.payload) max_payload_size)) [
    | inr long ↦ rw (encode_cases b e f range, write_frame) (rw long tt)
    | inl fits ↦ small-WasSmall f (write_frame api b e p f) (ground arith)
  ]

  -- A length prefix within the limit is followed by a read of that many bytes.
  read_sized-eq :
      (p : Pipe) (len : ℕ)
      → len ≤ 1048576
      → read_sized api (p, ok (to_be_bytes_u32 len)) ≡ read_body api (read_exact api p len)
  unfolding read_sized to_be_bytes_u32
  read_sized-eq p len h = rw (from_be_bytes_u32-to_be_bytes len (omega arith)) (ground arith)

  -- A longer one is refused, whatever follows.
  read_sized-err :
      (p : Pipe) (len : ℕ)
      → 1048576 < len
      → IsU32 len
      → read_sized api (p, ok (to_be_bytes_u32 len)) ≡ (p, err (protocol length_too_large))
  unfolding read_sized to_be_bytes_u32
  read_sized-err p len h r = rw (from_be_bytes_u32-to_be_bytes len r) (ground arith)

  module _ (progress : ReadProgress api laws) where
    -- When the length and the wire form of a frame within the payload limit wait at the front of
    -- the pipe, and a read gets bytes while some wait, `read_frame` returns the frame, in however
    -- many pieces it comes, with flags, job and sequence number passed through `to_be`, and leaves
    -- what follows.
    pub read_frame-framed :
        (e : Endian) (p : Pipe) (f : Frame) (rest : List ℕ)
        → IsFrame f
        → length f.payload ≤ max_payload_size
        → pending p ≡ framed e f ++ rest
        → (q : Pipe) × (read_frame api p ≡ (q, ok (received e f))) × (pending q ≡ rest)
    unfolding framed read_frame
    read_frame-framed e p f rest range small h =
        let len = length (wire e f) in
        let (p1, first, left1) =
          read_exact_gets api laws progress p (to_be_bytes_u32 len) (wire e f ++ rest)
            (h ∙ append_assoc (to_be_bytes_u32 len) (wire e f) rest) in
        let (p2, second, left2) = read_exact_gets api laws progress p1 (wire e f) rest left1 in
        (
          p2,
          ap (read_sized api) (length_four first)
              ∙ read_sized-eq p1 len (omega (arith, length-wire e f))
              ∙ ap (read_body api) second
              ∙ decoded p2,
          left2,
        )
      where
        length_four :
            {r : Pipe × Result (List ℕ)}
            → read_exact api p (length (to_be_bytes_u32 (length (wire e f)))) ≡ r
            → read_exact api p 4 ≡ r
        length_four h = unfold to_be_bytes_u32 in h

        decoded : (q : Pipe) → read_body api (q, ok (wire e f)) ≡ (q, ok (received e f))
        decoded q = unfold read_body in ap (λ (r : Result Frame). (q, r)) (decode-wire e f range)
