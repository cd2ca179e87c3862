-- ===== src/Protocol/Tags.antt =====
-- The codes of frame types and streams: `try_from` inverts `as u8`, and refuses all other bytes.
use windows_command_runner.Base.{ℕ, ◌≡◌, ◌≢◌, ◌<◌, ◌↔◌, refl, inl, inr, arith}
use windows_command_runner.Error.{
  Error, Result-cases, ok, err, protocol, unknown_frame_type, invalid_stream_id,
}
use windows_command_runner.Protocol.Frame.{
  FrameType, hello, StreamId, control, frame_type_code, frame_type_try_from, stream_id_code,
  stream_id_try_from,
}

pub frame_type_code-lt : (t : FrameType) → frame_type_code t < 256
unfolding frame_type_code
frame_type_code-lt t = ground arith

pub stream_id_code-lt : (s : StreamId) → stream_id_code s < 256
unfolding stream_id_code
stream_id_code-lt s = ground arith

pub frame_type_try_from-code : (t : FrameType) → frame_type_try_from (frame_type_code t) ≡ ok t
unfolding frame_type_code frame_type_try_from
frame_type_try_from-code hello = refl
frame_type_try_from-code _ = refl

pub stream_id_try_from-code : (s : StreamId) → stream_id_try_from (stream_id_code s) ≡ ok s
unfolding stream_id_code stream_id_try_from
stream_id_try_from-code control = refl
stream_id_try_from-code _ = refl

pub frame_type_try_from-ok :
    (v : ℕ) (t : FrameType) → frame_type_try_from v ≡ ok t → v ≡ frame_type_code t
unfolding frame_type_code frame_type_try_from
frame_type_try_from-ok v t h = ground arith

pub stream_id_try_from-ok :
    (v : ℕ) (s : StreamId) → stream_id_try_from v ≡ ok s → v ≡ stream_id_code s
unfolding stream_id_code stream_id_try_from
stream_id_try_from-ok v s h = ground arith

frame_type_try_from-err :
    (v : ℕ) (x : Error) → frame_type_try_from v ≡ err x → x ≡ protocol (unknown_frame_type v)
unfolding frame_type_try_from
frame_type_try_from-err v x h = ground arith

-- `try_from` inverts `as u8`: a byte is read as a frame type exactly when it is that type's code,
-- and it is refused, with the error that names the byte, exactly when it is no type's code.
frame_type_try_from_iff :
    (v : ℕ) (t : FrameType) (x : Error)
    → ((frame_type_try_from v ≡ ok t) ↔ (v ≡ frame_type_code t))
      × ((frame_type_try_from v ≡ err x)
          ↔ ((x ≡ protocol (unknown_frame_type v)) × ((t' : FrameType) → v ≢ frame_type_code t')))
frame_type_try_from_iff v t x = (
  (frame_type_try_from-ok v t, λ e. rw e (frame_type_try_from-code t)),
  (
    λ h. (
      frame_type_try_from-err v x h,
      λ u e. let q : frame_type_try_from v ≡ ok u = rw e (frame_type_try_from-code u) in cc (h, q),
    ),
    λ h. elim (Result-cases (frame_type_try_from v)) [
      | inl (u, e) ↦ absurd (h.1 u (frame_type_try_from-ok v u e))
      | inr (y, e) ↦ cc (e, frame_type_try_from-err v y e, h.0)
    ],
  ),
)

stream_id_try_from-err :
    (v : ℕ) (x : Error) → stream_id_try_from v ≡ err x → x ≡ protocol (invalid_stream_id v)
unfolding stream_id_try_from
stream_id_try_from-err v x h = ground arith

-- A byte is read as a stream exactly when it is that stream's code, and it is refused, with the
-- error that names the byte, exactly when it is no stream's code.
stream_id_try_from_iff :
    (v : ℕ) (s : StreamId) (x : Error)
    → ((stream_id_try_from v ≡ ok s) ↔ (v ≡ stream_id_code s))
      × ((stream_id_try_from v ≡ err x)
          ↔ ((x ≡ protocol (invalid_stream_id v)) × ((s' : StreamId) → v ≢ stream_id_code s')))
stream_id_try_from_iff v s x = (
  (stream_id_try_from-ok v s, λ e. rw e (stream_id_try_from-code s)),
  (
    λ h. (
      stream_id_try_from-err v x h,
      λ u e. let q : stream_id_try_from v ≡ ok u = rw e (stream_id_try_from-code u) in cc (h, q),
    ),
    λ h. elim (Result-cases (stream_id_try_from v)) [
      | inl (u, e) ↦ absurd (h.1 u (stream_id_try_from-ok v u e))
      | inr (y, e) ↦ cc (e, stream_id_try_from-err v y e, h.0)
    ],
  ),
)
