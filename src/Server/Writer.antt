-- ===== src/Server/Writer.antt =====
-- The writer task of `handle_client` of src/pipe_server.rs, and the reads of its request loop, on
-- the pipe of Pipe.Io: sequences of frames. `none` is a write that runs out of fuel.
use mathlib.Core.List.{append_assoc, append-nil}
use windows_command_runner.Base.{
  ℕ, zero, suc, ◌≤◌, ◌≡◌, refl, sym, ◌∙◌, Option, none, some, List, [], ◌∷◌, ◌++◌, length, All,
}
use windows_command_runner.Error.{Result, ok, err}
use windows_command_runner.Protocol.Bytes.{Endian, BytesApi}
use windows_command_runner.Protocol.Frame.{Frame, IsFrame, max_payload_size}
use windows_command_runner.Protocol.RoundTrip.{received}
use windows_command_runner.Pipe.Io.{PipeApi, read_frame, write_frame}
use windows_command_runner.Pipe.Delivery.{PipeLaws, ReadProgress, Writes, Writes-append}
use windows_command_runner.Pipe.Transport.{framed, read_frame-framed, write_frame-Writes}

-- The bytes of frames on a pipe, one after the other.
unfoldable pub all_framed : Endian → List Frame → List ℕ
all_framed e [] = []
all_framed e (f ∷ fs) = framed e f ++ all_framed e fs

pub all_framed-append :
    (e : Endian) (xs ys : List Frame) → all_framed e (xs ++ ys) ≡ all_framed e xs ++ all_framed e ys
unfolding all_framed
all_framed-append e [] ys = refl
all_framed-append e (f ∷ fs) ys = simp (all_framed-append e fs ys, append_assoc)

unfoldable pub all_received : Endian → List Frame → List (Result Frame)
all_received e [] = []
all_received e (f ∷ fs) = ok (received e f) ∷ all_received e fs

-- A frame that the protocol carries.
pub record IsSendable (f : Frame) : Type 0 where
  pub range : IsFrame f
  pub small : length f.payload ≤ max_payload_size

module _ (pipe : PipeApi) where
  open pipe use {Pipe}

  module _ (bytes : BytesApi) (e : Endian) where
    -- The loop over the frames that the channel hands over: a failed write ends it, and is only
    -- logged.
    unfoldable pub write_frames : Pipe → List Frame → Option (Pipe × Result (Unit {0}))
    write_frames p [] = some (p, ok tt)
    write_frames p (f ∷ fs) = elim (write_frame pipe bytes e p f) [
      | none ↦ none
      | some (q, err x) ↦ some (q, err x)
      | some (q, ok _) ↦ write_frames q fs
    ]

  -- A number of reads of the request loop, one after the other.
  unfoldable pub read_frames : ℕ → Pipe → Pipe × List (Result Frame)
  read_frames zero p = (p, [])
  read_frames (suc n) p =
      let (q, r) = read_frame pipe p in let (t, rs) = read_frames n q in (t, r ∷ rs)

module _ (pipe : PipeApi) (laws : PipeLaws pipe) (e : Endian) where
  open pipe use {Pipe}
  open laws use {pending, written}

  write_frame_then :
      (bytes : BytesApi) (p : Pipe) (front rest : List ℕ) (fs : List Frame)
      (r : Option (Pipe × Result (Unit {0})))
      → Writes pipe laws p front r
      → ((q : Pipe) → Writes pipe laws q rest (write_frames pipe bytes e q fs))
      → Writes pipe laws p (front ++ rest) (elim r [
        | none ↦ none
        | some (q, err x) ↦ some (q, err x)
        | some (q, ok _) ↦ write_frames pipe bytes e q fs
      ])
  write_frame_then bytes p front rest fs none w next = w
  write_frame_then bytes p front rest fs (some (q, err x)) w next = tt
  write_frame_then bytes p front rest fs (some (q, ok _)) w next =
      Writes-append pipe laws p q front rest _ w (next q)

  -- The writer task returns for every sequence of frames whose fields are in range, and if no write
  -- failed it has written the frames in the order of the channel, each with its length, and nothing
  -- else.
  write_frames-Writes :
      (bytes : BytesApi) (p : Pipe) (fs : List Frame)
      → All IsFrame fs
      → Writes pipe laws p (all_framed e fs) (write_frames pipe bytes e p fs)
  unfolding write_frames all_framed
  write_frames-Writes bytes p [] s = sym (append-nil (written p))
  write_frames-Writes bytes p (f ∷ fs) (s, ss) =
      write_frame_then bytes p (framed e f) (all_framed e fs) fs (write_frame pipe bytes e p f)
        (write_frame-Writes pipe laws bytes e p f s) (λ q. write_frames-Writes bytes q fs ss)

  module _ (progress : ReadProgress pipe laws) where
    -- When frames within the limits of the protocol wait on a pipe one after the other, and a read
    -- gets bytes while some wait, then as many reads as there are frames return them in order, none
    -- lost, split or merged, with flags, job and sequence numbers passed through `to_be`, and leave
    -- what follows.
    pub read_frames-all_framed :
        (p : Pipe) (fs : List Frame) (rest : List ℕ)
        → All IsSendable fs
        → pending p ≡ all_framed e fs ++ rest
        → (q : Pipe) × (read_frames pipe (length fs) p ≡ (q, all_received e fs))
          × (pending q ≡ rest)
    unfolding read_frames all_framed all_received
    read_frames-all_framed p [] rest s h = (p, refl, h)
    read_frames-all_framed p (f ∷ fs) rest (s, ss) h =
        let (q, first, left) =
          read_frame-framed pipe laws progress e p f (all_framed e fs ++ rest) s.range s.small
            (h ∙ append_assoc (framed e f) (all_framed e fs) rest) in
        let (t, others, end) = read_frames-all_framed q fs rest ss left in
        (t, rw (first, read_frames) (rw others refl), end)
