-- ===== src/Server/Negotiation.antt =====
-- What the negotiation of `handle_client` in src/pipe_server.rs writes: the HELLO_ACK frame, or
-- the ERROR frame for another version.
use windows_command_runner.Base.{
  ℕ, ◌≤◌, ◌≡◌, ◌≢◌, refl, ◌⊎◌, inl, inr, true, false, Option, none, some, List, ◌++◌, ◌==◌, length,
  All, arith,
}
use windows_command_runner.Error.{Result, ok, err, Message, protocol, version_mismatch}
use windows_command_runner.Protocol.Bytes.{Endian, BytesApi, IsByte, IsU32}
use windows_command_runner.Protocol.Frame.{
  Frame, FrameType, IsFrame, protocol_version, max_payload_size,
}
use windows_command_runner.Protocol.RoundTrip.{received}
use windows_command_runner.Pipe.Io.{PipeApi, write_frame}
use windows_command_runner.Pipe.Delivery.{PipeLaws, ReadProgress, Writes}
use windows_command_runner.Pipe.Transport.{framed, read_frame-framed, write_frame-Writes}
use windows_command_runner.Pipe.Directions.{read_frame-written}
use windows_command_runner.Server.Session.{error_frame}
use windows_command_runner.Server.Client.{
  HelloPayload, good_hello, HelloApi, ack_payload, hello_ack, after_write, send_error_frame,
  check_version, check_hello, after_hello, negotiate,
}

hello_ack-IsFrame : (payload : List ℕ) → All IsByte payload → IsFrame (hello_ack payload)
unfolding hello_ack
hello_ack-IsFrame payload bytes = record {
  flags_range = omega arith;
  job_id_range = omega arith;
  sequence_range = omega arith;
  payload_bytes = bytes;
}

pub error_frame-IsFrame :
    (id : ℕ) (payload : List ℕ) → IsU32 id → All IsByte payload → IsFrame (error_frame id payload)
unfolding error_frame
error_frame-IsFrame id payload range bytes = record {
  flags_range = omega arith;
  job_id_range = range;
  sequence_range = omega arith;
  payload_bytes = bytes;
}

module _ (pipe : PipeApi) (laws : PipeLaws pipe) (bytes : BytesApi) (e : Endian)
    (api : HelloApi) where
  open pipe use {Pipe}
  open laws use {pending, written}
  open api use {parse_hello, hello_bytes, message_bytes}

  -- The negotiation returned, with the error of the failed write of the HELLO_ACK frame, or with
  -- the client's payload and that frame as all that was written.
  abbrev pub Acknowledges : Pipe → HelloPayload → Option (Pipe × Result HelloPayload) → Type 0
  Acknowledges q hello none = ⊥
  Acknowledges q hello (some (t, err x)) =
      write_frame pipe bytes e q (hello_ack (hello_bytes (ack_payload hello))) ≡ some (t, err x)
  Acknowledges q hello (some (t, ok h)) =
      (h ≡ hello)
      × (written t ≡ written q ++ framed e (hello_ack (hello_bytes (ack_payload hello))))

  -- The negotiation returned with an error: that of the write, or the mismatch, with the ERROR
  -- frame for it as all that was written.
  abbrev pub Refuses : Pipe → Message → Option (Pipe × Result HelloPayload) → Type 0
  Refuses q message none = ⊥
  Refuses q message (some (t, ok h)) = ⊥
  Refuses q message (some (t, err x)) =
      (send_error_frame pipe bytes e api q 0 message ≡ some (t, err x))
      ⊎ ((x ≡ protocol message)
          × (written t ≡ written q ++ framed e (error_frame 0 (message_bytes message))))

  after_write-Acknowledges :
      (q : Pipe) (hello : HelloPayload) (r : Option (Pipe × Result (Unit {0})))
      → write_frame pipe bytes e q (hello_ack (hello_bytes (ack_payload hello))) ≡ r
      → Writes pipe laws q (framed e (hello_ack (hello_bytes (ack_payload hello)))) r
      → Acknowledges q hello (after_write (ok hello) r)
  after_write-Acknowledges q hello none same w = w
  after_write-Acknowledges q hello (some (t, err x)) same w = same
  after_write-Acknowledges q hello (some (t, ok _)) same w = (refl, w)

  after_write-Refuses :
      (q : Pipe) (message : Message) (r : Option (Pipe × Result (Unit {0})))
      → send_error_frame pipe bytes e api q 0 message ≡ r
      → Writes pipe laws q (framed e (error_frame 0 (message_bytes message))) r
      → Refuses q message (after_write (err (protocol message)) r)
  after_write-Refuses q message none same w = w
  after_write-Refuses q message (some (t, err x)) same w = inl same
  after_write-Refuses q message (some (t, ok _)) same w = inr (refl, w)

  pub check_version-Acknowledges :
      (q : Pipe) (hello : HelloPayload)
      → hello.version ≡ protocol_version
      → All IsByte (hello_bytes (ack_payload hello))
      → Acknowledges q hello (check_version pipe bytes e api q hello)
  unfolding check_version
  check_version-Acknowledges q hello version ack_bytes =
      let agrees : (hello.version == protocol_version) ≡ true = ground arith in
      rw agrees (
        after_write-Acknowledges q hello _ refl (
          write_frame-Writes pipe laws bytes e q (hello_ack (hello_bytes (ack_payload hello)))
            (hello_ack-IsFrame (hello_bytes (ack_payload hello)) ack_bytes)))

  module _ (progress : ReadProgress pipe laws) where
    pub negotiate-check_version :
        (p : Pipe) (f : Frame) (hello : HelloPayload) (rest : List ℕ)
        → IsFrame f
        → length f.payload ≤ max_payload_size
        → f.frame_type ≡ FrameType.hello
        → parse_hello f.payload ≡ good_hello hello
        → pending p ≡ framed e f ++ rest
        → (q : Pipe) × (pending q ≡ rest)
          × (written q ≡ written p)
          × (negotiate pipe bytes e api p ≡ check_version pipe bytes e api q hello)
    unfolding negotiate after_hello check_hello received
    negotiate-check_version p f hello rest range small type parsed waits =
        let (q, done, left) = read_frame-framed pipe laws progress e p f rest range small waits in
        (
          q,
          left,
          rw done at (read_frame-written pipe laws p),
          rw (done, negotiate) (rw (type, parsed) refl),
        )

    -- A HELLO frame with the server's version at the front of the pipe is taken off it, and the
    -- negotiation returns the client's payload, with the HELLO_ACK frame as all that was written,
    -- or fails with the error of the write of that frame.
    negotiate-Acknowledges :
        (p : Pipe) (f : Frame) (hello : HelloPayload) (rest : List ℕ)
        → IsFrame f
        → length f.payload ≤ max_payload_size
        → f.frame_type ≡ FrameType.hello
        → parse_hello f.payload ≡ good_hello hello
        → hello.version ≡ protocol_version
        → All IsByte (hello_bytes (ack_payload hello))
        → pending p ≡ framed e f ++ rest
        → (q : Pipe) × (pending q ≡ rest)
          × (written q ≡ written p)
          × Acknowledges q hello (negotiate pipe bytes e api p)
    negotiate-Acknowledges p f hello rest range small type parsed version ack_bytes waits =
        let (q, left, kept, same) =
          negotiate-check_version p f hello rest range small type parsed waits in
        (q, left, kept, rw same (check_version-Acknowledges q hello version ack_bytes))

    -- A HELLO frame with another version at the front of the pipe is taken off it, and the
    -- negotiation returns an error; unless the write fails, the error is the mismatch, and the
    -- ERROR frame that tells it to the client is all that was written.
    pub negotiate-Refuses :
        (p : Pipe) (f : Frame) (hello : HelloPayload) (rest : List ℕ)
        → IsFrame f
        → length f.payload ≤ max_payload_size
        → f.frame_type ≡ FrameType.hello
        → parse_hello f.payload ≡ good_hello hello
        → hello.version ≢ protocol_version
        → All IsByte (message_bytes (version_mismatch hello.version protocol_version))
        → pending p ≡ framed e f ++ rest
        → (q : Pipe) × (pending q ≡ rest)
          × (written q ≡ written p)
          × Refuses q
              (version_mismatch hello.version protocol_version)
              (negotiate pipe bytes e api p)
    negotiate-Refuses p f hello rest range small type parsed version text_bytes waits =
        let message = version_mismatch hello.version protocol_version in
        let (q, left, kept, same) =
          negotiate-check_version p f hello rest range small type parsed waits in
        let differs : (hello.version == protocol_version) ≡ false = ground arith in
        (
          q,
          left,
          kept,
          rw same (
              unfold check_version send_error_frame in
              rw differs (
                after_write-Refuses q message _ refl (
                  write_frame-Writes pipe laws bytes e q (error_frame 0 (message_bytes message))
                    (error_frame-IsFrame 0 (message_bytes message) (omega arith) text_bytes)))),
        )
