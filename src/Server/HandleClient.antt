-- ===== src/Server/HandleClient.antt =====
-- `handle_client` of src/pipe_server.rs as a whole, for any client: the negotiation and the
-- session after it.
use Prim.Native.String.{String}
use mathlib.Core.List.{append_assoc}
use windows_command_runner.Base.{
  ℕ, ◌≡◌, ◌≢◌, refl, ◌∙◌, ◌⊎◌, inl, inr, Option, none, some, List, [], ◌++◌, ◌==◌, arith, All,
  Bool-cases,
}
use windows_command_runner.Error.{
  Error, Result, ok, err, Message, protocol, version_mismatch, Result-cases,
}
use windows_command_runner.Channel.{ChannelApi, ReceiverApi}
use windows_command_runner.Protocol.Bytes.{Endian, BytesApi, IsByte}
use windows_command_runner.Protocol.Frame.{Frame, protocol_version}
use windows_command_runner.Pipe.Io.{PipeApi, read_frame}
use windows_command_runner.Pipe.Delivery.{PipeLaws, Writes}
use windows_command_runner.Pipe.Transport.{framed, write_frame-Writes}
use windows_command_runner.Pipe.Directions.{read_frame-written}
use windows_command_runner.Job.Invariant.{Inv}
use windows_command_runner.Job.Manager.{JobManager}
use windows_command_runner.Server.Session.{SessionApi, error_frame}
use windows_command_runner.Server.Client.{
  HelloApi, HelloPayload, ParsedHello, good_hello, bad_hello, ack_payload, hello_ack, is_hello,
  after_write, check_version, check_hello, after_hello, send_error_frame, negotiate,
}
use windows_command_runner.Server.Negotiation.{
  Acknowledges, check_version-Acknowledges, error_frame-IsFrame,
}
use windows_command_runner.Server.Announced.{Announced}
use windows_command_runner.Server.Senders.{HasBytes}
use windows_command_runner.Server.Writer.{all_framed}
use windows_command_runner.Server.Connection.{
  WriterTask, writing, broken, drained, Turn, Handling, stuck, refused, accepted, handle_client,
  new_connection, run_turns,
}
use windows_command_runner.Server.Sound.Turns.{Fits}
use windows_command_runner.Server.Delivered.{IsFresh, run-IsSound, run_turns-written}

-- The payloads of HELLO_ACK and of a refusal are made of bytes.
pub record HasHelloBytes (api : HelloApi) : Type 0 where
  pub acks : (hello : HelloPayload) → All IsByte (api.hello_bytes hello)
  pub messages : (message : Message) → All IsByte (api.message_bytes message)

ParsedHello-cases :
    (o : ParsedHello)
    → ((hello : HelloPayload) × (o ≡ good_hello hello)) ⊎ ((text : String) × (o ≡ bad_hello text))
ParsedHello-cases (good_hello hello) = inl (hello, refl)
ParsedHello-cases (bad_hello text) = inr (text, refl)

broken_or_not : (w : WriterTask) → (w ≡ broken) ⊎ (w ≢ broken)
broken_or_not broken = inl refl
broken_or_not writing = inr (λ h. cc)
broken_or_not drained = inr (λ h. cc)

module _ (pipe : PipeApi) (laws : PipeLaws pipe) (bytes : BytesApi) (e : Endian)
    (hello_api : HelloApi) (hello_texts : HasHelloBytes hello_api) where
  open pipe use {Pipe}
  open laws use {written}
  open hello_api use {parse_hello, hello_bytes, message_bytes}

  -- The negotiation returned; if it succeeded, the HELLO_ACK frame is all that was written.
  abbrev Negotiated : Pipe → Option (Pipe × Result HelloPayload) → Type 0
  Negotiated p none = ⊥
  Negotiated p (some (q, err x)) = Unit {0}
  Negotiated p (some (q, ok hello)) =
      written q ≡ written p ++ framed e (hello_ack (hello_bytes (ack_payload hello)))

  Acknowledges-Negotiated :
      (p : Pipe) (hello : HelloPayload) (r : Option (Pipe × Result HelloPayload))
      → Acknowledges pipe laws bytes e hello_api p hello r
      → Negotiated p r
  Acknowledges-Negotiated p hello none a = a
  Acknowledges-Negotiated p hello (some (q, err x)) a = tt
  Acknowledges-Negotiated p hello (some (q, ok h)) (same, ack) = rw same ack

  refusal-Negotiated :
      (p q : Pipe) (front : List ℕ) (x : Error) (r : Option (Pipe × Result (Unit {0})))
      → Writes pipe laws q front r
      → Negotiated p (after_write (err x) r)
  refusal-Negotiated p q front x none w = w
  refusal-Negotiated p q front x (some (t, err y)) w = tt
  refusal-Negotiated p q front x (some (t, ok _)) w = tt

  check_version-Negotiated :
      (p : Pipe) (hello : HelloPayload)
      → Negotiated p (check_version pipe bytes e hello_api p hello)
  unfolding check_version send_error_frame
  check_version-Negotiated p hello = elim (Bool-cases (hello.version == protocol_version)) [
    | inl same ↦ Acknowledges-Negotiated p hello _ (
        check_version-Acknowledges pipe laws bytes e hello_api p hello (ground arith)
          (hello_texts.acks (ack_payload hello)))
    | inr other ↦
        let message = version_mismatch hello.version protocol_version in
        rw other (
          refusal-Negotiated p p _ (protocol message) _ (
            write_frame-Writes pipe laws bytes e p (error_frame 0 (message_bytes message)) (
              error_frame-IsFrame 0 (message_bytes message) (omega arith)
                (hello_texts.messages message))))
  ]

  Negotiated-kept :
      (p q : Pipe) (r : Option (Pipe × Result HelloPayload))
      → written q ≡ written p
      → Negotiated q r
      → Negotiated p r
  Negotiated-kept p q none same n = n
  Negotiated-kept p q (some (t, err x)) same n = tt
  Negotiated-kept p q (some (t, ok h)) same n = rw (← same) n

  check_hello-Negotiated :
      (p : Pipe) (f : Frame) → Negotiated p (check_hello pipe bytes e hello_api p f)
  unfolding check_hello
  check_hello-Negotiated p f = elim (Bool-cases (is_hello f.frame_type)) [
    | inr other ↦ rw other tt
    | inl greets ↦ elim (ParsedHello-cases (parse_hello f.payload)) [
      | inl (hello, parsed) ↦ rw (greets, parsed) (check_version-Negotiated p hello)
      | inr (text, parsed) ↦ rw (greets, parsed) tt
    ]
  ]

  negotiate-Negotiated : (p : Pipe) → Negotiated p (negotiate pipe bytes e hello_api p)
  unfolding negotiate after_hello
  negotiate-Negotiated p = elim (Result-cases (read_frame pipe p).1) [
    | inl (f, r) ↦
        rw (r, after_hello)
          (Negotiated-kept p (read_frame pipe p).0 _ (read_frame-written pipe laws p)
            (check_hello-Negotiated (read_frame pipe p).0 f))
    | inr (x, r) ↦ rw (r, after_hello) tt
  ]

  module _ (channel : ChannelApi) (receiver : ReceiverApi channel) (api : SessionApi)
      (texts : HasBytes api) where
    open channel use {Sender, delivered}
    open receiver use {received}

    -- `handle_client` came to an end or to a session that keeps the invariant of the manager; a
    -- write of it failed, or what was written is the HELLO_ACK frame and then a front of the frames
    -- handed over.
    abbrev pub Serves : Pipe → Handling channel receiver pipe → Type 0
    Serves p stuck = ⊥
    Serves p (refused q x) = Unit {0}
    Serves p (accepted c) =
        Inv c.manager
        × ((c.writer ≡ broken)
            ⊎ ((hello : HelloPayload) × (rest : List Frame) × (delivered c.frames
                  ≡ received c.frames ++ rest)
                × (written c.pipe_state
                    ≡ written p
                      ++ framed e (hello_ack (hello_bytes (ack_payload hello)))
                      ++ all_framed e (received c.frames))
                × Announced [] (received c.frames)))

    accepted-Serves :
        (p : Pipe) (m : JobManager) (s : Sender) (ts : List Turn)
        (r : Option (Pipe × Result HelloPayload))
        → Negotiated p r
        → Inv m
        → IsFresh channel receiver pipe laws e api texts s
        → All Fits ts
        → Serves p (elim r [
          | none ↦ stuck
          | some (q, err x) ↦ refused q x
          | some (q, ok _) ↦ accepted (
              run_turns channel receiver pipe bytes e api
                (new_connection channel receiver pipe q m s)
                ts)
        ])
    accepted-Serves p m s ts none n v fresh small = n
    accepted-Serves p m s ts (some (q, err x)) n v fresh small = tt
    accepted-Serves p m s ts (some (q, ok hello)) n v fresh small =
        let c =
          run_turns channel receiver pipe bytes e api (new_connection channel receiver pipe q m s)
            ts in
        (
          (run-IsSound channel receiver pipe laws e api texts bytes q m s ts c refl v fresh
              small).kept,
          elim (broken_or_not c.writer) [
            | inl failed ↦ inl failed
            | inr whole ↦
                let (rest, front, wrote, order) =
                  run_turns-written channel receiver pipe laws e api texts bytes q m s ts c refl v
                    fresh small whole in
                inr (hello, rest, front, wrote ∙ rw (n, append_assoc), order)
          ],
        )

    -- Whatever a client sends and whatever the order of the turns, `handle_client` refuses the
    -- client with an error or serves it; then the invariant of the manager holds and, unless a
    -- write failed, it has written the HELLO_ACK frame and after it a front of the frames that the
    -- request loop and the tasks of the jobs handed over, each whole and in that order, and each
    -- frame that is not a RUN_ACK comes after the RUN_ACK of its job. The channel was fresh, the
    -- manager satisfied its invariant, the payloads that the server makes are of bytes, and the
    -- fields of the frames that the tasks send are in range.
    pub handle_client-Serves :
        (p : Pipe) (m : JobManager) (s : Sender) (ts : List Turn)
        → Inv m
        → IsFresh channel receiver pipe laws e api texts s
        → All Fits ts
        → Serves p (handle_client channel receiver pipe bytes e api hello_api p m s ts)
    unfolding handle_client
    handle_client-Serves p m s ts v fresh small =
        accepted-Serves p m s ts (negotiate pipe bytes e hello_api p) (negotiate-Negotiated p) v
          fresh small
