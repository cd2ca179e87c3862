-- ===== src/Server/Output.antt =====
-- The output of a job, from its pump to the pipe of the client: src/io_pump.rs and
-- src/pipe_server.rs together.
use mathlib.Core.List.{append_assoc, append-nil, append_cancel_left}
use windows_command_runner.Base.{
  ℕ, ◌≡◌, ◌≢◌, refl, sym, ap, ◌∙◌, inl, inr, ◌⊎◌, true, false, Option, none, some, List, [], ◌∷◌,
  ◌++◌, if◌then◌else◌, Bool-cases, Option-cases, All,
}
use windows_command_runner.Error.{Result, ok, err, Result-cases}
use windows_command_runner.Channel.{ChannelApi, ReceiverApi}
use windows_command_runner.Protocol.Bytes.{Endian, BytesApi}
use windows_command_runner.Protocol.Frame.{Frame, StreamId}
use windows_command_runner.Pipe.Io.{PipeApi, read_frame, write_frame}
use windows_command_runner.Pipe.Delivery.{PipeLaws}
use windows_command_runner.Windows.{Hresults}
use windows_command_runner.Pump.Window.{StreamPump}
use windows_command_runner.Pump.Output.{
  Round, output_frame, eos_frame, wrapping_add_one, returned as returned_pump, start_output_pump,
}
use windows_command_runner.Pump.Frames.{
  reads as pump_reads, frames_from, start_output_pump-delivered,
}
use windows_command_runner.Job.Invariant.{Inv}
use windows_command_runner.Job.Manager.{JobManager}
use windows_command_runner.Server.Session.{
  SessionApi, Next, continue, stop, handle_frame, send_or_ignore,
}
use windows_command_runner.Server.Senders.{HasBytes}
use windows_command_runner.Server.Writer.{all_framed}
use windows_command_runner.Server.Connection.{
  Loop, serving, served, WriterTask, writing, broken, drained, has_task, Turn, reads, sends, ends,
  writes, calls, Connection, new_connection, after_frame, after_writing, is_closed, read_turn,
  write_turn, if_serving, if_writing, turn, run_turns, returned,
}
use windows_command_runner.Server.Sound.Turns.{Fits}
use windows_command_runner.Server.Delivered.{IsFresh, run_turns-returned}
use windows_command_runner.Server.Streams.{
  on_stream, of_stream, IsQuiet, send-of_stream, send_or_ignore-IsQuiet, handle_frame-IsQuiet,
}

-- What the turns of a schedule send on a stream of a job.
abbrev pub sent_on : ℕ → StreamId → List Turn → List Frame
sent_on id stream [] = []
sent_on id stream (sends f ∷ ts) =
    if on_stream id stream f then f ∷ sent_on id stream ts else sent_on id stream ts
sent_on id stream (_ ∷ ts) = sent_on id stream ts

-- The payloads of frames, one after the other.
unfoldable pub payloads : List Frame → List ℕ
payloads [] = []
payloads (f ∷ fs) = f.payload ++ payloads fs

unfoldable pub joined : List (List ℕ) → List ℕ
joined [] = []
joined (c ∷ cs) = c ++ joined cs

-- The payloads of the frames that a pump sends are the chunks that it read.
payloads-frames_from :
    (id : ℕ) (stream : StreamId) (n : ℕ) (chunks : List (List ℕ))
    → payloads (frames_from id stream n chunks) ≡ joined chunks
unfolding payloads joined frames_from output_frame eos_frame
payloads-frames_from id stream n [] = refl
payloads-frames_from id stream n (c ∷ cs) =
    ap (◌++◌ c) (payloads-frames_from id stream (wrapping_add_one n) cs)

module _ (channel : ChannelApi) (receiver : ReceiverApi channel) (pipe : PipeApi) (bytes : BytesApi)
    (e : Endian) (api : SessionApi) (id : ℕ) (stream : StreamId) where
  open channel use {Sender, send, delivered}
  open receiver use {recv, close, delivered-recv, delivered-close}
  open pipe use {Pipe}

  -- Every frame of the stream is sent by a task of its job, and the send succeeds.
  abbrev pub Accepted : Connection channel receiver pipe → List Turn → Type 0
  Accepted c [] = Unit {0}
  Accepted c (sends f ∷ ts) =
      ((on_stream id stream f ≡ false)
        ⊎ ((has_task f.job_id c.tasks ≡ true) × ((s : Sender) × (send c.frames f ≡ some s))))
      × Accepted (turn channel receiver pipe bytes e api c (sends f)) ts
  Accepted c (t ∷ ts) = Accepted (turn channel receiver pipe bytes e api c t) ts

  -- A turn that hands over no output of the stream.
  abbrev IsSilent : Connection channel receiver pipe → Connection channel receiver pipe → Type 0
  IsSilent c d = IsQuiet channel id stream c.frames d.frames

  after_frame-IsSilent :
      (c : Connection channel receiver pipe) (s : Sender) (r : JobManager × Sender × Next)
      → IsQuiet channel id stream s r.1
      → IsQuiet channel id stream s (after_frame channel receiver pipe c r).frames
  after_frame-IsSilent c s (m, t, continue spawned) q = q
  after_frame-IsSilent c s (m, t, stop r) q = q

  read_turn-IsSilent :
      (c : Connection channel receiver pipe) (clock : ℕ → ℕ)
      → IsSilent c (read_turn channel receiver pipe bytes e api c clock)
  unfolding read_turn
  read_turn-IsSilent c clock = elim (Result-cases (read_frame pipe c.pipe_state).1) [
    | inl (frame, r) ↦
        rw (r, read_turn)
          (after_frame-IsSilent (record c { pipe_state = (read_frame pipe c.pipe_state).0 })
            c.frames (handle_frame channel api clock frame.frame_type c.manager c.frames frame)
            (handle_frame-IsQuiet channel id stream api clock frame.frame_type c.manager c.frames
              frame))
    | inr (x, r) ↦ rw (r, read_turn) refl
  ]

  after_writing-IsSilent :
      (c : Connection channel receiver pipe) (s : Sender) (r : Option (Pipe × Result (Unit {0})))
      → IsQuiet channel id stream c.frames s
      → IsSilent c (after_writing channel receiver pipe c s r)
  after_writing-IsSilent c s none q = refl
  after_writing-IsSilent c s (some (p, ok _)) q = q
  after_writing-IsSilent c s (some (p, err x)) q = ap (of_stream id stream) (delivered-close s) ∙ q

  write_turn-IsSilent :
      (c : Connection channel receiver pipe)
      → IsSilent c (write_turn channel receiver pipe bytes e api c)
  unfolding write_turn
  write_turn-IsSilent c = elim (Option-cases (recv c.frames)) [
    | inr ((f, s), got) ↦
        rw (got, write_turn)
          (after_writing-IsSilent c s (write_frame pipe bytes e c.pipe_state f)
            (ap (of_stream id stream) (delivered-recv c.frames s f got)))
    | inl empty ↦ elim (Bool-cases (is_closed c.loop c.tasks)) [
      | inl over ↦
          rw (empty, write_turn) (rw over (ap (of_stream id stream) (delivered-close c.frames)))
      | inr waits ↦ rw (empty, write_turn) (rw waits refl)
    ]
  ]

  if_serving-IsSilent :
      (l : Loop) (c d : Connection channel receiver pipe)
      → IsSilent c d
      → IsSilent c (if_serving channel receiver pipe l c d)
  if_serving-IsSilent serving c d q = q
  if_serving-IsSilent (served r) c d q = refl

  if_writing-IsSilent :
      (w : WriterTask) (c d : Connection channel receiver pipe)
      → IsSilent c d
      → IsSilent c (if_writing channel receiver pipe w c d)
  if_writing-IsSilent writing c d q = q
  if_writing-IsSilent broken c d q = refl
  if_writing-IsSilent drained c d q = refl

  -- What was handed over on the stream after a schedule.
  run_turns-of_stream :
      (c : Connection channel receiver pipe) (ts : List Turn)
      → Accepted c ts
      → of_stream id stream (delivered (run_turns channel receiver pipe bytes e api c ts).frames)
        ≡ of_stream id stream (delivered c.frames) ++ sent_on id stream ts
  unfolding run_turns turn of_stream
  run_turns-of_stream c [] a = sym (append-nil _)
  run_turns-of_stream c (reads clock ∷ ts) a =
      run_turns-of_stream (turn channel receiver pipe bytes e api c (reads clock)) ts a
      ∙ ap (λ fs. fs ++ sent_on id stream ts)
          (if_serving-IsSilent c.loop c _ (read_turn-IsSilent c clock))
  run_turns-of_stream c (writes ∷ ts) a =
      run_turns-of_stream (turn channel receiver pipe bytes e api c writes) ts a
      ∙ ap (λ fs. fs ++ sent_on id stream ts)
          (if_writing-IsSilent c.writer c _ (write_turn-IsSilent c))
  run_turns-of_stream c (ends job ∷ ts) a =
      run_turns-of_stream (turn channel receiver pipe bytes e api c (ends job)) ts a
  run_turns-of_stream c (calls now call ∷ ts) a =
      run_turns-of_stream (turn channel receiver pipe bytes e api c (calls now call)) ts a
  run_turns-of_stream c (sends f ∷ ts) (own, a) =
      let rest = run_turns-of_stream (turn channel receiver pipe bytes e api c (sends f)) ts a in
      elim (Bool-cases (on_stream id stream f)) [
        | inr off ↦ rest ∙ rw off (ap (λ fs. fs ++ sent_on id stream ts) (silent off))
        | inl on ↦ elim own [
          | inl off ↦ absurd (cc (on, off))
          | inr (task, (s, sent)) ↦
              let grown = send-of_stream channel id stream c.frames s f sent in
              rest
              ∙ rw (on, task)
                  (rw (sent, send_or_ignore)
                    (rw grown (
                      rw on (
                        append_assoc (of_stream id stream (delivered c.frames)) (f ∷ [])
                          (sent_on id stream ts)))))
        ]
      ]
    where
      silent :
          on_stream id stream f ≡ false
          → IsSilent c (turn channel receiver pipe bytes e api c (sends f))
      silent off = elim (Bool-cases (has_task f.job_id c.tasks)) [
        | inl task ↦ rw task (send_or_ignore-IsQuiet channel id stream c.frames f off)
        | inr other ↦ rw other refl
      ]

  module _ (laws : PipeLaws pipe) (texts : HasBytes api) where
    open laws use {written}

    module _ (w : Hresults) (pump_channel : ChannelApi) where
      -- The output of a job arrives whole. When `handle_client` returns and no write has failed,
      -- and the frames that were sent on a stream of a job are those that a blocking output pump
      -- has put on its end of the channel until it returned without an error, each sent by a task
      -- of the job with success, then among the frames written on the pipe, each with its length
      -- and nothing else, those of the stream are one frame for each chunk that the pump read, in
      -- order and numbered from 0, and the end-of-stream frame, and their payloads put together are
      -- the chunks put together. The channel was fresh, the manager satisfied its invariant, the
      -- message of a failed launch is made of bytes, and the fields of the frames that the tasks
      -- send are in range.
      pub run_turns-output :
          (p : Pipe) (m : JobManager) (s : Sender) (ts : List Turn)
          (c : Connection channel receiver pipe) (r : Result (Unit {0})) (pump pump' : StreamPump)
          (t t' : pump_channel.Sender) (rounds : List Round)
          → run_turns channel receiver pipe bytes e api
              (new_connection channel receiver pipe p m s)
              ts
            ≡ c
          → Inv m
          → IsFresh channel receiver pipe laws e api texts s
          → All Fits ts
          → Accepted (new_connection channel receiver pipe p m s) ts
          → pump.drop_policy ≡ false
          → start_output_pump pump_channel w id stream pump t rounds
            ≡ returned_pump pump' t' (ok tt)
          → pump_channel.delivered t' ≡ pump_channel.delivered t ++ sent_on id stream ts
          → c.writer ≢ broken
          → returned channel receiver pipe c ≡ some r
          → (fs : List Frame) × (written c.pipe_state ≡ written p ++ all_framed e fs)
            × (of_stream id stream fs ≡ frames_from id stream 0 (pump_reads w rounds))
            × (payloads (of_stream id stream fs) ≡ joined (pump_reads w rounds))
      unfolding of_stream
      run_turns-output p m s ts c r pump pump' t t' rounds now v fresh small a policy pumped sent
            whole done =
          let (_, wrote) =
            run_turns-returned channel receiver pipe laws e api texts bytes p m s ts c now r v fresh
              small whole done in
          let put : sent_on id stream ts ≡ frames_from id stream 0 (pump_reads w rounds) =
            append_cancel_left (pump_channel.delivered t) (sent_on id stream ts)
              (frames_from id stream 0 (pump_reads w rounds))
              (sym sent
                ∙ start_output_pump-delivered pump_channel w id stream pump t rounds pump' t' policy
                    pumped) in
          let same : of_stream id stream (delivered c.frames)
              ≡ frames_from id stream 0 (pump_reads w rounds) =
            rw now at (run_turns-of_stream (new_connection channel receiver pipe p m s) ts a)
            ∙ rw (fresh.0, put) refl in
          (
            delivered c.frames,
            wrote,
            same,
            ap payloads same ∙ payloads-frames_from id stream 0 (pump_reads w rounds),
          )
