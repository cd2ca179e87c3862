-- ===== src/Server/Returns.antt =====
-- `handle_client` of src/pipe_server.rs returns: once the request loop has ended and the tasks of
-- the jobs too, the writer writes what is left and ends.
use windows_command_runner.Base.{
  ℕ, suc, ◌+◌, ◌<◌, ◌≡◌, ◌≢◌, refl, ap, ◌⊎◌, inl, inr, true, false, Option, none, some, List, [],
  ◌∷◌, arith, All, Option-cases, length, length-append,
}
use windows_command_runner.Error.{Result, ok, err}
use windows_command_runner.Channel.{ChannelApi, ReceiverApi}
use windows_command_runner.Protocol.Bytes.{Endian, BytesApi}
use windows_command_runner.Protocol.Frame.{Frame}
use windows_command_runner.Pipe.Io.{PipeApi}
use windows_command_runner.Pipe.Delivery.{PipeLaws, Writes}
use windows_command_runner.Pipe.Transport.{framed, write_frame-Writes}
use windows_command_runner.Job.Invariant.{Inv}
use windows_command_runner.Job.Manager.{JobManager}
use windows_command_runner.Server.Session.{SessionApi}
use windows_command_runner.Server.Senders.{HasBytes}
use windows_command_runner.Server.Connection.{
  Loop, serving, served, WriterTask, writing, broken, drained, has_task, without_task, returned,
  returned_when, new_connection, is_closed, Turn, reads, sends, ends, writes, calls, Connection,
  after_writing, write_turn, turn, run_turns, if_serving, if_writing,
}
use windows_command_runner.Server.Sound.{IsSound}
use windows_command_runner.Server.Sound.Writing.{received-IsFrame}
use windows_command_runner.Server.Sound.Turns.{Fits, turn-IsSound}
use windows_command_runner.Server.Delivered.{IsFresh, run-IsSound}

-- The turns of the writer in a schedule.
abbrev pub count_writes : List Turn → ℕ
count_writes [] = 0
count_writes (writes ∷ ts) = suc (count_writes ts)
count_writes (_ ∷ ts) = count_writes ts

writing_or_not : (w : WriterTask) → (w ≡ writing) ⊎ (w ≢ writing)
writing_or_not writing = inl refl
writing_or_not broken = inr (λ h. cc)
writing_or_not drained = inr (λ h. cc)

module _ (channel : ChannelApi) (receiver : ReceiverApi channel) (pipe : PipeApi)
    (laws : PipeLaws pipe) (e : Endian) (api : SessionApi) (texts : HasBytes api)
    (bytes : BytesApi) where
  open channel use {Sender, delivered}
  open receiver use {recv, close, received, received-recv, delivered-recv, received_front}
  open pipe use {Pipe}
  open laws use {written}

  -- The loop has ended with a result and so have all tasks, and a number of turns of the writer is
  -- enough for the frames that are left.
  record IsClosing (result : Result (Unit {0})) (n : ℕ) (c : Connection channel receiver pipe)
      : Type 0 where
    over : c.loop ≡ served result
    alone : c.tasks ≡ []
    enough : c.writer ≡ writing → length (delivered c.frames) < length (received c.frames) + n

  module _ (start : List ℕ) (result : Result (Unit {0})) where
    if_serving-IsClosing :
        (n : ℕ) (l : Loop) (c d : Connection channel receiver pipe)
        → l ≡ served result
        → IsClosing result n c
        → IsClosing result n (if_serving channel receiver pipe l c d)
    if_serving-IsClosing n serving c d h v = cc
    if_serving-IsClosing n (served r) c d h v = v

    if_writing-IsClosing :
        (n : ℕ) (w : WriterTask) (c d : Connection channel receiver pipe)
        → (w ≢ writing → IsClosing result n c)
        → (w ≡ writing → IsClosing result n d)
        → IsClosing result n (if_writing channel receiver pipe w c d)
    if_writing-IsClosing n writing c d f g = g refl
    if_writing-IsClosing n broken c d f g = f (λ h. cc)
    if_writing-IsClosing n drained c d f g = f (λ h. cc)

    after_writing-IsClosing :
        (n : ℕ) (c : Connection channel receiver pipe) (s : Sender) (f : Frame)
        (r : Option (Pipe × Result (Unit {0})))
        → IsClosing result (suc n) c
        → c.writer ≡ writing
        → recv c.frames ≡ some (f, s)
        → Writes pipe laws c.pipe_state (framed e f) r
        → IsClosing result n (after_writing channel receiver pipe c s r)
    after_writing-IsClosing n c s f none v on got w = absurd w
    after_writing-IsClosing n c s f (some (p, ok _)) v on got w = record {
      over = v.over;
      alone = v.alone;
      enough = λ h.
          rw (delivered-recv c.frames s f got, received-recv c.frames s f got)
            (omega (arith, v.enough on, length-append (received c.frames) (f ∷ [])));
    }
    after_writing-IsClosing n c s f (some (p, err x)) v on got w = record {
      over = v.over;
      alone = v.alone;
      enough = λ h. absurd (cc);
    }

    write_turn-IsClosing :
        (n : ℕ) (c : Connection channel receiver pipe)
        → IsSound channel receiver pipe laws e start c
        → IsClosing result (suc n) c
        → c.writer ≡ writing
        → IsClosing result n (write_turn channel receiver pipe bytes e api c)
    unfolding write_turn
    write_turn-IsClosing n c sound v on = elim (Option-cases (recv c.frames)) [
      | inr ((f, s), got) ↦
          let valid =
            received-IsFrame channel receiver pipe laws e api start bytes c.frames s f sound.valid
              got in
          rw (got, write_turn)
            (after_writing-IsClosing n c s f _ v on got
              (write_frame-Writes pipe laws bytes e c.pipe_state f valid))
      | inl empty ↦
          let closed : is_closed c.loop c.tasks ≡ true = rw (v.over, v.alone) refl in
          rw (empty, write_turn)
            (rw closed (record { over = v.over; alone = v.alone; enough = λ h. absurd (cc) }))
    ]

    turn-IsClosing :
        (n : ℕ) (c : Connection channel receiver pipe) (t : Turn) (ts : List Turn)
        → IsSound channel receiver pipe laws e start c
        → IsClosing result (count_writes (t ∷ ts)) c
        → IsClosing result (count_writes ts) (turn channel receiver pipe bytes e api c t)
    unfolding turn has_task without_task
    turn-IsClosing n c (reads clock) ts sound v =
        if_serving-IsClosing (count_writes ts) c.loop c _ v.over v
    turn-IsClosing n c (sends f) ts sound v =
        let other : has_task f.job_id c.tasks ≡ false = rw v.alone refl in rw other v
    turn-IsClosing n c (ends id) ts sound v = record {
      over = v.over;
      alone = rw v.alone refl;
      enough = v.enough;
    }
    turn-IsClosing n c writes ts sound v =
        if_writing-IsClosing (count_writes ts) c.writer c _
          (λ off. record { over = v.over; alone = v.alone; enough = λ on. absurd (off on) })
          (write_turn-IsClosing (count_writes ts) c sound v)
    turn-IsClosing n c (calls now call) ts sound v = record {
      over = v.over;
      alone = v.alone;
      enough = v.enough;
    }

    run_turns-IsClosing :
        (c : Connection channel receiver pipe) (ts : List Turn)
        → IsSound channel receiver pipe laws e start c
        → All Fits ts
        → IsClosing result (count_writes ts) c
        → IsClosing result 0 (run_turns channel receiver pipe bytes e api c ts)
    unfolding run_turns
    run_turns-IsClosing c [] sound small v = v
    run_turns-IsClosing c (t ∷ ts) sound (h, small) v =
        run_turns-IsClosing (turn channel receiver pipe bytes e api c t) ts
          (turn-IsSound channel receiver pipe laws e api texts start bytes c t sound h) small
          (turn-IsClosing (count_writes ts) c t ts sound v)

    IsClosing-returned :
        (c : Connection channel receiver pipe)
        → IsClosing result 0 c
        → returned channel receiver pipe c ≡ some result
    IsClosing-returned c v =
        let (rest, front) = received_front c.frames in
        let idle : c.writer ≢ writing = λ on.
          omega (arith, v.enough on, ap length front, length-append (received c.frames) rest) in
        rw v.over (ended c.writer idle)
      where
        ended : (w : WriterTask) → w ≢ writing → returned_when (served result) w ≡ some result
        ended writing n = absurd (n refl)
        ended broken n = refl
        ended drained n = refl

  -- When the request loop of a session has ended and no task of its jobs is left, `handle_client`
  -- returns the result of the loop after every further schedule in which the writer gets a turn for
  -- each frame that is left and one more, whatever else happens, and also if a write fails. The
  -- channel was fresh, the manager satisfied its invariant, the message of a failed launch is made
  -- of bytes, and the fields of the frames that the tasks send are in range.
  pub run_turns-returns :
      (p : Pipe) (m : JobManager) (s : Sender) (ts more : List Turn)
      (c : Connection channel receiver pipe) (result : Result (Unit {0}))
      → run_turns channel receiver pipe bytes e api (new_connection channel receiver pipe p m s) ts
        ≡ c
      → Inv m
      → IsFresh channel receiver pipe laws e api texts s
      → All Fits ts
      → All Fits more
      → c.loop ≡ served result
      → c.tasks ≡ []
      → length (delivered c.frames) < length (received c.frames) + count_writes more
      → returned channel receiver pipe (run_turns channel receiver pipe bytes e api c more)
        ≡ some result
  run_turns-returns p m s ts more c result now v fresh small small' over alone enough =
      let sound =
        run-IsSound channel receiver pipe laws e api texts bytes p m s ts c now v fresh small in
      IsClosing-returned (written p) result _ (
        run_turns-IsClosing (written p) result c more sound small'
          (record { over = over; alone = alone; enough = λ _. enough }))
