-- ===== src/Server/Sound/Writing.antt =====
-- The turns of the writer task of `handle_client` in src/pipe_server.rs keep the invariant of
-- Server.Sound.
use mathlib.Core.List.{append_assoc, append-nil}
use windows_command_runner.Base.{
  ℕ, ◌≡◌, sym, ◌∙◌, inl, inr, Option, none, some, List, [], ◌∷◌, ◌++◌, All, Bool-cases,
  Option-cases,
}
use windows_command_runner.Error.{Result, ok, err}
use windows_command_runner.Channel.{ChannelApi, ReceiverApi}
use windows_command_runner.Protocol.Bytes.{Endian, BytesApi}
use windows_command_runner.Protocol.Frame.{Frame}
use windows_command_runner.Pipe.Io.{PipeApi}
use windows_command_runner.Pipe.Delivery.{PipeLaws, Writes}
use windows_command_runner.Pipe.Transport.{
  framed, write_frame-Writes, WasSmall, write_frame-WasSmall,
}
use windows_command_runner.Server.Session.{SessionApi}
use windows_command_runner.Server.Announced.{All-append}
use windows_command_runner.Server.Writer.{all_framed, all_framed-append}
use windows_command_runner.Protocol.Frame.{IsFrame}
use windows_command_runner.Server.Connection.{
  writing, Connection, after_writing, is_closed, write_turn,
}
use windows_command_runner.Server.Sound.{IsSmall, IsSound}

All-front : (P : Frame → Type 0) (xs ys : List Frame) → All P (xs ++ ys) → All P xs
All-front P [] ys a = tt
All-front P (x ∷ xs) ys (h, a) = (h, All-front P xs ys a)

All-last : (P : Frame → Type 0) (xs : List Frame) (f : Frame) → All P (xs ++ f ∷ []) → P f
All-last P [] f (h, _) = h
All-last P (x ∷ xs) f (_, a) = All-last P xs f a

module _ (channel : ChannelApi) (receiver : ReceiverApi channel) (pipe : PipeApi)
    (laws : PipeLaws pipe) (e : Endian) (api : SessionApi) where
  open channel use {Sender, send, delivered}
  open receiver use {
    recv, close, received, received-recv, delivered-recv, received_front, recv-none, received-close,
    delivered-close,
  }
  open pipe use {Pipe}
  open laws use {written}

  module _ (start : List ℕ) where
    abbrev Sound : Connection channel receiver pipe → Type 0
    Sound c = IsSound channel receiver pipe laws e start c

    module _ (bytes : BytesApi) where
      after_writing-IsSound :
          (c : Connection channel receiver pipe) (s : Sender) (f : Frame)
          (r : Option (Pipe × Result (Unit {0})))
          → Sound c
          → c.writer ≡ writing
          → recv c.frames ≡ some (f, s)
          → Writes pipe laws c.pipe_state (framed e f) r
          → WasSmall pipe laws f r
          → Sound (after_writing channel receiver pipe c s r)
      after_writing-IsSound c s f none v on got w fit = absurd w
      after_writing-IsSound c s f (some (p, ok _)) v on got w fit =
          let same = delivered-recv c.frames s f got in
          let before : (written c.pipe_state ≡ start ++ all_framed e (received c.frames))
              × All IsSmall (received c.frames) =
            rw on at v.wrote in
          record {
            kept = v.kept;
            valid = rw same v.valid;
            announced = rw same v.announced;
            acknowledged = rw same v.acknowledged;
            wrote = rw on (
              w
                  ∙ rw
                      (
                        before.0,
                        received-recv c.frames s f got,
                        all_framed-append e (received c.frames) (f ∷ []),
                        append_assoc,
                      )
                      (unfold all_framed in simp append-nil),
              rw (received-recv c.frames s f got)
                  (All-append IsSmall (received c.frames) (f ∷ []) before.1 (fit, tt)),
            );
          }
      after_writing-IsSound c s f (some (p, err x)) v on got w fit =
          let same = delivered-close s ∙ delivered-recv c.frames s f got in
          record {
            kept = v.kept;
            valid = rw same v.valid;
            announced = rw same v.announced;
            acknowledged = rw same v.acknowledged;
            wrote = tt;
          }

      pub received-IsFrame :
          (s t : Sender) (f : Frame) → All IsFrame (delivered s) → recv s ≡ some (f, t) → IsFrame f
      received-IsFrame s t f a got =
          let (rest, front) = received_front t in
          All-last IsFrame (received s) f (
            rw (received-recv s t f got) at (
              All-front IsFrame (received t) rest
                (rw (front) at (rw (← delivered-recv s t f got) at a))))

      pub write_turn-IsSound :
          (c : Connection channel receiver pipe)
          → Sound c
          → c.writer ≡ writing
          → Sound (write_turn channel receiver pipe bytes e api c)
      unfolding write_turn
      write_turn-IsSound c v on = elim (Option-cases (recv c.frames)) [
        | inr ((f, s), got) ↦
            let valid = received-IsFrame c.frames s f v.valid got in
            rw (got, write_turn)
              (after_writing-IsSound c s f _ v on got
                (write_frame-Writes pipe laws bytes e c.pipe_state f valid)
                (write_frame-WasSmall pipe laws bytes e c.pipe_state f valid))
        | inl empty ↦ elim (Bool-cases (is_closed c.loop c.tasks)) [
          | inr waits ↦ rw (empty, write_turn) (rw waits v)
          | inl over ↦
              let before : (written c.pipe_state ≡ start ++ all_framed e (received c.frames))
                  × All IsSmall (received c.frames) =
                rw on at v.wrote in
              let same = delivered-close c.frames in
              rw (empty, write_turn)
                (rw over (record {
                  kept = v.kept;
                  valid = rw same v.valid;
                  announced = rw same v.announced;
                  acknowledged = rw same v.acknowledged;
                  wrote = (
                    rw (received-close c.frames) before.0,
                    rw (received-close c.frames) before.1,
                    received-close c.frames ∙ recv-none c.frames empty ∙ sym same,
                    over,
                  );
                }))
        ]
      ]
