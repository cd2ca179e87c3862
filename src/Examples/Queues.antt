-- ===== src/Examples/Queues.antt =====
-- A frame channel with both its ends: the frames received, those that wait, and whether the
-- receiver is there.
use mathlib.Core.List.{append_assoc, append-nil}
use windows_command_runner.Base.{
  ◌≡◌, refl, sym, Bool, true, false, Option, none, some, List, [], ◌∷◌, ◌++◌,
}
use windows_command_runner.Protocol.Frame.{Frame}
use windows_command_runner.Channel.{ChannelApi, ReceiverApi}

pub record Queue : Type 0 where
  pub taken : List Frame
  pub waiting : List Frame
  pub is_open : Bool

abbrev push : Queue → Bool → Frame → Option Queue
push s true f = some (record s { waiting = s.waiting ++ f ∷ [] })
push s false f = none

abbrev pop : Queue → List Frame → Option (Frame × Queue)
pop s [] = none
pop s (f ∷ fs) = some (f, record s { taken = s.taken ++ f ∷ []; waiting = fs })

abbrev pub all_frames : Queue → List Frame
all_frames s = s.taken ++ s.waiting

pub push-all_frames :
    (s t : Queue) (b : Bool) (f : Frame)
    → push s b f ≡ some t
    → all_frames t ≡ all_frames s ++ f ∷ []
push-all_frames s t false f e = cc
push-all_frames s t true f e =
    let same : record s { waiting = s.waiting ++ f ∷ [] } ≡ t = cc in
    rw (sym same) (sym (append_assoc s.taken s.waiting (f ∷ [])))

pub push-taken : (s t : Queue) (b : Bool) (f : Frame) → push s b f ≡ some t → t.taken ≡ s.taken
push-taken s t false f e = cc
push-taken s t true f e =
    let same : record s { waiting = s.waiting ++ f ∷ [] } ≡ t = cc in rw (sym same) refl

pub pop-taken :
    (s t : Queue) (fs : List Frame) (f : Frame)
    → pop s fs ≡ some (f, t)
    → t.taken ≡ s.taken ++ f ∷ []
pop-taken s t [] f e = cc
pop-taken s t (g ∷ gs) f e =
    let same : record s { taken = s.taken ++ g ∷ []; waiting = gs } ≡ t = cc in
    let first : g ≡ f = cc in rw (sym same, first) refl

pub pop-all_frames :
    (s t : Queue) (fs : List Frame) (f : Frame)
    → s.waiting ≡ fs
    → pop s fs ≡ some (f, t)
    → all_frames t ≡ all_frames s
pop-all_frames s t [] f w e = cc
pop-all_frames s t (g ∷ gs) f w e =
    let same : record s { taken = s.taken ++ g ∷ []; waiting = gs } ≡ t = cc in
    rw (sym same, w) (append_assoc s.taken (g ∷ []) gs)

pub pop-none :
    (s : Queue) (fs : List Frame) → s.waiting ≡ fs → pop s fs ≡ none → s.taken ≡ all_frames s
pop-none s [] w e = rw w (sym (append-nil s.taken))
pop-none s (f ∷ fs) w e = cc

abbrev pub queue_channel : ChannelApi
queue_channel = record {
  Sender = Queue;
  send = λ s f. push s s.is_open f;
  delivered = all_frames;
  delivered-send = λ s t f. push-all_frames s t s.is_open f;
}

abbrev pub queue_receiver : ReceiverApi queue_channel
queue_receiver = record {
  recv = λ s. pop s s.waiting;
  close = λ s. record s { is_open = false };
  received = λ s. s.taken;
  received-send = λ s t f. push-taken s t s.is_open f;
  received-recv = λ s t f. pop-taken s t s.waiting f;
  delivered-recv = λ s t f. pop-all_frames s t s.waiting f refl;
  received_front = λ s. (s.waiting, refl);
  recv-none = λ s. pop-none s s.waiting refl;
  received-close = λ s. refl;
  delivered-close = λ s. refl;
}

abbrev pub empty_queue : Queue
empty_queue = record { taken = []; waiting = []; is_open = true }
