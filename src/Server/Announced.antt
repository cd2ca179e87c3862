-- ===== src/Server/Announced.antt =====
-- The order of the frames that src/pipe_server.rs sends about a job: first its RUN_ACK.
use mathlib.Core.List.{append_assoc, append-nil}
use windows_command_runner.Base.{
  ℕ, ◌≡◌, Bool, true, false, List, [], ◌∷◌, ◌++◌, ◌==◌, if◌then◌else◌, arith, All,
}
use windows_command_runner.Protocol.Frame.{Frame, FrameType}

abbrev pub is_run_ack : FrameType → Bool
is_run_ack FrameType.run_ack = true
is_run_ack _ = false

-- The RUN_ACK of a job is among some frames.
unfoldable pub acked : ℕ → List Frame → Bool
acked id [] = false
acked id (f ∷ fs) =
    let rest = acked id fs in
    if is_run_ack f.frame_type then if f.job_id == id then true else rest else rest

-- Some frames, after others: each that is not a RUN_ACK comes after the RUN_ACK of its job.
abbrev pub Announced : List Frame → List Frame → Type 0
Announced seen [] = Unit {0}
Announced seen (f ∷ fs) =
    (is_run_ack f.frame_type ≡ false → acked f.job_id seen ≡ true) × Announced (seen ++ f ∷ []) fs

pub acked-append : (id : ℕ) (xs ys : List Frame) → acked id xs ≡ true → acked id (xs ++ ys) ≡ true
unfolding acked
acked-append id (f ∷ fs) ys h = ground (arith, acked-append id fs ys)
acked-append id [] ys h = cc

pub acked-append_right :
    (id : ℕ) (xs ys : List Frame) → acked id ys ≡ true → acked id (xs ++ ys) ≡ true
unfolding acked
acked-append_right id (f ∷ fs) ys h = ground (arith, acked-append_right id fs ys)
acked-append_right id [] ys h = h

pub Announced-append :
    (seen xs ys : List Frame)
    → Announced seen xs
    → Announced (seen ++ xs) ys
    → Announced seen (xs ++ ys)
Announced-append seen [] ys a b = rw (append-nil seen) at b
Announced-append seen (f ∷ fs) ys (h, a) b =
    (h, Announced-append (seen ++ f ∷ []) fs ys a (rw (append_assoc seen (f ∷ []) fs) b))

pub All-append : (P : Frame → Type 0) (xs ys : List Frame) → All P xs → All P ys → All P (xs ++ ys)
All-append P [] ys a b = b
All-append P (x ∷ xs) ys (h, a) b = (h, All-append P xs ys a b)
