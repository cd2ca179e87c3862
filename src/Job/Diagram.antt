-- ===== src/Job/Diagram.antt =====
-- The state machine of a job as a diagram: which states are final, and how long a life can be.
use windows_command_runner.Base.{
  ℕ, ◌+◌, ◌≤◌, ◌<◌, ◌≡◌, ◌↔◌, ◌⊎◌, inl, inr, refl, true, false, List, [], ◌∷◌, arith, length,
}
use windows_command_runner.Job.State.{
  JobState, created, starting, running, exiting, completed, failed, canceled, timed_out,
  can_transition_to, is_terminal,
}

-- The edges of the diagram in ARCHITECTURE.md, section 3.2.
infix 40 ◌⟶◌
pub data ◌⟶◌ : JobState → JobState → Type 0 where
  start : created ⟶ starting
  launch : starting ⟶ running
  launch_fails : starting ⟶ failed
  process_exits : running ⟶ exiting
  cancel : running ⟶ canceled
  time_out : running ⟶ timed_out
  finish : exiting ⟶ completed
  drain_fails : exiting ⟶ failed

-- The edges that the diagram does not have and the code permits.
pub data IsUndocumented : JobState → JobState → Type 0 where
  run_fails : IsUndocumented running failed
  cancel_created : IsUndocumented created canceled
  cancel_starting : IsUndocumented starting canceled
  cancel_exiting : IsUndocumented exiting canceled

ruleset edges = (
  start, launch, launch_fails, process_exits, cancel, time_out, finish, drain_fails, run_fails,
  cancel_created, cancel_starting, cancel_exiting,
)

can_transition_to-⟶ : (s t : JobState) → can_transition_to s t ≡ true → (s ⟶ t) ⊎ IsUndocumented s t
unfolding can_transition_to is_terminal
can_transition_to-⟶ s t h = grind (arith, edges)

⟶-can_transition_to : (s t : JobState) → s ⟶ t → can_transition_to s t ≡ true
unfolding can_transition_to is_terminal
⟶-can_transition_to s t start = refl
⟶-can_transition_to s t launch = refl
⟶-can_transition_to s t launch_fails = refl
⟶-can_transition_to s t process_exits = refl
⟶-can_transition_to s t cancel = refl
⟶-can_transition_to s t time_out = refl
⟶-can_transition_to s t finish = refl
⟶-can_transition_to s t drain_fails = refl

IsUndocumented-can_transition_to :
    (s t : JobState) → IsUndocumented s t → can_transition_to s t ≡ true
unfolding can_transition_to is_terminal
IsUndocumented-can_transition_to s t run_fails = refl
IsUndocumented-can_transition_to s t cancel_created = refl
IsUndocumented-can_transition_to s t cancel_starting = refl
IsUndocumented-can_transition_to s t cancel_exiting = refl

-- The test of the code accepts the edges of the documented diagram, four edges that the diagram
-- does not have, which are the failure of a running job and the cancellation of a job that is
-- created, starting or exiting, and no other.
pub can_transition_to_iff :
    (s t : JobState) → (can_transition_to s t ≡ true) ↔ ((s ⟶ t) ⊎ IsUndocumented s t)
can_transition_to_iff s t = (
  can_transition_to-⟶ s t,
  λ edge. elim edge [
    | inl documented ↦ ⟶-can_transition_to s t documented
    | inr extra ↦ IsUndocumented-can_transition_to s t extra
  ],
)

-- A state is terminal exactly when no transition leaves it, and exactly the other states allow
-- a job to be canceled.
pub is_terminal_iff :
    (s : JobState)
    → ((is_terminal s ≡ true) ↔ ((t : JobState) → can_transition_to s t ≡ false))
      × ((is_terminal s ≡ false) ↔ (can_transition_to s canceled ≡ true))
unfolding can_transition_to is_terminal
is_terminal_iff s =
    ((λ h t. ground arith, λ h. ground (arith, h canceled)), (λ h. ground arith, λ h. ground arith))

pub leaves_active : (s t : JobState) → can_transition_to s t ≡ true → is_terminal s ≡ false
unfolding can_transition_to is_terminal
leaves_active s t h = ground arith

-- A list of states through which a job passes, by permitted transitions.
abbrev pub IsLife : JobState → List JobState → Type 0
IsLife s [] = Unit {0}
IsLife s (t ∷ ts) = (can_transition_to s t ≡ true) × IsLife t ts

rank : JobState → ℕ
rank created = 0
rank starting = 1
rank running = 2
rank exiting = 3
rank _ = 4

rank-lt : (s t : JobState) → can_transition_to s t ≡ true → (rank s < rank t) × (rank t ≤ 4)
unfolding can_transition_to rank
rank-lt s t h = ground arith

IsLife-rank :
    (s : JobState) (ts : List JobState) → IsLife s ts → rank s ≤ 4 → length ts + rank s ≤ 4
IsLife-rank s [] l h = omega arith
IsLife-rank s (t ∷ ts) l h =
    omega (arith, rank-lt s t l.0, IsLife-rank t ts l.1 (rank-lt s t l.0).1)

-- A job makes at most four transitions: none of its lives is longer.
life_bounded : (ts : List JobState) → IsLife created ts → length ts ≤ 4
unfolding rank
life_bounded ts l = omega (arith, IsLife-rank created ts l)
