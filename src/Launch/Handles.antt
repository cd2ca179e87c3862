-- ===== src/Launch/Handles.antt =====
-- Which handles are open after a launch of src/process_launcher.rs.
use windows_command_runner.Base.{
  ℕ, ◌≡◌, ◌≢◌, refl, Bool, false, not, ◌&&◌, ◌||◌, List, [], ◌∷◌, ◌++◌, ◌==◌, arith, All,
}
use windows_command_runner.Launch.Pipes.{
  LaunchApi, HandleEvent, opened, closed, ChildPipeHandles, close_open, close_all,
}

-- Whether a handle is open after a log, given whether it was before.
unfoldable pub is_open : ℕ → Bool → List HandleEvent → Bool
is_open h was [] = was
is_open h was (opened x ∷ log) = is_open h (was || h == x) log
is_open h was (closed x ∷ log) = is_open h (was && not (h == x)) log

-- A handle that a call of Windows has given.
abbrev pub IsHandle : LaunchApi → ℕ → Type 0
IsHandle api h = (api.is_invalid h ≡ false) × (h ≢ 0)

abbrev pub handles : ChildPipeHandles → List ℕ
handles p =
    p.stdin_read ∷ p.stdin_write ∷ p.stdout_read ∷ p.stdout_write ∷ p.stderr_read ∷ p.stderr_write
    ∷ []

abbrev pub elem : ℕ → List ℕ → Bool
elem h [] = false
elem h (x ∷ xs) = h == x || elem h xs

-- No element stands twice.
abbrev pub Apart : List ℕ → Type 0
Apart [] = Unit {0}
Apart (x ∷ xs) = All (λ y. x ≢ y) xs × Apart xs

pub is_open-append :
    (h : ℕ) (was : Bool) (xs ys : List HandleEvent)
    → is_open h was (xs ++ ys) ≡ is_open h (is_open h was xs) ys
unfolding is_open
is_open-append h was [] ys = refl
is_open-append h was (opened x ∷ xs) ys = is_open-append h (was || h == x) xs ys
is_open-append h was (closed x ∷ xs) ys = is_open-append h (was && not (h == x)) xs ys

module _ (api : LaunchApi) where
  close_open-eq : (h : ℕ) → IsHandle api h → close_open api h ≡ (0, closed h ∷ [])
  unfolding close_open
  close_open-eq h v = ground arith

  -- Dropping the pipes closes each handle that is one.
  pub is_open-close_all :
      (h : ℕ) (was : Bool) (p : ChildPipeHandles)
      → All (IsHandle api) (handles p)
      → is_open h was (close_all api p).1 ≡ (was && not (elem h (handles p)))
  unfolding close_all
  is_open-close_all h was p v =
      rw
        (
          close_open-eq p.stdin_read v.0,
          close_open-eq p.stdin_write v.1.0,
          close_open-eq p.stdout_read v.1.1.0,
          close_open-eq p.stdout_write v.1.1.1.0,
          close_open-eq p.stderr_read v.1.1.1.1.0,
          close_open-eq p.stderr_write v.1.1.1.1.1.0,
        )
        (unfold is_open in ground arith)
