-- ===== src/Pump/Race.antt =====
-- How far the two output pumps of a job can exceed the window that they share (Pump.Shared).
use windows_command_runner.Base.{
  ℕ, ◌+◌, ◌-◌, ◌<◌, ◌≤◌, ◌≡◌, refl, List, [], ◌∷◌, leb, if◌then◌else◌, arith, All,
}
use windows_command_runner.Pump.Window.{StreamPump, u64_mod}
use windows_command_runner.Pump.Shared.{
  Task, idle, offered, loaded, passed, waits, Act, offers, loads, tests, adds, wakes, act, Pumps,
  Side, stdout, stderr, act_on, run_acts, new_pumps, IsSmall,
}

module _ (window limit : ℕ) (room : window + limit + limit < u64_mod) where
  -- What a call may still add without another look at the counter.
  abbrev need : Task → ℕ
  need (loaded n k) = if leb (k + n) window then n else 0
  need (passed n) = n
  need _ = 0

  abbrev InRange : Task → Type 0
  InRange idle = Unit {0}
  InRange (offered n) = n ≤ limit
  InRange (loaded n k) = (n ≤ limit) × (k ≤ window + limit)
  InRange (passed n) = n ≤ limit
  InRange (waits n) = n ≤ limit

  -- One task and what the other may add: together they exceed the window by one frame at most.
  record IsWithin (p : StreamPump) (t : Task) (other : ℕ) : Type 0 where
    fixed : p.send_window ≡ window
    total : p.bytes_in_flight + need t + other ≤ window + limit
    range : InRange t

  act-IsWithin :
      (p : StreamPump) (t : Task) (a : Act) (other : ℕ)
      → other ≤ limit
      → IsSmall limit a
      → IsWithin p t other
      → IsWithin (act p t a).0 (act p t a).1 other
  unfolding act
  act-IsWithin p idle (offers m) other o small v = record {
    fixed = v.fixed;
    total = v.total;
    range = small;
  }
  act-IsWithin p idle loads other o small v = v
  act-IsWithin p idle tests other o small v = v
  act-IsWithin p idle adds other o small v = v
  act-IsWithin p idle wakes other o small v = v
  act-IsWithin p (offered n) (offers m) other o small v = v
  act-IsWithin p (offered n) loads other o small v = record {
    fixed = v.fixed;
    total = ground (arith, v.total);
    range = (v.range, omega (arith, v.total));
  }
  act-IsWithin p (offered n) tests other o small v = v
  act-IsWithin p (offered n) adds other o small v = v
  act-IsWithin p (offered n) wakes other o small v = v
  act-IsWithin p (loaded n k) (offers m) other o small v = v
  act-IsWithin p (loaded n k) loads other o small v = v
  act-IsWithin p (loaded n k) tests other o small v = record {
    fixed = v.fixed;
    total = ground (arith, v.total, v.fixed, v.range.0, v.range.1, room);
    range = ground (arith, v.range.0);
  }
  act-IsWithin p (loaded n k) adds other o small v = v
  act-IsWithin p (loaded n k) wakes other o small v = v
  act-IsWithin p (passed n) (offers m) other o small v = v
  act-IsWithin p (passed n) loads other o small v = v
  act-IsWithin p (passed n) tests other o small v = v
  act-IsWithin p (passed n) adds other o small v = record {
    fixed = v.fixed;
    total = ground (arith, v.total, v.range, room);
    range = tt;
  }
  act-IsWithin p (passed n) wakes other o small v = v
  act-IsWithin p (waits n) (offers m) other o small v = v
  act-IsWithin p (waits n) loads other o small v = v
  act-IsWithin p (waits n) tests other o small v = v
  act-IsWithin p (waits n) adds other o small v = v
  act-IsWithin p (waits n) wakes other o small v = record {
    fixed = v.fixed;
    total = v.total;
    range = v.range;
  }

  need_small : (t : Task) → InRange t → need t ≤ limit
  need_small idle r = omega arith
  need_small (offered n) r = omega arith
  need_small (loaded n k) r = ground (arith, r.0)
  need_small (passed n) r = r
  need_small (waits n) r = omega arith

  record AreWithin (s : Pumps) : Type 0 where
    out_task : IsWithin s.pump s.out (need s.err)
    err_range : InRange s.err

  act_on-AreWithin :
      (s : Pumps) (side : Side) (a : Act)
      → IsSmall limit a
      → AreWithin s
      → AreWithin (act_on s side a)
  unfolding act_on
  act_on-AreWithin s stdout a small v = record {
    out_task =
        act-IsWithin s.pump s.out a (need s.err) (need_small s.err v.err_range) small v.out_task;
    err_range = v.err_range;
  }
  act_on-AreWithin s stderr a small v =
      let w =
        act-IsWithin s.pump s.err a (need s.out) (need_small s.out v.out_task.range) small (record {
          fixed = v.out_task.fixed;
          total = omega (arith, v.out_task.total);
          range = v.err_range;
        }) in
      record {
        out_task = record {
          fixed = w.fixed;
          total = omega (arith, w.total);
          range = v.out_task.range;
        };
        err_range = w.range;
      }

  run_acts-AreWithin :
      (s : Pumps) (acts : List (Side × Act))
      → All (λ (step : Side × Act). IsSmall limit step.1) acts
      → AreWithin s
      → AreWithin (run_acts s acts)
  unfolding run_acts
  run_acts-AreWithin s [] small v = v
  run_acts-AreWithin s ((side, a) ∷ acts) (small, rest) v =
      run_acts-AreWithin (act_on s side a) acts rest (act_on-AreWithin s side a small v)

-- A frame that fills the window up to one frame of the limit, and then a frame of the limit on
-- each side, both of which look at the counter before either raises it.
abbrev overshoot : ℕ → ℕ → List (Side × Act)
overshoot window limit =
    (stdout, offers (window - limit))
    ∷ (stdout, loads)
    ∷ (stdout, tests)
    ∷ (stdout, adds)
    ∷ (stdout, offers limit)
    ∷ (stderr, offers limit)
    ∷ (stdout, loads)
    ∷ (stderr, loads)
    ∷ (stdout, tests)
    ∷ (stderr, tests)
    ∷ (stdout, adds)
    ∷ (stderr, adds)
    ∷ []

run_acts-overshoot :
    (window limit : ℕ)
    → limit ≤ window
    → window + limit + limit < u64_mod
    → (run_acts (new_pumps window) (overshoot window limit)).pump.bytes_in_flight ≡ window + limit
unfolding run_acts act_on act
run_acts-overshoot window limit h r = ground arith

-- Whatever the order of the atomic operations of the two pumps of a job, the bytes in flight never
-- exceed the window by more than one frame of the size limit, if the numbers fit in an u64. The
-- bound is tight: in some order they exceed the window by that much, if the limit is at most the
-- window and at least half of it.
pub run_acts_bounded :
    (window limit : ℕ)
    → window + limit + limit < u64_mod
    → limit ≤ window
    → window ≤ limit + limit
    → ((acts : List (Side × Act))
        → All (λ (step : Side × Act). IsSmall limit step.1) acts
        → (run_acts (new_pumps window) acts).pump.bytes_in_flight ≤ window + limit)
      × ((acts : List (Side × Act)) × All (λ (step : Side × Act). IsSmall limit step.1) acts
          × ((run_acts (new_pumps window) acts).pump.bytes_in_flight ≡ window + limit))
run_acts_bounded window limit room low high = (
  λ acts small.
      let v = run_acts-AreWithin window limit room (new_pumps window) acts small (record {
        out_task = record { fixed = refl; total = omega arith; range = tt };
        err_range = tt;
      }) in
      omega (arith, v.out_task.total),
  (overshoot window limit, ground arith, run_acts-overshoot window limit low room),
)
