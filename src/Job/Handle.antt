-- ===== src/Job/Handle.antt =====
-- `SafeHandle` and `JobHandle` of src/job_manager.rs. A Windows handle is its bit pattern, so the
-- casts between `isize` and `usize` change nothing; 0 is no handle. Times and durations are numbers
-- of nanoseconds. The cancellation token is the flag that `cancel` sets and `is_cancelled` reads.
use windows_command_runner.Base.{
  ℕ, Bool, not, Option, none, some, List, [], ◌∷◌, ◌++◌, ◌==◌, if◌then◌else◌,
}
use windows_command_runner.Job.State.{JobState}

pub record SafeHandle : Type 0 where
  pub value : ℕ

-- `SafeHandle::new`, and `default` as `new(0)`.
abbrev pub new_handle : ℕ → SafeHandle
new_handle handle = record { value = handle }

abbrev pub default_handle : SafeHandle
default_handle = new_handle 0

abbrev pub get_handle : SafeHandle → ℕ
get_handle s = s.value

-- `take` swaps in 0 and returns what was there, if it was a handle.
unfoldable pub take_handle : SafeHandle → SafeHandle × Option ℕ
take_handle s = let val = s.value in (new_handle 0, if val == 0 then none else some val)

abbrev pub set_handle : SafeHandle → ℕ → SafeHandle
set_handle s handle = record { value = handle }

unfoldable pub is_valid : SafeHandle → Bool
is_valid s = not (get_handle s == 0)

pub record JobHandle : Type 0 where
  pub job_id : ℕ
  pub state : JobState
  pub process_handle : SafeHandle
  pub job_object : SafeHandle
  pub is_cancelled : Bool
  pub start_time : ℕ
  pub timeout : Option ℕ
  pub completed_at : Option ℕ
  pub last_activity : ℕ

abbrev option_list : Option ℕ → List ℕ
option_list none = []
option_list (some h) = h ∷ []

-- `drop`: the handle afterwards, and the handles that `CloseHandle` is called on, in order.
unfoldable pub drop_job : JobHandle → JobHandle × List ℕ
unfolding take_handle
drop_job j =
    let (process, p) = take_handle j.process_handle in
    let (object, o) = take_handle j.job_object in
    (record j { process_handle = process; job_object = object }, option_list p ++ option_list o)
