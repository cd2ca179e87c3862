-- ===== src/Windows.antt =====
-- What the code relies on of the windows crate and of `ReadFile` and `WriteFile`, as parameters.
-- A 32-bit code is its bit pattern.
use windows_command_runner.Base.{ℕ, ◌+◌, ◌<◌, ◌≡◌, List}

-- Win32 error codes, with their documented values.
abbrev pub error_broken_pipe : ℕ
error_broken_pipe = 109

abbrev pub error_more_data : ℕ
error_more_data = 234

-- -1 as an i32.
abbrev pub minus_one : ℕ
minus_one = 0xFFFF_FFFF

-- The HRESULT that the windows crate reports for a Win32 error, `ERROR.into()` or the `code()` of
-- an error that a failed call returns: 0x8007 in the high half, the error in the low half.
pub record Hresults : Type 0 where
  pub hresult : ℕ → ℕ
  pub hresult-eq : (code : ℕ) → 0 < code → code < 65536 → hresult code ≡ 0x8007_0000 + code

-- What one call of `ReadFile` does: it succeeds or fails with an HRESULT, and in both cases it
-- has put some bytes at the front of the buffer.
pub data ReadOutcome : Type 0 where
  read_done : List ℕ → ReadOutcome
  read_failed : ℕ → List ℕ → ReadOutcome
