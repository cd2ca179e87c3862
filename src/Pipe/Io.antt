-- ===== src/Pipe/Io.antt =====
-- `read_exact`, `read_frame`, `write_all` and `write_frame` of src/pipe_server.rs. The pipe, with
-- its calls of `ReadFile` and `WriteFile`, is a parameter; a function returns the pipe as it
-- leaves it.
use mathlib.Core.WellFounded.{Acc}
use windows_command_runner.Base.{
  ℕ, zero, suc, ◌-◌, ◌*◌, ◌<◌, List, [], ◌∷◌, ◌++◌, ltb, if◌then◌else◌, length, drop, get_or, arith,
  Option, none, some,
}
use windows_command_runner.Base.Order.{lt_wf}
use windows_command_runner.Error.{
  Result, ok, err, io, raw_os_error, unexpected_eof, protocol, length_too_large,
}
use windows_command_runner.Protocol.Bytes.{Endian, BytesApi, to_be_bytes_u32, from_be_bytes_u32}
use windows_command_runner.Protocol.Frame.{Frame, encode, decode}

-- What `ReadFile` does with a buffer: the bytes put there and the pipe after it, or an HRESULT.
pub data Reading (P : Type 0) : Type 0 where
  got : List ℕ → P → Reading P
  read_error : ℕ → P → Reading P

abbrev pub pipe_after : {P : Type 0} → Reading P → P
pipe_after (got bytes p) = p
pipe_after (read_error code p) = p

-- What `WriteFile` does with some bytes: how many it wrote, or an HRESULT.
pub data Writing (P : Type 0) : Type 0 where
  wrote : ℕ → P → Writing P
  write_error : ℕ → P → Writing P

pub record PipeApi : Type 1 where
  pub Pipe : Type 0
  pub read_file : Pipe → ℕ → Reading Pipe
  pub write_file : Pipe → List ℕ → Writing Pipe

pub shrinks : (k n : ℕ) → suc k - suc n < suc k
shrinks k n = omega arith

module _ (api : PipeApi) where
  open api use {Pipe, read_file, write_file}

  -- The loop of `read_exact`, with the bytes still wanted in place of the offset, and the part of
  -- the buffer that is filled.
  unfoldable pub read_loop : Pipe → (wanted : ℕ) → List ℕ → Acc ◌<◌ wanted → Pipe × Result (List ℕ)
  read_loop p zero buffer _ = (p, ok buffer)
  read_loop p (suc k) buffer (Acc.intro _ smaller) = elim (read_file p (suc k)) [
    | read_error code p' ↦ (p', err (io (raw_os_error code)))
    | got [] p' ↦ (p', err (io unexpected_eof))
    | got (b ∷ bs) p' ↦
        read_loop p' (suc k - suc (length bs)) (buffer ++ b ∷ bs)
          (smaller _ (shrinks k (length bs)))
  ]

  unfoldable pub read_exact : Pipe → ℕ → Pipe × Result (List ℕ)
  unfolding read_loop lt_wf
  read_exact p size = read_loop p size [] (lt_wf.apply size)

  abbrev pub max_length : ℕ
  max_length = 1024 * 1024

  -- `len_buf[i]`; a buffer that `read_exact` returns has the length asked for.
  abbrev pub length_prefix : List ℕ → ℕ
  length_prefix b = from_be_bytes_u32 (get_or b 0 0) (get_or b 1 0) (get_or b 2 0) (get_or b 3 0)

  -- The rest of `read_frame` once the length prefix is read.
  unfoldable pub read_body : Pipe × Result (List ℕ) → Pipe × Result Frame
  read_body (p, err e) = (p, err e)
  read_body (p, ok bytes) = (p, decode bytes)

  unfoldable pub read_sized : Pipe × Result (List ℕ) → Pipe × Result Frame
  unfolding read_body
  read_sized (p, err e) = (p, err e)
  read_sized (p, ok len_buf) =
      let len = length_prefix len_buf in
      if ltb max_length len
      then (p, err (protocol length_too_large))
      else read_body (read_exact p len)

  unfoldable pub read_frame : Pipe → Pipe × Result Frame
  unfolding read_sized
  read_frame p = read_sized (read_exact p 4)

  -- The loop of `write_all` on fuel, with the bytes still to write; `none` if the fuel runs out.
  unfoldable pub write_loop : ℕ → Pipe → List ℕ → Option (Pipe × Result (Unit {0}))
  write_loop fuel p [] = some (p, ok tt)
  write_loop zero p (b ∷ bs) = none
  write_loop (suc fuel) p (b ∷ bs) = elim (write_file p (b ∷ bs)) [
    | write_error code p' ↦ some (p', err (io (raw_os_error code)))
    | wrote n p' ↦ write_loop fuel p' (drop n (b ∷ bs))
  ]

  -- Each round writes a byte at least, so one round for each byte is enough.
  unfoldable pub write_all : Pipe → List ℕ → Option (Pipe × Result (Unit {0}))
  unfolding write_loop
  write_all p bytes = write_loop (length bytes) p bytes

  -- The second `write_all` of `write_frame`, after the first.
  unfoldable pub write_rest :
      List ℕ → Option (Pipe × Result (Unit {0})) → Option (Pipe × Result (Unit {0}))
  write_rest bytes none = none
  write_rest bytes (some (p, err e)) = some (p, err e)
  write_rest bytes (some (p, ok _)) = write_all p bytes

  unfoldable pub write_frame : BytesApi → Endian → Pipe → Frame → Option (Pipe × Result (Unit {0}))
  unfolding write_rest
  write_frame b e p f = elim (encode b e f) [
    | err x ↦ some (p, err x)
    | ok bytes ↦ write_rest bytes (write_all p (to_be_bytes_u32 (length bytes)))
  ]
