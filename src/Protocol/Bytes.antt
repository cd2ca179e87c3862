-- ===== src/Protocol/Bytes.antt =====
-- Unsigned integers as bytes: the standard library's `to_be`, `to_be_bytes` and `from_be_bytes`
-- that src/protocol.rs and src/pipe_server.rs call, and the buffer of the bytes crate, a parameter.
use windows_command_runner.Base.{ℕ, ◌+◌, ◌*◌, ◌/◌, ◌%◌, ◌<◌, ◌≡◌, refl, List, [], ◌∷◌, ◌++◌, arith}

-- The byte order of the machine that the program is compiled for.
pub data Endian : Type 0 where
  little big : Endian

abbrev pub IsByte : ℕ → Type 0
IsByte b = b < 256

abbrev pub IsU16 : ℕ → Type 0
IsU16 n = n < 65536

abbrev pub IsU32 : ℕ → Type 0
IsU32 n = n < 4294967296

-- `[u8; 2]::from(n.to_be_bytes())`: the high byte first.
unfoldable pub to_be_bytes_u16 : ℕ → List ℕ
to_be_bytes_u16 n = n / 256 % 256 ∷ n % 256 ∷ []

unfoldable pub to_be_bytes_u32 : ℕ → List ℕ
to_be_bytes_u32 n = n / 16777216 % 256 ∷ n / 65536 % 256 ∷ n / 256 % 256 ∷ n % 256 ∷ []

unfoldable pub from_be_bytes_u16 : ℕ → ℕ → ℕ
from_be_bytes_u16 a b = a * 256 + b

unfoldable pub from_be_bytes_u32 : ℕ → ℕ → ℕ → ℕ → ℕ
from_be_bytes_u32 a b c d = a * 16777216 + b * 65536 + c * 256 + d

unfoldable pub swap_bytes_u16 : ℕ → ℕ
unfolding from_be_bytes_u16
swap_bytes_u16 n = from_be_bytes_u16 (n % 256) (n / 256 % 256)

unfoldable pub swap_bytes_u32 : ℕ → ℕ
unfolding from_be_bytes_u32
swap_bytes_u32 n =
    from_be_bytes_u32 (n % 256) (n / 256 % 256) (n / 65536 % 256) (n / 16777216 % 256)

-- `to_be`: on a little-endian machine it reverses the bytes, on a big-endian one it does nothing.
unfoldable pub to_be_u16 : Endian → ℕ → ℕ
unfolding swap_bytes_u16
to_be_u16 little n = swap_bytes_u16 n
to_be_u16 big n = n

unfoldable pub to_be_u32 : Endian → ℕ → ℕ
unfolding swap_bytes_u32
to_be_u32 little n = swap_bytes_u32 n
to_be_u32 big n = n

-- `BytesMut` with `BufMut` of the bytes crate, and what its documentation says of each method: an
-- integer is appended in big-endian byte order, and `freeze` hands over what was put.
pub record BytesApi : Type 1 where
  pub Buffer : Type 0
  pub with_capacity : ℕ → Buffer
  pub put_u8 : Buffer → ℕ → Buffer
  pub put_u16 : Buffer → ℕ → Buffer
  pub put_u32 : Buffer → ℕ → Buffer
  pub put_slice : Buffer → List ℕ → Buffer
  pub freeze : Buffer → List ℕ
  pub freeze-with_capacity : (n : ℕ) → freeze (with_capacity n) ≡ []
  pub freeze-put_u8 : (b : Buffer) (n : ℕ) → IsByte n → freeze (put_u8 b n) ≡ freeze b ++ n ∷ []
  pub freeze-put_u16 :
      (b : Buffer) (n : ℕ) → IsU16 n → freeze (put_u16 b n) ≡ freeze b ++ to_be_bytes_u16 n
  pub freeze-put_u32 :
      (b : Buffer) (n : ℕ) → IsU32 n → freeze (put_u32 b n) ≡ freeze b ++ to_be_bytes_u32 n
  pub freeze-put_slice : (b : Buffer) (xs : List ℕ) → freeze (put_slice b xs) ≡ freeze b ++ xs

swap_bytes_u16-lt : (n : ℕ) → IsU16 (swap_bytes_u16 n)
unfolding swap_bytes_u16
swap_bytes_u16-lt n = omega arith

swap_bytes_u32-lt : (n : ℕ) → IsU32 (swap_bytes_u32 n)
unfolding swap_bytes_u32
swap_bytes_u32-lt n = omega arith

swap_bytes_u16-swap_bytes_u16 : (n : ℕ) → IsU16 n → swap_bytes_u16 (swap_bytes_u16 n) ≡ n
unfolding swap_bytes_u16
swap_bytes_u16-swap_bytes_u16 n h = omega arith

swap_bytes_u32-swap_bytes_u32 : (n : ℕ) → IsU32 n → swap_bytes_u32 (swap_bytes_u32 n) ≡ n
unfolding swap_bytes_u32
swap_bytes_u32-swap_bytes_u32 n h = omega arith

pub to_be_u16-lt : (e : Endian) (n : ℕ) → IsU16 n → IsU16 (to_be_u16 e n)
unfolding to_be_u16
to_be_u16-lt little n h = omega arith
to_be_u16-lt big n h = h

pub to_be_u32-lt : (e : Endian) (n : ℕ) → IsU32 n → IsU32 (to_be_u32 e n)
unfolding to_be_u32
to_be_u32-lt little n h = omega arith
to_be_u32-lt big n h = h

-- `to_be` undoes itself, on either machine.
pub to_be_u16-to_be_u16 : (e : Endian) (n : ℕ) → IsU16 n → to_be_u16 e (to_be_u16 e n) ≡ n
unfolding to_be_u16
to_be_u16-to_be_u16 little n h = swap_bytes_u16-swap_bytes_u16 n h
to_be_u16-to_be_u16 big n h = refl

pub to_be_u32-to_be_u32 : (e : Endian) (n : ℕ) → IsU32 n → to_be_u32 e (to_be_u32 e n) ≡ n
unfolding to_be_u32
to_be_u32-to_be_u32 little n h = swap_bytes_u32-swap_bytes_u32 n h
to_be_u32-to_be_u32 big n h = refl
