-- ===== src/Examples/Models.antt =====
-- Concrete instances of what the development takes as parameters.
use windows_command_runner.Base.{
  ℕ, suc, zero, ◌+◌, ◌≡◌, refl, sym, some, none, List, [], ◌∷◌, ◌++◌, arith, ◌<◌, ◌≤◌, length, take,
}
use windows_command_runner.Protocol.Bytes.{BytesApi, to_be_bytes_u16, to_be_bytes_u32}
use windows_command_runner.Protocol.Frame.{Frame}
use windows_command_runner.Channel.{ChannelApi}
use windows_command_runner.Windows.{Hresults}
use windows_command_runner.Error.{Result}
use windows_command_runner.Pipe.Io.{PipeApi, Reading, Writing, got, wrote, pipe_after}
use windows_command_runner.Pipe.Delivery.{PipeLaws, ReadProgress}
use windows_command_runner.Server.Session.{SessionApi, Parsed, good, bad, RunPayload, Launched}

-- A buffer is the list of the bytes put into it.
abbrev pub list_bytes : BytesApi
list_bytes = record {
  Buffer = List ℕ;
  with_capacity = λ _. [];
  put_u8 = λ b n. b ++ n ∷ [];
  put_u16 = λ b n. b ++ to_be_bytes_u16 n;
  put_u32 = λ b n. b ++ to_be_bytes_u32 n;
  put_slice = λ b xs. b ++ xs;
  freeze = λ b. b;
  freeze-with_capacity = λ _. refl;
  freeze-put_u8 = λ _ _ _. refl;
  freeze-put_u16 = λ _ _ _. refl;
  freeze-put_u32 = λ _ _ _. refl;
  freeze-put_slice = λ _ _. refl;
}

pub appended : (s t : List Frame) (f : Frame) → some (s ++ f ∷ []) ≡ some t → t ≡ s ++ f ∷ []
appended s t f e = cc

-- A channel is the list of the frames sent.
abbrev pub list_channel : ChannelApi
list_channel = record {
  Sender = List Frame;
  send = λ s f. some (s ++ f ∷ []);
  delivered = λ s. s;
  delivered-send = appended;
}

abbrev pub windows : Hresults
windows = record { hresult = λ code. 0x8007_0000 + code; hresult-eq = λ _ _ _. refl }

-- A pipe that moves one byte at a time: the bytes that wait, and the bytes written.
abbrev read_one : List ℕ × List ℕ → ℕ → Reading (List ℕ × List ℕ)
read_one (b ∷ bs, out) (suc k) = got (b ∷ []) (bs, out)
read_one (bs, out) _ = got [] (bs, out)

abbrev write_one : List ℕ × List ℕ → List ℕ → Writing (List ℕ × List ℕ)
write_one p [] = wrote 0 p
write_one (bs, out) (x ∷ xs) = wrote 1 (bs, out ++ x ∷ [])

abbrev pub byte_pipe : PipeApi
byte_pipe = record { Pipe = List ℕ × List ℕ; read_file = read_one; write_file = write_one }

pub read_one_takes :
    (p q : List ℕ × List ℕ) (k : ℕ) (bs : List ℕ)
    → read_one p k ≡ got bs q
    → (p.0 ≡ bs ++ q.0) × (length bs ≤ k)
read_one_takes (b ∷ bs, out) q (suc k) cs e =
    let same : b ∷ [] ≡ cs = cc in
    let left : (bs, out) ≡ q = cc in rw (sym same, sym left) (refl, omega arith)
read_one_takes ([], out) q k cs e =
    let same : [] ≡ cs = cc in
    let left : ([], out) ≡ q = cc in rw (sym same, sym left) (refl, omega arith)
read_one_takes (b ∷ bs, out) q zero cs e =
    let same : [] ≡ cs = cc in
    let left : (b ∷ bs, out) ≡ q = cc in rw (sym same, sym left) (refl, omega arith)

pub write_one_appends :
    (p q : List ℕ × List ℕ) (bs : List ℕ) (n : ℕ)
    → 0 < length bs
    → write_one p bs ≡ wrote n q
    → (0 < n) × (n ≤ length bs) × (q.1 ≡ p.1 ++ take n bs)
write_one_appends p q [] n h e = absurd (omega arith)
write_one_appends (bs, out) q (x ∷ xs) n h e =
    let one : 1 ≡ n = cc in
    let left : (bs, out ++ x ∷ []) ≡ q = cc in
    rw (sym one, sym left) (omega arith, omega arith, refl)

pub read_one_keeps : (p : List ℕ × List ℕ) (k : ℕ) → (pipe_after (read_one p k)).1 ≡ p.1
read_one_keeps ([], out) k = refl
read_one_keeps (b ∷ bs, out) zero = refl
read_one_keeps (b ∷ bs, out) (suc k) = refl

pub write_one_keeps :
    (p q : List ℕ × List ℕ) (bs : List ℕ) (n : ℕ) → write_one p bs ≡ wrote n q → q.0 ≡ p.0
write_one_keeps (bs, out) q [] n e = let left : (bs, out) ≡ q = cc in rw (sym left) refl
write_one_keeps (bs, out) q (x ∷ xs) n e =
    let left : (bs, out ++ x ∷ []) ≡ q = cc in rw (sym left) refl

read_one_progress :
    (p : List ℕ × List ℕ) (k : ℕ)
    → 0 < k
    → 0 < length p.0
    → (b : ℕ) × (bs : List ℕ) × (q : List ℕ × List ℕ) × (read_one p k ≡ got (b ∷ bs) q)
read_one_progress ([], out) k h g = absurd (omega arith)
read_one_progress (b ∷ bs, out) zero h g = absurd (omega arith)
read_one_progress (b ∷ bs, out) (suc k) h g = (b, [], (bs, out), refl)

abbrev pub byte_pipe_laws : PipeLaws byte_pipe
byte_pipe_laws = record {
  pending = λ p. p.0;
  written = λ p. p.1;
  read_takes = read_one_takes;
  write_appends = write_one_appends;
  read_keeps = read_one_keeps;
  write_keeps = write_one_keeps;
}

pub byte_pipe_progress : ReadProgress byte_pipe byte_pipe_laws
byte_pipe_progress = read_one_progress

abbrev parse : List ℕ → Parsed
parse [] = bad "no payload"
parse (b ∷ bs) = good (record {
  command = "dir";
  working_directory = none;
  environment = none;
  timeout_ms = some 5000;
})

abbrev pub dir_payload : RunPayload
dir_payload = record {
  command = "dir";
  working_directory = none;
  environment = none;
  timeout_ms = some 5000;
}

abbrev pub child : Launched
child = record { process_handle = 100; job_object = 101; stdout_read = 102; stderr_read = 103 }

-- A session whose launches have the given result.
abbrev pub session : Result Launched → SessionApi
session launched = record {
  parse_run = parse;
  exit_payload = λ code. code ∷ [];
  launch = λ _. launched;
  launch_failed = λ _. 1 ∷ [];
}

-- A clock that advances.
abbrev pub ticks : ℕ → ℕ
ticks i = 1000 + i
