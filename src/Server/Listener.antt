-- ===== src/Server/Listener.antt =====
-- `start_listening` and `create_pipe_instance` of src/pipe_server.rs. The loop and its sessions
-- take turns. `CreateNamedPipeW`, `HANDLE::is_invalid` and `encode_utf16` are parameters; the
-- semaphore of tokio is the number of its permits, and nothing closes it.
use Prim.Native.String.{String}
use windows_command_runner.Base.{
  ℕ, suc, ◌+◌, ◌-◌, ◌≤◌, ◌≡◌, Bool, true, false, List, [], ◌∷◌, ◌++◌, ◌==◌, if◌then◌else◌, length,
  arith,
}
use windows_command_runner.Error.{Error, Result, ok, err, service, invalid_pipe_handle}

abbrev pub pipe_name : String
pipe_name = "\\\\.\\pipe\\VirimaRemoteAgent"

abbrev pub pipe_buffer_size : ℕ
pipe_buffer_size = 65536

-- The list without one of the places where a handle stands.
unfoldable pub without_one : ℕ → List ℕ → List ℕ
without_one h [] = []
without_one h (x ∷ xs) = let rest = without_one h xs in if x == h then xs else x ∷ rest

unfoldable pub has : ℕ → List ℕ → Bool
has h [] = false
has h (x ∷ xs) = let rest = has h xs in if x == h then true else rest

-- The arguments of `CreateNamedPipeW` with the fields of the security attributes that are not
-- constant.
pub record PipeArgs : Type 0 where
  pub name : List ℕ
  pub open_mode : ℕ
  pub pipe_mode : ℕ
  pub max_instances : ℕ
  pub out_buffer_size : ℕ
  pub in_buffer_size : ℕ
  pub default_timeout : ℕ
  pub inherit_handle : Bool

pub record ListenApi : Type 0 where
  pub encode_utf16 : String → List ℕ
  pub is_invalid : ℕ → Bool

-- Where the loop of `start_listening` is: at `create_pipe_instance`, at the semaphore with an
-- instance, or it has returned.
pub data Loop : Type 0 where
  creating : Loop
  acquiring : ℕ → Loop
  returned : Error → Loop

pub record PipeServer : Type 0 where
  pub loop : Loop
  pub permits : ℕ
  pub sessions : List ℕ  -- the instances of the blocking tasks that run

-- `PipeServer::new`, and the start of the loop.
unfoldable pub new_server : ℕ → PipeServer
new_server max_connections = record { loop = creating; permits = max_connections; sessions = [] }

-- A turn: what `CreateNamedPipeW` returns to the loop, the semaphore looked at by the loop, or the
-- end of the session on an instance, which is disconnected and closed before the permit is
-- dropped.
pub data ListenTurn : Type 0 where
  created : ℕ → ListenTurn
  acquires : ListenTurn
  ends : ℕ → ListenTurn

module _ (api : ListenApi) where
  open api use {encode_utf16, is_invalid}

  unfoldable pub pipe_args : PipeArgs
  pipe_args = record {
    name = encode_utf16 pipe_name ++ 0 ∷ [];
    open_mode = 3;
    pipe_mode = 0;
    max_instances = 255;
    out_buffer_size = pipe_buffer_size;
    in_buffer_size = pipe_buffer_size;
    default_timeout = 0;
    inherit_handle = false;
  }

  -- By what `CreateNamedPipeW` returns.
  unfoldable pub create_pipe_instance : ℕ → Result ℕ
  create_pipe_instance handle =
      if is_invalid handle then err (service invalid_pipe_handle) else ok handle

  abbrev pub after_create : PipeServer → Result ℕ → PipeServer
  after_create s (ok handle) = record s { loop = acquiring handle }
  after_create s (err e) = record s { loop = returned e }

  -- A session is started with a permit.
  abbrev pub spawn_session : PipeServer → ℕ → PipeServer
  spawn_session s handle = record s {
    loop = creating;
    permits = s.permits - 1;
    sessions = handle ∷ s.sessions;
  }

  abbrev pub end_session : PipeServer → ℕ → PipeServer
  end_session s handle = record s {
    permits = s.permits + 1;
    sessions = without_one handle s.sessions;
  }

  unfoldable pub listen_turn : Loop → PipeServer → ListenTurn → PipeServer
  unfolding create_pipe_instance
  listen_turn creating s (created handle) = after_create s (create_pipe_instance handle)
  listen_turn (acquiring handle) s acquires = if s.permits == 0 then s else spawn_session s handle
  listen_turn loop s (ends handle) = if has handle s.sessions then end_session s handle else s
  listen_turn loop s turn = s

  unfoldable pub start_listening : PipeServer → List ListenTurn → PipeServer
  unfolding listen_turn
  start_listening s [] = s
  start_listening s (t ∷ turns) = start_listening (listen_turn s.loop s t) turns

  length-without_one :
      (h : ℕ) (xs : List ℕ) → has h xs ≡ true → suc (length (without_one h xs)) ≡ length xs
  unfolding has without_one
  length-without_one h [] e = absurd (ground arith)
  length-without_one h (x ∷ xs) e = ground (arith, length-without_one h xs)

  -- Every permit is free, or held by a session.
  abbrev Balanced : ℕ → PipeServer → Type 0
  Balanced n s = length s.sessions + s.permits ≡ n

  listen_turn-Balanced :
      (n : ℕ) (loop : Loop) (s : PipeServer) (t : ListenTurn)
      → Balanced n s
      → Balanced n (listen_turn loop s t)
  unfolding listen_turn
  listen_turn-Balanced n creating s (created handle) b = ground arith
  listen_turn-Balanced n creating s acquires b = b
  listen_turn-Balanced n creating s (ends handle) b =
      ground (arith, length-without_one handle s.sessions)
  listen_turn-Balanced n (acquiring h) s (created handle) b = b
  listen_turn-Balanced n (acquiring h) s acquires b = ground arith
  listen_turn-Balanced n (acquiring h) s (ends handle) b =
      ground (arith, length-without_one handle s.sessions)
  listen_turn-Balanced n (returned x) s (created handle) b = b
  listen_turn-Balanced n (returned x) s acquires b = b
  listen_turn-Balanced n (returned x) s (ends handle) b =
      ground (arith, length-without_one handle s.sessions)

  start_listening-Balanced :
      (n : ℕ) (s : PipeServer) (turns : List ListenTurn)
      → Balanced n s
      → Balanced n (start_listening s turns)
  unfolding start_listening
  start_listening-Balanced n s [] b = b
  start_listening-Balanced n s (t ∷ turns) b =
      start_listening-Balanced n (listen_turn s.loop s t) turns
        (listen_turn-Balanced n s.loop s t b)

  -- The instances that are open: those of the sessions, and the one for which the loop waits.
  abbrev pub open_instances : PipeServer → ℕ
  open_instances s = elim s.loop [
    | creating ↦ length s.sessions
    | acquiring h ↦ suc (length s.sessions)
    | returned e ↦ length s.sessions
  ]

  -- At every moment of every run of the listener, each permit is free or held by one session, so
  -- there are never more sessions than connections allowed, and at most one more open instance than
  -- that.
  pub start_listening_bounded :
      (max_connections : ℕ) (turns : List ListenTurn)
      → (length (start_listening (new_server max_connections) turns).sessions
            + (start_listening (new_server max_connections) turns).permits
          ≡ max_connections)
        × (open_instances (start_listening (new_server max_connections) turns)
            ≤ max_connections + 1)
  unfolding new_server
  start_listening_bounded max_connections turns =
      let b =
        start_listening-Balanced max_connections (new_server max_connections) turns (omega arith) in
      (b, open_bound (start_listening (new_server max_connections) turns) b)
    where
      open_bound :
          (s : PipeServer) → Balanced max_connections s → open_instances s ≤ max_connections + 1
      open_bound s b = ground arith
