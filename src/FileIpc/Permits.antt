-- ===== src/FileIpc/Permits.antt =====
-- The limit on concurrent requests of src/file_ipc.rs, and what a poll starts.
use Prim.Native.String.{String}
use mathlib.Core.List.{append_assoc, append-nil}
use windows_command_runner.Base.{
  ℕ, zero, suc, ◌+◌, ◌-◌, ◌≤◌, ◌≡◌, refl, ◌∙◌, inl, inr, Bool, true, false, List, [], ◌∷◌, ◌++◌,
  if◌then◌else◌, arith, length, length-append, take, Bool-cases,
}
use windows_command_runner.FileIpc.Server.{
  Pool, new_pool, max_concurrent, missing, unreadable, entries, IpcEvent, shutdown, poll,
  task_ended, take_request, take_requests, process_requests, without_task, has_task, end_task,
  ipc_loop,
}

-- Every permit is free or held by a task.
abbrev pub IsBalanced : Pool → Type 0
IsBalanced s = s.available + length s.tasks ≡ max_concurrent

-- The request files among the entries.
unfoldable pub jsons : (String → Bool) → List String → List String
jsons is_json [] = []
jsons is_json (p ∷ ps) = let rest = jsons is_json ps in if is_json p then p ∷ rest else rest

take-nil {ℓ} : {A : Type ℓ} (n : ℕ) → take {A = A} n [] ≡ []
take-nil zero = refl
take-nil (suc n) = refl

module _ (is_json : String → Bool) where
  take_request-free :
      (a : ℕ) (tasks : List String) (p : String)
      → is_json p ≡ true
      → take_request is_json (record { available = suc a; tasks = tasks }) p
        ≡ record { available = a; tasks = tasks ++ p ∷ [] }
  unfolding take_request
  take_request-free a tasks p j = ground arith

  take_request-full :
      (tasks : List String) (p : String)
      → take_request is_json (record { available = 0; tasks = tasks }) p
        ≡ record { available = 0; tasks = tasks }
  unfolding take_request
  take_request-full tasks p = ground arith

  take_request-other : (s : Pool) (p : String) → is_json p ≡ false → take_request is_json s p ≡ s
  unfolding take_request
  take_request-other s p j = rw j refl

  take_requests_from :
      (a : ℕ) (tasks : List String) (paths : List String)
      → ((take_requests is_json (record { available = a; tasks = tasks }) paths).tasks
          ≡ tasks ++ take a (jsons is_json paths))
        × ((take_requests is_json (record { available = a; tasks = tasks }) paths).available
            ≡ a - length (jsons is_json paths))
  unfolding take_requests jsons
  take_requests_from a tasks [] = (rw (take-nil a, append-nil) refl, omega arith)
  take_requests_from zero tasks (p ∷ ps) =
      rw (take_request-full tasks p, take_requests)
        ((take_requests_from 0 tasks ps).0, omega (arith, (take_requests_from 0 tasks ps).1))
  take_requests_from (suc a) tasks (p ∷ ps) = elim (Bool-cases (is_json p)) [
    | inl j ↦
        let (started, left) = take_requests_from a (tasks ++ p ∷ []) ps in
        rw (take_request-free a tasks p j, take_requests, j)
          (started ∙ append_assoc tasks (p ∷ []) (take a (jsons is_json ps)), omega (arith, left))
    | inr j ↦
        rw (take_request-other (record { available = suc a; tasks = tasks }) p j, take_requests, j)
          (take_requests_from (suc a) tasks ps)
  ]

  -- A poll starts a task for each request file in the order of the listing while permits are left,
  -- and takes a permit for each; the others wait for a later poll.
  take_requests_lem :
      (s : Pool) (paths : List String)
      → ((take_requests is_json s paths).tasks ≡ s.tasks ++ take s.available (jsons is_json paths))
        × ((take_requests is_json s paths).available ≡ s.available - length (jsons is_json paths))
  take_requests_lem s paths = take_requests_from s.available s.tasks paths

  take_request-IsBalanced :
      (s : Pool) (p : String) → IsBalanced s → IsBalanced (take_request is_json s p)
  unfolding take_request
  take_request-IsBalanced s p v = ground (arith, length-append s.tasks (p ∷ []))

  take_requests-IsBalanced :
      (s : Pool) (paths : List String) → IsBalanced s → IsBalanced (take_requests is_json s paths)
  unfolding take_requests
  take_requests-IsBalanced s [] v = v
  take_requests-IsBalanced s (p ∷ ps) v =
      take_requests-IsBalanced (take_request is_json s p) ps (take_request-IsBalanced s p v)

  length-without_task :
      (path : String) (tasks : List String)
      → has_task is_json path tasks ≡ true
      → length (without_task is_json path tasks) + 1 ≡ length tasks
  unfolding has_task without_task
  length-without_task path [] h = cc
  length-without_task path (t ∷ ts) h = ground (arith, length-without_task path ts)

  end_task-IsBalanced : (s : Pool) (p : String) → IsBalanced s → IsBalanced (end_task is_json s p)
  unfolding end_task
  end_task-IsBalanced s p v = elim (Bool-cases (has_task is_json p s.tasks)) [
    | inl h ↦ rw h (omega (arith, length-without_task p s.tasks h, v))
    | inr h ↦ rw h v
  ]

  ipc_loop-IsBalanced :
      (s : Pool) (events : List IpcEvent) → IsBalanced s → IsBalanced (ipc_loop is_json s events).0
  unfolding ipc_loop process_requests
  ipc_loop-IsBalanced s [] v = v
  ipc_loop-IsBalanced s (shutdown ∷ events) v = v
  ipc_loop-IsBalanced s (poll missing ∷ events) v = ipc_loop-IsBalanced s events v
  ipc_loop-IsBalanced s (poll unreadable ∷ events) v = ipc_loop-IsBalanced s events v
  ipc_loop-IsBalanced s (poll (entries paths) ∷ events) v =
      ipc_loop-IsBalanced (take_requests is_json s paths) events
        (take_requests-IsBalanced s paths v)
  ipc_loop-IsBalanced s (task_ended path ∷ events) v =
      ipc_loop-IsBalanced (end_task is_json s path) events (end_task-IsBalanced s path v)

  -- Whatever the polls find and whenever tasks end, every permit of the server's pool is free or
  -- held by a task, so that at most ten requests are handled at once.
  pub ipc_loop_bounded :
      (events : List IpcEvent)
      → IsBalanced (ipc_loop is_json new_pool events).0
        × (length (ipc_loop is_json new_pool events).0.tasks ≤ max_concurrent)
  ipc_loop_bounded events =
      let v = ipc_loop-IsBalanced new_pool events (omega arith) in (v, omega (arith, v))

  -- A request file that is still there at the next poll, since its task has not deleted it yet, is
  -- given a second task, if two permits are free.
  process_requests_twice :
      (s : Pool) (path : String)
      → is_json path ≡ true
      → 2 ≤ s.available
      → (process_requests is_json
          (process_requests is_json s (entries (path ∷ [])))
          (entries (path ∷ []))).tasks
        ≡ s.tasks ++ path ∷ path ∷ []
  unfolding process_requests take_requests take_request
  process_requests_twice s path j free =
      rw j (ground (arith, append_assoc s.tasks (path ∷ []) (path ∷ [])))
