-- ===== src/Pump/Frames.antt =====
-- What `try_send_frame` and the output pump put on the channel.
use windows_command_runner.Base.{
  ℕ, ◌≤◌, ◌≡◌, ◌≢◌, refl, sym, ◌∙◌, ◌⊎◌, inl, inr, Bool, true, false, none, some, List, [], ◌∷◌,
  ◌++◌, ◌==◌, if◌then◌else◌, arith, length, Bool-cases, Option-cases,
}
use mathlib.Core.List.{append_assoc}
use windows_command_runner.Windows.{Hresults}
use windows_command_runner.Error.{
  Error, Result, process_launch_failed, spawn_blocking_failed, ok, err, Result-cases,
}
use windows_command_runner.Protocol.Frame.{Frame, StreamId}
use windows_command_runner.Channel.{ChannelApi}
use windows_command_runner.Pump.Window.{
  StreamPump, Sending, sent, dropped, failed, waiting, fits, update_window, transmit,
  try_send_frame,
}
use windows_command_runner.Pump.Output.{
  Round, read_pipe_blocking, output_frame, eos_frame, wrapping_add_one, Progress, returned,
  after_send, send_eos, pump_loop, start_output_pump,
}

module _ (api : ChannelApi) where
  open api use {Sender, send, delivered, delivered-send}

  -- What holds of a call of `try_send_frame` under a drop policy, by its outcome. A frame that is
  -- sent is handed over once, at the end, and after it the bytes in flight are within the window; a
  -- frame is dropped only under the drop policy, and a call waits only without it.
  abbrev pub Sends : Bool → Sender → Frame → Sending Sender → Type 0
  Sends policy s f (sent p' s') =
      (delivered s' ≡ delivered s ++ f ∷ [])
      × (p'.bytes_in_flight ≤ p'.send_window)
      × (p'.drop_policy ≡ policy)
  Sends policy s f (dropped p') = (policy ≡ true) × (p'.drop_policy ≡ policy)
  Sends policy s f (failed p' e) = send s f ≡ none
  Sends policy s f (waiting p') = (policy ≡ false) × (p'.drop_policy ≡ policy)

  transmit-Sends :
      (p : StreamPump) (s : Sender) (f : Frame)
      → fits p (length f.payload) ≡ true
      → Sends p.drop_policy s f (transmit api p s f)
  unfolding transmit
  transmit-Sends p s f h = elim (Option-cases (send s f)) [
    | inl e ↦ rw (e, transmit) e
    | inr (s', e) ↦ rw (e, transmit) (delivered-send s s' f e, ground arith, refl)
  ]

  -- One round of its loop, whatever the later rounds come to.
  attempt-Sends :
      (p : StreamPump) (s : Sender) (f : Frame) (rest : Sending Sender)
      → (p.drop_policy ≡ false → Sends p.drop_policy s f rest)
      → Sends p.drop_policy s f (
          if fits p (length f.payload)
          then transmit api p s f
          else if p.drop_policy
          then dropped p
          else rest)
  attempt-Sends p s f rest later = elim (Bool-cases (fits p (length f.payload))) [
    | inl h ↦ rw h (transmit-Sends p s f h)
    | inr h ↦ rw h (elim (Bool-cases p.drop_policy) [
      | inl d ↦ simp d (refl, refl)
      | inr d ↦ simp d (simp d at (later d))
    ])
  ]

  -- Whatever window updates arrive, a call of `try_send_frame` that sends hands the frame over
  -- once, at the end, with the bytes in flight then within the window; it drops the frame only
  -- under the drop policy, waits only without it, and fails only because a send fails.
  pub try_send_frame_lem :
      (p : StreamPump) (s : Sender) (f : Frame) (updates : List ℕ)
      → Sends p.drop_policy s f (try_send_frame api p s f updates)
  unfolding try_send_frame update_window
  try_send_frame_lem p s f [] = attempt-Sends p s f (waiting p) (λ d. (d, refl))
  try_send_frame_lem p s f (u ∷ us) =
      attempt-Sends p s f (try_send_frame api (update_window p u) s f us)
        (λ _. try_send_frame_lem (update_window p u) s f us)

  -- If the code after a send has returned with success, the frame was sent.
  pub after_send_lem :
      (next : StreamPump → Sender → Progress Sender) (s : Sender) (f : Frame) (o : Sending Sender)
      (p' : StreamPump) (s' : Sender) (policy : Bool)
      → policy ≡ false
      → Sends policy s f o
      → after_send next s o ≡ returned p' s' (ok tt)
      → (q : StreamPump) × (t : Sender) × (o ≡ sent q t)
        × (next q t ≡ returned p' s' (ok tt))
        × (delivered t ≡ delivered s ++ f ∷ [])
        × (q.drop_policy ≡ false)
  unfolding after_send
  after_send_lem next s f (sent q t) p' s' policy d h e = (q, t, refl, e, h.0, h.2 ∙ d)
  after_send_lem next s f (dropped q) p' s' policy d h e = absurd (cc (d, h.0))
  after_send_lem next s f (failed q x) p' s' policy d h e = cc
  after_send_lem next s f (waiting q) p' s' policy d h e = cc

-- The chunks that the pump reads in its rounds, up to the first that ends it.
unfoldable pub reads : Hresults → List Round → List (List ℕ)
reads w [] = []
reads w (r ∷ rs) =
    let rest = reads w rs in
    if r.cancelled then [] else elim r.read [
      | none ↦ []
      | some outcome ↦ elim (read_pipe_blocking w outcome) [
        | err e ↦ []
        | ok result ↦
            if result.is_eof
            then []
            else if result.bytes_read == 0
            then rest
            else result.contents ∷ rest
      ]
    ]

-- A frame for each chunk, numbered in turn, and the end-of-stream frame with the next number.
unfoldable pub frames_from : ℕ → StreamId → ℕ → List (List ℕ) → List Frame
frames_from job_id stream_id n [] = eos_frame job_id stream_id n ∷ []
frames_from job_id stream_id n (c ∷ cs) =
    output_frame job_id stream_id n c ∷ frames_from job_id stream_id (wrapping_add_one n) cs

module _ (api : ChannelApi) (w : Hresults) (job_id : ℕ) (stream_id : StreamId) where
  open api use {Sender, delivered}

  eos-delivered :
      (p : StreamPump) (s : Sender) (n : ℕ) (updates : List ℕ) (p' : StreamPump) (s' : Sender)
      → p.drop_policy ≡ false
      → send_eos api w job_id stream_id p s n updates ≡ returned p' s' (ok tt)
      → delivered s' ≡ delivered s ++ eos_frame job_id stream_id n ∷ []
  unfolding send_eos
  eos-delivered p s n updates p' s' d e =
      let (q, t, _, e', del, _) =
        after_send_lem api (λ q t. returned q t (ok tt)) s (eos_frame job_id stream_id n)
          (try_send_frame api p s (eos_frame job_id stream_id n) updates) p' s' p.drop_policy d
          (try_send_frame_lem api p s (eos_frame job_id stream_id n) updates) e in
      cc (e', del)

  -- What one round does to the loop and to the chunks read.
  abbrev pub RoundView : StreamPump → Sender → ℕ → Round → List Round → Type 0
  RoundView p s n r rs =
      ((pump_loop api w job_id stream_id p s n (r ∷ rs)
          ≡ send_eos api w job_id stream_id p s n r.updates)
        × (reads w (r ∷ rs) ≡ []))
      ⊎ ((e : Error) × (pump_loop api w job_id stream_id p s n (r ∷ rs) ≡ returned p s (err e)))
      ⊎ ((pump_loop api w job_id stream_id p s n (r ∷ rs)
            ≡ pump_loop api w job_id stream_id p s n rs)
          × (reads w (r ∷ rs) ≡ reads w rs))
      ⊎ ((c : List ℕ) × (pump_loop api w job_id stream_id p s n (r ∷ rs)
            ≡ after_send (λ p' s'. pump_loop api w job_id stream_id p' s' (wrapping_add_one n) rs) s
                (try_send_frame api p s (output_frame job_id stream_id n c) r.updates))
          × (reads w (r ∷ rs) ≡ c ∷ reads w rs))

  pub round_view :
      (p : StreamPump) (s : Sender) (n : ℕ) (r : Round) (rs : List Round) → RoundView p s n r rs
  unfolding pump_loop reads
  round_view p s n r rs = elim (Bool-cases r.cancelled) [
    | inl c ↦ inl (rw c, rw c)
    | inr c ↦ elim (Option-cases r.read) [
      | inl e ↦ inr (inl (process_launch_failed spawn_blocking_failed, simp (c, e)))
      | inr (outcome, e) ↦ elim (Result-cases (read_pipe_blocking w outcome)) [
        | inr (x, f) ↦ inr (inl (x, simp (c, e, f)))
        | inl (result, f) ↦ elim (Bool-cases result.is_eof) [
          | inl eof ↦ inl (simp (c, e, f, eof), simp (c, e, f, eof))
          | inr more ↦ elim (Bool-cases (result.bytes_read == 0)) [
            | inl none_read ↦
                inr (inr (inl (simp (c, e, f, more, none_read), simp (c, e, f, more, none_read))))
            | inr some_read ↦ inr (
                inr (
                  inr (
                    result.contents,
                    simp (c, e, f, more, some_read),
                    simp (c, e, f, more, some_read),
                  )))
          ]
        ]
      ]
    ]
  ]

  pub not_returned :
      (p : StreamPump) (s : Sender) (n : ℕ) (p' : StreamPump) (s' : Sender) (x : Result (Unit {0}))
      → pump_loop api w job_id stream_id p s n [] ≢ returned p' s' x
  unfolding pump_loop
  not_returned p s n p' s' x e = cc

  pump_loop-delivered :
      (p : StreamPump) (s : Sender) (n : ℕ) (rounds : List Round) (p' : StreamPump) (s' : Sender)
      → p.drop_policy ≡ false
      → pump_loop api w job_id stream_id p s n rounds ≡ returned p' s' (ok tt)
      → delivered s' ≡ delivered s ++ frames_from job_id stream_id n (reads w rounds)
  unfolding frames_from
  pump_loop-delivered p s n [] p' s' d e = absurd (not_returned p s n p' s' (ok tt) e)
  pump_loop-delivered p s n (r ∷ rs) p' s' d e = elim (round_view p s n r rs) [
    | inl (q, none_read) ↦ rw none_read (eos-delivered p s n r.updates p' s' d (sym q ∙ e))
    | inr (inl (x, q)) ↦ cc (q, e)
    | inr (inr (inl (q, same))) ↦ rw same (pump_loop-delivered p s n rs p' s' d (sym q ∙ e))
    | inr (inr (inr (c, q, more))) ↦
        let (p1, s1, _, e1, del, d1) =
          after_send_lem api
            (λ p' s'. pump_loop api w job_id stream_id p' s' (wrapping_add_one n) rs) s
            (output_frame job_id stream_id n c)
            (try_send_frame api p s (output_frame job_id stream_id n c) r.updates) p' s'
            p.drop_policy d
            (try_send_frame_lem api p s (output_frame job_id stream_id n c) r.updates)
            (sym q ∙ e) in
        rw more
          (pump_loop-delivered p1 s1 (wrapping_add_one n) rs p' s' d1 e1 ∙ rw (del, append_assoc))
  ]

  -- A pump that blocks, as the server's pumps do, and that returns without an error has put on the
  -- channel, in order and numbered from 0, one frame for each chunk that it read, and last the
  -- end-of-stream frame: nothing is lost, repeated or reordered, whatever window updates came.
  pub start_output_pump-delivered :
      (p : StreamPump) (s : Sender) (rounds : List Round) (p' : StreamPump) (s' : Sender)
      → p.drop_policy ≡ false
      → start_output_pump api w job_id stream_id p s rounds ≡ returned p' s' (ok tt)
      → delivered s' ≡ delivered s ++ frames_from job_id stream_id 0 (reads w rounds)
  unfolding start_output_pump
  start_output_pump-delivered p s rounds p' s' d e = pump_loop-delivered p s 0 rounds p' s' d e
