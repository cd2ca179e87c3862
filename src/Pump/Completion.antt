-- ===== src/Pump/Completion.antt =====
-- That the output pump of src/io_pump.rs comes to its end.
use windows_command_runner.Base.{
  ℕ, ◌+◌, ◌%◌, ◌≤◌, ◌<◌, ◌≡◌, refl, ap, ◌∙◌, ◌⊎◌, inl, inr, true, false, some, List, [], ◌∷◌, ◌++◌,
  arith, length, Bool-cases, ◌==◌,
}
use windows_command_runner.Windows.{Hresults, ReadOutcome}
use windows_command_runner.Error.{ok}
use windows_command_runner.Protocol.Frame.{Frame, StreamId}
use windows_command_runner.Channel.{ChannelApi}
use windows_command_runner.Pump.Window.{StreamPump, sent, u64_mod, fits, transmit, try_send_frame}
use windows_command_runner.Pump.Output.{
  Round, PipeReadResult, read_pipe_blocking, output_frame, eos_frame, wrapping_add_one, returned,
  after_send, send_eos, pump_loop, start_output_pump,
}
use windows_command_runner.Pump.Frames.{reads, frames_from, start_output_pump-delivered}
use windows_command_runner.Pump.Stall.{total}

-- The rounds meet no failing read, and one of them is cancelled or reads the end of the pipe.
abbrev pub IsDrained : Hresults → List Round → Type 0
IsDrained w [] = ⊥
IsDrained w (r ∷ rs) =
    (r.cancelled ≡ true)
    ⊎ ((outcome : ReadOutcome) × (result : PipeReadResult) × (r.read ≡ some outcome)
        × (read_pipe_blocking w outcome ≡ ok result)
        × ((result.is_eof ≡ true) ⊎ IsDrained w rs))

fits-eq :
    (p : StreamPump) (n : ℕ)
    → p.bytes_in_flight + n ≤ p.send_window
    → p.send_window < u64_mod
    → fits p n ≡ true
fits-eq p n fit range = ground arith

-- The receiver of the channel is there.
abbrev pub IsOpen : ChannelApi → Type 0
IsOpen api = (s : api.Sender) (f : Frame) → (t : api.Sender) × (api.send s f ≡ some t)

module _ (api : ChannelApi) (is_open : IsOpen api) where
  open api use {Sender, send}

  transmit-sent :
      (p : StreamPump) (s : Sender) (f : Frame)
      → p.bytes_in_flight + length f.payload ≤ p.send_window
      → p.send_window < u64_mod
      → (q : StreamPump) × (t : Sender) × (transmit api p s f ≡ sent q t)
        × (q.bytes_in_flight ≡ p.bytes_in_flight + length f.payload)
        × (q.send_window ≡ p.send_window)
  unfolding transmit
  transmit-sent p s f fit range =
      let (t, e) = is_open s f in
      (
        record p { bytes_in_flight = (p.bytes_in_flight + length f.payload) % u64_mod },
        t,
        rw (e, transmit) refl,
        omega arith,
        refl,
      )

  try_send_frame-transmit :
      (p : StreamPump) (s : Sender) (f : Frame) (updates : List ℕ)
      → p.bytes_in_flight + length f.payload ≤ p.send_window
      → p.send_window < u64_mod
      → try_send_frame api p s f updates ≡ transmit api p s f
  unfolding try_send_frame
  try_send_frame-transmit p s f [] fit range = rw (fits-eq p (length f.payload) fit range) refl
  try_send_frame-transmit p s f (u ∷ us) fit range =
      rw (fits-eq p (length f.payload) fit range) refl

  -- A frame that fits is sent at once, whatever updates are to come.
  try_send_frame-fits :
      (p : StreamPump) (s : Sender) (f : Frame) (updates : List ℕ)
      → p.bytes_in_flight + length f.payload ≤ p.send_window
      → p.send_window < u64_mod
      → (q : StreamPump) × (t : Sender) × (try_send_frame api p s f updates ≡ sent q t)
        × (q.bytes_in_flight ≡ p.bytes_in_flight + length f.payload)
        × (q.send_window ≡ p.send_window)
  try_send_frame-fits p s f updates fit range =
      let (q, t, e, grown, same) = transmit-sent p s f fit range in
      (q, t, try_send_frame-transmit p s f updates fit range ∙ e, grown, same)

  module _ (w : Hresults) (job_id : ℕ) (stream_id : StreamId) where
    send_eos-returns :
        (p : StreamPump) (s : Sender) (n : ℕ) (updates : List ℕ)
        → p.bytes_in_flight ≤ p.send_window
        → p.send_window < u64_mod
        → (q : StreamPump) × (t : Sender) × (send_eos api w job_id stream_id p s n updates
            ≡ returned q t (ok tt))
    unfolding send_eos after_send eos_frame
    send_eos-returns p s n updates fit range =
        let (q, t, e, _, _) =
          try_send_frame-fits p s (eos_frame job_id stream_id n) updates (omega arith) range in
        (q, t, rw (e, send_eos))

    pump_loop-returns :
        (p : StreamPump) (s : Sender) (n : ℕ) (rounds : List Round)
        → p.bytes_in_flight + total (reads w rounds) ≤ p.send_window
        → p.send_window < u64_mod
        → IsDrained w rounds
        → (q : StreamPump) × (t : Sender) × (pump_loop api w job_id stream_id p s n rounds
            ≡ returned q t (ok tt))
    unfolding pump_loop reads total after_send
    pump_loop-returns p s n [] fit range d = absurd d
    pump_loop-returns p s n (r ∷ rs) fit range d = elim (Bool-cases r.cancelled) [
      | inl c ↦
          let (q, t, e) = send_eos-returns p s n r.updates (omega arith) range in
          (q, t, rw (c, pump_loop) e)
      | inr c ↦ elim d [
        | inl c' ↦ cc (c, c')
        | inr (outcome, result, e, f, more) ↦ elim (Bool-cases result.is_eof) [
          | inl eof ↦
              let (q, t, sent_eos) = send_eos-returns p s n r.updates (omega arith) range in
              (q, t, rw (c, pump_loop) (rw e (rw f (rw eof sent_eos))))
          | inr open' ↦ elim more [
            | inl eof ↦ cc (eof, open')
            | inr later ↦ elim (Bool-cases (result.bytes_read == 0)) [
              | inl none_read ↦
                  let eqp : pump_loop api w job_id stream_id p s n (r ∷ rs)
                      ≡ pump_loop api w job_id stream_id p s n rs =
                    simp (c, e, f, open', none_read) in
                  let eqr : reads w (r ∷ rs) ≡ reads w rs = simp (c, e, f, open', none_read) in
                  let (q, t, done) =
                    pump_loop-returns p s n rs (omega (arith, ap total eqr, fit)) range later in
                  (q, t, eqp ∙ done)
              | inr some_read ↦
                  let frame = output_frame job_id stream_id n result.contents in
                  let eqp : pump_loop api w job_id stream_id p s n (r ∷ rs)
                      ≡ after_send
                          (λ p' s'. pump_loop api w job_id stream_id p' s' (wrapping_add_one n) rs)
                          s (try_send_frame api p s frame r.updates) =
                    simp (c, e, f, open', some_read) in
                  let eqr : reads w (r ∷ rs) ≡ result.contents ∷ reads w rs =
                    simp (c, e, f, open', some_read) in
                  let all = ap total eqr in
                  let size : length frame.payload ≡ length result.contents =
                    unfold output_frame in refl in
                  let (p1, s1, e1, grown, same) =
                    try_send_frame-fits p s frame r.updates (omega (arith, all, fit, size)) range in
                  let (q, t, done) =
                    pump_loop-returns p1 s1 (wrapping_add_one n) rs
                      (omega (arith, all, fit, size, grown, same)) (omega (arith, same, range))
                      later in
                  (q, t, eqp ∙ rw (e1, after_send) done)
            ]
          ]
        ]
      ]
    ]

    -- A pump that blocks, whose rounds are drained and whose window holds all that they read,
    -- returns without an error while the receiver is there, whatever window updates come; on the
    -- channel are then one frame for each chunk, in order and numbered from 0, and last the
    -- end-of-stream frame.
    pub start_output_pump-completes :
        (p : StreamPump) (s : Sender) (rounds : List Round)
        → p.drop_policy ≡ false
        → p.bytes_in_flight + total (reads w rounds) ≤ p.send_window
        → p.send_window < u64_mod
        → IsDrained w rounds
        → (q : StreamPump) × (t : Sender) × (start_output_pump api w job_id stream_id p s rounds
            ≡ returned q t (ok tt))
          × (api.delivered t ≡ api.delivered s ++ frames_from job_id stream_id 0 (reads w rounds))
    unfolding start_output_pump
    start_output_pump-completes p s rounds policy fit range d =
        let (q, t, e) = pump_loop-returns p s 0 rounds fit range d in
        (q, t, e, start_output_pump-delivered api w job_id stream_id p s rounds q t policy e)
