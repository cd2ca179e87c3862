-- ===== src/Pump/Stall.antt =====
-- The window without acknowledgements: `update_window` has no caller in the repository, so this is
-- how the pumps of src/pipe_server.rs run.
use windows_command_runner.Base.{
  ℕ, ◌+◌, ◌≤◌, ◌<◌, ◌≡◌, ◌≢◌, sym, ◌∙◌, inl, inr, false, List, [], ◌∷◌, arith, length, All,
}
use windows_command_runner.Windows.{Hresults}
use windows_command_runner.Error.{ok}
use windows_command_runner.Protocol.Frame.{StreamId, max_payload_size}
use windows_command_runner.Channel.{ChannelApi}
use windows_command_runner.Pump.Window.{StreamPump, sent, u64_mod, transmit, try_send_frame}
use windows_command_runner.Pump.Output.{
  Round, output_frame, wrapping_add_one, returned, pump_loop, start_output_pump,
}
use windows_command_runner.Pump.Frames.{
  reads, round_view, not_returned, after_send_lem, try_send_frame_lem,
}

-- The number of bytes in the chunks.
unfoldable pub total : List (List ℕ) → ℕ
total [] = 0
total (c ∷ cs) = length c + total cs

-- No window update arrives in any round.
abbrev pub IsUnacknowledged : List Round → Type 0
IsUnacknowledged = All (λ r. r.updates ≡ [])

module _ (api : ChannelApi) (w : Hresults) (job_id : ℕ) (stream_id : StreamId) where
  open api use {Sender}

  -- An output frame that is sent without an update takes its size out of the window.
  output_frame-sent :
      (p : StreamPump) (s : Sender) (n : ℕ) (c : List ℕ) (q : StreamPump) (t : Sender)
      → p.bytes_in_flight + length c < u64_mod
      → try_send_frame api p s (output_frame job_id stream_id n c) [] ≡ sent q t
      → (q.send_window ≡ p.send_window)
        × (q.bytes_in_flight ≡ p.bytes_in_flight + length c)
        × (q.bytes_in_flight ≤ q.send_window)
  unfolding try_send_frame transmit output_frame
  output_frame-sent p s n c q t range e = ground arith

  pump_loop-total :
      (p : StreamPump) (s : Sender) (n : ℕ) (rounds : List Round) (p' : StreamPump) (s' : Sender)
      → p.drop_policy ≡ false
      → p.bytes_in_flight ≤ p.send_window
      → p.send_window + max_payload_size < u64_mod
      → IsUnacknowledged rounds
      → All (λ c. length c ≤ max_payload_size) (reads w rounds)
      → pump_loop api w job_id stream_id p s n rounds ≡ returned p' s' (ok tt)
      → p.bytes_in_flight + total (reads w rounds) ≤ p.send_window
  unfolding total
  pump_loop-total p s n [] p' s' d fit range u small e =
      absurd (not_returned api w job_id stream_id p s n p' s' (ok tt) e)
  pump_loop-total p s n (r ∷ rs) p' s' d fit range u small e =
      elim (round_view api w job_id stream_id p s n r rs) [
        | inl (q, none_read) ↦ rw none_read (omega arith)
        | inr (inl (x, q)) ↦ cc (q, e)
        | inr (inr (inl (q, same))) ↦
            rw same (pump_loop-total p s n rs p' s' d fit range u.1 (rw same at small) (sym q ∙ e))
        | inr (inr (inr (c, q, more))) ↦
            let frame = output_frame job_id stream_id n c in
            let (p1, s1, e0, e1, _, d1) =
              after_send_lem api
                (λ p' s'. pump_loop api w job_id stream_id p' s' (wrapping_add_one n) rs) s frame
                (try_send_frame api p s frame r.updates) p' s' p.drop_policy d
                (try_send_frame_lem api p s frame r.updates) (sym q ∙ e) in
            let small' : All (λ c. length c ≤ max_payload_size) (c ∷ reads w rs) =
              rw more at small in
            let (same, grows, within) =
              output_frame-sent p s n c p1 s1 (omega (arith, small'.0, fit, range))
                (rw u.0 at e0) in
            let rest =
              pump_loop-total p1 s1 (wrapping_add_one n) rs p' s' d1 within
                (omega (arith, same, range)) u.1 small'.1 e1 in
            rw more (omega (arith, rest, same, grows))
      ]

  -- A pump that blocks and gets no window update can return without an error only if all that it
  -- read fits into its window: a process that writes more is never drained, and its end-of-stream
  -- frame is never sent.
  pub start_output_pump_stalls :
      (p : StreamPump) (s : Sender) (rounds : List Round) (p' : StreamPump) (s' : Sender)
      → p.drop_policy ≡ false
      → p.bytes_in_flight ≤ p.send_window
      → p.send_window + max_payload_size < u64_mod
      → IsUnacknowledged rounds
      → All (λ c. length c ≤ max_payload_size) (reads w rounds)
      → p.send_window < p.bytes_in_flight + total (reads w rounds)
      → start_output_pump api w job_id stream_id p s rounds ≢ returned p' s' (ok tt)
  unfolding start_output_pump
  start_output_pump_stalls p s rounds p' s' d fit range u small over e =
      omega (arith, pump_loop-total p s 0 rounds p' s' d fit range u small e, over)
