-- ===== src/Pipe/Directions.antt =====
-- The two directions of the pipe of src/pipe_server.rs are apart: `read_frame` writes nothing, and
-- `write_frame` takes nothing off the bytes that wait.
use mathlib.Core.WellFounded.{Acc}
use windows_command_runner.Base.{
  ℕ, zero, suc, ◌-◌, ◌<◌, ◌≡◌, refl, ap, ◌∙◌, inl, inr, Option, none, some, List, [], ◌∷◌, ◌++◌,
  length, drop, ltb, Bool-cases,
}
use windows_command_runner.Base.Order.{lt_wf}
use windows_command_runner.Error.{Result, ok, err, Result-cases}
use windows_command_runner.Protocol.Bytes.{Endian, BytesApi, to_be_bytes_u32}
use windows_command_runner.Protocol.Frame.{Frame, encode}
use windows_command_runner.Pipe.Io.{
  PipeApi, read_loop, read_exact, read_body, read_sized, read_frame, max_length, length_prefix,
  write_loop, write_all, write_rest, write_frame, shrinks,
}
use windows_command_runner.Pipe.Delivery.{PipeLaws, Writing-cases, Reading-cases}

module _ (pipe : PipeApi) (laws : PipeLaws pipe) where
  open pipe use {Pipe, read_file, write_file}
  open laws use {pending, written, read_keeps, write_keeps}

  read_loop-written :
      (p : Pipe) (wanted : ℕ) (buffer : List ℕ) (a : Acc ◌<◌ wanted)
      → written (read_loop pipe p wanted buffer a).0 ≡ written p
  unfolding read_loop
  read_loop-written p zero buffer (Acc.intro _ smaller) = refl
  read_loop-written p (suc k) buffer (Acc.intro _ smaller) =
      elim (Reading-cases (read_file p (suc k))) [
        | inl (code, q, e) ↦ rw (e, read_loop) (rw e at (read_keeps p (suc k)))
        | inr (inl (q, e)) ↦ rw (e, read_loop) (rw e at (read_keeps p (suc k)))
        | inr (inr (b, bs, q, e)) ↦
            rw (e, read_loop)
              (read_loop-written q (suc k - suc (length bs)) (buffer ++ b ∷ bs)
                  (smaller _ (shrinks k (length bs)))
                ∙ (rw e at (read_keeps p (suc k))))
      ]

  read_exact-written : (p : Pipe) (size : ℕ) → written (read_exact pipe p size).0 ≡ written p
  unfolding read_exact
  read_exact-written p size = read_loop-written p size [] (lt_wf.apply size)

  read_body_state : (r : Pipe × Result (List ℕ)) → (read_body pipe r).0 ≡ r.0
  unfolding read_body
  read_body_state (p, err e) = refl
  read_body_state (p, ok bytes) = refl

  read_sized-written : (r : Pipe × Result (List ℕ)) → written (read_sized pipe r).0 ≡ written r.0
  unfolding read_sized
  read_sized-written (p, err e) = refl
  read_sized-written (p, ok len_buf) =
      elim (Bool-cases (ltb (max_length pipe) (length_prefix pipe len_buf))) [
        | inl long ↦ rw long refl
        | inr short ↦ rw short (
            ap written (read_body_state (read_exact pipe p (length_prefix pipe len_buf)))
            ∙ read_exact-written p (length_prefix pipe len_buf))
      ]

  pub read_frame-written : (p : Pipe) → written (read_frame pipe p).0 ≡ written p
  unfolding read_frame
  read_frame-written p = read_sized-written (read_exact pipe p 4) ∙ read_exact-written p 4

  -- A write that succeeds has left the bytes that wait.
  abbrev pub Keeps {ℓ} : {A : Type ℓ} → Pipe → Option (Pipe × Result A) → Type 0
  Keeps p none = Unit {0}
  Keeps p (some (q, err e)) = Unit {0}
  Keeps p (some (q, ok _)) = pending q ≡ pending p

  Keeps-then :
      (p q : Pipe) (r : Option (Pipe × Result (Unit {0})))
      → pending q ≡ pending p
      → Keeps q r
      → Keeps p r
  Keeps-then p q none e k = tt
  Keeps-then p q (some (t, err x)) e k = tt
  Keeps-then p q (some (t, ok _)) e k = k ∙ e

  write_loop-Keeps : (fuel : ℕ) (p : Pipe) (bs : List ℕ) → Keeps p (write_loop pipe fuel p bs)
  unfolding write_loop
  write_loop-Keeps fuel p [] = refl
  write_loop-Keeps zero p (b ∷ bs) = tt
  write_loop-Keeps (suc fuel) p (b ∷ bs) = elim (Writing-cases (write_file p (b ∷ bs))) [
    | inl (code, q, e) ↦ rw (e, write_loop) tt
    | inr (n, q, e) ↦
        rw (e, write_loop)
          (Keeps-then p q _ (write_keeps p q (b ∷ bs) n e)
            (write_loop-Keeps fuel q (drop n (b ∷ bs))))
  ]

  write_all-Keeps : (p : Pipe) (bs : List ℕ) → Keeps p (write_all pipe p bs)
  unfolding write_all
  write_all-Keeps p bs = write_loop-Keeps (length bs) p bs

  write_rest-Keeps :
      (p : Pipe) (bs : List ℕ) (r : Option (Pipe × Result (Unit {0})))
      → Keeps p r
      → Keeps p (write_rest pipe bs r)
  unfolding write_rest
  write_rest-Keeps p bs none k = tt
  write_rest-Keeps p bs (some (q, err e)) k = tt
  write_rest-Keeps p bs (some (q, ok _)) k =
      Keeps-then p q (write_all pipe q bs) k (write_all-Keeps q bs)

  pub write_frame-Keeps :
      (b : BytesApi) (e : Endian) (p : Pipe) (f : Frame) → Keeps p (write_frame pipe b e p f)
  unfolding write_frame
  write_frame-Keeps b e p f = elim (Result-cases (encode b e f)) [
    | inl (bytes, q) ↦
        rw (q, write_frame)
          (write_rest-Keeps p bytes _ (write_all-Keeps p (to_be_bytes_u32 (length bytes))))
    | inr (x, q) ↦ rw (q, write_frame) tt
  ]
