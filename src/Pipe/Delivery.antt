-- ===== src/Pipe/Delivery.antt =====
-- What the reads and writes of src/pipe_server.rs do to the bytes on a pipe, from what is
-- documented of `ReadFile` and `WriteFile` on a blocking byte pipe.
use mathlib.Core.WellFounded.{Acc}
use mathlib.Core.Path.{subst}
use mathlib.Core.List.{append_assoc, append-nil}
use windows_command_runner.Base.{
  ℕ, zero, suc, ◌-◌, ◌<◌, ◌≤◌, ◌≡◌, refl, sym, ap, ◌∙◌, ◌⊎◌, inl, inr, List, [], ◌∷◌, ◌++◌, length,
  take, drop, arith, length-append, Option, none, some,
}
use windows_command_runner.Base.Order.{lt_wf}
use windows_command_runner.Error.{Result, ok, err}
use windows_command_runner.Pipe.Io.{
  PipeApi, pipe_after, Reading, Writing, got, read_error, wrote, write_error, read_loop, read_exact,
  write_loop, write_all, shrinks,
}

-- A read takes bytes from the front of those that wait on the pipe, at most as many as the buffer
-- holds. A write that succeeds appends the front of the bytes given, one at least. The two
-- directions of the pipe are apart: a read leaves what was written, and a write the bytes that
-- wait.
pub record PipeLaws (api : PipeApi) : Type 0 where
  pub pending : api.Pipe → List ℕ
  pub written : api.Pipe → List ℕ
  pub read_takes :
      (p q : api.Pipe) (k : ℕ) (bs : List ℕ)
      → api.read_file p k ≡ got bs q
      → (pending p ≡ bs ++ pending q) × (length bs ≤ k)
  pub write_appends :
      (p q : api.Pipe) (bs : List ℕ) (n : ℕ)
      → 0 < length bs
      → api.write_file p bs ≡ wrote n q
      → (0 < n) × (n ≤ length bs) × (written q ≡ written p ++ take n bs)
  pub read_keeps : (p : api.Pipe) (k : ℕ) → written (pipe_after (api.read_file p k)) ≡ written p
  pub write_keeps :
      (p q : api.Pipe) (bs : List ℕ) (n : ℕ)
      → api.write_file p bs ≡ wrote n q
      → pending q ≡ pending p

-- While bytes wait, a read with room in its buffer gets some.
abbrev pub ReadProgress : (api : PipeApi) → PipeLaws api → Type 0
ReadProgress api laws =
    (p : api.Pipe) (k : ℕ)
    → 0 < k
    → 0 < length (laws.pending p)
    → (b : ℕ) × (bs : List ℕ) × (q : api.Pipe) × (api.read_file p k ≡ got (b ∷ bs) q)

take-append-drop {ℓ} : {A : Type ℓ} (n : ℕ) (xs : List A) → take n xs ++ drop n xs ≡ xs
take-append-drop zero xs = refl
take-append-drop (suc n) [] = refl
take-append-drop (suc n) (x ∷ xs) = ap (◌∷◌ x) (take-append-drop n xs)

length-drop {ℓ} : {A : Type ℓ} (n : ℕ) (xs : List A) → length (drop n xs) ≡ length xs - n
length-drop zero xs = omega arith
length-drop (suc n) [] = omega arith
length-drop (suc n) (x ∷ xs) = omega (arith, length-drop n xs)

take_append {ℓ} : {A : Type ℓ} (xs ys : List A) → take (length xs) (xs ++ ys) ≡ xs
take_append [] ys = refl
take_append (x ∷ xs) ys = ap (◌∷◌ x) (take_append xs ys)

pub Writing-cases :
    {P : Type 0} (o : Writing P)
    → ((code : ℕ) × (q : P) × (o ≡ write_error code q)) ⊎ ((n : ℕ) × (q : P) × (o ≡ wrote n q))
Writing-cases (write_error code q) = inl (code, q, refl)
Writing-cases (wrote n q) = inr (n, q, refl)

pub Reading-cases :
    {P : Type 0} (o : Reading P)
    → ((code : ℕ) × (q : P) × (o ≡ read_error code q))
      ⊎ ((q : P) × (o ≡ got [] q))
      ⊎ ((b : ℕ) × (bs : List ℕ) × (q : P) × (o ≡ got (b ∷ bs) q))
Reading-cases (read_error code q) = inl (code, q, refl)
Reading-cases (got [] q) = inr (inl (q, refl))
Reading-cases (got (b ∷ bs) q) = inr (inr (b, bs, q, refl))

append_cancel :
    (xs ys us vs : List ℕ) → length xs ≡ length us → xs ++ ys ≡ us ++ vs → (xs ≡ us) × (ys ≡ vs)
append_cancel [] ys [] vs h e = (refl, e)
append_cancel [] ys (u ∷ us) vs h e = absurd (omega arith)
append_cancel (x ∷ xs) ys [] vs h e = absurd (omega arith)
append_cancel (x ∷ xs) ys (u ∷ us) vs h e =
    let (same, rest) = append_cancel xs ys us vs (omega arith) (cc) in (cc (same, e), rest)

module _ (api : PipeApi) (laws : PipeLaws api) where
  open api use {Pipe, read_file, write_file}
  open laws use {pending, written, read_takes, write_appends}

  -- How `write_all` ends: it returns, and if it succeeds everything was written, in order.
  abbrev pub Writes : Pipe → List ℕ → Option (Pipe × Result (Unit {0})) → Type 0
  Writes p bs none = ⊥
  Writes p bs (some (q, err e)) = Unit {0}
  Writes p bs (some (q, ok _)) = written q ≡ written p ++ bs

  -- Writes add up.
  pub Writes-append :
      (p q : Pipe) (front bs : List ℕ) (r : Option (Pipe × Result (Unit {0})))
      → written q ≡ written p ++ front
      → Writes q bs r
      → Writes p (front ++ bs) r
  Writes-append p q front bs none e w = w
  Writes-append p q front bs (some (t, err x)) e w = tt
  Writes-append p q front bs (some (t, ok _)) e w = w ∙ rw (e, append_assoc)

  write_loop-Writes :
      (fuel : ℕ) (p : Pipe) (bs : List ℕ)
      → length bs ≤ fuel
      → Writes p bs (write_loop api fuel p bs)
  unfolding write_loop
  write_loop-Writes fuel p [] h = simp append-nil
  write_loop-Writes zero p (b ∷ bs) h = absurd (omega arith)
  write_loop-Writes (suc fuel) p (b ∷ bs) h = elim (Writing-cases (write_file p (b ∷ bs))) [
    | inl (code, q, e) ↦ rw (e, write_loop) tt
    | inr (n, q, e) ↦
        let (pos, _, adds) = write_appends p q (b ∷ bs) n (omega arith) e in
        rw (e, write_loop)
          (subst (λ xs. Writes p xs (write_loop api fuel q (drop n (b ∷ bs))))
            (take-append-drop n (b ∷ bs))
            (Writes-append p q (take n (b ∷ bs)) (drop n (b ∷ bs)) _ adds (
              write_loop-Writes fuel q (drop n (b ∷ bs))
                (omega (arith, length-drop n (b ∷ bs), pos, h)))))
  ]

  -- `write_all` always returns, whatever sizes the single writes have, one byte at least, and when
  -- it returns with success it has written exactly the bytes given, in order.
  pub write_all-Writes : (p : Pipe) (bs : List ℕ) → Writes p bs (write_all api p bs)
  unfolding write_all
  write_all-Writes p bs = write_loop-Writes (length bs) p bs (omega arith)

  -- What a successful `read_exact` has done.
  abbrev pub Reads : Pipe → ℕ → List ℕ → Pipe × Result (List ℕ) → Type 0
  Reads p size buffer (q, err e) = Unit {0}
  Reads p size buffer (q, ok bytes) =
      (bs : List ℕ) × (bytes ≡ buffer ++ bs) × (length bs ≡ size) × (pending p ≡ bs ++ pending q)

  Reads-append :
      (p q : Pipe) (size : ℕ) (buffer c : List ℕ) (r : Pipe × Result (List ℕ))
      → pending p ≡ c ++ pending q
      → length c ≤ size
      → Reads q (size - length c) (buffer ++ c) r
      → Reads p size buffer r
  Reads-append p q size buffer c (t, err e) takes fits h = tt
  Reads-append p q size buffer c (t, ok bytes) takes fits (bs, same, len, rest) = (
    c ++ bs,
    same ∙ append_assoc buffer c bs,
    omega (arith, length-append c bs, len, fits),
    rw (takes, rest, append_assoc c bs (pending t)),
  )

  read_loop-Reads :
      (p : Pipe) (wanted : ℕ) (buffer : List ℕ) (a : Acc ◌<◌ wanted)
      → Reads p wanted buffer (read_loop api p wanted buffer a)
  unfolding read_loop
  read_loop-Reads p zero buffer (Acc.intro _ smaller) = ([], simp append-nil, refl, refl)
  read_loop-Reads p (suc k) buffer (Acc.intro _ smaller) =
      elim (Reading-cases (read_file p (suc k))) [
        | inl (code, q, e) ↦ rw (e, read_loop) tt
        | inr (inl (q, e)) ↦ rw (e, read_loop) tt
        | inr (inr (b, bs, q, e)) ↦
            let (takes, fits) = read_takes p q (suc k) (b ∷ bs) e in
            rw (e, read_loop)
              (Reads-append p q (suc k) buffer (b ∷ bs) _ takes fits (
                read_loop-Reads q (suc k - suc (length bs)) (buffer ++ b ∷ bs)
                  (smaller _ (shrinks k (length bs)))))
      ]

  -- A `read_exact` that succeeds returns exactly the number of bytes asked for, the first that
  -- waited on the pipe, and leaves the others.
  read_exact-Reads : (p : Pipe) (size : ℕ) → Reads p size [] (read_exact api p size)
  unfolding read_exact
  read_exact-Reads p size = read_loop-Reads p size [] (lt_wf.apply size)

  module _ (progress : ReadProgress api laws) where
    read_loop-succeeds :
        (p : Pipe) (wanted : ℕ) (buffer : List ℕ) (a : Acc ◌<◌ wanted)
        → wanted ≤ length (pending p)
        → (q : Pipe) × (bytes : List ℕ) × (read_loop api p wanted buffer a ≡ (q, ok bytes))
    unfolding read_loop
    read_loop-succeeds p zero buffer (Acc.intro _ smaller) h = (p, buffer, refl)
    read_loop-succeeds p (suc k) buffer (Acc.intro _ smaller) h =
        let (b, bs, q, e) = progress p (suc k) (omega arith) (omega arith) in
        let (takes, fits) = read_takes p q (suc k) (b ∷ bs) e in
        let (t, bytes, done) =
          read_loop-succeeds q (suc k - suc (length bs)) (buffer ++ b ∷ bs)
            (smaller _ (shrinks k (length bs)))
            (omega (arith, ap length takes, length-append (b ∷ bs) (pending q), fits, h)) in
        (t, bytes, rw (e, read_loop) done)

    -- When the bytes asked for wait at the front of the pipe, `read_exact` returns them, in however
    -- many pieces the reads deliver them, and leaves the rest.
    pub read_exact_gets :
        (p : Pipe) (bs rest : List ℕ)
        → pending p ≡ bs ++ rest
        → (q : Pipe) × (read_exact api p (length bs) ≡ (q, ok bs)) × (pending q ≡ rest)
    unfolding read_exact
    read_exact_gets p bs rest e =
        let (q, bytes, done) =
          read_loop-succeeds p (length bs) [] (lt_wf.apply (length bs))
            (omega (arith, ap length e, length-append bs rest)) in
        let reads : Reads p (length bs) [] (q, ok bytes) =
          rw done at (read_loop-Reads p (length bs) [] (lt_wf.apply (length bs))) in
        let (bs', same, len, front) = reads in
        let (eq, left) = append_cancel bs' (pending q) bs rest len (sym front ∙ e) in
        (q, done ∙ ap (λ (x : List ℕ). (q, ok x)) (same ∙ eq), left)
