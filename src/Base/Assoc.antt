-- ===== src/Base/Assoc.antt =====
-- A map from numbers as an association list: the model of `DashMap<u32, V>`. The order of the list
-- is the order in which the map is iterated, on which no statement depends.
use Prim.Native.Nat.{ℕ, suc, ◌+◌}
use mathlib.Core.Path.{◌≡◌, refl, sym, ap, subst, subst₂, ◌∙◌}
use mathlib.Core.Logic.{inl, inr}
use mathlib.Core.Bool.{Bool, true, false}
use mathlib.Core.Option
use mathlib.Core.Option.{Option, none, some}
use mathlib.Core.List.{List, [], ◌∷◌}
use native.Mathlib.Omega.{arith}
use windows_command_runner.Base.Tests.{◌==◌, if◌then◌else◌, ==_iff, Bool-cases}
use windows_command_runner.Base.Lists.{length}

module _ {ℓ} {V : Type ℓ} where
  unfoldable pub get : ℕ → List (ℕ × V) → Option V
  get k [] = none
  get k ((j, v) ∷ m) = if j == k then some v else get k m

  unfoldable pub contains_key : ℕ → List (ℕ × V) → Bool
  contains_key k [] = false
  contains_key k ((j, v) ∷ m) = if j == k then true else contains_key k m

  unfoldable pub remove : ℕ → List (ℕ × V) → List (ℕ × V)
  remove k [] = []
  remove k ((j, v) ∷ m) = let rest = remove k m in if j == k then rest else (j, v) ∷ rest

  -- The entry of a key that is there is replaced.
  unfoldable pub insert : ℕ → V → List (ℕ × V) → List (ℕ × V)
  insert k v m = (k, v) ∷ remove k m

  -- A write through the shared pointer under a key.
  unfoldable pub update : ℕ → (V → V) → List (ℕ × V) → List (ℕ × V)
  update k f [] = []
  update k f ((j, v) ∷ m) = (j, if j == k then f v else v) ∷ update k f m

  unfoldable pub keys : List (ℕ × V) → List ℕ
  keys [] = []
  keys ((j, v) ∷ m) = j ∷ keys m

  -- The entries whose value passes a test.
  unfoldable pub keep : (V → Bool) → List (ℕ × V) → List (ℕ × V)
  keep p [] = []
  keep p ((j, v) ∷ m) = let rest = keep p m in if p v then (j, v) ∷ rest else rest

  -- No key stands twice.
  abbrev pub UniqueKeys : List (ℕ × V) → Type 0
  UniqueKeys [] = Unit {0}
  UniqueKeys ((k, v) ∷ m) = (contains_key k m ≡ false) × UniqueKeys m

  -- The value of every entry, with its key, has the property.
  abbrev pub AllEntries {κ} : (ℕ → V → Type κ) → List (ℕ × V) → Type κ
  AllEntries P [] = Unit {κ}
  AllEntries P ((k, v) ∷ m) = P k v × AllEntries P m

module _ {ℓ} {V : Type ℓ} where
  pub contains_key-eq-false : (k : ℕ) (m : List (ℕ × V)) → contains_key k m ≡ false → get k m ≡ none
  unfolding contains_key get
  contains_key-eq-false k [] h = refl
  contains_key-eq-false k ((j, v) ∷ m) h = ground (arith, contains_key-eq-false k m)

  pub contains_key_of_get :
      (k : ℕ) (m : List (ℕ × V)) (v : V) → get k m ≡ some v → contains_key k m ≡ true
  unfolding contains_key get
  contains_key_of_get k [] v h = cc
  contains_key_of_get k ((j, w) ∷ m) v h = ground (arith, contains_key_of_get k m v)

  update_absent :
      (k : ℕ) (f : V → V) (m : List (ℕ × V)) → contains_key k m ≡ false → update k f m ≡ m
  unfolding contains_key update
  update_absent k f [] h = refl
  update_absent k f ((j, v) ∷ m) h = ground (arith, update_absent k f m)

  pub get-remove :
      (j k : ℕ) (m : List (ℕ × V)) → get j (remove k m) ≡ (if j == k then none else get j m)
  unfolding get remove
  get-remove j k [] = ground arith
  get-remove j k ((i, v) ∷ m) = ground (arith, get-remove j k m)

  pub get-insert :
      (j k : ℕ) (v : V) (m : List (ℕ × V))
      → get j (insert k v m) ≡ (if j == k then some v else get j m)
  unfolding get insert
  get-insert j k v m = ground (arith, get-remove j k m)

  get-update :
      (j k : ℕ) (f : V → V) (m : List (ℕ × V))
      → get j (update k f m) ≡ (if j == k then Option.map f (get j m) else get j m)
  unfolding get update
  get-update j k f [] = ground arith
  get-update j k f ((i, v) ∷ m) = ground (arith, get-update j k f m)

  -- A write to an entry that is there.
  pub get-update-some :
      (j k : ℕ) (f : V → V) (m : List (ℕ × V)) (v : V)
      → get k m ≡ some v
      → get j (update k f m) ≡ (if j == k then some (f v) else get j m)
  get-update-some j k f m v e = rw (get-update j k f m) (elim (Bool-cases (j == k)) [
    | inl same ↦ rw (same, (==_iff j k).0 same, e)
    | inr other ↦ rw other
  ])

  pub update-update :
      (k : ℕ) (f g : V → V) (m : List (ℕ × V))
      → update k f (update k g m) ≡ update k (λ v. f (g v)) m
  unfolding update
  update-update k f g [] = refl
  update-update k f g ((j, v) ∷ m) = elim (Bool-cases (j == k)) [
    | inl same ↦ rw same (ap (◌∷◌ (j, f (g v))) (update-update k f g m))
    | inr other ↦ rw other (ap (◌∷◌ (j, v)) (update-update k f g m))
  ]

  pub get-update_self :
      (k : ℕ) (f : V → V) (m : List (ℕ × V)) (v : V)
      → get k m ≡ some v
      → get k (update k f m) ≡ some (f v)
  get-update_self k f m v e = ground (arith, get-update-some k k f m v e)

  pub get-eq-none : (k : ℕ) (m : List (ℕ × V)) → get k m ≡ none → contains_key k m ≡ false
  unfolding contains_key get
  get-eq-none k [] h = refl
  get-eq-none k ((j, v) ∷ m) h = ground (arith, get-eq-none k m)

  contains_key-remove :
      (j k : ℕ) (m : List (ℕ × V))
      → contains_key j (remove k m) ≡ (if j == k then false else contains_key j m)
  unfolding contains_key remove
  contains_key-remove j k [] = ground arith
  contains_key-remove j k ((i, v) ∷ m) = ground (arith, contains_key-remove j k m)

  contains_key-update :
      (j k : ℕ) (f : V → V) (m : List (ℕ × V)) → contains_key j (update k f m) ≡ contains_key j m
  unfolding contains_key update
  contains_key-update j k f [] = refl
  contains_key-update j k f ((i, v) ∷ m) = ground (arith, contains_key-update j k f m)

  pub remove_absent : (k : ℕ) (m : List (ℕ × V)) → contains_key k m ≡ false → remove k m ≡ m
  unfolding contains_key remove
  remove_absent k [] h = refl
  remove_absent k ((j, v) ∷ m) h = ground (arith, remove_absent k m)

  contains_key-keep :
      (k : ℕ) (p : V → Bool) (m : List (ℕ × V))
      → contains_key k m ≡ false
      → contains_key k (keep p m) ≡ false
  unfolding contains_key keep
  contains_key-keep k p [] h = refl
  contains_key-keep k p ((j, v) ∷ m) h = ground (arith, contains_key-keep k p m)

  -- What a filtered map holds was there, and has passed the test.
  pub keep_sound :
      (k : ℕ) (p : V → Bool) (m : List (ℕ × V)) (v : V)
      → UniqueKeys m
      → get k (keep p m) ≡ some v
      → (get k m ≡ some v) × (p v ≡ true)
  unfolding get keep
  keep_sound k p [] v u h = cc
  keep_sound k p ((j, w) ∷ m) v u h =
      ground
        (arith, keep_sound k p m v u.1, contains_key-eq-false k (keep p m), contains_key-keep k p m)

  pub keep_complete :
      (k : ℕ) (p : V → Bool) (m : List (ℕ × V)) (v : V)
      → get k m ≡ some v
      → p v ≡ true
      → get k (keep p m) ≡ some v
  unfolding get keep
  keep_complete k p [] v h e = cc
  keep_complete k p ((j, w) ∷ m) v h e = ground (arith, keep_complete k p m v)

  pub length-remove :
      (k : ℕ) (m : List (ℕ × V))
      → UniqueKeys m
      → length (remove k m) + (if contains_key k m then 1 else 0) ≡ length m
  unfolding contains_key remove
  length-remove k [] u = omega arith
  length-remove k ((j, v) ∷ m) u = ground (arith, length-remove k m u.1, remove_absent k m)

  pub length-update : (k : ℕ) (f : V → V) (m : List (ℕ × V)) → length (update k f m) ≡ length m
  unfolding update
  length-update k f [] = refl
  length-update k f ((j, v) ∷ m) = ap suc (length-update k f m)

  pub remove-UniqueKeys : (k : ℕ) (m : List (ℕ × V)) → UniqueKeys m → UniqueKeys (remove k m)
  unfolding remove
  remove-UniqueKeys k [] u = tt
  remove-UniqueKeys k ((j, v) ∷ m) u =
      ground (arith, remove-UniqueKeys k m u.1, contains_key-remove j k m)

  pub insert-UniqueKeys :
      (k : ℕ) (v : V) (m : List (ℕ × V)) → UniqueKeys m → UniqueKeys (insert k v m)
  unfolding insert
  insert-UniqueKeys k v m u = (ground (arith, contains_key-remove k k m), remove-UniqueKeys k m u)

  pub update-UniqueKeys :
      (k : ℕ) (f : V → V) (m : List (ℕ × V)) → UniqueKeys m → UniqueKeys (update k f m)
  unfolding update
  update-UniqueKeys k f [] u = tt
  update-UniqueKeys k f ((j, v) ∷ m) u =
      (ground (arith, contains_key-update j k f m), update-UniqueKeys k f m u.1)

module _ {ℓ κ} {V : Type ℓ} (P : ℕ → V → Type κ) where
  pub remove-AllEntries : (k : ℕ) (m : List (ℕ × V)) → AllEntries P m → AllEntries P (remove k m)
  unfolding remove
  remove-AllEntries k [] h = tt
  remove-AllEntries k ((j, v) ∷ m) h = ground (arith, remove-AllEntries k m h.1)

  -- A write keeps a property of all entries if it keeps that of the entry that it changes.
  pub update-AllEntries :
      (k : ℕ) (f : V → V) (m : List (ℕ × V))
      → ((v : V) → get k m ≡ some v → P k v → P k (f v))
      → UniqueKeys m
      → AllEntries P m
      → AllEntries P (update k f m)
  unfolding update get
  update-AllEntries k f [] step u h = tt
  update-AllEntries k f ((j, v) ∷ m) step u h = elim (Bool-cases (j == k)) [
    | inl same ↦
        let e : j ≡ k = (==_iff j k).0 same in
        rw (same, update_absent k f m (ground arith))
          (subst (λ i. P i (f v)) (sym e) (step v (rw same) (subst (λ i. P i v) e h.0)), h.1)
    | inr other ↦ rw other (h.0, update-AllEntries k f m (λ w e. step w (rw other e)) u.1 h.1)
  ]

  pub AllEntries-get :
      (k : ℕ) (m : List (ℕ × V)) (v : V) → AllEntries P m → get k m ≡ some v → P k v
  unfolding get
  AllEntries-get k [] v h e = cc
  AllEntries-get k ((j, w) ∷ m) v h e = elim (Bool-cases (j == k)) [
    | inl same ↦ subst₂ P ((==_iff j k).0 same) (ground arith) h.0
    | inr other ↦ AllEntries-get k m v h.1 (rw other at e)
  ]

  pub insert-AllEntries :
      (k : ℕ) (v : V) (m : List (ℕ × V)) → P k v → AllEntries P m → AllEntries P (insert k v m)
  unfolding insert
  insert-AllEntries k v m p h = (p, remove-AllEntries k m h)

pub length-insert_new {ℓ} :
    {V : Type ℓ} (k : ℕ) (v : V) (m : List (ℕ × V))
    → contains_key k m ≡ false
    → length (insert k v m) ≡ suc (length m)
unfolding insert
length-insert_new k v m h = rw (remove_absent k m h)

-- The first map has the value under the key and agrees with the second everywhere else.
abbrev pub Sets {ℓ} : {V : Type ℓ} → ℕ → V → List (ℕ × V) → List (ℕ × V) → Type ℓ
Sets id v xs ys = (j : ℕ) → get j xs ≡ (if j == id then some v else get j ys)

module _ {ℓ} {V : Type ℓ} (id : ℕ) (v : V) (xs ys : List (ℕ × V)) where
  pub Sets-get : Sets id v xs ys → get id xs ≡ some v
  Sets-get h = h id ∙ rw ((==_iff id id).1 refl)

  pub update-Sets : (f : V → V) → Sets id v xs ys → Sets id (f v) (update id f xs) ys
  update-Sets f h j = rw (get-update-some j id f xs v (Sets-get h)) (ground (arith, h j))

  -- Taking out a key that was not there before gives the second map again.
  pub remove-Sets : get id ys ≡ none → Sets id v xs ys → (j : ℕ) → get j (remove id xs) ≡ get j ys
  remove-Sets absent h j = rw (get-remove j id xs) (elim (Bool-cases (j == id)) [
    | inl same ↦ rw (same, (==_iff j id).0 same, absent)
    | inr other ↦ rw other (h j ∙ rw other)
  ])
