-- ===== src/Launch/Variables.antt =====
-- What Windows reads in the environment block of src/process_launcher.rs: strings, each ended by a
-- zero, up to an empty one.
use Prim.Native.String.{String, ◌++◌ as ◌<>◌}
use mathlib.Core.List.{append_assoc, append-nil}
use windows_command_runner.Base.{
  ℕ, zero, suc, ◌≡◌, ◌≢◌, refl, ap, ◌∙◌, List, [], ◌∷◌, ◌++◌, All, map, Option, none, some,
}
use mathlib.Core.Option
use windows_command_runner.Launch.EnvBlock.{WideApi, env_entries, build_env_block}

-- The strings of a block, with the part of the current string that has been read; `none` for a
-- block that ends before its terminator, which is an empty string.
unfoldable pub env_strings : List ℕ → List ℕ → Option (List (List ℕ))
env_strings current [] = none
env_strings [] (zero ∷ rest) = some []
env_strings (c ∷ cs) (zero ∷ rest) = Option.map (◌∷◌ (c ∷ cs)) (env_strings [] rest)
env_strings current (suc u ∷ rest) = env_strings (current ++ suc u ∷ []) rest

append-ne-nil : (us : List ℕ) (u : ℕ) (vs : List ℕ) → us ++ u ∷ vs ≢ []
append-ne-nil [] u vs e = cc
append-ne-nil (w ∷ us) u vs e = cc

-- A text without the character zero.
abbrev pub IsPlain : List ℕ → Type 0
IsPlain = All (λ u. u ≢ 0)

module _ (wide : WideApi) where
  open wide use {encode_wide, encode_wide-append, encode_wide-equals}

  -- The string for a variable: name, equals sign, value.
  abbrev pub variable : String × String → List ℕ
  variable (k, v) = encode_wide k ++ b'=' ∷ encode_wide v

  env_strings-prefix :
      (us current rest : List ℕ)
      → IsPlain us
      → env_strings current (us ++ rest) ≡ env_strings (current ++ us) rest
  unfolding env_strings
  env_strings-prefix [] current rest h = rw append-nil refl
  env_strings-prefix (zero ∷ us) current rest h = absurd (h.0 refl)
  env_strings-prefix (suc u ∷ us) current rest h =
      env_strings-prefix us (current ++ suc u ∷ []) rest h.1
      ∙ ap (λ (xs : List ℕ). env_strings xs rest) (append_assoc current (suc u ∷ []) us)

  env_strings-end :
      (us rest : List ℕ)
      → us ≢ []
      → env_strings us (0 ∷ rest) ≡ Option.map (◌∷◌ us) (env_strings [] rest)
  unfolding env_strings
  env_strings-end [] rest h = absurd (h refl)
  env_strings-end (u ∷ us) rest h = refl

  variable-format : (k v : String) → encode_wide (k <> ("=" <> v)) ≡ variable (k, v)
  variable-format k v =
      rw (encode_wide-append k ("=" <> v), encode_wide-append "=" v, encode_wide-equals) refl

  build_env_block-cons :
      (k v : String) (env : List (String × String))
      → build_env_block wide ((k, v) ∷ env) ≡ variable (k, v) ++ 0 ∷ build_env_block wide env
  unfolding build_env_block
  build_env_block-cons k v env =
      ap (λ (us : List ℕ). (us ++ 0 ∷ env_entries wide env) ++ 0 ∷ []) (variable-format k v)
      ∙ append_assoc (variable (k, v)) (0 ∷ env_entries wide env) (0 ∷ [])

  env_strings_read :
      (env : List (String × String))
      → All (λ (kv : String × String). IsPlain (variable kv)) env
      → env_strings [] (build_env_block wide env) ≡ some (map variable env)
  env_strings_read [] h = unfold env_strings build_env_block in refl
  env_strings_read ((k, v) ∷ env) h =
      ap (env_strings []) (build_env_block-cons k v env)
      ∙ env_strings-prefix (variable (k, v)) [] (0 ∷ build_env_block wide env) h.0
      ∙ env_strings-end (variable (k, v)) (build_env_block wide env)
          (append-ne-nil (encode_wide k) b'=' (encode_wide v))
      ∙ ap (Option.map (◌∷◌ (variable (k, v)))) (env_strings_read env h.1)

  -- Windows reads in the block of a map that is not empty exactly the variables of the map, in its
  -- order, and then the empty string that terminates the block, if no name and no value has the
  -- character zero.
  pub env_strings-build_env_block :
      (kv : String × String) (env : List (String × String))
      → All (λ (kv : String × String). IsPlain (variable kv)) (kv ∷ env)
      → env_strings [] (build_env_block wide (kv ∷ env)) ≡ some (map variable (kv ∷ env))
  env_strings-build_env_block kv env h = env_strings_read (kv ∷ env) h
