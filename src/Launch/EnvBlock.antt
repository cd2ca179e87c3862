-- ===== src/Launch/EnvBlock.antt =====
-- `build_env_block` of src/process_launcher.rs. The map is a list of its entries in the order of
-- iteration. `OsStr::encode_wide` is a parameter.
use Prim.Native.String.{String, ◌++◌ as ◌<>◌}
use windows_command_runner.Base.{ℕ, ◌≡◌, List, [], ◌∷◌, ◌++◌}

-- UTF-16 of a text. A text that is put together is encoded part by part.
pub record WideApi : Type 0 where
  pub encode_wide : String → List ℕ
  pub encode_wide-append : (s t : String) → encode_wide (s <> t) ≡ encode_wide s ++ encode_wide t
  pub encode_wide-equals : encode_wide "=" ≡ b'=' ∷ []

module _ (wide : WideApi) where
  open wide use {encode_wide}

  -- The body of the loop, for each entry: `format!("{}={}", k, v)` and a terminator.
  unfoldable pub env_entries : List (String × String) → List ℕ
  env_entries [] = []
  env_entries ((k, v) ∷ env) = encode_wide (k <> ("=" <> v)) ++ 0 ∷ env_entries env

  unfoldable pub build_env_block : List (String × String) → List ℕ
  unfolding env_entries
  build_env_block env = env_entries env ++ 0 ∷ []

  -- `encode_wide().chain(once(0))`
  abbrev pub wide_with_nul : String → List ℕ
  wide_with_nul s = encode_wide s ++ 0 ∷ []
