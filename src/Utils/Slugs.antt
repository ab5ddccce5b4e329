-- ===== src/Utils/Slugs.antt =====
-- src/canterlot/utils/slugs.py. `slugify` is a library's, and `suffixes` are the texts that
-- `shortuuid.random` gives, in turn; `none` means that the loop has not ended when they run out.
pub mod Search
pub mod Ends
use Prim.Native.String.{String}
use Prim.Native.String.{◌++◌ as joined}
use canterlot_api.Base.{ℕ, ◌-◌, Bool, true, false, Option, none, some, List, [], ◌∷◌}
use canterlot_api.Effects.{Action, ◌>>=◌, pure}

-- The `while` loop: `base` and `separator` stand before each suffix.
unfoldable pub slug_loop :
    (String → Action Bool) → String → List String → String → Action (Option String)
slug_loop duplicate_verifier prefix [] slug = do
  taken ← duplicate_verifier slug
  elim taken [ true ↦ pure none | false ↦ pure (some slug) ]
slug_loop duplicate_verifier prefix (suffix ∷ suffixes) slug = do
  taken ← duplicate_verifier slug
  elim taken [
    | true ↦ slug_loop duplicate_verifier prefix suffixes (joined prefix suffix)
    | false ↦ pure (some slug)
  ]

module _ (slugify : String → ℕ → String → String) where
  unfoldable pub make_slug :
      String → (String → Action Bool) → ℕ → ℕ → String → List String → Action (Option String)
  unfolding slug_loop
  make_slug text duplicate_verifier max_length suffix_length separator suffixes =
      slug_loop duplicate_verifier
        (joined (slugify text (max_length - suffix_length - 1) separator) separator) suffixes
        (slugify text max_length separator)

  unfoldable pub make_username :
      String → (String → Action Bool) → List String → Action (Option String)
  unfolding make_slug
  make_username text duplicate_verifier = make_slug text duplicate_verifier 30 5 "_"
