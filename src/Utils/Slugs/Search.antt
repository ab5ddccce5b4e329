-- ===== src/Utils/Slugs/Search.antt =====
-- The text that the loop of src/canterlot/utils/slugs.py settles on.
use Prim.Native.String.{String}
use Prim.Native.String.{◌++◌ as joined}
use canterlot_api.Base.{ℕ, ◌-◌, ◌≡◌, Bool, not, List, [], ◌∷◌, map, arith}
use canterlot_api.Mongo.{first}
use canterlot_api.Models.{Database}
use canterlot_api.Effects.{Action, ok}
use canterlot_api.Utils.Slugs.{slug_loop, make_slug}

module _ (verifier : String → Action Bool) (taken : String → Bool) (db : Database)
    (reads : (s : String) → verifier s db ≡ (ok (taken s), db)) where
  pub slug_loop_lem :
      (prefix : String) (suffixes : List String) (slug : String)
      → slug_loop verifier prefix suffixes slug db
        ≡ (ok (first (λ s. not (taken s)) (slug ∷ map (joined prefix) suffixes)), db)
  unfolding slug_loop
  slug_loop_lem prefix [] slug = ground (arith, reads slug)
  slug_loop_lem prefix (suffix ∷ suffixes) slug =
      ground (arith, reads slug, slug_loop_lem prefix suffixes (joined prefix suffix))

module _ (slugify : String → ℕ → String → String) where
  -- What the loop tries, in turn.
  abbrev pub candidates : String → ℕ → ℕ → String → List String → List String
  candidates text max_length suffix_length separator suffixes =
      slugify text max_length separator
      ∷ map (joined (joined (slugify text (max_length - suffix_length - 1) separator) separator))
          suffixes

  -- Where the verifier says which texts are taken and changes nothing, `make_slug` returns the first
  -- of its candidates that is not taken, the plain slug first and then the suffixed ones in turn, and
  -- changes nothing. It has no result only where every candidate that it was given is taken.
  pub make_slug_lem :
      (text : String) (verifier : String → Action Bool) (taken : String → Bool)
      (max_length suffix_length : ℕ) (separator : String) (suffixes : List String) (db : Database)
      → ((s : String) → verifier s db ≡ (ok (taken s), db))
      → make_slug slugify text verifier max_length suffix_length separator suffixes db ≡ (
        ok (
            first
              (λ s. not (taken s))
              (candidates text max_length suffix_length separator suffixes)),
        db,
      )
  unfolding make_slug
  make_slug_lem text verifier taken max_length suffix_length separator suffixes db reads =
      slug_loop_lem verifier taken db reads _ suffixes _
