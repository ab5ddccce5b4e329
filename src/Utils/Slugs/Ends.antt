-- ===== src/Utils/Slugs/Ends.antt =====
-- The loop of src/canterlot/utils/slugs.py ends once it has tried more suffixes than texts are taken.
use Prim.Native.String.{String}
use Prim.Native.String.{◌++◌ as joined}
use text.Mathlib.Text.{◌==◌ as str_eq}
use text.Mathlib.TextEquality.{eq_iff}
use text.Mathlib.TextLemmas.{append_cancel_left}
use canterlot_api.Base.{
  ℕ, ◌-◌, ◌≤◌, ◌<◌, ◌≡◌, refl, ap, ◌∙◌, Bool, true, false, ◌&&◌, not, none, some, List, [], ◌∷◌,
  map, arith, length, Option-cases, Bool-cases, inl, inr,
}
use canterlot_api.Base.Texts.{has_text, without_text, has_text-without}
use canterlot_api.Mongo.{first}
use canterlot_api.Mongo.Count.{first-holds}
use canterlot_api.Models.{Database}
use canterlot_api.Effects.{Action, ok}
use canterlot_api.Utils.Slugs.{make_slug}
use canterlot_api.Utils.Slugs.Search.{make_slug_lem}

-- No text twice.
abbrev pub all_differ : List String → Bool
all_differ [] = true
all_differ (s ∷ ss) = not (has_text s ss) && all_differ ss

-- Every text of a list is among others.
abbrev all_among : List String → List String → Bool
all_among texts [] = true
all_among texts (s ∷ ss) = has_text s texts && all_among texts ss

length-without_text : (t : String) (ss : List String) → length (without_text t ss) ≤ length ss
length-without_text t [] = omega arith
length-without_text t (s ∷ ss) = ground (arith, length-without_text t ss)

length-without_text_held :
    (t : String) (ss : List String) → has_text t ss ≡ true → length (without_text t ss) < length ss
length-without_text_held t [] h = cc
length-without_text_held t (s ∷ ss) h =
    ground (arith, length-without_text_held t ss, length-without_text t ss)

among-without :
    (t : String) (texts ss : List String)
    → has_text t ss ≡ false
    → all_among texts ss ≡ true
    → all_among (without_text t texts) ss ≡ true
among-without t texts [] apart inside = refl
among-without t texts (s ∷ ss) apart inside =
    ground (arith, among-without t texts ss, has_text-without t s texts)

-- Texts that differ and are all among others are not more than those.
pigeonhole :
    (texts ss : List String)
    → all_differ ss ≡ true
    → all_among texts ss ≡ true
    → length ss ≤ length texts
pigeonhole texts [] differ inside = omega arith
pigeonhole texts (s ∷ ss) differ inside = omega (
  arith,
  pigeonhole (without_text s texts) ss (ground arith)
      (among-without s texts ss (ground arith) (ground arith)),
  length-without_text_held s texts (ground arith),
)

has_text-joined :
    (prefix t : String) (ss : List String)
    → has_text (joined prefix t) (map (joined prefix) ss) ≡ has_text t ss
has_text-joined prefix t [] = refl
has_text-joined prefix t (s ∷ ss) = elim (Bool-cases (str_eq s t)) [
  | inl same ↦ ground (
    arith,
    (eq_iff (joined prefix s) (joined prefix t)).1 (ap (joined prefix) ((eq_iff s t).0 same)),
  )
  | inr other ↦ elim (Bool-cases (str_eq (joined prefix s) (joined prefix t))) [
    | inl equal ↦ absurd (
        ground (
          arith,
          (eq_iff s t).1 (
              append_cancel_left prefix s t ((eq_iff (joined prefix s) (joined prefix t)).0 equal)),
        ))
    | inr apart ↦ ground (arith, has_text-joined prefix t ss)
  ]
]

all_differ-joined :
    (prefix : String) (ss : List String) → all_differ (map (joined prefix) ss) ≡ all_differ ss
all_differ-joined prefix [] = refl
all_differ-joined prefix (s ∷ ss) =
    ground (arith, all_differ-joined prefix ss, has_text-joined prefix s ss)

length-map_joined : (f : String → String) (ss : List String) → length (map f ss) ≡ length ss
length-map_joined f [] = refl
length-map_joined f (s ∷ ss) = ground (arith, length-map_joined f ss)

module _ (taken : String → Bool) (texts : List String)
    (finite : (s : String) → taken s ≡ true → has_text s texts ≡ true) where
  none_free-among :
      (ss : List String) → first (λ s. not (taken s)) ss ≡ none → all_among texts ss ≡ true
  none_free-among [] none_free = refl
  none_free-among (s ∷ ss) none_free = ground (arith, none_free-among ss, finite s)

  free_candidate :
      (s prefix : String) (suffixes : List String)
      → all_differ suffixes ≡ true
      → length texts < length suffixes
      → (slug : String) × (first (λ c. not (taken c)) (s ∷ map (joined prefix) suffixes)
          ≡ some slug)
  free_candidate s prefix suffixes differ more =
      elim (Option-cases (first (λ c. not (taken c)) (s ∷ map (joined prefix) suffixes))) [
        | inl none_free ↦ absurd (
            omega (
              arith,
              pigeonhole texts (map (joined prefix) suffixes)
                  (all_differ-joined prefix suffixes ∙ differ)
                  (none_free-among (map (joined prefix) suffixes) (ground arith)),
              length-map_joined (joined prefix) suffixes,
              more,
            ))
        | inr found ↦ found
      ]

-- Where the verifier says which texts are taken and changes nothing, all taken texts are in a list,
-- and the suffixes that are drawn differ and are more than the list has texts, the loop of `make_slug`
-- ends: it returns a text that is not taken, and changes nothing.
pub make_slug-ends :
    (slugify : String → ℕ → String → String) (text : String) (verifier : String → Action Bool)
    (taken : String → Bool) (texts : List String) (max_length suffix_length : ℕ)
    (separator : String) (suffixes : List String) (db : Database)
    → ((s : String) → verifier s db ≡ (ok (taken s), db))
    → ((s : String) → taken s ≡ true → has_text s texts ≡ true)
    → all_differ suffixes ≡ true
    → length texts < length suffixes
    → (slug : String) × (make_slug slugify text verifier max_length suffix_length separator suffixes
          db
        ≡ (ok (some slug), db))
      × (taken slug ≡ false)
make_slug-ends slugify text verifier taken texts max_length suffix_length separator suffixes db
      reads finite differ more =
    let plain_slug = slugify text max_length separator in
    let prefix = joined (slugify text (max_length - suffix_length - 1) separator) separator in
    let (slug, found) = free_candidate taken texts finite plain_slug prefix suffixes differ more in
    (
      slug,
      make_slug_lem slugify text verifier taken max_length suffix_length separator suffixes db reads
          ∙ ap (λ s. (ok s, db)) found,
      ground (
        arith,
        first-holds (λ s. not (taken s)) (plain_slug ∷ map (joined prefix) suffixes) slug found,
      ),
    )
