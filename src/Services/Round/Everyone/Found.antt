-- ===== src/Services/Round/Everyone/Found.antt =====
-- Lists of members, completions and rounds, as `mark_finished` of src/canterlot/services/round.py changes
-- them.
use canterlot_api.Base.{
  map, bit, ℕ, ◌+◌, ◌≤◌, ◌≡◌, refl, Bool, true, false, ◌&&◌, none, some, List, [], ◌∷◌, ◌++◌, arith,
  elem, distinct, length, is_some,
}
use canterlot_api.Mongo.{first, matching, update_first}
use canterlot_api.Mongo.Count.{count, first-count_zero, bit-le-count}
use canterlot_api.Types.{round_status_enum}
use canterlot_api.Models.{ClubMembership, Round, RoundCompletion}
use canterlot_api.Repositories.Memberships.{in_club, has_key, has_status_in, active_statuses}

pub elem-distinct : (u : ℕ) (ks : List ℕ) → elem u (distinct ks) ≡ elem u ks
elem-distinct u [] = refl
elem-distinct u (k ∷ ks) = ground (arith, elem-distinct u ks)

pub reader_seated :
    (club_id user_id : ℕ) (ds : List ClubMembership)
    → elem user_id (
        map
          (λ (d : ClubMembership). d.user_id)
          (matching (λ d. in_club club_id d && has_status_in active_statuses d) ds))
      ≡ true
    → is_some (first (λ d. has_key club_id user_id d && has_status_in active_statuses d) ds) ≡ true
reader_seated club_id user_id [] h = cc
reader_seated club_id user_id (d ∷ ds) h = ground (arith, reader_seated club_id user_id ds)

pub length-matching-append :
    (test : RoundCompletion → Bool) (cs : List RoundCompletion) (c : RoundCompletion)
    → length (matching test (cs ++ c ∷ [])) ≡ length (matching test cs) + bit (test c)
length-matching-append test [] c = ground arith
length-matching-append test (d ∷ cs) c = ground (arith, length-matching-append test cs c)

module _ (p q : Round → Bool) (f : Round → Round) where
  -- The one round that `p` finds is the one that `q` finds, and `q` finds it changed,
  pub first-changed :
      (rs : List Round) (r : Round)
      → first q rs ≡ some r
      → p r ≡ true
      → count p rs ≤ 1
      → q (f r) ≡ true
      → first q (update_first p f rs) ≡ some (f r)
  first-changed [] r found holds once keeps = cc
  first-changed (x ∷ rs) r found holds once keeps =
      ground (arith, first-changed rs r, bit-le-count q p rs r)

  -- or no longer.
  pub first-ended :
      (rs : List Round) (r : Round)
      → first q rs ≡ some r
      → p r ≡ true
      → count p rs ≤ 1
      → count q rs ≤ 1
      → q (f r) ≡ false
      → first q (update_first p f rs) ≡ none
  first-ended [] r found holds once sole ends = cc
  first-ended (x ∷ rs) r found holds once sole ends =
      ground (arith, first-ended rs r, bit-le-count q p rs r, first-count_zero q rs)
