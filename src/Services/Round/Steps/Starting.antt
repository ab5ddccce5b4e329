-- ===== src/Services/Round/Steps/Starting.antt =====
-- `start_round` of src/canterlot/services/round.py, as a move of the rounds.
use canterlot_api.Base.{
  ℕ, ◌≡◌, refl, subst, sym, true, false, none, List, [], ◌∷◌, ◌++◌, arith, any,
}
use canterlot_api.Mongo.{plain, first}
use canterlot_api.Mongo.Count.{count, any-first, first-count_zero}
use canterlot_api.Types.{mode_enum, round_status_enum}
use canterlot_api.Models.{Round, CatalogEntry, Database}
use canterlot_api.Effects.{Result, ok, err}
use canterlot_api.Repositories.Memberships
use canterlot_api.Repositories.Memberships.{has_key, in_club, has_status_in, active_statuses}
use canterlot_api.Repositories.Catalog
use canterlot_api.Repositories.Rounds
use canterlot_api.Repositories.Rounds.{
  concluded, is_completion, CompletionResult, is_active_of, has_round_id, is_round_at, put_to_vote,
  drawn, rounds_set,
}
use canterlot_api.Repositories.Rounds.Moves.{Moves, stays, moves, starts, is_opening}
use canterlot_api.Services.Round.{ensure_caller_is_owner_or_admin}
use canterlot_api.Services.Round.Start.{StartRoundRequest, planned_round, start_round}
use canterlot_api.Services.Round.Steps.{Moved}

module _ (compute_weights : ℕ → List CatalogEntry → List ℕ → ℕ → Database → Result (ℕ → ℕ))
    (choices : List CatalogEntry → (ℕ → ℕ) → ℕ) (add_months : ℕ → ℕ → ℕ) where
  save_moves :
      (r : Round) (db : Database)
      → first (is_active_of r.club_id) db.rounds ≡ none
      → count (has_round_id r.id) db.rounds ≡ 0
      → is_opening r ≡ true
      → Moved db.rounds (Rounds.save plain r db)
  unfolding Rounds.save
  save_moves r db idle fresh opening =
      subst (Moved db.rounds)
        (sym (
          saved (
            ground (
              arith,
              any-first (has_round_id r.id) db.rounds,
              first-count_zero (has_round_id r.id) db.rounds,
            ))))
        (moves (starts r idle fresh opening refl) stays)
    where
      saved :
          any (has_round_id r.id) db.rounds ≡ false
          → Rounds.save plain r db ≡ (ok r, rounds_set (db.rounds ++ r ∷ []) db)
      saved free = ground arith

  -- What a call returns that has changed nothing yet.
  abbrev Returns : {A : Type 0} → Database → (A → Type 0) → Result A × Database → Type 0
  Returns db P (ok a, db') = (db' ≡ db) × P a
  Returns db P (err e, db') = db' ≡ db

  planned_lem :
      (club_id caller_id : ℕ) (payload : StartRoundRequest) (new_id now : ℕ) (db : Database)
      → Returns db
          (λ r.
            (first (is_active_of club_id) db.rounds ≡ none)
            × (is_opening r ≡ true)
            × (r.club_id ≡ club_id)
            × (r.id ≡ new_id))
          (planned_round plain compute_weights choices add_months club_id caller_id payload new_id
            now db)
  unfolding planned_round Rounds.find_active_by_club_id
      Memberships.find_active_member_ids_by_club_id Catalog.find_majority_excluded_book_ids
      Catalog.find_by_club_id_excluding_book_ids ensure_caller_is_owner_or_admin
      Memberships.find_member_role_by_club_id_and_user_id
  planned_lem club_id caller_id payload new_id now db = ground arith

  pub start_moves :
      (club_id caller_id : ℕ) (payload : StartRoundRequest) (new_id now : ℕ) (db : Database)
      → count (has_round_id new_id) db.rounds ≡ 0
      → Moved db.rounds (
          start_round plain compute_weights choices add_months club_id caller_id payload new_id now
            db)
  unfolding start_round
  start_moves club_id caller_id payload new_id now db fresh =
      through
        (planned_round plain compute_weights choices add_months club_id caller_id payload new_id now
          db)
        (planned_lem club_id caller_id payload new_id now db)
    where
      through :
          (planned : Result Round × Database)
          → Returns db
              (λ r.
                (first (is_active_of club_id) db.rounds ≡ none)
                × (is_opening r ≡ true)
                × (r.club_id ≡ club_id)
                × (r.id ≡ new_id))
              planned
          → Moved {A = Round} db.rounds
              (let (s, d) = planned in elim s [ ok r ↦ Rounds.save plain r d | err x ↦ (err x, d) ])
      through (ok r, d) (same, (idle, opening, of_club, named)) =
          subst (λ (e : Database). Moved {A = Round} db.rounds (Rounds.save plain r e)) (sym same)
            (save_moves r db (rw of_club idle) (rw named fresh) opening)
      through (err x, d) same = subst (λ (e : Database). Moves db.rounds e.rounds) (sym same) stays
