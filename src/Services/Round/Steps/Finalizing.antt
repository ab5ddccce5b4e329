-- ===== src/Services/Round/Steps/Finalizing.antt =====
-- `finalize_round` of src/canterlot/services/round.py, as a move of the rounds.
use canterlot_api.Base.{
  elem, ℕ, ◌==◌, ◌≡◌, refl, subst, sym, ◌&&◌, none, some, List, arith, if◌then◌else◌, Option-cases,
  inl, inr,
}
use canterlot_api.Mongo.{plain, first, matching, update_first}
use canterlot_api.Mongo.Count.{any-first, update_first-none}
use canterlot_api.Types.{RoundStatus, RoundResolutionMethod, mode_enum, round_status_enum}
use canterlot_api.Models.{Round, CatalogEntry, Database}
use canterlot_api.Effects.{Result, ok, err}
use canterlot_api.Repositories.Memberships
use canterlot_api.Repositories.Memberships.{has_key, in_club, has_status_in, active_statuses}
use canterlot_api.Repositories.Catalog
use canterlot_api.Repositories.Rounds
use canterlot_api.Repositories.Rounds.{
  concluded, is_completion, CompletionResult, is_active_of, has_round_id, is_round_at, put_to_vote,
  drawn, rounds_set,
}
use canterlot_api.Repositories.Rounds.Moves.{Moves, stays, moves, votes, draws}
use canterlot_api.Services.Round.{
  ensure_caller_is_owner_or_admin, get_finalizable_round, finalize_via_vote,
}
use canterlot_api.Services.Round.Vote.{any_found}
use canterlot_api.Services.Round.Start.{finalize_round, finalize_via_draw, add_duration}
use canterlot_api.Services.Round.Steps.{Moved, is_ok, members_of, either}

module _ (compute_weights : ℕ → List CatalogEntry → List ℕ → ℕ → Database → Result (ℕ → ℕ))
    (choices : List CatalogEntry → (ℕ → ℕ) → ℕ) (add_months : ℕ → ℕ → ℕ) where
  vote_rounds :
      (club_id caller_id now : ℕ) (db : Database) (r : Round)
      → first (is_active_of club_id) db.rounds ≡ some r
      → let run =
          finalize_round plain compute_weights choices add_months club_id caller_id
            RoundResolutionMethod.vote now db in
        run.1.rounds ≡ (
          if is_ok run.0
          then update_first (is_round_at r.id RoundStatus.setup) put_to_vote db.rounds
          else db.rounds)
  unfolding finalize_round Rounds.find_active_by_club_id ensure_caller_is_owner_or_admin
      Memberships.find_member_role_by_club_id_and_user_id get_finalizable_round finalize_via_vote
      Rounds.finalize_with_vote
  vote_rounds club_id caller_id now db r found = ground (
    arith,
    any-first (is_round_at r.id RoundStatus.setup) db.rounds,
    update_first-none (is_round_at r.id RoundStatus.setup) put_to_vote db.rounds,
  )

  idle_rounds :
      (club_id caller_id : ℕ) (method : RoundResolutionMethod) (now : ℕ) (db : Database)
      → first (is_active_of club_id) db.rounds ≡ none
      → (finalize_round plain compute_weights choices add_months club_id caller_id method now db).1
        ≡ db
  unfolding finalize_round Rounds.find_active_by_club_id ensure_caller_is_owner_or_admin
      Memberships.find_member_role_by_club_id_and_user_id get_finalizable_round
  idle_rounds club_id caller_id method now db idle = ground arith

  abbrev pool_of : ℕ → Round → Database → List CatalogEntry
  pool_of club_id r db =
      matching (λ e. e.club_id == club_id && elem e.book_id r.candidate_pool) db.catalog

  abbrev drawn_rounds : ℕ → ℕ → Database → Round → Result (ℕ → ℕ) → List Round
  drawn_rounds club_id now db r (err e) = db.rounds
  drawn_rounds club_id now db r (ok weights) =
      update_first (is_round_at r.id RoundStatus.setup)
        (drawn (choices (pool_of club_id r db) weights) now (elim r.deadline_duration [
          | none ↦ none
          | some duration ↦ some (add_duration add_months now duration)
        ]))
        db.rounds

  draw_rounds :
      (club_id caller_id now : ℕ) (db : Database) (r : Round)
      → first (is_active_of club_id) db.rounds ≡ some r
      → let run =
          finalize_round plain compute_weights choices add_months club_id caller_id
            RoundResolutionMethod.draw now db in
        run.1.rounds ≡ (
          if is_ok run.0
          then drawn_rounds club_id now db r
              (compute_weights club_id (pool_of club_id r db) (members_of club_id db) now db)
          else db.rounds)
  unfolding finalize_round Rounds.find_active_by_club_id ensure_caller_is_owner_or_admin
      Memberships.find_member_role_by_club_id_and_user_id get_finalizable_round finalize_via_draw
      Rounds.finalize_with_draw Catalog.find_by_club_id_and_book_ids
      Memberships.find_active_member_ids_by_club_id
  draw_rounds club_id caller_id now db r found = ground (
    arith,
    any-first (is_round_at r.id RoundStatus.setup) db.rounds,
    any_found (is_active_of club_id) (is_round_at r.id RoundStatus.setup) db.rounds r found,
  )

  drawn-Moves :
      (club_id now : ℕ) (db : Database) (r : Round) (weights : Result (ℕ → ℕ))
      → Moves db.rounds (drawn_rounds club_id now db r weights)
  drawn-Moves club_id now db r (err e) = stays
  drawn-Moves club_id now db r (ok weights) = moves (draws _ _ _ _ refl) stays

  pub finalize_moves :
      (club_id caller_id : ℕ) (method : RoundResolutionMethod) (now : ℕ) (db : Database)
      → Moved db.rounds
          (finalize_round plain compute_weights choices add_months club_id caller_id method now db)
  finalize_moves club_id caller_id method now db =
      elim (Option-cases (first (is_active_of club_id) db.rounds)) [
        | inl idle ↦
            subst (λ (e : Database). Moves db.rounds e.rounds)
              (sym (idle_rounds club_id caller_id method now db idle)) stays
        | inr (r, found) ↦ by_method r found method
      ]
    where
      by_method :
          (r : Round)
          → first (is_active_of club_id) db.rounds ≡ some r
          → (way : RoundResolutionMethod)
          → Moved db.rounds
              (finalize_round plain compute_weights choices add_months club_id caller_id way now db)
      by_method r found RoundResolutionMethod.vote =
          either _ _ db.rounds _ (vote_rounds club_id caller_id now db r found)
            (moves (votes r.id refl) stays)
      by_method r found RoundResolutionMethod.draw =
          either _ _ db.rounds _ (draw_rounds club_id caller_id now db r found)
            (drawn-Moves club_id now db r _)
