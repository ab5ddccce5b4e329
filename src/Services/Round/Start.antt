-- ===== src/Services/Round/Start.antt =====
-- src/canterlot/services/round.py: starting a round, and deciding it by a draw. `compute_weights` reads the
-- database and may fail on a book that is missing; `choices` is the draw of `random.Random` by these
-- weights, and `add_months` the calendar of `dateutil`.
use canterlot_api.Base.{
  distinct, ℕ, ◌+◌, ◌*◌, Bool, true, false, Option, none, some, List, [], ◌∷◌, is_some,
  if◌then◌else◌, not,
}
use canterlot_api.Mongo.{Mongo}
use canterlot_api.Types.{
  DeadlineUnit, RoundSelectionMode, RoundStatus, RoundResolutionMethod, ◌is◌, mode_enum,
}
use canterlot_api.Models.{Round, CatalogEntry, DeadlineDuration, Database}
use canterlot_api.Effects
use canterlot_api.Effects.{Result, Action, ◌>>=◌, ◌>>◌, pure, raise, raise_if}
use canterlot_api.Repositories.Memberships
use canterlot_api.Repositories.Catalog
use canterlot_api.Repositories.Rounds
use canterlot_api.Repositories.Rounds.{drawn}
use canterlot_api.Services.Round.{
  ensure_caller_is_owner_or_admin, get_finalizable_round, finalize_via_vote,
}
use canterlot_api.Services.Round.Weights.{select_top_n_pool}

-- in microseconds
abbrev day : ℕ
day = 86400000000

-- `DeadlineRequest` of src/canterlot/dto/round.py, as its validator leaves it. A target date is the
-- moment at which it begins.
pub data DeadlineRequest : Type 0 where
  preset : (value : ℕ) (unit : DeadlineUnit) → DeadlineRequest
  custom : (target_date : ℕ) → DeadlineRequest

pub record StartRoundRequest : Type 0 where
  pub selection_mode : RoundSelectionMode
  pub deadline : Option DeadlineRequest

module _ (add_months : ℕ → ℕ → ℕ) where
  abbrev pub add_duration : ℕ → DeadlineDuration → ℕ
  add_duration base duration = elim duration.unit [
    | DeadlineUnit.days ↦ base + duration.value * day
    | DeadlineUnit.weeks ↦ base + duration.value * 7 * day
    | DeadlineUnit.months ↦ add_months base duration.value
  ]

  abbrev pub resolve_deadline_at_creation :
      Option DeadlineRequest → Bool → ℕ → Option DeadlineDuration × Option ℕ
  resolve_deadline_at_creation none decided_immediately now = (none, none)
  resolve_deadline_at_creation (some (custom target_date)) decided_immediately now =
      (none, some target_date)
  resolve_deadline_at_creation (some (preset value unit)) decided_immediately now =
      let duration : DeadlineDuration = record { value = value; unit = unit } in
      if not decided_immediately
      then (some duration, none)
      else (none, some (add_duration now duration))

-- The calls of `RoundModel`, with the id that the driver gives.
abbrev pub decided_round : ℕ → ℕ → RoundSelectionMode → ℕ → Option ℕ → ℕ → ℕ → Round
decided_round new_id club_id selection_mode book_id deadline caller_id now = record {
  id = new_id;
  club_id = club_id;
  selection_mode = selection_mode;
  status = RoundStatus.decided;
  resolution_method = none;
  candidate_pool = [];
  book_id = some book_id;
  deadline_duration = none;
  deadline = deadline;
  started_by = caller_id;
  decided_at = some now;
  last_completed_by = none;
  last_completed_at = none;
}

abbrev pub setup_round : ℕ → ℕ → List ℕ → Option DeadlineDuration → Option ℕ → ℕ → Round
setup_round new_id club_id candidate_pool deadline_duration deadline caller_id = record {
  id = new_id;
  club_id = club_id;
  selection_mode = RoundSelectionMode.curated;
  status = RoundStatus.setup;
  resolution_method = none;
  candidate_pool = candidate_pool;
  book_id = none;
  deadline_duration = deadline_duration;
  deadline = deadline;
  started_by = caller_id;
  decided_at = none;
  last_completed_by = none;
  last_completed_at = none;
}

module _ (m : Mongo)
    (compute_weights : ℕ → List CatalogEntry → List ℕ → ℕ → Database → Result (ℕ → ℕ))
    (choices : List CatalogEntry → (ℕ → ℕ) → ℕ) (add_months : ℕ → ℕ → ℕ) where
  abbrev weighed : ℕ → List CatalogEntry → List ℕ → ℕ → Action (ℕ → ℕ)
  weighed club_id entries member_ids now db =
      (compute_weights club_id entries member_ids now db, db)

  -- What is saved for two books or more.
  abbrev pub round_by_weights :
      ℕ → ℕ → ℕ → StartRoundRequest → ℕ → List CatalogEntry → (ℕ → ℕ) → Round
  round_by_weights new_id club_id caller_id payload now eligible weights =
      if payload.selection_mode is RoundSelectionMode.random
      then decided_round new_id club_id RoundSelectionMode.random (choices eligible weights)
          ((resolve_deadline_at_creation add_months payload.deadline true now).1) caller_id now
      else (let (duration, deadline) =
            resolve_deadline_at_creation add_months payload.deadline false now in
          setup_round new_id club_id (select_top_n_pool eligible weights) duration deadline
            caller_id)

  -- The round that `start_round` is about to save. `new_id` is what the driver gives it.
  unfoldable pub planned_round : ℕ → ℕ → StartRoundRequest → ℕ → ℕ → Action Round
  unfolding ensure_caller_is_owner_or_admin
  planned_round club_id caller_id payload new_id now = do
    ensure_caller_is_owner_or_admin m club_id caller_id
    active ← Rounds.find_active_by_club_id m club_id
    raise_if (is_some active) Effects.active_round_already_exists
    member_ids ← Memberships.find_active_member_ids_by_club_id m club_id
    excluded_book_ids ← Catalog.find_majority_excluded_book_ids m club_id (distinct member_ids)
    eligible ← Catalog.find_by_club_id_excluding_book_ids m club_id excluded_book_ids
    elim eligible [
      | [] ↦ raise Effects.no_eligible_catalog
      | entry ∷ others ↦ elim others [
        | [] ↦ pure (
            decided_round new_id club_id payload.selection_mode entry.book_id
              ((resolve_deadline_at_creation add_months payload.deadline true now).1) caller_id now)
        | other ∷ more ↦ do
          weights ← weighed club_id (entry ∷ other ∷ more) (distinct member_ids) now
          pure
              (round_by_weights new_id club_id caller_id payload now (entry ∷ other ∷ more) weights)
      ]
    ]

  unfoldable pub start_round : ℕ → ℕ → StartRoundRequest → ℕ → ℕ → Action Round
  unfolding planned_round
  start_round club_id caller_id payload new_id now = do
    round ← planned_round club_id caller_id payload new_id now
    Rounds.save m round

  unfoldable pub finalize_via_draw : ℕ → Round → ℕ → Action Round
  finalize_via_draw club_id round now = do
    pool_entries ← Catalog.find_by_club_id_and_book_ids m club_id round.candidate_pool
    member_ids ← Memberships.find_active_member_ids_by_club_id m club_id
    weights ← weighed club_id pool_entries member_ids now
    let book_id = choices pool_entries weights
    let deadline : Option ℕ = elim round.deadline_duration [
      | none ↦ none
      | some duration ↦ some (add_duration add_months now duration)
    ]
    changed ← Rounds.finalize_with_draw m round.id book_id now deadline
    raise_if (not changed) Effects.round_already_finalized
    pure (drawn book_id now deadline round)

  unfoldable pub finalize_round : ℕ → ℕ → RoundResolutionMethod → ℕ → Action Round
  unfolding ensure_caller_is_owner_or_admin get_finalizable_round finalize_via_vote
      finalize_via_draw
  finalize_round club_id caller_id resolution_method now = do
    ensure_caller_is_owner_or_admin m club_id caller_id
    round ← get_finalizable_round m club_id
    elim resolution_method [
      | RoundResolutionMethod.draw ↦ finalize_via_draw club_id round now
      | RoundResolutionMethod.vote ↦ finalize_via_vote m round
    ]
