-- ===== src/Tests/Rounds.antt =====
-- The theorems on reading rounds: Readers read a book that one of two members has finished, and Poets
-- have a round in setup.
use canterlot_api.Base.{
  ℕ, ◌==◌, ◌+◌, ◌≡◌, refl, true, false, ◌&&◌, List, [], ◌∷◌, ◌++◌, arith, bit, Option, some, none,
  ◌*◌,
}
use canterlot_api.Mongo.{plain, first, matching, plain-IsMongo}
use canterlot_api.Mongo.Count.{count}
use canterlot_api.Types.{
  RoundStatus, ◌is◌, round_status_enum, RoundResolutionMethod, RoundSelectionMode,
}
use canterlot_api.Models.{Round, RoundCompletion, Database, CatalogEntry}
use canterlot_api.Effects.{ok, Result, Outcome}
use canterlot_api.Repositories.Rounds
use canterlot_api.Repositories.Rounds.{
  is_round_at, has_round_id, is_completion, is_finisher, completed_last, concluded,
  CompletionResult, rounds_set, is_active_of,
}
use canterlot_api.Repositories.Rounds.Completion.{
  concludes, record_completion_lem, record_completion_again,
}
use canterlot_api.Repositories.Rounds.Moves.{RoundsSound}
use canterlot_api.Services.Round.{mark_finished}
use canterlot_api.Services.Round.Start.{StartRoundRequest, start_round, finalize_round}
use canterlot_api.Services.Round.Steps.{is_ok}
use canterlot_api.Services.Round.Reach.{
  Reach-RoundsSound, Reach-voting, onward, arrived, finalizing, finishing,
}
use canterlot_api.Services.Round.Everyone.Turn.{everyone_finishes}
use canterlot_api.Repositories.Catalog.{is_entry, catalog_set}
use canterlot_api.Services.Catalog.{remove_book_from_club}
use canterlot_api.Services.Catalog.Removal.{may_remove_book, remove_book_from_club-Outcome}
use canterlot_api.Tests.Samples.{sample, sample-IsSound}

abbrev in_reading : Round
in_reading = record {
  id = 301;
  club_id = 1;
  selection_mode = RoundSelectionMode.random;
  status = RoundStatus.decided;
  resolution_method = none;
  candidate_pool = [];
  book_id = some 401;
  deadline_duration = none;
  deadline = none;
  started_by = 10;
  decided_at = some 50;
  last_completed_by = none;
  last_completed_at = none;
}

abbrev in_setup : Round
in_setup = record in_reading {
  id = 302;
  club_id = 2;
  selection_mode = RoundSelectionMode.curated;
  status = RoundStatus.setup;
  book_id = none;
  decided_at = none;
}

abbrev first_finish : RoundCompletion
first_finish = record {
  club_id = 1;
  round_id = 301;
  book_id = 401;
  user_id = 10;
  completed_at = 60;
}

abbrev last_finish : RoundCompletion
last_finish = record { club_id = 1; round_id = 301; book_id = 401; user_id = 11; completed_at = 70 }

abbrev reading : Database
reading = record sample { rounds = in_reading ∷ in_setup ∷ []; completions = first_finish ∷ [] }

reading-RoundsSound : RoundsSound reading.rounds
reading-RoundsSound = record {
  ids = λ k. ground arith;
  one_active = λ c. ground arith;
  books = refl;
}

abbrev in_vote : Round
in_vote = record in_setup { status = RoundStatus.voting }

abbrev at_vote : Database
at_vote = record reading { rounds = in_reading ∷ in_vote ∷ [] }

-- A book of a member, which the round of the club leaves free.
abbrev stocked : Database
stocked = record reading {
  catalog = record { club_id = 1; book_id = 402; suggested_by = 12; suggested_at = 0 } ∷ [];
}

abbrev even_weights : ℕ → List CatalogEntry → List ℕ → ℕ → Database → Result (ℕ → ℕ)
even_weights club_id entries member_ids now db = ok (λ book_id. 1)

abbrev first_choice : List CatalogEntry → (ℕ → ℕ) → ℕ
first_choice [] weights = 401
first_choice (e ∷ es) weights = e.book_id

abbrev months_of_30_days : ℕ → ℕ → ℕ
months_of_30_days base months = base + months * 2592000000000

record_completion_lem_example :
    (db' : Database) × (Rounds.record_completion plain last_finish (10 ∷ 11 ∷ []) reading ≡ (
      ok (record { is_new = true; round_concluded = concludes last_finish (10 ∷ 11 ∷ []) reading }),
      db',
    ))
    × (db'.completions ≡ reading.completions ++ last_finish ∷ [])
    × ((status : RoundStatus)
        → count (is_round_at last_finish.round_id status) db'.rounds
            + bit (concludes last_finish (10 ∷ 11 ∷ []) reading && status is RoundStatus.decided)
          ≡ count (is_round_at last_finish.round_id status) reading.rounds
            + bit (concludes last_finish (10 ∷ 11 ∷ []) reading && status is RoundStatus.concluded))
    × ((k : ℕ)
        → (k == last_finish.round_id) ≡ false
        → matching (has_round_id k) db'.rounds ≡ matching (has_round_id k) reading.rounds)
    × (db' ≡ record reading { rounds = db'.rounds; completions = db'.completions })
record_completion_lem_example =
    record_completion_lem plain plain-IsMongo last_finish (10 ∷ 11 ∷ []) reading refl

record_completion_again_example :
    Rounds.record_completion plain first_finish (10 ∷ []) reading
    ≡ (ok (record { is_new = false; round_concluded = false }), reading)
record_completion_again_example =
    record_completion_again plain plain-IsMongo first_finish (10 ∷ []) reading refl

Reach-RoundsSound_example :
    RoundsSound
      ((finalize_round plain even_weights first_choice months_of_30_days 2 10
          RoundResolutionMethod.draw 60 reading).1
        ).rounds
Reach-RoundsSound_example =
    Reach-RoundsSound plain plain-IsMongo even_weights first_choice months_of_30_days reading
      ((finalize_round plain even_weights first_choice months_of_30_days 2 10
        RoundResolutionMethod.draw 60 reading).1)
      (onward (finalizing 2 10 RoundResolutionMethod.draw 60 refl) arrived) reading-RoundsSound

Reach-voting_example :
    (first (is_active_of 2) ((mark_finished plain 2 10 none 60 at_vote).1).rounds ≡ some in_vote)
    × ((caller_id : ℕ) (payload : StartRoundRequest) (new_id : ℕ) (method : RoundResolutionMethod)
          (rating : Option ℕ) (now : ℕ)
        → (is_ok
              (start_round plain even_weights first_choice months_of_30_days 2 caller_id payload
                new_id now
                ((mark_finished plain 2 10 none 60 at_vote).1)).0
            ≡ false)
          × (is_ok
                (finalize_round plain even_weights first_choice months_of_30_days 2 caller_id method
                  now
                  ((mark_finished plain 2 10 none 60 at_vote).1)).0
              ≡ false)
          × (is_ok
                (mark_finished plain 2 caller_id rating now
                  ((mark_finished plain 2 10 none 60 at_vote).1)).0
              ≡ false))
Reach-voting_example =
    Reach-voting plain plain-IsMongo even_weights first_choice months_of_30_days at_vote
      ((mark_finished plain 2 10 none 60 at_vote).1) 2 in_vote
      (onward (finishing 2 10 none 60 refl) arrived) refl refl

everyone_finishes_example :
    first
      (is_active_of 1)
      ((mark_finished plain 1 12 none 90 (mark_finished plain 1 11 (some 4) 80 reading).1).1).rounds
    ≡ none
everyone_finishes_example =
    everyone_finishes plain plain-IsMongo 1 11 (some 4) 80 ((12, none, 90) ∷ []) in_reading reading
      ((mark_finished plain 1 12 none 90 (mark_finished plain 1 11 (some 4) 80 reading).1).1)
      reading-RoundsSound refl refl refl refl (λ u there. ground arith)
      (
        reading,
        (refl, refl, refl),
        (((mark_finished plain 1 11 (some 4) 80 reading).1), (refl, refl, refl), refl),
      )

remove_book_from_club-Outcome_example :
    Outcome
      (may_remove_book 1 402 12 stocked)
      (λ done db'.
        (first (is_entry 1 402) db'.catalog ≡ none)
        × ((c b : ℕ)
            → (c == 1 && b == 402) ≡ false
            → first (is_entry c b) db'.catalog ≡ first (is_entry c b) stocked.catalog)
        × (db' ≡ catalog_set db'.catalog stocked))
      stocked
      (remove_book_from_club plain 1 402 12 stocked)
remove_book_from_club-Outcome_example =
    remove_book_from_club-Outcome plain plain-IsMongo 1 402 12 stocked sample-IsSound.keys
      (omega arith)
