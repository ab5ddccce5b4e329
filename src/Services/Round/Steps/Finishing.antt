-- ===== src/Services/Round/Steps/Finishing.antt =====
-- `mark_finished` of src/canterlot/services/round.py, as moves of the rounds.
use canterlot_api.Base.{
  or_default, distinct, ℕ, ◌≡◌, refl, subst, sym, ◌&&◌, Option, none, some, List, arith, is_some,
  if◌then◌else◌, Option-cases, Bool-cases, inl, inr,
}
use canterlot_api.Mongo.{plain, first, update_first}
use canterlot_api.Types.{RoundStatus, ◌is◌, mode_enum, round_status_enum}
use canterlot_api.Models.{RoundCompletion, Round, Database}
use canterlot_api.Effects.{Result}
use canterlot_api.Repositories.Memberships
use canterlot_api.Repositories.Memberships.{has_key, in_club, has_status_in, active_statuses}
use canterlot_api.Repositories.Rounds
use canterlot_api.Repositories.Rounds.{
  concluded, is_completion, CompletionResult, is_active_of, has_round_id, is_round_at, put_to_vote,
  drawn, rounds_set,
}
use canterlot_api.Repositories.Rounds.Completion
use canterlot_api.Repositories.Rounds.Completion.{
  again_plain, new_plain, locked, closed, decided_test,
}
use canterlot_api.Repositories.Rounds.Moves.{Moves, stays, moves, reads, concludes}
use canterlot_api.Services.Round.{ensure_caller_is_member, get_decided_round, mark_finished}
use canterlot_api.Services.Round.Steps.{Moved, members_of, either}

recorded_moves :
    (completion : RoundCompletion) (ids : List ℕ) (db : Database)
    → Moved db.rounds (Rounds.record_completion plain completion ids db)
recorded_moves completion ids db =
    elim (Bool-cases
      (is_some (first (is_completion completion.round_id completion.user_id) db.completions))) [
        | inl again ↦
            subst (λ (run : Result CompletionResult × Database). Moves db.rounds run.1.rounds)
              (sym (again_plain completion ids db again)) stays
        | inr fresh ↦
            subst (λ (run : Result CompletionResult × Database). Moves db.rounds run.1.rounds)
              (sym (new_plain completion ids db fresh))
              (moves (reads completion.round_id completion.user_id completion.completed_at refl) (
                either (closed completion ids db) (Completion.concludes completion ids db)
                  (locked completion ids db)
                  (update_first (decided_test completion ids db) concluded
                    (locked completion ids db))
                  refl (moves (concludes completion.round_id refl) stays)))
      ]

abbrev pub finished_with : ℕ → ℕ → ℕ → Round → RoundCompletion
finished_with club_id caller_id now r = record {
  club_id = club_id;
  round_id = r.id;
  book_id = or_default r.book_id 0;
  user_id = caller_id;
  completed_at = now;
}

finish_rounds :
    (club_id caller_id : ℕ) (rating : Option ℕ) (now : ℕ) (db : Database) (r : Round)
    → first (is_active_of club_id) db.rounds ≡ some r
    → (mark_finished plain club_id caller_id rating now db).1.rounds ≡ (
        if is_some (
            first
              (λ d. has_key club_id caller_id d && has_status_in active_statuses d)
              db.memberships)
          && r.status is RoundStatus.decided
        then (Rounds.record_completion plain
            (finished_with club_id caller_id now r)
            (distinct (members_of club_id db))
            db).1.rounds
        else db.rounds)
unfolding mark_finished Rounds.find_active_by_club_id Memberships.find_active_member_ids_by_club_id
    Memberships.exists_by_club_id_and_member_user_id ensure_caller_is_member get_decided_round
    Rounds.upsert_read_book
finish_rounds club_id caller_id rating now db r found = ground arith

idle_finish :
    (club_id caller_id : ℕ) (rating : Option ℕ) (now : ℕ) (db : Database)
    → first (is_active_of club_id) db.rounds ≡ none
    → (mark_finished plain club_id caller_id rating now db).1 ≡ db
unfolding mark_finished Rounds.find_active_by_club_id
    Memberships.exists_by_club_id_and_member_user_id ensure_caller_is_member get_decided_round
idle_finish club_id caller_id rating now db idle = ground arith

pub finish_moves :
    (club_id caller_id : ℕ) (rating : Option ℕ) (now : ℕ) (db : Database)
    → Moved db.rounds (mark_finished plain club_id caller_id rating now db)
finish_moves club_id caller_id rating now db =
    elim (Option-cases (first (is_active_of club_id) db.rounds)) [
      | inl idle ↦
          subst (λ (e : Database). Moves db.rounds e.rounds)
            (sym (idle_finish club_id caller_id rating now db idle)) stays
      | inr (r, found) ↦
          either _ _ db.rounds _ (finish_rounds club_id caller_id rating now db r found) (
            recorded_moves (finished_with club_id caller_id now r)
              (distinct (members_of club_id db)) db)
    ]
