-- ===== src/Services/Round/Everyone/Finish.antt =====
-- One member finishing the book: `mark_finished` of src/canterlot/services/round.py.
use canterlot_api.Base.{
  ℕ, ◌+◌, ◌≤◌, ◌≡◌, refl, true, false, ◌&&◌, not, Option, none, some, List, [], ◌∷◌, ◌++◌, arith,
  elem, length, is_some, ltb,
}
use canterlot_api.Mongo.{plain, first, matching}
use canterlot_api.Mongo.Count.{count, count_mono, first-holds}
use canterlot_api.Types.{RoundStatus, ◌is◌, round_status_enum}
use canterlot_api.Models.{Round, RoundCompletion, Database}
use canterlot_api.Repositories.Memberships
use canterlot_api.Repositories.Memberships.{in_club, has_key, has_status_in, active_statuses}
use canterlot_api.Repositories.Rounds
use canterlot_api.Repositories.Rounds.{
  is_active_of, has_round_id, is_round_at, is_completion, is_finisher, completed_last, concluded,
}
use canterlot_api.Repositories.Rounds.Completion
use canterlot_api.Repositories.Rounds.Completion.{new_plain, closed, locked, decided_test}
use canterlot_api.Repositories.Rounds.Moves.{
  reads, RoundsSound, Move-RoundsSound, count-update_first-le,
}
use canterlot_api.Services.Round.Vote.{any_found}
use canterlot_api.Services.Round.{mark_finished, ensure_caller_is_member, get_decided_round}
use canterlot_api.Services.Round.Steps.Finishing.{finished_with}
use canterlot_api.Services.Round.Everyone.{readers_of}
use canterlot_api.Services.Round.Everyone.Found.{length-matching-append, first-changed, first-ended}

module _ (club_id : ℕ) (now : ℕ) where
  pub finish_new :
      (user_id : ℕ) (rating : Option ℕ) (db : Database) (r : Round)
      → first (is_active_of club_id) db.rounds ≡ some r
      → (r.status is RoundStatus.decided) ≡ true
      → is_some
          (first (λ d. has_key club_id user_id d && has_status_in active_statuses d) db.memberships)
        ≡ true
      → is_some (first (is_completion r.id user_id) db.completions) ≡ false
      → let c = finished_with club_id user_id now r in
        let run = (mark_finished plain club_id user_id rating now db).1 in
        (run.rounds ≡ closed c (readers_of club_id db) db)
        × (run.completions ≡ db.completions ++ c ∷ [])
        × (run.memberships ≡ db.memberships)
  unfolding mark_finished Rounds.find_active_by_club_id
      Memberships.find_active_member_ids_by_club_id Memberships.exists_by_club_id_and_member_user_id
      ensure_caller_is_member get_decided_round Rounds.upsert_read_book
  finish_new user_id rating db r found decided seated fresh =
      let e = new_plain (finished_with club_id user_id now r) (readers_of club_id db) db fresh in
      (ground (arith, e), ground (arith, e), ground (arith, e))

  module _ (user_id : ℕ) (r : Round) (ids : List ℕ) (db : Database) (sound : RoundsSound db.rounds)
      (found : first (is_active_of club_id) db.rounds ≡ some r)
      (decided : (r.status is RoundStatus.decided) ≡ true) (reader : elem user_id ids ≡ true) where
    abbrev pub done : RoundCompletion
    done = finished_with club_id user_id now r

    abbrev pub finished_count : ℕ
    finished_count = length (matching (is_finisher r.id ids) db.completions)

    pub concludes_lem :
        Completion.concludes done ids db ≡ not (ltb (finished_count + 1) (length ids))
    concludes_lem = ground (
      arith,
      length-matching-append (is_finisher r.id ids) db.completions done,
      any_found (is_active_of club_id) (is_round_at r.id RoundStatus.decided) db.rounds r found,
    )

    once : count (is_round_at r.id RoundStatus.decided) db.rounds ≤ 1
    once = omega (
      arith,
      sound.ids r.id,
      count_mono (is_round_at r.id RoundStatus.decided) (has_round_id r.id) db.rounds
          (λ x h. ground arith),
    )

    abbrev pub locked_now : List Round
    locked_now = locked done ids db

    pub active-locked :
        first (is_active_of club_id) locked_now ≡ some (completed_last user_id now r)
    active-locked =
        first-changed (is_round_at r.id RoundStatus.decided) (is_active_of club_id)
          (completed_last user_id now) db.rounds r found (ground arith) once
          (ground (arith, first-holds (is_active_of club_id) db.rounds r found))

    pub locked-RoundsSound : RoundsSound locked_now
    locked-RoundsSound = Move-RoundsSound (reads r.id user_id now refl) sound

    pub active-closed :
        ltb (finished_count + 1) (length ids) ≡ false
        → first (is_active_of club_id) (closed done ids db) ≡ none
    active-closed last =
        let ended =
          first-ended (is_round_at r.id RoundStatus.decided) (is_active_of club_id) concluded
            locked_now (completed_last user_id now r) active-locked (ground arith)
            (omega (
              arith,
              once,
              count-update_first-le (is_round_at r.id RoundStatus.decided)
                  (is_round_at r.id RoundStatus.decided) (completed_last user_id now) db.rounds
                  (λ x p h. p),
            ))
            (locked-RoundsSound.one_active club_id) (ground arith) in
        ground (arith, concludes_lem, ended)

    pub closed-waits :
        ltb (finished_count + 1) (length ids) ≡ true → closed done ids db ≡ locked_now
    closed-waits waits = ground (arith, concludes_lem)
