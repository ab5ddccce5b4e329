-- ===== src/Services/Round/Everyone/Turn.antt =====
-- All members finishing the book in turn: `mark_finished` of src/canterlot/services/round.py.
use canterlot_api.Base.{
  map, ℕ, ◌+◌, ◌==◌, ==_iff, ◌≡◌, refl, ap, subst, sym, ◌∙◌, true, false, ◌&&◌, Option, none, some,
  List, [], ◌∷◌, ◌++◌, arith, elem, distinct, length, is_some, ltb, Bool-cases, inl, inr,
}
use canterlot_api.Mongo.{Mongo, IsMongo, plain, eq_plain, first, matching}
use canterlot_api.Types.{RoundStatus, ◌is◌, round_status_enum}
use canterlot_api.Models.{ClubMembership, Round, RoundCompletion, Database}
use canterlot_api.Repositories.Memberships.{in_club, has_key, has_status_in, active_statuses}
use canterlot_api.Repositories.Rounds.{is_active_of, is_completion, is_finisher, completed_last}
use canterlot_api.Repositories.Rounds.Completion.{closed, locked}
use canterlot_api.Repositories.Rounds.Moves.{RoundsSound}
use canterlot_api.Services.Round.{mark_finished}
use canterlot_api.Services.Round.Steps.{members_of}
use canterlot_api.Services.Round.Steps.Finishing.{finished_with}
use canterlot_api.Services.Round.Everyone.{SameReading, FinishInTurn, among, is_turn_of, readers_of}
use canterlot_api.Services.Round.Everyone.Found.{
  elem-distinct, reader_seated, length-matching-append,
}
use canterlot_api.Services.Round.Everyone.Finish.{
  finish_new, active-closed, closed-waits, locked-RoundsSound, active-locked,
}

module _ (club_id : ℕ) where
  -- The state while some members have yet to finish.
  record Waiting (round_id : ℕ) (ids : List ℕ) (turn : List (ℕ × Option ℕ × ℕ)) (db : Database)
      : Type 0 where
    round : Round
    sound : RoundsSound db.rounds
    found : first (is_active_of club_id) db.rounds ≡ some round
    named : round.id ≡ round_id
    decided : (round.status is RoundStatus.decided) ≡ true
    readers : readers_of club_id db ≡ ids
    left_over :
        length (matching (is_finisher round_id ids) db.completions) + length turn ≡ length ids
    fresh :
        (u : ℕ)
        → among turn u ≡ true
        → is_some (first (is_completion round_id u) db.completions) ≡ false

  seated_lem :
      (user_id : ℕ) (ids : List ℕ) (db : Database)
      → readers_of club_id db ≡ ids
      → elem user_id ids ≡ true
      → is_some
          (first (λ d. has_key club_id user_id d && has_status_in active_statuses d) db.memberships)
        ≡ true
  seated_lem user_id ids db readers reader =
      reader_seated club_id user_id db.memberships
        (sym (elem-distinct user_id (members_of club_id db)) ∙ ap (elem user_id) readers ∙ reader)

  fresh-append :
      (round_id u : ℕ) (cs : List RoundCompletion) (c : RoundCompletion)
      → is_some (first (is_completion round_id u) cs) ≡ false
      → (c.user_id == u) ≡ false
      → is_some (first (is_completion round_id u) (cs ++ c ∷ [])) ≡ false
  fresh-append round_id u [] c free other = ground arith
  fresh-append round_id u (d ∷ cs) c free other = ground (arith, fresh-append round_id u cs c)

  module _ (ids : List ℕ) (round_id : ℕ) (user_id : ℕ) (rating : Option ℕ) (now : ℕ)
      (others : List (ℕ × Option ℕ × ℕ)) (db : Database)
      (turn : is_turn_of ids ((user_id, rating, now) ∷ others) ≡ true)
      (w : Waiting round_id ids ((user_id, rating, now) ∷ others) db) where
    abbrev next : Database
    next = (mark_finished plain club_id user_id rating now db).1

    reader_lem : elem user_id ids ≡ true
    reader_lem = ground arith

    next_lem :
        (next.rounds ≡ closed (finished_with club_id user_id now w.round) ids db)
        × (next.completions ≡ db.completions ++ finished_with club_id user_id now w.round ∷ [])
        × (next.memberships ≡ db.memberships)
    next_lem =
        let (rounds, completions, memberships) =
          finish_new club_id now user_id rating db w.round w.found w.decided
            (seated_lem user_id ids db w.readers reader_lem)
            (ground (arith, w.fresh user_id, w.named)) in
        (
          rounds ∙ ap (λ ks. closed (finished_with club_id user_id now w.round) ks db) w.readers,
          completions,
          memberships,
        )

    next_ends : length others ≡ 0 → first (is_active_of club_id) next.rounds ≡ none
    next_ends last =
        ap (first (is_active_of club_id)) next_lem.0
        ∙ active-closed club_id now user_id w.round ids db w.sound w.found w.decided reader_lem
            (ground (arith, w.left_over, w.named))

    next_locked :
        ltb 0 (length others) ≡ true
        → next.rounds ≡ locked (finished_with club_id user_id now w.round) ids db
    next_locked more =
        next_lem.0
        ∙ closed-waits club_id now user_id w.round ids db w.sound w.found w.decided reader_lem
            (ground (arith, w.left_over, w.named))

    apart : (u : ℕ) → among others u ≡ true → (user_id == u) ≡ false
    apart u there = elim (Bool-cases (user_id == u)) [
      | inl same ↦ ground (arith, ap (among others) ((==_iff user_id u).0 same))
      | inr other ↦ other
    ]

    next_waits : ltb 0 (length others) ≡ true → Waiting round_id ids others next
    next_waits more = record {
      round = completed_last user_id now w.round;
      sound = subst RoundsSound (sym (next_locked more)) (
          locked-RoundsSound club_id now user_id w.round ids db w.sound w.found w.decided
            reader_lem);
      found =
          ap (first (is_active_of club_id)) (next_locked more)
          ∙ active-locked club_id now user_id w.round ids db w.sound w.found w.decided reader_lem;
      named = w.named;
      decided = w.decided;
      readers =
          ap
            (λ ds. distinct (
              map (λ (d : ClubMembership). d.user_id)
                (matching (λ d. in_club club_id d && has_status_in active_statuses d) ds)))
            (next_lem.2)
          ∙ w.readers;
      left_over =
          ap (λ cs. length (matching (is_finisher round_id ids) cs) + length others) next_lem.1
          ∙ ground (
            arith,
            length-matching-append (is_finisher round_id ids) db.completions
                (finished_with club_id user_id now w.round),
            w.left_over,
            w.named,
            reader_lem,
          );
      fresh = λ u there.
          ap (λ cs. is_some (first (is_completion round_id u) cs)) next_lem.1
          ∙ fresh-append round_id u db.completions (finished_with club_id user_id now w.round)
              (w.fresh u (ground arith)) (apart u there);
    }

  -- The state does not depend on what others change.
  moved :
      (round_id : ℕ) (ids : List ℕ) (turn : List (ℕ × Option ℕ × ℕ)) (db before : Database)
      → SameReading db before
      → Waiting round_id ids turn db
      → Waiting round_id ids turn before
  moved round_id ids turn db before (rounds, completions, memberships) w = record {
    round = w.round;
    sound = subst RoundsSound (sym rounds) w.sound;
    found = ap (first (is_active_of club_id)) rounds ∙ w.found;
    named = w.named;
    decided = w.decided;
    readers =
        ap
          (λ ds. distinct (
            map (λ (d : ClubMembership). d.user_id)
              (matching (λ d. in_club club_id d && has_status_in active_statuses d) ds)))
          memberships
        ∙ w.readers;
    left_over =
        ap (λ cs. length (matching (is_finisher round_id ids) cs) + length turn) completions
        ∙ w.left_over;
    fresh = λ u there.
        ap (λ cs. is_some (first (is_completion round_id u) cs)) completions ∙ w.fresh u there;
  }

  all_finish :
      (ids : List ℕ) (round_id : ℕ) (user_id : ℕ) (rating : Option ℕ) (now : ℕ)
      (others : List (ℕ × Option ℕ × ℕ)) (db db' : Database)
      → is_turn_of ids ((user_id, rating, now) ∷ others) ≡ true
      → Waiting round_id ids ((user_id, rating, now) ∷ others) db
      → FinishInTurn plain club_id ((user_id, rating, now) ∷ others) db db'
      → first (is_active_of club_id) db'.rounds ≡ none
  all_finish ids round_id user_id rating now [] db db' turn w (before, same, done) =
      ap (λ (d : Database). first (is_active_of club_id) d.rounds) done
      ∙ next_ends ids round_id user_id rating now [] before turn
          (moved round_id ids ((user_id, rating, now) ∷ []) db before same w) refl
  all_finish ids round_id user_id rating now ((v, rated, at) ∷ others) db db' turn w
        (before, same, run) =
      let here =
        moved round_id ids ((user_id, rating, now) ∷ (v, rated, at) ∷ others) db before same w in
      all_finish ids round_id v rated at others
        (next ids round_id user_id rating now ((v, rated, at) ∷ others) before turn here) db'
        (ground arith)
        (next_waits ids round_id user_id rating now ((v, rated, at) ∷ others) before turn here
          (ground arith))
        run

-- A club has a DECIDED round as its one active round, and the members of a list, each of them once,
-- are current members who have not finished it, in any order; with those who have, they are all of
-- the current members. Once each of them has called `mark_finished`, in turn, at any times and with
-- any rating or none, the club has no active round, whatever else happens between the calls that
-- leaves rounds, completions and memberships as they are.
pub everyone_finishes :
    (m : Mongo) (laws : IsMongo m) (club_id : ℕ) (user_id : ℕ) (rating : Option ℕ) (now : ℕ)
    (others : List (ℕ × Option ℕ × ℕ)) (r : Round) (db db' : Database)
    → RoundsSound db.rounds
    → first (is_active_of club_id) db.rounds ≡ some r
    → (r.status is RoundStatus.decided) ≡ true
    → is_turn_of (readers_of club_id db) ((user_id, rating, now) ∷ others) ≡ true
    → length (matching (is_finisher r.id (readers_of club_id db)) db.completions)
        + length ((user_id, rating, now) ∷ others)
      ≡ length (readers_of club_id db)
    → ((u : ℕ)
        → among ((user_id, rating, now) ∷ others) u ≡ true
        → is_some (first (is_completion r.id u) db.completions) ≡ false)
    → FinishInTurn m club_id ((user_id, rating, now) ∷ others) db db'
    → first (is_active_of club_id) db'.rounds ≡ none
everyone_finishes m laws club_id user_id rating now others r db db' sound found decided turn
      left_over fresh run =
    all_finish club_id (readers_of club_id db) r.id user_id rating now others db db' turn
      (record {
        round = r;
        sound = sound;
        found = found;
        named = refl;
        decided = decided;
        readers = refl;
        left_over = left_over;
        fresh = fresh;
      })
      (subst (λ k. FinishInTurn k club_id ((user_id, rating, now) ∷ others) db db')
        (eq_plain m laws) run)
