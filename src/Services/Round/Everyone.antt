-- ===== src/Services/Round/Everyone.antt =====
-- A round ends once everyone has read its book: `mark_finished` of src/canterlot/services/round.py, called by
-- the members of a club in any order.
pub mod Found
pub mod Finish
pub mod Turn
use canterlot_api.Base.{
  ℕ, ◌==◌, ◌≡◌, Bool, true, false, ◌&&◌, not, Option, List, [], ◌∷◌, elem, distinct, if◌then◌else◌,
}
use canterlot_api.Mongo.{Mongo}
use canterlot_api.Models.{Database}
use canterlot_api.Services.Round.{mark_finished}
use canterlot_api.Services.Round.Steps.{members_of}

-- Nothing happens to the rounds, the completions and the memberships.
abbrev pub SameReading : Database → Database → Type 0
SameReading db db' =
    (db'.rounds ≡ db.rounds)
    × (db'.completions ≡ db.completions)
    × (db'.memberships ≡ db.memberships)

-- The members of a list finish in turn, each with the rating and the time of the call. Before each
-- call, others may have changed what is no round, completion or membership.
abbrev pub FinishInTurn : Mongo → ℕ → List (ℕ × Option ℕ × ℕ) → Database → Database → Type 0
FinishInTurn m club_id [] db db' = db' ≡ db
FinishInTurn m club_id ((user_id, rating, now) ∷ others) db db' =
    (before : Database) × SameReading db before
    × FinishInTurn m club_id others (mark_finished m club_id user_id rating now before).1 db'

abbrev pub among : List (ℕ × Option ℕ × ℕ) → ℕ → Bool
among [] user_id = false
among ((k, rating, now) ∷ others) user_id = if k == user_id then true else among others user_id

-- Nobody twice, and all of the ids given.
abbrev pub is_turn_of : List ℕ → List (ℕ × Option ℕ × ℕ) → Bool
is_turn_of ids [] = true
is_turn_of ids ((k, rating, now) ∷ others) =
    elem k ids && (not (among others k) && is_turn_of ids others)

-- The current members of a club.
abbrev pub readers_of : ℕ → Database → List ℕ
readers_of club_id db = distinct (members_of club_id db)
