-- ===== src/Services/Round/Vote.antt =====
-- Opening the vote on a round, once: `finalize_round` of src/canterlot/services/round.py.
use canterlot_api.Base.{
  ℕ, ◌≤◌, ◌≡◌, refl, Bool, true, false, ◌&&◌, Option, none, some, List, [], ◌∷◌, arith, any,
  Option-cases, inl, inr,
}
use canterlot_api.Mongo.{Mongo, IsMongo, plain, eq_plain, first, update_first}
use canterlot_api.Mongo.Count.{count, bit-le-count, first-holds}
use canterlot_api.Types.{RoundStatus, ◌is◌, round_status_enum}
use canterlot_api.Models.{Round, Database}
use canterlot_api.Effects.{ok, err, round_already_finalized, Outcome, Outcome-mono}
use canterlot_api.Repositories.Memberships.Roster.{KeysUnique, status_at}
use canterlot_api.Repositories.Memberships.Queries.{get_role_lem}
use canterlot_api.Repositories.Rounds
use canterlot_api.Repositories.Rounds.{
  is_active_of, is_round_at, has_round_id, put_to_vote, rounds_set,
}
use canterlot_api.Services.Club.Rules.{is_staff}
use canterlot_api.Services.Round.{finalize_round_by_vote}

abbrev pub is_at_setup : Option Round → Bool
is_at_setup none = false
is_at_setup (some r) = r.status is RoundStatus.setup

module _ (club_id : ℕ) (db : Database) where
  abbrev pub active_round : Option Round
  active_round = first (is_active_of club_id) db.rounds

  active_lem : Rounds.find_active_by_club_id plain club_id db ≡ (ok active_round, db)
  unfolding Rounds.find_active_by_club_id
  active_lem = refl

  vote_lem :
      (round_id : ℕ)
      → Rounds.finalize_with_vote plain round_id db ≡ (
        ok (any (is_round_at round_id RoundStatus.setup) db.rounds),
        rounds_set (update_first (is_round_at round_id RoundStatus.setup) put_to_vote db.rounds) db,
      )
  unfolding Rounds.finalize_with_vote
  vote_lem round_id = ground arith

pub any_found :
    (p q : Round → Bool) (rs : List Round) (r : Round)
    → first p rs ≡ some r
    → q r ≡ true
    → any q rs ≡ true
any_found p q [] r found holds = cc
any_found p q (x ∷ rs) r found holds = ground (arith, any_found p q rs r)

module _ (club_id caller_id : ℕ) (db : Database) (keys : KeysUnique db.memberships) where
  vote_plain :
      Outcome
        (is_staff (status_at club_id caller_id db.memberships)
          && is_at_setup (active_round club_id db))
        (λ round db'.
          (r : Round) × (active_round club_id db ≡ some r)
          × (round ≡ put_to_vote r)
          × (db'
              ≡ rounds_set
                  (update_first (is_round_at r.id RoundStatus.setup) put_to_vote db.rounds)
                  db))
        db
        (finalize_round_by_vote plain club_id caller_id db)
  unfolding finalize_round_by_vote
  vote_plain = elim (Option-cases (active_round club_id db)) [
    | inl absent ↦ ground (arith, get_role_lem club_id caller_id db keys, active_lem club_id db)
    | inr (r, found) ↦ ground (
      arith,
      get_role_lem club_id caller_id db keys,
      active_lem club_id db,
      vote_lem club_id db r.id,
      any_found (is_active_of club_id) (is_round_at r.id RoundStatus.setup) db.rounds r found,
    )
  ]

-- The update reaches the round that the query found.
first_active-vote :
    (club_id : ℕ) (rs : List Round) (r : Round)
    → count (has_round_id r.id) rs ≤ 1
    → first (is_active_of club_id) rs ≡ some r
    → (r.status is RoundStatus.setup) ≡ true
    → first
        (is_active_of club_id)
        (update_first (is_round_at r.id RoundStatus.setup) put_to_vote rs)
      ≡ some (put_to_vote r)
first_active-vote club_id [] r le found setup = cc
first_active-vote club_id (x ∷ rs) r le found setup = ground (
  arith,
  first_active-vote club_id rs r,
  bit-le-count (is_active_of club_id) (has_round_id r.id) rs r,
  first-holds (is_active_of club_id) (x ∷ rs) r found,
)

second_vote :
    (club_id caller_id : ℕ) (db : Database) (r : Round)
    → KeysUnique db.memberships
    → is_staff (status_at club_id caller_id db.memberships) ≡ true
    → active_round club_id db ≡ some (put_to_vote r)
    → finalize_round_by_vote plain club_id caller_id db ≡ (err round_already_finalized, db)
unfolding finalize_round_by_vote
second_vote club_id caller_id db r keys staff found =
    ground (arith, get_role_lem club_id caller_id db keys, active_lem club_id db)

-- With unique keys of the roster and unique ids of the rounds, `finalize_round` by vote returns
-- exactly when the caller is OWNER or ADMIN and the club's active round is in SETUP. It then returns
-- that round as VOTING, which is the active round from then on, changes nothing but the rounds, and
-- raises RoundAlreadyFinalizedError for every OWNER or ADMIN who calls it again. Where it raises, the
-- database is as it was.
pub finalize_round_by_vote-Outcome :
    (m : Mongo) (laws : IsMongo m) (club_id caller_id : ℕ) (db : Database)
    → KeysUnique db.memberships
    → ((k : ℕ) → count (has_round_id k) db.rounds ≤ 1)
    → Outcome
        (is_staff (status_at club_id caller_id db.memberships)
          && is_at_setup (active_round club_id db))
        (λ round db'.
          (round.status ≡ RoundStatus.voting)
          × (active_round club_id db' ≡ some round)
          × (db' ≡ rounds_set db'.rounds db)
          × ((other : ℕ)
              → is_staff (status_at club_id other db.memberships) ≡ true
              → finalize_round_by_vote m club_id other db' ≡ (err round_already_finalized, db')))
        db
        (finalize_round_by_vote m club_id caller_id db)
finalize_round_by_vote-Outcome m laws club_id caller_id db keys ids = rw (eq_plain m laws) (
    Outcome-mono _ _ _ db _
      (λ round db' allowed (r, found, named, e).
        let voting = first_active-vote club_id db.rounds r (ids r.id) found (ground arith) in
        let now_active : active_round club_id db' ≡ some (put_to_vote r) = rw e voting in
        let same : db'.memberships ≡ db.memberships = rw e refl in
        (
          rw named refl,
          rw named now_active,
          rw e refl,
          λ other staff. second_vote club_id other db' r (rw same keys) (rw same staff) now_active,
        ))
      (vote_plain club_id caller_id db keys))
