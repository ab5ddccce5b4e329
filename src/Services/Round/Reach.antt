-- ===== src/Services/Round/Reach.antt =====
-- The states that the round handlers of src/canterlot/services/round.py reach, in any order, with whatever
-- else changes between them.
use canterlot_api.Base.{ℕ, ◌≡◌, subst, true, false, Option, some, List, arith}
use canterlot_api.Mongo.{Mongo, IsMongo, plain, eq_plain, first}
use canterlot_api.Mongo.Count.{count}
use canterlot_api.Types.{RoundStatus, RoundResolutionMethod, ◌is◌, round_status_enum}
use canterlot_api.Models.{Round, CatalogEntry, Database}
use canterlot_api.Effects.{Result}
use canterlot_api.Repositories.Memberships
use canterlot_api.Repositories.Rounds
use canterlot_api.Repositories.Rounds.{is_active_of, has_round_id}
use canterlot_api.Repositories.Rounds.Moves.{
  Moves, stays, Moves-append, RoundsSound, Moves-RoundsSound, Moves-voting,
}
use canterlot_api.Services.Round.{
  mark_finished, ensure_caller_is_member, get_decided_round, ensure_caller_is_owner_or_admin,
  get_finalizable_round,
}
use canterlot_api.Services.Round.Start.{
  StartRoundRequest, planned_round, start_round, finalize_round,
}
use canterlot_api.Services.Round.Steps.{is_ok}
use canterlot_api.Services.Round.Steps.Starting.{start_moves}
use canterlot_api.Services.Round.Steps.Finalizing.{finalize_moves}
use canterlot_api.Services.Round.Steps.Finishing.{finish_moves}

module _ (m : Mongo)
    (compute_weights : ℕ → List CatalogEntry → List ℕ → ℕ → Database → Result (ℕ → ℕ))
    (choices : List CatalogEntry → (ℕ → ℕ) → ℕ) (add_months : ℕ → ℕ → ℕ) where
  -- One call, or a change that leaves the rounds. The driver gives a new round a new id.
  pub data RoundStep (db : Database) (db' : Database) : Type 0 where
    starting :
        (club_id caller_id : ℕ) (payload : StartRoundRequest) (new_id now : ℕ)
        → count (has_round_id new_id) db.rounds ≡ 0
        → db'
          ≡ (start_round m compute_weights choices add_months club_id caller_id payload new_id now
              db).1
        → RoundStep db db'
    finalizing :
        (club_id caller_id : ℕ) (method : RoundResolutionMethod) (now : ℕ)
        → db'
          ≡ (finalize_round m compute_weights choices add_months club_id caller_id method now db).1
        → RoundStep db db'
    finishing :
        (club_id caller_id : ℕ) (rating : Option ℕ) (now : ℕ)
        → db' ≡ (mark_finished m club_id caller_id rating now db).1
        → RoundStep db db'
    elsewhere : db'.rounds ≡ db.rounds → RoundStep db db'

  pub data Reach : Database → Database → Type 0 where
    arrived : {db : Database} → Reach db db
    onward : {a b c : Database} → RoundStep a b → Reach b c → Reach a c

module _ (compute_weights : ℕ → List CatalogEntry → List ℕ → ℕ → Database → Result (ℕ → ℕ))
    (choices : List CatalogEntry → (ℕ → ℕ) → ℕ) (add_months : ℕ → ℕ → ℕ) where
  step-Moves :
      {db db' : Database}
      → RoundStep plain compute_weights choices add_months db db'
      → Moves db.rounds db'.rounds
  step-Moves {db} (starting club_id caller_id payload new_id now fresh e) =
      rw e (
        start_moves compute_weights choices add_months club_id caller_id payload new_id now db
          fresh)
  step-Moves {db} (finalizing club_id caller_id method now e) =
      rw e (finalize_moves compute_weights choices add_months club_id caller_id method now db)
  step-Moves {db} (finishing club_id caller_id rating now e) =
      rw e (finish_moves club_id caller_id rating now db)
  step-Moves {db} (elsewhere e) = rw e stays

  Reach-Moves :
      {db db' : Database}
      → Reach plain compute_weights choices add_months db db'
      → Moves db.rounds db'.rounds
  Reach-Moves arrived = stays
  Reach-Moves (onward one rest) = Moves-append (step-Moves one) (Reach-Moves rest)

  -- The handlers while a club's round is at the vote.
  voting_stuck :
      (club_id : ℕ) (r : Round) (db : Database)
      → first (is_active_of club_id) db.rounds ≡ some r
      → (r.status is RoundStatus.voting) ≡ true
      → (caller_id : ℕ) (payload : StartRoundRequest) (new_id : ℕ) (method : RoundResolutionMethod)
        (rating : Option ℕ) (now : ℕ)
      → (is_ok
            (start_round plain compute_weights choices add_months club_id caller_id payload new_id
              now db).0
          ≡ false)
        × (is_ok
              (finalize_round plain compute_weights choices add_months club_id caller_id method now
                db).0
            ≡ false)
        × (is_ok (mark_finished plain club_id caller_id rating now db).0 ≡ false)
  unfolding start_round planned_round finalize_round mark_finished ensure_caller_is_member
      get_decided_round ensure_caller_is_owner_or_admin get_finalizable_round
      Rounds.find_active_by_club_id Memberships.find_member_role_by_club_id_and_user_id
      Memberships.exists_by_club_id_and_member_user_id
  voting_stuck club_id r db found voting caller_id payload new_id method rating now =
      (ground arith, ground arith, ground arith)

-- Whatever calls of `start_round`, `finalize_round` and `mark_finished` come in, in any order, with
-- other changes between them that leave the rounds: where no two rounds have one id, no club has two
-- active rounds and every round that is DECIDED has a book, the same holds afterwards. The weights, the
-- draw and the calendar are any; the driver gives a new round a new id.
pub Reach-RoundsSound :
    (m : Mongo) (laws : IsMongo m)
    (compute_weights : ℕ → List CatalogEntry → List ℕ → ℕ → Database → Result (ℕ → ℕ))
    (choices : List CatalogEntry → (ℕ → ℕ) → ℕ) (add_months : ℕ → ℕ → ℕ) (db db' : Database)
    → Reach m compute_weights choices add_months db db'
    → RoundsSound db.rounds
    → RoundsSound db'.rounds
Reach-RoundsSound m laws compute_weights choices add_months db db' path sound =
    Moves-RoundsSound
      (Reach-Moves compute_weights choices add_months
        (subst (λ k. Reach k compute_weights choices add_months db db') (eq_plain m laws) path))
      sound

-- Once the active round of a club is at the status VOTING, it is the club's active round, as it is,
-- after whatever calls of `start_round`, `finalize_round` and `mark_finished` and other changes that
-- leave the rounds; and for this club each of the three handlers then raises, whoever calls it.
pub Reach-voting :
    (m : Mongo) (laws : IsMongo m)
    (compute_weights : ℕ → List CatalogEntry → List ℕ → ℕ → Database → Result (ℕ → ℕ))
    (choices : List CatalogEntry → (ℕ → ℕ) → ℕ) (add_months : ℕ → ℕ → ℕ) (db db' : Database)
    (club_id : ℕ) (r : Round)
    → Reach m compute_weights choices add_months db db'
    → first (is_active_of club_id) db.rounds ≡ some r
    → (r.status is RoundStatus.voting) ≡ true
    → (first (is_active_of club_id) db'.rounds ≡ some r)
      × ((caller_id : ℕ) (payload : StartRoundRequest) (new_id : ℕ) (method : RoundResolutionMethod)
            (rating : Option ℕ) (now : ℕ)
          → (is_ok
                (start_round m compute_weights choices add_months club_id caller_id payload new_id
                  now db').0
              ≡ false)
            × (is_ok
                  (finalize_round m compute_weights choices add_months club_id caller_id method now
                    db').0
                ≡ false)
            × (is_ok (mark_finished m club_id caller_id rating now db').0 ≡ false))
Reach-voting m laws compute_weights choices add_months db db' club_id r path found voting =
    let there : first (is_active_of club_id) db'.rounds ≡ some r =
      Moves-voting club_id r
        (Reach-Moves compute_weights choices add_months
          (subst (λ k. Reach k compute_weights choices add_months db db') (eq_plain m laws) path))
        found voting in
    (
      there,
      rw (eq_plain m laws)
          (voting_stuck compute_weights choices add_months club_id r db' there voting),
    )
