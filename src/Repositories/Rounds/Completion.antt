-- ===== src/Repositories/Rounds/Completion.antt =====
-- When a round concludes: `record_completion` of
-- src/canterlot/repositories/beanie/round_completion.py.
use canterlot_api.Base.{
  ℕ, ◌==◌, ◌+◌, ◌≡◌, refl, Bool, true, false, ◌&&◌, not, List, [], ◌∷◌, ◌++◌, arith, any, bit,
  length, ltb, is_some, Option-cases, Bool-cases, inl, inr, if◌then◌else◌,
}
use canterlot_api.Mongo.{Mongo, IsMongo, plain, eq_plain, first, matching, update_first}
use canterlot_api.Mongo.Count.{
  count, count-update_first, update_first-none, first-update_first, first-holds,
}
use canterlot_api.Types.{RoundStatus, ◌is◌, round_status_enum}
use canterlot_api.Models.{Round, RoundCompletion, Database}
use canterlot_api.Effects.{ok}
use canterlot_api.Repositories.Rounds
use canterlot_api.Repositories.Rounds.{
  is_round_at, has_round_id, is_completion, is_finisher, completed_last, concluded,
  CompletionResult, rounds_set,
}

unchanged_first : {D : Type 0} (test : D → Bool) (ds : List D) → update_first test (λ d. d) ds ≡ ds
unchanged_first test [] = refl
unchanged_first test (d ∷ ds) = ground (arith, unchanged_first test ds)

any-first : {D : Type 0} (test : D → Bool) (ds : List D) → any test ds ≡ is_some (first test ds)
any-first test [] = refl
any-first test (d ∷ ds) = ground (arith, any-first test ds)

module _ (completion : RoundCompletion) (ids : List ℕ) (db : Database) where
  abbrev pub decided_test : Round → Bool
  decided_test = is_round_at completion.round_id RoundStatus.decided

  -- The members, and this one with them, who have finished the book of the round.
  abbrev pub finishers : ℕ
  finishers =
      length (matching (is_finisher completion.round_id ids) (db.completions ++ completion ∷ []))

  abbrev pub concludes : Bool
  concludes = any decided_test db.rounds && not (ltb finishers (length ids))

  abbrev pub locked : List Round
  locked =
      update_first decided_test (completed_last completion.user_id completion.completed_at)
        db.rounds

  abbrev pub closed : List Round
  closed = if concludes then update_first decided_test concluded locked else locked

  pub again_plain :
      is_some (first (is_completion completion.round_id completion.user_id) db.completions) ≡ true
      → Rounds.record_completion plain completion ids db
        ≡ (ok (record { is_new = false; round_concluded = false }), db)
  unfolding Rounds.record_completion
  again_plain recorded = ground (
    arith,
    any-first (is_completion completion.round_id completion.user_id) db.completions,
    unchanged_first (is_completion completion.round_id completion.user_id) db.completions,
  )

  any-locked : any decided_test locked ≡ any decided_test db.rounds
  any-locked = ground (
    arith,
    any-first decided_test locked,
    any-first decided_test db.rounds,
    first-update_first decided_test (completed_last completion.user_id completion.completed_at)
        db.rounds (λ d. refl),
  )

  pub new_plain :
      is_some (first (is_completion completion.round_id completion.user_id) db.completions) ≡ false
      → Rounds.record_completion plain completion ids db ≡ (
        ok (record { is_new = true; round_concluded = concludes }),
        record db { rounds = closed; completions = db.completions ++ completion ∷ [] },
      )
  unfolding Rounds.record_completion
  new_plain fresh = ground (
    arith,
    any-first (is_completion completion.round_id completion.user_id) db.completions,
    any-first decided_test db.rounds,
    any-locked,
    update_first-none decided_test (completed_last completion.user_id completion.completed_at)
        db.rounds,
  )

  -- The rounds of this id at a status, through the two updates.
  count-locked :
      (status : RoundStatus)
      → count (is_round_at completion.round_id status) locked
        ≡ count (is_round_at completion.round_id status) db.rounds
  count-locked status = elim (Option-cases (first decided_test db.rounds)) [
    | inl absent ↦ ground (
      arith,
      update_first-none decided_test (completed_last completion.user_id completion.completed_at)
          db.rounds absent,
    )
    | inr (r, found) ↦ ground (
      arith,
      count-update_first decided_test (completed_last completion.user_id completion.completed_at)
          (is_round_at completion.round_id status) db.rounds r found,
    )
  ]

  count-closed :
      (status : RoundStatus)
      → count (is_round_at completion.round_id status) closed
          + bit (concludes && status is RoundStatus.decided)
        ≡ count (is_round_at completion.round_id status) db.rounds
          + bit (concludes && status is RoundStatus.concluded)
  count-closed status = elim (Bool-cases concludes) [
    | inl closes ↦ elim (Option-cases (first decided_test locked)) [
      | inl absent ↦ absurd (ground (arith, any-first decided_test locked, any-locked))
      | inr (r, found) ↦ ground (
        arith,
        count-locked status,
        count-update_first decided_test concluded (is_round_at completion.round_id status) locked r
            found,
        first-holds decided_test locked r found,
      )
    ]
    | inr stays ↦ ground (arith, count-locked status)
  ]

module _ (completion : RoundCompletion) (ids : List ℕ) (db : Database) where
  round_kept :
      (q : Round → Bool) (f : Round → Round) (rs : List Round)
      → ((r : Round) → (r.id == completion.round_id) ≡ true → q r ≡ false)
      → ((r : Round) → q (f r) ≡ q r)
      → matching q (update_first (is_round_at completion.round_id RoundStatus.decided) f rs)
        ≡ matching q rs
  round_kept q f [] apart same = refl
  round_kept q f (r ∷ rs) apart same = ground (arith, round_kept q f rs apart same, apart r, same r)

  closed-other :
      (k : ℕ)
      → (k == completion.round_id) ≡ false
      → matching (has_round_id k) (closed completion ids db) ≡ matching (has_round_id k) db.rounds
  closed-other k other = ground (
    arith,
    round_kept (has_round_id k) (completed_last completion.user_id completion.completed_at)
        db.rounds (λ r h. ground arith) (λ r. refl),
    round_kept (has_round_id k) concluded (locked completion ids db) (λ r h. ground arith)
        (λ r. refl),
  )

-- Where the user has not finished the round yet, `record_completion` records that the user has, and
-- says that this is new. The round concludes, and the result says so, exactly if it is DECIDED and
-- the members who have finished, this one with them, are at least as many as the current members: then
-- one round of the id moves from DECIDED to CONCLUDED, and otherwise none of the id changes its status.
-- The rounds of every other id, and all but rounds and completions, are as they were.
pub record_completion_lem :
    (m : Mongo) (laws : IsMongo m) (completion : RoundCompletion) (ids : List ℕ) (db : Database)
    → is_some (first (is_completion completion.round_id completion.user_id) db.completions) ≡ false
    → (db' : Database) × (Rounds.record_completion m completion ids db
        ≡ (ok (record { is_new = true; round_concluded = concludes completion ids db }), db'))
      × (db'.completions ≡ db.completions ++ completion ∷ [])
      × ((status : RoundStatus)
          → count (is_round_at completion.round_id status) db'.rounds
              + bit (concludes completion ids db && status is RoundStatus.decided)
            ≡ count (is_round_at completion.round_id status) db.rounds
              + bit (concludes completion ids db && status is RoundStatus.concluded))
      × ((k : ℕ)
          → (k == completion.round_id) ≡ false
          → matching (has_round_id k) db'.rounds ≡ matching (has_round_id k) db.rounds)
      × (db' ≡ record db { rounds = db'.rounds; completions = db'.completions })
record_completion_lem m laws completion ids db fresh = rw (eq_plain m laws) (
  record db { rounds = closed completion ids db; completions = db.completions ++ completion ∷ [] },
  new_plain completion ids db fresh,
  refl,
  count-closed completion ids db,
  closed-other completion ids db,
  refl,
)

-- Where the user has finished the round already, `record_completion` changes nothing and the round
-- does not conclude, whoever the current members are: also where all of them have finished.
pub record_completion_again :
    (m : Mongo) (laws : IsMongo m) (completion : RoundCompletion) (ids : List ℕ) (db : Database)
    → is_some (first (is_completion completion.round_id completion.user_id) db.completions) ≡ true
    → Rounds.record_completion m completion ids db
      ≡ (ok (record { is_new = false; round_concluded = false }), db)
record_completion_again m laws completion ids db recorded =
    rw (eq_plain m laws) (again_plain completion ids db recorded)
