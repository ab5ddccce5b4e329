-- ===== src/Repositories/Rounds.antt =====
-- src/canterlot/repositories/beanie/round.py, round_completion.py and the write of read_book.py
pub mod Completion
pub mod Moves
use canterlot_api.Base.{
  ℕ, Bool, true, false, Option, none, some, List, [], ◌∷◌, map, ◌&&◌, not, ltb, ◌==◌, is_some, elem,
  length, if◌then◌else◌,
}
use canterlot_api.Mongo.{Mongo}
use canterlot_api.Types.{RoundStatus, RoundResolutionMethod, ◌is◌, one_of, round_status_enum}
use canterlot_api.Models.{Round, RoundCompletion, ReadBook, Database}
use canterlot_api.Effects.{duplicate_key, Action, ◌>>=◌, ◌>>◌, pure, gets, modify, some_or_raise}
use canterlot_api.Hoodie.Transactions.{transactional}

-- `ACTIVE_ROUND_STATUSES` of src/canterlot/models/round.py
abbrev pub active_round_statuses : List RoundStatus
active_round_statuses = RoundStatus.setup ∷ RoundStatus.voting ∷ RoundStatus.decided ∷ []

abbrev pub is_active_of : ℕ → Round → Bool
is_active_of club_id r = r.club_id == club_id && one_of r.status active_round_statuses

abbrev pub has_round_id : ℕ → Round → Bool
has_round_id round_id r = r.id == round_id

abbrev pub is_round_at : ℕ → RoundStatus → Round → Bool
is_round_at round_id status r = r.id == round_id && r.status is status

abbrev pub is_completion : ℕ → ℕ → RoundCompletion → Bool
is_completion round_id user_id c = c.round_id == round_id && c.user_id == user_id

abbrev pub is_finisher : ℕ → List ℕ → RoundCompletion → Bool
is_finisher round_id user_ids c = c.round_id == round_id && elem c.user_id user_ids

abbrev pub is_reading : ℕ → ℕ → ReadBook → Bool
is_reading user_id book_id b = b.user_id == user_id && b.book_id == book_id

-- the unique indexes
abbrev same_round : Round → Round → Bool
same_round r s = s.id == r.id

abbrev same_completion : RoundCompletion → RoundCompletion → Bool
same_completion c d = is_completion c.round_id c.user_id d

abbrev same_reading : ReadBook → ReadBook → Bool
same_reading b c = is_reading b.user_id b.book_id c

abbrev pub rounds_set : List Round → Database → Database
rounds_set rs db = record db { rounds = rs }

-- What the updates set.
abbrev pub drawn : ℕ → ℕ → Option ℕ → Round → Round
drawn book_id decided_at deadline r = record r {
  status = RoundStatus.decided;
  resolution_method = some RoundResolutionMethod.draw;
  book_id = some book_id;
  decided_at = some decided_at;
  deadline = elim deadline [ none ↦ r.deadline | some at ↦ some at ];
}

abbrev pub put_to_vote : Round → Round
put_to_vote r = record r {
  status = RoundStatus.voting;
  resolution_method = some RoundResolutionMethod.vote;
}

abbrev pub completed_last : ℕ → ℕ → Round → Round
completed_last user_id at r = record r {
  last_completed_by = some user_id;
  last_completed_at = some at;
}

abbrev pub concluded : Round → Round
concluded r = record r { status = RoundStatus.concluded }

-- src/canterlot/models/round_completion.py
pub record CompletionResult : Type 0 where
  pub is_new : Bool
  pub round_concluded : Bool

module _ (m : Mongo) where
  unfoldable pub find_active_by_club_id : ℕ → Action (Option Round)
  find_active_by_club_id club_id = gets (λ db. m.find_one (is_active_of club_id) db.rounds)

  unfoldable pub save : Round → Action Round
  save round = do
    written ← gets (λ db. m.upsert same_round (has_round_id round.id) (λ _. round) round db.rounds)
    rs ← some_or_raise written duplicate_key
    modify (rounds_set rs)
    pure round

  -- `matched_count > 0`
  unfoldable pub update_round : (Round → Bool) → (Round → Round) → Action Bool
  update_round test f = do
    (rs, matched) ← gets (λ db. m.update_one test f db.rounds)
    modify (rounds_set rs)
    pure (ltb 0 matched)

  unfoldable pub finalize_with_draw : ℕ → ℕ → ℕ → Option ℕ → Action Bool
  unfolding update_round
  finalize_with_draw round_id book_id decided_at deadline =
      update_round (is_round_at round_id RoundStatus.setup) (drawn book_id decided_at deadline)

  unfoldable pub finalize_with_vote : ℕ → Action Bool
  unfolding update_round
  finalize_with_vote round_id = update_round (is_round_at round_id RoundStatus.setup) put_to_vote

  unfoldable pub find_user_ids_by_round_id : ℕ → Action (List ℕ)
  find_user_ids_by_round_id round_id =
      gets (λ db. map (λ c. c.user_id) (m.find (λ c. c.round_id == round_id) db.completions))

  -- `upserted_id` is given exactly where no document is matched. The ids form a set.
  completion_body : RoundCompletion → List ℕ → Action CompletionResult
  unfolding update_round
  completion_body completion current_member_ids = do
    matched ←
        gets
          (λ db. m.find_one (is_completion completion.round_id completion.user_id) db.completions)
    written ← gets (λ db.
        m.upsert same_completion (is_completion completion.round_id completion.user_id) (λ c. c)
          completion db.completions)
    cs ← some_or_raise written duplicate_key
    modify (λ db. record db { completions = cs })
    if is_some matched then pure (record { is_new = false; round_concluded = false }) else (do
      locked ←
          update_round (is_round_at completion.round_id RoundStatus.decided)
            (completed_last completion.user_id completion.completed_at)
      finishers ←
          gets (λ db. m.find (is_finisher completion.round_id current_member_ids) db.completions)
      let counted = length finishers
      let waits = ltb counted (length current_member_ids)
      if not locked
          then pure (record { is_new = true; round_concluded = false })
          else if waits
          then pure (record { is_new = true; round_concluded = false })
          else (update_round (is_round_at completion.round_id RoundStatus.decided) concluded
              >>= λ closed. pure (record { is_new = true; round_concluded = closed })))

  unfoldable pub record_completion : RoundCompletion → List ℕ → Action CompletionResult
  unfolding completion_body transactional
  record_completion completion current_member_ids =
      transactional m none false (completion_body completion current_member_ids)

  -- `upsert` of read_book.py
  unfoldable pub upsert_read_book : ℕ → ℕ → Option ℕ → Action Unit
  upsert_read_book user_id book_id rating = do
    written ← gets (λ db.
        m.upsert same_reading (is_reading user_id book_id)
          (λ b. record b { rating = elim rating [ none ↦ b.rating | some r ↦ some r ] })
          (record { user_id = user_id; book_id = book_id; rating = rating }) db.read_books)
    bs ← some_or_raise written duplicate_key
    modify (λ db. record db { read_books = bs })
