-- ===== src/Services/Round.antt =====
-- src/canterlot/services/round.py: opening the vote on a round, and finishing its book.
pub mod Vote
pub mod Weights
pub mod Start
pub mod Steps
pub mod Reach
pub mod Everyone
use canterlot_api.Base.{
  distinct, ℕ, Bool, true, false, Option, none, some, List, [], ◌∷◌, not, elem, or_default,
  if◌then◌else◌,
}
use canterlot_api.Mongo.{Mongo}
use canterlot_api.Types.{RoundStatus, RoundResolutionMethod, ◌is◌, round_status_enum}
use canterlot_api.Models.{Round}
use canterlot_api.Effects
use canterlot_api.Effects.{Action, ◌>>=◌, ◌>>◌, pure, raise_if, some_or_raise}
use canterlot_api.Repositories.Memberships
use canterlot_api.Repositories.Rounds
use canterlot_api.Repositories.Rounds.{put_to_vote}
use canterlot_api.Services.Club.Roles.{is_privileged}

module _ (m : Mongo) where
  unfoldable pub ensure_caller_is_owner_or_admin : ℕ → ℕ → Action Unit
  ensure_caller_is_owner_or_admin club_id caller_id = do
    caller_role ← Memberships.find_member_role_by_club_id_and_user_id m club_id caller_id
    raise_if (not (is_privileged caller_role)) Effects.unauthorized_club_member

  unfoldable pub ensure_caller_is_member : ℕ → ℕ → Action Unit
  ensure_caller_is_member club_id caller_id = do
    seated ← Memberships.exists_by_club_id_and_member_user_id m club_id caller_id
    raise_if (not seated) Effects.unauthorized_club_member

  unfoldable pub get_finalizable_round : ℕ → Action Round
  get_finalizable_round club_id = do
    round ← some_or_raise (← Rounds.find_active_by_club_id m club_id) Effects.round_not_found
    raise_if (not (round.status is RoundStatus.setup)) Effects.round_already_finalized
    pure round

  unfoldable pub finalize_via_vote : Round → Action Round
  finalize_via_vote round = do
    changed ← Rounds.finalize_with_vote m round.id
    raise_if (not changed) Effects.round_already_finalized
    pure (put_to_vote round)

  -- `finalize_round` with the method VOTE.
  unfoldable pub finalize_round_by_vote : ℕ → ℕ → Action Round
  unfolding ensure_caller_is_owner_or_admin get_finalizable_round finalize_via_vote
  finalize_round_by_vote club_id caller_id = do
    ensure_caller_is_owner_or_admin club_id caller_id
    round ← get_finalizable_round club_id
    finalize_via_vote round

  unfoldable pub get_decided_round : ℕ → Action Round
  get_decided_round club_id = do
    round ← some_or_raise (← Rounds.find_active_by_club_id m club_id) Effects.round_not_found
    raise_if (not (round.status is RoundStatus.decided)) Effects.round_not_found
    pure round

  -- A decided round has a book (`cast`); a missing one is read as the id 0.
  unfoldable pub mark_finished : ℕ → ℕ → Option ℕ → ℕ → Action Unit
  unfolding ensure_caller_is_member get_decided_round
  mark_finished club_id caller_id rating now = do
    ensure_caller_is_member club_id caller_id
    round ← get_decided_round club_id
    let book_id = or_default round.book_id 0
    member_ids ← Memberships.find_active_member_ids_by_club_id m club_id
    result ←
        Rounds.record_completion m
          (record {
            club_id = club_id;
            round_id = round.id;
            book_id = book_id;
            user_id = caller_id;
            completed_at = now;
          })
          (distinct member_ids)
    Rounds.upsert_read_book m caller_id book_id rating
