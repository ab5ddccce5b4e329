-- ===== src/Services/Catalog.antt =====
-- src/canterlot/services/catalog.py: who may suggest a book, and taking one off the catalog of a club.
pub mod Removal
use canterlot_api.Base.{
  ℕ, ◌==◌, Bool, true, ◌&&◌, ◌||◌, not, Option, none, some, elem, is_id, if◌then◌else◌,
}
use canterlot_api.Mongo.{Mongo}
use canterlot_api.Models.{Round}
use canterlot_api.Effects
use canterlot_api.Effects.{Action, ◌>>=◌, ◌>>◌, raise_if, some_or_raise}
use canterlot_api.Repositories.Memberships
use canterlot_api.Repositories.Clubs
use canterlot_api.Repositories.Catalog
use canterlot_api.Repositories.Rounds
use canterlot_api.Services.Club.Roles.{is_privileged}

abbrev pub is_locked_by_round : Option Round → ℕ → Bool
is_locked_by_round none book_id = Bool.false
is_locked_by_round (some round) book_id =
    if is_id round.book_id book_id then true else elem book_id round.candidate_pool

module _ (m : Mongo) where
  unfoldable pub ensure_suggestion_allowed : ℕ → ℕ → Action Unit
  ensure_suggestion_allowed club_id user_id = do
    seated ← Memberships.exists_by_club_id_and_member_user_id m club_id user_id
    raise_if (not seated) Effects.unauthorized_club_member
    allowed ← Clubs.is_suggestions_allowed m club_id
    raise_if (not allowed) Effects.club_suggestions_closed

  unfoldable pub remove_book_from_club : ℕ → ℕ → ℕ → Action Unit
  remove_book_from_club club_id book_id current_user_id = do
    found ← Catalog.find_by_club_id_and_book_id m club_id book_id
    entry ← some_or_raise found Effects.book_not_found
    role ← Memberships.find_member_role_by_club_id_and_user_id m club_id current_user_id
    let is_original_suggester = entry.suggested_by == current_user_id
    raise_if (not (is_privileged role) && not is_original_suggester)
        Effects.unauthorized_club_member
    active_round ← Rounds.find_active_by_club_id m club_id
    raise_if (is_locked_by_round active_round book_id) Effects.book_locked_in_active_round
    Catalog.delete_by_club_id_and_book_id m club_id book_id
