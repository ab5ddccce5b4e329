-- ===== src/Services/Club/Ownership.antt =====
-- src/canterlot/services/club.py: dissolving a club, and handing it over. A handler is given the club as
-- it was loaded, and the moment `now` at which it reads the clock.
use Prim.Native.String.{String}
use canterlot_api.Base.{
  ℕ, ◌+◌, Option, none, some, ◌&&◌, not, ltb, ◌==◌, is_some, is_id, if◌then◌else◌,
}
use canterlot_api.Mongo.{Mongo}
use canterlot_api.Types.{role_enum, policy_enum, status_enum}
use canterlot_api.Models.{Club}
use canterlot_api.Effects
use canterlot_api.Effects.{Action, ◌>>=◌, ◌>>◌, pure, raise, raise_if, some_or_raise}
use canterlot_api.Repositories.Memberships
use canterlot_api.Repositories.Clubs
use canterlot_api.Repositories.Users
use canterlot_api.Services.Club.Roles.{Settings, is_owner, is_within, get_member_role}

module _ (m : Mongo) (cfg : Settings) where
  unfoldable pub dissolve_club : Club → ℕ → ℕ → Action Unit
  unfolding get_member_role
  dissolve_club club caller_id now = do
    caller_role ← get_member_role m club.id caller_id
    raise_if (not (is_owner caller_role)) Effects.unauthorized_club_member
    raise_if
        (is_some club.protected_former_owner_id
          && is_within cfg.transfer_cooldown club.ownership_transferred_at now)
        Effects.former_owner_protected
    Clubs.delete_with_memberships_and_catalog m club.id

  -- The cooldown part of `__ensure_transfer_is_allowed`.
  ensure_cooldown_is_over : Option ℕ → ℕ → Action Unit
  ensure_cooldown_is_over none now = pure tt
  ensure_cooldown_is_over (some last_transfer) now =
      raise_if (ltb now (last_transfer + cfg.transfer_cooldown))
        (Effects.ownership_transfer_cooldown (last_transfer + cfg.transfer_cooldown))

  ensure_transfer_is_allowed : Club → ℕ → ℕ → ℕ → Action Unit
  unfolding get_member_role ensure_cooldown_is_over
  ensure_transfer_is_allowed club current_owner_id target_user_id now = do
    raise_if (target_user_id == current_owner_id) Effects.cannot_transfer_ownership_to_self
    caller_role ← get_member_role m club.id current_owner_id
    raise_if (not (is_owner caller_role)) Effects.unauthorized_club_member
    target_role ← get_member_role m club.id target_user_id
    raise_if (not (is_some target_role)) Effects.club_member_not_found
    if is_id club.protected_former_owner_id target_user_id
        then pure tt
        else ensure_cooldown_is_over club.ownership_transferred_at now

  -- The result is the deadline of a reclaim.
  unfoldable pub transfer_ownership : Club → ℕ → String → ℕ → Action ℕ
  unfolding ensure_transfer_is_allowed
  transfer_ownership club current_owner_id target_username now = do
    target_user_id ←
        some_or_raise (← Users.find_id_by_username m target_username) Effects.user_not_found
    ensure_transfer_is_allowed club current_owner_id target_user_id now
    transferred ← Memberships.transfer_ownership m club.id current_owner_id target_user_id now
    raise_if (not transferred) Effects.ownership_transfer_conflict
    pure (now + cfg.reclaim_window)

  unfoldable pub reclaim_ownership : Club → ℕ → ℕ → Action ℕ
  reclaim_ownership club caller_id now = do
    raise_if (not (is_id club.protected_former_owner_id caller_id)) Effects.unauthorized_club_member
    owner ← Memberships.find_owner_id_by_club_id m club.id
    transferred_at ← some_or_raise club.ownership_transferred_at Effects.ownership_transfer_conflict
    current_owner_id ← some_or_raise owner Effects.ownership_transfer_conflict
    raise_if (ltb (transferred_at + cfg.reclaim_window) now)
        (Effects.ownership_reclaim_window_expired (transferred_at + cfg.reclaim_window))
    reclaimed ← Memberships.reclaim_ownership m club.id caller_id current_owner_id
    raise_if (not reclaimed) Effects.ownership_transfer_conflict
    pure current_owner_id
