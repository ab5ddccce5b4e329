-- ===== src/Services/Club/Moderation.antt =====
-- src/canterlot/services/club.py: removing a member, changing a role, and leaving. A handler is given
-- the club as it was loaded, and the moment `now` at which it reads the clock.
use canterlot_api.Base.{ℕ, Bool, Option, none, some, ◌&&◌, not, is_id, if◌then◌else◌}
use canterlot_api.Mongo.{Mongo}
use canterlot_api.Types.{MemberRole, ◌is◌, role_enum, policy_enum, status_enum}
use canterlot_api.Models.{Club}
use canterlot_api.Effects
use canterlot_api.Effects.{Action, ◌>>=◌, ◌>>◌, pure, raise, raise_if, some_or_raise}
use canterlot_api.Repositories.Memberships
use canterlot_api.Services.Club.Roles.{
  Settings, outranks, is_privileged, is_within, get_member_role,
}

module _ (m : Mongo) (cfg : Settings) where
  ensure_target_not_protected_former_owner : Club → ℕ → ℕ → Action Unit
  ensure_target_not_protected_former_owner club target_user_id now =
      raise_if
        (is_id club.protected_former_owner_id target_user_id
          && is_within cfg.transfer_cooldown club.ownership_transferred_at now)
        Effects.former_owner_protected

  unfoldable pub remove_member : Club → ℕ → ℕ → ℕ → Action Unit
  unfolding get_member_role ensure_target_not_protected_former_owner
  remove_member club remover_id target_user_id now = do
    remover ← get_member_role m club.id remover_id
    raise_if (not (is_privileged remover)) Effects.unauthorized_club_member
    remover_role ← some_or_raise remover Effects.unauthorized_club_member
    target ← get_member_role m club.id target_user_id
    target_role ← some_or_raise target Effects.club_member_not_found
    raise_if (not (outranks remover_role target_role)) Effects.unauthorized_club_member
    ensure_target_not_protected_former_owner club target_user_id now
    Memberships.ban_member m club.id target_user_id

  -- `none` is a change to the role that the target holds.
  ensure_role_change_is_allowed : Club → ℕ → ℕ → MemberRole → ℕ → Action (Option MemberRole)
  unfolding get_member_role ensure_target_not_protected_former_owner
  ensure_role_change_is_allowed club caller_id target_user_id new_role now = do
    raise_if (new_role is MemberRole.owner) Effects.cannot_change_owner_role
    caller_role ←
        some_or_raise (← get_member_role m club.id caller_id) Effects.unauthorized_club_member
    target_role ←
        some_or_raise (← get_member_role m club.id target_user_id) Effects.club_member_not_found
    raise_if (target_role is MemberRole.owner) Effects.cannot_change_owner_role
    if target_role is new_role then pure none else (do
      raise_if (not (outranks caller_role target_role)) Effects.unauthorized_club_member
      raise_if (not (outranks caller_role new_role)) Effects.unauthorized_club_member
      ensure_target_not_protected_former_owner club target_user_id now
      pure (some target_role))

  -- `some true` is a promotion, `some false` a demotion, `none` no change.
  unfoldable pub change_member_role : Club → ℕ → ℕ → MemberRole → ℕ → Action (Option Bool)
  unfolding ensure_role_change_is_allowed
  change_member_role club caller_id target_user_id new_role now = do
    allowed ← ensure_role_change_is_allowed club caller_id target_user_id new_role now
    elim allowed [
      | none ↦ pure none
      | some target_role ↦
          Memberships.change_member_role m club.id target_user_id new_role >>= λ changed.
          raise_if (not changed) Effects.member_role_change_conflict
          >> pure (some (outranks new_role target_role))
    ]

  unfoldable pub leave_club : Club → ℕ → ℕ → Action Unit
  unfolding get_member_role
  leave_club club caller_id now = do
    caller_role ←
        some_or_raise (← get_member_role m club.id caller_id) Effects.unauthorized_club_member
    raise_if (caller_role is MemberRole.owner) Effects.club_owner_cannot_leave
    raise_if
        (is_id club.protected_former_owner_id caller_id
          && is_within cfg.transfer_cooldown club.ownership_transferred_at now)
        Effects.former_owner_protected
    Memberships.delete_membership m club.id caller_id
