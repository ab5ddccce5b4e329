-- ===== src/Services/Club/Roles.antt =====
-- src/canterlot/services/club.py: the settings, ranks of roles, and the role of a user in a club.
use canterlot_api.Base.{ℕ, ◌+◌, Bool, false, Option, none, some, [], ◌∷◌, ltb}
use canterlot_api.Mongo.{Mongo}
use canterlot_api.Types.{MemberRole, ◌is◌, one_of, role_enum, policy_enum, status_enum}
use canterlot_api.Effects.{Action}
use canterlot_api.Repositories.Memberships

pub record Settings : Type 0 where
  pub reclaim_window : ℕ
  pub transfer_cooldown : ℕ

-- `_outranks`
abbrev pub outranks : MemberRole → MemberRole → Bool
outranks actor target = ltb (role_enum.index actor) (role_enum.index target)

-- `role in (OWNER, ADMIN)` for a role that may be None
abbrev pub is_privileged : Option MemberRole → Bool
is_privileged none = false
is_privileged (some role) = one_of role (MemberRole.owner ∷ MemberRole.admin ∷ [])

-- `role == OWNER` for a role that may be None
abbrev pub is_owner : Option MemberRole → Bool
is_owner none = false
is_owner (some role) = role is MemberRole.owner

-- `at is not None and now - at < window`
abbrev pub is_within : ℕ → Option ℕ → ℕ → Bool
is_within window none now = false
is_within window (some at) now = ltb now (at + window)

module _ (m : Mongo) where
  unfoldable pub get_member_role : ℕ → ℕ → Action (Option MemberRole)
  get_member_role = Memberships.find_member_role_by_club_id_and_user_id m
