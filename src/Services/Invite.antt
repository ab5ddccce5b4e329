-- ===== src/Services/Invite.antt =====
-- src/canterlot/services/invite.py. `now` is the moment at which a handler reads the clock, `new_id`
-- the identifier that `shortuuid` draws, and `lower` the conversion of a text to small letters.
use Prim.Native.String.{String}
pub mod Links
pub mod Directs
pub mod Usage
pub mod Validation
use text.Mathlib.Text.{◌==◌ as str_eq}
use canterlot_api.Base.{
  ℕ, ◌+◌, ◌*◌, Bool, true, false, Option, none, some, ◌&&◌, not, ltb, is_id, if◌then◌else◌,
}
use canterlot_api.Mongo.{Mongo}
use canterlot_api.Types.{JoinPolicy, InviteType, ◌is◌, invite_type_enum}
use canterlot_api.Models.{Club, Invite}
use canterlot_api.Effects
use canterlot_api.Effects.{Action, ◌>>=◌, ◌>>◌, pure, raise, raise_if, some_or_raise}
use canterlot_api.Repositories.Memberships
use canterlot_api.Repositories.Clubs
use canterlot_api.Repositories.Users
use canterlot_api.Repositories.Invites
use canterlot_api.Repositories.Invites.{is_email}
use canterlot_api.Services.Club.Roles.{is_privileged}

pub record InviteValidationResult : Type 0 where
  pub club_id : ℕ
  pub club_name : String
  pub invited_by : Option String
  pub is_direct : Bool

pub record InvitePreview : Type 0 where
  pub club_slug : String
  pub club_name : String
  pub join_policy : JoinPolicy
  pub invite_type : InviteType
  pub invited_by_username : Option String

-- `timedelta(weeks=1)` in microseconds
abbrev pub week : ℕ
week = 604800000000

-- `expires_at and expires_at < now`
abbrev pub is_expired : Invite → ℕ → Bool
is_expired invite now = elim invite.expires_at [ none ↦ false | some at ↦ ltb at now ]

-- The keywords of `InviteModel`, with its defaults.
abbrev pub public_invite : ℕ → ℕ → ℕ → Invite
public_invite new_id club_id now = record {
  id = new_id;
  club_id = club_id;
  created_by = none;
  target_email = none;
  target_user_id = none;
  type = InviteType.public;
  created_at = now;
  expires_at = none;
  uses_count = 0;
  is_active = true;
}

abbrev pub direct_invite : ℕ → ℕ → ℕ → Option String → Option ℕ → ℕ → Invite
direct_invite new_id club_id issuer_id target_email target_user_id now = record {
  id = new_id;
  club_id = club_id;
  created_by = some issuer_id;
  target_email = target_email;
  target_user_id = target_user_id;
  type = InviteType.direct;
  created_at = now;
  expires_at = some (now + week);
  uses_count = 0;
  is_active = true;
}

module _ (m : Mongo) (lower : String → String) where
  unfoldable pub resolve_inviter_username : Invite → Option String → Action (Option String)
  resolve_inviter_username invite invited_by = elim invite.created_by [
    | some creator ↦ Users.find_username_by_id m creator
    | none ↦ elim invited_by [
      | none ↦ pure none
      | some name ↦
          if str_eq name ""
          then pure none
          else (Users.exists_by_username m (lower name) >>= λ known.
              pure (if known then some name else none))
    ]
  ]

  unfoldable pub get_preview_metadata : ℕ → Option String → ℕ → Action InvitePreview
  get_preview_metadata invite_id invited_by now = do
    invite ← some_or_raise (← Invites.find_by_id m invite_id) Effects.invalid_invite_token
    raise_if (not invite.is_active) Effects.invite_link_deactivated
    raise_if (is_expired invite now) Effects.invite_link_deactivated
    club ← some_or_raise (← Clubs.find_by_id m invite.club_id) Effects.club_not_found
    inviter_username ← resolve_inviter_username invite invited_by
    pure (record {
      club_slug = club.slug;
      club_name = club.name;
      join_policy = club.join_policy;
      invite_type = invite.type;
      invited_by_username = inviter_username;
    })

  assert_not_expired : Invite → ℕ → Action Unit
  assert_not_expired invite now = raise_if (is_expired invite now) Effects.invite_link_deactivated

  -- `matches`: an email that is empty counts as no email.
  matches : Invite → Option String → Option ℕ → Bool
  matches invite user_email user_id = elim invite.target_email [
    | some target ↦ elim user_email [
      | none ↦ false
      | some email ↦ not (str_eq email "") && str_eq target email
    ]
    | none ↦ elim user_id [ none ↦ false | some id ↦ is_id invite.target_user_id id ]
  ]

  assert_direct_identity_matches : Invite → Bool → Option String → Option ℕ → Action Unit
  unfolding matches
  assert_direct_identity_matches invite is_direct user_email user_id =
      raise_if (is_direct && not (matches invite user_email user_id))
        Effects.direct_invite_identity_mismatch

  unfoldable pub validate_incoming_invite :
      ℕ → Option String → Option ℕ → Option String → ℕ → Action InviteValidationResult
  unfolding assert_not_expired assert_direct_identity_matches
  validate_incoming_invite invite_id user_email user_id invited_by now = do
    invite ← some_or_raise (← Invites.find_by_id m invite_id) Effects.invalid_invite_token
    raise_if (not invite.is_active) Effects.invite_link_deactivated
    assert_not_expired invite now
    club_name ← some_or_raise (← Clubs.find_club_name_by_id m invite.club_id) Effects.club_not_found
    raise_if (str_eq club_name "") Effects.club_not_found
    let is_direct = invite.type is InviteType.direct
    assert_direct_identity_matches invite is_direct user_email user_id
    inviter_username ← resolve_inviter_username invite invited_by
    pure (record {
      club_id = invite.club_id;
      club_name = club_name;
      invited_by = inviter_username;
      is_direct = is_direct;
    })

module _ (m : Mongo) where
  verify_privileged_role : ℕ → ℕ → Action Unit
  verify_privileged_role club_id user_id = do
    role ← Memberships.find_member_role_by_club_id_and_user_id m club_id user_id
    raise_if (not (is_privileged role)) Effects.unauthorized_club_member

  unfoldable pub rotate_public_link : ℕ → ℕ → ℕ → ℕ → Action ℕ
  unfolding verify_privileged_role
  rotate_public_link club_id user_id new_id now = do
    verify_privileged_role club_id user_id
    Invites.deactivate_all_public_by_club_id m club_id
    saved ← Invites.save m (public_invite new_id club_id now)
    pure saved.id

  unfoldable pub get_public_link : ℕ → Action ℕ
  get_public_link club_id = do
    invite ←
        some_or_raise (← Invites.find_one_active_public_by_club_id m club_id)
          Effects.invite_link_deactivated
    pure invite.id

  unfoldable pub create_external_invite : ℕ → ℕ → String → ℕ → ℕ → Action ℕ
  unfolding verify_privileged_role
  create_external_invite club_id issuer_id target_email new_id now = do
    verify_privileged_role club_id issuer_id
    raise_if (← Users.exists_by_email m target_email) Effects.invite_email_already_registered
    Invites.deactivate_all_direct_by_club_id_and_target_email m club_id target_email
    saved ← Invites.save m (direct_invite new_id club_id issuer_id (some target_email) none now)
    pure saved.id

  unfoldable pub create_internal_invite : ℕ → ℕ → ℕ → ℕ → ℕ → Action ℕ
  unfolding verify_privileged_role
  create_internal_invite club_id issuer_id target_user_id new_id now = do
    verify_privileged_role club_id issuer_id
    Invites.deactivate_all_direct_by_club_id_and_target_user_id m club_id target_user_id
    saved ← Invites.save m (direct_invite new_id club_id issuer_id none (some target_user_id) now)
    pure saved.id

  unfoldable pub register_invite_usage : ℕ → Action Unit
  register_invite_usage invite_id = do
    found ← Invites.find_by_id m invite_id
    elim found [
      | none ↦ pure tt
      | some invite ↦
          Invites.increment_uses_count_by_id m invite.id
          >> (if invite.type is InviteType.direct
              then Invites.deactivate_by_id m invite.id
              else pure tt)
    ]
