-- ===== src/Services/Club/Admission.antt =====
-- src/canterlot/services/club.py: how a user enters a club. `now` is the moment at which a handler
-- reads the clock.
use Prim.Native.String.{String}
use canterlot_api.Base.{ℕ, Bool, true, false, not, if◌then◌else◌}
use canterlot_api.Mongo.{Mongo}
use canterlot_api.Types.{
  MemberRole, JoinPolicy, ClubOnboardingStatus, ◌is◌, role_enum, policy_enum, status_enum,
}
use canterlot_api.Effects
use canterlot_api.Effects.{Action, ◌>>=◌, ◌>>◌, pure, raise, raise_if, some_or_raise}
use canterlot_api.Repositories.Memberships
use canterlot_api.Repositories.Clubs
use canterlot_api.Services.Club.Roles.{is_privileged, get_member_role}

pub record ClubOnboarding : Type 0 where
  pub club_name : String
  pub status : ClubOnboardingStatus

module _ (m : Mongo) where
  -- The branches of `admit_user` for a user who is no active member.
  admit_outsider : ℕ → JoinPolicy → ℕ → Bool → ℕ → Action ClubOnboardingStatus
  admit_outsider club_id join_policy user_id true now = do
    Memberships.upsert_member m club_id user_id MemberRole.member now
    pure ClubOnboardingStatus.joined
  admit_outsider club_id join_policy user_id false now = do
    banned ← Memberships.exists_by_club_id_and_banned_user_id m club_id user_id
    if banned
        then pure ClubOnboardingStatus.banned
        else if join_policy is JoinPolicy.public
        then Memberships.upsert_member m club_id user_id MemberRole.member now
          >> pure ClubOnboardingStatus.joined
        else Memberships.create_pending_request m club_id user_id now
          >> pure ClubOnboardingStatus.pending_approval

  unfoldable pub admit_user : ℕ → ℕ → Bool → ℕ → Action ClubOnboarding
  unfolding admit_outsider
  admit_user club_id user_id is_direct now = do
    club ← some_or_raise (← Clubs.find_by_id m club_id) Effects.club_not_found
    seated ← Memberships.exists_by_club_id_and_member_user_id m club_id user_id
    status ←
        if seated
        then pure ClubOnboardingStatus.already_member
        else admit_outsider club_id club.join_policy user_id is_direct now
    pure (record { club_name = club.name; status = status })

  unfoldable pub review_pending_request : ℕ → ℕ → ℕ → Bool → ℕ → Action Unit
  unfolding get_member_role
  review_pending_request club_id reviewer_id target_user_id approve now = do
    reviewer_role ← get_member_role m club_id reviewer_id
    raise_if (not (is_privileged reviewer_role)) Effects.unauthorized_club_member
    waits ← Memberships.exists_by_club_id_and_pending_user_id m club_id target_user_id
    raise_if (not waits) Effects.pending_request_not_found
    if approve
        then Memberships.upsert_member m club_id target_user_id MemberRole.member now
        else Memberships.delete_membership m club_id target_user_id
