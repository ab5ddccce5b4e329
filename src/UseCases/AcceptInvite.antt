-- ===== src/UseCases/AcceptInvite.antt =====
-- src/canterlot/use_cases/accept_invite.py. The clock is read twice: where the invite is validated, and
-- where the user is admitted.
pub mod Admitted
pub mod Once
use Prim.Native.String.{String}
use canterlot_api.Base.{ℕ, none, some, [], ◌∷◌, if◌then◌else◌}
use canterlot_api.Mongo.{Mongo}
use canterlot_api.Types.{ClubOnboardingStatus, ◌is◌, one_of, onboarding_enum}
use canterlot_api.Models.{User}
use canterlot_api.Effects
use canterlot_api.Effects.{Action, ◌>>=◌, ◌>>◌, pure, raise_if}
use canterlot_api.Services.Club.Admission.{ClubOnboarding, admit_user}
use canterlot_api.Services.Invite.{validate_incoming_invite, register_invite_usage}

module _ (m : Mongo) where
  -- Step 3, "Handle Banned Status & Record Usage".
  unfoldable pub record_usage : ℕ → ClubOnboarding → Action ClubOnboarding
  record_usage invite_id onboarding = do
    raise_if (onboarding.status is ClubOnboardingStatus.banned) Effects.member_banned
    if one_of onboarding.status
          (ClubOnboardingStatus.joined ∷ ClubOnboardingStatus.pending_approval ∷ [])
        then register_invite_usage m invite_id
        else pure tt
    pure onboarding

  unfoldable pub accept_invite : (String → String) → ℕ → User → ℕ → ℕ → Action ClubOnboarding
  accept_invite lower invite_id current_user validated_at admitted_at = do
    validated ←
        validate_incoming_invite m lower invite_id (some current_user.email) (some current_user.id)
          none validated_at
    onboarding ← admit_user m validated.club_id current_user.id validated.is_direct admitted_at
    record_usage invite_id onboarding
