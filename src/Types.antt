-- ===== src/Types.antt =====
-- The enumerations of src/canterlot/types.py. Each keeps its members in order, so that `index` is
-- the position in `list(EnumClass)` and equality of members is equality of positions.
use canterlot_api.Base.{ℕ, ◌≡◌, Bool, List, ◌==◌, any, arith}

pub record Enum (A : Type 0) : Type 0 where
  pub index : A → ℕ
  pub index_injective : (a b : A) → index a ≡ index b → a ≡ b

module _ {A : Type 0} ⦃e : Enum A⦄ where
  infix 50 ◌is◌
  abbrev pub ◌is◌ : A → A → Bool
  a is b = e.index a == e.index b

  -- `a in (…)` over members
  abbrev pub one_of : A → List A → Bool
  one_of a = any (λ b. b is a)

pub data MemberRole : Type 0 where
  owner admin member : MemberRole

pub data MembershipStatus : Type 0 where
  owner admin member pending banned : MembershipStatus

pub data JoinPolicy : Type 0 where
  public restricted : JoinPolicy

pub data ClubOnboardingStatus : Type 0 where
  joined pending_approval already_member banned : ClubOnboardingStatus

pub data InviteType : Type 0 where
  public direct : InviteType

pub data VerificationScope : Type 0 where
  password_reset email : VerificationScope

pub data RoundSelectionMode : Type 0 where
  random curated : RoundSelectionMode

pub data RoundStatus : Type 0 where
  setup voting decided concluded cancelled : RoundStatus

pub data RoundResolutionMethod : Type 0 where
  draw vote : RoundResolutionMethod

pub data DeadlineUnit : Type 0 where
  days weeks months : DeadlineUnit

pub data AuthProviderName : Type 0 where
  google gravatar : AuthProviderName

pub data TokenType : Type 0 where
  access refresh reset : TokenType

pub data AuthOutcome : Type 0 where
  logged_in created : AuthOutcome

-- `EmailCategory` of src/canterlot/emails/core/enums.py
pub data EmailCategory : Type 0 where
  transactional engagement promotional : EmailCategory

abbrev role_index : MemberRole → ℕ
role_index MemberRole.owner = 0
role_index MemberRole.admin = 1
role_index MemberRole.member = 2

pub role_index_injective : (a b : MemberRole) → role_index a ≡ role_index b → a ≡ b
role_index_injective a b h = ground arith

abbrev status_index : MembershipStatus → ℕ
status_index MembershipStatus.owner = 0
status_index MembershipStatus.admin = 1
status_index MembershipStatus.member = 2
status_index MembershipStatus.pending = 3
status_index MembershipStatus.banned = 4

pub status_index_injective : (a b : MembershipStatus) → status_index a ≡ status_index b → a ≡ b
status_index_injective a b h = ground arith

abbrev policy_index : JoinPolicy → ℕ
policy_index JoinPolicy.public = 0
policy_index JoinPolicy.restricted = 1

pub policy_index_injective : (a b : JoinPolicy) → policy_index a ≡ policy_index b → a ≡ b
policy_index_injective a b h = ground arith

abbrev onboarding_index : ClubOnboardingStatus → ℕ
onboarding_index ClubOnboardingStatus.joined = 0
onboarding_index ClubOnboardingStatus.pending_approval = 1
onboarding_index ClubOnboardingStatus.already_member = 2
onboarding_index ClubOnboardingStatus.banned = 3

pub onboarding_index_injective :
    (a b : ClubOnboardingStatus) → onboarding_index a ≡ onboarding_index b → a ≡ b
onboarding_index_injective a b h = ground arith

abbrev invite_type_index : InviteType → ℕ
invite_type_index InviteType.public = 0
invite_type_index InviteType.direct = 1

pub invite_type_index_injective :
    (a b : InviteType) → invite_type_index a ≡ invite_type_index b → a ≡ b
invite_type_index_injective a b h = ground arith

abbrev scope_index : VerificationScope → ℕ
scope_index VerificationScope.password_reset = 0
scope_index VerificationScope.email = 1

pub scope_index_injective : (a b : VerificationScope) → scope_index a ≡ scope_index b → a ≡ b
scope_index_injective a b h = ground arith

abbrev mode_index : RoundSelectionMode → ℕ
mode_index RoundSelectionMode.random = 0
mode_index RoundSelectionMode.curated = 1

pub mode_index_injective : (a b : RoundSelectionMode) → mode_index a ≡ mode_index b → a ≡ b
mode_index_injective a b h = ground arith

abbrev round_status_index : RoundStatus → ℕ
round_status_index RoundStatus.setup = 0
round_status_index RoundStatus.voting = 1
round_status_index RoundStatus.decided = 2
round_status_index RoundStatus.concluded = 3
round_status_index RoundStatus.cancelled = 4

pub round_status_index_injective :
    (a b : RoundStatus) → round_status_index a ≡ round_status_index b → a ≡ b
round_status_index_injective a b h = ground arith

abbrev method_index : RoundResolutionMethod → ℕ
method_index RoundResolutionMethod.draw = 0
method_index RoundResolutionMethod.vote = 1

pub method_index_injective : (a b : RoundResolutionMethod) → method_index a ≡ method_index b → a ≡ b
method_index_injective a b h = ground arith

abbrev unit_index : DeadlineUnit → ℕ
unit_index DeadlineUnit.days = 0
unit_index DeadlineUnit.weeks = 1
unit_index DeadlineUnit.months = 2

pub unit_index_injective : (a b : DeadlineUnit) → unit_index a ≡ unit_index b → a ≡ b
unit_index_injective a b h = ground arith

abbrev provider_index : AuthProviderName → ℕ
provider_index AuthProviderName.google = 0
provider_index AuthProviderName.gravatar = 1

pub provider_index_injective :
    (a b : AuthProviderName) → provider_index a ≡ provider_index b → a ≡ b
provider_index_injective a b h = ground arith

abbrev category_index : EmailCategory → ℕ
category_index EmailCategory.transactional = 0
category_index EmailCategory.engagement = 1
category_index EmailCategory.promotional = 2

pub category_index_injective : (a b : EmailCategory) → category_index a ≡ category_index b → a ≡ b
category_index_injective a b h = ground arith

instance abbrev pub role_enum : Enum MemberRole
role_enum = record { index = role_index; index_injective = role_index_injective }

instance abbrev pub status_enum : Enum MembershipStatus
status_enum = record { index = status_index; index_injective = status_index_injective }

instance abbrev pub policy_enum : Enum JoinPolicy
policy_enum = record { index = policy_index; index_injective = policy_index_injective }

instance abbrev pub onboarding_enum : Enum ClubOnboardingStatus
onboarding_enum = record { index = onboarding_index; index_injective = onboarding_index_injective }

instance abbrev pub invite_type_enum : Enum InviteType
invite_type_enum = record {
  index = invite_type_index;
  index_injective = invite_type_index_injective;
}

instance abbrev pub scope_enum : Enum VerificationScope
scope_enum = record { index = scope_index; index_injective = scope_index_injective }

instance abbrev pub mode_enum : Enum RoundSelectionMode
mode_enum = record { index = mode_index; index_injective = mode_index_injective }

instance abbrev pub round_status_enum : Enum RoundStatus
round_status_enum = record {
  index = round_status_index;
  index_injective = round_status_index_injective;
}

instance abbrev pub method_enum : Enum RoundResolutionMethod
method_enum = record { index = method_index; index_injective = method_index_injective }

instance abbrev pub unit_enum : Enum DeadlineUnit
unit_enum = record { index = unit_index; index_injective = unit_index_injective }

instance abbrev pub provider_enum : Enum AuthProviderName
provider_enum = record { index = provider_index; index_injective = provider_index_injective }

instance abbrev pub category_enum : Enum EmailCategory
category_enum = record { index = category_index; index_injective = category_index_injective }
