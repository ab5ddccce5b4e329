-- ===== src/Models.antt =====
-- The documents of src/canterlot/models/, and the database as a record of its collections. An id is
-- a number, a moment a number of microseconds, and what is only compared or copied a text.
use Prim.Native.String.{String}
use canterlot_api.Base.{ℕ, Bool, false, Option, none, List, []}
use canterlot_api.Types.{
  MembershipStatus, JoinPolicy, InviteType, VerificationScope, RoundSelectionMode, RoundStatus,
  RoundResolutionMethod, DeadlineUnit, AuthProviderName, EmailCategory,
}

pub record Club : Type 0 where
  pub id : ℕ
  pub name : String
  pub description : Option String
  pub slug : String
  pub join_policy : JoinPolicy
  pub allow_suggestions : Bool
  pub preferred_languages : List String
  pub ownership_transferred_at : Option ℕ
  pub protected_former_owner_id : Option ℕ

pub record ClubMembership : Type 0 where
  pub club_id : ℕ
  pub user_id : ℕ
  pub status : MembershipStatus
  pub joined_at : Option ℕ
  pub requested_at : Option ℕ

pub record CatalogEntry : Type 0 where
  pub club_id : ℕ
  pub book_id : ℕ
  pub suggested_by : ℕ
  pub suggested_at : ℕ

pub record Invite : Type 0 where
  pub id : ℕ
  pub club_id : ℕ
  pub created_by : Option ℕ
  pub target_email : Option String
  pub target_user_id : Option ℕ
  pub type : InviteType
  pub created_at : ℕ
  pub expires_at : Option ℕ
  pub uses_count : ℕ
  pub is_active : Bool

pub record LinkedProvider : Type 0 where
  pub provider : AuthProviderName
  pub external_id : String
  pub picture_url : Option String

-- `AvatarSchema` of src/canterlot/types.py
pub record Avatar : Type 0 where
  pub source : AuthProviderName
  pub value : String

-- A dictionary is the list of its keys and values.
pub record EmailPreferences : Type 0 where
  pub verified_at : Option ℕ
  pub delivery_failed : Bool
  pub categories_opt_out : List (EmailCategory × ℕ)
  pub categories_system_suppressed : List (EmailCategory × ℕ)
  pub clubs_opt_out : List (ℕ × ℕ)

-- without the badges and the time of creation, which no operation reads
pub record User : Type 0 where
  pub id : ℕ
  pub name : String
  pub username : String
  pub email : String
  pub hashed_password : Option String
  pub linked_providers : List LinkedProvider
  pub avatar : Option Avatar
  pub generated_avatar_seed : String
  pub referral_count : ℕ
  pub refresh_tokens : List String
  pub accepted_terms_version : Option ℕ
  pub accepted_terms_at : Option ℕ
  pub accepted_privacy_version : Option ℕ
  pub accepted_privacy_at : Option ℕ
  pub profile_completed_at : Option ℕ
  pub email_preferences : EmailPreferences
  pub last_seen_at : Option ℕ

-- The defaults of the two schemas, around the fields that every account has.
abbrev pub no_preferences : EmailPreferences
no_preferences = record {
  verified_at = none;
  delivery_failed = false;
  categories_opt_out = [];
  categories_system_suppressed = [];
  clubs_opt_out = [];
}

abbrev pub bare_user : ℕ → String → String → String → String → User
bare_user id name username email seed = record {
  id = id;
  name = name;
  username = username;
  email = email;
  hashed_password = none;
  linked_providers = [];
  avatar = none;
  generated_avatar_seed = seed;
  referral_count = 0;
  refresh_tokens = [];
  accepted_terms_version = none;
  accepted_terms_at = none;
  accepted_privacy_version = none;
  accepted_privacy_at = none;
  profile_completed_at = none;
  email_preferences = no_preferences;
  last_seen_at = none;
}

pub record VerificationCode : Type 0 where
  pub id : ℕ
  pub code_hash : ℕ
  pub user_id : ℕ
  pub scope : VerificationScope
  pub attempts : ℕ
  pub expires_at : ℕ
  pub is_active : Bool

pub record DeadlineDuration : Type 0 where
  pub value : ℕ
  pub unit : DeadlineUnit

pub record Round : Type 0 where
  pub id : ℕ
  pub club_id : ℕ
  pub selection_mode : RoundSelectionMode
  pub status : RoundStatus
  pub resolution_method : Option RoundResolutionMethod
  pub candidate_pool : List ℕ
  pub book_id : Option ℕ
  pub deadline_duration : Option DeadlineDuration
  pub deadline : Option ℕ
  pub started_by : ℕ
  pub decided_at : Option ℕ
  pub last_completed_by : Option ℕ
  pub last_completed_at : Option ℕ

pub record RoundCompletion : Type 0 where
  pub club_id : ℕ
  pub round_id : ℕ
  pub book_id : ℕ
  pub user_id : ℕ
  pub completed_at : ℕ

pub record ReadBook : Type 0 where
  pub user_id : ℕ
  pub book_id : ℕ
  pub rating : Option ℕ

pub record Database : Type 0 where
  pub clubs : List Club
  pub memberships : List ClubMembership
  pub catalog : List CatalogEntry
  pub invites : List Invite
  pub users : List User
  pub codes : List VerificationCode
  pub rounds : List Round
  pub completions : List RoundCompletion
  pub read_books : List ReadBook
