-- ===== src/Tests/Samples.antt =====
-- A club with a user of each status, another club, two invites and a verification code.
use Prim.Native.String.{String}
use text.Mathlib.Text.{◌==◌ as str_eq}
use text.Mathlib.TextEquality.{eq_iff}
use canterlot_api.Base.{
  Bool-cases, inl, inr, sym, if◌then◌else◌, ℕ, true, none, some, [], ◌∷◌, arith,
}
use canterlot_api.Types.{MembershipStatus, JoinPolicy, InviteType, VerificationScope}
use canterlot_api.Models.{Club, ClubMembership, Invite, User, VerificationCode, Database, bare_user}
use canterlot_api.Repositories.Memberships.Sound.{IsSound}
use canterlot_api.Services.Club.Roles.{Settings}
use canterlot_api.Services.Club.Creation.{ClubCreateRequest}
use canterlot_api.Services.Club.Settings.{SlugsUnique}
use canterlot_api.Services.Club.Customizing.{ClubSettingsUpdateRequest}
use canterlot_api.Services.Verification.{AuthSettings}

-- The defaults of src/canterlot/config.py, in minutes here.
abbrev pub cfg : Settings
cfg = record { reclaim_window = 1440; transfer_cooldown = 43200 }

abbrev pub auth : AuthSettings
auth = record {
  max_verification_attempts = 5;
  password_reset_ttl_minutes = 10;
  email_ttl_minutes = 15;
}

abbrev pub readers : Club
readers = record {
  id = 1;
  name = "Readers";
  description = none;
  slug = "readers";
  join_policy = JoinPolicy.restricted;
  allow_suggestions = true;
  preferred_languages = [];
  ownership_transferred_at = some 100;
  protected_former_owner_id = some 11;
}

abbrev pub poets : Club
poets = record {
  id = 2;
  name = "Poets";
  description = none;
  slug = "poets";
  join_policy = JoinPolicy.public;
  allow_suggestions = true;
  preferred_languages = [];
  ownership_transferred_at = none;
  protected_former_owner_id = none;
}

abbrev seat : ℕ → ℕ → MembershipStatus → ClubMembership
seat club_id user_id status = record {
  club_id = club_id;
  user_id = user_id;
  status = status;
  joined_at = some 0;
  requested_at = none;
}

abbrev pub applejack : User
applejack = bare_user 12 "applejack" "applejack" "aj@example.org" "seed"

abbrev pub rainbow : User
rainbow = bare_user 11 "rainbow" "rainbow" "rd@example.org" "seed"

abbrev pub rarity : User
rarity = bare_user 15 "rarity" "rarity" "rarity@example.org" "seed"

-- A direct invite to Readers, and the public link of Poets.
abbrev pub personal : Invite
personal = record {
  id = 101;
  club_id = 1;
  created_by = some 10;
  target_email = none;
  target_user_id = some 15;
  type = InviteType.direct;
  created_at = 0;
  expires_at = some 900;
  uses_count = 0;
  is_active = true;
}

abbrev pub open_link : Invite
open_link = record {
  id = 102;
  club_id = 2;
  created_by = none;
  target_email = none;
  target_user_id = none;
  type = InviteType.public;
  created_at = 0;
  expires_at = none;
  uses_count = 3;
  is_active = true;
}

abbrev pub sent : VerificationCode
sent = record {
  id = 201;
  code_hash = 777;
  user_id = 12;
  scope = VerificationScope.email;
  attempts = 3;
  expires_at = 500;
  is_active = true;
}

abbrev pub sample : Database
sample = record {
  clubs = readers ∷ poets ∷ [];
  memberships =
      seat 1 10 MembershipStatus.owner
      ∷ seat 1 11 MembershipStatus.admin
      ∷ seat 1 12 MembershipStatus.member
      ∷ seat 1 13 MembershipStatus.pending
      ∷ seat 1 14 MembershipStatus.banned
      ∷ seat 2 10 MembershipStatus.owner
      ∷ [];
  catalog = [];
  invites = personal ∷ open_link ∷ [];
  users = rainbow ∷ applejack ∷ rarity ∷ [];
  codes = sent ∷ [];
  rounds = [];
  completions = [];
  read_books = [];
}

pub sample-IsSound : IsSound sample
sample-IsSound = record {
  keys = λ a b. ground arith;
  club_ids = λ k. ground arith;
  owners = λ k. ground arith;
}

-- The text itself, for the library that makes slugs.
abbrev pub same_text : String → ℕ → String → String
same_text text max_length separator = text

abbrev pub lower : String → String
lower s = s

-- The digest of a code for a user.
abbrev pub hash_code : String → ℕ → ℕ
hash_code code user_id = if str_eq code "424242" then 777 else 0

abbrev pub request : ClubCreateRequest
request = record {
  name = "readers";
  description = none;
  join_policy = JoinPolicy.public;
  preferred_languages = [];
}

abbrev pub renaming : ClubSettingsUpdateRequest
renaming = record {
  name = some "Poets";
  description = some "Canterlot reads";
  join_policy = none;
  allow_suggestions = none;
  preferred_languages = none;
}

pub sample-SlugsUnique : SlugsUnique sample.clubs
sample-SlugsUnique k = elim (Bool-cases (str_eq "readers" k)) [
  | inl same ↦ rw (sym ((eq_iff "readers" k).0 same)) (omega arith)
  | inr other ↦ ground arith
]
