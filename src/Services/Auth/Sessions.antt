-- ===== src/Services/Auth/Sessions.antt =====
-- src/canterlot/services/auth.py: registration, sessions and their refresh tokens. `salt` and `now` are
-- what the library of hashes and the clock give, `new_id` and `seed` what the driver and `shortuuid`
-- give to a new account.
use Prim.Native.String.{String}
use text.Mathlib.Text.{◌==◌ as str_eq}
use canterlot_api.Base.{ℕ, ◌==◌, ◌&&◌, Bool, false, not, Option, none, some}
use canterlot_api.Mongo.{Mongo}
use canterlot_api.Models.{User, bare_user}
use canterlot_api.Effects
use canterlot_api.Effects.{Action, ◌>>=◌, ◌>>◌, pure, raise, raise_if, some_or_raise}
use canterlot_api.Repositories.Users
use canterlot_api.Repositories.Users.Sessions as Tokens
use canterlot_api.Repositories.Users.Profiles
use canterlot_api.Repositories.Users.Providers
use canterlot_api.Utils.Security.{
  Crypto, TokenSettings, hash_password, verify_password, create_access_token, create_refresh_token,
}

-- `TokenPair`, and `TokenResponse` of src/canterlot/dto/auth.py
pub record TokenPair : Type 0 where
  pub access_token : String
  pub refresh_token : String

pub record UserRegisterRequest : Type 0 where
  pub name : String
  pub username : String
  pub email : String
  pub password : String
  pub terms_version : ℕ
  pub privacy_version : ℕ

pub record LegalVersions : Type 0 where
  pub current_terms_version : ℕ
  pub current_privacy_version : ℕ

pub record RegisterResult : Type 0 where
  pub tokens : TokenPair
  pub user : User

-- A hash that is set and not empty.
abbrev pub has_password : User → Bool
has_password user = elim user.hashed_password [ none ↦ false | some h ↦ not (str_eq h "") ]

abbrev pub is_current : LegalVersions → ℕ → ℕ → Bool
is_current legal terms_version privacy_version =
    terms_version == legal.current_terms_version && privacy_version == legal.current_privacy_version

-- `verify_password(…, user.hashed_password)`, past the guard for a missing hash.
abbrev pub verifies : Crypto → String → User → Option Bool
verifies crypto password user = elim user.hashed_password [
  | none ↦ some false
  | some h ↦ verify_password crypto password h
]

module _ (crypto : Crypto) (settings : TokenSettings) where
  abbrev pub create_tokens : ℕ → ℕ → TokenPair
  create_tokens user_id now = record {
    access_token = create_access_token crypto settings user_id now;
    refresh_token = create_refresh_token crypto settings user_id now;
  }

module _ (m : Mongo) (crypto : Crypto) (settings : TokenSettings) where
  -- Creating tokens and storing the one that is refreshed, as the handlers do at their end.
  unfoldable pub push_new_tokens : ℕ → ℕ → Action TokenPair
  push_new_tokens user_id now = do
    let tokens = create_tokens crypto settings user_id now
    Tokens.push_refresh_token_by_id m user_id tokens.refresh_token
    pure tokens

  abbrev pub new_user : UserRegisterRequest → String → ℕ → String → ℕ → User
  new_user request hashed new_id seed now =
      record (bare_user new_id request.name request.username request.email seed) {
        hashed_password = some hashed;
        accepted_terms_version = some request.terms_version;
        accepted_terms_at = some now;
        accepted_privacy_version = some request.privacy_version;
        accepted_privacy_at = some now;
        profile_completed_at = some now;
      }

  unfoldable pub attribute_referral : String → Action Unit
  attribute_referral username = Profiles.increment_referral_count_by_username m username

  unfoldable pub register_user :
      LegalVersions
      → UserRegisterRequest
      → Option String
      → ℕ
      → String
      → String
      → ℕ
      → Action RegisterResult
  unfolding push_new_tokens attribute_referral
  register_user legal request invited_by new_id seed salt now = do
    name_taken ← Users.exists_by_username m request.username
    raise_if name_taken Effects.username_already_exists
    email_taken ← Users.exists_by_email m request.email
    raise_if email_taken Effects.email_already_exists
    raise_if (not (is_current legal request.terms_version request.privacy_version))
        Effects.stale_legal_version
    hashed ← some_or_raise (hash_password crypto request.password salt) Effects.value_error
    saved_user ← Providers.save m (new_user request hashed new_id seed now)
    elim invited_by [ none ↦ pure tt | some username ↦ attribute_referral username ]
    tokens ← push_new_tokens saved_user.id now
    pure (record { tokens = tokens; user = saved_user })

  unfoldable pub login_user : String → String → ℕ → Action TokenPair
  unfolding push_new_tokens
  login_user username plain_password now = do
    found ← Profiles.find_by_username m username
    elim found [
      | none ↦ raise Effects.invalid_credentials
      | some user ↦ do
        raise_if (not (has_password user)) Effects.invalid_credentials
        verified ← some_or_raise (verifies crypto plain_password user) Effects.value_error
        raise_if (not verified) Effects.invalid_credentials
        push_new_tokens user.id now
    ]

  unfoldable pub rotate_refresh_token : ℕ → String → ℕ → Action TokenPair
  unfolding push_new_tokens
  rotate_refresh_token user_id old_token now = do
    removed ← Tokens.pull_refresh_token_by_id m user_id old_token
    raise_if (not removed) Effects.invalid_credentials
    push_new_tokens user_id now

unfoldable pub logout : Mongo → ℕ → String → Action Unit
logout m user_id token = do removed ← Tokens.pull_refresh_token_by_id m user_id token; pure tt

unfoldable pub logout_all : Mongo → ℕ → String → Action Unit
logout_all m user_id token = do
  cleared ← Tokens.clear_all_refresh_tokens m user_id token
  raise_if (not cleared) Effects.invalid_credentials
