-- ===== src/Services/Auth/Providers.antt =====
-- src/canterlot/services/auth.py: signing in with an account of another service. `OAuthProvider` is the
-- interface of src/canterlot/gateways/auth/interfaces.py, whose implementations call the service.
use Prim.Native.String.{String}
use text.Mathlib.Text.{◌==◌ as str_eq}
use canterlot_api.Base.{
  ℕ, ◌==◌, ◌&&◌, Bool, false, not, Option, none, some, List, [], ◌∷◌, any, is_empty, is_some,
  if◌then◌else◌,
}
use canterlot_api.Mongo.{Mongo}
use canterlot_api.Types.{AuthProviderName, AuthOutcome, ◌is◌, provider_enum}
use canterlot_api.Models.{User, LinkedProvider, bare_user}
use canterlot_api.Effects
use canterlot_api.Effects.{Result, Action, ◌>>=◌, ◌>>◌, pure, raise, raise_if, some_or_raise}
use canterlot_api.Repositories.Users
use canterlot_api.Repositories.Users.Profiles
use canterlot_api.Repositories.Users.Providers
use canterlot_api.Repositories.Users.Providers.{is_link_of, unlinked}
use canterlot_api.Services.Auth.Sessions.{TokenPair, has_password, push_new_tokens}
use canterlot_api.Utils.Security.{Crypto, TokenSettings}
use canterlot_api.Utils.Slugs.{make_username}

pub record OAuthIdentity : Type 0 where
  pub external_id : String
  pub email : String
  pub name : Option String
  pub picture : Option String

pub record OAuthProvider : Type 0 where
  pub supports_avatar : Bool
  pub verify : String → Option String → Result OAuthIdentity

-- `OAuthSignInResult`
pub record SignIn : Type 0 where
  pub outcome : AuthOutcome
  pub tokens : TokenPair
  pub user : Option User

-- `RevokeProviderLinkResult`
pub record Revoked : Type 0 where
  pub user : Option User
  pub is_locked_out : Bool

-- A text that is given and not empty.
abbrev pub truthy : Option String → Option String
truthy none = none
truthy (some s) = if str_eq s "" then none else some s

-- pydantic's validation, which a library does: the value that it keeps of a text, and `none` where it
-- raises. `is_https` is the constraint that an `HttpsUrl` adds to an `HttpUrl`.
pub record Validators : Type 0 where
  pub http_url : String → Option String
  pub is_https : String → Bool
  pub person_name : String → Option String
  pub username_str : String → Option String
  pub normalized_email_str : String → Option String

-- The `picture_url` of a `LinkedProviderSchema`, from the claim of an identity.
abbrev pub link_picture : Validators → OAuthIdentity → Option (Option String)
link_picture v identity = elim (truthy identity.picture) [
  | none ↦ some none
  | some text ↦ elim (v.http_url text) [
    | none ↦ none
    | some url ↦ if v.is_https url then some (some url) else none
  ]
]

abbrev pub identity_link : AuthProviderName → OAuthIdentity → Option String → LinkedProvider
identity_link provider identity picture = record {
  provider = provider;
  external_id = identity.external_id;
  picture_url = picture;
}

-- No way to sign in but the links of `provider`.
abbrev pub is_only_way : User → AuthProviderName → Bool
is_only_way user provider =
    not (has_password user) && is_empty (unlinked provider user.linked_providers)

-- `verify` does not touch the database.
abbrev pub verified : OAuthProvider → String → Option String → Action OAuthIdentity
verified p credential redirect_uri db = (p.verify credential redirect_uri, db)

module _ (m : Mongo) (crypto : Crypto) (settings : TokenSettings) (v : Validators)
    (oauth_providers : AuthProviderName → Option OAuthProvider) where
  abbrev pub get_oauth_provider : AuthProviderName → Action OAuthProvider
  get_oauth_provider provider =
      some_or_raise (oauth_providers provider) Effects.gateway_configuration

  unfoldable pub issue_login_tokens : ℕ → AuthOutcome → ℕ → Action SignIn
  unfolding push_new_tokens
  issue_login_tokens user_id outcome now = do
    tokens ← push_new_tokens m crypto settings user_id now
    pure (record { outcome = outcome; tokens = tokens; user = none })

  unfoldable pub issue_new_user_login_tokens : AuthOutcome → User → ℕ → Action SignIn
  unfolding push_new_tokens
  issue_new_user_login_tokens outcome user now = do
    tokens ← push_new_tokens m crypto settings user.id now
    pure (record { outcome = outcome; tokens = tokens; user = some user })

  refresh_avatar : ℕ → AuthProviderName → String → Action Unit
  refresh_avatar user_id provider picture = do
    current_avatar ← Providers.find_avatar_by_id m user_id
    elim current_avatar [
      | none ↦ pure tt
      | some avatar ↦
          if avatar.source is provider
          then (raise_if (not (v.is_https picture)) Effects.validation_error
              >> (Providers.set_avatar m user_id (record { source = provider; value = picture })
                  >> pure tt))
          else pure tt
    ]

  unfoldable pub sync_oauth_picture_metadata : ℕ → AuthProviderName → OAuthIdentity → Action Unit
  unfolding refresh_avatar
  sync_oauth_picture_metadata user_id provider identity = elim (truthy identity.picture) [
    | none ↦ pure tt
    | some text ↦ do
      picture ← some_or_raise (v.http_url text) Effects.validation_error
      Providers.update_linked_provider_picture m user_id provider picture
      elim (oauth_providers provider) [
        | none ↦ pure tt
        | some p ↦ if p.supports_avatar then refresh_avatar user_id provider picture else pure tt
      ]
  ]

  -- `identity.email.split("@")[0]` is `local_part`, and `slugify` a library's. `none` means that
  -- `make_username` has not ended.
  module _ (slugify : String → ℕ → String → String) (local_part : String → String) where
    -- The document, once its fields are valid.
    abbrev pub new_oauth_user :
        AuthProviderName
        → Bool
        → OAuthIdentity
        → Option String
        → String
        → String
        → String
        → ℕ
        → String
        → User
    new_oauth_user provider supports_avatar identity picture name username email new_id seed =
        record (bare_user new_id name username email seed) {
          linked_providers = identity_link provider identity picture ∷ [];
          avatar = elim picture [
            | none ↦ none
            | some url ↦
                if supports_avatar then some (record { source = provider; value = url }) else none
          ];
        }

    create_account :
        AuthProviderName
        → OAuthProvider
        → OAuthIdentity
        → List String
        → ℕ
        → String
        → ℕ
        → Action (Option SignIn)
    unfolding issue_login_tokens issue_new_user_login_tokens
    create_account provider p identity suffixes new_id seed now = do
      found ← Profiles.find_by_email m identity.email
      raise_if (is_some found) Effects.oauth_link_required
      made ←
          make_username slugify
            (elim (truthy identity.name) [ none ↦ local_part identity.email | some name ↦ name ])
            (Users.exists_by_username m) suffixes
      elim made [
        | none ↦ pure none
        | some username ↦ do
          picture ← some_or_raise (link_picture v identity) Effects.validation_error
          name ←
              some_or_raise
                (v.person_name (elim (truthy identity.name) [ none ↦ username | some name ↦ name ]))
                Effects.validation_error
          valid_username ← some_or_raise (v.username_str username) Effects.validation_error
          email ← some_or_raise (v.normalized_email_str identity.email) Effects.validation_error
          saved_user ← Providers.save_new_oauth_account m (
              new_oauth_user provider p.supports_avatar identity picture name valid_username email
                new_id seed)
          elim saved_user [
            | none ↦ do
              winner ← Providers.find_id_by_linked_provider m provider identity.external_id
              winner_id ← some_or_raise winner Effects.oauth_account_creation_conflict
              signed ← issue_login_tokens winner_id AuthOutcome.logged_in now
              pure (some signed)
            | some user ↦ do
              signed ← issue_new_user_login_tokens AuthOutcome.created user now
              pure (some signed)
          ]
      ]

    unfoldable pub sign_in_with_provider :
        AuthProviderName → String → List String → ℕ → String → ℕ → Action (Option SignIn)
    unfolding issue_login_tokens sync_oauth_picture_metadata create_account
    sign_in_with_provider provider credential suffixes new_id seed now = do
      p ← get_oauth_provider provider
      identity ← verified p credential none
      existing_id ← Providers.find_id_by_linked_provider m provider identity.external_id
      elim existing_id [
        | none ↦ create_account provider p identity suffixes new_id seed now
        | some user_id ↦ do
          sync_oauth_picture_metadata user_id provider identity
          signed ← issue_login_tokens user_id AuthOutcome.logged_in now
          pure (some signed)
      ]

  unfoldable pub link_provider : ℕ → AuthProviderName → String → Option String → Action Unit
  unfolding sync_oauth_picture_metadata
  link_provider user_id provider credential redirect_uri = do
    p ← get_oauth_provider provider
    identity ← verified p credential redirect_uri
    existing_id ← Providers.find_id_by_linked_provider m provider identity.external_id
    elim existing_id [
      | some existing ↦
          raise_if (not (existing == user_id)) Effects.auth_provider_already_linked
          >> sync_oauth_picture_metadata user_id provider identity
      | none ↦ do
        picture ← some_or_raise (link_picture v identity) Effects.validation_error
        linked ← Providers.add_linked_provider m user_id (identity_link provider identity picture)
        raise_if (not linked) Effects.auth_provider_already_linked
    ]

unfoldable pub revoke_provider_link : Mongo → AuthProviderName → String → Action Revoked
revoke_provider_link m provider external_id = do
  found ← Providers.find_by_linked_provider m provider external_id
  elim found [
    | none ↦ pure (record { user = none; is_locked_out = false })
    | some user ↦ do
      Providers.remove_linked_provider m user.id provider
      pure (record { user = some user; is_locked_out = is_only_way user provider })
  ]

unfoldable pub disconnect_provider : Mongo → User → AuthProviderName → Action Unit
disconnect_provider m user provider = do
  raise_if (not (any (is_link_of provider) user.linked_providers)) Effects.auth_provider_not_linked
  raise_if (is_only_way user provider) Effects.last_authentication_method
  Providers.remove_linked_provider m user.id provider
