-- ===== src/Services/User.antt =====
-- src/canterlot/services/user.py: an account's profile, avatar and legal acceptance. `Preferences` has its
-- email preferences and their cache. `user` is the document of the caller.
pub mod Preferences
use Prim.Native.String.{String}
use text.Mathlib.Text.{◌==◌ as str_eq}
use canterlot_api.Base.{
  ℕ, Bool, true, false, ◌&&◌, not, Option, none, some, List, [], ◌∷◌, or_default, if◌then◌else◌,
}
use canterlot_api.Mongo.{Mongo, first, matching}
use canterlot_api.Types.{AuthProviderName, provider_enum}
use canterlot_api.Models.{User, LinkedProvider, Avatar, ReadBook}
use canterlot_api.Effects
use canterlot_api.Effects.{Action, ◌>>=◌, ◌>>◌, pure, raise, raise_if, gets, modify, some_or_raise}
use canterlot_api.Repositories.Users
use canterlot_api.Repositories.Users.Profiles
use canterlot_api.Repositories.Users.Profiles.{profile_updated, legal_accepted}
use canterlot_api.Repositories.Users.Providers
use canterlot_api.Repositories.Users.Providers.{is_link_of, avatar_set}
use canterlot_api.Repositories.Rounds
use canterlot_api.Repositories.Rounds.{is_reading}
use canterlot_api.Services.Auth.Sessions.{LegalVersions, is_current}
use canterlot_api.Services.Auth.Providers.{truthy}

-- The first link of the provider, where it has a picture.
abbrev pub resolve_linked_provider_avatar_value : User → AuthProviderName → Option String
resolve_linked_provider_avatar_value user provider =
    elim (first (is_link_of provider) user.linked_providers) [
      | none ↦ none
      | some linked ↦ truthy linked.picture_url
    ]

abbrev ensure_write_succeeded : Bool → Action Unit
ensure_write_succeeded changed = raise_if (not changed) Effects.invalid_credentials

module _ (m : Mongo) where
  unfoldable pub get_by_username : String → Action User
  get_by_username username = do
    user ← Profiles.find_by_username m username
    some_or_raise user Effects.user_not_found

  unfoldable pub mark_book_read : ℕ → ℕ → Option ℕ → Action Unit
  mark_book_read user_id book_id rating = Rounds.upsert_read_book m user_id book_id rating

  unfoldable pub update_profile : User → Option String → Option String → Action User
  update_profile user name username = do
    taken ← elim username [
      | none ↦ pure false
      | some wanted ↦
          if str_eq wanted user.username then pure false else Users.exists_by_username m wanted
    ]
    raise_if taken Effects.username_already_exists
    changed ← Profiles.update_profile m user.id name username
    ensure_write_succeeded changed
    pure (profile_updated name username user)

  unfoldable pub set_avatar_source : User → AuthProviderName → Action User
  set_avatar_source user source = do
    value ←
        some_or_raise (resolve_linked_provider_avatar_value user source)
          Effects.auth_provider_not_linked
    let avatar : Avatar = record { source = source; value = value }
    changed ← Providers.set_avatar m user.id avatar
    ensure_write_succeeded changed
    pure (avatar_set (some avatar) user)

  unfoldable pub clear_avatar : ℕ → Action Unit
  clear_avatar user_id = do
    changed ← Providers.clear_avatar m user_id
    ensure_write_succeeded changed

  -- `new_seed` is what `shortuuid.random` gives.
  unfoldable pub regenerate_avatar_seed : User → String → Action User
  regenerate_avatar_seed user new_seed = do
    changed ← Profiles.set_generated_avatar_seed m user.id new_seed
    ensure_write_succeeded changed
    pure (record user { generated_avatar_seed = new_seed })

  unfoldable pub accept_legal_documents : LegalVersions → User → ℕ → ℕ → ℕ → Action User
  accept_legal_documents legal user terms_version privacy_version now = do
    raise_if (not (is_current legal terms_version privacy_version)) Effects.stale_legal_version
    let profile_completed_at = or_default user.profile_completed_at now
    changed ←
        Profiles.set_legal_acceptance m user.id terms_version now privacy_version now
          profile_completed_at
    ensure_write_succeeded changed
    pure (legal_accepted terms_version now privacy_version now profile_completed_at user)

  unfoldable pub is_verified_email : ℕ → Action Bool
  is_verified_email user_id = Profiles.is_email_verified_by_id m user_id

  unfoldable pub get_by_id : ℕ → Action User
  get_by_id user_id = do
    user ← Profiles.find_by_id m user_id
    some_or_raise user Effects.user_not_found

  unfoldable pub get_id_by_username : String → Action ℕ
  get_id_by_username username = do
    user_id ← Users.find_id_by_username m username
    some_or_raise user_id Effects.user_not_found

  unfoldable pub get_id_by_identifier : String → Action ℕ
  get_id_by_identifier identifier = do
    user_id ← Profiles.find_id_by_identifier m identifier
    some_or_raise user_id Effects.user_not_found

  unfoldable pub mark_email_as_verified : ℕ → ℕ → Action Unit
  mark_email_as_verified user_id now = Profiles.mark_email_as_verified m user_id now
