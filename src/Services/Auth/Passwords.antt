-- ===== src/Services/Auth/Passwords.antt =====
-- src/canterlot/services/auth.py: changing and setting a password. `user` is the document of the caller.
use Prim.Native.String.{String}
use canterlot_api.Base.{ℕ, ◌&&◌, Bool, not, none, some, is_some, if◌then◌else◌}
use canterlot_api.Mongo.{Mongo}
use canterlot_api.Models.{User}
use canterlot_api.Effects
use canterlot_api.Effects.{Action, ◌>>=◌, ◌>>◌, pure, raise_if, some_or_raise}
use canterlot_api.Repositories.Users.Sessions as Tokens
use canterlot_api.Services.Auth.Sessions.{TokenPair, has_password, verifies, create_tokens}
use canterlot_api.Utils.Security.{Crypto, TokenSettings, hash_password}

module _ (m : Mongo) (crypto : Crypto) (settings : TokenSettings) where
  unfoldable pub change_password : User → String → String → String → ℕ → Action TokenPair
  change_password user current_password new_password salt now = do
    raise_if (not (has_password user)) Effects.password_not_set
    is_current ← some_or_raise (verifies crypto current_password user) Effects.value_error
    raise_if (not is_current) Effects.incorrect_password
    is_same ← some_or_raise (verifies crypto new_password user) Effects.value_error
    raise_if is_same Effects.same_password
    let tokens = create_tokens crypto settings user.id now
    hashed ← some_or_raise (hash_password crypto new_password salt) Effects.value_error
    Tokens.change_password m user.id hashed tokens.refresh_token none
    pure tokens

  unfoldable pub set_password : User → String → Bool → String → ℕ → Action TokenPair
  set_password user password is_reset salt now = do
    raise_if (not is_reset && has_password user) Effects.password_already_set
    let tokens = create_tokens crypto settings user.id now
    let should_mark_verified = is_reset && not (is_some user.email_preferences.verified_at)
    hashed ← some_or_raise (hash_password crypto password salt) Effects.value_error
    Tokens.change_password m user.id hashed tokens.refresh_token
        (if should_mark_verified then some now else none)
    pure tokens
