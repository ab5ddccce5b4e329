-- ===== src/Services/Auth/Renewal.antt =====
-- Logging in after `change_password` and `set_password` of src/canterlot/services/auth.py.
use Prim.Native.String.{String}
use text.Mathlib.Text.{◌==◌ as str_eq}
use text.Mathlib.TextPositions.{eq_refl}
use mathlib.Core.Option
use canterlot_api.Base.{
  ℕ, Bool-cases, inl, inr, Option-cases, ◌==◌, ◌≡◌, refl, Bool, false, ◌&&◌, ◌||◌, not, Option,
  none, some, List, [], ◌∷◌, arith, is_some, if◌then◌else◌,
}
use canterlot_api.Mongo.{Mongo, IsMongo, plain, eq_plain, first, update_first}
use canterlot_api.Models.{User, Database}
use canterlot_api.Effects.{ok, Outcome}
use canterlot_api.Repositories.Users.Sessions as Tokens
use canterlot_api.Repositories.Users.Sessions.{has_user_id, password_changed}
use canterlot_api.Repositories.Users.Profiles
use canterlot_api.Repositories.Users.Accounts.{account, tokens_of, changed, changed-Changed}
use canterlot_api.Services.Auth.Sessions.{
  TokenPair, has_password, verifies, create_tokens, push_new_tokens, login_user,
}
use canterlot_api.Services.Auth.Passwords.{change_password, set_password}
use canterlot_api.Utils.Security.{Crypto, IsCrypto, TokenSettings}

abbrev pub is_named : String → User → Bool
is_named username u = str_eq u.username username

first_named-changed :
    (f : User → User) (user : User) (us : List User)
    → ((u : User) → (f u).username ≡ u.username)
    → first (is_named user.username) us ≡ some user
    → first (has_user_id user.id) us ≡ some user
    → first (is_named user.username) (update_first (has_user_id user.id) f us) ≡ some (f user)
first_named-changed f user [] same named found = cc
first_named-changed f user (u ∷ us) same named found =
    ground (arith, first_named-changed f user us same, same u, eq_refl user.username)

module _ (crypto : Crypto) (laws : IsCrypto crypto) (settings : TokenSettings) (user : User)
    (password salt hashed : String) (valid : crypto.hashpw password salt ≡ some hashed) (now : ℕ)
    (mark : Option ℕ) (db : Database) where
  abbrev new_token : String
  new_token = (create_tokens crypto settings user.id now).refresh_token

  -- What setting the password leaves.
  abbrev pub renewed : Database
  renewed = changed user.id (password_changed hashed new_token mark) db

  pub change_password_lem :
      Tokens.change_password plain user.id hashed new_token mark db ≡ (ok tt, renewed)
  unfolding Tokens.change_password Tokens.update_user
  change_password_lem = refl

  pub login-renewed :
      (later : ℕ)
      → account user.id db ≡ some user
      → first (is_named user.username) db.users ≡ some user
      → (login_user plain crypto settings user.username password later renewed).0
        ≡ ok (create_tokens crypto settings user.id later)
  unfolding login_user Profiles.find_by_username push_new_tokens Tokens.push_refresh_token_by_id
      Tokens.update_user
  login-renewed later found named = ground (
    arith,
    first_named-changed (password_changed hashed new_token mark) user db.users (λ u. refl) named
        found,
    laws.checkpw-hashpw password salt hashed valid,
    laws.hashpw_full password salt hashed valid,
  )

  pub account-renewed :
      account user.id db ≡ some user
      → account user.id renewed ≡ some (password_changed hashed new_token mark user)
  account-renewed found = ground (
    arith,
    (changed-Changed user.id (password_changed hashed new_token mark) (λ u. refl) db).0 user.id,
  )

-- The account logs in with the new password, and no session but the new one is left.
abbrev pub Renewed :
    Mongo
    → Crypto
    → TokenSettings
    → User
    → String
    → ℕ
    → Option ℕ
    → Database
    → TokenPair
    → Database
    → Type 0
Renewed m crypto settings user password now verified_at db tokens db' =
    (tokens ≡ create_tokens crypto settings user.id now)
    × (tokens_of user.id db' ≡ tokens.refresh_token ∷ [])
    × ((later : ℕ)
        → (login_user m crypto settings user.username password later db').0
          ≡ ok (create_tokens crypto settings user.id later))
    × (Option.map (λ u. u.email_preferences.verified_at) (account user.id db') ≡ some verified_at)
    × ((k : ℕ) → (k == user.id) ≡ false → account k db' ≡ account k db)

-- The two answers of a check that does not raise.
abbrev pub is_yes : Option Bool → Bool
is_yes none = false
is_yes (some answer) = answer

abbrev pub is_no : Option Bool → Bool
is_no none = false
is_no (some answer) = not answer

module _ (crypto : Crypto) (laws : IsCrypto crypto) (settings : TokenSettings) (user : User)
    (password salt : String) (now : ℕ) (db : Database) (found : account user.id db ≡ some user)
    (named : first (is_named user.username) db.users ≡ some user) where
  renewed-Renewed :
      (hashed : String) (valid : crypto.hashpw password salt ≡ some hashed) (mark : Option ℕ)
      → Renewed plain crypto settings user password now
          (elim mark [ none ↦ user.email_preferences.verified_at | some at ↦ some at ])
          db
          (create_tokens crypto settings user.id now)
          (renewed crypto laws settings user password salt hashed valid now mark db)
  renewed-Renewed hashed valid mark =
      let f =
        password_changed hashed (create_tokens crypto settings user.id now).refresh_token mark in
      (
        refl,
        ground (
          arith,
          account-renewed crypto laws settings user password salt hashed valid now mark db found,
        ),
        λ later.
            login-renewed crypto laws settings user password salt hashed valid now mark db later
              found named,
        ground (
          arith,
          account-renewed crypto laws settings user password salt hashed valid now mark db found,
        ),
        λ k other. ground (arith, (changed-Changed user.id f (λ u. refl) db).0 k),
      )

  change_plain :
      (current : String)
      → Outcome
          (has_password user
            && (is_yes (verifies crypto current user)
                && (is_no (verifies crypto password user)
                    && is_some (crypto.hashpw password salt))))
          (Renewed plain crypto settings user password now user.email_preferences.verified_at db)
          db
          (change_password plain crypto settings user current password salt now db)
  unfolding change_password
  change_plain current = elim (Option-cases (crypto.hashpw password salt)) [
    | inl invalid ↦ ground arith
    | inr (hashed, valid) ↦ ground (
      arith,
      change_password_lem crypto laws settings user password salt hashed valid now none db,
      renewed-Renewed hashed valid none,
    )
  ]

  set_plain :
      (is_reset : Bool)
      → Outcome
          ((is_reset || not (has_password user)) && is_some (crypto.hashpw password salt))
          (Renewed plain crypto settings user password now
            (if is_reset && not (is_some user.email_preferences.verified_at)
              then some now
              else user.email_preferences.verified_at)
            db)
          db
          (set_password plain crypto settings user password is_reset salt now db)
  unfolding set_password
  set_plain is_reset = elim (Option-cases (crypto.hashpw password salt)) [
    | inl invalid ↦ ground arith
    | inr (hashed, valid) ↦
        elim (Bool-cases (is_reset && not (is_some user.email_preferences.verified_at))) [
          | inl marks ↦ ground (
            arith,
            change_password_lem crypto laws settings user password salt hashed valid now (some now)
                db,
            renewed-Renewed hashed valid (some now),
          )
          | inr keeps ↦ ground (
            arith,
            change_password_lem crypto laws settings user password salt hashed valid now none db,
            renewed-Renewed hashed valid none,
          )
        ]
  ]

-- `user` is the document of an account, found by its id and by its name. `change_password` returns
-- exactly if the account has a password, bcrypt checks both passwords given without raising, the
-- current one passes and the new one does not, and bcrypt hashes the new one. `set_password` returns
-- exactly if this is a reset or the account has no password, and bcrypt hashes the new one; it raises
-- for more than 72 bytes. Either then returns the new tokens; the account logs in with its name and the
-- new password at any later time, and of its refresh tokens the new one alone is good. A reset marks
-- the email verified unless it is already. The other accounts are as they were, and where a handler
-- raises, all of the database.
pub new_password-Outcome :
    (m : Mongo) (driver : IsMongo m) (crypto : Crypto) (laws : IsCrypto crypto)
    (settings : TokenSettings) (user : User) (current password salt : String) (is_reset : Bool)
    (now : ℕ) (db : Database)
    → account user.id db ≡ some user
    → first (is_named user.username) db.users ≡ some user
    → Outcome
        (has_password user
          && (is_yes (verifies crypto current user)
              && (is_no (verifies crypto password user) && is_some (crypto.hashpw password salt))))
        (Renewed m crypto settings user password now user.email_preferences.verified_at db)
        db
        (change_password m crypto settings user current password salt now db)
      × Outcome
          ((is_reset || not (has_password user)) && is_some (crypto.hashpw password salt))
          (Renewed m crypto settings user password now
            (if is_reset && not (is_some user.email_preferences.verified_at)
              then some now
              else user.email_preferences.verified_at)
            db)
          db
          (set_password m crypto settings user password is_reset salt now db)
new_password-Outcome m driver crypto laws settings user current password salt is_reset now db found
      named =
    rw (eq_plain m driver) (
      change_plain crypto laws settings user password salt now db found named current,
      set_plain crypto laws settings user password salt now db found named is_reset,
    )
