-- ===== src/Services/Auth/Ledger.antt =====
-- The session handlers of src/canterlot/services/auth.py as a ledger of the refresh tokens that are
-- good, without their order and number.
pub mod Calls
pub mod Served
use Prim.Native.String.{String}
use text.Mathlib.Text.{◌==◌ as str_eq}
use canterlot_api.Base.{
  ℕ, ◌==◌, Bool, true, false, ◌&&◌, ◌||◌, not, Option, none, some, List, [], ◌∷◌, is_id,
  if◌then◌else◌,
}
use canterlot_api.Base.Texts.{has_text}
use canterlot_api.Mongo.{Mongo, first}
use canterlot_api.Models.{Database}
use canterlot_api.Effects.{
  Result, ok, err, invalid_credentials, value_error, Action, ◌>>=◌, ◌>>◌, pure,
}
use canterlot_api.Repositories.Users.Accounts.{tokens_of}
use canterlot_api.Services.Auth.Sessions.{
  TokenPair, has_password, verifies, create_tokens, login_user, rotate_refresh_token, logout,
  logout_all,
}
use canterlot_api.Utils.Security.{Crypto, TokenSettings}

pub data SessionCall : Type 0 where
  login : (username password : String) (now : ℕ) → SessionCall
  rotate : (user_id : ℕ) (old_token : String) (now : ℕ) → SessionCall
  leave : (user_id : ℕ) (token : String) → SessionCall
  leave_all : (user_id : ℕ) (token : String) → SessionCall

-- Which tokens are good for which account.
abbrev pub Ledger : Type 0
Ledger = ℕ → String → Bool

abbrev pub ledger : Database → Ledger
ledger db k t = has_text t (tokens_of k db)

abbrev pub is_opened : Result ℕ → ℕ → Bool
is_opened (err e) k = false
is_opened (ok id) k = id == k

module _ (crypto : Crypto) where
  -- The account that a name and a password open, or why they open none.
  abbrev pub opens : Database → String → String → Result ℕ
  opens db username password = elim (first (λ u. str_eq u.username username) db.users) [
    | none ↦ err invalid_credentials
    | some u ↦
        if has_password u
        then elim (verifies crypto password u) [
          | none ↦ err value_error
          | some verified ↦ if verified then ok u.id else err invalid_credentials
        ]
        else err invalid_credentials
  ]

  module _ (settings : TokenSettings) where
    unfoldable pub perform : Mongo → SessionCall → Action (Option TokenPair)
    perform m (login username password now) =
        login_user m crypto settings username password now >>= λ tokens. pure (some tokens)
    perform m (rotate user_id old_token now) =
        rotate_refresh_token m crypto settings user_id old_token now >>= λ tokens.
        pure (some tokens)
    perform m (leave user_id token) = logout m user_id token >> pure none
    perform m (leave_all user_id token) = logout_all m user_id token >> pure none

    -- The calls in turn, with what each returns or raises.
    unfoldable pub serve :
        Mongo → List SessionCall → Database → List (Result (Option TokenPair)) × Database
    unfolding perform
    serve m [] db = ([], db)
    serve m (call ∷ calls) db =
        let (answer, db') = perform m call db in
        let (answers, end) = serve m calls db' in (answer ∷ answers, end)

    -- What a call is to answer, and the ledger after it.
    module _ (who : String → String → Result ℕ) where
      abbrev pub answer : SessionCall → Ledger → Result (Option TokenPair)
      answer (login username password now) good = elim (who username password) [
        | err e ↦ err e
        | ok id ↦ ok (some (create_tokens crypto settings id now))
      ]
      answer (rotate user_id old_token now) good =
          if good user_id old_token
          then ok (some (create_tokens crypto settings user_id now))
          else err invalid_credentials
      answer (leave user_id token) good = ok none
      answer (leave_all user_id token) good =
          if good user_id token then ok none else err invalid_credentials

      abbrev pub after : SessionCall → Ledger → Ledger
      after (login username password now) good k t =
          good k t
          || (is_opened (who username password) k
              && str_eq (create_tokens crypto settings k now).refresh_token t)
      after (rotate user_id old_token now) good k t =
          (good k t && not (k == user_id && str_eq t old_token))
          || ((k == user_id && good user_id old_token)
              && str_eq (create_tokens crypto settings k now).refresh_token t)
      after (leave user_id token) good k t = good k t && not (k == user_id && str_eq t token)
      after (leave_all user_id token) good k t =
          good k t && not (k == user_id && good user_id token)

      abbrev pub specified : List SessionCall → Ledger → List (Result (Option TokenPair)) × Ledger
      specified [] good = ([], good)
      specified (call ∷ calls) good =
          let (answers, end) = specified calls (after call good) in
          (answer call good ∷ answers, end)
