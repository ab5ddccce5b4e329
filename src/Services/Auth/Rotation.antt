-- ===== src/Services/Auth/Rotation.antt =====
-- What the session handlers of src/canterlot/services/auth.py leave in the database.
use Prim.Native.String.{String}
use canterlot_api.Base.{ℕ, ◌≡◌, refl, [], arith, if◌then◌else◌}
use canterlot_api.Base.Texts.{has_text}
use canterlot_api.Mongo.{plain}
use canterlot_api.Models.{Database}
use canterlot_api.Effects.{ok, err, invalid_credentials}
use canterlot_api.Repositories.Users.Sessions as Tokens
use canterlot_api.Repositories.Users.Sessions.{token_pushed, token_pulled, tokens_set}
use canterlot_api.Repositories.Users.Accounts.{
  IdsUnique, tokens_of, changed, changed-changed, update_holder_lem,
}
use canterlot_api.Services.Auth.Sessions.{
  create_tokens, push_new_tokens, rotate_refresh_token, logout, logout_all,
}
use canterlot_api.Utils.Security.{Crypto, TokenSettings}

module _ (crypto : Crypto) (settings : TokenSettings) where
  pub push_lem :
      (user_id now : ℕ) (db : Database)
      → push_new_tokens plain crypto settings user_id now db ≡ (
        ok (create_tokens crypto settings user_id now),
        changed user_id (token_pushed (create_tokens crypto settings user_id now).refresh_token) db,
      )
  unfolding push_new_tokens Tokens.push_refresh_token_by_id Tokens.update_user
  push_lem user_id now db = refl

  pub rotate_lem :
      (user_id : ℕ) (old : String) (now : ℕ) (db : Database)
      → IdsUnique db
      → rotate_refresh_token plain crypto settings user_id old now db ≡ (
          let tokens = create_tokens crypto settings user_id now in
          if has_text old (tokens_of user_id db)
          then (
            ok tokens,
            changed user_id (λ u. token_pushed tokens.refresh_token (token_pulled old u)) db,
          )
          else (err invalid_credentials, db))
  unfolding rotate_refresh_token Tokens.pull_refresh_token_by_id
  rotate_lem user_id old now db unique = ground (
    arith,
    update_holder_lem user_id old (token_pulled old) db unique,
    push_lem user_id now (changed user_id (token_pulled old) db),
    changed-changed user_id (token_pulled old)
        (token_pushed (create_tokens crypto settings user_id now).refresh_token) db (λ u. refl),
  )

pub logout_lem :
    (user_id : ℕ) (token : String) (db : Database)
    → IdsUnique db
    → logout plain user_id token db ≡ (
      ok tt,
      if has_text token (tokens_of user_id db) then changed user_id (token_pulled token) db else db,
    )
unfolding logout Tokens.pull_refresh_token_by_id
logout_lem user_id token db unique =
    ground (arith, update_holder_lem user_id token (token_pulled token) db unique)

pub logout_all_lem :
    (user_id : ℕ) (token : String) (db : Database)
    → IdsUnique db
    → logout_all plain user_id token db ≡ (
        if has_text token (tokens_of user_id db)
        then (ok tt, changed user_id (tokens_set []) db)
        else (err invalid_credentials, db))
unfolding logout_all Tokens.clear_all_refresh_tokens
logout_all_lem user_id token db unique =
    ground (arith, update_holder_lem user_id token (tokens_set []) db unique)
