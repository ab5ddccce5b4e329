-- ===== src/Services/Auth/Ledger/Served.antt =====
-- The session handlers of src/canterlot/services/auth.py keep the ledger of good tokens.
use Prim.Native.String.{String}
use text.Mathlib.Text.{◌==◌ as str_eq}
use canterlot_api.Base.{
  ℕ, ◌≡◌, refl, ◌∙◌, fun_ext, true, false, some, List, [], ◌∷◌, arith, is_some, Option-cases, inl,
  inr,
}
use canterlot_api.Base.Texts.{has_text-append}
use canterlot_api.Mongo.{Mongo, IsMongo, plain, eq_plain, first}
use canterlot_api.Models.{Database}
use canterlot_api.Effects.{Result, Result-cases, ok, err, invalid_credentials}
use canterlot_api.Repositories.Users.Profiles
use canterlot_api.Repositories.Users.Sessions.{token_pushed}
use canterlot_api.Repositories.Users.Accounts.{IdsUnique, account, changed}
use canterlot_api.Services.Auth.Sessions.{create_tokens, login_user}
use canterlot_api.Services.Auth.Rotation.{push_lem}
use canterlot_api.Services.Auth.Ledger.{
  Ledger, SessionCall, login, rotate, leave, leave_all, ledger, opens, perform, serve, answer,
  after, specified,
}
use canterlot_api.Utils.Security.{Crypto, TokenSettings}
use canterlot_api.Services.Auth.Ledger.Calls.{
  Kept, Kept-choice, finds-account, rotate-Kept, leave-Kept, leave_all-Kept,
}

module _ (crypto : Crypto) (settings : TokenSettings) where
  login_plain :
      (username password : String) (now : ℕ) (db : Database)
      → login_user plain crypto settings username password now db
        ≡ elim (opens crypto db username password) [
          | err e ↦ (err e, db)
          | ok id ↦ (
            ok (create_tokens crypto settings id now),
            changed id (token_pushed (create_tokens crypto settings id now).refresh_token) db,
          )
        ]
  unfolding login_user Profiles.find_by_username
  login_plain username password now db =
      elim (Option-cases (first (λ u. str_eq u.username username) db.users)) [
        | inl absent ↦ ground arith
        | inr (u, found) ↦ ground (arith, push_lem crypto settings u.id now db)
      ]

  opened-account :
      (username password : String) (id : ℕ) (db : Database)
      → opens crypto db username password ≡ ok id
      → is_some (account id db) ≡ true
  opened-account username password id db h =
      elim (Option-cases (first (λ u. str_eq u.username username) db.users)) [
        | inl absent ↦ ground arith
        | inr (u, found) ↦ ground (arith, finds-account username db.users u found)
      ]

  login-Kept :
      (username password : String) (now : ℕ) (db : Database)
      → IdsUnique db
      → Kept crypto settings
          (login username password now)
          db
          (perform crypto settings plain (login username password now) db)
  unfolding perform
  login-Kept username password now db unique =
      elim (Result-cases (opens crypto db username password)) [
        | inl (e, closed) ↦
            Kept-choice crypto settings (login username password now) db 0 (λ u. u) (err e) (err e)
              (perform crypto settings plain (login username password now) db) false unique
              (record { id = λ u. refl; username = λ u. refl; hashed_password = λ u. refl })
              (ground (arith, login_plain username password now db)) (λ held. absurd (ground arith))
              (λ free. (ground arith, λ k t. ground arith))
        | inr (id, opened) ↦
            let new = (create_tokens crypto settings id now).refresh_token in
            Kept-choice crypto settings (login username password now) db id (token_pushed new)
              (ok (some (create_tokens crypto settings id now))) (err invalid_credentials)
              (perform crypto settings plain (login username password now) db) true unique
              (record { id = λ u. refl; username = λ u. refl; hashed_password = λ u. refl })
              (ground (arith, login_plain username password now db))
              (λ held. (
                ground arith,
                λ k t. elim (Option-cases (account id db)) [
                  | inl absent ↦
                      absurd (ground (arith, opened-account username password id db opened))
                  | inr (u, found) ↦ ground (arith, has_text-append t u.refresh_tokens (new ∷ []))
                ],
              ))
              (λ free. absurd (ground arith))
      ]

  call-Kept :
      (call : SessionCall) (db : Database)
      → IdsUnique db
      → Kept crypto settings call db (perform crypto settings plain call db)
  call-Kept (login username password now) db unique = login-Kept username password now db unique
  call-Kept (rotate user_id old now) db unique =
      rotate-Kept crypto settings user_id old now db unique
  call-Kept (leave user_id token) db unique = leave-Kept crypto settings user_id token db unique
  call-Kept (leave_all user_id token) db unique =
      leave_all-Kept crypto settings user_id token db unique

  serve-plain :
      (calls : List SessionCall) (db : Database) (who : String → String → Result ℕ) (good : Ledger)
      → IdsUnique db
      → opens crypto db ≡ who
      → ledger db ≡ good
      → ((serve crypto settings plain calls db).0 ≡ (specified crypto settings who calls good).0)
        × (ledger (serve crypto settings plain calls db).1
            ≡ (specified crypto settings who calls good).1)
  unfolding serve
  serve-plain [] db who good unique opened kept = (refl, kept)
  serve-plain (call ∷ calls) db who good unique opened kept =
      let (answered, goods, unique', same) = call-Kept call db unique in
      let (rest, end) =
        serve-plain calls (perform crypto settings plain call db).1 who
          (after crypto settings who call good) unique'
          (fun_ext (λ u. fun_ext (λ p. same u p)) ∙ opened)
          (fun_ext (λ k. fun_ext (λ t. goods k t))
            ∙ (λ i. after crypto settings (opened i) call (kept i))) in
      (λ i. (answered ∙ (λ j. answer crypto settings (opened j) call (kept j))) i ∷ rest i, end)

-- With unique ids, any sequence of logins, rotations, log-outs and log-outs of all sessions answers as
-- the ledger says, and leaves the ledger that it says: a login with a name and a password that open an
-- account, and a rotation of a good token, issue a token, which is good from then on; the rotated
-- token, the token logged out, and with a good one all tokens of its account, are good no longer
-- unless the text is issued anew. Every other request for tokens is refused with InvalidCredentialsError,
-- but a login for which bcrypt raises ValueError with this.
pub serve-specified :
    (m : Mongo) (laws : IsMongo m) (crypto : Crypto) (settings : TokenSettings)
    (calls : List SessionCall) (db : Database)
    → IdsUnique db
    → ((serve crypto settings m calls db).0
        ≡ (specified crypto settings (opens crypto db) calls (ledger db)).0)
      × (ledger (serve crypto settings m calls db).1
          ≡ (specified crypto settings (opens crypto db) calls (ledger db)).1)
serve-specified m laws crypto settings calls db unique =
    rw (eq_plain m laws)
      (serve-plain crypto settings calls db (opens crypto db) (ledger db) unique refl refl)
