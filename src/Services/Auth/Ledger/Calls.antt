-- ===== src/Services/Auth/Ledger/Calls.antt =====
-- What a rotation and a log-out of src/canterlot/services/auth.py do to the ledger of good tokens.
use Prim.Native.String.{String}
use text.Mathlib.Text.{◌==◌ as str_eq}
use canterlot_api.Base.{
  ℕ, ◌==◌, ◌≡◌, refl, subst, sym, ◌∙◌, Bool, true, false, Option, none, some, List, [], ◌∷◌, arith,
  is_some, if◌then◌else◌, Option-cases, inl, inr,
}
use canterlot_api.Base.Texts.{without_text, has_text, has_text-without, has_text-append, apart-test}
use canterlot_api.Mongo.{plain, first, update_first}
use canterlot_api.Models.{User, Database}
use canterlot_api.Effects.{Result, ok, err, invalid_credentials}
use canterlot_api.Repositories.Users.Sessions.{has_user_id, token_pushed, token_pulled, tokens_set}
use canterlot_api.Repositories.Users.Accounts.{
  IdsUnique, account, changed, changed-Changed, changed-IdsUnique,
}
use canterlot_api.Services.Auth.Sessions.{TokenPair, create_tokens}
use canterlot_api.Services.Auth.Rotation.{rotate_lem, logout_lem, logout_all_lem}
use canterlot_api.Services.Auth.Ledger.{
  SessionCall, rotate, leave, leave_all, ledger, opens, perform, answer, after,
}
use canterlot_api.Utils.Security.{Crypto, TokenSettings}

pub ledger-changed :
    (user_id : ℕ) (f : User → User) (db : Database)
    → ((u : User) → (f u).id ≡ u.id)
    → (k : ℕ) (t : String)
    → ledger (changed user_id f db) k t ≡ (
        if k == user_id
        then elim (account user_id db) [ none ↦ false | some u ↦ has_text t (f u).refresh_tokens ]
        else ledger db k t)
ledger-changed user_id f db same k t = ground (arith, (changed-Changed user_id f same db).0 k)

module _ (crypto : Crypto) where
  opens-changed :
      (user_id : ℕ) (f : User → User) (username password : String)
      → ((u : User) → (f u).id ≡ u.id)
      → ((u : User) → (f u).username ≡ u.username)
      → ((u : User) → (f u).hashed_password ≡ u.hashed_password)
      → (db : Database) (us : List User)
      → opens crypto
          (record db { users = update_first (has_user_id user_id) f us })
          username
          password
        ≡ opens crypto (record db { users = us }) username password
  opens-changed user_id f username password a b c db [] = refl
  opens-changed user_id f username password a b c db (u ∷ us) =
      ground (arith, opens-changed user_id f username password a b c db us, a u, b u, c u)

-- Who a name finds has an account.
pub finds-account :
    (username : String) (us : List User) (u : User)
    → first (λ v. str_eq v.username username) us ≡ some u
    → is_some (first (has_user_id u.id) us) ≡ true
finds-account username [] u h = cc
finds-account username (v ∷ us) u h = ground (arith, finds-account username us u)

-- A change of the tokens alone.
pub record IsTokenChange (f : User → User) : Type 0 where
  pub id : (u : User) → (f u).id ≡ u.id
  pub username : (u : User) → (f u).username ≡ u.username
  pub hashed_password : (u : User) → (f u).hashed_password ≡ u.hashed_password

module _ (crypto : Crypto) (settings : TokenSettings) where
  -- What one call does, by the ledger.
  abbrev pub Kept : SessionCall → Database → Result (Option TokenPair) × Database → Type 0
  Kept call db r =
      (r.0 ≡ answer crypto settings (opens crypto db) call (ledger db))
      × ((k : ℕ) (t : String)
          → ledger r.1 k t ≡ after crypto settings (opens crypto db) call (ledger db) k t)
      × IdsUnique r.1
      × ((username password : String)
          → opens crypto r.1 username password ≡ opens crypto db username password)

  Kept-by_change :
      (call : SessionCall) (db : Database) (user_id : ℕ) (f : User → User)
      (result : Result (Option TokenPair))
      → IdsUnique db
      → IsTokenChange f
      → result ≡ answer crypto settings (opens crypto db) call (ledger db)
      → ((k : ℕ) (t : String)
          → (if k == user_id
              then elim (account user_id db) [
                | none ↦ false
                | some u ↦ has_text t (f u).refresh_tokens
              ]
              else ledger db k t)
            ≡ after crypto settings (opens crypto db) call (ledger db) k t)
      → Kept call db (result, changed user_id f db)
  Kept-by_change call db user_id f result unique change answered kept = (
    answered,
    λ k t. ledger-changed user_id f db change.id k t ∙ kept k t,
    changed-IdsUnique user_id f change.id db unique,
    λ username password.
        opens-changed crypto user_id f username password change.id change.username
          change.hashed_password db db.users,
  )

  -- A call that changes the tokens where `held`, and nothing elsewhere.
  pub Kept-choice :
      (call : SessionCall) (db : Database) (user_id : ℕ) (f : User → User)
      (good bad : Result (Option TokenPair)) (run : Result (Option TokenPair) × Database)
      (held : Bool)
      → IdsUnique db
      → IsTokenChange f
      → run ≡ (if held then (good, changed user_id f db) else (bad, db))
      → (held ≡ true
          → (good ≡ answer crypto settings (opens crypto db) call (ledger db))
            × ((k : ℕ) (t : String)
                → (if k == user_id
                    then elim (account user_id db) [
                      | none ↦ false
                      | some u ↦ has_text t (f u).refresh_tokens
                    ]
                    else ledger db k t)
                  ≡ after crypto settings (opens crypto db) call (ledger db) k t))
      → (held ≡ false
          → (bad ≡ answer crypto settings (opens crypto db) call (ledger db))
            × ((k : ℕ) (t : String)
                → ledger db k t ≡ after crypto settings (opens crypto db) call (ledger db) k t))
      → Kept call db run
  Kept-choice call db user_id f good bad run true unique change e on off =
      let (answered, kept) = on refl in
      subst (Kept call db) (sym e)
        (Kept-by_change call db user_id f good unique change answered kept)
  Kept-choice call db user_id f good bad run false unique change e on off =
      let (answered, kept) = off refl in
      subst (Kept call db) (sym e) (answered, kept, unique, λ username password. refl)

  pub rotate-Kept :
      (user_id : ℕ) (old : String) (now : ℕ) (db : Database)
      → IdsUnique db
      → Kept (rotate user_id old now) db (perform crypto settings plain (rotate user_id old now) db)
  unfolding perform
  rotate-Kept user_id old now db unique =
      let new = (create_tokens crypto settings user_id now).refresh_token in
      Kept-choice (rotate user_id old now) db user_id (λ u. token_pushed new (token_pulled old u))
        (ok (some (create_tokens crypto settings user_id now))) (err invalid_credentials)
        (perform crypto settings plain (rotate user_id old now) db) (ledger db user_id old) unique
        (record { id = λ u. refl; username = λ u. refl; hashed_password = λ u. refl })
        (ground (arith, rotate_lem crypto settings user_id old now db unique))
        (λ held. (
          ground arith,
          λ k t. elim (Option-cases (account user_id db)) [
            | inl absent ↦ ground arith
            | inr (u, found) ↦ ground (
              arith,
              has_text-append t (without_text old u.refresh_tokens) (new ∷ []),
              has_text-without old t u.refresh_tokens,
            )
          ],
        ))
        (λ free. (ground arith, λ k t. ground (arith, apart-test (ledger db user_id) old t free)))

  pub leave-Kept :
      (user_id : ℕ) (old : String) (db : Database)
      → IdsUnique db
      → Kept (leave user_id old) db (perform crypto settings plain (leave user_id old) db)
  unfolding perform
  leave-Kept user_id old db unique =
      Kept-choice (leave user_id old) db user_id (token_pulled old) (ok none) (ok none)
        (perform crypto settings plain (leave user_id old) db) (ledger db user_id old) unique
        (record { id = λ u. refl; username = λ u. refl; hashed_password = λ u. refl })
        (ground (arith, logout_lem user_id old db unique))
        (λ held. (
          ground arith,
          λ k t. elim (Option-cases (account user_id db)) [
            | inl absent ↦ ground arith
            | inr (u, found) ↦ ground (arith, has_text-without old t u.refresh_tokens)
          ],
        ))
        (λ free. (ground arith, λ k t. ground (arith, apart-test (ledger db user_id) old t free)))

  pub leave_all-Kept :
      (user_id : ℕ) (old : String) (db : Database)
      → IdsUnique db
      → Kept (leave_all user_id old) db (perform crypto settings plain (leave_all user_id old) db)
  unfolding perform
  leave_all-Kept user_id old db unique =
      Kept-choice (leave_all user_id old) db user_id (tokens_set []) (ok none)
        (err invalid_credentials) (perform crypto settings plain (leave_all user_id old) db)
        (ledger db user_id old) unique
        (record { id = λ u. refl; username = λ u. refl; hashed_password = λ u. refl })
        (ground (arith, logout_all_lem user_id old db unique))
        (λ held. (ground arith, λ k t. ground arith)) (λ free. (ground arith, λ k t. ground arith))
