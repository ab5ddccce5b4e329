-- ===== src/Repositories/Users/Accounts.antt =====
-- The accounts as a table from ids, which is how the writes of
-- src/canterlot/repositories/beanie/user.py are specified.
use Prim.Native.String.{String}
use mathlib.Core.Option
use canterlot_api.Base.{
  ℕ, ◌≤◌, ◌≡◌, refl, Bool, Option, none, some, List, [], ◌∷◌, arith, any, ◌==◌, if◌then◌else◌,
  Option-cases, inl, inr,
}
use canterlot_api.Base.Texts.{has_text}
use canterlot_api.Mongo.{plain, first, update_first}
use canterlot_api.Mongo.Count.{
  count, any-first, first-narrow, update_first-narrow, count-update_first, update_first-none,
}
use canterlot_api.Models.{User, Database}
use canterlot_api.Effects.{ok}
use canterlot_api.Repositories.Users.Sessions.{has_user_id, holds_token, users_set, update_user}

abbrev pub account : ℕ → Database → Option User
account user_id db = first (has_user_id user_id) db.users

abbrev pub tokens_of : ℕ → Database → List String
tokens_of user_id db = elim (account user_id db) [ none ↦ [] | some u ↦ u.refresh_tokens ]

abbrev pub IdsUnique : Database → Type 0
IdsUnique db = (k : ℕ) → count (has_user_id k) db.users ≤ 1

abbrev pub changed : ℕ → (User → User) → Database → Database
changed user_id f db = users_set (update_first (has_user_id user_id) f db.users) db

-- The account of the id is changed by `f`, and nothing else is.
abbrev pub Changed : ℕ → (User → User) → Database → Database → Type 0
Changed user_id f db db' =
    ((k : ℕ) → account k db' ≡ (if k == user_id then Option.map f (account k db) else account k db))
    × (db' ≡ users_set db'.users db)

module _ (user_id : ℕ) (f : User → User) (same : (u : User) → (f u).id ≡ u.id) where
  account-changed :
      (k : ℕ) (us : List User)
      → first (has_user_id k) (update_first (has_user_id user_id) f us) ≡ (
          if k == user_id
          then Option.map f (first (has_user_id k) us)
          else first (has_user_id k) us)
  account-changed k [] = ground arith
  account-changed k (u ∷ us) = ground (arith, account-changed k us, same u)

  pub changed-Changed : (db : Database) → Changed user_id f db (changed user_id f db)
  changed-Changed db = (λ k. account-changed k db.users, refl)

  pub changed-IdsUnique : (db : Database) → IdsUnique db → IdsUnique (changed user_id f db)
  changed-IdsUnique db unique k = elim (Option-cases (account user_id db)) [
    | inl absent ↦
        ground (arith, update_first-none (has_user_id user_id) f db.users absent, unique k)
    | inr (u, found) ↦ ground (
      arith,
      count-update_first (has_user_id user_id) f (has_user_id k) db.users u found,
      unique k,
      same u,
    )
  ]

-- Two changes of one account in turn.
pub changed-changed :
    (user_id : ℕ) (f g : User → User) (db : Database)
    → ((u : User) → (f u).id ≡ u.id)
    → changed user_id g (changed user_id f db) ≡ changed user_id (λ u. g (f u)) db
changed-changed user_id f g db same = rw (twice db.users) refl
  where
    twice :
        (us : List User)
        → update_first (has_user_id user_id) g (update_first (has_user_id user_id) f us)
          ≡ update_first (has_user_id user_id) (λ u. g (f u)) us
    twice [] = refl
    twice (u ∷ us) = ground (arith, twice us, same u)

pub update_user_lem :
    (test : User → Bool) (f : User → User) (db : Database)
    → update_user plain test f db
      ≡ (ok (any test db.users), users_set (update_first test f db.users) db)
unfolding update_user
update_user_lem test f db = ground arith

-- An update that asks for a token finds the account of the id if it holds the token.
pub update_holder_lem :
    (user_id : ℕ) (token : String) (f : User → User) (db : Database)
    → IdsUnique db
    → update_user plain (holds_token user_id token) f db ≡ (
      ok (has_text token (tokens_of user_id db)),
      if has_text token (tokens_of user_id db) then changed user_id f db else db,
    )
unfolding update_user
update_holder_lem user_id token f db unique = elim (Option-cases (account user_id db)) [
  | inl absent ↦ ground (
    arith,
    any-first (holds_token user_id token) db.users,
    first-narrow (has_user_id user_id) (λ u. has_text token u.refresh_tokens) db.users
        (unique user_id),
    update_first-none (holds_token user_id token) f db.users,
  )
  | inr (u, found) ↦ ground (
    arith,
    any-first (holds_token user_id token) db.users,
    first-narrow (has_user_id user_id) (λ u. has_text token u.refresh_tokens) db.users
        (unique user_id),
    update_first-none (holds_token user_id token) f db.users,
    update_first-narrow (has_user_id user_id) (λ u. has_text token u.refresh_tokens) f db.users u
        (unique user_id) found,
  )
]
