-- ===== src/Repositories/Users.antt =====
-- The queries of src/canterlot/repositories/beanie/user.py that the modelled services call.
pub mod Sessions
pub mod Accounts
pub mod Profiles
pub mod Providers
use Prim.Native.String.{String}
use text.Mathlib.Text.{◌==◌ as str_eq}
use canterlot_api.Base.{
  ℕ, Bool, Option, none, some, List, [], map, ◌==◌, is_some, is_empty, elem, if◌then◌else◌,
}
use canterlot_api.Mongo.{Mongo}
use canterlot_api.Models.{User}
use canterlot_api.Effects.{Action, gets}

abbrev id_and_username : User → ℕ × String
id_and_username u = (u.id, u.username)

module _ (m : Mongo) where
  -- An empty name counts as no name.
  unfoldable pub find_username_by_id : ℕ → Action (Option String)
  find_username_by_id user_id = gets (λ db. elim (m.find_one (λ u. u.id == user_id) db.users) [
    | none ↦ none
    | some u ↦ if str_eq u.username "" then none else some u.username
  ])

  unfoldable pub get_usernames_by_ids : List ℕ → Action (List (ℕ × String))
  get_usernames_by_ids user_ids = gets (λ db.
      if is_empty user_ids
      then []
      else map id_and_username (m.find (λ u. elem u.id user_ids) db.users))

  unfoldable pub find_id_by_username : String → Action (Option ℕ)
  find_id_by_username username = gets (λ db.
      elim (m.find_one (λ u. str_eq u.username username) db.users) [
        | none ↦ none
        | some u ↦ some u.id
      ])

  unfoldable pub exists_by_username : String → Action Bool
  exists_by_username username =
      gets (λ db. is_some (m.find_one (λ u. str_eq u.username username) db.users))

  unfoldable pub exists_by_email : String → Action Bool
  exists_by_email email = gets (λ db. is_some (m.find_one (λ u. str_eq u.email email) db.users))
