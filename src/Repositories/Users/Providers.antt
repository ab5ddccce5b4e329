-- ===== src/Repositories/Users/Providers.antt =====
-- src/canterlot/repositories/beanie/user.py: the ways to sign in that are linked to an account, and the
-- avatar.
use Prim.Native.String.{String}
use text.Mathlib.Text.{◌==◌ as str_eq}
use canterlot_api.Base.{
  ℕ, Bool, true, false, Option, none, some, List, [], ◌∷◌, ◌++◌, map, ◌&&◌, ◌||◌, ◌==◌, any,
  if◌then◌else◌,
}
use canterlot_api.Mongo.{Mongo}
use canterlot_api.Types.{AuthProviderName, ◌is◌, provider_enum}
use canterlot_api.Models.{User, LinkedProvider, Avatar}
use canterlot_api.Effects.{duplicate_key, Action, ◌>>=◌, ◌>>◌, pure, gets, modify, some_or_raise}
use canterlot_api.Repositories.Users.Sessions.{has_user_id, users_set, update_user}

abbrev pub is_link_of : AuthProviderName → LinkedProvider → Bool
is_link_of provider l = l.provider is provider

-- The query names two fields of the array, which need not be those of one entry.
abbrev pub is_linked : AuthProviderName → String → User → Bool
is_linked provider external_id u =
    any (is_link_of provider) u.linked_providers
    && any (λ l. str_eq l.external_id external_id) u.linked_providers

-- the unique index on the two fields of an entry
abbrev pub same_link : LinkedProvider → LinkedProvider → Bool
same_link l k = k.provider is l.provider && str_eq k.external_id l.external_id

abbrev pub shares_link : User → User → Bool
shares_link u v = any (λ k. any (λ l. same_link l k) u.linked_providers) v.linked_providers

-- all unique indexes of the collection
abbrev pub same_user : User → User → Bool
same_user u v =
    (v.id == u.id || str_eq v.username u.username) || (str_eq v.email u.email || shares_link u v)

-- `Pull` of the entries of a provider
abbrev pub unlinked : AuthProviderName → List LinkedProvider → List LinkedProvider
unlinked provider [] = []
unlinked provider (l ∷ ls) =
    if is_link_of provider l then unlinked provider ls else l ∷ unlinked provider ls

abbrev pub link_added : LinkedProvider → User → User
link_added entry u = record u { linked_providers = u.linked_providers ++ entry ∷ [] }

abbrev pub link_removed : AuthProviderName → User → User
link_removed provider u = record u { linked_providers = unlinked provider u.linked_providers }

abbrev picture_set : AuthProviderName → String → LinkedProvider → LinkedProvider
picture_set provider picture l =
    if is_link_of provider l then record l { picture_url = some picture } else l

abbrev pub avatar_set : Option Avatar → User → User
avatar_set avatar u = record u { avatar = avatar }

module _ (m : Mongo) where
  unfoldable pub find_by_linked_provider : AuthProviderName → String → Action (Option User)
  find_by_linked_provider provider external_id =
      gets (λ db. m.find_one (is_linked provider external_id) db.users)

  unfoldable pub find_id_by_linked_provider : AuthProviderName → String → Action (Option ℕ)
  find_id_by_linked_provider provider external_id = gets (λ db.
      elim (m.find_one (is_linked provider external_id) db.users) [
        | none ↦ none
        | some u ↦ some u.id
      ])

  unfoldable pub save : User → Action User
  save user = do
    written ← gets (λ db. m.upsert same_user (has_user_id user.id) (λ _. user) user db.users)
    us ← some_or_raise written duplicate_key
    modify (users_set us)
    pure user

  -- `none` where the driver raised DuplicateKeyError
  unfoldable pub save_new_oauth_account : User → Action (Option User)
  save_new_oauth_account user = do
    written ← gets (λ db. m.upsert same_user (has_user_id user.id) (λ _. user) user db.users)
    elim written [ none ↦ pure none | some us ↦ modify (users_set us) >> pure (some user) ]

  unfoldable pub add_linked_provider : ℕ → LinkedProvider → Action Bool
  add_linked_provider user_id entry = do
    written ←
        gets (λ db. m.update_unique shares_link (has_user_id user_id) (link_added entry) db.users)
    elim written [ none ↦ pure false | some (us, matched) ↦ modify (users_set us) >> pure true ]

  unfoldable pub remove_linked_provider : ℕ → AuthProviderName → Action Unit
  unfolding update_user
  remove_linked_provider user_id provider = do
    update_user m (has_user_id user_id) (link_removed provider)
    pure tt

  unfoldable pub update_linked_provider_picture : ℕ → AuthProviderName → String → Action Unit
  unfolding update_user
  update_linked_provider_picture user_id provider picture_url = do
    update_user m (has_user_id user_id) (λ u. record u {
      linked_providers = map (picture_set provider picture_url) u.linked_providers;
    })
    pure tt

  unfoldable pub find_avatar_by_id : ℕ → Action (Option Avatar)
  find_avatar_by_id user_id =
      gets
        (λ db. elim (m.find_one (has_user_id user_id) db.users) [ none ↦ none | some u ↦ u.avatar ])

  unfoldable pub set_avatar : ℕ → Avatar → Action Bool
  unfolding update_user
  set_avatar user_id avatar = update_user m (has_user_id user_id) (avatar_set (some avatar))

  unfoldable pub clear_avatar : ℕ → Action Bool
  unfolding update_user
  clear_avatar user_id = update_user m (has_user_id user_id) (avatar_set none)
