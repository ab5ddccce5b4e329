-- ===== src/Repositories/Users/Sessions.antt =====
-- src/canterlot/repositories/beanie/user.py: refresh tokens and passwords.
use Prim.Native.String.{String}
use canterlot_api.Base.{ℕ, Bool, Option, none, some, List, [], ◌∷◌, ◌++◌, ◌&&◌, ltb, ◌==◌}
use canterlot_api.Base.Texts.{has_text, without_text}
use canterlot_api.Mongo.{Mongo}
use canterlot_api.Models.{User, Database}
use canterlot_api.Effects.{Action, ◌>>=◌, ◌>>◌, pure, gets, modify}

abbrev pub has_user_id : ℕ → User → Bool
has_user_id user_id u = u.id == user_id

abbrev pub holds_token : ℕ → String → User → Bool
holds_token user_id token u = u.id == user_id && has_text token u.refresh_tokens

abbrev pub users_set : List User → Database → Database
users_set us db = record db { users = us }

-- `Push`, `Pull` and `Set` of the tokens
abbrev pub token_pushed : String → User → User
token_pushed token u = record u { refresh_tokens = u.refresh_tokens ++ token ∷ [] }

abbrev pub token_pulled : String → User → User
token_pulled token u = record u { refresh_tokens = without_text token u.refresh_tokens }

abbrev pub tokens_set : List String → User → User
tokens_set tokens u = record u { refresh_tokens = tokens }

-- what `change_password` sets
abbrev pub password_changed : String → String → Option ℕ → User → User
password_changed hashed token mark u = record u {
  hashed_password = some hashed;
  refresh_tokens = token ∷ [];
  email_preferences = record u.email_preferences {
    verified_at = elim mark [ none ↦ u.email_preferences.verified_at | some at ↦ some at ];
  };
}

module _ (m : Mongo) where
  -- `find_one(…).update_one(…)`, returning `matched_count > 0`
  unfoldable pub update_user : (User → Bool) → (User → User) → Action Bool
  update_user test f = do
    (us, matched) ← gets (λ db. m.update_one test f db.users)
    modify (users_set us)
    pure (ltb 0 matched)

  unfoldable pub push_refresh_token_by_id : ℕ → String → Action Unit
  unfolding update_user
  push_refresh_token_by_id user_id token = do
    update_user (has_user_id user_id) (token_pushed token)
    pure tt

  unfoldable pub pull_refresh_token_by_id : ℕ → String → Action Bool
  unfolding update_user
  pull_refresh_token_by_id user_id token =
      update_user (holds_token user_id token) (token_pulled token)

  unfoldable pub clear_all_refresh_tokens : ℕ → String → Action Bool
  unfolding update_user
  clear_all_refresh_tokens user_id token = update_user (holds_token user_id token) (tokens_set [])

  unfoldable pub change_password : ℕ → String → String → Option ℕ → Action Unit
  unfolding update_user
  change_password user_id hashed_password new_refresh_token mark_verified_at = do
    update_user (has_user_id user_id)
        (password_changed hashed_password new_refresh_token mark_verified_at)
    pure tt
