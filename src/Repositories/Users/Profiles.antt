-- ===== src/Repositories/Users/Profiles.antt =====
-- src/canterlot/repositories/beanie/user.py: looking accounts up, profiles and email preferences.
use Prim.Native.String.{String}
use text.Mathlib.Text.{◌==◌ as str_eq}
use canterlot_api.Base.{
  ℕ, ◌+◌, ◌-◌, Bool, true, Option, none, some, List, [], ◌∷◌, ◌&&◌, ◌||◌, ltb, ◌==◌, is_some,
  is_empty, elem, if◌then◌else◌,
}
use canterlot_api.Mongo.{Mongo}
use canterlot_api.Types.{EmailCategory, ◌is◌, category_enum}
use canterlot_api.Models.{User, EmailPreferences}
use canterlot_api.Effects.{duplicate_key, Action, ◌>>=◌, ◌>>◌, pure, gets, modify, some_or_raise}
use canterlot_api.Repositories.Users.Sessions.{has_user_id, users_set, update_user}

-- `timedelta(days=1)` in microseconds
abbrev day : ℕ
day = 86400000000

-- Setting a key of a dictionary.
abbrev pub category_put : EmailCategory → ℕ → List (EmailCategory × ℕ) → List (EmailCategory × ℕ)
category_put category at [] = (category, at) ∷ []
category_put category at ((c, t) ∷ rest) =
    if c is category then (c, at) ∷ rest else (c, t) ∷ category_put category at rest

abbrev pub club_put : ℕ → ℕ → List (ℕ × ℕ) → List (ℕ × ℕ)
club_put club_id at [] = (club_id, at) ∷ []
club_put club_id at ((c, t) ∷ rest) =
    if c == club_id then (c, at) ∷ rest else (c, t) ∷ club_put club_id at rest

abbrev pub preferences_set : (EmailPreferences → EmailPreferences) → User → User
preferences_set f u = record u { email_preferences = f u.email_preferences }

-- the unique index on `username`
abbrev pub same_username : User → User → Bool
same_username u v = str_eq v.username u.username

abbrev pub profile_updated : Option String → Option String → User → User
profile_updated name username u = record u {
  name = elim name [ none ↦ u.name | some n ↦ n ];
  username = elim username [ none ↦ u.username | some n ↦ n ];
}

abbrev pub legal_accepted : ℕ → ℕ → ℕ → ℕ → ℕ → User → User
legal_accepted terms_version terms_at privacy_version privacy_at profile_completed_at u = record u {
  accepted_terms_version = some terms_version;
  accepted_terms_at = some terms_at;
  accepted_privacy_version = some privacy_version;
  accepted_privacy_at = some privacy_at;
  profile_completed_at = some profile_completed_at;
}

-- `$or` of no time and a time before
abbrev is_stale : ℕ → Option ℕ → Bool
is_stale stale_before none = true
is_stale stale_before (some at) = ltb at stale_before

module _ (m : Mongo) where
  unfoldable pub find_by_id : ℕ → Action (Option User)
  find_by_id user_id = gets (λ db. m.find_one (has_user_id user_id) db.users)

  unfoldable pub get_by_ids : List ℕ → Action (List User)
  get_by_ids ids = gets (λ db. if is_empty ids then [] else m.find (λ u. elem u.id ids) db.users)

  unfoldable pub find_by_username : String → Action (Option User)
  find_by_username username = gets (λ db. m.find_one (λ u. str_eq u.username username) db.users)

  unfoldable pub find_by_email : String → Action (Option User)
  find_by_email email = gets (λ db. m.find_one (λ u. str_eq u.email email) db.users)

  unfoldable pub find_email_preferences_by_email : String → Action (Option EmailPreferences)
  find_email_preferences_by_email email = gets (λ db.
      elim (m.find_one (λ u. str_eq u.email email) db.users) [
        | none ↦ none
        | some u ↦ some u.email_preferences
      ])

  unfoldable pub is_email_verified_by_id : ℕ → Action Bool
  is_email_verified_by_id user_id = gets (λ db.
      is_some
        (m.find_one (λ u. u.id == user_id && is_some u.email_preferences.verified_at) db.users))

  unfoldable pub find_by_identifier : String → Action (Option User)
  find_by_identifier identifier =
      gets
        (λ db. m.find_one (λ u. str_eq u.email identifier || str_eq u.username identifier) db.users)

  unfoldable pub find_id_by_identifier : String → Action (Option ℕ)
  find_id_by_identifier identifier = gets (λ db.
      elim (m.find_one (λ u. str_eq u.email identifier || str_eq u.username identifier) db.users) [
        | none ↦ none
        | some u ↦ some u.id
      ])

  unfoldable pub increment_referral_count_by_username : String → Action Unit
  unfolding update_user
  increment_referral_count_by_username username = do
    update_user m (λ u. str_eq u.username username)
        (λ u. record u { referral_count = u.referral_count + 1 })
    pure tt

  unfoldable pub set_generated_avatar_seed : ℕ → String → Action Bool
  unfolding update_user
  set_generated_avatar_seed user_id seed =
      update_user m (has_user_id user_id) (λ u. record u { generated_avatar_seed = seed })

  unfoldable pub update_profile : ℕ → Option String → Option String → Action Bool
  update_profile user_id name username = do
    written ← gets (λ db.
        m.update_unique same_username (has_user_id user_id) (profile_updated name username)
          db.users)
    (us, matched) ← some_or_raise written duplicate_key
    modify (users_set us)
    pure (ltb 0 matched)

  unfoldable pub set_legal_acceptance : ℕ → ℕ → ℕ → ℕ → ℕ → ℕ → Action Bool
  unfolding update_user
  set_legal_acceptance user_id terms_version terms_at privacy_version privacy_at completed_at =
      update_user m (has_user_id user_id)
        (legal_accepted terms_version terms_at privacy_version privacy_at completed_at)

  unfoldable pub touch_last_seen : ℕ → ℕ → Action Unit
  unfolding update_user
  touch_last_seen user_id now = do
    update_user m (λ u. u.id == user_id && is_stale (now - day) u.last_seen_at)
        (λ u. record u { last_seen_at = some now })
    pure tt

  unfoldable pub opt_out_club_by_id : ℕ → ℕ → ℕ → Action Bool
  unfolding update_user
  opt_out_club_by_id user_id club_id timestamp = update_user m (has_user_id user_id) (
      preferences_set
        (λ p. record p { clubs_opt_out = club_put club_id timestamp p.clubs_opt_out }))

  unfoldable pub opt_out_category_by_id : ℕ → EmailCategory → ℕ → Action Bool
  unfolding update_user
  opt_out_category_by_id user_id category timestamp = update_user m (has_user_id user_id) (
      preferences_set (λ p. record p {
        categories_opt_out = category_put category timestamp p.categories_opt_out;
      }))

  unfoldable pub mark_email_as_verified : ℕ → ℕ → Action Unit
  unfolding update_user
  mark_email_as_verified user_id verified_at = do
    update_user m (has_user_id user_id)
        (preferences_set (λ p. record p { verified_at = some verified_at }))
    pure tt
