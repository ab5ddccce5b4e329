-- ===== src/Services/User/Preferences.antt =====
-- src/canterlot/services/user.py: email preferences, which are read through a cache. An entry of the cache
-- is the preferences that its payload parses to, or `none` inside for a payload that does not parse.
-- Entries may leave the cache at any time; they are put in by the service alone.
pub mod Fresh
use Prim.Native.String.{String}
use text.Mathlib.Text.{◌==◌ as str_eq}
use canterlot_api.Base.{ℕ, Bool, Option, none, some, if◌then◌else◌}
use canterlot_api.Mongo.{Mongo}
use canterlot_api.Types.{EmailCategory}
use canterlot_api.Models.{User, EmailPreferences, Database, no_preferences}
use canterlot_api.Effects
use canterlot_api.Effects.{Result, ok, err, Action, ◌>>=◌, ◌>>◌, pure, some_or_raise}
use canterlot_api.Repositories.Users.Profiles

abbrev pub PreferencesCache : Type 0
PreferencesCache = String → Option (Option EmailPreferences)

abbrev pub save : String → EmailPreferences → PreferencesCache → PreferencesCache
save email p cache e = if str_eq e email then some (some p) else cache e

abbrev pub invalidate : String → PreferencesCache → PreferencesCache
invalidate email cache e = if str_eq e email then none else cache e

-- `UnsubscribeTokenData` of src/canterlot/utils/security.py: a scope with its club or category, which
-- the decoded token has.
pub data UnsubscribeScope : Type 0 where
  of_club : (club_id : ℕ) → UnsubscribeScope
  of_category : (category : EmailCategory) → UnsubscribeScope

module _ (m : Mongo) where
  abbrev opt_out : ℕ → UnsubscribeScope → ℕ → Action Bool
  opt_out user_id (UnsubscribeScope.of_club club_id) now =
      Profiles.opt_out_club_by_id m user_id club_id now
  opt_out user_id (UnsubscribeScope.of_category category) now =
      Profiles.opt_out_category_by_id m user_id category now

  unsubscribed_email : ℕ → UnsubscribeScope → ℕ → Action String
  unsubscribed_email user_id scope now = do
    found ← Profiles.find_by_id m user_id
    user ← some_or_raise found Effects.user_not_found
    opt_out user_id scope now
    pure user.email

  unfoldable pub process_unsubscribe :
      ℕ
      → UnsubscribeScope
      → ℕ
      → Database × PreferencesCache
      → Result UnsubscribeScope × (Database × PreferencesCache)
  unfolding unsubscribed_email
  process_unsubscribe user_id scope now (db, cache) =
      let (r, db') = unsubscribed_email user_id scope now db in
      elim r [
        | ok email ↦ (ok scope, (db', invalidate email cache))
        | err e ↦ (err e, (db', cache))
      ]

  fetch :
      String → Database × PreferencesCache → Result EmailPreferences × (Database × PreferencesCache)
  fetch email (db, cache) =
      let (r, db') = Profiles.find_email_preferences_by_email m email db in
      elim r [
        | ok none ↦ (ok no_preferences, (db', cache))
        | ok (some p) ↦ (ok p, (db', save email p cache))
        | err e ↦ (err e, (db', cache))
      ]

  unfoldable pub get_email_preferences :
      String → Database × PreferencesCache → Result EmailPreferences × (Database × PreferencesCache)
  unfolding fetch
  get_email_preferences email (db, cache) = elim (cache email) [
    | none ↦ fetch email (db, cache)
    | some none ↦ fetch email (db, cache)
    | some (some p) ↦ (ok p, (db, cache))
  ]
