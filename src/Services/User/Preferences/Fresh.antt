-- ===== src/Services/User/Preferences/Fresh.antt =====
-- What the cache of src/canterlot/services/user.py says after a write of the preferences.
use text.Mathlib.Text.{◌==◌ as str_eq}
use text.Mathlib.TextPositions.{eq_refl}
use mathlib.Core.Option
use canterlot_api.Base.{
  Option-cases, inl, inr, ℕ, ◌==◌, ◌≡◌, refl, Bool, true, false, ◌&&◌, none, some, List, [], ◌∷◌,
  arith, is_id,
}
use canterlot_api.Mongo.{Mongo, IsMongo, plain, eq_plain, first, update_first}
use canterlot_api.Types.{EmailCategory, ◌is◌, category_enum}
use canterlot_api.Models.{User, EmailPreferences, Database}
use canterlot_api.Effects.{ok}
use canterlot_api.Emails.Policy.{EmailTask, is_delivery_allowed, has_category, has_club}
use canterlot_api.Repositories.Users.Sessions as Tokens
use canterlot_api.Repositories.Users.Sessions.{has_user_id}
use canterlot_api.Repositories.Users.Profiles
use canterlot_api.Repositories.Users.Profiles.{category_put, club_put, preferences_set}
use canterlot_api.Repositories.Users.Accounts.{account, changed-Changed}
use canterlot_api.Services.User.{mark_email_as_verified}
use canterlot_api.Services.User.Preferences.{
  save, PreferencesCache, UnsubscribeScope, process_unsubscribe, get_email_preferences,
}

-- The emails that a link to unsubscribe is about.
abbrev pub covers : UnsubscribeScope → EmailTask → Bool
covers (UnsubscribeScope.of_club club_id) task =
    task.category is EmailCategory.engagement && is_id task.club_id club_id
covers (UnsubscribeScope.of_category category) task = task.category is category

has_category-put :
    (c d : EmailCategory) (at : ℕ) (entries : List (EmailCategory × ℕ))
    → (d is c) ≡ true
    → has_category d (category_put c at entries) ≡ true
has_category-put c d at [] same = ground arith
has_category-put c d at ((e, t) ∷ entries) same = ground (arith, has_category-put c d at entries)

has_club-put :
    (k c at : ℕ) (entries : List (ℕ × ℕ))
    → (k == c) ≡ true
    → has_club (some k) (club_put c at entries) ≡ true
has_club-put k c at [] same = ground arith
has_club-put k c at ((d, t) ∷ entries) same = ground (arith, has_club-put k c at entries)

-- What `process_unsubscribe` sets.
abbrev opted_out : UnsubscribeScope → ℕ → EmailPreferences → EmailPreferences
opted_out (UnsubscribeScope.of_club club_id) now p = record p {
  clubs_opt_out = club_put club_id now p.clubs_opt_out;
}
opted_out (UnsubscribeScope.of_category category) now p = record p {
  categories_opt_out = category_put category now p.categories_opt_out;
}

opted_out-refuses :
    (scope : UnsubscribeScope) (now : ℕ) (p : EmailPreferences) (task : EmailTask)
    → covers scope task ≡ true
    → is_delivery_allowed task (opted_out scope now p) ≡ false
opted_out-refuses (UnsubscribeScope.of_club club_id) now p task covered =
    elim (Option-cases task.club_id) [
      | inl nobody ↦ ground arith
      | inr (k, named) ↦ ground (arith, has_club-put k club_id now p.clubs_opt_out)
    ]
opted_out-refuses (UnsubscribeScope.of_category category) now p task covered =
    ground (arith, has_category-put category task.category now p.categories_opt_out covered)

first_email-changed :
    (f : User → User) (user : User) (us : List User)
    → ((u : User) → (f u).email ≡ u.email)
    → first (λ u. str_eq u.email user.email) us ≡ some user
    → first (has_user_id user.id) us ≡ some user
    → first (λ u. str_eq u.email user.email) (update_first (has_user_id user.id) f us)
      ≡ some (f user)
first_email-changed f user [] same named found = cc
first_email-changed f user (u ∷ us) same named found =
    ground (arith, first_email-changed f user us same, same u, eq_refl user.email)

module _ (user : User) (now : ℕ) (db : Database) (cache : PreferencesCache)
    (found : account user.id db ≡ some user)
    (mailed : first (λ u. str_eq u.email user.email) db.users ≡ some user) where
  after_opt_out :
      (scope : UnsubscribeScope)
      → ((process_unsubscribe plain user.id scope now (db, cache)).0 ≡ ok scope)
        × ((get_email_preferences plain user.email
              (process_unsubscribe plain user.id scope now (db, cache)).1).0
            ≡ ok (opted_out scope now user.email_preferences))
  unfolding process_unsubscribe get_email_preferences Profiles.find_by_id
      Profiles.opt_out_club_by_id Profiles.opt_out_category_by_id Tokens.update_user
      Profiles.find_email_preferences_by_email
  after_opt_out (UnsubscribeScope.of_club club_id) = (
    ground arith,
    ground (
      arith,
      eq_refl user.email,
      first_email-changed (preferences_set (opted_out (UnsubscribeScope.of_club club_id) now)) user
          db.users (λ u. refl) mailed found,
    ),
  )
  after_opt_out (UnsubscribeScope.of_category category) = (
    ground arith,
    ground (
      arith,
      eq_refl user.email,
      first_email-changed (preferences_set (opted_out (UnsubscribeScope.of_category category) now))
          user db.users (λ u. refl) mailed found,
    ),
  )

  -- The account once its email is verified.
  abbrev verified_db : Database
  verified_db = (mark_email_as_verified plain user.id now db).1

  fetched_lem :
      cache user.email ≡ none
      → get_email_preferences plain user.email (db, cache)
        ≡ (ok user.email_preferences, (db, save user.email user.email_preferences cache))
  unfolding get_email_preferences Profiles.find_email_preferences_by_email
  fetched_lem empty = ground arith

  kept_lem :
      (get_email_preferences plain user.email
        (verified_db, save user.email user.email_preferences cache)).0
      ≡ ok user.email_preferences
  unfolding get_email_preferences
  kept_lem = ground (arith, eq_refl user.email)

  marked_lem :
      Option.map (λ u. u.email_preferences.verified_at) (account user.id verified_db)
      ≡ some (some now)
  unfolding mark_email_as_verified Profiles.mark_email_as_verified Tokens.update_user
  marked_lem = ground (
    arith,
    (changed-Changed user.id (preferences_set (λ p. record p { verified_at = some now }))
          (λ u. refl) db).0
        user.id,
  )

unverified-refuses :
    (p : EmailPreferences) (task : EmailTask)
    → p.verified_at ≡ none
    → (task.category is EmailCategory.transactional) ≡ false
    → is_delivery_allowed task p ≡ false
unverified-refuses p task unverified other = ground arith

-- `user` is the document of an account, found by its id and by its email. Whatever the cache holds,
-- `process_unsubscribe` returns the scope of the link; the preferences that `get_email_preferences` then
-- returns for the address allow none of the emails that the link is about: with a link of a category,
-- those of the category, with one of a club, the engagement emails of the club.
pub process_unsubscribe_lem :
    (m : Mongo) (laws : IsMongo m) (user : User) (scope : UnsubscribeScope) (now : ℕ)
    (db : Database) (cache : PreferencesCache)
    → account user.id db ≡ some user
    → first (λ u. str_eq u.email user.email) db.users ≡ some user
    → (p : EmailPreferences) × ((process_unsubscribe m user.id scope now (db, cache)).0 ≡ ok scope)
      × ((get_email_preferences m user.email
            (process_unsubscribe m user.id scope now (db, cache)).1).0
          ≡ ok p)
      × ((task : EmailTask) → covers scope task ≡ true → is_delivery_allowed task p ≡ false)
process_unsubscribe_lem m laws user scope now db cache found mailed =
    let (answered, opted) = after_opt_out user now db cache found mailed scope in
    rw (eq_plain m laws) (
      opted_out scope now user.email_preferences,
      answered,
      opted,
      λ task. opted_out-refuses scope now user.email_preferences task,
    )

-- `user` is the document of an account whose email is not verified, found by its id and by its email,
-- and the cache has nothing for the address. Where the preferences are read once, with
-- `get_email_preferences`, and the email is then marked as verified, the account says that it is, but
-- reading them again returns what was read first, by which no email is allowed that is not
-- transactional.
pub mark_email_as_verified-unseen :
    (m : Mongo) (laws : IsMongo m) (user : User) (now : ℕ) (db : Database)
    (cache : PreferencesCache)
    → account user.id db ≡ some user
    → first (λ u. str_eq u.email user.email) db.users ≡ some user
    → user.email_preferences.verified_at ≡ none
    → cache user.email ≡ none
    → (cache' : PreferencesCache) × (get_email_preferences m user.email (db, cache)
        ≡ (ok user.email_preferences, (db, cache')))
      × (Option.map
            (λ u. u.email_preferences.verified_at)
            (account user.id (mark_email_as_verified m user.id now db).1)
          ≡ some (some now))
      × ((get_email_preferences m user.email
            ((mark_email_as_verified m user.id now db).1, cache')).0
          ≡ ok user.email_preferences)
      × ((task : EmailTask)
          → (task.category is EmailCategory.transactional) ≡ false
          → is_delivery_allowed task user.email_preferences ≡ false)
mark_email_as_verified-unseen m laws user now db cache found mailed unverified empty =
    rw (eq_plain m laws) (
      save user.email user.email_preferences cache,
      fetched_lem user now db cache found mailed empty,
      marked_lem user now db cache found mailed,
      kept_lem user now db cache found mailed,
      λ task. unverified-refuses user.email_preferences task unverified,
    )
