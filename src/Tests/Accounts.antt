-- ===== src/Tests/Accounts.antt =====
-- The theorems on accounts and emails: Twilight has a password, a link to a service and a session.
use Prim.Native.String.{String, ◌++◌ as joined}
use text.Mathlib.Text.{◌==◌ as str_eq}
use canterlot_api.Base.{
  ℕ, ◌≡◌, refl, ◌∙◌, true, false, Option, none, some, List, [], ◌∷◌, arith, is_some, inl, inr, ◌/◌,
  ◌==◌, Bool-cases, if◌then◌else◌, ◌&&◌, ◌||◌, not, any, ap, zero, suc, sym,
}
use canterlot_api.Base.Texts.{has_text}
use canterlot_api.Mongo.{plain, plain-IsMongo}
use canterlot_api.Models.{Database, User, EmailPreferences, bare_user, no_preferences}
use canterlot_api.Effects.{ok, err, invalid_credentials, Outcome}
use canterlot_api.Repositories.Users.Accounts.{account, tokens_of, Changed}
use canterlot_api.Services.Auth.Sessions.{
  create_tokens, rotate_refresh_token, has_password, verifies,
}
use canterlot_api.Services.Auth.Ledger.{
  SessionCall, login, rotate, leave_all, ledger, opens, serve, specified,
}
use canterlot_api.Utils.Security.{Crypto, TokenSettings, IsCrypto, second, create_refresh_token}
use canterlot_api.Services.Auth.Ledger.Served.{serve-specified}
use text.Mathlib.TextEquality.{eq_iff}
use canterlot_api.Types.{AuthProviderName, provider_enum, ◌is◌, EmailCategory, category_enum}
use canterlot_api.Services.Auth.Replay.{rotate_refresh_token-again}
use text.Mathlib.TextPositions.{eq_refl}
use mathlib.Core.Option
use canterlot_api.Services.Auth.Passwords.{change_password, set_password}
use canterlot_api.Services.Auth.Renewal.{Renewed, is_yes, is_no, new_password-Outcome}
use canterlot_api.Repositories.Users.Providers.{is_link_of, link_removed, link_added}
use canterlot_api.Services.Auth.Providers.{
  is_only_way, disconnect_provider, revoke_provider_link, OAuthIdentity, OAuthProvider, Validators,
  identity_link, link_picture, link_provider,
}
use canterlot_api.Services.Auth.Ways.{
  can_sign_in, CanSignIn, disconnect_provider-Outcome, revoke_provider_link_lem,
}
use canterlot_api.Services.Auth.Linking.{unique_linked_providers, link_provider-Outcome}
use canterlot_api.Emails.Policy.{EmailTask, is_delivery_allowed, Cache, EmailPriority}
use canterlot_api.Services.User.{mark_email_as_verified}
use canterlot_api.Services.User.Preferences.{
  PreferencesCache, UnsubscribeScope, process_unsubscribe, get_email_preferences,
}
use canterlot_api.Services.User.Preferences.Fresh.{
  covers, process_unsubscribe_lem, mark_email_as_verified-unseen,
}
use canterlot_api.Services.Dispatch.{BatchEmailDispatchItem, dispatch_batch}
use canterlot_api.Services.Dispatch.Batch.{dispatch_each, dispatch_batch-each}
use text.Mathlib.TextLemmas.{append_cancel_left, append-eq-nil_iff}
use canterlot_api.Tests.Samples.{applejack, sample}

-- A box in which a password can be seen, and tokens that tell their time.
sealed_text : ℕ → String
sealed_text zero = ""
sealed_text (suc n) = joined "." (sealed_text n)

not_nothing : (s t : String) → str_eq s "" ≡ false → joined s t ≡ "" → false ≡ true
not_nothing s t full e = sym full ∙ (eq_iff s "").1 ((append-eq-nil_iff {p = s} {q = t}).0 e).0

sealed_text-injective : (a b : ℕ) → sealed_text a ≡ sealed_text b → a ≡ b
unfolding sealed_text
sealed_text-injective zero zero e = refl
sealed_text-injective zero (suc b) e =
    absurd (ground (arith, not_nothing "." (sealed_text b) refl (sym e)))
sealed_text-injective (suc a) zero e =
    absurd (ground (arith, not_nothing "." (sealed_text a) refl e))
sealed_text-injective (suc a) (suc b) e =
    ap suc (sealed_text-injective a b (append_cancel_left "." (sealed_text a) (sealed_text b) e))

abbrev sealing : Crypto
sealing = record {
  hashpw = λ password salt. some (joined "seal:" password);
  checkpw = λ password hashed. some (str_eq hashed (joined "seal:" password));
  jwt_encode = λ sub type at. sealed_text (at / second);
}

sealed_full : (password : String) → str_eq (joined "seal:" password) "" ≡ false
sealed_full password = elim (Bool-cases (str_eq (joined "seal:" password) "")) [
  | inl empty ↦ absurd (
      ground
        (arith, not_nothing "seal:" password refl ((eq_iff (joined "seal:" password) "").0 empty)))
  | inr full ↦ full
]

sealing-IsCrypto : IsCrypto sealing
sealing-IsCrypto = record {
  checkpw-hashpw = λ password salt hashed e. ground (arith, eq_refl (joined "seal:" password));
  hashpw_full = λ password salt hashed e. ground (arith, sealed_full password);
  jwt_seconds = λ sub type a b same. ap sealed_text same;
  jwt_faithful = λ sub type a b same. sealed_text-injective (a / second) (b / second) same;
}

-- The defaults of src/canterlot/config.py
abbrev settings : TokenSettings
settings = record {
  access_token_expiry_minutes = 15;
  refresh_token_expiry_days = 60;
  reset_token_expiry_minutes = 10;
}

abbrev twilight : User
twilight = record (bare_user 21 "Twilight" "twilight" "ts@example.org" "seed") {
  hashed_password = some "seal:owlowiscious";
  linked_providers =
      record { provider = AuthProviderName.google; external_id = "g-21"; picture_url = none } ∷ [];
  refresh_tokens = create_refresh_token sealing settings 21 1000000 ∷ [];
}

abbrev people : Database
people = record sample { users = applejack ∷ twilight ∷ [] }

held : has_text (create_refresh_token sealing settings 21 1000000) (tokens_of 21 people) ≡ true
held = ground (arith, eq_refl (create_refresh_token sealing settings 21 1000000))

abbrev a_session : List SessionCall
a_session =
    login "twilight" "owlowiscious" 2000000
    ∷ rotate 21 (create_refresh_token sealing settings 21 1000000) 5000000
    ∷ leave_all 21 (create_refresh_token sealing settings 21 2000000)
    ∷ []

abbrev second_identity : OAuthIdentity
second_identity = record {
  external_id = "g-22";
  email = "twilight@example.org";
  name = none;
  picture = some "https://example.org/22.png";
}

abbrev accepting : Validators
accepting = record {
  http_url = λ text. some text;
  is_https = λ url. true;
  person_name = λ text. some text;
  username_str = λ text. some text;
  normalized_email_str = λ text. some text;
}

abbrev second_google : OAuthProvider
second_google = record { supports_avatar = true; verify = λ credential uri. ok second_identity }

abbrev providers : AuthProviderName → Option OAuthProvider
providers AuthProviderName.google = some second_google
providers AuthProviderName.gravatar = none

abbrev no_cache : PreferencesCache
no_cache email = none

abbrev mail : String → EmailTask
mail to = record {
  category = EmailCategory.engagement;
  priority = EmailPriority.low;
  to = to;
  club_id = some 1;
  context = "";
}

abbrev one_block : Cache
one_block key =
    if str_eq key "suppression:external:rd@example.org"
    then some (("suppressed", "1") ∷ [])
    else none

abbrev mails : List BatchEmailDispatchItem
mails =
    record { task = mail "rd@example.org"; prefs = none }
    ∷ record { task = mail "aj@example.org"; prefs = some no_preferences }
    ∷ record { task = mail "ts@example.org"; prefs = none }
    ∷ []

serve-specified_example :
    ((serve sealing settings plain a_session people).0
      ≡ (specified sealing settings (opens sealing people) a_session (ledger people)).0)
    × (ledger (serve sealing settings plain a_session people).1
        ≡ (specified sealing settings (opens sealing people) a_session (ledger people)).1)
serve-specified_example =
    serve-specified plain plain-IsMongo sealing settings a_session people (λ k. ground arith)

rotate_refresh_token-again_example :
    (db' : Database) × (rotate_refresh_token plain sealing settings 21
        (create_refresh_token sealing settings 21 1000000)
        5000000
        people
      ≡ (ok (create_tokens sealing settings 21 5000000), db'))
    × ((rotate_refresh_token plain sealing settings 21
          (create_refresh_token sealing settings 21 1000000)
          6000000
          db').0
        ≡ (if 5000000 / second == 1000000 / second
            then ok (create_tokens sealing settings 21 6000000)
            else err invalid_credentials))
rotate_refresh_token-again_example =
    rotate_refresh_token-again plain plain-IsMongo sealing sealing-IsCrypto settings 21 1000000
      5000000 6000000 people (λ k. ground arith) held

new_password-Outcome_example :
    Outcome
      (has_password twilight
        && (is_yes (verifies sealing "owlowiscious" twilight)
            && (is_no (verifies sealing "star swirl" twilight)
                && is_some (sealing.hashpw "star swirl" "salt"))))
      (Renewed plain sealing settings twilight "star swirl" 5000000
        twilight.email_preferences.verified_at people)
      people
      (change_password plain sealing settings twilight "owlowiscious" "star swirl" "salt" 5000000
        people)
    × Outcome
        ((true || not (has_password twilight)) && is_some (sealing.hashpw "star swirl" "salt"))
        (Renewed plain sealing settings twilight "star swirl" 5000000
          (if true && not (is_some twilight.email_preferences.verified_at)
            then some 5000000
            else twilight.email_preferences.verified_at)
          people)
        people
        (set_password plain sealing settings twilight "star swirl" true "salt" 5000000 people)
new_password-Outcome_example =
    new_password-Outcome plain plain-IsMongo sealing sealing-IsCrypto settings twilight
      "owlowiscious" "star swirl" "salt" true 5000000 people refl refl

disconnect_provider-Outcome_example :
    Outcome
      (any (is_link_of AuthProviderName.google) twilight.linked_providers
        && not (is_only_way twilight AuthProviderName.google))
      (λ done db'.
        (account twilight.id db' ≡ some (link_removed AuthProviderName.google twilight))
        × (any
              (is_link_of AuthProviderName.google)
              (link_removed AuthProviderName.google twilight).linked_providers
            ≡ false)
        × (can_sign_in (link_removed AuthProviderName.google twilight) ≡ true)
        × Changed twilight.id (link_removed AuthProviderName.google) people db'
        × (CanSignIn people → CanSignIn db'))
      people
      (disconnect_provider plain twilight AuthProviderName.google people)
disconnect_provider-Outcome_example =
    disconnect_provider-Outcome plain plain-IsMongo AuthProviderName.google twilight people refl

revoke_provider_link_lem_example :
    (db' : Database) × (revoke_provider_link plain AuthProviderName.google "g-21" people ≡ (
      ok (record {
        user = some twilight;
        is_locked_out = not (can_sign_in (link_removed AuthProviderName.google twilight));
      }),
      db',
    ))
    × (account twilight.id db' ≡ some (link_removed AuthProviderName.google twilight))
    × Changed twilight.id (link_removed AuthProviderName.google) people db'
revoke_provider_link_lem_example =
    revoke_provider_link_lem plain plain-IsMongo AuthProviderName.google "g-21" twilight people refl
      refl

link_provider-Outcome_example :
    Outcome
      (is_some (link_picture accepting second_identity))
      (λ done db'.
        (picture : Option String) × (user' : User) × (link_picture accepting second_identity
          ≡ some picture)
        × Changed twilight.id
            (link_added (identity_link AuthProviderName.google second_identity picture))
            people
            db'
        × (account twilight.id db' ≡ some user')
        × (unique_linked_providers user'.linked_providers ≡ (
            unique_linked_providers twilight.linked_providers
            && not (any (is_link_of AuthProviderName.google) twilight.linked_providers))))
      people
      (link_provider plain sealing settings accepting providers twilight.id AuthProviderName.google
        "credential" none people)
link_provider-Outcome_example =
    link_provider-Outcome plain plain-IsMongo sealing settings accepting providers twilight
      AuthProviderName.google "credential" none second_google second_identity people refl refl refl
      refl refl

process_unsubscribe_lem_example :
    (p : EmailPreferences) × ((process_unsubscribe plain twilight.id
        (UnsubscribeScope.of_club 1)
        90
        (people, no_cache)).0
      ≡ ok (UnsubscribeScope.of_club 1))
    × ((get_email_preferences plain twilight.email
          (process_unsubscribe plain twilight.id
            (UnsubscribeScope.of_club 1)
            90
            (people, no_cache)).1).0
        ≡ ok p)
    × ((task : EmailTask)
        → covers (UnsubscribeScope.of_club 1) task ≡ true
        → is_delivery_allowed task p ≡ false)
process_unsubscribe_lem_example =
    process_unsubscribe_lem plain plain-IsMongo twilight (UnsubscribeScope.of_club 1) 90 people
      no_cache refl refl

mark_email_as_verified-unseen_example :
    (cache' : PreferencesCache) × (get_email_preferences plain twilight.email (people, no_cache)
      ≡ (ok twilight.email_preferences, (people, cache')))
    × (Option.map
          (λ u. u.email_preferences.verified_at)
          (account twilight.id (mark_email_as_verified plain twilight.id 90 people).1)
        ≡ some (some 90))
    × ((get_email_preferences plain twilight.email
          ((mark_email_as_verified plain twilight.id 90 people).1, cache')).0
        ≡ ok twilight.email_preferences)
    × ((task : EmailTask)
        → (task.category is EmailCategory.transactional) ≡ false
        → is_delivery_allowed task twilight.email_preferences ≡ false)
mark_email_as_verified-unseen_example =
    mark_email_as_verified-unseen plain plain-IsMongo twilight 90 people no_cache refl refl refl
      refl

dispatch_batch-each_example : dispatch_batch one_block mails [] ≡ dispatch_each one_block mails []
dispatch_batch-each_example = dispatch_batch-each one_block mails []
