-- ===== src/Services/Auth/Linking.antt =====
-- What `link_provider` of src/canterlot/services/auth.py leaves of the rule that an account has at most
-- one link of each provider (`verify_unique_linked_providers` of src/canterlot/models/user.py).
use Prim.Native.String.{String}
use text.Mathlib.Text.{◌==◌ as str_eq}
use canterlot_api.Base.{
  ◌≡◌, refl, Bool, true, false, ◌&&◌, ◌||◌, not, Option, none, some, List, [], ◌∷◌, ◌++◌, arith,
  any, is_some, Option-cases, inl, inr,
}
use canterlot_api.Mongo.{Mongo, IsMongo, plain, eq_plain, first, delete_first}
use canterlot_api.Types.{AuthProviderName, ◌is◌, provider_enum}
use canterlot_api.Models.{User, LinkedProvider, Database}
use canterlot_api.Effects.{ok, err, validation_error, Outcome}
use canterlot_api.Repositories.Users.Providers
use canterlot_api.Repositories.Users.Providers.{
  is_link_of, is_linked, same_link, shares_link, link_added,
}
use canterlot_api.Repositories.Users.Sessions.{has_user_id}
use canterlot_api.Repositories.Users.Accounts.{account, changed, Changed, changed-Changed}
use canterlot_api.Services.Auth.Providers.{
  OAuthIdentity, OAuthProvider, Validators, identity_link, link_picture, link_provider,
}
use canterlot_api.Utils.Security.{Crypto, TokenSettings}

-- `verify_unique_linked_providers` of src/canterlot/models/user.py, `false` where it raises.
abbrev pub unique_linked_providers : List LinkedProvider → Bool
unique_linked_providers [] = true
unique_linked_providers (l ∷ ls) =
    not (any (is_link_of l.provider) ls) && unique_linked_providers ls

unique-append :
    (e : LinkedProvider) (ls : List LinkedProvider)
    → unique_linked_providers (ls ++ e ∷ [])
      ≡ (unique_linked_providers ls && not (any (is_link_of e.provider) ls))
unique-append e [] = refl
unique-append e (l ∷ ls) = ground (arith, unique-append e ls, any_append l.provider ls)
  where
    any_append :
        (p : AuthProviderName) (ks : List LinkedProvider)
        → any (is_link_of p) (ks ++ e ∷ []) ≡ (any (is_link_of p) ks || e.provider is p)
    any_append p [] = ground arith
    any_append p (k ∷ ks) = ground (arith, any_append p ks)

any_same-append :
    (k e : LinkedProvider) (ls : List LinkedProvider)
    → any (λ l. same_link l k) (ls ++ e ∷ []) ≡ (any (λ l. same_link l k) ls || same_link e k)
any_same-append k e [] = ground arith
any_same-append k e (l ∷ ls) = ground (arith, any_same-append k e ls)

-- Who shares a link once one is added, shared one before or is linked to the identity.
shares-added :
    (e : LinkedProvider) (u : User) (ks : List LinkedProvider)
    → (any (is_link_of e.provider) ks && any (λ l. str_eq l.external_id e.external_id) ks) ≡ false
    → any (λ k. any (λ l. same_link l k) u.linked_providers) ks ≡ false
    → any (λ k. any (λ l. same_link l k) (u.linked_providers ++ e ∷ [])) ks ≡ false
shares-added e u [] free apart = refl
shares-added e u (k ∷ ks) free apart =
    ground (arith, shares-added e u ks, any_same-append k e u.linked_providers)

clash_free :
    (e : LinkedProvider) (u : User) (us : List User)
    → first (is_linked e.provider e.external_id) us ≡ none
    → any (shares_link u) us ≡ false
    → any (shares_link (link_added e u)) us ≡ false
clash_free e u [] free apart = refl
clash_free e u (v ∷ us) free apart =
    ground (arith, clash_free e u us, shares-added e u v.linked_providers)

first-delete_first-none :
    (test p : User → Bool) (us : List User)
    → first p us ≡ none
    → first p (delete_first test us) ≡ none
first-delete_first-none test p [] free = refl
first-delete_first-none test p (u ∷ us) free = ground (arith, first-delete_first-none test p us)

module _ (crypto : Crypto) (settings : TokenSettings) (v : Validators)
    (oauth_providers : AuthProviderName → Option OAuthProvider) where
  link_plain :
      (user : User) (provider : AuthProviderName) (credential : String)
      (redirect_uri : Option String) (p : OAuthProvider) (identity : OAuthIdentity) (db : Database)
      → oauth_providers provider ≡ some p
      → p.verify credential redirect_uri ≡ ok identity
      → first (is_linked provider identity.external_id) db.users ≡ none
      → any (shares_link user) (delete_first (has_user_id user.id) db.users) ≡ false
      → account user.id db ≡ some user
      → link_provider plain crypto settings v oauth_providers user.id provider credential
          redirect_uri db
        ≡ elim (link_picture v identity) [
          | none ↦ (err validation_error, db)
          | some picture ↦
              (ok tt, changed user.id (link_added (identity_link provider identity picture)) db)
        ]
  unfolding link_provider Providers.find_id_by_linked_provider Providers.add_linked_provider
  link_plain user provider credential redirect_uri p identity db configured verified free apart
        found =
      elim (Option-cases (link_picture v identity)) [
        | inl invalid ↦ ground arith
        | inr (picture, valid) ↦ ground (
          arith,
          clash_free (identity_link provider identity picture) user
              (delete_first (has_user_id user.id) db.users)
              (first-delete_first-none (has_user_id user.id)
                (is_linked provider identity.external_id) db.users free)
              apart,
        )
      ]

-- `user` is the document of an account whose links no other account shares. Where the provider
-- confirms an identity that no account is linked to, `link_provider` returns exactly if the identity
-- has no picture, or one whose text is a valid URL by https; otherwise it raises and changes nothing.
-- It then adds the link to the account, with this picture, and changes nothing else. The document
-- passes `verify_unique_linked_providers` afterwards exactly if it did before and had no link of this
-- provider.
pub link_provider-Outcome :
    (m : Mongo) (laws : IsMongo m) (crypto : Crypto) (settings : TokenSettings) (v : Validators)
    (oauth_providers : AuthProviderName → Option OAuthProvider) (user : User)
    (provider : AuthProviderName) (credential : String) (redirect_uri : Option String)
    (p : OAuthProvider) (identity : OAuthIdentity) (db : Database)
    → oauth_providers provider ≡ some p
    → p.verify credential redirect_uri ≡ ok identity
    → first (is_linked provider identity.external_id) db.users ≡ none
    → any (shares_link user) (delete_first (has_user_id user.id) db.users) ≡ false
    → account user.id db ≡ some user
    → Outcome
        (is_some (link_picture v identity))
        (λ done db'.
          (picture : Option String) × (user' : User) × (link_picture v identity ≡ some picture)
          × Changed user.id (link_added (identity_link provider identity picture)) db db'
          × (account user.id db' ≡ some user')
          × (unique_linked_providers user'.linked_providers ≡ (
              unique_linked_providers user.linked_providers
              && not (any (is_link_of provider) user.linked_providers))))
        db
        (link_provider m crypto settings v oauth_providers user.id provider credential redirect_uri
          db)
link_provider-Outcome m laws crypto settings v oauth_providers user provider credential redirect_uri
      p identity db configured verified free apart found =
    rw (eq_plain m laws) (
      rw
        (link_plain crypto settings v oauth_providers user provider credential redirect_uri p
          identity db configured verified free apart found)
        (elim (Option-cases (link_picture v identity)) [
          | inl invalid ↦ rw invalid (refl, refl)
          | inr (picture, valid) ↦
              let e = identity_link provider identity picture in
              rw valid (
                refl,
                (
                  picture,
                  link_added e user,
                  refl,
                  changed-Changed user.id (link_added e) (λ u. refl) db,
                  ground (
                    arith,
                    (changed-Changed user.id (link_added e) (λ u. refl) db).0 user.id,
                    found,
                  ),
                  unique-append e user.linked_providers,
                ),
              )
        ]))
