-- ===== src/Services/Auth/Ways.antt =====
-- The ways to sign in that an account keeps: `disconnect_provider`, `revoke_provider_link` and
-- `link_provider` of src/canterlot/services/auth.py.
use Prim.Native.String.{String}
use canterlot_api.Base.{
  ℕ, ◌≡◌, refl, Bool, true, false, ◌&&◌, ◌||◌, not, some, List, [], ◌∷◌, arith, any, is_empty,
}
use canterlot_api.Mongo.{Mongo, IsMongo, plain, eq_plain, first}
use canterlot_api.Types.{AuthProviderName, provider_enum}
use canterlot_api.Models.{User, LinkedProvider, Database}
use canterlot_api.Effects.{ok, Outcome}
use canterlot_api.Repositories.Users.Sessions as Tokens
use canterlot_api.Repositories.Users.Providers
use canterlot_api.Repositories.Users.Providers.{is_link_of, is_linked, unlinked, link_removed}
use canterlot_api.Repositories.Users.Accounts.{account, changed, Changed, changed-Changed}
use canterlot_api.Services.Auth.Sessions.{has_password}
use canterlot_api.Services.Auth.Providers.{is_only_way, disconnect_provider, revoke_provider_link}

-- A password, or a link to another service.
abbrev pub can_sign_in : User → Bool
can_sign_in u = has_password u || not (is_empty u.linked_providers)

abbrev pub CanSignIn : Database → Type 0
CanSignIn db = (k : ℕ) (u : User) → account k db ≡ some u → can_sign_in u ≡ true

any-unlinked :
    (provider : AuthProviderName) (ls : List LinkedProvider)
    → any (is_link_of provider) (unlinked provider ls) ≡ false
any-unlinked provider [] = refl
any-unlinked provider (l ∷ ls) = ground (arith, any-unlinked provider ls)

module _ (provider : AuthProviderName) (user : User) (db : Database)
    (found : account user.id db ≡ some user) where
  abbrev after_removal : Database
  after_removal = changed user.id (link_removed provider) db

  remove_lem : Providers.remove_linked_provider plain user.id provider db ≡ (ok tt, after_removal)
  unfolding Providers.remove_linked_provider Tokens.update_user
  remove_lem = refl

  account-after_removal : account user.id after_removal ≡ some (link_removed provider user)
  account-after_removal =
      ground (arith, (changed-Changed user.id (link_removed provider) (λ u. refl) db).0 user.id)

  CanSignIn-after_removal :
      is_only_way user provider ≡ false → CanSignIn db → CanSignIn after_removal
  CanSignIn-after_removal more ways k u there =
      ground (arith, (changed-Changed user.id (link_removed provider) (λ v. refl) db).0 k, ways k u)

  disconnect_plain :
      Outcome
        (any (is_link_of provider) user.linked_providers && not (is_only_way user provider))
        (λ done db'.
          (account user.id db' ≡ some (link_removed provider user))
          × (any (is_link_of provider) (link_removed provider user).linked_providers ≡ false)
          × (can_sign_in (link_removed provider user) ≡ true)
          × Changed user.id (link_removed provider) db db'
          × (CanSignIn db → CanSignIn db'))
        db
        (disconnect_provider plain user provider db)
  unfolding disconnect_provider
  disconnect_plain = ground (
    arith,
    remove_lem,
    account-after_removal,
    any-unlinked provider user.linked_providers,
    changed-Changed user.id (link_removed provider) (λ v. refl) db,
    CanSignIn-after_removal,
  )

  revoke_plain :
      (external_id : String)
      → first (is_linked provider external_id) db.users ≡ some user
      → revoke_provider_link plain provider external_id db ≡ (
        ok (record {
          user = some user;
          is_locked_out = not (can_sign_in (link_removed provider user));
        }),
        after_removal,
      )
  unfolding revoke_provider_link Providers.find_by_linked_provider
  revoke_plain external_id linked = ground (arith, remove_lem)

-- `user` is the document of an account. `disconnect_provider` returns exactly if a link of the
-- provider is on it and a password or a link of another provider is too. It then takes the provider's
-- links off this account, which still has a way to sign in, and changes nothing else, so that where
-- every account could sign in, every account can afterwards. Where it raises, nothing is changed.
pub disconnect_provider-Outcome :
    (m : Mongo) (laws : IsMongo m) (provider : AuthProviderName) (user : User) (db : Database)
    → account user.id db ≡ some user
    → Outcome
        (any (is_link_of provider) user.linked_providers && not (is_only_way user provider))
        (λ done db'.
          (account user.id db' ≡ some (link_removed provider user))
          × (any (is_link_of provider) (link_removed provider user).linked_providers ≡ false)
          × (can_sign_in (link_removed provider user) ≡ true)
          × Changed user.id (link_removed provider) db db'
          × (CanSignIn db → CanSignIn db'))
        db
        (disconnect_provider m user provider db)
disconnect_provider-Outcome m laws provider user db found =
    rw (eq_plain m laws) (disconnect_plain provider user db found)

-- Where an account is linked to the identity that the provider reports, `revoke_provider_link`
-- returns it as it was before, takes the provider's links off it, changes no other account, and says
-- that it is locked out exactly if it is left without a password and without any link.
pub revoke_provider_link_lem :
    (m : Mongo) (laws : IsMongo m) (provider : AuthProviderName) (external_id : String)
    (user : User) (db : Database)
    → first (is_linked provider external_id) db.users ≡ some user
    → account user.id db ≡ some user
    → (db' : Database) × (revoke_provider_link m provider external_id db ≡ (
      ok (record {
        user = some user;
        is_locked_out = not (can_sign_in (link_removed provider user));
      }),
      db',
    ))
      × (account user.id db' ≡ some (link_removed provider user))
      × Changed user.id (link_removed provider) db db'
revoke_provider_link_lem m laws provider external_id user db linked found = rw (eq_plain m laws) (
  after_removal provider user db found,
  revoke_plain provider user db found external_id linked,
  account-after_removal provider user db found,
  changed-Changed user.id (link_removed provider) (λ v. refl) db,
)
