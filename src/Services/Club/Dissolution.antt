-- ===== src/Services/Club/Dissolution.antt =====
-- Dissolving a club: `dissolve_club` of src/canterlot/services/club.py.
use canterlot_api.Base.{
  ℕ, ◌≡◌, refl, Bool, ◌&&◌, not, none, List, [], ◌∷◌, arith, is_some, ◌==◌, if◌then◌else◌,
}
use canterlot_api.Mongo.{Mongo, IsMongo, plain, eq_plain, delete_first, delete_all}
use canterlot_api.Mongo.Count.{count}
use canterlot_api.Types.{status_enum}
use canterlot_api.Models.{Club, ClubMembership, CatalogEntry, Database}
use canterlot_api.Effects.{ok, Outcome, Outcome-mono}
use canterlot_api.Repositories.Memberships.{has_id, in_club}
use canterlot_api.Repositories.Memberships.Queries.{get_role_lem}
use canterlot_api.Repositories.Memberships.Sound.{IsSound, is_owner_status, dissolve-IsSound}
use canterlot_api.Repositories.Memberships.Roster.{status_at}
use canterlot_api.Repositories.Clubs
use canterlot_api.Repositories.Clubs.{in_catalog_of}
use canterlot_api.Services.Club.Roles.{Settings, is_within}
use canterlot_api.Services.Club.Ownership.{dissolve_club}

abbrev pub dissolved : ℕ → Database → Database
dissolved club_id db = record db {
  clubs = delete_first (has_id club_id) db.clubs;
  memberships = delete_all (in_club club_id) db.memberships;
  catalog = delete_all (in_catalog_of club_id) db.catalog;
}

module _ (club_id : ℕ) where
  pub dissolved-roster :
      (c u : ℕ) (ds : List ClubMembership)
      → status_at c u (delete_all (in_club club_id) ds)
        ≡ (if c == club_id then none else status_at c u ds)
  dissolved-roster c u [] = ground arith
  dissolved-roster c u (d ∷ ds) = ground (arith, dissolved-roster c u ds)

  pub dissolved-catalog :
      (c : ℕ) (es : List CatalogEntry)
      → count (in_catalog_of c) (delete_all (in_catalog_of club_id) es)
        ≡ (if c == club_id then 0 else count (in_catalog_of c) es)
  dissolved-catalog c [] = ground arith
  dissolved-catalog c (e ∷ es) = ground (arith, dissolved-catalog c es)

  delete_lem :
      (db : Database)
      → Clubs.delete_with_memberships_and_catalog plain club_id db ≡ (ok tt, dissolved club_id db)
  unfolding Clubs.delete_with_memberships_and_catalog
  delete_lem db = refl

module _ (cfg : Settings) (club : Club) (caller_id now : ℕ) (db : Database) where
  abbrev pub dissolve_allowed : Bool
  dissolve_allowed =
      is_owner_status (status_at club.id caller_id db.memberships)
      && not (
          is_some club.protected_former_owner_id
          && is_within cfg.transfer_cooldown club.ownership_transferred_at now)

  dissolve_club-plain :
      IsSound db
      → Outcome dissolve_allowed
          (λ _ db'. db' ≡ dissolved club.id db)
          db
          (dissolve_club plain cfg club caller_id now db)
  unfolding dissolve_club
  dissolve_club-plain sound =
      ground (arith, get_role_lem club.id caller_id db sound.keys, delete_lem club.id db)

-- In a sound database, `dissolve_club` returns exactly when the caller is the OWNER and no former
-- owner of the club is under protection. It then leaves no member and no catalog entry of the club,
-- leaves the roster and the number of catalog entries of every other club as they were, deletes the
-- club, changes no other collection, and the clubs that are left keep one owner each. Where it
-- raises, the database is as it was.
pub dissolve_club-Outcome :
    (m : Mongo) (laws : IsMongo m) (cfg : Settings) (club : Club) (caller_id now : ℕ)
    (db : Database)
    → IsSound db
    → Outcome
        (dissolve_allowed cfg club caller_id now db)
        (λ _ db'.
          (db' ≡ record db {
            clubs = delete_first (has_id club.id) db.clubs;
            memberships = db'.memberships;
            catalog = db'.catalog;
          })
          × ((c u : ℕ)
              → status_at c u db'.memberships
                ≡ (if c == club.id then none else status_at c u db.memberships))
          × ((c : ℕ)
              → count (in_catalog_of c) db'.catalog
                ≡ (if c == club.id then 0 else count (in_catalog_of c) db.catalog))
          × IsSound db')
        db
        (dissolve_club m cfg club caller_id now db)
dissolve_club-Outcome m laws cfg club caller_id now db sound = rw (eq_plain m laws) (
    Outcome-mono (dissolve_allowed cfg club caller_id now db) _ _ db _
      (λ _ db' allowed e.
        let deleted = dissolve-IsSound db sound club.id in
        rw e (
          refl,
          λ c u. dissolved-roster club.id c u db.memberships,
          λ c. dissolved-catalog club.id c db.catalog,
          record { keys = deleted.keys; club_ids = deleted.club_ids; owners = deleted.owners },
        ))
      (dissolve_club-plain cfg club caller_id now db sound))
