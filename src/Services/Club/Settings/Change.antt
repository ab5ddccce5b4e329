-- ===== src/Services/Club/Settings/Change.antt =====
-- What `update_settings` of src/canterlot/services/club.py does.
use Prim.Native.String.{String}
use canterlot_api.Base.{
  ℕ, ◌≡◌, refl, false, Option, none, some, List, arith, Option-cases, Bool-cases, inl, inr, ◌==◌,
}
use canterlot_api.Mongo.{Mongo, IsMongo, eq_plain, first, update_first}
use canterlot_api.Mongo.Count.{first-update_first, first-update_first_other}
use canterlot_api.Models.{Club, Database}
use canterlot_api.Effects.{Outcome}
use canterlot_api.Repositories.Memberships.{has_id, clubs_set}
use canterlot_api.Repositories.Memberships.Roster.{KeysUnique, status_at}
use canterlot_api.Services.Club.Rules.{is_staff}
use canterlot_api.Services.Club.Customizing.{ClubSettingsUpdateRequest, customized, update_settings}
use canterlot_api.Services.Club.Settings.{
  SlugsUnique, new_slug, new_slug-free, settings_plain, customized-SlugsUnique,
}

-- What a call returns, and the database after it, by the slug that the request leads to.
abbrev pub Customized :
    Database
    → Club
    → ClubSettingsUpdateRequest
    → Option (Option String)
    → Option Club
    → Database
    → Type 0
Customized db club request none made db' = (made ≡ none) × (db' ≡ db)
Customized db club request (some slug) made db' =
    (made ≡ some (customized request slug club))
    × (first (has_id club.id) db'.clubs ≡ made)
    × ((k : ℕ) → (k == club.id) ≡ false → first (has_id k) db'.clubs ≡ first (has_id k) db.clubs)
    × SlugsUnique db'.clubs
    × (db' ≡ clubs_set db'.clubs db)

-- With unique keys of the roster and no slug twice, and for a club as it is stored, `update_settings`
-- returns exactly if the caller is OWNER or ADMIN of the club; otherwise nothing changes. It keeps the
-- club's slug if the request has no name or the club's own, and else takes the first slug that it tries
-- and that no other club has; if each slug that it was given time to try is another club's, it has no
-- result and nothing changes. Otherwise the club that it returns has the fields that the request names
-- and the new slug, and is the club then stored; every other club and all else is as it was, and again
-- no slug is there twice.
pub update_settings-Outcome :
    (m : Mongo) (laws : IsMongo m) (slugify : String → ℕ → String → String) (club : Club)
    (caller_id : ℕ) (request : ClubSettingsUpdateRequest) (suffixes : List String) (db : Database)
    → KeysUnique db.memberships
    → SlugsUnique db.clubs
    → first (has_id club.id) db.clubs ≡ some club
    → Outcome
        (is_staff (status_at club.id caller_id db.memberships))
        (Customized db club request (new_slug slugify club request suffixes db))
        db
        (update_settings m slugify club caller_id request suffixes db)
update_settings-Outcome m laws slugify club caller_id request suffixes db keys once stored =
    rw (eq_plain m laws) (
      rw (settings_plain slugify club caller_id request suffixes db keys once stored)
        (elim (Bool-cases (is_staff (status_at club.id caller_id db.memberships))) [
          | inr refused ↦ rw refused (refl, refl)
          | inl allowed ↦ elim (Option-cases (new_slug slugify club request suffixes db)) [
            | inl taken ↦ rw allowed (rw taken (refl, (refl, refl)))
            | inr (slug, e) ↦ rw allowed (
                rw e (
                  refl,
                  (
                    refl,
                    found slug,
                    λ k other.
                        first-update_first_other (has_id club.id) (has_id k)
                          (customized request slug) db.clubs (λ d h. ground arith) (λ d. refl),
                    customized-SlugsUnique club db stored request slug once (
                        new_slug-free slugify club caller_id request suffixes db keys once stored
                          slug e),
                    refl,
                  ),
                ))
          ]
        ]))
  where
    found :
        (slug : Option String)
        → first (has_id club.id) (update_first (has_id club.id) (customized request slug) db.clubs)
          ≡ some (customized request slug club)
    found slug = ground (
      arith,
      stored,
      first-update_first (has_id club.id) (customized request slug) db.clubs (λ d. refl),
    )
