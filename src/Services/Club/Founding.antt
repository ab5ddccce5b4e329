-- ===== src/Services/Club/Founding.antt =====
-- A new club and its owner: `create_new_club` of src/canterlot/services/club.py.
use Prim.Native.String.{String}
use text.Mathlib.Text.{◌==◌ as str_eq}
use canterlot_api.Base.{
  ℕ, ◌≡◌, refl, Bool, false, ◌||◌, not, Option, none, some, List, [], ◌∷◌, ◌++◌, arith, true,
  Bool-cases, if◌then◌else◌, Option-cases, inl, inr, is_some, any, ◌==◌,
}
use canterlot_api.Mongo.{Mongo, IsMongo, plain, eq_plain, first}
use canterlot_api.Mongo.Count.{count, count-append_one, first-holds}
use canterlot_api.Types.{MembershipStatus, status_enum}
use canterlot_api.Models.{Club, ClubMembership, Database}
use canterlot_api.Effects.{ok, err, validation_error, Outcome}
use canterlot_api.Repositories.Memberships.{has_id, has_key, in_club}
use canterlot_api.Repositories.Memberships.Roster.{status_at, placed, status_at-append_one}
use canterlot_api.Repositories.Memberships.Sound.{IsSound, owns}
use canterlot_api.Repositories.Clubs
use canterlot_api.Utils.Slugs.{make_slug}
use canterlot_api.Utils.Slugs.Search.{candidates, make_slug_lem}
use canterlot_api.Services.Club.Creation.{
  ClubCreateRequest, is_empty_slug, new_club, create_new_club,
}

abbrev pub slug_taken : Database → String → Bool
slug_taken db slug = is_some (first (λ c. str_eq c.slug slug) db.clubs)

-- The first of the candidates that no club has.
abbrev pub free_slug :
    (String → ℕ → String → String) → ClubCreateRequest → List String → Database → Option String
free_slug slugify request suffixes db =
    first (λ s. not (slug_taken db s)) (candidates slugify request.name 32 5 "-" suffixes)

abbrev its_owner : Club → ℕ → ℕ → ClubMembership
its_owner club owner_id now = record {
  club_id = club.id;
  user_id = owner_id;
  status = MembershipStatus.owner;
  joined_at = some now;
  requested_at = none;
}

-- The database with one club more, and its owner.
abbrev founded : Club → ℕ → ℕ → Database → Database
founded club owner_id now db = record db {
  clubs = db.clubs ++ club ∷ [];
  memberships = db.memberships ++ its_owner club owner_id now ∷ [];
}

clash_free :
    (club_id : ℕ) (slug : String) (cs : List Club)
    → count (has_id club_id) cs ≡ 0
    → is_some (first (λ c. str_eq c.slug slug) cs) ≡ false
    → any (λ c. (c.id == club_id) || str_eq c.slug slug) cs ≡ false
clash_free club_id slug [] fresh free = refl
clash_free club_id slug (c ∷ cs) fresh free = ground (arith, clash_free club_id slug cs)

keys_free :
    (club_id user_id : ℕ) (ds : List ClubMembership)
    → count (in_club club_id) ds ≡ 0
    → (any (has_key club_id user_id) ds ≡ false)
      × (count (has_key club_id user_id) ds ≡ 0)
      × (status_at club_id user_id ds ≡ none)
keys_free club_id user_id [] fresh = (refl, refl, refl)
keys_free club_id user_id (d ∷ ds) fresh =
    let (a, b, c) = keys_free club_id user_id ds (ground arith) in
    (ground arith, ground arith, ground arith)

module _ (club : Club) (owner_id now : ℕ) (db : Database)
    (new_id : count (has_id club.id) db.clubs ≡ 0)
    (no_roster : count (in_club club.id) db.memberships ≡ 0) where
  save_lem :
      slug_taken db club.slug ≡ false
      → Clubs.save_new_club_with_owner plain club owner_id now db
        ≡ (ok club, founded club owner_id now db)
  unfolding Clubs.save_new_club_with_owner
  save_lem free =
      let (a, b, c) = keys_free club.id owner_id db.memberships no_roster in
      ground (arith, clash_free club.id club.slug db.clubs new_id free)

  founded-IsSound : IsSound db → IsSound (founded club owner_id now db)
  founded-IsSound sound = record {
    keys = λ a b.
        let (x, y, z) = keys_free club.id b db.memberships no_roster in
        ground (
          arith,
          count-append_one (has_key a b) db.memberships (its_owner club owner_id now),
          sound.keys a b,
        );
    club_ids = λ k. ground (arith, count-append_one (has_id k) db.clubs club, sound.club_ids k);
    owners = λ k. ground (
      arith,
      count-append_one (owns k) db.memberships (its_owner club owner_id now),
      count-append_one (has_id k) db.clubs club,
      sound.owners k,
    );
  }

  status_at-founded :
      (c u : ℕ)
      → status_at c u (founded club owner_id now db).memberships
        ≡ placed club.id owner_id (some MembershipStatus.owner) db.memberships c u
  status_at-founded c u =
      let (x, y, absent) = keys_free club.id owner_id db.memberships no_roster in
      status_at-append_one c u club.id owner_id db.memberships (its_owner club owner_id now) refl
        refl absent

-- What a call returns, and the database after it, by the slug that is free.
abbrev pub Founded :
    Database → ℕ → ℕ → ℕ → ClubCreateRequest → Option String → Option Club → Database → Type 0
Founded db creator_id club_id now request none made db' = (made ≡ none) × (db' ≡ db)
Founded db creator_id club_id now request (some slug) made db' =
    (made ≡ some (new_club club_id request slug))
    × (slug_taken db slug ≡ false)
    × (db'.clubs ≡ db.clubs ++ new_club club_id request slug ∷ [])
    × ((c u : ℕ)
        → status_at c u db'.memberships
          ≡ placed club_id creator_id (some MembershipStatus.owner) db.memberships c u)
    × IsSound db'

module _ (slugify : String → ℕ → String → String) (creator_id : ℕ) (request : ClubCreateRequest)
    (club_id : ℕ) (suffixes : List String) (now : ℕ) (db : Database) where
  exists_slug_lem : (s : String) → Clubs.exists_by_club_slug plain s db ≡ (ok (slug_taken db s), db)
  unfolding Clubs.exists_by_club_slug
  exists_slug_lem s = refl

  slug_lem :
      make_slug slugify request.name (Clubs.exists_by_club_slug plain) 32 5 "-" suffixes db
      ≡ (ok (free_slug slugify request suffixes db), db)
  slug_lem =
      make_slug_lem slugify request.name (Clubs.exists_by_club_slug plain) (slug_taken db) 32 5 "-"
        suffixes db exists_slug_lem

  create_plain :
      count (has_id club_id) db.clubs ≡ 0
      → count (in_club club_id) db.memberships ≡ 0
      → create_new_club plain slugify creator_id request club_id suffixes now db
        ≡ elim (free_slug slugify request suffixes db) [
          | none ↦ (ok none, db)
          | some slug ↦ if is_empty_slug slug then (err validation_error, db) else (
            ok (some (new_club club_id request slug)),
            founded (new_club club_id request slug) creator_id now db,
          )
        ]
  unfolding create_new_club
  create_plain new_id no_roster = elim (Option-cases (free_slug slugify request suffixes db)) [
    | inl e ↦ ground (arith, slug_lem)
    | inr (slug, e) ↦ ground (
      arith,
      slug_lem,
      save_lem (new_club club_id request slug) creator_id now db new_id no_roster (free slug e),
    )
  ]
    where
      free :
          (slug : String)
          → free_slug slugify request suffixes db ≡ some slug
          → slug_taken db slug ≡ false
      free slug e = ground (
        arith,
        first-holds (λ s. not (slug_taken db s)) (candidates slugify request.name 32 5 "-" suffixes)
            slug e,
      )

-- The document of the club is valid, or there is no slug to write.
abbrev pub founding_allowed : Option String → Bool
founding_allowed none = true
founding_allowed (some slug) = not (is_empty_slug slug)

-- The driver gives the new club an id that no club and no membership has. In a sound database,
-- `create_new_club` then takes the first slug that it tries and that no club has. If this slug is the
-- empty text, as it may be for a name without a letter or digit, it raises and changes nothing.
-- Otherwise it returns the club under it, adds it with the creator as its one OWNER and leaves every
-- other status as it was, so that every club has one owner again. It has no result, with the database
-- as it was, only if each of the slugs that it was given time to try is taken.
pub create_new_club-Outcome :
    (m : Mongo) (laws : IsMongo m) (slugify : String → ℕ → String → String) (creator_id : ℕ)
    (request : ClubCreateRequest) (club_id : ℕ) (suffixes : List String) (now : ℕ) (db : Database)
    → IsSound db
    → count (has_id club_id) db.clubs ≡ 0
    → count (in_club club_id) db.memberships ≡ 0
    → Outcome
        (founding_allowed (free_slug slugify request suffixes db))
        (Founded db creator_id club_id now request (free_slug slugify request suffixes db))
        db
        (create_new_club m slugify creator_id request club_id suffixes now db)
create_new_club-Outcome m laws slugify creator_id request club_id suffixes now db sound new_id
      no_roster =
    rw (eq_plain m laws) (
      rw (create_plain slugify creator_id request club_id suffixes now db new_id no_roster)
        (elim (Option-cases (free_slug slugify request suffixes db)) [
          | inl e ↦ rw e (refl, (refl, refl))
          | inr (slug, e) ↦
              let club = new_club club_id request slug in
              elim (Bool-cases (is_empty_slug slug)) [
                | inl empty ↦ rw e (rw empty (refl, refl))
                | inr full ↦ rw e (
                    rw full (
                      refl,
                      (
                        refl,
                        ground (
                          arith,
                          first-holds (λ s. not (slug_taken db s))
                              (candidates slugify request.name 32 5 "-" suffixes) slug e,
                        ),
                        refl,
                        λ c u. status_at-founded club creator_id now db new_id no_roster c u,
                        founded-IsSound club creator_id now db new_id no_roster sound,
                      ),
                    ))
              ]
        ]))
