-- ===== src/Services/Club/Settings.antt =====
-- The settings of a club: `update_settings` of src/canterlot/services/club.py.
pub mod Sound
pub mod Change
use Prim.Native.String.{String}
use text.Mathlib.Text.{◌==◌ as str_eq}
use text.Mathlib.TextEquality.{eq_iff}
use canterlot_api.Base.{
  ℕ, ◌≤◌, ◌≡◌, refl, sym, Bool, true, false, ◌&&◌, not, Option, none, some, List, arith,
  Option-cases, Bool-cases, inl, inr, any, ◌==◌, if◌then◌else◌,
}
use canterlot_api.Mongo.{Mongo, IsMongo, plain, eq_plain, first, update_first, delete_first}
use canterlot_api.Mongo.Count.{
  count, any-first, first-holds, count-first-none, first-count_zero, count-update_first,
  count-delete_first, first-update_first, first-update_first_other,
}
use canterlot_api.Models.{Club, Database}
use canterlot_api.Services.Club.Roles.{get_member_role}
use canterlot_api.Effects.{ok, err, unauthorized_club_member, Outcome}
use canterlot_api.Repositories.Memberships.{has_id, clubs_set}
use canterlot_api.Repositories.Memberships.Roster.{KeysUnique, status_at}
use canterlot_api.Repositories.Memberships.Queries.{get_role_lem}
use canterlot_api.Repositories.Clubs
use canterlot_api.Repositories.Clubs.{same_slug}
use canterlot_api.Utils.Slugs.{make_slug}
use canterlot_api.Utils.Slugs.Search.{candidates, make_slug_lem}
use canterlot_api.Services.Club.Rules.{is_staff}
use canterlot_api.Services.Club.Founding.{slug_taken}
use canterlot_api.Services.Club.Customizing.{
  ClubSettingsUpdateRequest, customized, is_slug_taken, write_settings, update_settings,
}

abbrev pub has_slug : String → Club → Bool
has_slug slug c = str_eq c.slug slug

-- A slug that another club has.
abbrev pub taken_by_other : Club → Database → String → Bool
taken_by_other club db slug = not (str_eq slug club.slug) && slug_taken db slug

-- No slug twice.
abbrev pub SlugsUnique : List Club → Type 0
SlugsUnique cs = (slug : String) → count (has_slug slug) cs ≤ 1

sym_lem : (s t : String) → str_eq s t ≡ true → str_eq t s ≡ true
sym_lem s t same = (eq_iff t s).1 (sym ((eq_iff s t).0 same))

module _ (club : Club) (db : Database) where
  reads_lem :
      (slug : String) → is_slug_taken plain club slug db ≡ (ok (taken_by_other club db slug), db)
  unfolding is_slug_taken Clubs.exists_by_club_slug
  reads_lem slug = ground arith

  pub settings_slug_lem :
      (slugify : String → ℕ → String → String) (suffixes : List String) (name : String)
      → make_slug slugify name (is_slug_taken plain club) 32 5 "-" suffixes db ≡ (
        ok (
            first
              (λ s. not (taken_by_other club db s))
              (candidates slugify name 32 5 "-" suffixes)),
        db,
      )
  settings_slug_lem slugify suffixes name =
      make_slug_lem slugify name (is_slug_taken plain club) (taken_by_other club db) 32 5 "-"
        suffixes db reads_lem

module _ (club : Club) (db : Database) (stored : first (has_id club.id) db.clubs ≡ some club) where
  -- Another slug, where no club but this one has it.
  apart_lem :
      (slug : String)
      → SlugsUnique db.clubs
      → taken_by_other club db slug ≡ false
      → any (has_slug slug) (delete_first (has_id club.id) db.clubs) ≡ false
  apart_lem slug once free = ground (
    arith,
    any-first (has_slug slug) (delete_first (has_id club.id) db.clubs),
    first-count_zero (has_slug slug) (delete_first (has_id club.id) db.clubs),
    count-delete_first (has_id club.id) (has_slug slug) db.clubs club stored,
    once slug,
    count-first-none (has_slug slug) db.clubs,
    sym_lem slug club.slug,
  )

  write_lem :
      (request : ClubSettingsUpdateRequest) (slug : Option String)
      → SlugsUnique db.clubs
      → taken_by_other club db (customized request slug club).slug ≡ false
      → write_settings plain club request slug db ≡ (
        ok (some (customized request slug club)),
        clubs_set (update_first (has_id club.id) (customized request slug) db.clubs) db,
      )
  unfolding write_settings Clubs.update_settings
  write_lem request slug once free =
      ground (arith, apart_lem (customized request slug club).slug once free)

  free_own : taken_by_other club db club.slug ≡ false
  free_own = ground (arith, (eq_iff club.slug club.slug).1 refl)

  pub customized-SlugsUnique :
      (request : ClubSettingsUpdateRequest) (slug : Option String)
      → SlugsUnique db.clubs
      → taken_by_other club db (customized request slug club).slug ≡ false
      → SlugsUnique (update_first (has_id club.id) (customized request slug) db.clubs)
  customized-SlugsUnique request slug once free s =
      let t = (customized request slug club).slug in
      elim (Bool-cases (str_eq t s)) [
        | inl same ↦ rw (sym ((eq_iff t s).0 same)) (
            ground (
              arith,
              count-update_first (has_id club.id) (customized request slug) (has_slug t) db.clubs
                  club stored,
              once t,
              count-first-none (has_slug t) db.clubs,
              sym_lem t club.slug,
            ))
        | inr other ↦ ground (
          arith,
          count-update_first (has_id club.id) (customized request slug) (has_slug s) db.clubs club
              stored,
          once s,
        )
      ]

-- The slug that a request leads to, `some none` where the club keeps its own, and `none` where every
-- slug that was tried is another club's.
abbrev pub new_slug :
    (String → ℕ → String → String)
    → Club
    → ClubSettingsUpdateRequest
    → List String
    → Database
    → Option (Option String)
new_slug slugify club request suffixes db = elim request.name [
  | none ↦ some none
  | some name ↦
      if str_eq name club.name
      then some none
      else elim (first (λ s. not (taken_by_other club db s))
          (candidates slugify name 32 5 "-" suffixes)) [
            | none ↦ none
            | some slug ↦ some (some slug)
          ]
]

module _ (slugify : String → ℕ → String → String) (club : Club) (caller_id : ℕ)
    (request : ClubSettingsUpdateRequest) (suffixes : List String) (db : Database)
    (keys : KeysUnique db.memberships) (once : SlugsUnique db.clubs)
    (stored : first (has_id club.id) db.clubs ≡ some club) where
  pub new_slug-free :
      (slug : Option String)
      → new_slug slugify club request suffixes db ≡ some slug
      → taken_by_other club db (customized request slug club).slug ≡ false
  new_slug-free none e = free_own club db stored
  new_slug-free (some slug) e = elim (Option-cases request.name) [
    | inl unnamed ↦ ground arith
    | inr (name, named) ↦ ground (
      arith,
      first-holds (λ s. not (taken_by_other club db s)) (candidates slugify name 32 5 "-" suffixes)
          slug,
    )
  ]

  written :
      (slug : Option String)
      → new_slug slugify club request suffixes db ≡ some slug
      → write_settings plain club request slug db ≡ (
        ok (some (customized request slug club)),
        clubs_set (update_first (has_id club.id) (customized request slug) db.clubs) db,
      )
  written slug e = write_lem club db stored request slug once (new_slug-free slug e)

  pub settings_plain : update_settings plain slugify club caller_id request suffixes db ≡ (
      if is_staff (status_at club.id caller_id db.memberships)
      then elim (new_slug slugify club request suffixes db) [
        | none ↦ (ok none, db)
        | some slug ↦ (
          ok (some (customized request slug club)),
          clubs_set (update_first (has_id club.id) (customized request slug) db.clubs) db,
        )
      ]
      else (err unauthorized_club_member, db))
  unfolding update_settings get_member_role
  settings_plain = elim (Option-cases request.name) [
    | inl unnamed ↦
        ground (arith, get_role_lem club.id caller_id db keys, written none (rw unnamed refl))
    | inr (name, named) ↦ elim (Option-cases (new_slug slugify club request suffixes db)) [
      | inl taken ↦ ground (
        arith,
        get_role_lem club.id caller_id db keys,
        settings_slug_lem club db slugify suffixes name,
      )
      | inr (slug, e) ↦ ground (
        arith,
        get_role_lem club.id caller_id db keys,
        settings_slug_lem club db slugify suffixes name,
        written slug e,
      )
    ]
  ]
