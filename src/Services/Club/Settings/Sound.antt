-- ===== src/Services/Club/Settings/Sound.antt =====
-- A change of settings by `update_settings` of src/canterlot/services/club.py and the invariant of clubs
-- and rosters, with any loaded club.
use Prim.Native.String.{String}
use text.Mathlib.Text.{◌==◌ as str_eq}
use canterlot_api.Base.{
  ℕ, ◌≡◌, ap, Bool-cases, Option, none, some, List, arith, Option-cases, inl, inr, not, ◌⊎◌,
}
use canterlot_api.Mongo.{plain, first, update_first}
use canterlot_api.Mongo.Count.{count, count-update_first, update_first-none}
use canterlot_api.Types.{role_enum, status_enum}
use canterlot_api.Models.{Club, Database}
use canterlot_api.Repositories.Memberships.{has_id, clubs_set}
use canterlot_api.Repositories.Memberships.Sound.{IsSound}
use canterlot_api.Services.Club.Rules.{is_staff}
use canterlot_api.Repositories.Memberships.Roster.{status_at}
use canterlot_api.Repositories.Memberships.Queries.{get_role_lem}
use canterlot_api.Repositories.Clubs
use canterlot_api.Utils.Slugs.Search.{candidates}
use canterlot_api.Services.Club.Roles.{get_member_role}
use canterlot_api.Services.Club.Customizing.{
  ClubSettingsUpdateRequest, customized, write_settings, update_settings,
}
use canterlot_api.Services.Club.Settings.{settings_slug_lem, taken_by_other}

module _ (club : Club) (request : ClubSettingsUpdateRequest) (db : Database) where
  same_ids :
      (slug : Option String) (k : ℕ)
      → count (has_id k) (update_first (has_id club.id) (customized request slug) db.clubs)
        ≡ count (has_id k) db.clubs
  same_ids slug k = elim (Option-cases (first (has_id club.id) db.clubs)) [
    | inl absent ↦
        ap (count (has_id k)) (update_first-none _ (customized request slug) db.clubs absent)
    | inr (c, found) ↦ ground (
      arith,
      count-update_first (has_id club.id) (customized request slug) (has_id k) db.clubs c found,
    )
  ]

  written_or_not :
      (slug : Option String)
      → ((write_settings plain club request slug db).1 ≡ db)
        ⊎ ((write_settings plain club request slug db).1
            ≡ clubs_set (update_first (has_id club.id) (customized request slug) db.clubs) db)
  unfolding write_settings Clubs.update_settings
  written_or_not slug = ground arith

  write-IsSound :
      (slug : Option String) → IsSound db → IsSound ((write_settings plain club request slug db).1)
  write-IsSound slug sound = elim (written_or_not slug) [
    | inl same ↦ rw same sound
    | inr written ↦ rw written (record {
      keys = sound.keys;
      club_ids = λ k. rw (same_ids slug k) (sound.club_ids k);
      owners = λ k. rw (same_ids slug k) (sound.owners k);
    })
  ]

  settled_or_not :
      (slugify : String → ℕ → String → String) (caller_id : ℕ) (suffixes : List String)
      → IsSound db
      → ((update_settings plain slugify club caller_id request suffixes db).1 ≡ db)
        ⊎ ((slug : Option String) × ((update_settings plain slugify club caller_id request suffixes
                db).1
              ≡ (write_settings plain club request slug db).1))
  unfolding update_settings get_member_role
  settled_or_not slugify caller_id suffixes sound =
      let role = get_role_lem club.id caller_id db sound.keys in
      elim (Bool-cases (is_staff (status_at club.id caller_id db.memberships))) [
        | inr refused ↦ inl (ground (arith, role))
        | inl allowed ↦ elim (Option-cases request.name) [
          | inl unnamed ↦ inr (none, ground (arith, role))
          | inr (name, named) ↦ elim (Bool-cases (str_eq name club.name)) [
            | inl same ↦ inr (none, ground (arith, role))
            | inr other ↦
                let slugs = settings_slug_lem club db slugify suffixes name in
                elim (Option-cases (
                  first (λ s. not (taken_by_other club db s))
                    (candidates slugify name 32 5 "-" suffixes))) [
                      | inl taken ↦ inl (ground (arith, role, slugs))
                      | inr (slug, free) ↦ inr (some slug, ground (arith, role, slugs))
                    ]
          ]
        ]
      ]

  pub update_settings-IsSound :
      (slugify : String → ℕ → String → String) (caller_id : ℕ) (suffixes : List String)
      → IsSound db
      → IsSound ((update_settings plain slugify club caller_id request suffixes db).1)
  update_settings-IsSound slugify caller_id suffixes sound =
      elim (settled_or_not slugify caller_id suffixes sound) [
        | inl same ↦ rw same sound
        | inr (slug, same) ↦ rw same (write-IsSound slug sound)
      ]
