-- ===== src/Repositories/Clubs.antt =====
-- src/canterlot/repositories/beanie/club.py
use Prim.Native.String.{String}
use text.Mathlib.Text.{◌==◌ as str_eq}
use canterlot_api.Base.{ℕ, Bool, Option, none, some, List, ◌==◌, is_some, ◌||◌, ltb}
use canterlot_api.Mongo.{Mongo}
use canterlot_api.Types.{MembershipStatus, JoinPolicy}
use canterlot_api.Models.{Club, CatalogEntry}
use canterlot_api.Effects.{
  club_not_found, duplicate_key, Action, ◌>>=◌, ◌>>◌, pure, raise, gets, modify, some_or_raise,
}
use canterlot_api.Hoodie.Transactions.{transactional}
use canterlot_api.Repositories.Memberships.{same_member, in_club, has_id, clubs_set}

-- the unique index on `slug`; ids are unique too
abbrev same_club : Club → Club → Bool
same_club c d = d.id == c.id || str_eq d.slug c.slug

abbrev pub in_catalog_of : ℕ → CatalogEntry → Bool
in_catalog_of club_id entry = entry.club_id == club_id

-- The index on `slug` alone, for an update that keeps the id.
abbrev pub same_slug : Club → Club → Bool
same_slug c d = str_eq d.slug c.slug

-- `$set` with the values that are not None.
abbrev pub settings_set :
    Option String
    → Option String
    → Option String
    → Option JoinPolicy
    → Option Bool
    → Option (List String)
    → Club
    → Club
settings_set name slug description join_policy allow_suggestions preferred_languages c = record c {
  name = elim name [ none ↦ c.name | some x ↦ x ];
  slug = elim slug [ none ↦ c.slug | some x ↦ x ];
  description = elim description [ none ↦ c.description | some x ↦ some x ];
  join_policy = elim join_policy [ none ↦ c.join_policy | some x ↦ x ];
  allow_suggestions = elim allow_suggestions [ none ↦ c.allow_suggestions | some x ↦ x ];
  preferred_languages = elim preferred_languages [ none ↦ c.preferred_languages | some x ↦ x ];
}

module _ (m : Mongo) where
  unfoldable pub find_by_id : ℕ → Action (Option Club)
  find_by_id club_id = gets (λ db. m.find_one (λ c. c.id == club_id) db.clubs)

  unfoldable pub find_club_name_by_id : ℕ → Action (Option String)
  unfolding find_by_id
  find_club_name_by_id club_id = do
    projection ← find_by_id club_id
    elim projection [ none ↦ pure none | some c ↦ pure (some c.name) ]

  unfoldable pub get_preferred_languages_by_id : ℕ → Action (List String)
  unfolding find_by_id
  get_preferred_languages_by_id club_id = do
    projection ← find_by_id club_id
    elim projection [ none ↦ raise club_not_found | some c ↦ pure c.preferred_languages ]

  unfoldable pub find_by_slug : String → Action (Option Club)
  find_by_slug slug = gets (λ db. m.find_one (λ c. str_eq c.slug slug) db.clubs)

  unfoldable pub exists_by_club_slug : String → Action Bool
  exists_by_club_slug slug = gets (λ db. is_some (m.find_one (λ c. str_eq c.slug slug) db.clubs))

  unfoldable pub is_suggestions_allowed : ℕ → Action Bool
  unfolding find_by_id
  is_suggestions_allowed club_id = do
    projection ← find_by_id club_id
    elim projection [ none ↦ pure Bool.false | some c ↦ pure c.allow_suggestions ]

  save_body : Club → ℕ → ℕ → Action Club
  save_body club owner_id joined_at = do
    clubs ← gets (λ db. m.insert same_club club db.clubs)
    cs ← some_or_raise clubs duplicate_key
    modify (λ db. record db { clubs = cs })
    memberships ← gets (λ db.
        m.insert same_member
          (record {
            club_id = club.id;
            user_id = owner_id;
            status = MembershipStatus.owner;
            joined_at = some joined_at;
            requested_at = none;
          })
          db.memberships)
    ds ← some_or_raise memberships duplicate_key
    modify (λ db. record db { memberships = ds })
    pure club

  -- The id is the one that the driver gives to the inserted club.
  unfoldable pub save_new_club_with_owner : Club → ℕ → ℕ → Action Club
  unfolding save_body transactional
  save_new_club_with_owner club owner_id joined_at =
      transactional m none Bool.false (save_body club owner_id joined_at)

  unfoldable pub update_settings :
      ℕ
      → Option String
      → Option String
      → Option String
      → Option JoinPolicy
      → Option Bool
      → Option (List String)
      → Action Bool
  update_settings club_id name slug description join_policy allow_suggestions preferred_languages =
      do
        written ← gets (λ db.
            m.update_unique same_slug (has_id club_id)
              (settings_set name slug description join_policy allow_suggestions preferred_languages)
              db.clubs)
        (cs, matched) ← some_or_raise written duplicate_key
        modify (clubs_set cs)
        pure (ltb 0 matched)

  unfoldable pub delete_with_memberships_and_catalog : ℕ → Action Unit
  unfolding transactional
  delete_with_memberships_and_catalog club_id = transactional m none Bool.false do
    modify (λ db. record db { clubs = m.delete_one (λ c. c.id == club_id) db.clubs })
    modify (λ db. record db { memberships = m.delete_many (in_club club_id) db.memberships })
    modify (λ db. record db { catalog = m.delete_many (in_catalog_of club_id) db.catalog })
