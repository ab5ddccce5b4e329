-- ===== src/Services/Club/Customizing.antt =====
-- The settings of a club: `update_settings` of src/canterlot/services/club.py.
use Prim.Native.String.{String}
use text.Mathlib.Text.{◌==◌ as str_eq}
use canterlot_api.Base.{ℕ, Bool, false, ◌||◌, not, Option, none, some, List, is_some, if◌then◌else◌}
use canterlot_api.Mongo.{Mongo}
use canterlot_api.Types.{JoinPolicy}
use canterlot_api.Models.{Club}
use canterlot_api.Effects.{
  Action, ◌>>=◌, ◌>>◌, pure, raise_if, unauthorized_club_member, club_not_found,
}
use canterlot_api.Repositories.Clubs
use canterlot_api.Repositories.Clubs.{settings_set}
use canterlot_api.Utils.Slugs.{make_slug}
use canterlot_api.Services.Club.Roles.{get_member_role, is_privileged}

pub record ClubSettingsUpdateRequest : Type 0 where
  pub name : Option String
  pub description : Option String
  pub join_policy : Option JoinPolicy
  pub allow_suggestions : Option Bool
  pub preferred_languages : Option (List String)

-- The request's validator; an empty request never reaches the service.
abbrev pub check_at_least_one_field_provided : ClubSettingsUpdateRequest → Bool
check_at_least_one_field_provided request =
    is_some request.name
    || is_some request.description
    || is_some request.join_policy
    || is_some request.allow_suggestions
    || is_some request.preferred_languages

-- The club with the fields that the request names, and a new slug if there is one.
abbrev pub customized : ClubSettingsUpdateRequest → Option String → Club → Club
customized request slug =
    settings_set request.name slug request.description request.join_policy request.allow_suggestions
      request.preferred_languages

module _ (m : Mongo) where
  -- `_is_slug_taken`
  unfoldable pub is_slug_taken : Club → String → Action Bool
  is_slug_taken club candidate =
      if str_eq candidate club.slug then pure false else Clubs.exists_by_club_slug m candidate

  -- The write and what follows it, once the slug is known.
  unfoldable pub write_settings :
      Club → ClubSettingsUpdateRequest → Option String → Action (Option Club)
  write_settings club request new_slug = do
    changed ←
        Clubs.update_settings m club.id request.name new_slug request.description
          request.join_policy request.allow_suggestions request.preferred_languages
    raise_if (not changed) club_not_found
    pure (some (customized request new_slug club))

module _ (m : Mongo) (slugify : String → ℕ → String → String) where
  -- `none` means that `make_slug` has not ended.
  unfoldable pub update_settings :
      Club → ℕ → ClubSettingsUpdateRequest → List String → Action (Option Club)
  unfolding write_settings is_slug_taken
  update_settings club caller_id request suffixes = do
    caller_role ← get_member_role m club.id caller_id
    raise_if (not (is_privileged caller_role)) unauthorized_club_member
    elim request.name [
      | none ↦ write_settings m club request none
      | some name ↦
          if str_eq name club.name
          then write_settings m club request none
          else make_slug slugify name (is_slug_taken m club) 32 5 "-" suffixes >>= λ made.
              elim made [ none ↦ pure none | some slug ↦ write_settings m club request (some slug) ]
    ]
