-- ===== src/Services/Club/Creation.antt =====
-- Founding a club: `create_new_club` of src/canterlot/services/club.py.
use Prim.Native.String.{String}
use text.Mathlib.Text.{◌==◌ as str_eq}
use canterlot_api.Base.{ℕ, Bool, true, Option, none, some, List}
use canterlot_api.Mongo.{Mongo}
use canterlot_api.Types.{JoinPolicy}
use canterlot_api.Models.{Club}
use canterlot_api.Effects.{Action, ◌>>=◌, ◌>>◌, pure, raise_if, validation_error}
use canterlot_api.Repositories.Clubs
use canterlot_api.Utils.Slugs.{make_slug}

pub record ClubCreateRequest : Type 0 where
  pub name : String
  pub description : Option String
  pub join_policy : JoinPolicy
  pub preferred_languages : List String

-- The call of `ClubModel`, with the id that the driver gives.
abbrev pub new_club : ℕ → ClubCreateRequest → String → Club
new_club club_id request slug = record {
  id = club_id;
  name = request.name;
  description = request.description;
  slug = slug;
  join_policy = request.join_policy;
  allow_suggestions = true;
  preferred_languages = request.preferred_languages;
  ownership_transferred_at = none;
  protected_former_owner_id = none;
}

-- The validation of `slug` by `ClubModel`, of a `ClubSlugStr` of src/canterlot/types.py: it raises for
-- an empty text. What slugify gives has no blanks at its ends and is no longer than it is asked to be,
-- so that the other constraints hold.
abbrev pub is_empty_slug : String → Bool
is_empty_slug slug = str_eq slug ""

module _ (m : Mongo) (slugify : String → ℕ → String → String) where
  -- `none` means that `make_slug` has not ended.
  unfoldable pub create_new_club :
      ℕ → ClubCreateRequest → ℕ → List String → ℕ → Action (Option Club)
  create_new_club creator_id request club_id suffixes now = do
    made ← make_slug slugify request.name (Clubs.exists_by_club_slug m) 32 5 "-" suffixes
    elim made [
      | none ↦ pure none
      | some slug ↦
          raise_if (is_empty_slug slug) validation_error
          >> (Clubs.save_new_club_with_owner m (new_club club_id request slug) creator_id now
              >>= λ saved. pure (some saved))
    ]
