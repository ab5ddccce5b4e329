-- ===== src/Emails/Policy.antt =====
-- src/canterlot/emails/core/policy.py: which emails are delivered. Of the cache, the reads are modelled: a
-- dictionary of texts by a key, as src/canterlot/repositories/redis/repository.py gives it.
use Prim.Native.String.{String}
use Prim.Native.String.{◌++◌ as joined}
use text.Mathlib.Text.{◌==◌ as str_eq}
use canterlot_api.Base.{
  ℕ, ◌==◌, Bool, true, false, ◌&&◌, not, Option, none, some, List, [], ◌∷◌, map, any, is_some,
  is_empty, if◌then◌else◌,
}
use canterlot_api.Types.{EmailCategory, ◌is◌, category_enum}
use canterlot_api.Models.{EmailPreferences}

pub data EmailPriority : Type 0 where
  high default low : EmailPriority

-- `EmailTaskPayload` of src/canterlot/emails/core/definitions.py, with what the policy and the queue
-- read of its template; `context` is the rest.
pub record EmailTask : Type 0 where
  pub category : EmailCategory
  pub priority : EmailPriority
  pub to : String
  pub club_id : Option ℕ
  pub context : String

abbrev pub Fields : Type 0
Fields = List (String × String)

-- What is stored under a key, `none` for nothing.
abbrev pub Cache : Type 0
Cache = String → Option Fields

-- `dict.get`
abbrev pub field : String → Fields → Option String
field key [] = none
field key ((k, v) ∷ rest) = if str_eq k key then some v else field key rest

-- `find_many`
abbrev pub find_many : Cache → List String → List (Option Fields)
find_many cache = map cache

-- `EXTERNAL_SUPPRESSION_TEMPLATE` of src/canterlot/constants.py
abbrev pub external_suppression : String → String
external_suppression email = joined "suppression:external:" email

abbrev pub is_block : Option Fields → Bool
is_block none = false
is_block (some block) = elim (field "suppressed" block) [ none ↦ false | some v ↦ str_eq v "1" ]

abbrev pub is_external_suppressed : String → Cache → Bool
is_external_suppressed email cache = is_block (cache (external_suppression email))

-- The loop over `zip(emails, results)`.
abbrev pub suppressed_of : List String → List (Option Fields) → List String
suppressed_of [] results = []
suppressed_of (email ∷ emails) [] = []
suppressed_of (email ∷ emails) (block ∷ results) =
    let rest = suppressed_of emails results in if is_block block then email ∷ rest else rest

abbrev pub check_external_suppressions : List String → Cache → List String
check_external_suppressions emails cache =
    if is_empty emails
    then []
    else suppressed_of emails (find_many cache (map external_suppression emails))

-- `category in dictionary`, and the same of a club that is given
abbrev pub has_category : EmailCategory → List (EmailCategory × ℕ) → Bool
has_category category = any (λ (entry : EmailCategory × ℕ). entry.0 is category)

abbrev pub has_club : Option ℕ → List (ℕ × ℕ) → Bool
has_club none clubs = false
has_club (some club_id) clubs = any (λ (entry : ℕ × ℕ). entry.0 == club_id) clubs

abbrev pub is_delivery_allowed : EmailTask → EmailPreferences → Bool
is_delivery_allowed task preferences =
    if has_category task.category preferences.categories_system_suppressed
    then false
    else if has_category task.category preferences.categories_opt_out
    then false
    else if task.category is EmailCategory.engagement
        && has_club task.club_id preferences.clubs_opt_out
    then false
    else if not (is_some preferences.verified_at)
        && not (task.category is EmailCategory.transactional)
    then false
    else true
