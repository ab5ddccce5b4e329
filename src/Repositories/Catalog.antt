-- ===== src/Repositories/Catalog.antt =====
-- src/canterlot/repositories/beanie/catalog.py, without its pages, and `find_majority_excluded_book_ids` of
-- round_completion.py beside it.
use canterlot_api.Base.{
  distinct, ℕ, ◌*◌, Bool, true, false, Option, none, some, List, [], ◌∷◌, map, ◌&&◌, not, ltb, ◌==◌,
  elem, length, if◌then◌else◌,
}
use canterlot_api.Mongo.{Mongo, matching, first}
use canterlot_api.Models.{CatalogEntry, RoundCompletion, Database}
use canterlot_api.Effects.{Action, ◌>>=◌, ◌>>◌, pure, gets, modify}

abbrev pub is_entry : ℕ → ℕ → CatalogEntry → Bool
is_entry club_id book_id e = e.club_id == club_id && e.book_id == book_id

-- the unique index on `club_id` and `book_id`
abbrev same_entry : CatalogEntry → CatalogEntry → Bool
same_entry e d = is_entry e.club_id e.book_id d

abbrev pub catalog_set : List CatalogEntry → Database → Database
catalog_set es db = record db { catalog = es }

abbrev pub of_round : ℕ → RoundCompletion → Bool
of_round round_id c = c.round_id == round_id

-- The stages of the pipeline. A group of a round has the book of its first document; it is kept if
-- the current members in it are more than half of it.
abbrev pub is_majority : List ℕ → List RoundCompletion → Bool
is_majority current_member_ids cs =
    ltb (length cs) (2 * length (matching (λ c. elem c.user_id current_member_ids) cs))

abbrev pub majority_books : List ℕ → List RoundCompletion → List ℕ → List ℕ
majority_books current_member_ids cs [] = []
majority_books current_member_ids cs (round_id ∷ round_ids) =
    let rest = majority_books current_member_ids cs round_ids in
    if is_majority current_member_ids (matching (of_round round_id) cs)
    then elim (first (of_round round_id) cs) [ none ↦ rest | some c ↦ c.book_id ∷ rest ]
    else rest

module _ (m : Mongo) where
  unfoldable pub find_by_club_id_and_book_id : ℕ → ℕ → Action (Option CatalogEntry)
  find_by_club_id_and_book_id club_id book_id =
      gets (λ db. m.find_one (is_entry club_id book_id) db.catalog)

  unfoldable pub find_by_club_id_excluding_book_ids : ℕ → List ℕ → Action (List CatalogEntry)
  find_by_club_id_excluding_book_ids club_id excluded_book_ids = gets (λ db.
      m.find (λ e. e.club_id == club_id && not (elem e.book_id excluded_book_ids)) db.catalog)

  unfoldable pub find_by_club_id_and_book_ids : ℕ → List ℕ → Action (List CatalogEntry)
  find_by_club_id_and_book_ids club_id book_ids =
      gets (λ db. m.find (λ e. e.club_id == club_id && elem e.book_id book_ids) db.catalog)

  unfoldable pub add : CatalogEntry → Action Bool
  add entry = do
    written ← gets (λ db. m.insert same_entry entry db.catalog)
    elim written [ none ↦ pure false | some es ↦ modify (catalog_set es) >> pure true ]

  unfoldable pub delete_by_club_id_and_book_id : ℕ → ℕ → Action Unit
  delete_by_club_id_and_book_id club_id book_id =
      modify (λ db. catalog_set (m.delete_one (is_entry club_id book_id) db.catalog) db)

  unfoldable pub find_majority_excluded_book_ids : ℕ → List ℕ → Action (List ℕ)
  find_majority_excluded_book_ids club_id current_member_ids = gets (λ db.
      let cs = m.find (λ (c : RoundCompletion). c.club_id == club_id) db.completions in
      distinct (majority_books current_member_ids cs (distinct (map (λ c. c.round_id) cs))))
