-- ===== src/Services/Catalog/Removal.antt =====
-- `remove_book_from_club` of src/canterlot/services/catalog.py.
use canterlot_api.Base.{ℕ, ◌≤◌, ◌==◌, ◌≡◌, refl, Bool, false, ◌&&◌, ◌||◌, not, none, some, arith}
use canterlot_api.Mongo.{Mongo, IsMongo, plain, eq_plain, first, delete_first}
use canterlot_api.Mongo.Count.{count, first-delete_first, first-delete_first_other}
use canterlot_api.Models.{Database}
use canterlot_api.Effects.{Outcome, Outcome-mono}
use canterlot_api.Repositories.Memberships.Roster.{KeysUnique, status_at}
use canterlot_api.Repositories.Memberships.Queries.{get_role_lem}
use canterlot_api.Repositories.Catalog
use canterlot_api.Repositories.Catalog.{is_entry, catalog_set}
use canterlot_api.Repositories.Rounds
use canterlot_api.Repositories.Rounds.{is_active_of}
use canterlot_api.Services.Club.Rules.{is_staff}
use canterlot_api.Services.Catalog.{is_locked_by_round, remove_book_from_club}

-- Staff remove any book, and the member who suggested it, unless the active round holds it.
abbrev pub may_remove_book : ℕ → ℕ → ℕ → Database → Bool
may_remove_book club_id book_id user_id db = elim (first (is_entry club_id book_id) db.catalog) [
  | none ↦ false
  | some entry ↦
      (is_staff (status_at club_id user_id db.memberships) || entry.suggested_by == user_id)
      && not (is_locked_by_round (first (is_active_of club_id) db.rounds) book_id)
]

remove_plain :
    (club_id book_id user_id : ℕ) (db : Database)
    → KeysUnique db.memberships
    → Outcome
        (may_remove_book club_id book_id user_id db)
        (λ done db'. db' ≡ catalog_set (delete_first (is_entry club_id book_id) db.catalog) db)
        db
        (remove_book_from_club plain club_id book_id user_id db)
unfolding remove_book_from_club Catalog.find_by_club_id_and_book_id
    Catalog.delete_by_club_id_and_book_id Rounds.find_active_by_club_id
remove_plain club_id book_id user_id db keys = ground (arith, get_role_lem club_id user_id db keys)

-- With unique keys of the roster and one entry at most of each book in a club's catalog,
-- `remove_book_from_club` returns exactly if the book is in the club's catalog, the caller is OWNER or
-- ADMIN of the club or has suggested it, and the club's active round neither is on this book nor has it
-- in its pool. The book is then not in this catalog any more, every other book of this and of the
-- other clubs is as it was, and nothing but the catalog changes. Where it raises, nothing changes.
pub remove_book_from_club-Outcome :
    (m : Mongo) (laws : IsMongo m) (club_id book_id user_id : ℕ) (db : Database)
    → KeysUnique db.memberships
    → count (is_entry club_id book_id) db.catalog ≤ 1
    → Outcome
        (may_remove_book club_id book_id user_id db)
        (λ done db'.
          (first (is_entry club_id book_id) db'.catalog ≡ none)
          × ((c b : ℕ)
              → (c == club_id && b == book_id) ≡ false
              → first (is_entry c b) db'.catalog ≡ first (is_entry c b) db.catalog)
          × (db' ≡ catalog_set db'.catalog db))
        db
        (remove_book_from_club m club_id book_id user_id db)
remove_book_from_club-Outcome m laws club_id book_id user_id db keys once = rw (eq_plain m laws) (
    Outcome-mono _ _ _ db _
      (λ done db' allowed e. rw e (
        first-delete_first (is_entry club_id book_id) db.catalog once,
        λ c b other.
            first-delete_first_other (is_entry club_id book_id) (is_entry c b) db.catalog
              (λ d h. ground arith),
        refl,
      ))
      (remove_plain club_id book_id user_id db keys))
