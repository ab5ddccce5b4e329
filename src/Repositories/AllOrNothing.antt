-- ===== src/Repositories/AllOrNothing.antt =====
-- The methods of src/canterlot/repositories/beanie/ under `@transactional` that write a club, a
-- transfer and its reversal: club.py and club_membership.py.
use canterlot_api.Base.{ℕ, ◌≡◌, Bool, true, false, none, some, [], ◌∷◌, ◌++◌, ◌⊎◌}
use canterlot_api.Mongo.{Mongo}
use canterlot_api.Types.{MembershipStatus, status_enum, round_status_enum}
use canterlot_api.Models.{Club, ClubMembership, Database}
use canterlot_api.Effects.{Result, ok, err, duplicate_key}
use canterlot_api.Repositories.Memberships
use canterlot_api.Repositories.Clubs

abbrev seat_of_owner : Club → ℕ → ℕ → ClubMembership
seat_of_owner club owner_id joined_at = record {
  club_id = club.id;
  user_id = owner_id;
  status = MembershipStatus.owner;
  joined_at = some joined_at;
  requested_at = none;
}

-- The club and its owner are both there, or neither.
abbrev pub SavedOrNot : Club → ℕ → ℕ → Database → Result Club × Database → Type 0
SavedOrNot club owner_id joined_at db r =
    (r ≡ (
      ok club,
      record db {
        clubs = db.clubs ++ club ∷ [];
        memberships = db.memberships ++ seat_of_owner club owner_id joined_at ∷ [];
      },
    ))
    ⊎ (r ≡ (err duplicate_key, db))

-- The answer is yes, or there was no write.
abbrev pub DoneOrNot : Database → Result Bool × Database → Type 0
DoneOrNot db r = (r.0 ≡ ok true) ⊎ (r ≡ (ok false, db))
