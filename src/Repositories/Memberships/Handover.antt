-- ===== src/Repositories/Memberships/Handover.antt =====
-- A change of owner keeps the invariant.
use canterlot_api.Base.{
  ℕ, ◌+◌, ◌≡◌, true, false, ◌&&◌, Option, some, arith, ◌==◌, is_some, if◌then◌else◌, Option-cases,
  inl, inr,
}
use canterlot_api.Mongo.{first}
use canterlot_api.Mongo.Count.{count, first-holds, count-update_first}
use canterlot_api.Types.{MembershipStatus, status_enum}
use canterlot_api.Models.{Database}
use canterlot_api.Repositories.Memberships.{has_key, set_status}
use canterlot_api.Repositories.Memberships.Roster.{status_at}
use canterlot_api.Repositories.Memberships.Queries.{holds_status, restatus}
use canterlot_api.Repositories.Memberships.Sound.{IsSound, owns, is_owner_status}
use canterlot_api.Repositories.Memberships.Writes.{handed, restatus-KeysUnique, status_at-restatus}

owner_in : Option MembershipStatus → ℕ
owner_in s = if holds_status MembershipStatus.owner s then 1 else 0

-- Owners counted through one change of status.
pub count-owns-restatus :
    (club_id user_id : ℕ) (status : MembershipStatus) (db : Database) (k : ℕ)
    → is_some (status_at club_id user_id db.memberships) ≡ true
    → count (owns k) (restatus club_id user_id status db).memberships
        + (if club_id == k && is_owner_status (status_at club_id user_id db.memberships)
            then 1
            else 0)
      ≡ count (owns k) db.memberships
        + (if club_id == k && is_owner_status (some status) then 1 else 0)
count-owns-restatus club_id user_id status db k there =
    elim (Option-cases (first (has_key club_id user_id) db.memberships)) [
      | inl absent ↦ ground arith
      | inr (d, found) ↦ ground (
        arith,
        count-update_first (has_key club_id user_id) (set_status status) (owns k) db.memberships d
            found,
        first-holds (has_key club_id user_id) db.memberships d found,
      )
    ]

pub handed-IsSound :
    (club_id new_owner old_owner : ℕ) (db : Database)
    → IsSound db
    → (old_owner == new_owner) ≡ false
    → is_some (status_at club_id new_owner db.memberships) ≡ true
    → is_owner_status (status_at club_id new_owner db.memberships) ≡ false
    → is_owner_status (status_at club_id old_owner db.memberships) ≡ true
    → IsSound (handed club_id new_owner old_owner db)
handed-IsSound club_id new_owner old_owner db sound apart there other owner =
    let promoted = restatus club_id new_owner MembershipStatus.owner db in
    record {
      keys =
          restatus-KeysUnique club_id old_owner MembershipStatus.admin promoted
            (restatus-KeysUnique club_id new_owner MembershipStatus.owner db sound.keys);
      club_ids = sound.club_ids;
      owners = λ k. ground (
        arith,
        count-owns-restatus club_id new_owner MembershipStatus.owner db k there,
        count-owns-restatus club_id old_owner MembershipStatus.admin promoted k,
        status_at-restatus club_id new_owner MembershipStatus.owner db club_id old_owner there,
        sound.owners k,
      );
    }
