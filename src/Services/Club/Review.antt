-- ===== src/Services/Club/Review.antt =====
-- Reviewing a join request: `review_pending_request` of src/canterlot/services/club.py.
use canterlot_api.Base.{ℕ, ◌≡◌, refl, Bool, true, false, ◌&&◌, none, some, arith, if◌then◌else◌}
use canterlot_api.Mongo.{Mongo, IsMongo, plain, eq_plain, update_first, delete_first}
use canterlot_api.Types.{MemberRole, MembershipStatus, role_enum, status_enum}
use canterlot_api.Models.{Database}
use canterlot_api.Effects.{ok, Outcome, Outcome-mono}
use canterlot_api.Repositories.Memberships
use canterlot_api.Repositories.Memberships.{
  has_key, set_status, set_member, status_of_role, memberships_set, promotable_statuses,
}
use canterlot_api.Repositories.Memberships.Roster.{status_at, placed}
use canterlot_api.Repositories.Memberships.Queries.{get_role_lem, exists_pending_lem}
use canterlot_api.Repositories.Memberships.Sound.{IsSound}
use canterlot_api.Repositories.Memberships.Writes.{upsert_member_lem}
use canterlot_api.Services.Club.Admission.{review_pending_request}
use canterlot_api.Services.Club.Rules.{
  is_staff, is_waiting, Becomes, deleted-Becomes, seated-Becomes,
}

module _ (club_id reviewer_id target_id : ℕ) (approve : Bool) (now : ℕ) (db : Database) where
  abbrev pub review_allowed : Bool
  review_allowed =
      is_staff (status_at club_id reviewer_id db.memberships)
      && is_waiting (status_at club_id target_id db.memberships)

  abbrev reviewed : Bool → Database
  reviewed true =
      memberships_set
        (update_first (has_key club_id target_id) (set_member MembershipStatus.member now)
          db.memberships)
        db
  reviewed false = memberships_set (delete_first (has_key club_id target_id) db.memberships) db

  delete_membership_lem :
      Memberships.delete_membership plain club_id target_id db ≡ (ok tt, reviewed false)
  unfolding Memberships.delete_membership
  delete_membership_lem = refl

  review_plain :
      IsSound db
      → Outcome review_allowed
          (λ _ db'. db' ≡ reviewed approve)
          db
          (review_pending_request plain club_id reviewer_id target_id approve now db)
  unfolding review_pending_request
  review_plain sound = ground (
    arith,
    get_role_lem club_id reviewer_id db sound.keys,
    exists_pending_lem club_id target_id db sound.keys,
    upsert_member_lem club_id target_id now db MemberRole.member,
    delete_membership_lem,
  )

-- In a sound database, `review_pending_request` returns exactly when the reviewer is OWNER or
-- ADMIN and the target is PENDING. It then makes the target a MEMBER, or takes the target off the
-- roster, leaves every other status and every other collection as it was, and the clubs with one
-- owner each. Where it raises, the database is as it was.
pub review_pending_request-Outcome :
    (m : Mongo) (laws : IsMongo m) (club_id reviewer_id target_id : ℕ) (approve : Bool) (now : ℕ)
    (db : Database)
    → IsSound db
    → Outcome
        (review_allowed club_id reviewer_id target_id approve now db)
        (λ _ db'.
          Becomes db
            (placed club_id target_id
              (if approve then some MembershipStatus.member else none)
              db.memberships)
            db'
          × IsSound db')
        db
        (review_pending_request m club_id reviewer_id target_id approve now db)
review_pending_request-Outcome m laws club_id reviewer_id target_id approve now db sound =
    rw (eq_plain m laws) (
      Outcome-mono (review_allowed club_id reviewer_id target_id approve now db) _ _ db _
        (λ _ db' allowed e. done approve db' allowed e)
        (review_plain club_id reviewer_id target_id approve now db sound))
  where
    done :
        (a : Bool) (db' : Database)
        → review_allowed club_id reviewer_id target_id approve now db ≡ true
        → db' ≡ reviewed club_id reviewer_id target_id approve now db a
        → Becomes db
            (placed club_id target_id
              (if a then some MembershipStatus.member else none)
              db.memberships)
            db'
          × IsSound db'
    done true db' allowed e =
        seated-Becomes club_id target_id now db db' sound (ground arith) (ground arith) e
    done false db' allowed e = deleted-Becomes club_id target_id db db' sound (ground arith) e
