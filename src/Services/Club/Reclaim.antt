-- ===== src/Services/Club/Reclaim.antt =====
-- Taking a club back: `reclaim_ownership` of src/canterlot/services/club.py.
use canterlot_api.Base.{
  ℕ, ◌+◌, ◌≤◌, ◌≡◌, refl, Bool, true, false, ◌&&◌, none, some, List, arith, Option-cases,
  Bool-cases, inl, inr, is_id, any, leb, ◌==◌,
}
use canterlot_api.Mongo.{Mongo, IsMongo, plain, eq_plain, first, update_first}
use canterlot_api.Mongo.Count.{
  count, first-holds, first-narrow, first_unique, bit-le-count, count-first-none,
}
use canterlot_api.Types.{MembershipStatus, status_enum}
use canterlot_api.Models.{Club, ClubMembership, Database}
use canterlot_api.Effects.{ok, Outcome, Outcome-mono}
use canterlot_api.Repositories.Memberships
use canterlot_api.Repositories.Memberships.{has_id, has_key, has_status, set_transfer, clubs_set}
use canterlot_api.Repositories.Memberships.Roster.{KeysUnique, status_at}
use canterlot_api.Repositories.Memberships.Queries.{holds_status}
use canterlot_api.Repositories.Memberships.Sound.{IsSound, owns, is_owner_status, clubs-IsSound}
use canterlot_api.Repositories.Memberships.Writes.{
  handed, reclaimable, reclaim_ownership_lem, reclaim_ownership-no_admin,
}
use canterlot_api.Repositories.Memberships.Handover.{handed-IsSound}
use canterlot_api.Services.Club.Roles.{Settings}
use canterlot_api.Services.Club.Ownership.{reclaim_ownership}
use canterlot_api.Services.Club.Transfer.{swapped, status_at-handed}

-- Where there is one owner, the query for the owner finds the user whose status is OWNER.
first-owner :
    (club_id user_id : ℕ) (ds : List ClubMembership)
    → KeysUnique ds
    → count (owns club_id) ds ≤ 1
    → is_owner_status (status_at club_id user_id ds) ≡ true
    → (d : ClubMembership) × (first (owns club_id) ds ≡ some d) × (d.user_id ≡ user_id)
first-owner club_id user_id ds unique le owner =
    elim (Option-cases (first (has_key club_id user_id) ds)) [
      | inl absent ↦ absurd (ground arith)
      | inr (e, found) ↦ elim (Option-cases (first (owns club_id) ds)) [
        | inl none_owns ↦ absurd (
            ground (
              arith,
              count-first-none (owns club_id) ds none_owns,
              bit-le-count (has_key club_id user_id) (owns club_id) ds e found,
              first-holds (has_key club_id user_id) ds e found,
            ))
        | inr (d, owned) ↦ (d, owned, same_user d e found owned)
      ]
    ]
  where
    same_user :
        (d e : ClubMembership)
        → first (has_key club_id user_id) ds ≡ some e
        → first (owns club_id) ds ≡ some d
        → d.user_id ≡ user_id
    same_user d e found owned = ground (
      arith,
      first-holds (has_key club_id user_id) ds e found,
      first-narrow (has_key club_id user_id) (has_status MembershipStatus.owner) ds
          (unique club_id user_id),
      first_unique (owns club_id)
          (λ x. has_key club_id user_id x && has_status MembershipStatus.owner x) ds d e le
          (λ x h. ground arith) owned,
    )

module _ (cfg : Settings) (club : Club) (caller_id owner_id now : ℕ) (db : Database) where
  -- The recorded former owner, an ADMIN by now, takes the club back within the window, and the
  -- stored club still records the caller.
  abbrev pub reclaim_allowed : Bool
  reclaim_allowed =
      is_id club.protected_former_owner_id caller_id
      && ((elim club.ownership_transferred_at [
        | none ↦ false
        | some at ↦ leb now (at + cfg.reclaim_window)
      ])
          && (holds_status MembershipStatus.admin (status_at club.id caller_id db.memberships)
              && any (reclaimable club.id caller_id) db.clubs))

  find_owner_lem :
      IsSound db
      → is_owner_status (status_at club.id owner_id db.memberships) ≡ true
      → Memberships.find_owner_id_by_club_id plain club.id db ≡ (ok (some owner_id), db)
  unfolding Memberships.find_owner_id_by_club_id
  find_owner_lem sound owner =
      let (d, found, named) =
        first-owner club.id owner_id db.memberships sound.keys
          (omega (arith, sound.owners club.id, sound.club_ids club.id)) owner in
      ground arith

  same_status :
      (owner_id == caller_id) ≡ true
      → status_at club.id owner_id db.memberships ≡ status_at club.id caller_id db.memberships
  same_status h = let e : owner_id ≡ caller_id = ground arith in rw e

  apart_of_allowed :
      is_owner_status (status_at club.id owner_id db.memberships) ≡ true
      → reclaim_allowed ≡ true
      → (owner_id == caller_id) ≡ false
  apart_of_allowed owner allowed = elim (Bool-cases (owner_id == caller_id)) [
    | inl same ↦ absurd (ground (arith, same_status same))
    | inr apart ↦ apart
  ]

  reclaim_ownership-plain :
      IsSound db
      → is_owner_status (status_at club.id owner_id db.memberships) ≡ true
      → Outcome reclaim_allowed
          (λ demoted db'.
            (demoted ≡ owner_id)
            × (db'
                ≡ clubs_set
                    (update_first (reclaimable club.id caller_id) (set_transfer none none) db.clubs)
                    (handed club.id caller_id owner_id db)))
          db
          (reclaim_ownership plain cfg club caller_id now db)
  unfolding reclaim_ownership
  reclaim_ownership-plain sound owner = elim (Bool-cases (owner_id == caller_id)) [
    | inl same ↦ ground (
      arith,
      find_owner_lem sound owner,
      same_status same,
      reclaim_ownership-no_admin club.id caller_id owner_id db sound.keys,
    )
    | inr apart ↦ ground (
      arith,
      find_owner_lem sound owner,
      reclaim_ownership_lem club.id caller_id owner_id db sound.keys apart,
    )
  ]

-- In a sound database and with `owner_id` as the OWNER, `reclaim_ownership` returns exactly
-- when the caller is the former owner that the club records and an ADMIN, the window after the
-- recorded transfer has not passed, and the stored club records the caller still. It then returns
-- the owner, makes the caller OWNER and the owner ADMIN, leaves every other status as it was, clears
-- the record of the stored club, and leaves the clubs with one owner each. Where it raises, the
-- database is as it was.
pub reclaim_ownership-Outcome :
    (m : Mongo) (laws : IsMongo m) (cfg : Settings) (club : Club) (caller_id owner_id now : ℕ)
    (db : Database)
    → IsSound db
    → is_owner_status (status_at club.id owner_id db.memberships) ≡ true
    → Outcome
        (reclaim_allowed cfg club caller_id owner_id now db)
        (λ demoted db'.
          (demoted ≡ owner_id)
          × (db'.clubs
              ≡ update_first (reclaimable club.id caller_id) (set_transfer none none) db.clubs)
          × ((c u : ℕ) → status_at c u db'.memberships ≡ swapped club.id caller_id owner_id db c u)
          × IsSound db')
        db
        (reclaim_ownership m cfg club caller_id now db)
reclaim_ownership-Outcome m laws cfg club caller_id owner_id now db sound owner =
    rw (eq_plain m laws) (
      Outcome-mono (reclaim_allowed cfg club caller_id owner_id now db) _ _ db _
        (λ demoted db' allowed (named, e).
          let apart : (owner_id == caller_id) ≡ false =
            apart_of_allowed cfg club caller_id owner_id now db owner allowed in
          rw e (
            named,
            refl,
            λ c u.
                status_at-handed club.id caller_id owner_id db c u apart (ground arith)
                  (ground arith),
            clubs-IsSound (handed club.id caller_id owner_id db)
                (handed-IsSound club.id caller_id owner_id db sound apart (ground arith)
                  (ground arith) owner)
                (reclaimable club.id caller_id) (set_transfer none none) (λ c. refl),
          ))
        (reclaim_ownership-plain cfg club caller_id owner_id now db sound owner))
