-- ===== src/Services/Club/Transfer.antt =====
-- Handing a club over: `transfer_ownership` of src/canterlot/services/club.py.
use Prim.Native.String.{String}
use text.Mathlib.Text.{◌==◌ as str_eq}
use canterlot_api.Base.{
  ℕ, ◌+◌, ◌≡◌, refl, Bool, true, false, ◌&&◌, ◌||◌, not, Option, some, arith, is_some, is_id, any,
  ◌==◌, if◌then◌else◌,
}
use canterlot_api.Mongo.{Mongo, IsMongo, plain, eq_plain, first, update_first}
use canterlot_api.Types.{MembershipStatus, role_enum, status_enum}
use canterlot_api.Models.{Club, User, Database}
use canterlot_api.Effects.{ok, Outcome, Outcome-mono}
use canterlot_api.Repositories.Memberships.{has_id, set_transfer}
use canterlot_api.Repositories.Memberships.Roster.{status_at, placed}
use canterlot_api.Repositories.Memberships.Queries.{get_role_lem, holds_status, restatus}
use canterlot_api.Repositories.Memberships.Sound.{IsSound, clubs-IsSound}
use canterlot_api.Repositories.Memberships.Writes.{
  handed, stamped, transfer_ownership_lem, status_at-restatus,
}
use canterlot_api.Repositories.Memberships.Handover.{handed-IsSound}
use canterlot_api.Repositories.Users
use canterlot_api.Services.Club.Roles.{Settings, is_within}
use canterlot_api.Services.Club.Ownership.{transfer_ownership}
use canterlot_api.Services.Club.Rules.{may_leave}

module _ (cfg : Settings) (club : Club) (owner_id : ℕ) (username : String) (target : User) (now : ℕ)
    (db : Database) where
  -- The OWNER hands over to an ADMIN or a MEMBER, to the former owner at any time and to any other
  -- after the cooldown, and the club is still stored.
  abbrev pub transfer_allowed : Bool
  transfer_allowed =
      not (target.id == owner_id)
      && (holds_status MembershipStatus.owner (status_at club.id owner_id db.memberships)
          && (may_leave (status_at club.id target.id db.memberships)
              && ((is_id club.protected_former_owner_id target.id
                    || not (is_within cfg.transfer_cooldown club.ownership_transferred_at now))
                  && any (has_id club.id) db.clubs)))

  find_id_by_username_lem :
      first (λ u. str_eq u.username username) db.users ≡ some target
      → Users.find_id_by_username plain username db ≡ (ok (some target.id), db)
  unfolding Users.find_id_by_username
  find_id_by_username_lem named = ground arith

  transfer_ownership-plain :
      IsSound db
      → first (λ u. str_eq u.username username) db.users ≡ some target
      → Outcome transfer_allowed
          (λ deadline db'.
            (deadline ≡ now + cfg.reclaim_window)
            × (db'
                ≡ stamped club.id
                    (some now)
                    (some owner_id)
                    (handed club.id target.id owner_id db)))
          db
          (transfer_ownership plain cfg club owner_id username now db)
  unfolding transfer_ownership
  transfer_ownership-plain sound named = ground (
    arith,
    find_id_by_username_lem named,
    get_role_lem club.id owner_id db sound.keys,
    get_role_lem club.id target.id db sound.keys,
    transfer_ownership_lem club.id target.id owner_id db sound.keys now,
  )

-- The roster after a change of owner.
abbrev pub swapped : ℕ → ℕ → ℕ → Database → ℕ → ℕ → Option MembershipStatus
swapped club_id new_owner old_owner db c u =
    if c == club_id && u == old_owner
    then some MembershipStatus.admin
    else placed club_id new_owner (some MembershipStatus.owner) db.memberships c u

pub status_at-handed :
    (club_id new_owner old_owner : ℕ) (db : Database) (c u : ℕ)
    → (old_owner == new_owner) ≡ false
    → is_some (status_at club_id new_owner db.memberships) ≡ true
    → is_some (status_at club_id old_owner db.memberships) ≡ true
    → status_at c u (handed club_id new_owner old_owner db).memberships
      ≡ swapped club_id new_owner old_owner db c u
status_at-handed club_id new_owner old_owner db c u apart there was =
    let promoted = restatus club_id new_owner MembershipStatus.owner db in
    ground (
      arith,
      status_at-restatus club_id old_owner MembershipStatus.admin promoted c u,
      status_at-restatus club_id new_owner MembershipStatus.owner db c u there,
      status_at-restatus club_id new_owner MembershipStatus.owner db club_id old_owner there,
    )

-- In a sound database and for a username that names `target`, `transfer_ownership` returns
-- exactly when the caller is the OWNER, the target another ADMIN or MEMBER who is the recorded former
-- owner or to whom no cooldown applies, and the club is stored. It then returns the end of the
-- reclaim window, makes the target OWNER and the caller ADMIN, leaves every other status as it was,
-- stamps the stored club with the moment and with the caller as former owner, and leaves the clubs
-- with one owner each. Where it raises, the database is as it was.
pub transfer_ownership-Outcome :
    (m : Mongo) (laws : IsMongo m) (cfg : Settings) (club : Club) (owner_id : ℕ) (username : String)
    (target : User) (now : ℕ) (db : Database)
    → IsSound db
    → first (λ u. str_eq u.username username) db.users ≡ some target
    → Outcome
        (transfer_allowed cfg club owner_id username target now db)
        (λ deadline db'.
          (deadline ≡ now + cfg.reclaim_window)
          × (db'.clubs
              ≡ update_first (has_id club.id) (set_transfer (some now) (some owner_id)) db.clubs)
          × ((c u : ℕ) → status_at c u db'.memberships ≡ swapped club.id target.id owner_id db c u)
          × IsSound db')
        db
        (transfer_ownership m cfg club owner_id username now db)
transfer_ownership-Outcome m laws cfg club owner_id username target now db sound named =
    rw (eq_plain m laws) (
      Outcome-mono (transfer_allowed cfg club owner_id username target now db) _ _ db _
        (λ deadline db' allowed (on_time, e).
          let handed_over = handed club.id target.id owner_id db in
          rw e (
            on_time,
            refl,
            λ c u.
                status_at-handed club.id target.id owner_id db c u (ground arith) (ground arith)
                  (ground arith),
            clubs-IsSound handed_over
                (handed-IsSound club.id target.id owner_id db sound (ground arith) (ground arith)
                  (ground arith) (ground arith))
                (has_id club.id) (set_transfer (some now) (some owner_id)) (λ c. refl),
          ))
        (transfer_ownership-plain cfg club owner_id username target now db sound named))
