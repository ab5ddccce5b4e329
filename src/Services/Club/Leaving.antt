-- ===== src/Services/Club/Leaving.antt =====
-- Leaving a club: `leave_club` of src/canterlot/services/club.py.
use canterlot_api.Base.{ℕ, ◌≡◌, refl, Bool, ◌&&◌, not, none, arith}
use canterlot_api.Mongo.{Mongo, IsMongo, plain, eq_plain, delete_first}
use canterlot_api.Types.{role_enum, status_enum}
use canterlot_api.Models.{Club, Database}
use canterlot_api.Effects.{ok, Outcome, Outcome-mono}
use canterlot_api.Repositories.Memberships
use canterlot_api.Repositories.Memberships.{
  has_key, set_status, set_member, status_of_role, memberships_set, promotable_statuses,
}
use canterlot_api.Repositories.Memberships.Roster.{status_at, placed}
use canterlot_api.Repositories.Memberships.Queries.{get_role_lem}
use canterlot_api.Repositories.Memberships.Sound.{IsSound}
use canterlot_api.Services.Club.Roles.{Settings}
use canterlot_api.Services.Club.Moderation.{leave_club}
use canterlot_api.Services.Club.Rules.{may_leave, is_protected, Becomes, deleted-Becomes}

module _ (cfg : Settings) (club : Club) (caller_id now : ℕ) (db : Database) where
  abbrev pub leave_allowed : Bool
  leave_allowed =
      may_leave (status_at club.id caller_id db.memberships)
      && not (is_protected cfg club caller_id now)

  delete_membership_lem :
      Memberships.delete_membership plain club.id caller_id db
      ≡ (ok tt, memberships_set (delete_first (has_key club.id caller_id) db.memberships) db)
  unfolding Memberships.delete_membership
  delete_membership_lem = refl

  leave_club-plain :
      IsSound db
      → Outcome leave_allowed
          (λ _ db'.
            db' ≡ memberships_set (delete_first (has_key club.id caller_id) db.memberships) db)
          db
          (leave_club plain cfg club caller_id now db)
  unfolding leave_club
  leave_club-plain sound =
      ground (arith, get_role_lem club.id caller_id db sound.keys, delete_membership_lem)

-- In a sound database, `leave_club` returns exactly when the caller is an ADMIN or a MEMBER
-- and not a former owner under protection: the OWNER never leaves. It then takes the caller off the
-- roster, leaves every other status and every other collection as it was, and the clubs with one
-- owner each. Where it raises, the database is as it was.
pub leave_club-Outcome :
    (m : Mongo) (laws : IsMongo m) (cfg : Settings) (club : Club) (caller_id now : ℕ)
    (db : Database)
    → IsSound db
    → Outcome
        (leave_allowed cfg club caller_id now db)
        (λ _ db'. Becomes db (placed club.id caller_id none db.memberships) db' × IsSound db')
        db
        (leave_club m cfg club caller_id now db)
leave_club-Outcome m laws cfg club caller_id now db sound = rw (eq_plain m laws) (
    Outcome-mono (leave_allowed cfg club caller_id now db) _ _ db _
      (λ _ db' allowed. deleted-Becomes club.id caller_id db db' sound (ground arith))
      (leave_club-plain cfg club caller_id now db sound))
