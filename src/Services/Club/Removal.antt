-- ===== src/Services/Club/Removal.antt =====
-- Removing a member: `remove_member` of src/canterlot/services/club.py.
use canterlot_api.Base.{ℕ, ◌≡◌, refl, Bool, ◌&&◌, not, some, arith}
use canterlot_api.Mongo.{Mongo, IsMongo, plain, eq_plain}
use canterlot_api.Types.{MembershipStatus, role_enum, status_enum}
use canterlot_api.Models.{Club, Database}
use canterlot_api.Effects.{ok, Outcome, Outcome-mono}
use canterlot_api.Repositories.Memberships
use canterlot_api.Repositories.Memberships.{has_key, set_status}
use canterlot_api.Repositories.Memberships.Roster.{status_at, placed}
use canterlot_api.Repositories.Memberships.Queries.{get_role_lem, restatus}
use canterlot_api.Repositories.Memberships.Sound.{IsSound}
use canterlot_api.Services.Club.Roles.{Settings}
use canterlot_api.Services.Club.Moderation.{remove_member}
use canterlot_api.Services.Club.Rules.{may_remove, is_protected, Becomes, restatus-Becomes}

module _ (cfg : Settings) (club : Club) (remover_id target_id now : ℕ) (db : Database) where
  abbrev pub removal_allowed : Bool
  removal_allowed =
      may_remove (status_at club.id remover_id db.memberships)
        (status_at club.id target_id db.memberships)
      && not (is_protected cfg club target_id now)

  ban_member_lem :
      Memberships.ban_member plain club.id target_id db
      ≡ (ok tt, restatus club.id target_id MembershipStatus.banned db)
  unfolding Memberships.ban_member
  ban_member_lem = refl

  remove_member-plain :
      IsSound db
      → Outcome removal_allowed
          (λ _ db'. db' ≡ restatus club.id target_id MembershipStatus.banned db)
          db
          (remove_member plain cfg club remover_id target_id now db)
  unfolding remove_member
  remove_member-plain sound = ground (
    arith,
    get_role_lem club.id remover_id db sound.keys,
    get_role_lem club.id target_id db sound.keys,
    ban_member_lem,
  )

-- In a sound database, `remove_member` returns exactly when an owner removes an admin or a
-- member, or an admin a member, and the target is not a former owner under protection. It then
-- leaves the target BANNED, every other status and every other collection as it was, and the clubs
-- with one owner each. Where it raises, the database is as it was.
pub remove_member-Outcome :
    (m : Mongo) (laws : IsMongo m) (cfg : Settings) (club : Club) (remover_id target_id now : ℕ)
    (db : Database)
    → IsSound db
    → Outcome
        (removal_allowed cfg club remover_id target_id now db)
        (λ _ db'.
          Becomes db (placed club.id target_id (some MembershipStatus.banned) db.memberships) db'
          × IsSound db')
        db
        (remove_member m cfg club remover_id target_id now db)
remove_member-Outcome m laws cfg club remover_id target_id now db sound = rw (eq_plain m laws) (
    Outcome-mono (removal_allowed cfg club remover_id target_id now db) _ _ db _
      (λ _ db' allowed.
        restatus-Becomes club.id target_id MembershipStatus.banned db db' sound (ground arith)
          (ground arith) refl)
      (remove_member-plain cfg club remover_id target_id now db sound))
