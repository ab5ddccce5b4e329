-- ===== src/Services/Club/RoleChange.antt =====
-- Changing a role: `change_member_role` of src/canterlot/services/club.py.
use canterlot_api.Base.{ℕ, ◌≡◌, refl, Bool, true, false, ◌&&◌, ◌||◌, not, Option, none, some, arith}
use canterlot_api.Mongo.{Mongo, IsMongo, plain, eq_plain}
use canterlot_api.Types.{MemberRole, ◌is◌, one_of, role_enum, status_enum}
use canterlot_api.Models.{Club, Database}
use canterlot_api.Effects.{Outcome, Outcome-mono}
use canterlot_api.Repositories.Memberships
use canterlot_api.Repositories.Memberships.{
  has_key, set_status, set_member, status_of_role, memberships_set, promotable_statuses,
}
use canterlot_api.Repositories.Memberships.Roster.{status_at, placed}
use canterlot_api.Repositories.Memberships.Queries.{get_role_lem, restatus, update_membership_lem}
use canterlot_api.Repositories.Memberships.Sound.{IsSound}
use canterlot_api.Services.Club.Roles.{Settings}
use canterlot_api.Services.Club.Moderation.{change_member_role}
use canterlot_api.Services.Club.Rules.{
  may_change, keeps_role, is_active, is_protected, Becomes, restatus-Becomes,
}

module _ (cfg : Settings) (club : Club) (caller_id target_id : ℕ) (new_role : MemberRole) (now : ℕ)
    (db : Database) where
  -- The target holds the role and the caller is a member, or the caller may give it.
  abbrev pub change_allowed : Bool
  change_allowed =
      (is_active (status_at club.id caller_id db.memberships)
        && keeps_role (status_at club.id target_id db.memberships) new_role)
      || (may_change (status_at club.id caller_id db.memberships)
            (status_at club.id target_id db.memberships) new_role
          && not (is_protected cfg club target_id now))

  change_member_role_lem :
      IsSound db
      → Memberships.change_member_role plain club.id target_id new_role db
        ≡ Memberships.update_membership plain
            (λ d. has_key club.id target_id d && one_of d.status promotable_statuses)
            (set_status (status_of_role new_role))
            db
  unfolding Memberships.change_member_role
  change_member_role_lem sound = refl

  -- What a call that returns has done: nothing to a role that is held already.
  abbrev Changed : Bool → Option Bool → Database → Type 0
  Changed true result db' = (result ≡ none) × (db' ≡ db)
  Changed false result db' =
      (result ≡ some (new_role is MemberRole.admin))
      × (db' ≡ restatus club.id target_id (status_of_role new_role) db)

  change_member_role-plain :
      IsSound db
      → Outcome change_allowed
          (Changed (keeps_role (status_at club.id target_id db.memberships) new_role))
          db
          (change_member_role plain cfg club caller_id target_id new_role now db)
  unfolding change_member_role
  change_member_role-plain sound = ground (
    arith,
    get_role_lem club.id caller_id db sound.keys,
    get_role_lem club.id target_id db sound.keys,
    change_member_role_lem sound,
    update_membership_lem club.id target_id db sound.keys (λ t. one_of t promotable_statuses)
        (status_of_role new_role),
  )

module _ (cfg : Settings) (club : Club) (caller_id target_id : ℕ) (new_role : MemberRole) (now : ℕ)
    (db : Database) where
  -- The same, by the roster.
  abbrev pub RoleChanged : Bool → Option Bool → Database → Type 0
  RoleChanged true result db' = (result ≡ none) × (db' ≡ db)
  RoleChanged false result db' =
      (result ≡ some (new_role is MemberRole.admin))
      × Becomes db (placed club.id target_id (some (status_of_role new_role)) db.memberships) db'
      × IsSound db'

  Changed→RoleChanged :
      IsSound db
      → (result : Option Bool) (db' : Database)
      → change_allowed cfg club caller_id target_id new_role now db ≡ true
      → (kept : Bool) → keeps_role (status_at club.id target_id db.memberships) new_role ≡ kept
      → Changed cfg club caller_id target_id new_role now db kept result db'
      → RoleChanged kept result db'
  Changed→RoleChanged sound result db' allowed true e h = h
  Changed→RoleChanged sound result db' allowed false e (r, d) =
      let (becomes, sound') =
        restatus-Becomes club.id target_id (status_of_role new_role) db db' sound (ground arith)
          (ground arith) (ground arith) d in
      (r, becomes, sound')

-- In a sound database, `change_member_role` returns exactly when the target is an ADMIN or a
-- MEMBER who holds the new role already and the caller is an active member, or when the OWNER gives
-- an ADMIN or a MEMBER the other of these roles and the target is not a former owner under
-- protection. In the first case the result is None and nothing changes. In the second it says
-- whether the new role is ADMIN, the target has the new status, every other status and every other
-- collection is as it was, and the clubs have one owner each. Where it raises, the database is as it
-- was.
pub change_member_role-Outcome :
    (m : Mongo) (laws : IsMongo m) (cfg : Settings) (club : Club) (caller_id target_id : ℕ)
    (new_role : MemberRole) (now : ℕ) (db : Database)
    → IsSound db
    → Outcome
        (change_allowed cfg club caller_id target_id new_role now db)
        (RoleChanged cfg club caller_id target_id new_role now db
          (keeps_role (status_at club.id target_id db.memberships) new_role))
        db
        (change_member_role m cfg club caller_id target_id new_role now db)
change_member_role-Outcome m laws cfg club caller_id target_id new_role now db sound =
    rw (eq_plain m laws) (
      Outcome-mono (change_allowed cfg club caller_id target_id new_role now db) _ _ db _
        (λ result db' allowed.
          Changed→RoleChanged cfg club caller_id target_id new_role now db sound result db' allowed
            _ refl)
        (change_member_role-plain cfg club caller_id target_id new_role now db sound))
