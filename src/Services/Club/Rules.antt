-- ===== src/Services/Club/Rules.antt =====
-- The rules of a club's roster, said apart from the code of src/canterlot/services/club.py: tables of
-- who may do what, by the statuses of the two users, and how a call changes the roster.
use canterlot_api.Base.{
  ℕ, ◌≡◌, refl, is_some, [], ◌∷◌, ◌++◌, Bool, true, false, ◌&&◌, Option, none, some, is_id,
}
use canterlot_api.Mongo.{update_first, delete_first}
use canterlot_api.Types.{MemberRole, MembershipStatus}
use canterlot_api.Models.{Club, ClubMembership, Database}
use canterlot_api.Repositories.Memberships.{has_key, memberships_set, set_status, set_member}
use canterlot_api.Repositories.Memberships.Roster.{
  status_at, placed, status_at-delete_first, status_at-update_first, status_at-append_one,
}
use canterlot_api.Repositories.Memberships.Queries.{restatus}
use canterlot_api.Repositories.Memberships.Sound.{
  IsSound, is_owner_status, update_first-IsSound, delete_first-IsSound, append_one-IsSound,
}
use canterlot_api.Repositories.Memberships.Writes.{status_at-restatus}
use canterlot_api.Services.Club.Roles.{Settings, is_within}

-- An owner removes admins and members; an admin removes members.
abbrev pub may_remove : Option MembershipStatus → Option MembershipStatus → Bool
may_remove (some MembershipStatus.owner) (some MembershipStatus.admin) = true
may_remove (some MembershipStatus.owner) (some MembershipStatus.member) = true
may_remove (some MembershipStatus.admin) (some MembershipStatus.member) = true
may_remove _ _ = false

-- Only an owner changes a role, between ADMIN and MEMBER.
abbrev pub may_change : Option MembershipStatus → Option MembershipStatus → MemberRole → Bool
may_change (some MembershipStatus.owner) (some MembershipStatus.admin) MemberRole.member = true
may_change (some MembershipStatus.owner) (some MembershipStatus.member) MemberRole.admin = true
may_change _ _ _ = false

-- The target holds the role already, and it is not OWNER.
abbrev pub keeps_role : Option MembershipStatus → MemberRole → Bool
keeps_role (some MembershipStatus.admin) MemberRole.admin = true
keeps_role (some MembershipStatus.member) MemberRole.member = true
keeps_role _ _ = false

abbrev pub may_leave : Option MembershipStatus → Bool
may_leave (some MembershipStatus.admin) = true
may_leave (some MembershipStatus.member) = true
may_leave _ = false

abbrev pub is_waiting : Option MembershipStatus → Bool
is_waiting (some MembershipStatus.pending) = true
is_waiting _ = false

abbrev pub is_staff : Option MembershipStatus → Bool
is_staff (some MembershipStatus.owner) = true
is_staff (some MembershipStatus.admin) = true
is_staff _ = false

abbrev pub is_active : Option MembershipStatus → Bool
is_active (some MembershipStatus.owner) = true
is_active (some MembershipStatus.admin) = true
is_active (some MembershipStatus.member) = true
is_active _ = false

-- The user gave the club away less than a cooldown ago.
abbrev pub is_protected : Settings → Club → ℕ → ℕ → Bool
is_protected cfg club user_id now =
    is_id club.protected_former_owner_id user_id
    && is_within cfg.transfer_cooldown club.ownership_transferred_at now

-- The roster becomes `roster`, and nothing else changes.
abbrev pub Becomes : Database → (ℕ → ℕ → Option MembershipStatus) → Database → Type 0
Becomes db roster db' =
    (db' ≡ memberships_set db'.memberships db)
    × ((c u : ℕ) → status_at c u db'.memberships ≡ roster c u)

-- One new status, where neither the old nor the new one is OWNER.
pub restatus-Becomes :
    (club_id user_id : ℕ) (status : MembershipStatus) (db db' : Database)
    → IsSound db
    → is_some (status_at club_id user_id db.memberships) ≡ true
    → is_owner_status (status_at club_id user_id db.memberships) ≡ false
    → is_owner_status (some status) ≡ false
    → db' ≡ restatus club_id user_id status db
    → Becomes db (placed club_id user_id (some status) db.memberships) db' × IsSound db'
restatus-Becomes club_id user_id status db db' sound there old new e = rw e (
  (refl, λ c u. status_at-restatus club_id user_id status db c u there),
  update_first-IsSound club_id user_id (set_status status) (λ a b d. refl) db status sound
      (λ d. refl) old new,
)

-- One membership deleted, which is not the owner's.
pub deleted-Becomes :
    (club_id user_id : ℕ) (db db' : Database)
    → IsSound db
    → is_owner_status (status_at club_id user_id db.memberships) ≡ false
    → db' ≡ memberships_set (delete_first (has_key club_id user_id) db.memberships) db
    → Becomes db (placed club_id user_id none db.memberships) db' × IsSound db'
deleted-Becomes club_id user_id db db' sound other e = rw e (
  (refl, λ c u. status_at-delete_first c u club_id user_id db.memberships sound.keys),
  delete_first-IsSound db sound club_id user_id other,
)

-- One membership made a plain member's, where it is not the owner's.
pub seated-Becomes :
    (club_id user_id at : ℕ) (db db' : Database)
    → IsSound db
    → is_some (status_at club_id user_id db.memberships) ≡ true
    → is_owner_status (status_at club_id user_id db.memberships) ≡ false
    → db'
      ≡ memberships_set
          (update_first
            (has_key club_id user_id)
            (set_member MembershipStatus.member at)
            db.memberships)
          db
    → Becomes db (placed club_id user_id (some MembershipStatus.member) db.memberships) db'
      × IsSound db'
seated-Becomes club_id user_id at db db' sound there other e =
    let f = set_member MembershipStatus.member at in
    rw e (
      (
        refl,
        λ c u.
            status_at-update_first c u club_id user_id db.memberships f MembershipStatus.member
              (λ a b d. refl) (λ d. refl) there,
      ),
      update_first-IsSound club_id user_id f (λ a b d. refl) db MembershipStatus.member sound
          (λ d. refl) other refl,
    )

-- A membership added for a user who has none.
pub appended-Becomes :
    (d : ClubMembership) (db db' : Database)
    → IsSound db
    → status_at d.club_id d.user_id db.memberships ≡ none
    → is_owner_status (some d.status) ≡ false
    → db' ≡ memberships_set (db.memberships ++ d ∷ []) db
    → Becomes db (placed d.club_id d.user_id (some d.status) db.memberships) db' × IsSound db'
appended-Becomes d db db' sound absent other e = rw e (
  (refl, λ c u. status_at-append_one c u d.club_id d.user_id db.memberships d refl refl absent),
  append_one-IsSound db sound d absent other,
)
