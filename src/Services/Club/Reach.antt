-- ===== src/Services/Club/Reach.antt =====
-- Every run of the club service: the calls of src/canterlot/services/club.py that write, one after the
-- other, from a sound database.
use Prim.Native.String.{String}
use text.Mathlib.Text.{◌==◌ as str_eq}
use canterlot_api.Base.{
  ℕ, ◌≡◌, Bool, true, false, Option, none, some, List, arith, Option-cases, inl, inr, subst,
}
use canterlot_api.Mongo.{Mongo, IsMongo, plain, plain-IsMongo, eq_plain, first}
use canterlot_api.Mongo.Count.{count, first-holds, first_only}
use canterlot_api.Types.{MemberRole, ClubOnboardingStatus, status_enum}
use canterlot_api.Models.{Club, ClubMembership, Database}
use canterlot_api.Effects.{Result, ok, err, Outcome}
use canterlot_api.Repositories.Memberships
use canterlot_api.Repositories.Memberships.{has_id, has_key, in_club, has_status}
use canterlot_api.Repositories.Memberships.Roster.{status_at}
use canterlot_api.Repositories.Memberships.Sound.{IsSound, owns, is_owner_status}
use canterlot_api.Repositories.Clubs
use canterlot_api.Repositories.Users
use canterlot_api.Services.Club.Roles.{Settings}
use canterlot_api.Services.Club.Creation.{ClubCreateRequest, create_new_club}
use canterlot_api.Services.Club.Admission.{admit_user, review_pending_request}
use canterlot_api.Services.Club.Moderation.{remove_member, change_member_role, leave_club}
use canterlot_api.Services.Club.Ownership.{dissolve_club, transfer_ownership, reclaim_ownership}
use canterlot_api.Services.Club.Founding.{Founded, create_new_club-Outcome}
use canterlot_api.Services.Club.Entering.{Entered, admit_user-Outcome}
use canterlot_api.Services.Club.Review.{review_pending_request-Outcome}
use canterlot_api.Services.Club.Removal.{remove_member-Outcome}
use canterlot_api.Services.Club.RoleChange.{RoleChanged, change_member_role-Outcome}
use canterlot_api.Services.Club.Leaving.{leave_club-Outcome}
use canterlot_api.Services.Club.Transfer.{transfer_ownership-Outcome}
use canterlot_api.Services.Club.Reclaim.{reclaim_ownership-Outcome}
use canterlot_api.Services.Club.Customizing.{ClubSettingsUpdateRequest, update_settings}
use canterlot_api.Services.Club.Settings.Sound.{update_settings-IsSound}
use canterlot_api.Services.Club.Dissolution.{dissolve_club-Outcome}

module _ (m : Mongo) (slugify : String → ℕ → String → String) (cfg : Settings) where
  -- One call, returning or raising, with any arguments and with any loaded club, also a stale one.
  pub data Step : Database → Database → Type 0 where
    created :
        (creator_id : ℕ) (request : ClubCreateRequest) (club_id : ℕ) (suffixes : List String)
        (now : ℕ) (db : Database) (new_id : count (has_id club_id) db.clubs ≡ 0)
        (no_roster : count (in_club club_id) db.memberships ≡ 0)
        → Step db ((create_new_club m slugify creator_id request club_id suffixes now db).1)
    entered :
        (club_id user_id : ℕ) (is_direct : Bool) (now : ℕ) (db : Database)
        → Step db ((admit_user m club_id user_id is_direct now db).1)
    reviewed :
        (club_id reviewer_id target_id : ℕ) (approve : Bool) (now : ℕ) (db : Database)
        → Step db ((review_pending_request m club_id reviewer_id target_id approve now db).1)
    removed :
        (club : Club) (remover_id target_id now : ℕ) (db : Database)
        → Step db ((remove_member m cfg club remover_id target_id now db).1)
    role_changed :
        (club : Club) (caller_id target_id : ℕ) (new_role : MemberRole) (now : ℕ) (db : Database)
        → Step db ((change_member_role m cfg club caller_id target_id new_role now db).1)
    left :
        (club : Club) (caller_id now : ℕ) (db : Database)
        → Step db ((leave_club m cfg club caller_id now db).1)
    transferred :
        (club : Club) (owner_id : ℕ) (username : String) (now : ℕ) (db : Database)
        → Step db ((transfer_ownership m cfg club owner_id username now db).1)
    reclaimed :
        (club : Club) (caller_id now : ℕ) (db : Database)
        → Step db ((reclaim_ownership m cfg club caller_id now db).1)
    dissolved :
        (club : Club) (caller_id now : ℕ) (db : Database)
        → Step db ((dissolve_club m cfg club caller_id now db).1)
    settings_changed :
        (club : Club) (caller_id : ℕ) (request : ClubSettingsUpdateRequest) (suffixes : List String)
        (db : Database)
        → Step db ((update_settings m slugify club caller_id request suffixes db).1)

  pub data Reaches : Database → Database → Type 0 where
    here : (db : Database) → Reaches db db
    then_step : (db db' db'' : Database) → Reaches db db' → Step db' db'' → Reaches db db''

Outcome-IsSound :
    {A : Type 0} (allowed : Bool) (Done : A → Database → Type 0) (db : Database)
    (r : Result A × Database)
    → IsSound db
    → ((a : A) (db' : Database) → Done a db' → IsSound db')
    → Outcome allowed Done db r
    → IsSound (r.1)
Outcome-IsSound allowed Done db (ok a, db') sound step (e, done) = step a db' done
Outcome-IsSound allowed Done db (err x, db') sound step (e, same) = rw same sound

module _ (db : Database) (sound : IsSound db) where
  Entered-IsSound :
      (club_id user_id : ℕ) (status : ClubOnboardingStatus) (db' : Database)
      → Entered club_id user_id db status db'
      → IsSound db'
  Entered-IsSound club_id user_id ClubOnboardingStatus.joined db' (roster, kept) = kept
  Entered-IsSound club_id user_id ClubOnboardingStatus.pending_approval db' (roster, kept) = kept
  Entered-IsSound club_id user_id ClubOnboardingStatus.already_member db' same = rw same sound
  Entered-IsSound club_id user_id ClubOnboardingStatus.banned db' same = rw same sound

  RoleChanged-IsSound :
      (cfg : Settings) (club : Club) (caller_id target_id : ℕ) (new_role : MemberRole) (now : ℕ)
      (kept : Bool) (result : Option Bool) (db' : Database)
      → RoleChanged cfg club caller_id target_id new_role now db kept result db'
      → IsSound db'
  RoleChanged-IsSound cfg club caller_id target_id new_role now true result db' (r, same) =
      rw same sound
  RoleChanged-IsSound cfg club caller_id target_id new_role now false result db' (r, roster, k) = k

  Founded-IsSound :
      (creator_id club_id now : ℕ) (request : ClubCreateRequest) (slug : Option String)
      (made : Option Club) (db' : Database)
      → Founded db creator_id club_id now request slug made db'
      → IsSound db'
  Founded-IsSound creator_id club_id now request none made db' (r, same) = rw same sound
  Founded-IsSound creator_id club_id now request (some slug) made db' (r, free, cs, roster, k) = k

  no_club_lem :
      (club_id user_id : ℕ) (is_direct : Bool) (now : ℕ)
      → first (has_id club_id) db.clubs ≡ none
      → (admit_user plain club_id user_id is_direct now db).1 ≡ db
  unfolding admit_user Clubs.find_by_id
  no_club_lem club_id user_id is_direct now absent = ground arith

  no_user_lem :
      (cfg : Settings) (club : Club) (owner_id : ℕ) (username : String) (now : ℕ)
      → first (λ u. str_eq u.username username) db.users ≡ none
      → (transfer_ownership plain cfg club owner_id username now db).1 ≡ db
  unfolding transfer_ownership Users.find_id_by_username
  no_user_lem cfg club owner_id username now absent = ground arith

  no_owner_lem :
      (cfg : Settings) (club : Club) (caller_id now : ℕ)
      → first (owns club.id) db.memberships ≡ none
      → (reclaim_ownership plain cfg club caller_id now db).1 ≡ db
  unfolding reclaim_ownership Memberships.find_owner_id_by_club_id
  no_owner_lem cfg club caller_id now absent = ground arith

  owner_status :
      (club_id : ℕ) (d : ClubMembership)
      → first (owns club_id) db.memberships ≡ some d
      → is_owner_status (status_at club_id d.user_id db.memberships) ≡ true
  owner_status club_id d found = ground (
    arith,
    first-holds (owns club_id) db.memberships d found,
    first_only (owns club_id) (has_key club_id d.user_id) db.memberships d found,
    sound.keys club_id d.user_id,
  )

  module _ (slugify : String → ℕ → String → String) (cfg : Settings) where
    Step-IsSound : (db' : Database) → Step plain slugify cfg db db' → IsSound db'
    Step-IsSound _ (Step.created creator_id request club_id suffixes now _ new_id no_roster) =
        Outcome-IsSound _ _ db
          (create_new_club plain slugify creator_id request club_id suffixes now db) sound
          (Founded-IsSound creator_id club_id now request _)
          (create_new_club-Outcome plain plain-IsMongo slugify creator_id request club_id suffixes
            now db sound new_id no_roster)
    Step-IsSound _ (Step.entered club_id user_id is_direct now _) =
        elim (Option-cases (first (has_id club_id) db.clubs)) [
          | inl absent ↦ rw (no_club_lem club_id user_id is_direct now absent) sound
          | inr (club, stored) ↦
              Outcome-IsSound _ _ db (admit_user plain club_id user_id is_direct now db) sound
                (λ result db' (named, e). Entered-IsSound club_id user_id _ db' e)
                (admit_user-Outcome plain plain-IsMongo club_id user_id is_direct now club db sound
                  stored)
        ]
    Step-IsSound _ (Step.reviewed club_id reviewer_id target_id approve now _) =
        Outcome-IsSound _ _ db
          (review_pending_request plain club_id reviewer_id target_id approve now db) sound
          (λ _ db' (roster, kept). kept)
          (review_pending_request-Outcome plain plain-IsMongo club_id reviewer_id target_id approve
            now db sound)
    Step-IsSound _ (Step.removed club remover_id target_id now _) =
        Outcome-IsSound _ _ db (remove_member plain cfg club remover_id target_id now db) sound
          (λ _ db' (roster, kept). kept)
          (remove_member-Outcome plain plain-IsMongo cfg club remover_id target_id now db sound)
    Step-IsSound _ (Step.role_changed club caller_id target_id new_role now _) =
        Outcome-IsSound _ _ db
          (change_member_role plain cfg club caller_id target_id new_role now db) sound
          (RoleChanged-IsSound cfg club caller_id target_id new_role now _)
          (change_member_role-Outcome plain plain-IsMongo cfg club caller_id target_id new_role now
            db sound)
    Step-IsSound _ (Step.left club caller_id now _) =
        Outcome-IsSound _ _ db (leave_club plain cfg club caller_id now db) sound
          (λ _ db' (roster, kept). kept)
          (leave_club-Outcome plain plain-IsMongo cfg club caller_id now db sound)
    Step-IsSound _ (Step.transferred club owner_id username now _) =
        elim (Option-cases (first (λ u. str_eq u.username username) db.users)) [
          | inl absent ↦ rw (no_user_lem cfg club owner_id username now absent) sound
          | inr (target, named) ↦
              Outcome-IsSound _ _ db (transfer_ownership plain cfg club owner_id username now db)
                sound (λ deadline db' (on_time, stamped, roster, kept). kept)
                (transfer_ownership-Outcome plain plain-IsMongo cfg club owner_id username target
                  now db sound named)
        ]
    Step-IsSound _ (Step.reclaimed club caller_id now _) =
        elim (Option-cases (first (owns club.id) db.memberships)) [
          | inl absent ↦ rw (no_owner_lem cfg club caller_id now absent) sound
          | inr (d, found) ↦
              Outcome-IsSound _ _ db (reclaim_ownership plain cfg club caller_id now db) sound
                (λ demoted db' (named, cleared, roster, kept). kept)
                (reclaim_ownership-Outcome plain plain-IsMongo cfg club caller_id d.user_id now db
                  sound (owner_status club.id d found))
        ]
    Step-IsSound _ (Step.dissolved club caller_id now _) =
        Outcome-IsSound _ _ db (dissolve_club plain cfg club caller_id now db) sound
          (λ _ db' (gone, roster, catalog, kept). kept)
          (dissolve_club-Outcome plain plain-IsMongo cfg club caller_id now db sound)
    Step-IsSound _ (Step.settings_changed club caller_id request suffixes _) =
        update_settings-IsSound club request db slugify caller_id suffixes sound

-- In every database that calls of the club service reach from a sound one, in any order, by any
-- users, with any loaded clubs and whether they return or raise, a user has one membership at most
-- in a club, and every stored club has exactly one OWNER. The driver gives each new club an id that
-- no club and no membership has.
pub Reaches-IsSound :
    (m : Mongo) (laws : IsMongo m) (slugify : String → ℕ → String → String) (cfg : Settings)
    (db db' : Database)
    → IsSound db
    → Reaches m slugify cfg db db'
    → IsSound db'
Reaches-IsSound m laws slugify cfg db db' sound run =
    run_sound (subst (λ k. Reaches k slugify cfg db db') (eq_plain m laws) run)
  where
    run_sound : {db' : Database} → Reaches plain slugify cfg db db' → IsSound db'
    run_sound (Reaches.here _) = sound
    run_sound (Reaches.then_step _ mid last run step) =
        Step-IsSound mid (run_sound run) slugify cfg last step
