-- ===== src/UseCases/AcceptInvite/Admitted.antt =====
-- Who gets into a club by an invite, and what becomes of the invite:
-- src/canterlot/use_cases/accept_invite.py.
use Prim.Native.String.{String}
use canterlot_api.Base.{
  ℕ, ◌≡◌, refl, Bool, true, false, ◌&&◌, not, none, some, arith, subst, Bool-cases, inl, inr, ◌==◌,
  if◌then◌else◌,
}
use canterlot_api.Mongo.{Mongo, IsMongo, plain, plain-IsMongo, eq_plain, first}
use canterlot_api.Types.{ClubOnboardingStatus, InviteType, ◌is◌, onboarding_enum, invite_type_enum}
use canterlot_api.Models.{Club, Invite, User, Database}
use canterlot_api.Effects.{ok, Outcome, Outcome-mono, Outcome-bind, ◌>>=◌}
use canterlot_api.Repositories.Memberships.Roster.{status_at}
use canterlot_api.Repositories.Memberships.Sound.{IsSound}
use canterlot_api.Repositories.Invites.{has_invite_id, invites_set}
use canterlot_api.Services.Club.Admission.{ClubOnboarding, admit_user}
use canterlot_api.Services.Club.Entering.{entry, asks_again, Entered, admit_user-Outcome}
use canterlot_api.Services.Invite.{validate_incoming_invite}
use canterlot_api.Services.Invite.Validation.{
  club_of, is_open, lets_in, Says, validate_incoming_invite-Outcome,
}
use canterlot_api.Services.Invite.Usage.{spent, spent_in, register_plain, first-spent_in}
use canterlot_api.UseCases.AcceptInvite.{record_usage, accept_invite}

-- Whether an entry writes to the roster, and so spends the invite.
abbrev pub enters : ClubOnboardingStatus → Bool
enters ClubOnboardingStatus.joined = true
enters ClubOnboardingStatus.pending_approval = true
enters _ = false

Entered-invites :
    (club_id user_id : ℕ) (db : Database) (status : ClubOnboardingStatus) (db' : Database)
    → Entered club_id user_id db status db'
    → db'.invites ≡ db.invites
Entered-invites club_id user_id db ClubOnboardingStatus.joined db' e = ground (arith, e)
Entered-invites club_id user_id db ClubOnboardingStatus.pending_approval db' e = ground (arith, e)
Entered-invites club_id user_id db ClubOnboardingStatus.already_member db' e = ground arith
Entered-invites club_id user_id db ClubOnboardingStatus.banned db' e = ground arith

module _ (invite_id : ℕ) (invite : Invite) (user_id : ℕ) (name : String) (db : Database) where
  -- What an entry and the use of the invite come to.
  abbrev pub Accepted : ClubOnboardingStatus → ClubOnboarding → Database → Type 0
  Accepted status onboarding db' =
      (onboarding ≡ record { club_name = name; status = status })
      × ((entered : Database) × Entered invite.club_id user_id db status entered
          × (db' ≡ (
              if enters status
              then invites_set (spent_in invite invite_id db.invites) entered
              else entered)))

  usage_lem :
      (status : ClubOnboardingStatus) (entered : Database)
      → first (has_invite_id invite_id) entered.invites ≡ some invite
      → (status is ClubOnboardingStatus.banned) ≡ false
      → record_usage plain invite_id (record { club_name = name; status = status }) entered ≡ (
        ok (record { club_name = name; status = status }),
        if enters status
            then invites_set (spent_in invite invite_id entered.invites) entered
            else entered,
      )
  unfolding record_usage
  usage_lem status entered found other =
      ground (arith, register_plain invite_id invite entered found)

  turned_away :
      (entered : Database) (s : ClubOnboardingStatus)
      → Entered invite.club_id user_id db s entered
      → (s is ClubOnboardingStatus.banned) ≡ true
      → Outcome
          (not (s is ClubOnboardingStatus.banned))
          (Accepted s)
          db
          (record_usage plain invite_id (record { club_name = name; status = s }) entered)
  unfolding record_usage
  turned_away entered ClubOnboardingStatus.banned e b = (refl, e)
  turned_away entered ClubOnboardingStatus.joined e b = cc
  turned_away entered ClubOnboardingStatus.pending_approval e b = cc
  turned_away entered ClubOnboardingStatus.already_member e b = cc

  record_usage-plain :
      (status : ClubOnboardingStatus) (entered : Database)
      → first (has_invite_id invite_id) db.invites ≡ some invite
      → Entered invite.club_id user_id db status entered
      → Outcome
          (not (status is ClubOnboardingStatus.banned))
          (Accepted status)
          db
          (record_usage plain invite_id (record { club_name = name; status = status }) entered)
  record_usage-plain status entered found e =
      let same = Entered-invites invite.club_id user_id db status entered e in
      elim (Bool-cases (status is ClubOnboardingStatus.banned)) [
        | inl banned ↦ turned_away entered status e banned
        | inr other ↦
            rw (usage_lem status entered (rw same found) other)
              (rw other refl, (refl, (entered, e, rw same refl)))
      ]

-- Every invite after the use, by its id.
invites_lem :
    (invite_id : ℕ) (invite : Invite) (user_id : ℕ) (db : Database) (status : ClubOnboardingStatus)
    (entered db' : Database)
    → first (has_invite_id invite_id) db.invites ≡ some invite
    → Entered invite.club_id user_id db status entered
    → db' ≡ (
        if enters status
        then invites_set (spent_in invite invite_id db.invites) entered
        else entered)
    → (db' ≡ invites_set db'.invites entered)
      × ((k : ℕ)
          → first (has_invite_id k) db'.invites ≡ (
              if k == invite_id && enters status
              then some (spent invite)
              else first (has_invite_id k) db.invites))
invites_lem invite_id invite user_id db status entered db' found e written =
    let same = Entered-invites invite.club_id user_id db status entered e in
    elim (Bool-cases (enters status)) [
      | inl spends ↦ (ground arith, λ k. ground (arith, first-spent_in invite_id invite db found k))
      | inr stays ↦ (ground arith, λ k. ground (arith, same))
    ]

module _ (lower : String → String) (invite_id : ℕ) (user : User) (validated_at admitted_at : ℕ)
    (invite : Invite) (club : Club) (db : Database) where
  abbrev pub way_in : ClubOnboardingStatus
  way_in =
      entry (invite.type is InviteType.direct) club.join_policy
        (status_at invite.club_id user.id db.memberships)

  abbrev pub accept_allowed : Bool
  accept_allowed =
      (is_open (some invite) validated_at
        && lets_in (some invite) (some user.email) (some user.id) db)
      && (not (
            asks_again (invite.type is InviteType.direct) club.join_policy
              (status_at invite.club_id user.id db.memberships))
          && not (way_in is ClubOnboardingStatus.banned))

  pub accept_plain :
      IsSound db
      → first (has_invite_id invite_id) db.invites ≡ some invite
      → club_of invite db ≡ some club
      → Outcome accept_allowed
          (Accepted invite_id invite user.id club.name db way_in)
          db
          (accept_invite plain lower invite_id user validated_at admitted_at db)
  unfolding accept_invite
  accept_plain sound found stored =
      Outcome-bind _
        (not (
            asks_again (invite.type is InviteType.direct) club.join_policy
              (status_at invite.club_id user.id db.memberships))
          && not (way_in is ClubOnboardingStatus.banned))
        (λ result db'.
          Says lower invite_id (some user.email) (some user.id) none validated_at db (some invite)
            result
          × (db' ≡ db))
        (Accepted invite_id invite user.id club.name db way_in) db
        (validate_incoming_invite plain lower invite_id (some user.email) (some user.id) none
          validated_at)
        (λ v.
          admit_user plain v.club_id user.id v.is_direct admitted_at
          >>= record_usage plain invite_id)
        (subst
          (λ o.
            Outcome (is_open o validated_at && lets_in o (some user.email) (some user.id) db)
              (λ result db'.
                Says lower invite_id (some user.email) (some user.id) none validated_at db o result
                × (db' ≡ db))
              db
              (validate_incoming_invite plain lower invite_id (some user.email) (some user.id) none
                validated_at db))
          found
          (validate_incoming_invite-Outcome plain plain-IsMongo lower invite_id (some user.email)
            (some user.id) none validated_at db))
        (λ result db' valid ((club_id, direct, by, name), same).
          rw (same, club_id, direct)
            (Outcome-bind _ (not (way_in is ClubOnboardingStatus.banned))
              (λ onboarding entered.
                (onboarding ≡ record { club_name = club.name; status = way_in })
                × Entered invite.club_id user.id db way_in entered)
              (Accepted invite_id invite user.id club.name db way_in) db
              (admit_user plain invite.club_id user.id (invite.type is InviteType.direct)
                admitted_at)
              (record_usage plain invite_id)
              (admit_user-Outcome plain plain-IsMongo invite.club_id user.id
                (invite.type is InviteType.direct) admitted_at club db sound stored)
              (λ onboarding entered fresh (named, e).
                rw named (
                  record_usage-plain invite_id invite user.id club.name db way_in entered found
                    e))))

-- In a sound database and for a stored invite to a stored club, `accept_invite` returns exactly when
-- the invite is active, not expired and for the user, the club has a name, the user is not BANNED
-- (unless the invite is direct), and the user does not ask a second time to join a RESTRICTED club.
-- It then returns the entry that the table gives, and the roster is the one after that entry. Where
-- the user joins or waits, the invite has one use more, and if it is direct it is deactivated; no
-- other invite changes. Where it raises, the database is as it was.
pub accept_invite-Outcome :
    (m : Mongo) (laws : IsMongo m) (lower : String → String) (invite_id : ℕ) (user : User)
    (validated_at admitted_at : ℕ) (invite : Invite) (club : Club) (db : Database)
    → IsSound db
    → first (has_invite_id invite_id) db.invites ≡ some invite
    → club_of invite db ≡ some club
    → Outcome
        (accept_allowed lower invite_id user validated_at admitted_at invite club db)
        (λ onboarding db'.
          (onboarding ≡ record {
            club_name = club.name;
            status = way_in lower invite_id user validated_at admitted_at invite club db;
          })
          × ((entered : Database) × Entered invite.club_id user.id db
                (way_in lower invite_id user validated_at admitted_at invite club db)
                entered
              × (db' ≡ invites_set db'.invites entered))
          × ((k : ℕ)
              → first (has_invite_id k) db'.invites ≡ (
                  if k == invite_id
                    && enters (way_in lower invite_id user validated_at admitted_at invite club db)
                  then some (spent invite)
                  else first (has_invite_id k) db.invites)))
        db
        (accept_invite m lower invite_id user validated_at admitted_at db)
accept_invite-Outcome m laws lower invite_id user validated_at admitted_at invite club db sound
      found stored =
    rw (eq_plain m laws) (
      Outcome-mono _ _ _ db _
        (λ onboarding db' allowed (named, (entered, e, written)).
          let (kept, invites) =
            invites_lem invite_id invite user.id db
              (way_in lower invite_id user validated_at admitted_at invite club db) entered db'
              found e written in
          (named, (entered, e, kept), invites))
        (accept_plain lower invite_id user validated_at admitted_at invite club db sound found
          stored))
