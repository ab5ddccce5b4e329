-- ===== src/Services/Club/Entering.antt =====
-- Entering a club: `admit_user` of src/canterlot/services/club.py.
use canterlot_api.Base.{
  ℕ, ◌≡◌, refl, Bool, true, false, not, Option, none, some, [], ◌∷◌, ◌++◌, arith, Option-cases, inl,
  inr, is_some, if◌then◌else◌,
}
use canterlot_api.Mongo.{Mongo, IsMongo, plain, eq_plain, first, update_first}
use canterlot_api.Types.{
  MemberRole, MembershipStatus, JoinPolicy, ClubOnboardingStatus, policy_enum, status_enum,
}
use canterlot_api.Models.{Club, Database}
use canterlot_api.Effects.{ok, err, duplicate_key, Outcome, Outcome-mono}
use canterlot_api.Repositories.Memberships.{has_id, has_key, set_member, memberships_set}
use canterlot_api.Repositories.Memberships.Roster.{status_at, placed}
use canterlot_api.Repositories.Memberships.Queries.{exists_member_lem, exists_banned_lem}
use canterlot_api.Repositories.Memberships.Sound.{IsSound, is_owner_status}
use canterlot_api.Repositories.Memberships.Writes.{
  upsert_member_lem, create_pending_request_lem, new_member, new_request,
}
use canterlot_api.Repositories.Clubs
use canterlot_api.Services.Club.Admission.{admit_user}
use canterlot_api.Services.Club.Rules.{Becomes, seated-Becomes, appended-Becomes}

-- How a user of a given status enters, by a direct invite or by the policy of the club.
abbrev pub entry : Bool → JoinPolicy → Option MembershipStatus → ClubOnboardingStatus
entry _ _ (some MembershipStatus.owner) = ClubOnboardingStatus.already_member
entry _ _ (some MembershipStatus.admin) = ClubOnboardingStatus.already_member
entry _ _ (some MembershipStatus.member) = ClubOnboardingStatus.already_member
entry true _ _ = ClubOnboardingStatus.joined
entry false _ (some MembershipStatus.banned) = ClubOnboardingStatus.banned
entry false JoinPolicy.public _ = ClubOnboardingStatus.joined
entry false JoinPolicy.restricted _ = ClubOnboardingStatus.pending_approval

-- A user who waits already asks once more.
abbrev pub asks_again : Bool → JoinPolicy → Option MembershipStatus → Bool
asks_again false JoinPolicy.restricted (some MembershipStatus.pending) = true
asks_again _ _ _ = false

module _ (club_id user_id now : ℕ) (db : Database) where
  abbrev seated : Database
  seated =
      memberships_set
        (if is_some (status_at club_id user_id db.memberships)
          then update_first (has_key club_id user_id) (set_member MembershipStatus.member now)
              db.memberships
          else (db.memberships ++ new_member club_id user_id MembershipStatus.member now ∷ []))
        db

  abbrev Written : ClubOnboardingStatus → Database → Type 0
  Written ClubOnboardingStatus.joined db' = db' ≡ seated
  Written ClubOnboardingStatus.pending_approval db' =
      db' ≡ memberships_set (db.memberships ++ new_request club_id user_id now ∷ []) db
  Written _ db' = db' ≡ db

module _ (club_id user_id : ℕ) (is_direct : Bool) (now : ℕ) (club : Club) (db : Database) where
  find_by_id_lem : Clubs.find_by_id plain club_id db ≡ (ok (first (has_id club_id) db.clubs), db)
  unfolding Clubs.find_by_id
  find_by_id_lem = refl

  admit_user-plain :
      IsSound db
      → first (has_id club_id) db.clubs ≡ some club
      → Outcome
          (not (asks_again is_direct club.join_policy (status_at club_id user_id db.memberships)))
          (λ result db'.
            (result ≡ record {
              club_name = club.name;
              status = entry is_direct club.join_policy (status_at club_id user_id db.memberships);
            })
            × Written club_id user_id now db
                (entry is_direct club.join_policy (status_at club_id user_id db.memberships))
                db')
          db
          (admit_user plain club_id user_id is_direct now db)
  unfolding admit_user
  admit_user-plain sound stored = ground (
    arith,
    find_by_id_lem,
    exists_member_lem club_id user_id db sound.keys,
    exists_banned_lem club_id user_id db sound.keys,
    upsert_member_lem club_id user_id now db MemberRole.member,
    create_pending_request_lem club_id user_id now db,
  )

-- The roster after an entry, and the invariant.
abbrev pub Entered : ℕ → ℕ → Database → ClubOnboardingStatus → Database → Type 0
Entered club_id user_id db ClubOnboardingStatus.joined db' =
    Becomes db (placed club_id user_id (some MembershipStatus.member) db.memberships) db'
    × IsSound db'
Entered club_id user_id db ClubOnboardingStatus.pending_approval db' =
    Becomes db (placed club_id user_id (some MembershipStatus.pending) db.memberships) db'
    × IsSound db'
Entered club_id user_id db _ db' = db' ≡ db

module _ (club_id user_id now : ℕ) (db db' : Database) (sound : IsSound db) where
  seated-Entered :
      is_owner_status (status_at club_id user_id db.memberships) ≡ false
      → db' ≡ seated club_id user_id now db
      → Becomes db (placed club_id user_id (some MembershipStatus.member) db.memberships) db'
        × IsSound db'
  seated-Entered other e = elim (Option-cases (status_at club_id user_id db.memberships)) [
    | inl absent ↦
        appended-Becomes (new_member club_id user_id MembershipStatus.member now) db db' sound
          absent refl (ground arith)
    | inr (s, there) ↦
        seated-Becomes club_id user_id now db db' sound (ground arith) other (ground arith)
  ]

  Written→Entered :
      (is_direct : Bool) (policy : JoinPolicy) (before : Option MembershipStatus)
      → status_at club_id user_id db.memberships ≡ before
      → asks_again is_direct policy before ≡ false
      → Written club_id user_id now db (entry is_direct policy before) db'
      → Entered club_id user_id db (entry is_direct policy before) db'
  Written→Entered d p (some MembershipStatus.owner) at fresh w = w
  Written→Entered d p (some MembershipStatus.admin) at fresh w = w
  Written→Entered d p (some MembershipStatus.member) at fresh w = w
  Written→Entered true p none at fresh w = seated-Entered (ground arith) w
  Written→Entered true p (some MembershipStatus.pending) at fresh w =
      seated-Entered (ground arith) w
  Written→Entered true p (some MembershipStatus.banned) at fresh w = seated-Entered (ground arith) w
  Written→Entered false p (some MembershipStatus.banned) at fresh w = w
  Written→Entered false JoinPolicy.public none at fresh w = seated-Entered (ground arith) w
  Written→Entered false JoinPolicy.public (some MembershipStatus.pending) at fresh w =
      seated-Entered (ground arith) w
  Written→Entered false JoinPolicy.restricted none at fresh w =
      appended-Becomes (new_request club_id user_id now) db db' sound at refl w
  Written→Entered false JoinPolicy.restricted (some MembershipStatus.pending) at fresh w = cc

-- In a sound database and for a stored club, `admit_user` returns unless a user who is
-- PENDING asks once more, without a direct invite, to enter a RESTRICTED club. What it returns is
-- the entry that the table gives: an active member is ALREADY_MEMBER, a direct invite lets every
-- other user in, a banned user is BANNED, and the rest are JOINED or PENDING_APPROVAL by the policy.
-- One who joins becomes a MEMBER and one who waits PENDING, every other status and every other
-- collection stays, and the clubs keep one owner each; in the other cases nothing changes.
pub admit_user-Outcome :
    (m : Mongo) (laws : IsMongo m) (club_id user_id : ℕ) (is_direct : Bool) (now : ℕ) (club : Club)
    (db : Database)
    → IsSound db
    → first (has_id club_id) db.clubs ≡ some club
    → Outcome
        (not (asks_again is_direct club.join_policy (status_at club_id user_id db.memberships)))
        (λ result db'.
          (result ≡ record {
            club_name = club.name;
            status = entry is_direct club.join_policy (status_at club_id user_id db.memberships);
          })
          × Entered club_id user_id db
              (entry is_direct club.join_policy (status_at club_id user_id db.memberships))
              db')
        db
        (admit_user m club_id user_id is_direct now db)
admit_user-Outcome m laws club_id user_id is_direct now club db sound stored =
    rw (eq_plain m laws) (
      Outcome-mono _ _ _ db _
        (λ result db' fresh (named, w). (
          named,
          Written→Entered club_id user_id now db db' sound is_direct club.join_policy _ refl
              (ground arith) w,
        ))
        (admit_user-plain club_id user_id is_direct now club db sound stored))

module _ (club_id user_id now : ℕ) (club : Club) (db : Database) where
  asks_again_plain :
      IsSound db
      → first (has_id club_id) db.clubs ≡ some club
      → club.join_policy ≡ JoinPolicy.restricted
      → status_at club_id user_id db.memberships ≡ some MembershipStatus.pending
      → admit_user plain club_id user_id false now db ≡ (err duplicate_key, db)
  unfolding admit_user
  asks_again_plain sound stored restricted waits = ground (
    arith,
    find_by_id_lem club_id user_id false now club db,
    exists_member_lem club_id user_id db sound.keys,
    exists_banned_lem club_id user_id db sound.keys,
    create_pending_request_lem club_id user_id now db,
  )

-- In a sound database, a user who is PENDING and enters a stored RESTRICTED club once more, without
-- a direct invite, makes `admit_user` raise the driver's DuplicateKeyError: a second membership is
-- inserted for the pair that the unique index covers. Nothing changes.
pub admit_user_asks_again :
    (m : Mongo) (laws : IsMongo m) (club_id user_id now : ℕ) (club : Club) (db : Database)
    → IsSound db
    → first (has_id club_id) db.clubs ≡ some club
    → club.join_policy ≡ JoinPolicy.restricted
    → status_at club_id user_id db.memberships ≡ some MembershipStatus.pending
    → admit_user m club_id user_id false now db ≡ (err duplicate_key, db)
admit_user_asks_again m laws club_id user_id now club db sound stored restricted waits =
    rw (eq_plain m laws)
      (asks_again_plain club_id user_id now club db sound stored restricted waits)
