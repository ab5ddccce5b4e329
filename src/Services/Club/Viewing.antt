-- ===== src/Services/Club/Viewing.antt =====
-- Who sees what of a club: `get_club_view` and `get_member_profile` of
-- src/canterlot/services/club.py.
use Prim.Native.String.{String}
use canterlot_api.Base.{
  ℕ, ◌≡◌, refl, ◌&&◌, none, some, List, [], map, elem, is_empty, arith, if◌then◌else◌,
}
use canterlot_api.Mongo.{Mongo, IsMongo, plain, eq_plain, matching}
use canterlot_api.Types.{MembershipStatus, status_enum}
use canterlot_api.Models.{Club, ClubMembership, Database}
use canterlot_api.Effects.{ok, Outcome}
use canterlot_api.Repositories.Memberships
use canterlot_api.Repositories.Memberships.{
  in_club, has_key, has_status, has_status_in, active_statuses,
}
use canterlot_api.Repositories.Memberships.Roster.{status_at, role_at}
use canterlot_api.Repositories.Memberships.Queries.{get_role_lem}
use canterlot_api.Repositories.Memberships.Sound.{IsSound}
use canterlot_api.Repositories.Users
use canterlot_api.Services.Club.Views.{ClubView, get_club_view}
use canterlot_api.Services.Club.Rules.{is_active, is_staff}

-- The names of the users with these ids.
abbrev pub names_of : List ClubMembership → Database → List (ℕ × String)
names_of ds db =
    if is_empty (map (λ d. d.user_id) ds)
    then []
    else map (λ u. (u.id, u.username))
        (matching (λ u. elem u.id (map (λ d. d.user_id) ds)) db.users)

module _ (club : Club) (viewer_id : ℕ) (db : Database) where
  abbrev pub seated_in : List ClubMembership
  seated_in = matching (λ d. in_club club.id d && has_status_in active_statuses d) db.memberships

  abbrev pub waiting_in : List ClubMembership
  waiting_in =
      matching (λ d. in_club club.id d && has_status MembershipStatus.pending d) db.memberships

  active_lem : Memberships.find_active_by_club_id plain club.id db ≡ (ok seated_in, db)
  unfolding Memberships.find_active_by_club_id
  active_lem = refl

  pending_lem : Memberships.find_pending_by_club_id plain club.id db ≡ (ok waiting_in, db)
  unfolding Memberships.find_pending_by_club_id
  pending_lem = refl

  names_lem :
      (ds : List ClubMembership)
      → Users.get_usernames_by_ids plain (map (λ d. d.user_id) ds) db ≡ (ok (names_of ds db), db)
  unfolding Users.get_usernames_by_ids
  names_lem ds = refl

  abbrev pub Shows : ClubView → Type 0
  Shows view =
      (view.club ≡ club)
      × (some view.viewer_role ≡ role_at club.id viewer_id db.memberships)
      × (view.members ≡ seated_in)
      × (view.member_usernames ≡ names_of seated_in db)
      × (view.pending ≡ (
          if is_staff (status_at club.id viewer_id db.memberships) then some waiting_in else none))
      × (view.pending_usernames ≡ (
          if is_staff (status_at club.id viewer_id db.memberships)
          then some (names_of waiting_in db)
          else none))

  view_plain :
      IsSound db
      → Outcome
          (is_active (status_at club.id viewer_id db.memberships))
          (λ view db'. Shows view × (db' ≡ db))
          db
          (get_club_view plain club viewer_id db)
  unfolding get_club_view
  view_plain sound = ground (
    arith,
    get_role_lem club.id viewer_id db sound.keys,
    active_lem,
    pending_lem,
    names_lem seated_in,
    names_lem waiting_in,
  )

-- In a sound database, `get_club_view` returns exactly when the viewer is an active member. It shows
-- the club, the viewer's role, the active members and their names, and, to OWNER and ADMIN alone,
-- those who are PENDING and their names. It changes nothing.
pub get_club_view-Outcome :
    (m : Mongo) (laws : IsMongo m) (club : Club) (viewer_id : ℕ) (db : Database)
    → IsSound db
    → Outcome
        (is_active (status_at club.id viewer_id db.memberships))
        (λ view db'. Shows club viewer_id db view × (db' ≡ db))
        db
        (get_club_view m club viewer_id db)
get_club_view-Outcome m laws club viewer_id db sound =
    rw (eq_plain m laws) (view_plain club viewer_id db sound)
