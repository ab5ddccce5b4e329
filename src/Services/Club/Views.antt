-- ===== src/Services/Club/Views.antt =====
-- src/canterlot/services/club.py: what a member may see of a club.
use Prim.Native.String.{String}
use canterlot_api.Base.{ℕ, Option, none, some, List, map, not, if◌then◌else◌}
use canterlot_api.Mongo.{Mongo}
use canterlot_api.Types.{MemberRole, role_enum, policy_enum, status_enum}
use canterlot_api.Models.{Club, ClubMembership}
use canterlot_api.Effects
use canterlot_api.Effects.{Action, ◌>>=◌, ◌>>◌, pure, raise, raise_if, some_or_raise}
use canterlot_api.Repositories.Memberships
use canterlot_api.Repositories.Clubs
use canterlot_api.Repositories.Users
use canterlot_api.Services.Club.Roles.{is_privileged, get_member_role}

pub record ClubView : Type 0 where
  pub club : Club
  pub members : List ClubMembership
  pub member_usernames : List (ℕ × String)
  pub viewer_role : MemberRole
  pub pending : Option (List ClubMembership)
  pub pending_usernames : Option (List (ℕ × String))

module _ (m : Mongo) where
  unfoldable pub get_active_members : ℕ → Action (List ClubMembership)
  get_active_members = Memberships.find_active_by_club_id m

  unfoldable pub get_preferred_languages : ℕ → ℕ → Action (List String)
  get_preferred_languages club_id user_id = do
    raise_if (not (← Memberships.exists_by_club_id_and_member_user_id m club_id user_id))
        Effects.unauthorized_club_member
    Clubs.get_preferred_languages_by_id m club_id

  unfoldable pub resolve_member_usernames : List ℕ → Action (List (ℕ × String))
  resolve_member_usernames = Users.get_usernames_by_ids m

  unfoldable pub get_club_view : Club → ℕ → Action ClubView
  unfolding get_member_role resolve_member_usernames
  get_club_view club viewer_id = do
    viewer_role ←
        some_or_raise (← get_member_role m club.id viewer_id) Effects.unauthorized_club_member
    members ← Memberships.find_active_by_club_id m club.id
    member_usernames ← resolve_member_usernames (map (λ d. d.user_id) members)
    (pending, pending_usernames) ←
        if is_privileged (some viewer_role)
        then (do
          waiting ← Memberships.find_pending_by_club_id m club.id
          usernames ← resolve_member_usernames (map (λ d. d.user_id) waiting)
          pure (some waiting, some usernames))
        else pure (none, none)
    pure (record {
      club = club;
      members = members;
      member_usernames = member_usernames;
      viewer_role = viewer_role;
      pending = pending;
      pending_usernames = pending_usernames;
    })

  ensure_viewer_can_view_member : ℕ → ℕ → ℕ → Action ClubMembership
  ensure_viewer_can_view_member club_id viewer_id target_user_id = do
    raise_if (not (← Memberships.exists_by_club_id_and_member_user_id m club_id viewer_id))
        Effects.unauthorized_club_member
    target ← Memberships.find_active_membership_by_club_id_and_user_id m club_id target_user_id
    some_or_raise target Effects.club_member_not_found

  unfoldable pub get_member_profile : Club → ℕ → ℕ → Action ClubMembership
  unfolding ensure_viewer_can_view_member
  get_member_profile club = ensure_viewer_can_view_member club.id

  unfoldable pub get_club_id_by_slug : String → Action ℕ
  get_club_id_by_slug club_slug = do
    club ← some_or_raise (← Clubs.find_by_slug m club_slug) Effects.club_not_found
    pure club.id

  unfoldable pub get_club_by_slug : String → Action Club
  get_club_by_slug club_slug = do
    some_or_raise (← Clubs.find_by_slug m club_slug) Effects.club_not_found
