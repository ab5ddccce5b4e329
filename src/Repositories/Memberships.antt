-- ===== src/Repositories/Memberships.antt =====
-- src/canterlot/repositories/beanie/club_membership.py
pub mod Roster
pub mod Queries
pub mod Sound
pub mod Writes
pub mod Handover
use canterlot_api.Base.{
  ℕ, Bool, true, false, Option, none, some, List, [], ◌∷◌, map, ◌&&◌, not, ltb, ◌==◌, is_some,
  is_id,
}
use canterlot_api.Mongo.{Mongo}
use canterlot_api.Types.{MemberRole, MembershipStatus, ◌is◌, one_of, role_enum, status_enum}
use canterlot_api.Models.{Club, ClubMembership, Database}
use canterlot_api.Effects.{
  transaction_error, value_error, duplicate_key, Action, ◌>>=◌, ◌>>◌, pure, gets, raise_if, modify,
  some_or_raise,
}
use canterlot_api.Hoodie.Transactions.{transactional}

abbrev pub active_statuses : List MembershipStatus
active_statuses = MembershipStatus.owner ∷ MembershipStatus.admin ∷ MembershipStatus.member ∷ []

abbrev pub promotable_statuses : List MembershipStatus
promotable_statuses = MembershipStatus.admin ∷ MembershipStatus.member ∷ []

-- `MembershipStatus(role.value)`
abbrev pub status_of_role : MemberRole → MembershipStatus
status_of_role MemberRole.owner = MembershipStatus.owner
status_of_role MemberRole.admin = MembershipStatus.admin
status_of_role MemberRole.member = MembershipStatus.member

-- `MemberRole(status.value)`, which raises ValueError for a status that is no role
abbrev pub role_of_status : MembershipStatus → Option MemberRole
role_of_status MembershipStatus.owner = some MemberRole.owner
role_of_status MembershipStatus.admin = some MemberRole.admin
role_of_status MembershipStatus.member = some MemberRole.member
role_of_status _ = none

-- The conditions that the queries combine.
abbrev pub in_club : ℕ → ClubMembership → Bool
in_club club_id d = d.club_id == club_id

abbrev pub has_key : ℕ → ℕ → ClubMembership → Bool
has_key club_id user_id d = d.club_id == club_id && d.user_id == user_id

abbrev pub has_status : MembershipStatus → ClubMembership → Bool
has_status status d = d.status is status

abbrev pub has_status_in : List MembershipStatus → ClubMembership → Bool
has_status_in statuses d = one_of d.status statuses

-- `Set({status: …})`
abbrev pub set_status : MembershipStatus → ClubMembership → ClubMembership
set_status status d = record d { status = status }

-- what `upsert_member` sets
abbrev pub set_member : MembershipStatus → ℕ → ClubMembership → ClubMembership
set_member status joined_at d = record d {
  status = status;
  joined_at = some joined_at;
  requested_at = none;
}

abbrev pub has_id : ℕ → Club → Bool
has_id club_id c = c.id == club_id

-- `$set` of `ownership_transferred_at` and `protected_former_owner_id`
abbrev pub set_transfer : Option ℕ → Option ℕ → Club → Club
set_transfer at former c = record c {
  ownership_transferred_at = at;
  protected_former_owner_id = former;
}

-- the unique index on `club_id` and `user_id`
abbrev pub same_member : ClubMembership → ClubMembership → Bool
same_member d e = has_key d.club_id d.user_id e

abbrev pub memberships_set : List ClubMembership → Database → Database
memberships_set ds db = record db { memberships = ds }

abbrev pub clubs_set : List Club → Database → Database
clubs_set cs db = record db { clubs = cs }

module _ (m : Mongo) where
  -- `find_one(…).update_one(…)`, returning `matched_count > 0`
  unfoldable pub update_membership :
      (ClubMembership → Bool) → (ClubMembership → ClubMembership) → Action Bool
  update_membership test f = do
    (ds, matched) ← gets (λ db. m.update_one test f db.memberships)
    modify (memberships_set ds)
    pure (ltb 0 matched)

  -- `ClubModel.find_one(…).update_one(…)`
  unfoldable pub update_club : (Club → Bool) → (Club → Club) → Action Bool
  update_club test f = do
    (cs, matched) ← gets (λ db. m.update_one test f db.clubs)
    modify (clubs_set cs)
    pure (ltb 0 matched)

  unfoldable pub find_member_role_by_club_id_and_user_id : ℕ → ℕ → Action (Option MemberRole)
  find_member_role_by_club_id_and_user_id club_id user_id = do
    projection ← gets (λ db.
        m.find_one (λ d. has_key club_id user_id d && has_status_in active_statuses d)
          db.memberships)
    elim projection [
      | none ↦ pure none
      | some d ↦ some_or_raise (role_of_status d.status) value_error >>= λ role. pure (some role)
    ]

  unfoldable pub exists_by_club_id_and_member_user_id : ℕ → ℕ → Action Bool
  exists_by_club_id_and_member_user_id club_id user_id = gets (λ db. is_some (
      m.find_one (λ d. has_key club_id user_id d && has_status_in active_statuses d)
        db.memberships))

  unfoldable pub exists_by_club_id_and_pending_user_id : ℕ → ℕ → Action Bool
  exists_by_club_id_and_pending_user_id club_id user_id = gets (λ db. is_some (
      m.find_one (λ d. has_key club_id user_id d && has_status MembershipStatus.pending d)
        db.memberships))

  unfoldable pub exists_by_club_id_and_banned_user_id : ℕ → ℕ → Action Bool
  exists_by_club_id_and_banned_user_id club_id user_id = gets (λ db. is_some (
      m.find_one (λ d. has_key club_id user_id d && has_status MembershipStatus.banned d)
        db.memberships))

  unfoldable pub upsert_member : ℕ → ℕ → MemberRole → ℕ → Action Unit
  upsert_member club_id user_id role joined_at = do
    let status = status_of_role role
    written ← gets (λ db.
        m.upsert same_member (has_key club_id user_id) (set_member status joined_at)
          (record {
            club_id = club_id;
            user_id = user_id;
            status = status;
            joined_at = some joined_at;
            requested_at = none;
          })
          db.memberships)
    ds ← some_or_raise written duplicate_key
    modify (memberships_set ds)

  unfoldable pub create_pending_request : ℕ → ℕ → ℕ → Action Unit
  create_pending_request club_id user_id requested_at = do
    written ← gets (λ db.
        m.insert same_member
          (record {
            club_id = club_id;
            user_id = user_id;
            status = MembershipStatus.pending;
            joined_at = none;
            requested_at = some requested_at;
          })
          db.memberships)
    ds ← some_or_raise written duplicate_key
    modify (memberships_set ds)

  unfoldable pub delete_membership : ℕ → ℕ → Action Unit
  delete_membership club_id user_id =
      modify (λ db. memberships_set (m.delete_one (has_key club_id user_id) db.memberships) db)

  unfoldable pub ban_member : ℕ → ℕ → Action Unit
  unfolding update_membership
  ban_member club_id user_id = do
    update_membership (has_key club_id user_id) (set_status MembershipStatus.banned)
    pure tt

  unfoldable pub change_member_role : ℕ → ℕ → MemberRole → Action Bool
  change_member_role club_id member_id new_role =
      update_membership (λ d. has_key club_id member_id d && has_status_in promotable_statuses d)
        (set_status (status_of_role new_role))

  transfer_body : ℕ → ℕ → ℕ → ℕ → Action Bool
  transfer_body club_id current_owner_id new_owner_id transferred_at = do
    promoted ←
        update_membership
          (λ d. has_key club_id new_owner_id d && has_status_in promotable_statuses d)
          (set_status MembershipStatus.owner)
    raise_if (not promoted) transaction_error
    demoted ←
        update_membership
          (λ d. has_key club_id current_owner_id d && has_status MembershipStatus.owner d)
          (set_status MembershipStatus.admin)
    raise_if (not demoted) transaction_error
    club_updated ← update_club (has_id club_id) (λ c. record c {
      ownership_transferred_at = some transferred_at;
      protected_former_owner_id = some current_owner_id;
    })
    raise_if (not club_updated) transaction_error
    pure true

  unfoldable pub transfer_ownership : ℕ → ℕ → ℕ → ℕ → Action Bool
  unfolding transfer_body transactional
  transfer_ownership club_id current_owner_id new_owner_id transferred_at =
      transactional m (some false) false
        (transfer_body club_id current_owner_id new_owner_id transferred_at)

  reclaim_body : ℕ → ℕ → ℕ → Action Bool
  reclaim_body club_id former_owner_id current_owner_id = do
    reclaimed ←
        update_membership
          (λ d. has_key club_id former_owner_id d && has_status MembershipStatus.admin d)
          (set_status MembershipStatus.owner)
    raise_if (not reclaimed) transaction_error
    demoted ←
        update_membership
          (λ d. has_key club_id current_owner_id d && has_status MembershipStatus.owner d)
          (set_status MembershipStatus.admin)
    raise_if (not demoted) transaction_error
    club_updated ←
        update_club (λ c. has_id club_id c && is_id c.protected_former_owner_id former_owner_id)
          (set_transfer none none)
    raise_if (not club_updated) transaction_error
    pure true

  unfoldable pub reclaim_ownership : ℕ → ℕ → ℕ → Action Bool
  unfolding reclaim_body transactional
  reclaim_ownership club_id former_owner_id current_owner_id =
      transactional m (some false) false (reclaim_body club_id former_owner_id current_owner_id)

  unfoldable pub find_active_by_club_id : ℕ → Action (List ClubMembership)
  find_active_by_club_id club_id =
      gets (λ db. m.find (λ d. in_club club_id d && has_status_in active_statuses d) db.memberships)

  unfoldable pub find_active_membership_by_club_id_and_user_id :
      ℕ → ℕ → Action (Option ClubMembership)
  find_active_membership_by_club_id_and_user_id club_id user_id = gets (λ db.
      m.find_one (λ d. has_key club_id user_id d && has_status_in active_statuses d) db.memberships)

  unfoldable pub find_pending_by_club_id : ℕ → Action (List ClubMembership)
  find_pending_by_club_id club_id = gets (λ db.
      m.find (λ d. in_club club_id d && has_status MembershipStatus.pending d) db.memberships)

  unfoldable pub find_active_member_ids_by_club_id : ℕ → Action (List ℕ)
  find_active_member_ids_by_club_id club_id = gets (λ db.
      map (λ d. d.user_id)
        (m.find (λ d. in_club club_id d && has_status_in active_statuses d) db.memberships))

  unfoldable pub find_owner_id_by_club_id : ℕ → Action (Option ℕ)
  find_owner_id_by_club_id club_id = gets (λ db.
      elim (m.find_one (λ d. in_club club_id d && has_status MembershipStatus.owner d)
        db.memberships) [ none ↦ none | some d ↦ some d.user_id ])
