-- ===== src/Repositories/Memberships/Queries.antt =====
-- The calls of src/canterlot/repositories/beanie/club_membership.py on a roster with unique keys,
-- answered and written through `status_at`.
use canterlot_api.Base.{
  ℕ, ◌≡◌, Bool, true, false, ◌&&◌, Option, none, some, arith, is_some, if◌then◌else◌, Option-cases,
  inl, inr,
}
use canterlot_api.Mongo.{plain, first, update_first}
use canterlot_api.Mongo.Count.{first-narrow, update_first-narrow, any-first, update_first-none}
use canterlot_api.Types.{MembershipStatus, ◌is◌, one_of, status_enum}
use canterlot_api.Models.{ClubMembership, Database}
use canterlot_api.Effects.{ok}
use canterlot_api.Repositories.Memberships
use canterlot_api.Repositories.Memberships.{
  has_key, has_status, has_status_in, set_status, set_member, role_of_status, active_statuses,
  promotable_statuses, status_of_role, memberships_set,
}
use canterlot_api.Repositories.Memberships.Roster.{KeysUnique, status_at, role_at}

-- A test of a status that may be absent.
abbrev pub passes : (MembershipStatus → Bool) → Option MembershipStatus → Bool
passes test none = false
passes test (some status) = test status

abbrev pub holds_status : MembershipStatus → Option MembershipStatus → Bool
holds_status s = passes (λ status. status is s)

abbrev pub is_promotable : Option MembershipStatus → Bool
is_promotable = passes (λ status. one_of status promotable_statuses)

-- The database with a new status at one place of the roster.
abbrev pub restatus : ℕ → ℕ → MembershipStatus → Database → Database
restatus club_id user_id status db =
    memberships_set (update_first (has_key club_id user_id) (set_status status) db.memberships) db

module _ (club_id user_id : ℕ) (db : Database) (unique : KeysUnique db.memberships) where
  pub get_role_lem :
      Memberships.find_member_role_by_club_id_and_user_id plain club_id user_id db
      ≡ (ok (role_at club_id user_id db.memberships), db)
  unfolding Memberships.find_member_role_by_club_id_and_user_id
  get_role_lem = ground (
    arith,
    first-narrow (has_key club_id user_id) (has_status_in active_statuses) db.memberships
        (unique club_id user_id),
  )

  pub exists_member_lem :
      Memberships.exists_by_club_id_and_member_user_id plain club_id user_id db
      ≡ (ok (is_some (role_at club_id user_id db.memberships)), db)
  unfolding Memberships.exists_by_club_id_and_member_user_id
  exists_member_lem = ground (
    arith,
    first-narrow (has_key club_id user_id) (has_status_in active_statuses) db.memberships
        (unique club_id user_id),
  )

  pub exists_pending_lem :
      Memberships.exists_by_club_id_and_pending_user_id plain club_id user_id db
      ≡ (ok (holds_status MembershipStatus.pending (status_at club_id user_id db.memberships)), db)
  unfolding Memberships.exists_by_club_id_and_pending_user_id
  exists_pending_lem = ground (
    arith,
    first-narrow (has_key club_id user_id) (has_status MembershipStatus.pending) db.memberships
        (unique club_id user_id),
  )

  pub exists_banned_lem :
      Memberships.exists_by_club_id_and_banned_user_id plain club_id user_id db
      ≡ (ok (holds_status MembershipStatus.banned (status_at club_id user_id db.memberships)), db)
  unfolding Memberships.exists_by_club_id_and_banned_user_id
  exists_banned_lem = ground (
    arith,
    first-narrow (has_key club_id user_id) (has_status MembershipStatus.banned) db.memberships
        (unique club_id user_id),
  )

  pub update_membership_lem :
      (test : MembershipStatus → Bool) (status : MembershipStatus)
      → Memberships.update_membership plain
          (λ d. has_key club_id user_id d && test d.status)
          (set_status status)
          db
        ≡ (if passes test (status_at club_id user_id db.memberships)
            then (ok true, restatus club_id user_id status db)
            else (ok false, db))
  unfolding Memberships.update_membership
  update_membership_lem test status =
      let ds = db.memberships in
      let narrow : ClubMembership → Bool = λ d. has_key club_id user_id d && test d.status in
      elim (Option-cases (first (has_key club_id user_id) ds)) [
        | inl absent ↦ ground (
          arith,
          first-narrow (has_key club_id user_id) (λ d. test d.status) ds (unique club_id user_id),
          any-first narrow ds,
          update_first-none narrow (set_status status) ds,
        )
        | inr (d, found) ↦ ground (
          arith,
          first-narrow (has_key club_id user_id) (λ e. test e.status) ds (unique club_id user_id),
          any-first narrow ds,
          update_first-none narrow (set_status status) ds,
          update_first-narrow (has_key club_id user_id) (λ e. test e.status) (set_status status) ds
              d (unique club_id user_id) found,
        )
      ]
