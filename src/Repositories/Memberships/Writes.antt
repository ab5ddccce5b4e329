-- ===== src/Repositories/Memberships/Writes.antt =====
-- What the writing calls of src/canterlot/repositories/beanie/club_membership.py do to a roster with
-- unique keys.
use canterlot_api.Base.{
  ℕ, ◌≡◌, refl, Bool, true, false, ◌&&◌, Option, none, some, [], ◌∷◌, ◌++◌, arith, ◌==◌, any,
  is_some, is_id, if◌then◌else◌,
}
use canterlot_api.Mongo.{plain, update_first}
use canterlot_api.Mongo.Count.{any-first}
use canterlot_api.Types.{MemberRole, MembershipStatus, ◌is◌, one_of, status_enum}
use canterlot_api.Models.{Club, ClubMembership, Database}
use canterlot_api.Effects.{ok, err, duplicate_key}
use canterlot_api.Repositories.Memberships
use canterlot_api.Repositories.Memberships.{
  has_id, has_key, has_status, set_status, set_member, set_transfer, promotable_statuses,
  status_of_role, memberships_set, clubs_set,
}
use canterlot_api.Repositories.Memberships.Roster.{
  KeysUnique, status_at, status_at-update_first, placed,
}
use canterlot_api.Repositories.Memberships.Queries.{
  holds_status, is_promotable, restatus, update_membership_lem,
}
use canterlot_api.Repositories.Memberships.Sound.{count_key-update_first}

abbrev pub new_member : ℕ → ℕ → MembershipStatus → ℕ → ClubMembership
new_member club_id user_id status joined_at = record {
  club_id = club_id;
  user_id = user_id;
  status = status;
  joined_at = some joined_at;
  requested_at = none;
}

abbrev pub new_request : ℕ → ℕ → ℕ → ClubMembership
new_request club_id user_id requested_at = record {
  club_id = club_id;
  user_id = user_id;
  status = MembershipStatus.pending;
  joined_at = none;
  requested_at = some requested_at;
}

-- The owner of a club becomes an admin, and another member its owner.
abbrev pub handed : ℕ → ℕ → ℕ → Database → Database
handed club_id new_owner old_owner db =
    restatus club_id old_owner MembershipStatus.admin
      (restatus club_id new_owner MembershipStatus.owner db)

abbrev pub stamped : ℕ → Option ℕ → Option ℕ → Database → Database
stamped club_id at former db =
    clubs_set (update_first (has_id club_id) (set_transfer at former) db.clubs) db

pub restatus-KeysUnique :
    (club_id user_id : ℕ) (status : MembershipStatus) (db : Database)
    → KeysUnique db.memberships
    → KeysUnique (restatus club_id user_id status db).memberships
restatus-KeysUnique club_id user_id status db unique a b = omega (
  arith,
  count_key-update_first club_id user_id (set_status status) (λ k l d. refl) db.memberships a b,
  unique a b,
)

pub status_at-restatus :
    (club_id user_id : ℕ) (status : MembershipStatus) (db : Database) (c u : ℕ)
    → is_some (status_at club_id user_id db.memberships) ≡ true
    → status_at c u (restatus club_id user_id status db).memberships
      ≡ placed club_id user_id (some status) db.memberships c u
status_at-restatus club_id user_id status db c u there =
    status_at-update_first c u club_id user_id db.memberships (set_status status) status
      (λ k l d. refl) (λ d. refl) there

module _ (club_id user_id : ℕ) (at : ℕ) (db : Database) where
  pub upsert_member_lem :
      (role : MemberRole)
      → Memberships.upsert_member plain club_id user_id role at db ≡ (
        ok tt,
        memberships_set
            (if is_some (status_at club_id user_id db.memberships)
              then update_first
                  (has_key club_id user_id)
                  (set_member (status_of_role role) at)
                  db.memberships
              else (db.memberships ++ new_member club_id user_id (status_of_role role) at ∷ []))
            db,
      )
  unfolding Memberships.upsert_member
  upsert_member_lem role = ground (arith, any-first (has_key club_id user_id) db.memberships)

  pub create_pending_request_lem :
      Memberships.create_pending_request plain club_id user_id at db ≡ (
        if is_some (status_at club_id user_id db.memberships)
        then (err duplicate_key, db)
        else (ok tt, memberships_set (db.memberships ++ new_request club_id user_id at ∷ []) db))
  unfolding Memberships.create_pending_request
  create_pending_request_lem = ground (arith, any-first (has_key club_id user_id) db.memberships)

pub update_club_lem :
    (db : Database) (p : Club → Bool) (f : Club → Club)
    → Memberships.update_club plain p f db
      ≡ (ok (any p db.clubs), clubs_set (update_first p f db.clubs) db)
unfolding Memberships.update_club
update_club_lem db p f = ground arith

module _ (club_id new_owner old_owner : ℕ) (db : Database)
    (unique : KeysUnique db.memberships) where
  pub transfer_ownership_lem :
      (at : ℕ)
      → (old_owner == new_owner) ≡ false
      → Memberships.transfer_ownership plain club_id old_owner new_owner at db ≡ (
          if is_promotable (status_at club_id new_owner db.memberships)
            && (holds_status MembershipStatus.owner (status_at club_id old_owner db.memberships)
                && any (has_id club_id) db.clubs)
          then (
            ok true,
            stamped club_id (some at) (some old_owner) (handed club_id new_owner old_owner db),
          )
          else (ok false, db))
  unfolding Memberships.transfer_ownership
  transfer_ownership_lem at apart =
      let promoted = restatus club_id new_owner MembershipStatus.owner db in
      ground (
        arith,
        update_membership_lem club_id new_owner db unique (λ t. one_of t promotable_statuses)
            MembershipStatus.owner,
        update_membership_lem club_id old_owner promoted
            (restatus-KeysUnique club_id new_owner MembershipStatus.owner db unique)
            (λ t. t is MembershipStatus.owner) MembershipStatus.admin,
        status_at-restatus club_id new_owner MembershipStatus.owner db club_id old_owner,
        update_club_lem (handed club_id new_owner old_owner db) (has_id club_id)
            (set_transfer (some at) (some old_owner)),
      )

-- The stored club that `former` may reclaim.
abbrev pub reclaimable : ℕ → ℕ → Club → Bool
reclaimable club_id former c = has_id club_id c && is_id c.protected_former_owner_id former

module _ (club_id former current : ℕ) (db : Database) (unique : KeysUnique db.memberships) where
  pub reclaim_ownership_lem :
      (current == former) ≡ false
      → Memberships.reclaim_ownership plain club_id former current db ≡ (
          if holds_status MembershipStatus.admin (status_at club_id former db.memberships)
            && (holds_status MembershipStatus.owner (status_at club_id current db.memberships)
                && any (reclaimable club_id former) db.clubs)
          then (
            ok true,
            clubs_set
                (update_first (reclaimable club_id former) (set_transfer none none) db.clubs)
                (handed club_id former current db),
          )
          else (ok false, db))
  unfolding Memberships.reclaim_ownership
  reclaim_ownership_lem apart =
      let promoted = restatus club_id former MembershipStatus.owner db in
      ground (
        arith,
        update_membership_lem club_id former db unique (λ t. t is MembershipStatus.admin)
            MembershipStatus.owner,
        update_membership_lem club_id current promoted
            (restatus-KeysUnique club_id former MembershipStatus.owner db unique)
            (λ t. t is MembershipStatus.owner) MembershipStatus.admin,
        status_at-restatus club_id former MembershipStatus.owner db club_id current,
        update_club_lem (handed club_id former current db) (reclaimable club_id former)
            (set_transfer none none),
      )

  pub reclaim_ownership-no_admin :
      holds_status MembershipStatus.admin (status_at club_id former db.memberships) ≡ false
      → Memberships.reclaim_ownership plain club_id former current db ≡ (ok false, db)
  unfolding Memberships.reclaim_ownership
  reclaim_ownership-no_admin other = ground (
    arith,
    update_membership_lem club_id former db unique (λ t. t is MembershipStatus.admin)
        MembershipStatus.owner,
  )
