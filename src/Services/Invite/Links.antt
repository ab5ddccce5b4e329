-- ===== src/Services/Invite/Links.antt =====
-- One live invite at a time: the rotation and the creation of invites in
-- src/canterlot/services/invite.py.
use Prim.Native.String.{String}
use text.Mathlib.Text.{◌==◌ as str_eq}
use canterlot_api.Base.{
  ℕ, ◌≡◌, refl, Bool, true, false, ◌&&◌, not, none, some, [], ◌∷◌, ◌++◌, arith, is_some, is_id,
  ◌==◌,
}
use canterlot_api.Mongo.{Mongo, IsMongo, plain, eq_plain, first, update_all}
use canterlot_api.Mongo.Count.{
  count, count-append_one, count-update_all_none, count-update_all_other, count-first-none,
  first-count_zero, first-append_one, count-first-none,
}
use canterlot_api.Types.{InviteType, ◌is◌, invite_type_enum}
use canterlot_api.Models.{Invite, Database}
use canterlot_api.Effects.{ok, Outcome, Outcome-mono}
use canterlot_api.Repositories.Memberships.Roster.{KeysUnique, status_at}
use canterlot_api.Repositories.Memberships.Queries.{get_role_lem}
use canterlot_api.Repositories.Users
use canterlot_api.Repositories.Invites
use canterlot_api.Repositories.Invites.{has_invite_id, is_email, is_live, deactivated, invites_set}
use canterlot_api.Repositories.Invites.Live.{save_lem, first_id-deactivate_all}
use canterlot_api.Services.Club.Rules.{is_staff}
use canterlot_api.Services.Invite.{
  public_invite, direct_invite, rotate_public_link, get_public_link, create_external_invite,
  create_internal_invite,
}

-- The invites after those that pass `test` are deactivated and one is added.
abbrev pub renewed : (Invite → Bool) → Invite → Database → Database
renewed test invite db = invites_set (update_all test deactivated db.invites ++ invite ∷ []) db

-- The live direct invites of a club to an address, and to a user.
abbrev pub is_live_to_email : ℕ → String → Invite → Bool
is_live_to_email club_id email i =
    is_email i.target_email email && is_live club_id InviteType.direct i

abbrev pub is_live_to_user : ℕ → ℕ → Invite → Bool
is_live_to_user club_id user_id i =
    is_id i.target_user_id user_id && is_live club_id InviteType.direct i

module _ (test live : Invite → Bool) (invite : Invite) (db : Database)
    (off : (i : Invite) → live (deactivated i) ≡ false) where
  pub count-renewed :
      ((i : Invite) → live i ≡ true → test i ≡ true)
      → live invite ≡ true
      → count live (renewed test invite db).invites ≡ 1
  count-renewed covers on = ground (
    arith,
    count-append_one live (update_all test deactivated db.invites) invite,
    count-update_all_none test deactivated live db.invites covers off,
  )

  pub count-renewed_other :
      ((i : Invite) → live i ≡ true → test i ≡ false)
      → live invite ≡ false
      → count live (renewed test invite db).invites ≡ count live db.invites
  count-renewed_other apart on = ground (
    arith,
    count-append_one live (update_all test deactivated db.invites) invite,
    count-update_all_other test deactivated live db.invites apart off,
  )

  pub first-renewed :
      ((i : Invite) → live i ≡ true → test i ≡ true)
      → live invite ≡ true
      → first live (renewed test invite db).invites ≡ some invite
  first-renewed covers on = ground (
    arith,
    first-append_one live (update_all test deactivated db.invites) invite,
    count-first-none live (update_all test deactivated db.invites),
    first-count_zero live (update_all test deactivated db.invites),
    count-update_all_none test deactivated live db.invites covers off,
  )

-- The deactivations, as updates.
module _ (db : Database) where
  deactivate_public_lem :
      (club_id : ℕ)
      → Invites.deactivate_all_public_by_club_id plain club_id db ≡ (
        ok tt,
        invites_set (update_all (is_live club_id InviteType.public) deactivated db.invites) db,
      )
  unfolding Invites.deactivate_all_public_by_club_id
  deactivate_public_lem club_id = refl

  deactivate_email_lem :
      (club_id : ℕ) (email : String)
      → Invites.deactivate_all_direct_by_club_id_and_target_email plain club_id email db ≡ (
        ok tt,
        invites_set (update_all (is_live_to_email club_id email) deactivated db.invites) db,
      )
  unfolding Invites.deactivate_all_direct_by_club_id_and_target_email
  deactivate_email_lem club_id email = refl

  deactivate_user_lem :
      (club_id user_id : ℕ)
      → Invites.deactivate_all_direct_by_club_id_and_target_user_id plain club_id user_id db ≡ (
        ok tt,
        invites_set (update_all (is_live_to_user club_id user_id) deactivated db.invites) db,
      )
  unfolding Invites.deactivate_all_direct_by_club_id_and_target_user_id
  deactivate_user_lem club_id user_id = refl

  save-renewed :
      (test : Invite → Bool) (invite : Invite)
      → first (has_invite_id invite.id) db.invites ≡ none
      → Invites.save plain invite (invites_set (update_all test deactivated db.invites) db)
        ≡ (ok invite, renewed test invite db)
  save-renewed test invite fresh =
      save_lem invite (invites_set (update_all test deactivated db.invites) db)
        (first_id-deactivate_all invite.id test db.invites fresh)

  exists_by_email_lem :
      (email : String)
      → Users.exists_by_email plain email db
        ≡ (ok (is_some (first (λ u. str_eq u.email email) db.users)), db)
  unfolding Users.exists_by_email
  exists_by_email_lem email = refl

  get_public_link_lem :
      (club_id : ℕ) (invite : Invite)
      → first (is_live club_id InviteType.public) db.invites ≡ some invite
      → get_public_link plain club_id db ≡ (ok invite.id, db)
  unfolding get_public_link Invites.find_one_active_public_by_club_id
  get_public_link_lem club_id invite found = ground arith

module _ (club_id user_id new_id now : ℕ) (db : Database) (keys : KeysUnique db.memberships)
    (fresh : first (has_invite_id new_id) db.invites ≡ none) where
  rotate_plain :
      Outcome
        (is_staff (status_at club_id user_id db.memberships))
        (λ id db'.
          (id ≡ new_id)
          × (db'
              ≡ renewed (is_live club_id InviteType.public) (public_invite new_id club_id now) db))
        db
        (rotate_public_link plain club_id user_id new_id now db)
  unfolding rotate_public_link
  rotate_plain = ground (
    arith,
    get_role_lem club_id user_id db keys,
    deactivate_public_lem db club_id,
    save-renewed db (is_live club_id InviteType.public) (public_invite new_id club_id now) fresh,
  )

  pub internal_plain :
      (target_id : ℕ)
      → Outcome
          (is_staff (status_at club_id user_id db.memberships))
          (λ id db'.
            (id ≡ new_id)
            × (db'
                ≡ renewed
                    (is_live_to_user club_id target_id)
                    (direct_invite new_id club_id user_id none (some target_id) now)
                    db))
          db
          (create_internal_invite plain club_id user_id target_id new_id now db)
  unfolding create_internal_invite
  internal_plain target_id = ground (
    arith,
    get_role_lem club_id user_id db keys,
    deactivate_user_lem db club_id target_id,
    save-renewed db (is_live_to_user club_id target_id)
        (direct_invite new_id club_id user_id none (some target_id) now) fresh,
  )

  pub external_plain :
      (email : String)
      → Outcome
          (is_staff (status_at club_id user_id db.memberships)
            && not (is_some (first (λ u. str_eq u.email email) db.users)))
          (λ id db'.
            (id ≡ new_id)
            × (db'
                ≡ renewed
                    (is_live_to_email club_id email)
                    (direct_invite new_id club_id user_id (some email) none now)
                    db))
          db
          (create_external_invite plain club_id user_id email new_id now db)
  unfolding create_external_invite
  external_plain email = ground (
    arith,
    get_role_lem club_id user_id db keys,
    exists_by_email_lem db email,
    deactivate_email_lem db club_id email,
    save-renewed db (is_live_to_email club_id email)
        (direct_invite new_id club_id user_id (some email) none now) fresh,
  )

-- With unique keys of the roster and an id that no invite has, `rotate_public_link` returns exactly
-- when the user is OWNER or ADMIN of the club. It then returns the new id, the club has one live
-- public link, `get_public_link` returns it, the number of live invites of every other club and of
-- direct ones stays, and nothing but the invites changes. Where it raises, the database is as it was.
pub rotate_public_link-Outcome :
    (m : Mongo) (laws : IsMongo m) (club_id user_id new_id now : ℕ) (db : Database)
    → KeysUnique db.memberships
    → first (has_invite_id new_id) db.invites ≡ none
    → Outcome
        (is_staff (status_at club_id user_id db.memberships))
        (λ id db'.
          (id ≡ new_id)
          × (count (is_live club_id InviteType.public) db'.invites ≡ 1)
          × (get_public_link m club_id db' ≡ (ok new_id, db'))
          × ((c : ℕ) (type : InviteType)
              → (c == club_id && type is InviteType.public) ≡ false
              → count (is_live c type) db'.invites ≡ count (is_live c type) db.invites)
          × (db' ≡ invites_set db'.invites db))
        db
        (rotate_public_link m club_id user_id new_id now db)
rotate_public_link-Outcome m laws club_id user_id new_id now db keys fresh =
    let test = is_live club_id InviteType.public in
    let invite = public_invite new_id club_id now in
    rw (eq_plain m laws) (
      Outcome-mono _ _ _ db _
        (λ id db' allowed (named, e). rw e (
          named,
          count-renewed test test invite db (λ i. ground arith) (λ i h. h) (ground arith),
          get_public_link_lem (renewed test invite db) club_id invite
              (first-renewed test test invite db (λ i. ground arith) (λ i h. h) (ground arith)),
          λ c type other.
              count-renewed_other test (is_live c type) invite db (λ i. ground arith)
                (λ i h. ground arith) (ground arith),
          refl,
        ))
        (rotate_plain club_id user_id new_id now db keys fresh))
