-- ===== src/Services/Invite/Directs.antt =====
-- One live direct invite for a person at a time: `create_internal_invite` and
-- `create_external_invite` of src/canterlot/services/invite.py.
use Prim.Native.String.{String}
use text.Mathlib.Text.{◌==◌ as str_eq}
use text.Mathlib.TextPositions.{eq_refl}
use canterlot_api.Base.{ℕ, ◌≡◌, refl, ◌&&◌, not, none, some, arith, is_some}
use canterlot_api.Mongo.{Mongo, IsMongo, eq_plain, first}
use canterlot_api.Mongo.Count.{count}
use canterlot_api.Types.{InviteType, invite_type_enum}
use canterlot_api.Models.{Database}
use canterlot_api.Effects.{Outcome, Outcome-mono}
use canterlot_api.Repositories.Memberships.Roster.{KeysUnique, status_at}
use canterlot_api.Repositories.Invites.{has_invite_id, is_live, invites_set}
use canterlot_api.Services.Club.Rules.{is_staff}
use canterlot_api.Services.Invite.{direct_invite, create_external_invite, create_internal_invite}
use canterlot_api.Services.Invite.Links.{
  is_live_to_email, is_live_to_user, count-renewed, count-renewed_other, first-renewed,
  internal_plain, external_plain,
}

-- With unique keys of the roster and an id that no invite has, `create_internal_invite` returns
-- exactly when the issuer is OWNER or ADMIN of the club. It then returns the new id, and of the
-- direct invites of the club to the target the new one alone is live, for a week. The live public
-- links of every club stay in number, and nothing but the invites changes. Where it raises, the
-- database is as it was.
pub create_internal_invite-Outcome :
    (m : Mongo) (laws : IsMongo m) (club_id issuer_id target_id new_id now : ℕ) (db : Database)
    → KeysUnique db.memberships
    → first (has_invite_id new_id) db.invites ≡ none
    → Outcome
        (is_staff (status_at club_id issuer_id db.memberships))
        (λ id db'.
          (id ≡ new_id)
          × (count (is_live_to_user club_id target_id) db'.invites ≡ 1)
          × (first (is_live_to_user club_id target_id) db'.invites
              ≡ some (direct_invite new_id club_id issuer_id none (some target_id) now))
          × ((c : ℕ)
              → count (is_live c InviteType.public) db'.invites
                ≡ count (is_live c InviteType.public) db.invites)
          × (db' ≡ invites_set db'.invites db))
        db
        (create_internal_invite m club_id issuer_id target_id new_id now db)
create_internal_invite-Outcome m laws club_id issuer_id target_id new_id now db keys fresh =
    let test = is_live_to_user club_id target_id in
    let invite = direct_invite new_id club_id issuer_id none (some target_id) now in
    rw (eq_plain m laws) (
      Outcome-mono _ _ _ db _
        (λ id db' allowed (named, e). rw e (
          named,
          count-renewed test test invite db (λ i. ground arith) (λ i h. h) (ground arith),
          first-renewed test test invite db (λ i. ground arith) (λ i h. h) (ground arith),
          λ c.
              count-renewed_other test (is_live c InviteType.public) invite db (λ i. ground arith)
                (λ i h. ground arith) (ground arith),
          refl,
        ))
        (internal_plain club_id issuer_id new_id now db keys fresh target_id))

-- With unique keys of the roster and an id that no invite has, `create_external_invite` returns
-- exactly when the issuer is OWNER or ADMIN of the club and no user is registered under the
-- address. It then returns the new id, and of the direct invites of the club to the address the new
-- one alone is live, for a week. The live public links of every club stay in number, and nothing
-- but the invites changes. Where it raises, the database is as it was.
pub create_external_invite-Outcome :
    (m : Mongo) (laws : IsMongo m) (club_id issuer_id : ℕ) (email : String) (new_id now : ℕ)
    (db : Database)
    → KeysUnique db.memberships
    → first (has_invite_id new_id) db.invites ≡ none
    → Outcome
        (is_staff (status_at club_id issuer_id db.memberships)
          && not (is_some (first (λ u. str_eq u.email email) db.users)))
        (λ id db'.
          (id ≡ new_id)
          × (count (is_live_to_email club_id email) db'.invites ≡ 1)
          × (first (is_live_to_email club_id email) db'.invites
              ≡ some (direct_invite new_id club_id issuer_id (some email) none now))
          × ((c : ℕ)
              → count (is_live c InviteType.public) db'.invites
                ≡ count (is_live c InviteType.public) db.invites)
          × (db' ≡ invites_set db'.invites db))
        db
        (create_external_invite m club_id issuer_id email new_id now db)
create_external_invite-Outcome m laws club_id issuer_id email new_id now db keys fresh =
    let same = eq_refl email in
    let test = is_live_to_email club_id email in
    let invite = direct_invite new_id club_id issuer_id (some email) none now in
    rw (eq_plain m laws) (
      Outcome-mono _ _ _ db _
        (λ id db' allowed (named, e). rw e (
          named,
          count-renewed test test invite db (λ i. ground arith) (λ i h. h) (ground arith),
          first-renewed test test invite db (λ i. ground arith) (λ i h. h) (ground arith),
          λ c.
              count-renewed_other test (is_live c InviteType.public) invite db (λ i. ground arith)
                (λ i h. ground arith) (ground arith),
          refl,
        ))
        (external_plain club_id issuer_id new_id now db keys fresh email))
