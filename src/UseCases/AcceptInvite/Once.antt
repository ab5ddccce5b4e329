-- ===== src/UseCases/AcceptInvite/Once.antt =====
-- A direct invite is used up by the first user whom it lets in:
-- src/canterlot/use_cases/accept_invite.py.
use Prim.Native.String.{String}
use canterlot_api.Base.{
  ℕ, ◌≡◌, ◌≤◌, refl, List, Bool-cases, inl, inr, none, subst, true, false, Option, some, arith,
  if◌then◌else◌,
}
use canterlot_api.Mongo.{Mongo, IsMongo, plain, eq_plain, first, update_first}
use canterlot_api.Mongo.Count.{count, first-delete_all, count-update_first-same}
use canterlot_api.Types.{InviteType, ◌is◌, onboarding_enum, invite_type_enum}
use canterlot_api.Models.{Club, Invite, User, Database}
use canterlot_api.Effects.{ok, err, invite_link_deactivated, invalid_invite_token, Outcome}
use canterlot_api.Repositories.Memberships.Sound.{IsSound}
use canterlot_api.Repositories.Invites.{
  has_invite_id, used_once_more, deactivated, is_gone, expired_removed,
}
use canterlot_api.Repositories.Invites.Live.{find_by_id_lem}
use canterlot_api.Services.Club.Admission.{ClubOnboarding}
use canterlot_api.Services.Invite.{validate_incoming_invite}
use canterlot_api.Services.Invite.Validation.{club_of}
use canterlot_api.Services.Invite.Usage.{spent, spent_in, first-spent_in}
use canterlot_api.UseCases.AcceptInvite.{accept_invite}
use canterlot_api.UseCases.AcceptInvite.Admitted.{
  enters, accept_allowed, way_in, Accepted, accept_plain,
}

module _ (lower : String → String) (invite_id : ℕ) (invite : Invite) (db : Database)
    (found : first (has_invite_id invite_id) db.invites ≡ some invite)
    (spent_already : invite.is_active ≡ false) where
  validate_inactive :
      (email : Option String) (user_id : Option ℕ) (given : Option String) (now : ℕ)
      → validate_incoming_invite plain lower invite_id email user_id given now db
        ≡ (err invite_link_deactivated, db)
  unfolding validate_incoming_invite
  validate_inactive email user_id given now = ground (arith, find_by_id_lem invite_id db)

  accept_inactive :
      (user : User) (validated_at admitted_at : ℕ)
      → accept_invite plain lower invite_id user validated_at admitted_at db
        ≡ (err invite_link_deactivated, db)
  unfolding accept_invite
  accept_inactive user validated_at admitted_at =
      ground (arith, validate_inactive (some user.email) (some user.id) none validated_at)

module _ (lower : String → String) (invite_id : ℕ) (db : Database)
    (missing : first (has_invite_id invite_id) db.invites ≡ none) where
  validate_missing :
      (email : Option String) (user_id : Option ℕ) (given : Option String) (now : ℕ)
      → validate_incoming_invite plain lower invite_id email user_id given now db
        ≡ (err invalid_invite_token, db)
  unfolding validate_incoming_invite
  validate_missing email user_id given now = ground (arith, find_by_id_lem invite_id db)

  accept_missing :
      (user : User) (validated_at admitted_at : ℕ)
      → accept_invite plain lower invite_id user validated_at admitted_at db
        ≡ (err invalid_invite_token, db)
  unfolding accept_invite
  accept_missing user validated_at admitted_at =
      ground (arith, validate_missing (some user.email) (some user.id) none validated_at)

count_spent :
    (invite : Invite) (invite_id k : ℕ) (ds : List Invite)
    → count (has_invite_id k) (spent_in invite invite_id ds) ≡ count (has_invite_id k) ds
count_spent invite invite_id k ds =
    let once = update_first (has_invite_id invite_id) used_once_more ds in
    ground (
      arith,
      count-update_first-same (has_invite_id invite_id) (has_invite_id k) used_once_more ds
          (λ d. refl),
      count-update_first-same (has_invite_id invite_id) (has_invite_id k) deactivated once
          (λ d. refl),
    )

-- A spent direct invite, before and after the server has removed it.
module _ (lower : String → String) (invite_id : ℕ) (invite : Invite) (db : Database)
    (found : first (has_invite_id invite_id) db.invites ≡ some invite)
    (spent_already : invite.is_active ≡ false)
    (once : count (has_invite_id invite_id) db.invites ≤ 1) where
  accept_spent :
      (swept : Option ℕ) (user : User) (validated_at admitted_at : ℕ)
      → accept_invite plain lower invite_id user validated_at admitted_at (expired_removed swept db)
        ≡ (
          err (if is_gone swept invite then invalid_invite_token else invite_link_deactivated),
          expired_removed swept db,
        )
  accept_spent swept user validated_at admitted_at =
      let at = first-delete_all (is_gone swept) (has_invite_id invite_id) db.invites once in
      elim (Bool-cases (is_gone swept invite)) [
        | inl gone ↦ rw gone (
            accept_missing lower invite_id (expired_removed swept db) (ground (arith, at)) user
              validated_at admitted_at)
        | inr stays ↦ rw stays (
            accept_inactive lower invite_id invite (expired_removed swept db) (ground (arith, at))
              spent_already user validated_at admitted_at)
      ]

gone_spent :
    (swept : Option ℕ) (invite : Invite) → is_gone swept invite ≡ is_gone swept (spent invite)
gone_spent none invite = refl
gone_spent (some at) invite = refl

-- In a sound database and for a stored invite to a stored club, with an id of its own: once
-- `accept_invite` has let a user join, or wait, by a direct invite, every later `accept_invite` of the
-- invite raises and changes nothing, for whichever user and at whatever time. It raises
-- InviteLinkDeactivatedError, or InvalidInviteTokenError once the server has removed the invite, after
-- its time.
pub accept_invite_once :
    (m : Mongo) (laws : IsMongo m) (lower : String → String) (invite_id : ℕ) (user : User)
    (validated_at admitted_at : ℕ) (invite : Invite) (club : Club) (db db' : Database)
    (onboarding : ClubOnboarding)
    → IsSound db
    → first (has_invite_id invite_id) db.invites ≡ some invite
    → count (has_invite_id invite_id) db.invites ≤ 1
    → club_of invite db ≡ some club
    → (invite.type is InviteType.direct) ≡ true
    → accept_invite m lower invite_id user validated_at admitted_at db ≡ (ok onboarding, db')
    → enters onboarding.status ≡ true
    → (swept : Option ℕ) (other : User) (later even_later : ℕ)
    → accept_invite m lower invite_id other later even_later (expired_removed swept db') ≡ (
      err (if is_gone swept invite then invalid_invite_token else invite_link_deactivated),
      expired_removed swept db',
    )
accept_invite_once m laws lower invite_id user validated_at admitted_at invite club db db'
      onboarding sound found once stored direct accepted let_in swept other later even_later =
    let (allowed, (named, (entered, e, written))) =
      subst
        (Outcome (accept_allowed lower invite_id user validated_at admitted_at invite club db)
          (Accepted invite_id invite user.id club.name db
            (way_in lower invite_id user validated_at admitted_at invite club db))
          db)
        (subst
          (λ k.
            accept_invite k lower invite_id user validated_at admitted_at db ≡ (ok onboarding, db'))
          (eq_plain m laws) accepted)
        (accept_plain lower invite_id user validated_at admitted_at invite club db sound found
          stored) in
    let spends : db'.invites ≡ spent_in invite invite_id db.invites =
      ground (arith, named, written) in
    rw (eq_plain m laws, gone_spent swept invite)
      (accept_spent lower invite_id (spent invite) db'
        (ground (arith, spends, first-spent_in invite_id invite db found invite_id)) (ground arith)
        (ground (arith, spends, count_spent invite invite_id invite_id db.invites)) swept other
        later even_later)
