-- ===== src/Tests/Invites.antt =====
-- The theorems on invites at the sample.
use canterlot_api.Base.{
  ℕ, ◌≡◌, refl, false, ◌&&◌, not, none, some, arith, ◌==◌, if◌then◌else◌, is_some,
}
use canterlot_api.Mongo.{plain, plain-IsMongo, first}
use canterlot_api.Types.{ClubOnboardingStatus, InviteType, ◌is◌, onboarding_enum, invite_type_enum}
use canterlot_api.Models.{Database}
use canterlot_api.Effects.{ok, Outcome, err, invite_link_deactivated, invalid_invite_token}
use canterlot_api.Repositories.Memberships.Roster.{status_at}
use canterlot_api.Repositories.Invites
use canterlot_api.Repositories.Invites.{
  has_invite_id, invites_set, used_once_more, deactivated, is_gone, expired_removed, is_email,
  is_live,
}
use canterlot_api.Services.Club.Admission.{ClubOnboarding, admit_user}
use canterlot_api.Services.Club.Entering.{Entered}
use canterlot_api.Services.Invite.{
  validate_incoming_invite, direct_invite, rotate_public_link, get_public_link,
  create_external_invite, create_internal_invite, resolve_inviter_username, register_invite_usage,
}
use canterlot_api.Services.Invite.Validation.{
  is_open, lets_in, Says, validate_incoming_invite-Outcome,
}
use canterlot_api.Services.Invite.Usage.{spent}
use canterlot_api.UseCases.AcceptInvite.{record_usage, accept_invite}
use canterlot_api.UseCases.AcceptInvite.Admitted.{
  enters, way_in, accept_allowed, accept_invite-Outcome,
}
use canterlot_api.Mongo.Count.{count}
use canterlot_api.UseCases.AcceptInvite.Once.{accept_invite_once}
use text.Mathlib.Text.{◌==◌ as str_eq}
use canterlot_api.Repositories.Users
use canterlot_api.Services.Club.Rules.{is_staff}
use canterlot_api.Services.Invite.Links.{
  is_live_to_email, is_live_to_user, rotate_public_link-Outcome,
}
use canterlot_api.Services.Invite.Directs.{
  create_internal_invite-Outcome, create_external_invite-Outcome,
}
use canterlot_api.Repositories.Memberships
use canterlot_api.Repositories.Memberships.{has_id}
use canterlot_api.Repositories.Clubs
use canterlot_api.Tests.Samples.{
  readers, applejack, rarity, personal, sample, sample-IsSound, lower,
}

abbrev welcome : ClubOnboarding
welcome = record { club_name = "Readers"; status = ClubOnboardingStatus.joined }

-- The sample once Rarity has used her invite.
abbrev rarity_in : Database
rarity_in = (accept_invite plain lower 101 rarity 200 201 sample).1

rarity_joins : accept_invite plain lower 101 rarity 200 201 sample ≡ (ok welcome, rarity_in)
unfolding accept_invite record_usage validate_incoming_invite register_invite_usage admit_user
    resolve_inviter_username Invites.find_by_id Invites.increment_uses_count_by_id
    Invites.deactivate_by_id Clubs.find_by_id Clubs.find_club_name_by_id Users.find_username_by_id
    Memberships.exists_by_club_id_and_member_user_id Memberships.upsert_member
rarity_joins = refl

accept_invite-Outcome_example :
    Outcome
      (accept_allowed lower 101 rarity 200 201 personal readers sample)
      (λ onboarding db'.
        (onboarding ≡ record {
          club_name = readers.name;
          status = way_in lower 101 rarity 200 201 personal readers sample;
        })
        × ((entered : Database) × Entered personal.club_id rarity.id sample
              (way_in lower 101 rarity 200 201 personal readers sample)
              entered
            × (db' ≡ invites_set db'.invites entered))
        × ((k : ℕ)
            → first (has_invite_id k) db'.invites ≡ (
                if k == 101 && enters (way_in lower 101 rarity 200 201 personal readers sample)
                then some (spent personal)
                else first (has_invite_id k) sample.invites)))
      sample
      (accept_invite plain lower 101 rarity 200 201 sample)
accept_invite-Outcome_example =
    accept_invite-Outcome plain plain-IsMongo lower 101 rarity 200 201 personal readers sample
      sample-IsSound refl refl

accept_invite_once_example :
    accept_invite plain lower 101 applejack 300 301
      (expired_removed (some 604800000000000) rarity_in)
    ≡ (
      err (
          if is_gone (some 604800000000000) personal
          then invalid_invite_token
          else invite_link_deactivated),
      expired_removed (some 604800000000000) rarity_in,
    )
accept_invite_once_example =
    accept_invite_once plain plain-IsMongo lower 101 rarity 200 201 personal readers sample
      rarity_in welcome sample-IsSound refl (omega arith) refl refl rarity_joins refl
      (some 604800000000000) applejack 300 301

rotate_public_link-Outcome_example :
    Outcome
      (is_staff (status_at 2 10 sample.memberships))
      (λ id db'.
        (id ≡ 103)
        × (count (is_live 2 InviteType.public) db'.invites ≡ 1)
        × (get_public_link plain 2 db' ≡ (ok 103, db'))
        × ((c : ℕ) (type : InviteType)
            → (c == 2 && type is InviteType.public) ≡ false
            → count (is_live c type) db'.invites ≡ count (is_live c type) sample.invites)
        × (db' ≡ invites_set db'.invites sample))
      sample
      (rotate_public_link plain 2 10 103 200 sample)
rotate_public_link-Outcome_example =
    rotate_public_link-Outcome plain plain-IsMongo 2 10 103 200 sample sample-IsSound.keys refl

create_internal_invite-Outcome_example :
    Outcome
      (is_staff (status_at 1 11 sample.memberships))
      (λ id db'.
        (id ≡ 103)
        × (count (is_live_to_user 1 15) db'.invites ≡ 1)
        × (first (is_live_to_user 1 15) db'.invites
            ≡ some (direct_invite 103 1 11 none (some 15) 200))
        × ((c : ℕ)
            → count (is_live c InviteType.public) db'.invites
              ≡ count (is_live c InviteType.public) sample.invites)
        × (db' ≡ invites_set db'.invites sample))
      sample
      (create_internal_invite plain 1 11 15 103 200 sample)
create_internal_invite-Outcome_example =
    create_internal_invite-Outcome plain plain-IsMongo 1 11 15 103 200 sample sample-IsSound.keys
      refl

create_external_invite-Outcome_example :
    Outcome
      (is_staff (status_at 1 11 sample.memberships)
        && not (is_some (first (λ u. str_eq u.email "pinkie@example.org") sample.users)))
      (λ id db'.
        (id ≡ 103)
        × (count (is_live_to_email 1 "pinkie@example.org") db'.invites ≡ 1)
        × (first (is_live_to_email 1 "pinkie@example.org") db'.invites
            ≡ some (direct_invite 103 1 11 (some "pinkie@example.org") none 200))
        × ((c : ℕ)
            → count (is_live c InviteType.public) db'.invites
              ≡ count (is_live c InviteType.public) sample.invites)
        × (db' ≡ invites_set db'.invites sample))
      sample
      (create_external_invite plain 1 11 "pinkie@example.org" 103 200 sample)
create_external_invite-Outcome_example =
    create_external_invite-Outcome plain plain-IsMongo 1 11 "pinkie@example.org" 103 200 sample
      sample-IsSound.keys refl

validate_incoming_invite-Outcome_example :
    Outcome
      (is_open (first (has_invite_id 101) sample.invites) 200
        && lets_in
            (first (has_invite_id 101) sample.invites)
            (some "rarity@example.org")
            (some 15)
            sample)
      (λ result db'.
        Says lower 101
          (some "rarity@example.org")
          (some 15)
          none
          200
          sample
          (first (has_invite_id 101) sample.invites)
          result
        × (db' ≡ sample))
      sample
      (validate_incoming_invite plain lower 101
        (some "rarity@example.org")
        (some 15)
        none
        200
        sample)
validate_incoming_invite-Outcome_example =
    validate_incoming_invite-Outcome plain plain-IsMongo lower 101 (some "rarity@example.org")
      (some 15) none 200 sample
