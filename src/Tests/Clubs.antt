-- ===== src/Tests/Clubs.antt =====
-- The theorems on the club service at the sample.
use canterlot_api.Base.{
  ℕ, ◌+◌, ◌≡◌, refl, true, false, ◌&&◌, some, [], ◌∷◌, arith, ◌==◌, if◌then◌else◌, none, not,
}
use canterlot_api.Mongo.{plain, plain-IsMongo, first, update_first, delete_first}
use canterlot_api.Mongo.Count.{count}
use canterlot_api.Types.{
  MembershipStatus, status_enum, MemberRole, role_enum, policy_enum, round_status_enum,
}
use canterlot_api.Models.{Club, Database}
use canterlot_api.Effects.{ok, err, Outcome, duplicate_key}
use canterlot_api.Repositories.Memberships
use canterlot_api.Repositories.Memberships.{
  has_id, set_transfer, in_club, has_key, has_status, has_status_in, active_statuses, clubs_set,
  set_status, set_member, status_of_role, memberships_set, promotable_statuses,
}
use canterlot_api.Repositories.Memberships.Roster.{status_at, placed}
use canterlot_api.Repositories.Memberships.Sound.{IsSound}
use canterlot_api.Repositories.Memberships.Writes.{reclaimable}
use canterlot_api.Services.Club.Ownership.{transfer_ownership, reclaim_ownership, dissolve_club}
use canterlot_api.Services.Club.Transfer.{transfer_allowed, swapped, transfer_ownership-Outcome}
use canterlot_api.Services.Club.Reclaim.{reclaim_allowed, reclaim_ownership-Outcome}
use canterlot_api.Services.Club.HandBack.{reclaim_ownership-transfer_ownership}
use canterlot_api.Services.Club.Views.{get_club_view}
use canterlot_api.Services.Club.Rules.{is_active, is_staff, Becomes, keeps_role}
use canterlot_api.Services.Club.Viewing.{Shows, get_club_view-Outcome}
use canterlot_api.Repositories.Clubs
use canterlot_api.Repositories.Clubs.{in_catalog_of}
use canterlot_api.Services.Club.Creation.{create_new_club}
use canterlot_api.Services.Club.Admission.{admit_user, review_pending_request}
use canterlot_api.Services.Club.Moderation.{remove_member, change_member_role, leave_club}
use canterlot_api.Services.Club.Founding.{
  Founded, create_new_club-Outcome, free_slug, founding_allowed,
}
use canterlot_api.Services.Club.Entering.{
  Entered, admit_user-Outcome, entry, asks_again, admit_user_asks_again,
}
use canterlot_api.Services.Club.Review.{review_pending_request-Outcome, review_allowed}
use canterlot_api.Services.Club.Removal.{remove_member-Outcome, removal_allowed}
use canterlot_api.Services.Club.RoleChange.{RoleChanged, change_member_role-Outcome, change_allowed}
use canterlot_api.Services.Club.Leaving.{leave_club-Outcome, leave_allowed}
use canterlot_api.Services.Club.Customizing.{update_settings}
use canterlot_api.Services.Club.Dissolution.{dissolve_club-Outcome, dissolve_allowed}
use canterlot_api.Services.Club.Reach.{Step, Reaches, Reaches-IsSound}
use canterlot_api.Services.Club.Settings.{new_slug}
use canterlot_api.Services.Club.Settings.Change.{Customized, update_settings-Outcome}
use canterlot_api.Tests.Samples.{
  cfg, readers, poets, rainbow, sample, sample-IsSound, same_text, request, renaming,
  sample-SlugsUnique,
}

reclaim_ownership-transfer_ownership_example :
    (db' : Database) × (transfer_ownership plain cfg readers 10 "rainbow" 200 sample
      ≡ (ok (200 + cfg.reclaim_window), db'))
    × ((loaded : Club)
        → first (has_id readers.id) db'.clubs ≡ some loaded
        → (db'' : Database) × (reclaim_ownership plain cfg loaded 10 300 db'
            ≡ (ok rainbow.id, db''))
          × ((c u : ℕ)
              → status_at c u db''.memberships ≡ (
                  if c == readers.id && u == rainbow.id
                  then some MembershipStatus.admin
                  else status_at c u sample.memberships)))
reclaim_ownership-transfer_ownership_example =
    reclaim_ownership-transfer_ownership plain plain-IsMongo cfg readers 10 "rainbow" rainbow 200
      300 sample sample-IsSound refl refl (omega arith)

get_club_view-Outcome_example :
    Outcome
      (is_active (status_at readers.id 10 sample.memberships))
      (λ view db'. Shows readers 10 sample view × (db' ≡ sample))
      sample
      (get_club_view plain readers 10 sample)
get_club_view-Outcome_example =
    get_club_view-Outcome plain plain-IsMongo readers 10 sample sample-IsSound

Reaches-IsSound_example : IsSound ((remove_member plain cfg readers 10 12 200 sample).1)
Reaches-IsSound_example =
    Reaches-IsSound plain plain-IsMongo same_text cfg sample
      ((remove_member plain cfg readers 10 12 200 sample).1) sample-IsSound
      (Reaches.then_step sample sample ((remove_member plain cfg readers 10 12 200 sample).1)
        (Reaches.here sample) (Step.removed readers 10 12 200 sample))

transfer_ownership-Outcome_example :
    Outcome
      (transfer_allowed cfg readers 10 "rainbow" rainbow 200 sample)
      (λ deadline db'.
        (deadline ≡ 200 + cfg.reclaim_window)
        × (db'.clubs
            ≡ update_first (has_id readers.id) (set_transfer (some 200) (some 10)) sample.clubs)
        × ((c u : ℕ) → status_at c u db'.memberships ≡ swapped readers.id rainbow.id 10 sample c u)
        × IsSound db')
      sample
      (transfer_ownership plain cfg readers 10 "rainbow" 200 sample)
transfer_ownership-Outcome_example =
    transfer_ownership-Outcome plain plain-IsMongo cfg readers 10 "rainbow" rainbow 200 sample
      sample-IsSound refl

reclaim_ownership-Outcome_example :
    Outcome
      (reclaim_allowed cfg readers 11 10 200 sample)
      (λ demoted db'.
        (demoted ≡ 10)
        × (db'.clubs
            ≡ update_first (reclaimable readers.id 11) (set_transfer none none) sample.clubs)
        × ((c u : ℕ) → status_at c u db'.memberships ≡ swapped readers.id 11 10 sample c u)
        × IsSound db')
      sample
      (reclaim_ownership plain cfg readers 11 200 sample)
reclaim_ownership-Outcome_example =
    reclaim_ownership-Outcome plain plain-IsMongo cfg readers 11 10 200 sample sample-IsSound refl

remove_member-Outcome_example :
    Outcome
      (removal_allowed cfg readers 10 12 200 sample)
      (λ _ db'.
        Becomes sample (placed readers.id 12 (some MembershipStatus.banned) sample.memberships) db'
        × IsSound db')
      sample
      (remove_member plain cfg readers 10 12 200 sample)
remove_member-Outcome_example =
    remove_member-Outcome plain plain-IsMongo cfg readers 10 12 200 sample sample-IsSound

change_member_role-Outcome_example :
    Outcome
      (change_allowed cfg readers 10 12 MemberRole.admin 200 sample)
      (RoleChanged cfg readers 10 12 MemberRole.admin 200 sample
        (keeps_role (status_at readers.id 12 sample.memberships) MemberRole.admin))
      sample
      (change_member_role plain cfg readers 10 12 MemberRole.admin 200 sample)
change_member_role-Outcome_example =
    change_member_role-Outcome plain plain-IsMongo cfg readers 10 12 MemberRole.admin 200 sample
      sample-IsSound

admit_user-Outcome_example :
    Outcome
      (not (asks_again false poets.join_policy (status_at 2 12 sample.memberships)))
      (λ result db'.
        (result ≡ record {
          club_name = poets.name;
          status = entry false poets.join_policy (status_at 2 12 sample.memberships);
        })
        × Entered 2 12 sample
            (entry false poets.join_policy (status_at 2 12 sample.memberships))
            db')
      sample
      (admit_user plain 2 12 false 200 sample)
admit_user-Outcome_example =
    admit_user-Outcome plain plain-IsMongo 2 12 false 200 poets sample sample-IsSound refl

admit_user_asks_again_example : admit_user plain 1 13 false 200 sample ≡ (err duplicate_key, sample)
admit_user_asks_again_example =
    admit_user_asks_again plain plain-IsMongo 1 13 200 readers sample sample-IsSound refl refl refl

review_pending_request-Outcome_example :
    Outcome
      (review_allowed 1 10 13 true 200 sample)
      (λ _ db'.
        Becomes sample
          (placed 1 13 (if true then some MembershipStatus.member else none) sample.memberships)
          db'
        × IsSound db')
      sample
      (review_pending_request plain 1 10 13 true 200 sample)
review_pending_request-Outcome_example =
    review_pending_request-Outcome plain plain-IsMongo 1 10 13 true 200 sample sample-IsSound

leave_club-Outcome_example :
    Outcome
      (leave_allowed cfg readers 12 200 sample)
      (λ _ db'. Becomes sample (placed readers.id 12 none sample.memberships) db' × IsSound db')
      sample
      (leave_club plain cfg readers 12 200 sample)
leave_club-Outcome_example =
    leave_club-Outcome plain plain-IsMongo cfg readers 12 200 sample sample-IsSound

dissolve_club-Outcome_example :
    Outcome
      (dissolve_allowed cfg poets 10 200 sample)
      (λ _ db'.
        (db' ≡ record sample {
          clubs = delete_first (has_id poets.id) sample.clubs;
          memberships = db'.memberships;
          catalog = db'.catalog;
        })
        × ((c u : ℕ)
            → status_at c u db'.memberships
              ≡ (if c == poets.id then none else status_at c u sample.memberships))
        × ((c : ℕ)
            → count (in_catalog_of c) db'.catalog
              ≡ (if c == poets.id then 0 else count (in_catalog_of c) sample.catalog))
        × IsSound db')
      sample
      (dissolve_club plain cfg poets 10 200 sample)
dissolve_club-Outcome_example =
    dissolve_club-Outcome plain plain-IsMongo cfg poets 10 200 sample sample-IsSound

create_new_club-Outcome_example :
    Outcome
      (founding_allowed (free_slug same_text request ("abcde" ∷ []) sample))
      (Founded sample 12 3 200 request (free_slug same_text request ("abcde" ∷ []) sample))
      sample
      (create_new_club plain same_text 12 request 3 ("abcde" ∷ []) 200 sample)
create_new_club-Outcome_example =
    create_new_club-Outcome plain plain-IsMongo same_text 12 request 3 ("abcde" ∷ []) 200 sample
      sample-IsSound refl refl

update_settings-Outcome_example :
    Outcome
      (is_staff (status_at readers.id 10 sample.memberships))
      (Customized sample readers renaming
        (new_slug same_text readers renaming ("abcde" ∷ []) sample))
      sample
      (update_settings plain same_text readers 10 renaming ("abcde" ∷ []) sample)
update_settings-Outcome_example =
    update_settings-Outcome plain plain-IsMongo same_text readers 10 renaming ("abcde" ∷ []) sample
      sample-IsSound.keys sample-SlugsUnique refl
