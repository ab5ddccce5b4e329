-- ===== src/Services/Invite/Usage.antt =====
-- Spending an invite: `register_invite_usage` of src/canterlot/services/invite.py.
use canterlot_api.Base.{
  ℕ, ◌≡◌, refl, not, ◌&&◌, ◌+◌, some, List, arith, ◌==◌, Bool-cases, inl, inr, if◌then◌else◌,
}
use canterlot_api.Mongo.{plain, first, update_first}
use canterlot_api.Mongo.Count.{first-holds}
use canterlot_api.Types.{InviteType, ◌is◌, invite_type_enum}
use canterlot_api.Models.{Invite, Database}
use canterlot_api.Effects.{ok}
use canterlot_api.Repositories.Invites.{has_invite_id, deactivated, used_once_more, invites_set}
use canterlot_api.Repositories.Invites.Live.{
  find_by_id_lem, increment_lem, deactivate_lem, first_id-update_first, first_id-update_first_other,
}
use canterlot_api.Services.Invite.{register_invite_usage}

-- One use more, which is the last one of a direct invite.
abbrev pub spent : Invite → Invite
spent i = record i {
  uses_count = i.uses_count + 1;
  is_active = not (i.type is InviteType.direct) && i.is_active;
}

abbrev pub spent_in : Invite → ℕ → List Invite → List Invite
spent_in invite invite_id ds =
    if invite.type is InviteType.direct
    then update_first (has_invite_id invite_id) deactivated
        (update_first (has_invite_id invite_id) used_once_more ds)
    else update_first (has_invite_id invite_id) used_once_more ds

module _ (invite_id : ℕ) (invite : Invite) (db : Database)
    (found : first (has_invite_id invite_id) db.invites ≡ some invite) where
  own_id : invite.id ≡ invite_id
  own_id = ground (arith, first-holds (has_invite_id invite_id) db.invites invite found)

  pub register_plain :
      register_invite_usage plain invite_id db
      ≡ (ok tt, invites_set (spent_in invite invite_id db.invites) db)
  unfolding register_invite_usage
  register_plain = ground (
    arith,
    own_id,
    find_by_id_lem invite_id db,
    increment_lem invite_id db,
    deactivate_lem invite_id
        (invites_set (update_first (has_invite_id invite_id) used_once_more db.invites) db),
  )

  pub first-spent_in :
      (k : ℕ)
      → first (has_invite_id k) (spent_in invite invite_id db.invites)
        ≡ (if k == invite_id then some (spent invite) else first (has_invite_id k) db.invites)
  first-spent_in k =
      let once = update_first (has_invite_id invite_id) used_once_more db.invites in
      elim (Bool-cases (k == invite_id)) [
        | inl same ↦
            let e : k ≡ invite_id = ground arith in
            rw e (
              ground (
                arith,
                first_id-update_first invite_id used_once_more (λ i. refl) db.invites invite found,
                first_id-update_first invite_id deactivated (λ i. refl) once (used_once_more invite)
                    (first_id-update_first invite_id used_once_more (λ i. refl) db.invites invite
                      found),
              ))
        | inr other ↦ ground (
          arith,
          first_id-update_first_other invite_id used_once_more (λ i. refl) k db.invites other,
          first_id-update_first_other invite_id deactivated (λ i. refl) k once other,
        )
      ]
