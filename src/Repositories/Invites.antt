-- ===== src/Repositories/Invites.antt =====
-- src/canterlot/repositories/beanie/invite.py
pub mod Live
use Prim.Native.String.{String}
use text.Mathlib.Text.{◌==◌ as str_eq}
use canterlot_api.Base.{ℕ, ◌+◌, Bool, true, false, Option, none, some, List, ◌&&◌, ◌==◌, is_id, leb}
use canterlot_api.Mongo.{Mongo, delete_all}
use canterlot_api.Types.{InviteType, ◌is◌, invite_type_enum}
use canterlot_api.Models.{Invite, Database}
use canterlot_api.Effects.{duplicate_key, Action, ◌>>=◌, ◌>>◌, pure, gets, modify, some_or_raise}

abbrev pub has_invite_id : ℕ → Invite → Bool
has_invite_id invite_id i = i.id == invite_id

abbrev same_invite : Invite → Invite → Bool
same_invite i j = j.id == i.id

abbrev pub is_email : Option String → String → Bool
is_email none email = false
is_email (some e) email = str_eq e email

-- `is_active == True` beside the club and the type
abbrev pub is_live : ℕ → InviteType → Invite → Bool
is_live club_id type i = i.club_id == club_id && (i.type is type && i.is_active)

abbrev pub deactivated : Invite → Invite
deactivated i = record i { is_active = false }

abbrev pub used_once_more : Invite → Invite
used_once_more i = record i { uses_count = i.uses_count + 1 }

abbrev pub invites_set : List Invite → Database → Database
invites_set ds db = record db { invites = ds }

-- The TTL index on `expires_at` of src/canterlot/models/invite.py, by which the server removes what has
-- expired, some time after. Here, what has expired when it last did so; `none` before it ever did.
abbrev pub is_gone : Option ℕ → Invite → Bool
is_gone none i = false
is_gone (some swept_at) i = elim i.expires_at [ none ↦ false | some at ↦ leb at swept_at ]

abbrev pub expired_removed : Option ℕ → Database → Database
expired_removed swept db = invites_set (delete_all (is_gone swept) db.invites) db

module _ (m : Mongo) where
  unfoldable pub find_by_id : ℕ → Action (Option Invite)
  find_by_id invite_id = gets (λ db. m.find_one (has_invite_id invite_id) db.invites)

  unfoldable pub find_one_active_public_by_club_id : ℕ → Action (Option Invite)
  find_one_active_public_by_club_id club_id =
      gets (λ db. m.find_one (is_live club_id InviteType.public) db.invites)

  unfoldable pub find_by_club_id : ℕ → Action (List Invite)
  find_by_club_id club_id = gets (λ db. m.find (λ i. i.club_id == club_id) db.invites)

  unfoldable pub save : Invite → Action Invite
  save invite = do
    written ←
        gets (λ db. m.upsert same_invite (has_invite_id invite.id) (λ _. invite) invite db.invites)
    ds ← some_or_raise written duplicate_key
    modify (invites_set ds)
    pure invite

  update_invite : ℕ → (Invite → Invite) → Action Unit
  update_invite invite_id f = do
    (ds, matched) ← gets (λ db. m.update_one (has_invite_id invite_id) f db.invites)
    modify (invites_set ds)

  unfoldable pub increment_uses_count_by_id : ℕ → Action Unit
  unfolding update_invite
  increment_uses_count_by_id invite_id = update_invite invite_id used_once_more

  unfoldable pub deactivate_by_id : ℕ → Action Unit
  unfolding update_invite
  deactivate_by_id invite_id = update_invite invite_id deactivated

  deactivate_all : (Invite → Bool) → Action Unit
  deactivate_all test = modify (λ db. invites_set (m.update_many test deactivated db.invites) db)

  unfoldable pub deactivate_all_public_by_club_id : ℕ → Action Unit
  unfolding deactivate_all
  deactivate_all_public_by_club_id club_id = deactivate_all (is_live club_id InviteType.public)

  unfoldable pub deactivate_all_direct_by_club_id_and_target_email : ℕ → String → Action Unit
  unfolding deactivate_all
  deactivate_all_direct_by_club_id_and_target_email club_id target_email =
      deactivate_all
        (λ i. is_email i.target_email target_email && is_live club_id InviteType.direct i)

  unfoldable pub deactivate_all_direct_by_club_id_and_target_user_id : ℕ → ℕ → Action Unit
  unfolding deactivate_all
  deactivate_all_direct_by_club_id_and_target_user_id club_id target_user_id =
      deactivate_all
        (λ i. is_id i.target_user_id target_user_id && is_live club_id InviteType.direct i)
