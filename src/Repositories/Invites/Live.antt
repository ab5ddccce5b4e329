-- ===== src/Repositories/Invites/Live.antt =====
-- How many invites are live, and what the writes of src/canterlot/repositories/beanie/invite.py do
-- to them.
use canterlot_api.Base.{
  ℕ, ◌≡◌, refl, Bool, false, none, some, List, [], ◌∷◌, ◌++◌, arith, any, ◌==◌,
}
use canterlot_api.Mongo.{plain, first, update_first, update_all}
use canterlot_api.Models.{Invite, Database}
use canterlot_api.Effects.{ok}
use canterlot_api.Repositories.Invites
use canterlot_api.Repositories.Invites.{has_invite_id, deactivated, used_once_more, invites_set}

pub find_by_id_lem :
    (invite_id : ℕ) (db : Database)
    → Invites.find_by_id plain invite_id db ≡ (ok (first (has_invite_id invite_id) db.invites), db)
unfolding Invites.find_by_id
find_by_id_lem invite_id db = refl

-- An invite with an id that no stored invite has is added at the end.
pub save_lem :
    (invite : Invite) (db : Database)
    → first (has_invite_id invite.id) db.invites ≡ none
    → Invites.save plain invite db ≡ (ok invite, invites_set (db.invites ++ invite ∷ []) db)
unfolding Invites.save
save_lem invite db fresh = ground (arith, none_there invite.id db.invites)
  where
    none_there :
        (invite_id : ℕ) (ds : List Invite)
        → first (has_invite_id invite_id) ds ≡ none
        → any (has_invite_id invite_id) ds ≡ false
    none_there invite_id [] h = refl
    none_there invite_id (i ∷ ds) h = ground (arith, none_there invite_id ds)

pub first_id-deactivate_all :
    (invite_id : ℕ) (test : Invite → Bool) (ds : List Invite)
    → first (has_invite_id invite_id) ds ≡ none
    → first (has_invite_id invite_id) (update_all test deactivated ds) ≡ none
first_id-deactivate_all invite_id test [] h = refl
first_id-deactivate_all invite_id test (i ∷ ds) h =
    ground (arith, first_id-deactivate_all invite_id test ds)

-- An update that keeps ids, by an id: the invite of that id is updated, every other is left.
module _ (invite_id : ℕ) (f : Invite → Invite) (keeps : (i : Invite) → (f i).id ≡ i.id) where
  pub first_id-update_first :
      (ds : List Invite) (i : Invite)
      → first (has_invite_id invite_id) ds ≡ some i
      → first (has_invite_id invite_id) (update_first (has_invite_id invite_id) f ds) ≡ some (f i)
  first_id-update_first [] i h = cc
  first_id-update_first (j ∷ ds) i h = ground (arith, first_id-update_first ds i, keeps j)

  pub first_id-update_first_other :
      (other : ℕ) (ds : List Invite)
      → (other == invite_id) ≡ false
      → first (has_invite_id other) (update_first (has_invite_id invite_id) f ds)
        ≡ first (has_invite_id other) ds
  first_id-update_first_other other [] h = refl
  first_id-update_first_other other (j ∷ ds) h =
      ground (arith, first_id-update_first_other other ds, keeps j)

pub increment_lem :
    (invite_id : ℕ) (db : Database)
    → Invites.increment_uses_count_by_id plain invite_id db
      ≡ (ok tt, invites_set (update_first (has_invite_id invite_id) used_once_more db.invites) db)
unfolding Invites.increment_uses_count_by_id
increment_lem invite_id db = refl

pub deactivate_lem :
    (invite_id : ℕ) (db : Database)
    → Invites.deactivate_by_id plain invite_id db
      ≡ (ok tt, invites_set (update_first (has_invite_id invite_id) deactivated db.invites) db)
unfolding Invites.deactivate_by_id
deactivate_lem invite_id db = refl
