-- ===== src/Services/Club/HandBack.antt =====
-- A club given away and taken back: `transfer_ownership` and then `reclaim_ownership` of
-- src/canterlot/services/club.py.
use Prim.Native.String.{String}
use text.Mathlib.Text.{◌==◌ as str_eq}
use canterlot_api.Base.{
  ℕ, ◌+◌, ◌≤◌, ◌≡◌, refl, ap, ◌∙◌, Bool, true, false, ◌&&◌, some, List, [], ◌∷◌, arith, any, is_id,
  ◌==◌, Bool-cases, inl, inr, if◌then◌else◌,
}
use canterlot_api.Mongo.{Mongo, IsMongo, plain, plain-IsMongo, eq_plain, first, update_first}
use canterlot_api.Mongo.Count.{first-holds, first-update_first}
use canterlot_api.Types.{MembershipStatus, status_enum}
use canterlot_api.Models.{Club, User, Database}
use canterlot_api.Effects.{Result, ok, err, Outcome}
use canterlot_api.Repositories.Memberships.{has_id, set_transfer}
use canterlot_api.Repositories.Memberships.Roster.{status_at}
use canterlot_api.Repositories.Memberships.Sound.{IsSound}
use canterlot_api.Repositories.Memberships.Writes.{reclaimable}
use canterlot_api.Services.Club.Roles.{Settings}
use canterlot_api.Services.Club.Ownership.{transfer_ownership, reclaim_ownership}
use canterlot_api.Services.Club.Transfer.{transfer_allowed, swapped, transfer_ownership-Outcome}
use canterlot_api.Services.Club.Reclaim.{reclaim_allowed, reclaim_ownership-Outcome}

returns :
    {A : Type 0} (allowed : Bool) (Done : A → Database → Type 0) (db : Database)
    (r : Result A × Database)
    → allowed ≡ true
    → Outcome allowed Done db r
    → (a : A) × (db' : Database) × (r ≡ (ok a, db')) × Done a db'
returns allowed Done db (ok a, db') permitted (e, done) = (a, db', refl, done)
returns allowed Done db (err x, db') permitted (e, same) = absurd (ground arith)

any-reclaimable :
    (club_id former : ℕ) (cs : List Club) (c : Club)
    → first (has_id club_id) cs ≡ some c
    → is_id c.protected_former_owner_id former ≡ true
    → any (reclaimable club_id former) cs ≡ true
any-reclaimable club_id former [] c found named = cc
any-reclaimable club_id former (x ∷ cs) c found named =
    ground (arith, any-reclaimable club_id former cs c)

module _ (cfg : Settings) (club : Club) (owner_id target_id now later : ℕ) (db db' : Database)
    (was : status_at club.id owner_id db.memberships ≡ some MembershipStatus.owner)
    (apart : (target_id == owner_id) ≡ false)
    (clubs : db'.clubs
      ≡ update_first (has_id club.id) (set_transfer (some now) (some owner_id)) db.clubs)
    (roster : (c u : ℕ) → status_at c u db'.memberships ≡ swapped club.id target_id owner_id db c u)
    (kept : IsSound db') (in_time : later ≤ now + cfg.reclaim_window) (loaded : Club)
    (found : first (has_id club.id) db'.clubs ≡ some loaded) where
  -- What the loaded club says after the transfer.
  loaded_lem :
      (loaded.id ≡ club.id)
      × (loaded.ownership_transferred_at ≡ some now)
      × (loaded.protected_former_owner_id ≡ some owner_id)
  loaded_lem =
      let written =
        first-update_first (has_id club.id) (set_transfer (some now) (some owner_id)) db.clubs
          (λ c. refl) in
      (
        ground (arith, first-holds (has_id club.id) db'.clubs loaded found),
        ground (arith, written),
        ground (arith, written),
      )

  back_allowed : reclaim_allowed cfg loaded owner_id target_id later db' ≡ true
  back_allowed =
      let (same, at, former) = loaded_lem in
      rw same (
        ground
          (arith, roster club.id owner_id, any-reclaimable club.id owner_id db'.clubs loaded found))

  places :
      (c u : ℕ)
      → swapped club.id owner_id target_id db' c u ≡ (
          if c == club.id && u == target_id
          then some MembershipStatus.admin
          else status_at c u db.memberships)
  places c u = elim (Bool-cases (c == club.id && u == owner_id)) [
    | inl here ↦
        let ec : c ≡ club.id = ground arith in
        let eu : u ≡ owner_id = ground arith in rw (ec, eu) (ground (arith, was))
    | inr other ↦ ground (arith, roster c u)
  ]

  taken_back :
      (db'' : Database) × (reclaim_ownership plain cfg loaded owner_id later db'
        ≡ (ok target_id, db''))
      × ((c u : ℕ)
          → status_at c u db''.memberships ≡ (
              if c == club.id && u == target_id
              then some MembershipStatus.admin
              else status_at c u db.memberships))
  taken_back =
      let (same, at, former) = loaded_lem in
      let (demoted, db'', called, (named, cleared, after, sound')) =
        returns _ _ db' (reclaim_ownership plain cfg loaded owner_id later db') back_allowed (
          reclaim_ownership-Outcome plain plain-IsMongo cfg loaded owner_id target_id later db' kept
            (rw same (ground (arith, roster club.id target_id)))) in
      (db'', called ∙ ap (λ d. (ok d, db'')) named, λ c u. after c u ∙ rw same (places c u))

-- In a sound database, let the OWNER transfer the club to `target`, where the call returns. Whoever
-- loads the club then, the old owner's `reclaim_ownership` returns up to the end of the window. It
-- makes the old owner OWNER again and `target` ADMIN, and every other status is the one before the
-- transfer.
pub reclaim_ownership-transfer_ownership :
    (m : Mongo) (laws : IsMongo m) (cfg : Settings) (club : Club) (owner_id : ℕ) (username : String)
    (target : User) (now later : ℕ) (db : Database)
    → IsSound db
    → first (λ u. str_eq u.username username) db.users ≡ some target
    → transfer_allowed cfg club owner_id username target now db ≡ true
    → later ≤ now + cfg.reclaim_window
    → (db' : Database) × (transfer_ownership m cfg club owner_id username now db
        ≡ (ok (now + cfg.reclaim_window), db'))
      × ((loaded : Club)
          → first (has_id club.id) db'.clubs ≡ some loaded
          → (db'' : Database) × (reclaim_ownership m cfg loaded owner_id later db'
              ≡ (ok target.id, db''))
            × ((c u : ℕ)
                → status_at c u db''.memberships ≡ (
                    if c == club.id && u == target.id
                    then some MembershipStatus.admin
                    else status_at c u db.memberships)))
reclaim_ownership-transfer_ownership m laws cfg club owner_id username target now later db sound
      named allowed in_time =
    rw (eq_plain m laws) (
      let (deadline, db', called, (on_time, clubs, roster, kept)) =
        returns _ _ db (transfer_ownership plain cfg club owner_id username now db) allowed (
          transfer_ownership-Outcome plain plain-IsMongo cfg club owner_id username target now db
            sound named) in
      (
        db',
        called ∙ ap (λ d. (ok d, db')) on_time,
        λ loaded found.
            taken_back cfg club owner_id target.id now later db db' (ground arith) (ground arith)
              clubs roster kept in_time loaded found,
      ))
