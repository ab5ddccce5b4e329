-- ===== src/Services/Round/Steps.antt =====
-- What the handlers of src/canterlot/services/round.py do to the rounds, as moves.
pub mod Starting
pub mod Finalizing
pub mod Finishing
use canterlot_api.Base.{ℕ, ◌≡◌, subst, sym, Bool, true, false, ◌&&◌, List, map, if◌then◌else◌}
use canterlot_api.Mongo.{matching}
use canterlot_api.Models.{ClubMembership, Round, Database}
use canterlot_api.Effects.{Result, ok, err}
use canterlot_api.Repositories.Memberships.{in_club, has_status_in, active_statuses}
use canterlot_api.Repositories.Rounds.Moves.{Moves, stays}

abbrev pub Moved : {A : Type 0} → List Round → Result A × Database → Type 0
Moved rs r = Moves rs r.1.rounds

abbrev pub is_ok : {A : Type 0} → Result A → Bool
is_ok (ok a) = true
is_ok (err e) = false

abbrev pub members_of : ℕ → Database → List ℕ
members_of club_id db =
    map (λ (d : ClubMembership). d.user_id)
      (matching (λ d. in_club club_id d && has_status_in active_statuses d) db.memberships)

pub either :
    (run : List Round) (b : Bool) (rs ss : List Round)
    → run ≡ (if b then ss else rs)
    → Moves rs ss
    → Moves rs run
either run true rs ss e after = subst (Moves rs) (sym e) after
either run false rs ss e after = subst (Moves rs) (sym e) stays
