-- ===== src/Services/Verification/Lifetime.antt =====
-- A verification code from its creation to its use: src/canterlot/services/verification.py.
pub mod Redeem
use Prim.Native.String.{String}
use canterlot_api.Base.{
  ℕ, ◌+◌, ◌*◌, ◌≡◌, ◌≤◌, Option, Bool-cases, inl, inr, refl, Bool, true, false, ◌&&◌, none, some,
  List, [], ◌∷◌, ◌++◌, arith, any, ltb, leb, ◌==◌, if◌then◌else◌,
}
use canterlot_api.Mongo.{
  Mongo, IsMongo, plain, plain-IsMongo, eq_plain, first, update_first, update_all,
}
use canterlot_api.Mongo.Count.{
  count, count-update_all_none, count-update_all_other, count-append_one, first-append_one,
  first-narrow, first-count_zero, first-delete_all, count-delete_all-le, first_only,
  count-update_first,
}
use canterlot_api.Types.{VerificationScope, ◌is◌, scope_enum}
use canterlot_api.Models.{VerificationCode, Database}
use canterlot_api.Effects.{ok, err, code_expired, invalid_code}
use canterlot_api.Services.Verification.Guesses.{no_live_code_lem}
use canterlot_api.Repositories.Codes
use canterlot_api.Repositories.Codes.{
  is_live, has_code_id, deactivated, attempted, codes_set, is_gone, expired_removed,
}
use canterlot_api.Services.Verification.{
  AuthSettings, ttl_minutes, minute, build, create_code, validate_code,
}
use canterlot_api.Services.Verification.Lifetime.Redeem.{
  swept_by, swept_since, created, create_plain, count_live-created, count_live-created_other, used,
  first_live-used, redeem_plain, kept_lem, gone_lem,
}

-- With an id that no code has, `create_code` returns the text, which is from then on the user's one
-- live code for the scope, and leaves the live codes of every other user and scope. `validate_code`
-- accepts it before the scope's time has passed, when the server has removed nothing that had not
-- expired, and then leaves no live code, so that it raises InvalidCodeError for the same text.
-- Afterwards it changes nothing and raises CodeExpiredError, or InvalidCodeError once the server has
-- removed the code.
pub create_code_lem :
    (m : Mongo) (laws : IsMongo m) (cfg : AuthSettings) (hash_code : String → ℕ → ℕ) (code : String)
    (user_id : ℕ) (scope : VerificationScope) (new_id now : ℕ) (db : Database)
    → first (has_code_id new_id) db.codes ≡ none
    → (db' : Database) × (create_code m cfg hash_code code user_id scope new_id now db
        ≡ (ok code, db'))
      × (count (is_live user_id scope) db'.codes ≡ 1)
      × ((u : ℕ) (s : VerificationScope)
          → (u == user_id && s is scope) ≡ false
          → count (is_live u s) db'.codes ≡ count (is_live u s) db.codes)
      × ((swept : Option ℕ) (later : ℕ)
          → swept_by swept later ≡ true
          → ltb later (now + ttl_minutes cfg scope * minute) ≡ true
          → (db'' : Database) × (validate_code m cfg hash_code code user_id scope later
                (expired_removed swept db')
              ≡ (ok tt, db''))
            × ((again : ℕ)
                → validate_code m cfg hash_code code user_id scope again db''
                  ≡ (err invalid_code, db'')))
      × ((swept : Option ℕ) (later : ℕ)
          → ltb later (now + ttl_minutes cfg scope * minute) ≡ false
          → validate_code m cfg hash_code code user_id scope later (expired_removed swept db') ≡ (
            err (
                if swept_since (now + ttl_minutes cfg scope * minute) swept
                then invalid_code
                else code_expired),
            expired_removed swept db',
          ))
create_code_lem m laws cfg hash_code code user_id scope new_id now db fresh = rw (eq_plain m laws) (
  created cfg hash_code code user_id scope new_id now db,
  create_plain cfg hash_code code user_id scope new_id now db fresh,
  count_live-created cfg hash_code code user_id scope new_id now db,
  count_live-created_other cfg hash_code code user_id scope new_id now db,
  λ swept later by in_time.
      let stays = kept_lem cfg hash_code code user_id scope new_id now db swept later by in_time in
      (
        used cfg hash_code code user_id scope new_id now db swept,
        ground (arith, redeem_plain cfg hash_code code user_id scope new_id now db swept later),
        λ again.
            no_live_code_lem plain plain-IsMongo cfg hash_code user_id scope code again
              (used cfg hash_code code user_id scope new_id now db swept)
              (first_live-used cfg hash_code code user_id scope new_id now db swept fresh stays),
      ),
  λ swept later late. ground (
    arith,
    redeem_plain cfg hash_code code user_id scope new_id now db swept later,
    gone_lem cfg hash_code code user_id scope new_id now db swept,
  ),
)
