-- ===== src/Services/Verification/Lifetime/Redeem.antt =====
-- A created code before and after the server removes it: src/canterlot/services/verification.py.
use Prim.Native.String.{String}
use canterlot_api.Base.{
  ℕ, ◌+◌, ◌*◌, ◌≡◌, ◌≤◌, Option, Bool-cases, inl, inr, refl, Bool, true, false, ◌&&◌, none, some,
  List, [], ◌∷◌, ◌++◌, arith, any, ltb, leb, ◌==◌, if◌then◌else◌,
}
use canterlot_api.Mongo.{plain, plain-IsMongo, first, update_first, update_all}
use canterlot_api.Mongo.Count.{
  count, count-update_all_none, count-update_all_other, count-append_one, first-append_one,
  first-narrow, first-count_zero, first-delete_all, count-delete_all-le, first_only,
  count-update_first,
}
use canterlot_api.Types.{VerificationScope, ◌is◌, scope_enum}
use canterlot_api.Models.{VerificationCode, Database}
use canterlot_api.Effects.{ok, err, code_expired, invalid_code}
use canterlot_api.Services.Verification.Guesses.{no_live_code_lem}
use canterlot_api.Repositories.Codes
use canterlot_api.Repositories.Codes.{
  is_live, has_code_id, deactivated, attempted, codes_set, is_gone, expired_removed,
}
use canterlot_api.Services.Verification.{
  AuthSettings, ttl_minutes, minute, build, create_code, validate_code,
}

no_id :
    (code_id : ℕ) (test : VerificationCode → Bool) (cs : List VerificationCode)
    → first (has_code_id code_id) cs ≡ none
    → (any (has_code_id code_id) (update_all test deactivated cs) ≡ false)
      × (any (λ d. d.id == code_id) (update_all test deactivated cs) ≡ false)
no_id code_id test [] h = (refl, refl)
no_id code_id test (c ∷ cs) h =
    let (a, b) = no_id code_id test cs (ground arith) in (ground arith, ground arith)

-- Whether the server last removed what had expired no later than at a time,
abbrev pub swept_by : Option ℕ → ℕ → Bool
swept_by none later = true
swept_by (some at) later = leb at later

-- or not before.
abbrev pub swept_since : ℕ → Option ℕ → Bool
swept_since expires_at none = false
swept_since expires_at (some at) = leb expires_at at

module _ (cfg : AuthSettings) (hash_code : String → ℕ → ℕ) (code : String) (user_id : ℕ)
    (scope : VerificationScope) (new_id now : ℕ) (db : Database) where
  abbrev pub fresh_code : VerificationCode
  fresh_code = build plain cfg hash_code code user_id scope new_id now

  abbrev pub created : Database
  created =
      codes_set (update_all (is_live user_id scope) deactivated db.codes ++ fresh_code ∷ []) db

  pub create_plain :
      first (has_code_id new_id) db.codes ≡ none
      → create_code plain cfg hash_code code user_id scope new_id now db ≡ (ok code, created)
  unfolding create_code Codes.create_and_invalidate_previous
  create_plain fresh =
      let (a, b) = no_id new_id (is_live user_id scope) db.codes fresh in ground arith

  pub count_live-created : count (is_live user_id scope) created.codes ≡ 1
  count_live-created = ground (
    arith,
    count-append_one (is_live user_id scope)
        (update_all (is_live user_id scope) deactivated db.codes) fresh_code,
    count-update_all_none (is_live user_id scope) deactivated (is_live user_id scope) db.codes
        (λ d h. h) (λ d. ground arith),
  )

  pub count_live-created_other :
      (u : ℕ) (s : VerificationScope)
      → (u == user_id && s is scope) ≡ false
      → count (is_live u s) created.codes ≡ count (is_live u s) db.codes
  count_live-created_other u s apart = ground (
    arith,
    count-append_one (is_live u s) (update_all (is_live user_id scope) deactivated db.codes)
        fresh_code,
    count-update_all_other (is_live user_id scope) deactivated (is_live u s) db.codes
        (λ d h. ground arith) (λ d. ground arith),
  )

  first_live-created : first (is_live user_id scope) created.codes ≡ some fresh_code
  first_live-created = ground (
    arith,
    first-append_one (is_live user_id scope)
        (update_all (is_live user_id scope) deactivated db.codes) fresh_code,
    first-count_zero (is_live user_id scope)
        (update_all (is_live user_id scope) deactivated db.codes),
    count-update_all_none (is_live user_id scope) deactivated (is_live user_id scope) db.codes
        (λ d h. h) (λ d. ground arith),
  )

  -- The code is the one of its id, and once removed, none is live.
  count_id-created :
      first (has_code_id new_id) db.codes ≡ none → count (has_code_id new_id) created.codes ≡ 1
  count_id-created fresh = ground (
    arith,
    count-append_one (has_code_id new_id) (update_all (is_live user_id scope) deactivated db.codes)
        fresh_code,
    absent (update_all (is_live user_id scope) deactivated db.codes)
        ((no_id new_id (is_live user_id scope) db.codes fresh).0),
  )
    where
      absent :
          (cs : List VerificationCode)
          → any (has_code_id new_id) cs ≡ false
          → count (has_code_id new_id) cs ≡ 0
      absent [] h = refl
      absent (c ∷ cs) h = ground (arith, absent cs)

  -- What the server may have removed by the time of a later call.
  abbrev pub swept_away : Option ℕ → Database
  swept_away swept = expired_removed swept created

  first_live-swept :
      (swept : Option ℕ)
      → first (is_live user_id scope) (swept_away swept).codes
        ≡ (if is_gone swept fresh_code then none else some fresh_code)
  first_live-swept swept = ground (
    arith,
    first-delete_all (is_gone swept) (is_live user_id scope) created.codes,
    first_live-created,
    count_live-created,
  )

  count_live-swept : (swept : Option ℕ) → count (is_live user_id scope) (swept_away swept).codes ≤ 1
  count_live-swept swept = omega (
    arith,
    count-delete_all-le (is_gone swept) (is_live user_id scope) created.codes,
    count_live-created,
  )

  -- The collection once the code has been used.
  abbrev pub used : Option ℕ → Database
  used swept =
      codes_set (update_first (has_code_id new_id) deactivated (swept_away swept).codes) created

  pub first_live-used :
      (swept : Option ℕ)
      → first (has_code_id new_id) db.codes ≡ none
      → is_gone swept fresh_code ≡ false
      → first (is_live user_id scope) (used swept).codes ≡ none
  first_live-used swept fresh stays =
      let cs = (swept_away swept).codes in
      let live : first (is_live user_id scope) cs ≡ some fresh_code =
        ground (arith, first_live-swept swept) in
      let own : first (has_code_id new_id) cs ≡ some fresh_code =
        first_only (is_live user_id scope) (has_code_id new_id) cs fresh_code live (ground arith) (
          omega (
            arith,
            count-delete_all-le (is_gone swept) (has_code_id new_id) created.codes,
            count_id-created fresh,
          )) in
      first-count_zero (is_live user_id scope) (used swept).codes (
        ground (
          arith,
          count-update_first (has_code_id new_id) deactivated (is_live user_id scope) cs fresh_code
              own,
          count_live-swept swept,
        ))

  pub redeem_plain :
      (swept : Option ℕ) (later : ℕ)
      → validate_code plain cfg hash_code code user_id scope later (swept_away swept) ≡ (
          if is_gone swept fresh_code
          then (err invalid_code, swept_away swept)
          else if leb (now + ttl_minutes cfg scope * minute) later
          then (err code_expired, swept_away swept)
          else (ok tt, used swept))
  unfolding validate_code Codes.find_active_code Codes.deactivate_code_by_id
  redeem_plain swept later = elim (Bool-cases (is_gone swept fresh_code)) [
    | inl gone ↦ ground (
      arith,
      no_live_code_lem plain plain-IsMongo cfg hash_code user_id scope code later (swept_away swept)
          (ground (arith, first_live-swept swept)),
    )
    | inr stays ↦ ground (
      arith,
      first_live-swept swept,
      first-narrow (is_live user_id scope) (λ c. c.code_hash == hash_code code user_id)
          (swept_away swept).codes (count_live-swept swept),
    )
  ]

  -- What is gone by some time has expired by then.
  pub kept_lem :
      (swept : Option ℕ) (later : ℕ)
      → swept_by swept later ≡ true
      → ltb later (now + ttl_minutes cfg scope * minute) ≡ true
      → is_gone swept fresh_code ≡ false
  kept_lem none later by in_time = refl
  kept_lem (some at) later by in_time = ground arith

  pub gone_lem :
      (swept : Option ℕ)
      → is_gone swept fresh_code ≡ swept_since (now + ttl_minutes cfg scope * minute) swept
  gone_lem none = refl
  gone_lem (some at) = refl
