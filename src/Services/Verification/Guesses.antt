-- ===== src/Services/Verification/Guesses.antt =====
-- How many guesses of a verification code there are: `validate_code` of
-- src/canterlot/services/verification.py on codes that are not the right one.
use Prim.Native.String.{String}
use canterlot_api.Base.{
  ℕ, suc, ◌+◌, ◌≤◌, ◌≡◌, refl, ap, ◌∙◌, Bool, true, false, ◌&&◌, Option, none, some, List, [], ◌∷◌,
  arith, any, length, ltb, ◌==◌, Option-cases, Bool-cases, inl, inr, if◌then◌else◌,
}
use canterlot_api.Mongo.{Mongo, IsMongo, plain, eq_plain, first, update_first}
use canterlot_api.Mongo.Count.{
  count, keep, count-update_first, first-holds, first-narrow, first-count_zero, count-first-none,
  update_first-none,
}
use canterlot_api.Types.{VerificationScope, scope_enum}
use canterlot_api.Models.{VerificationCode, Database}
use canterlot_api.Effects.{err, invalid_code}
use canterlot_api.Repositories.Codes
use canterlot_api.Repositories.Codes.{is_live, attempted, codes_set}
use canterlot_api.Services.Verification.{AuthSettings, validate_code}

-- The code with more attempts.
abbrev pub attempted_times : ℕ → VerificationCode → VerificationCode
attempted_times n c = record c { attempts = c.attempts + n; is_active = true }

module _ (user_id : ℕ) (scope : VerificationScope) (max : ℕ) where
  pub first_live-attempted :
      (ds : List VerificationCode)
      → count (is_live user_id scope) ds ≤ 1
      → first (is_live user_id scope) (update_first (is_live user_id scope) (attempted max) ds)
        ≡ keep
            (λ c. c.is_active)
            (elim (first (is_live user_id scope) ds) [
              | none ↦ none
              | some c ↦ some (attempted max c)
            ])
  first_live-attempted [] le = refl
  first_live-attempted (c ∷ ds) le =
      ground (arith, first_live-attempted ds, first-count_zero (is_live user_id scope) ds)

  pub count_live-attempted :
      (ds : List VerificationCode)
      → count (is_live user_id scope) (update_first (is_live user_id scope) (attempted max) ds)
        ≤ count (is_live user_id scope) ds
  count_live-attempted ds = elim (Option-cases (first (is_live user_id scope) ds)) [
    | inl absent ↦
        ground (arith, update_first-none (is_live user_id scope) (attempted max) ds absent)
    | inr (c, found) ↦ ground (
      arith,
      count-update_first (is_live user_id scope) (attempted max) (is_live user_id scope) ds c found,
      first-holds (is_live user_id scope) ds c found,
    )
  ]

module _ (cfg : AuthSettings) (hash_code : String → ℕ → ℕ) (user_id : ℕ)
    (scope : VerificationScope) where
  -- Each guess is a text and the moment at which it comes in.
  pub after_guesses : Mongo → List (String × ℕ) → Database → Database
  after_guesses m [] db = db
  after_guesses m ((code, now) ∷ guesses) db =
      after_guesses m guesses ((validate_code m cfg hash_code code user_id scope now db).1)

  abbrev pub is_right : VerificationCode → String × ℕ → Bool
  is_right c (code, now) = c.code_hash == hash_code code user_id

  abbrev next : Database → Database
  next db =
      codes_set
        (update_first (is_live user_id scope) (attempted cfg.max_verification_attempts) db.codes) db

  pub wrong_lem :
      (code : String) (now : ℕ) (db : Database)
      → first (λ c. is_live user_id scope c && c.code_hash == hash_code code user_id) db.codes
        ≡ none
      → validate_code plain cfg hash_code code user_id scope now db ≡ (err invalid_code, next db)
  unfolding validate_code Codes.find_active_code Codes.increment_attempts_and_burn_if_exceeded
  wrong_lem code now db absent = ground arith

  -- No live code answers to a wrong text.
  wrong_none :
      (code : String) (now : ℕ) (ds : List VerificationCode)
      → count (is_live user_id scope) ds ≤ 1
      → ((c : VerificationCode)
          → first (is_live user_id scope) ds ≡ some c
          → is_right c (code, now) ≡ false)
      → first (λ c. is_live user_id scope c && c.code_hash == hash_code code user_id) ds ≡ none
  wrong_none code now ds le wrong = elim (Option-cases (first (is_live user_id scope) ds)) [
    | inl absent ↦ ground (
      arith,
      first-narrow (is_live user_id scope) (λ c. c.code_hash == hash_code code user_id) ds le,
    )
    | inr (c, found) ↦ ground (
      arith,
      wrong c found,
      first-narrow (is_live user_id scope) (λ c. c.code_hash == hash_code code user_id) ds le,
    )
  ]

  -- Where no code is live, no guess changes that.
  pub burnt_stays :
      (guesses : List (String × ℕ)) (db : Database)
      → first (is_live user_id scope) db.codes ≡ none
      → after_guesses plain guesses db ≡ db
  unfolding after_guesses
  burnt_stays [] db absent = refl
  burnt_stays ((code, now) ∷ guesses) db absent =
      let h : next db ≡ db = ground (
        arith,
        update_first-none (is_live user_id scope) (attempted cfg.max_verification_attempts) db.codes
            absent,
      ) in
      rw
        (
          wrong_lem code now db (
              wrong_none code now db.codes
                (ground (arith, count-first-none (is_live user_id scope) db.codes absent))
                (λ c found. ground arith)),
          h,
        )
        (burnt_stays guesses db absent)

  -- The live code after wrong guesses.
  abbrev pub left_live : VerificationCode → ℕ → Option VerificationCode
  left_live c n =
      if ltb (c.attempts + n) cfg.max_verification_attempts
      then some (attempted_times n c)
      else none

  next_live :
      (c : VerificationCode) (db : Database)
      → count (is_live user_id scope) db.codes ≤ 1
      → first (is_live user_id scope) db.codes ≡ some c
      → first (is_live user_id scope) (next db).codes ≡ left_live c 1
  next_live c db le found =
      ground (arith, first_live-attempted user_id scope cfg.max_verification_attempts db.codes)

  left_live-attempted :
      (c : VerificationCode) (n : ℕ) → left_live (attempted_times 1 c) n ≡ left_live c (suc n)
  left_live-attempted c n = ground arith

  after_wrong :
      (guess : String × ℕ) (guesses : List (String × ℕ)) (db : Database)
      → first (λ c. is_live user_id scope c && is_right c guess) db.codes ≡ none
      → after_guesses plain (guess ∷ guesses) db ≡ after_guesses plain guesses (next db)
  unfolding after_guesses
  after_wrong (code, now) guesses db absent =
      ap (λ r. after_guesses plain guesses r.1) (wrong_lem code now db absent)

  none_after : (db : Database) → after_guesses plain [] db ≡ db
  unfolding after_guesses
  none_after db = refl

  guesses_plain :
      (guess : String × ℕ) (guesses : List (String × ℕ)) (c : VerificationCode) (db : Database)
      → count (is_live user_id scope) db.codes ≤ 1
      → first (is_live user_id scope) db.codes ≡ some c
      → any (is_right c) (guess ∷ guesses) ≡ false
      → first (is_live user_id scope) (after_guesses plain (guess ∷ guesses) db).codes
        ≡ left_live c (length (guess ∷ guesses))
  guesses_plain guess [] c db le found wrong =
      ap (λ d. first (is_live user_id scope) d.codes)
        (after_wrong guess [] db (wrong_none guess.0 guess.1 db.codes le (λ d e. ground arith))
          ∙ none_after (next db))
      ∙ next_live c db le found
  guesses_plain last (guess ∷ guesses) c db le found wrong =
      ap (λ d. first (is_live user_id scope) d.codes)
        (after_wrong last (guess ∷ guesses) db
          (wrong_none last.0 last.1 db.codes le (λ d e. ground arith)))
      ∙ elim (Bool-cases (ltb (c.attempts + 1) cfg.max_verification_attempts)) [
        | inl goes_on ↦
            guesses_plain guess guesses (attempted_times 1 c) (next db)
              (omega (
                arith,
                le,
                count_live-attempted user_id scope cfg.max_verification_attempts db.codes,
              ))
              (ground (arith, next_live c db le found)) (ground arith)
            ∙ left_live-attempted c (length (guess ∷ guesses))
        | inr burnt ↦
            ground (arith, next_live c db le found, burnt_stays (guess ∷ guesses) (next db))
      ]

-- Where a user has one live code for a scope, and the texts sent for it are wrong, the code stays
-- live, with its attempts counted, as long as they number less than the maximum, and not any longer:
-- after the maximum of attempts no code of the user and the scope is live.
pub wrong_guesses_lem :
    (m : Mongo) (laws : IsMongo m) (cfg : AuthSettings) (hash_code : String → ℕ → ℕ) (user_id : ℕ)
    (scope : VerificationScope) (guess : String × ℕ) (guesses : List (String × ℕ))
    (c : VerificationCode) (db : Database)
    → count (is_live user_id scope) db.codes ≤ 1
    → first (is_live user_id scope) db.codes ≡ some c
    → any (is_right cfg hash_code user_id scope c) (guess ∷ guesses) ≡ false
    → first
        (is_live user_id scope)
        (after_guesses cfg hash_code user_id scope m (guess ∷ guesses) db).codes
      ≡ (if ltb (c.attempts + length (guess ∷ guesses)) cfg.max_verification_attempts
          then some (attempted_times (length (guess ∷ guesses)) c)
          else none)
wrong_guesses_lem m laws cfg hash_code user_id scope guess guesses c db le found wrong =
    rw (eq_plain m laws)
      (guesses_plain cfg hash_code user_id scope guess guesses c db le found wrong)

-- Once a user has no live code for a scope, as after too many wrong texts, `validate_code` raises
-- InvalidCodeError for every text and changes nothing.
pub no_live_code_lem :
    (m : Mongo) (laws : IsMongo m) (cfg : AuthSettings) (hash_code : String → ℕ → ℕ) (user_id : ℕ)
    (scope : VerificationScope) (code : String) (now : ℕ) (db : Database)
    → first (is_live user_id scope) db.codes ≡ none
    → validate_code m cfg hash_code code user_id scope now db ≡ (err invalid_code, db)
no_live_code_lem m laws cfg hash_code user_id scope code now db absent = rw (eq_plain m laws) (
    wrong_lem cfg hash_code user_id scope code now db (
      wrong_none cfg hash_code user_id scope code now db.codes
        (ground (arith, count-first-none (is_live user_id scope) db.codes absent))
        (λ c found. ground arith))
    ∙ ground (
      arith,
      update_first-none (is_live user_id scope) (attempted cfg.max_verification_attempts) db.codes
          absent,
    ))
