-- ===== src/Tests/Codes.antt =====
-- The theorems on verification codes, transactions, slugs and pages at the sample.
use canterlot_api.Base.{
  ℕ, ◌+◌, ◌*◌, ◌≡◌, refl, List, [], ◌∷◌, arith, length, ltb, true, false, ◌&&◌, Option, none, some,
  ◌==◌, if◌then◌else◌,
}
use canterlot_api.Pagination.{page_of, total_pages, has_next}
use canterlot_api.Pagination.Whole.{first_pages, pages_lem}
use Prim.Native.String.{String}
use canterlot_api.Mongo.{plain, first, plain-IsMongo}
use canterlot_api.Mongo.Count.{count}
use canterlot_api.Types.{VerificationScope, scope_enum, ◌is◌}
use canterlot_api.Models.{Database}
use canterlot_api.Effects.{err, invalid_code, ok, code_expired}
use canterlot_api.Repositories.Codes.{is_live, expired_removed}
use canterlot_api.Services.Verification.{validate_code, ttl_minutes, minute, create_code}
use canterlot_api.Services.Verification.Guesses.{attempted_times, after_guesses, wrong_guesses_lem}
use canterlot_api.Services.Verification.Lifetime.Redeem.{swept_by, swept_since}
use canterlot_api.Services.Verification.Lifetime.{create_code_lem}
use canterlot_api.Utils.Slugs.{make_slug}
use canterlot_api.Utils.Slugs.Ends.{make_slug-ends}
use canterlot_api.Repositories.Clubs
use canterlot_api.Services.Club.Founding.{slug_taken}
use canterlot_api.Tests.Samples.{auth, sent, sample, same_text, hash_code}

abbrev first_guess : String × ℕ
first_guess = ("000000", 300)

abbrev more_guesses : List (String × ℕ)
more_guesses = ("000001", 301) ∷ []

abbrev three : List ℕ
three = 10 ∷ 11 ∷ 12 ∷ []

reads : (s : String) → Clubs.exists_by_club_slug plain s sample ≡ (ok (slug_taken sample s), sample)
unfolding Clubs.exists_by_club_slug
reads s = refl

pages_lem_example :
    (first_pages three 2 (total_pages (page_of three 1 2)) ≡ three)
    × (has_next (page_of three 1 2) ≡ ltb (1 * 2) (length three))
pages_lem_example = pages_lem three 1 2 (omega arith)

wrong_guesses_lem_example :
    first
      (is_live 12 VerificationScope.email)
      (after_guesses auth hash_code 12 VerificationScope.email plain
        (first_guess ∷ more_guesses)
        sample).codes
    ≡ (if ltb (sent.attempts + length (first_guess ∷ more_guesses)) auth.max_verification_attempts
        then some (attempted_times (length (first_guess ∷ more_guesses)) sent)
        else none)
wrong_guesses_lem_example =
    wrong_guesses_lem plain plain-IsMongo auth hash_code 12 VerificationScope.email first_guess
      more_guesses sent sample (omega arith) refl refl

create_code_lem_example :
    (db' : Database) × (create_code plain auth hash_code "424242" 12 VerificationScope.email 202 300
        sample
      ≡ (ok "424242", db'))
    × (count (is_live 12 VerificationScope.email) db'.codes ≡ 1)
    × ((u : ℕ) (s : VerificationScope)
        → (u == 12 && s is VerificationScope.email) ≡ false
        → count (is_live u s) db'.codes ≡ count (is_live u s) sample.codes)
    × ((swept : Option ℕ) (later : ℕ)
        → swept_by swept later ≡ true
        → ltb later (300 + ttl_minutes auth VerificationScope.email * minute) ≡ true
        → (db'' : Database) × (validate_code plain auth hash_code "424242" 12
              VerificationScope.email later
              (expired_removed swept db')
            ≡ (ok tt, db''))
          × ((again : ℕ)
              → validate_code plain auth hash_code "424242" 12 VerificationScope.email again db''
                ≡ (err invalid_code, db'')))
    × ((swept : Option ℕ) (later : ℕ)
        → ltb later (300 + ttl_minutes auth VerificationScope.email * minute) ≡ false
        → validate_code plain auth hash_code "424242" 12 VerificationScope.email later
            (expired_removed swept db')
          ≡ (
            err (
                if swept_since (300 + ttl_minutes auth VerificationScope.email * minute) swept
                then invalid_code
                else code_expired),
            expired_removed swept db',
          ))
create_code_lem_example =
    create_code_lem plain plain-IsMongo auth hash_code "424242" 12 VerificationScope.email 202 300
      sample refl

make_slug-ends_example :
    (slug : String) × (make_slug same_text "readers"
        (Clubs.exists_by_club_slug plain)
        32
        5
        "-"
        ("abcde" ∷ "fghij" ∷ "klmno" ∷ [])
        sample
      ≡ (ok (some slug), sample))
    × ((slug_taken sample) slug ≡ false)
make_slug-ends_example =
    make_slug-ends same_text "readers" (Clubs.exists_by_club_slug plain) (slug_taken sample)
      ("readers" ∷ "poets" ∷ []) 32 5 "-" ("abcde" ∷ "fghij" ∷ "klmno" ∷ []) sample reads
      (λ s h. ground arith) refl (omega arith)
