-- ===== src/Repositories/Codes.antt =====
-- src/canterlot/repositories/beanie/verification.py
use canterlot_api.Base.{ℕ, ◌+◌, Bool, false, Option, List, ◌&&◌, ltb, leb, none, some, ◌==◌}
use canterlot_api.Mongo.{Mongo, delete_all}
use canterlot_api.Types.{VerificationScope, ◌is◌, scope_enum}
use canterlot_api.Models.{VerificationCode, Database}
use canterlot_api.Effects.{duplicate_key, Action, ◌>>=◌, ◌>>◌, pure, gets, modify, some_or_raise}

-- the active codes of a user for a scope
abbrev pub is_live : ℕ → VerificationScope → VerificationCode → Bool
is_live user_id scope c = c.user_id == user_id && (c.scope is scope && c.is_active)

abbrev pub has_code_id : ℕ → VerificationCode → Bool
has_code_id code_id c = c.id == code_id

abbrev same_code : VerificationCode → VerificationCode → Bool
same_code c d = d.id == c.id

abbrev pub deactivated : VerificationCode → VerificationCode
deactivated c = record c { is_active = false }

-- The update pipeline; both fields read the old number of attempts.
abbrev pub attempted : ℕ → VerificationCode → VerificationCode
attempted max_attempts c = record c {
  attempts = c.attempts + 1;
  is_active = ltb (c.attempts + 1) max_attempts;
}

abbrev pub codes_set : List VerificationCode → Database → Database
codes_set cs db = record db { codes = cs }

-- The TTL index on `expires_at` of src/canterlot/models/verification.py, as for invites.
abbrev pub is_gone : Option ℕ → VerificationCode → Bool
is_gone none c = false
is_gone (some swept_at) c = leb c.expires_at swept_at

abbrev pub expired_removed : Option ℕ → Database → Database
expired_removed swept db = codes_set (delete_all (is_gone swept) db.codes) db

module _ (m : Mongo) where
  unfoldable pub create_and_invalidate_previous : VerificationCode → Action VerificationCode
  create_and_invalidate_previous code = do
    modify
        (λ db. codes_set (m.update_many (is_live code.user_id code.scope) deactivated db.codes) db)
    written ← gets (λ db. m.upsert same_code (has_code_id code.id) (λ _. code) code db.codes)
    cs ← some_or_raise written duplicate_key
    modify (codes_set cs)
    pure code

  unfoldable pub find_active_code : ℕ → ℕ → VerificationScope → Action (Option VerificationCode)
  find_active_code user_id code_hash scope =
      gets (λ db. m.find_one (λ c. is_live user_id scope c && c.code_hash == code_hash) db.codes)

  unfoldable pub deactivate_code_by_id : ℕ → Action Unit
  deactivate_code_by_id code_id = do
    (cs, matched) ← gets (λ db. m.update_one (has_code_id code_id) deactivated db.codes)
    modify (codes_set cs)

  unfoldable pub increment_attempts_and_burn_if_exceeded : ℕ → VerificationScope → ℕ → Action Unit
  increment_attempts_and_burn_if_exceeded user_id scope max_attempts = do
    (cs, matched) ←
        gets (λ db. m.update_one (is_live user_id scope) (attempted max_attempts) db.codes)
    modify (codes_set cs)
