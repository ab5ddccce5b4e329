-- ===== src/Services/Verification.antt =====
-- src/canterlot/services/verification.py and src/canterlot/models/verification.py. `hash_code` is the salted
-- digest of a code for a user, a number here; `code`, `new_id` and `now` are what the generator of
-- codes, the driver and the clock give.
pub mod Guesses
pub mod Lifetime
use Prim.Native.String.{String}
use canterlot_api.Base.{ℕ, ◌+◌, ◌*◌, true, Option, none, some, leb}
use canterlot_api.Mongo.{Mongo}
use canterlot_api.Types.{VerificationScope}
use canterlot_api.Models.{VerificationCode}
use canterlot_api.Effects
use canterlot_api.Effects.{Action, ◌>>=◌, ◌>>◌, pure, raise, raise_if}
use canterlot_api.Repositories.Codes

pub record AuthSettings : Type 0 where
  pub max_verification_attempts : ℕ
  pub password_reset_ttl_minutes : ℕ
  pub email_ttl_minutes : ℕ

-- `VerificationScope.ttl_minutes`
abbrev pub ttl_minutes : AuthSettings → VerificationScope → ℕ
ttl_minutes cfg VerificationScope.password_reset = cfg.password_reset_ttl_minutes
ttl_minutes cfg VerificationScope.email = cfg.email_ttl_minutes

-- in microseconds
abbrev pub minute : ℕ
minute = 60000000

module _ (m : Mongo) (cfg : AuthSettings) (hash_code : String → ℕ → ℕ) where
  -- `VerificationCodeModel.build`
  abbrev pub build : String → ℕ → VerificationScope → ℕ → ℕ → VerificationCode
  build code user_id scope new_id now = record {
    id = new_id;
    code_hash = hash_code code user_id;
    user_id = user_id;
    scope = scope;
    attempts = 0;
    expires_at = now + ttl_minutes cfg scope * minute;
    is_active = true;
  }

  unfoldable pub create_code : String → ℕ → VerificationScope → ℕ → ℕ → Action String
  create_code plaintext_code user_id scope new_id now = do
    Codes.create_and_invalidate_previous m (build plaintext_code user_id scope new_id now)
    pure plaintext_code

  unfoldable pub validate_code : String → ℕ → VerificationScope → ℕ → Action Unit
  validate_code code user_id scope now = do
    found ← Codes.find_active_code m user_id (hash_code code user_id) scope
    elim found [
      | none ↦
          Codes.increment_attempts_and_burn_if_exceeded m user_id scope
            cfg.max_verification_attempts
          >> raise Effects.invalid_code
      | some code_model ↦
          raise_if (leb code_model.expires_at now) Effects.code_expired
          >> Codes.deactivate_code_by_id m code_model.id
    ]
