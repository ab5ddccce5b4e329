-- ===== src/Utils/Security.antt =====
-- src/canterlot/utils/security.py: passwords and session tokens. bcrypt and PyJWT are libraries, and
-- a record here; the salt and the clock of a call are arguments.
use Prim.Native.String.{String}
use text.Mathlib.Text.{◌==◌ as str_eq}
use canterlot_api.Base.{ℕ, ◌+◌, ◌*◌, ◌/◌, ◌≡◌, Bool, true, false, Option, some}
use canterlot_api.Types.{TokenType}

pub record Crypto : Type 0 where
  -- `none` is the ValueError for a password that is too long, of more than 72 bytes, or for a text that
  -- is no hash
  pub hashpw : String → String → Option String
  pub checkpw : String → String → Option Bool
  -- the token of a subject, a type and a time of expiry in microseconds
  pub jwt_encode : ℕ → TokenType → ℕ → String

-- in microseconds
abbrev pub second : ℕ
second = 1000000

-- The documented behaviour: a hash is a text of 60 characters that its password checks against, and
-- the time of expiry in a token is a whole number of seconds, which can be read back.
pub record IsCrypto (c : Crypto) : Type 0 where
  pub checkpw-hashpw :
      (password salt hashed : String)
      → c.hashpw password salt ≡ some hashed
      → c.checkpw password hashed ≡ some true
  pub hashpw_full :
      (password salt hashed : String)
      → c.hashpw password salt ≡ some hashed
      → str_eq hashed "" ≡ false
  pub jwt_seconds :
      (sub : ℕ) (type : TokenType) (a b : ℕ)
      → a / second ≡ b / second
      → c.jwt_encode sub type a ≡ c.jwt_encode sub type b
  pub jwt_faithful :
      (sub : ℕ) (type : TokenType) (a b : ℕ)
      → c.jwt_encode sub type a ≡ c.jwt_encode sub type b
      → a / second ≡ b / second

-- those of `get_settings().auth`
pub record TokenSettings : Type 0 where
  pub access_token_expiry_minutes : ℕ
  pub refresh_token_expiry_days : ℕ
  pub reset_token_expiry_minutes : ℕ

module _ (crypto : Crypto) where
  abbrev pub hash_password : String → String → Option String
  hash_password password salt = crypto.hashpw password salt

  abbrev pub verify_password : String → String → Option Bool
  verify_password plain_password hashed_password = crypto.checkpw plain_password hashed_password

  abbrev pub create_jwt_token : ℕ → TokenType → ℕ → ℕ → String
  create_jwt_token sub type expires_delta now = crypto.jwt_encode sub type (now + expires_delta)

  module _ (settings : TokenSettings) where
    abbrev pub create_access_token : ℕ → ℕ → String
    create_access_token user_id now =
        create_jwt_token user_id TokenType.access
          (settings.access_token_expiry_minutes * 60 * second) now

    abbrev pub create_refresh_token : ℕ → ℕ → String
    create_refresh_token user_id now =
        create_jwt_token user_id TokenType.refresh
          (settings.refresh_token_expiry_days * 86400 * second) now

    abbrev pub create_reset_token : ℕ → ℕ → String
    create_reset_token user_id now =
        create_jwt_token user_id TokenType.reset (settings.reset_token_expiry_minutes * 60 * second)
          now
