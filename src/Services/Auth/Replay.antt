-- ===== src/Services/Auth/Replay.antt =====
-- Using a refresh token again after `rotate_refresh_token` of src/canterlot/services/auth.py.
use text.Mathlib.Text.{◌==◌ as str_eq}
use text.Mathlib.TextEquality.{eq_iff}
use canterlot_api.Base.{
  ℕ, ◌+◌, ◌*◌, ◌/◌, ◌==◌, ◌≡◌, refl, true, [], ◌∷◌, arith, Option-cases, Bool-cases, inl, inr,
  if◌then◌else◌,
}
use canterlot_api.Base.Texts.{has_text, without_text, has_text-without_text, has_text-append}
use canterlot_api.Mongo.{Mongo, IsMongo, plain, eq_plain}
use canterlot_api.Types.{TokenType}
use canterlot_api.Models.{User, Database}
use canterlot_api.Effects.{ok, err, invalid_credentials}
use canterlot_api.Repositories.Users.Sessions.{token_pushed, token_pulled}
use canterlot_api.Repositories.Users.Accounts.{
  IdsUnique, account, tokens_of, changed, changed-Changed, changed-IdsUnique,
}
use canterlot_api.Services.Auth.Sessions.{create_tokens, rotate_refresh_token}
use canterlot_api.Services.Auth.Rotation.{rotate_lem}
use canterlot_api.Utils.Security.{Crypto, IsCrypto, TokenSettings, second, create_refresh_token}

whole_seconds :
    (a b d : ℕ)
    → ((a + d * 86400 * 1000000) / 1000000 == (b + d * 86400 * 1000000) / 1000000)
      ≡ (a / 1000000 == b / 1000000)
whole_seconds a b d = ground arith

module _ (crypto : Crypto) (laws : IsCrypto crypto) (settings : TokenSettings) where
  -- Two refresh tokens of an account are the same text if they are of the same second.
  pub same_refresh_token :
      (user_id a b : ℕ)
      → str_eq
          (create_refresh_token crypto settings user_id a)
          (create_refresh_token crypto settings user_id b)
        ≡ (a / second == b / second)
  same_refresh_token user_id a b =
      let delta = settings.refresh_token_expiry_days * 86400 * second in
      let s = create_refresh_token crypto settings user_id a in
      let t = create_refresh_token crypto settings user_id b in
      elim (Bool-cases (str_eq s t)) [
        | inl same ↦ ground (
          arith,
          laws.jwt_faithful user_id TokenType.refresh (a + delta) (b + delta) ((eq_iff s t).0 same),
          whole_seconds a b settings.refresh_token_expiry_days,
        )
        | inr other ↦ elim (Bool-cases (a / second == b / second)) [
          | inl near ↦ absurd (
              ground (
                arith,
                (eq_iff s t).1 (
                    laws.jwt_seconds user_id TokenType.refresh (a + delta) (b + delta)
                      (ground (arith, whole_seconds a b settings.refresh_token_expiry_days))),
              ))
          | inr far ↦ ground arith
        ]
      ]

  rotated_plain :
      (user_id issued now : ℕ) (db : Database)
      → IdsUnique db
      → has_text (create_refresh_token crypto settings user_id issued) (tokens_of user_id db) ≡ true
      → has_text (create_refresh_token crypto settings user_id issued) (
          tokens_of user_id
            (rotate_refresh_token plain crypto settings user_id
              (create_refresh_token crypto settings user_id issued)
              now
              db).1)
        ≡ (now / second == issued / second)
  rotated_plain user_id issued now db unique held =
      let old = create_refresh_token crypto settings user_id issued in
      let new = create_refresh_token crypto settings user_id now in
      let f : User → User = λ u. token_pushed new (token_pulled old u) in
      elim (Option-cases (account user_id db)) [
        | inl absent ↦ absurd (ground arith)
        | inr (u, found) ↦ ground (
          arith,
          rotate_lem crypto settings user_id old now db unique,
          (changed-Changed user_id f (λ v. refl) db).0 user_id,
          has_text-append old (without_text old u.refresh_tokens) (new ∷ []),
          has_text-without_text old u.refresh_tokens,
          same_refresh_token user_id now issued,
        )
      ]

-- With unique ids, rotating a refresh token that the account holds issues new tokens. Rotating the old
-- one once more, at whatever time, is then refused with InvalidCredentialsError if the second in which
-- it was issued has passed at the first rotation, and is served again if it has not.
pub rotate_refresh_token-again :
    (m : Mongo) (driver : IsMongo m) (crypto : Crypto) (laws : IsCrypto crypto)
    (settings : TokenSettings) (user_id issued now later : ℕ) (db : Database)
    → IdsUnique db
    → has_text (create_refresh_token crypto settings user_id issued) (tokens_of user_id db) ≡ true
    → (db' : Database) × (rotate_refresh_token m crypto settings user_id
          (create_refresh_token crypto settings user_id issued)
          now
          db
        ≡ (ok (create_tokens crypto settings user_id now), db'))
      × ((rotate_refresh_token m crypto settings user_id
            (create_refresh_token crypto settings user_id issued)
            later
            db').0
          ≡ (if now / second == issued / second
              then ok (create_tokens crypto settings user_id later)
              else err invalid_credentials))
rotate_refresh_token-again m driver crypto laws settings user_id issued now later db unique held =
    let old = create_refresh_token crypto settings user_id issued in
    let new = create_refresh_token crypto settings user_id now in
    let f : User → User = λ u. token_pushed new (token_pulled old u) in
    rw (eq_plain m driver) (
      changed user_id f db,
      ground (arith, rotate_lem crypto settings user_id old now db unique),
      ground (
        arith,
        rotate_lem crypto settings user_id old now db unique,
        rotate_lem crypto settings user_id old later (changed user_id f db)
            (changed-IdsUnique user_id f (λ u. refl) db unique),
        rotated_plain crypto laws settings user_id issued now db unique held,
      ),
    )
