-- ===== src/Effects.antt =====
-- A handler reads and writes the database and may raise. What it wrote before a raise stays
-- written, unless a transaction undoes it. The exceptions are the classes of
-- src/canterlot/exceptions/, with the values that they carry.
use canterlot_api.Base.{
  ◌⊎◌, inl, inr, ◌≡◌, refl, ℕ, Bool, true, false, ◌&&◌, Option, none, some, if◌then◌else◌,
}
use canterlot_api.Models.{Database}

pub data Error : Type 0 where
  -- src/canterlot/exceptions/club.py
  cannot_change_owner_role cannot_transfer_ownership_to_self club_member_not_found : Error
  club_not_found club_owner_cannot_leave former_owner_protected member_role_change_conflict : Error
  ownership_transfer_conflict pending_request_not_found unauthorized_club_member : Error
  member_banned club_suggestions_closed book_locked_in_active_round : Error
  ownership_reclaim_window_expired : (window_expired_at : ℕ) → Error
  ownership_transfer_cooldown : (cooldown_expires_at : ℕ) → Error
  -- user.py, invite.py, auth.py, book.py and round.py
  user_not_found invalid_invite_token invite_link_deactivated : Error
  direct_invite_identity_mismatch invite_email_already_registered : Error
  invalid_code code_expired : Error
  username_already_exists email_already_exists stale_legal_version : Error
  invalid_credentials incorrect_password same_password : Error
  password_not_set password_already_set : Error
  auth_provider_already_linked auth_provider_not_linked last_authentication_method : Error
  oauth_link_required oauth_account_creation_conflict gateway_configuration : Error
  book_not_found read_book_not_found : Error
  active_round_already_exists no_eligible_catalog round_already_finalized round_not_found : Error
  -- `TransactionError` of src/canterlot/hoodie/exceptions.py; `MembershipConflict` is a subclass
  transaction_error : Error
  -- raised by the driver, by a conversion of a text into an enumeration, and by a failed look-up
  duplicate_key value_error key_error : Error
  -- pydantic's, of a field of a document
  validation_error : Error

pub data Result {ℓ} (A : Type ℓ) : Type ℓ where
  ok : A → Result A
  err : Error → Result A

pub Result-cases :
    {A : Type 0} (r : Result A) → ((e : Error) × (r ≡ err e)) ⊎ ((a : A) × (r ≡ ok a))
Result-cases (ok a) = inr (a, refl)
Result-cases (err e) = inl (e, refl)

abbrev pub Action : Type 0 → Type 0
Action A = Database → Result A × Database

infixl 5 ◌>>=◌ ◌>>◌
abbrev pub ◌>>=◌ : {A B : Type 0} → Action A → (A → Action B) → Action B
◌>>=◌ m f db = let (r, db') = m db in elim r [ ok a ↦ f a db' | err e ↦ (err e, db') ]

abbrev pub ◌>>◌ : {A B : Type 0} → Action A → Action B → Action B
m >> k = m >>= λ _. k

module _ {A : Type 0} where
  abbrev pub pure : A → Action A
  pure a db = (ok a, db)

  abbrev pub raise : Error → Action A
  raise e db = (err e, db)

  abbrev pub gets : (Database → A) → Action A
  gets f db = (ok (f db), db)

  -- `if x is None: raise`
  abbrev pub some_or_raise : Option A → Error → Action A
  some_or_raise none e = raise e
  some_or_raise (some a) e = pure a

abbrev pub raise_if : Bool → Error → Action Unit
raise_if test e db = (if test then err e else ok tt, db)

abbrev pub modify : (Database → Database) → Action Unit
modify f db = (ok tt, f db)

-- A call that returns exactly where `allowed` holds, with `Done` of its result and of the new
-- database; where it raises, the database is as it was.
abbrev pub Outcome :
    {A : Type 0} → Bool → (A → Database → Type 0) → Database → Result A × Database → Type 0
Outcome allowed Done db (ok a, db') = (allowed ≡ true) × Done a db'
Outcome allowed Done db (err e, db') = (allowed ≡ false) × (db' ≡ db)

pub Outcome-mono :
    {A : Type 0} (allowed : Bool) (P Q : A → Database → Type 0) (db : Database)
    (r : Result A × Database)
    → ((a : A) (db' : Database) → allowed ≡ true → P a db' → Q a db')
    → Outcome allowed P db r
    → Outcome allowed Q db r
Outcome-mono allowed P Q db (ok a, db') step (e, p) = (e, step a db' e p)
Outcome-mono allowed P Q db (err x, db') step h = h

-- A call and what follows it: the second may raise only where the first has written nothing.
pub Outcome-bind :
    {A B : Type 0} (a b : Bool) (P : A → Database → Type 0) (Q : B → Database → Type 0)
    (db : Database) (f : Action A) (k : A → Action B)
    → Outcome a P db (f db)
    → ((x : A) (db' : Database) → a ≡ true → P x db' → Outcome b Q db (k x db'))
    → Outcome (a && b) Q db ((f >>= k) db)
Outcome-bind {A} {B} a b P Q db f k h step = bound (f db) h
  where
    both : (r : Result B × Database) → a ≡ true → Outcome b Q db r → Outcome (a && b) Q db r
    both (ok y, db') e (eb, q) = (rw e eb, q)
    both (err x, db') e (eb, same) = (rw e eb, same)

    bound :
        (r : Result A × Database)
        → Outcome a P db r
        → Outcome
            (a && b)
            Q
            db
            (let (s, db') = r in elim s [ ok x ↦ k x db' | err x ↦ (err x, db') ])
    bound (ok x, db') (e, p) = both (k x db') e (step x db' e p)
    bound (err x, db') (e, same) = (rw e refl, same)
