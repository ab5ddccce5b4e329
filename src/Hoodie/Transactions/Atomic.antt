-- ===== src/Hoodie/Transactions/Atomic.antt =====
-- All or nothing: `@transactional` of src/canterlot/hoodie/transactions.py.
use canterlot_api.Base.{◌≡◌, ap, true, false, Option, some, arith}
use canterlot_api.Models.{Database}
use canterlot_api.Effects.{transaction_error, Result, ok, err, Action}
use canterlot_api.Mongo.{Mongo, IsMongo, eq_plain}
use canterlot_api.Hoodie.Transactions.{transactional}

-- What is left of the result of a body at the outermost call.
abbrev pub absorbed : {A : Type 0} → Option A → Result A → Result A
absorbed on_conflict (ok a) = ok a
absorbed (some a) (err transaction_error) = ok a
absorbed on_conflict (err e) = err e

abbrev pub kept_if_ok : {A : Type 0} → Result A → Database → Database → Database
kept_if_ok (ok a) db' db = db'
kept_if_ok (err e) db' db = db

-- The outermost call commits what the body wrote exactly where the body returns; where it raises,
-- the database is as it was. A `TransactionError` becomes the `on_conflict` value where there is
-- one, and every other exception goes through.
pub transactional_outermost :
    (m : Mongo) (laws : IsMongo m) {A : Type 0} (on_conflict : Option A) (body : Action A)
    (db : Database)
    → transactional m on_conflict false body db
      ≡ (absorbed on_conflict ((body db).0), kept_if_ok ((body db).0) ((body db).1) db)
unfolding transactional
transactional_outermost m laws on_conflict body db = rw (eq_plain m laws) (ground arith)

-- A nested call adds nothing to its body: what the body wrote stays for the outermost call to
-- commit or to discard, and every exception goes through, whatever `on_conflict` is.
pub transactional_nested :
    (m : Mongo) (laws : IsMongo m) {A : Type 0} (on_conflict : Option A) (body : Action A)
    (db : Database)
    → transactional m on_conflict true body db ≡ body db
unfolding transactional
transactional_nested m laws on_conflict body db = rw (eq_plain m laws) (ground arith)

-- A nested call inside an outermost one behaves like the outermost one alone: its own `on_conflict`
-- never shows.
pub transactional_inner_conflict :
    (m : Mongo) (laws : IsMongo m) {A : Type 0} (outer inner : Option A) (body : Action A)
    (db : Database)
    → transactional m outer false (transactional m inner true body) db
      ≡ transactional m outer false body db
transactional_inner_conflict m laws outer inner body db =
    ap (λ f. transactional m outer false f db) (λ i d. transactional_nested m laws inner body d i)
