-- ===== src/Hoodie/Transactions.antt =====
-- src/canterlot/hoodie/transactions.py: `@transactional`. `nested` says that a session is open
-- already (`_CURRENT_SESSION`). The driver's `with_transaction` runs an outermost body.
pub mod Atomic
use canterlot_api.Base.{Bool, true, false, ◌&&◌, not, Option, none, some, if◌then◌else◌}
use canterlot_api.Effects.{Error, transaction_error, Result, ok, err, Action}
use canterlot_api.Mongo.{Mongo}

-- `except TransactionError`
abbrev is_transaction_error : Error → Bool
is_transaction_error transaction_error = true
is_transaction_error _ = false

abbrev is_raised : {A : Type 0} → Result A → Bool
is_raised (ok a) = false
is_raised (err e) = true

module _ (m : Mongo) {A : Type 0} where
  -- `_run_in_transaction`
  unfoldable pub run_in_transaction : Bool → Action A → Action A
  run_in_transaction nested body db =
      if nested then body db else m.with_transaction is_raised body db

  -- the `wrapper`; `on_conflict` is `none` where it was left unset
  unfoldable pub transactional : Option A → Bool → Action A → Action A
  unfolding run_in_transaction
  transactional on_conflict nested body db =
      let (r, db') = run_in_transaction nested body db in
      elim r [
        | ok a ↦ (ok a, db')
        | err e ↦
            if is_transaction_error e && not nested
            then (elim on_conflict [ some a ↦ ok a | none ↦ err e ], db')
            else (err e, db')
      ]
