-- ===== src/Mongo.antt =====
-- The database driver (MongoDB reached through Beanie), which the repository only calls: a
-- parameter. A collection is the list of its documents in natural order. `IsMongo` states what the
-- driver's manual says of each call, by the plain list functions below.
use canterlot_api.Base.{
  ℕ, ◌≡◌, refl, Bool, true, false, not, Option, none, some, List, [], ◌∷◌, ◌++◌, any, if◌then◌else◌,
  is_some,
}
pub mod Count

module _ {D : Type 0} where
  abbrev pub matching : (D → Bool) → List D → List D
  matching test [] = []
  matching test (d ∷ ds) = if test d then d ∷ matching test ds else matching test ds

  abbrev pub first : (D → Bool) → List D → Option D
  first test [] = none
  first test (d ∷ ds) = if test d then some d else first test ds

  abbrev pub update_first : (D → Bool) → (D → D) → List D → List D
  update_first test f [] = []
  update_first test f (d ∷ ds) = if test d then f d ∷ ds else d ∷ update_first test f ds

  abbrev pub update_all : (D → Bool) → (D → D) → List D → List D
  update_all test f [] = []
  update_all test f (d ∷ ds) = (if test d then f d else d) ∷ update_all test f ds

  abbrev pub delete_first : (D → Bool) → List D → List D
  delete_first test [] = []
  delete_first test (d ∷ ds) = if test d then ds else d ∷ delete_first test ds

  abbrev pub delete_all : (D → Bool) → List D → List D
  delete_all test [] = []
  delete_all test (d ∷ ds) = if test d then delete_all test ds else d ∷ delete_all test ds

  abbrev pub matched_count : (D → Bool) → List D → ℕ
  matched_count test ds = if any test ds then 1 else 0

  -- `none` is a DuplicateKeyError: `clash d` holds of the documents that a unique index sets
  -- against `d`.
  abbrev pub insert_unique : (D → D → Bool) → D → List D → Option (List D)
  insert_unique clash d ds = if any (clash d) ds then none else some (ds ++ d ∷ [])

  abbrev pub update_or_insert : (D → D → Bool) → (D → Bool) → (D → D) → D → List D → Option (List D)
  update_or_insert clash test f d ds =
      if any test ds then some (update_first test f ds) else insert_unique clash d ds

  -- An update that a unique index guards.
  abbrev pub update_first_unique :
      (D → D → Bool) → (D → Bool) → (D → D) → List D → Option (List D × ℕ)
  update_first_unique clash test f ds = elim (first test ds) [
    | none ↦ some (ds, 0)
    | some d ↦
        if any (clash (f d)) (delete_first test ds) then none else some (update_first test f ds, 1)
  ]

-- What the callback wrote is committed, or aborted where it raises.
abbrev pub committed_or_aborted : {R S : Type 0} → (R → Bool) → (S → R × S) → S → R × S
committed_or_aborted raises callback s = let (r, s') = callback s in (r, if raises r then s else s')

pub record Mongo : Type 1 where
  pub find : {D : Type 0} → (D → Bool) → List D → List D
  pub find_one : {D : Type 0} → (D → Bool) → List D → Option D
  -- the collection after `update_one`, and the result's `matched_count`
  pub update_one : {D : Type 0} → (D → Bool) → (D → D) → List D → List D × ℕ
  -- the same under a unique index; `none` is a DuplicateKeyError
  pub update_unique :
      {D : Type 0} → (D → D → Bool) → (D → Bool) → (D → D) → List D → Option (List D × ℕ)
  pub update_many : {D : Type 0} → (D → Bool) → (D → D) → List D → List D
  pub delete_one : {D : Type 0} → (D → Bool) → List D → List D
  pub delete_many : {D : Type 0} → (D → Bool) → List D → List D
  pub insert : {D : Type 0} → (D → D → Bool) → D → List D → Option (List D)
  pub upsert : {D : Type 0} → (D → D → Bool) → (D → Bool) → (D → D) → D → List D → Option (List D)
  -- `session.with_transaction` on a callback that gives a result, or raises by the test given
  pub with_transaction : {R S : Type 0} → (R → Bool) → (S → R × S) → S → R × S

abbrev pub plain : Mongo
plain = record {
  find = matching;
  find_one = first;
  update_one = λ test f ds. (update_first test f ds, matched_count test ds);
  update_unique = update_first_unique;
  update_many = update_all;
  delete_one = delete_first;
  delete_many = delete_all;
  insert = insert_unique;
  upsert = update_or_insert;
  with_transaction = committed_or_aborted;
}

-- The driver's documented behaviour.
pub record IsMongo (m : Mongo) : Type 1 where
  pub find_lem : {D : Type 0} (test : D → Bool) (ds : List D) → m.find test ds ≡ matching test ds
  pub find_one_lem :
      {D : Type 0} (test : D → Bool) (ds : List D) → m.find_one test ds ≡ first test ds
  pub update_one_lem :
      {D : Type 0} (test : D → Bool) (f : D → D) (ds : List D)
      → m.update_one test f ds ≡ (update_first test f ds, matched_count test ds)
  pub update_unique_lem :
      {D : Type 0} (clash : D → D → Bool) (test : D → Bool) (f : D → D) (ds : List D)
      → m.update_unique clash test f ds ≡ update_first_unique clash test f ds
  pub update_many_lem :
      {D : Type 0} (test : D → Bool) (f : D → D) (ds : List D)
      → m.update_many test f ds ≡ update_all test f ds
  pub delete_one_lem :
      {D : Type 0} (test : D → Bool) (ds : List D) → m.delete_one test ds ≡ delete_first test ds
  pub delete_many_lem :
      {D : Type 0} (test : D → Bool) (ds : List D) → m.delete_many test ds ≡ delete_all test ds
  pub insert_lem :
      {D : Type 0} (clash : D → D → Bool) (d : D) (ds : List D)
      → m.insert clash d ds ≡ insert_unique clash d ds
  pub upsert_lem :
      {D : Type 0} (clash : D → D → Bool) (test : D → Bool) (f : D → D) (d : D) (ds : List D)
      → m.upsert clash test f d ds ≡ update_or_insert clash test f d ds
  pub with_transaction_lem :
      {R S : Type 0} (raises : R → Bool) (callback : S → R × S) (s : S)
      → m.with_transaction raises callback s ≡ committed_or_aborted raises callback s

-- The laws determine the driver, so a theorem is proved of `plain` and carried over.
pub eq_plain : (m : Mongo) → IsMongo m → m ≡ plain
eq_plain m laws = λ i. record {
  find = λ test ds. laws.find_lem test ds i;
  find_one = λ test ds. laws.find_one_lem test ds i;
  update_one = λ test f ds. laws.update_one_lem test f ds i;
  update_unique = λ clash test f ds. laws.update_unique_lem clash test f ds i;
  update_many = λ test f ds. laws.update_many_lem test f ds i;
  delete_one = λ test ds. laws.delete_one_lem test ds i;
  delete_many = λ test ds. laws.delete_many_lem test ds i;
  insert = λ clash d ds. laws.insert_lem clash d ds i;
  upsert = λ clash test f d ds. laws.upsert_lem clash test f d ds i;
  with_transaction = λ raises callback s. laws.with_transaction_lem raises callback s i;
}

pub plain-IsMongo : IsMongo plain
plain-IsMongo = record {
  find_lem = λ test ds. refl;
  find_one_lem = λ test ds. refl;
  update_one_lem = λ test f ds. refl;
  update_unique_lem = λ clash test f ds. refl;
  update_many_lem = λ test f ds. refl;
  delete_one_lem = λ test ds. refl;
  delete_many_lem = λ test ds. refl;
  insert_lem = λ clash d ds. refl;
  upsert_lem = λ clash test f d ds. refl;
  with_transaction_lem = λ raises callback s. refl;
}
