-- ===== src/Pagination/Whole.antt =====
-- The pages of src/canterlot/pagination.py make up the whole list.
use native.Mathlib.Nat.{lt-div-mul-add, div-mul-le_self, suc-mul, mul-le-mul_right}
use canterlot_api.Base.{
  ℕ, zero, suc, ◌+◌, ◌-◌, ◌*◌, ◌≤◌, ◌<◌, ◌≡◌, refl, ap, ◌∙◌, sym, List, [], ◌∷◌, ◌++◌, arith,
  length, take, drop, ltb, Bool-cases, inl, inr,
}
use canterlot_api.Pagination.{page_of, total_pages, has_next}

module _ {A : Type 0} where
  -- The items of the first pages, one page after the other.
  abbrev pub first_pages : List A → ℕ → ℕ → List A
  first_pages items limit zero = []
  first_pages items limit (suc n) = first_pages items limit n ++ (page_of items (suc n) limit).items

  take_nil : (n : ℕ) → take {A = A} n [] ≡ []
  take_nil zero = refl
  take_nil (suc n) = refl

  take_add : (a b : ℕ) (xs : List A) → take a xs ++ take b (drop a xs) ≡ take (a + b) xs
  take_add zero b xs = let e : 0 + b ≡ b = omega arith in rw e refl
  take_add (suc a) b [] = take_nil b ∙ sym (take_nil (suc a + b))
  take_add (suc a) b (x ∷ xs) =
      let e : suc a + b ≡ suc (a + b) = omega arith in rw e (ap (λ r. x ∷ r) (take_add a b xs))

  take_all : (n : ℕ) (xs : List A) → length xs ≤ n → take n xs ≡ xs
  take_all zero [] le = refl
  take_all zero (x ∷ xs) le = absurd (omega arith)
  take_all (suc n) [] le = refl
  take_all (suc n) (x ∷ xs) le = ap (λ r. x ∷ r) (take_all n xs (omega arith))

  first_pages_lem :
      (items : List A) (limit n : ℕ) → first_pages items limit n ≡ take (n * limit) items
  first_pages_lem items limit zero = let e : 0 * limit ≡ 0 = omega arith in rw e refl
  first_pages_lem items limit (suc n) =
      let back : suc n - 1 ≡ n = omega arith in
      let e : suc n * limit ≡ n * limit + limit = suc-mul n limit in
      rw (first_pages_lem items limit n, back, e) (take_add (n * limit) limit items)

  module _ (items : List A) (page limit : ℕ) (le : 1 ≤ limit) where
    covers : length items ≤ total_pages (page_of items page limit) * limit
    covers =
        omega
          (arith, le, lt-div-mul-add {a = length items + limit - 1} {b = limit} (omega (arith, le)))

    whole : first_pages items limit (total_pages (page_of items page limit)) ≡ items
    whole =
        first_pages_lem items limit (total_pages (page_of items page limit))
        ∙ take_all (total_pages (page_of items page limit) * limit) items covers

    next_of_more : page * limit < length items → page < total_pages (page_of items page limit)
    next_of_more more = elim (Bool-cases (ltb page (total_pages (page_of items page limit)))) [
      | inl e ↦ ground arith
      | inr e ↦ absurd (
          omega (
            arith,
            more,
            covers,
            mul-le-mul_right {m = total_pages (page_of items page limit)} {n = page} limit
                (ground arith),
          ))
    ]

    more_of_next : page < total_pages (page_of items page limit) → page * limit < length items
    more_of_next next = omega (
      arith,
      le,
      suc-mul page limit,
      mul-le-mul_right {m = suc page} {n = total_pages (page_of items page limit)} limit
          (omega (arith, next)),
      div-mul-le_self (length items + limit - 1) limit,
    )

-- With at least one item to a page, the pages that `Page.of` makes, from the first to the one whose
-- number is `total_pages`, are the whole list, in order; and `has_next` says of a page exactly
-- whether the list goes on after it.
pub pages_lem :
    {A : Type 0} (items : List A) (page limit : ℕ)
    → 1 ≤ limit
    → (first_pages items limit (total_pages (page_of items page limit)) ≡ items)
      × (has_next (page_of items page limit) ≡ ltb (page * limit) (length items))
pages_lem items page limit le = (
  whole items page limit le,
  ground (arith, next_of_more items page limit le, more_of_next items page limit le),
)
