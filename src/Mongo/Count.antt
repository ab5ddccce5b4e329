-- ===== src/Mongo/Count.antt =====
-- Counting the documents that pass a test, through each change of a collection.
use mathlib.Core.Option
use canterlot_api.Base.{
  ℕ, ◌+◌, ◌≤◌, ◌≡◌, refl, Bool, true, false, not, ◌&&◌, none, some, List, [], ◌∷◌, ◌++◌, arith, any,
  is_some, bit, if◌then◌else◌, Option, if◌then◌else◌,
}
use canterlot_api.Mongo.{first, update_first, update_all, delete_first, delete_all}

module _ {D : Type 0} where
  abbrev pub count : (D → Bool) → List D → ℕ
  count q [] = 0
  count q (d ∷ ds) = bit (q d) + count q ds

  pub first-holds : (p : D → Bool) (ds : List D) (d : D) → first p ds ≡ some d → p d ≡ true
  first-holds p [] d h = cc
  first-holds p (x ∷ ds) d h = ground (arith, first-holds p ds d)

  pub count-first-none : (p : D → Bool) (ds : List D) → first p ds ≡ none → count p ds ≡ 0
  count-first-none p [] h = refl
  count-first-none p (x ∷ ds) h = ground (arith, count-first-none p ds)

  pub first-count_zero : (p : D → Bool) (ds : List D) → count p ds ≡ 0 → first p ds ≡ none
  first-count_zero p [] h = refl
  first-count_zero p (x ∷ ds) h = ground (arith, first-count_zero p ds)

  -- The document found counts in every test that it passes.
  pub bit-le-count :
      (p q : D → Bool) (ds : List D) (d : D) → first p ds ≡ some d → bit (q d) ≤ count q ds
  bit-le-count p q [] d h = cc
  bit-le-count p q (x ∷ ds) d h = ground (arith, bit-le-count p q ds d)

  pub any-first : (p : D → Bool) (ds : List D) → any p ds ≡ is_some (first p ds)
  any-first p [] = refl
  any-first p (x ∷ ds) = ground (arith, any-first p ds)

  pub count-append_one :
      (q : D → Bool) (ds : List D) (d : D) → count q (ds ++ d ∷ []) ≡ count q ds + bit (q d)
  count-append_one q [] d = omega arith
  count-append_one q (x ∷ ds) d = omega (arith, count-append_one q ds d)

  pub count-update_first :
      (p : D → Bool) (f : D → D) (q : D → Bool) (ds : List D) (d : D)
      → first p ds ≡ some d
      → count q (update_first p f ds) + bit (q d) ≡ count q ds + bit (q (f d))
  count-update_first p f q [] d h = cc
  count-update_first p f q (x ∷ ds) d h = ground (arith, count-update_first p f q ds d)

  pub update_first-none :
      (p : D → Bool) (f : D → D) (ds : List D) → first p ds ≡ none → update_first p f ds ≡ ds
  update_first-none p f [] h = refl
  update_first-none p f (x ∷ ds) h = ground (arith, update_first-none p f ds)

  pub count-delete_first :
      (p q : D → Bool) (ds : List D) (d : D)
      → first p ds ≡ some d
      → count q (delete_first p ds) + bit (q d) ≡ count q ds
  count-delete_first p q [] d h = cc
  count-delete_first p q (x ∷ ds) d h = ground (arith, count-delete_first p q ds d)

  pub delete_first-none : (p : D → Bool) (ds : List D) → first p ds ≡ none → delete_first p ds ≡ ds
  delete_first-none p [] h = refl
  delete_first-none p (x ∷ ds) h = ground (arith, delete_first-none p ds)

  pub count-delete_all :
      (p q : D → Bool) (ds : List D) → count q (delete_all p ds) ≡ count (λ d. q d && not (p d)) ds
  count-delete_all p q [] = refl
  count-delete_all p q (x ∷ ds) = ground (arith, count-delete_all p q ds)

  pub count_mono :
      (p q : D → Bool) (ds : List D) → ((d : D) → p d ≡ true → q d ≡ true) → count p ds ≤ count q ds
  count_mono p q [] h = omega arith
  count_mono p q (x ∷ ds) h = ground (arith, count_mono p q ds h, h x)

  pub count_congr : (p q : D → Bool) (ds : List D) → ((d : D) → p d ≡ q d) → count p ds ≡ count q ds
  count_congr p q [] h = refl
  count_congr p q (x ∷ ds) h = ground (arith, count_congr p q ds h, h x)

  pub count_never : (p : D → Bool) (ds : List D) → ((d : D) → p d ≡ false) → count p ds ≡ 0
  count_never p [] h = refl
  count_never p (x ∷ ds) h = ground (arith, count_never p ds h, h x)

  -- A query by `p` and a further condition, where at most one document passes `p`.
  abbrev pub keep : (D → Bool) → Option D → Option D
  keep r none = none
  keep r (some d) = if r d then some d else none

  pub first-narrow :
      (p r : D → Bool) (ds : List D)
      → count p ds ≤ 1
      → first (λ d. p d && r d) ds ≡ keep r (first p ds)
  first-narrow p r [] le = refl
  first-narrow p r (x ∷ ds) le = ground (arith, first-narrow p r ds, first-count_zero p ds)

  pub first-delete_all :
      (p q : D → Bool) (ds : List D)
      → count q ds ≤ 1
      → first q (delete_all p ds) ≡ keep (λ d. not (p d)) (first q ds)
  first-delete_all p q [] le = refl
  first-delete_all p q (x ∷ ds) le = ground (arith, first-delete_all p q ds, first-count_zero q ds)

  pub count-delete_all-le : (p q : D → Bool) (ds : List D) → count q (delete_all p ds) ≤ count q ds
  count-delete_all-le p q [] = omega arith
  count-delete_all-le p q (x ∷ ds) = ground (arith, count-delete_all-le p q ds)

  -- A change that keeps `q` of each document.
  pub count-update_first-same :
      (p q : D → Bool) (f : D → D) (ds : List D)
      → ((d : D) → q (f d) ≡ q d)
      → count q (update_first p f ds) ≡ count q ds
  count-update_first-same p q f [] same = refl
  count-update_first-same p q f (x ∷ ds) same =
      ground (arith, count-update_first-same p q f ds same, same x)

  pub update_first-narrow :
      (p r : D → Bool) (f : D → D) (ds : List D) (d : D)
      → count p ds ≤ 1
      → first p ds ≡ some d
      → r d ≡ true
      → update_first (λ e. p e && r e) f ds ≡ update_first p f ds
  update_first-narrow p r f [] d le found holds = refl
  update_first-narrow p r f (x ∷ ds) d le found holds =
      ground (arith, update_first-narrow p r f ds d, bit-le-count p p ds d)

  -- Where the change keeps `q`, the document found by `q` is changed or stays.
  pub first-update_first :
      (p : D → Bool) (f : D → D) (ds : List D)
      → ((d : D) → p (f d) ≡ p d)
      → first p (update_first p f ds) ≡ Option.map f (first p ds)
  first-update_first p f [] same = refl
  first-update_first p f (x ∷ ds) same = ground (arith, first-update_first p f ds same, same x)

  pub first-update_first_other :
      (p q : D → Bool) (f : D → D) (ds : List D)
      → ((d : D) → p d ≡ true → q d ≡ false)
      → ((d : D) → q (f d) ≡ q d)
      → first q (update_first p f ds) ≡ first q ds
  first-update_first_other p q f [] apart same = refl
  first-update_first_other p q f (x ∷ ds) apart same =
      ground (arith, first-update_first_other p q f ds apart same, same x, apart x)

  pub first-delete_first_other :
      (p q : D → Bool) (ds : List D)
      → ((d : D) → p d ≡ true → q d ≡ false)
      → first q (delete_first p ds) ≡ first q ds
  first-delete_first_other p q [] apart = refl
  first-delete_first_other p q (x ∷ ds) apart =
      ground (arith, first-delete_first_other p q ds apart, apart x)

  pub first-delete_first :
      (p : D → Bool) (ds : List D) → count p ds ≤ 1 → first p (delete_first p ds) ≡ none
  first-delete_first p [] le = refl
  first-delete_first p (x ∷ ds) le = ground (arith, first-delete_first p ds, first-count_zero p ds)

  pub first-append_one :
      (p : D → Bool) (ds : List D) (d : D)
      → first p ds ≡ none
      → first p (ds ++ d ∷ []) ≡ (if p d then some d else none)
  first-append_one p [] d h = refl
  first-append_one p (x ∷ ds) d h = ground (arith, first-append_one p ds d)

  pub first-append_one_other :
      (p : D → Bool) (ds : List D) (d : D) → p d ≡ false → first p (ds ++ d ∷ []) ≡ first p ds
  first-append_one_other p [] d h = rw h
  first-append_one_other p (x ∷ ds) d h = ground (arith, first-append_one_other p ds d)

  -- Where at most one document passes `p`, a narrower test finds the same one.
  pub first_unique :
      (p q : D → Bool) (ds : List D) (d e : D)
      → count p ds ≤ 1
      → ((x : D) → q x ≡ true → p x ≡ true)
      → first p ds ≡ some d
      → first q ds ≡ some e
      → d ≡ e
  first_unique p q [] d e le narrow hd he = cc
  first_unique p q (x ∷ ds) d e le narrow hd he = ground (
    arith,
    narrow x,
    bit-le-count q p ds e,
    bit-le-count p p ds d,
    first-holds q ds e,
    narrow e,
    first_unique p q ds d e,
  )

  -- Where `test` covers all that `q` counts and the change ends it, nothing is left to count.
  pub count-update_all_none :
      (test : D → Bool) (f : D → D) (q : D → Bool) (ds : List D)
      → ((d : D) → q d ≡ true → test d ≡ true)
      → ((d : D) → q (f d) ≡ false)
      → count q (update_all test f ds) ≡ 0
  count-update_all_none test f q [] covers off = refl
  count-update_all_none test f q (d ∷ ds) covers off =
      ground (arith, count-update_all_none test f q ds, covers d, off d)

  -- Where `test` passes nothing that `q` counts, before or after the change, the count stays.
  pub count-update_all_other :
      (test : D → Bool) (f : D → D) (q : D → Bool) (ds : List D)
      → ((d : D) → q d ≡ true → test d ≡ false)
      → ((d : D) → q (f d) ≡ false)
      → count q (update_all test f ds) ≡ count q ds
  count-update_all_other test f q [] apart off = refl
  count-update_all_other test f q (d ∷ ds) apart off =
      ground (arith, count-update_all_other test f q ds, apart d, off d)

  -- A document found by one test is the one found by another that holds of it and of no other.
  pub first_only :
      (p q : D → Bool) (ds : List D) (d : D)
      → first p ds ≡ some d
      → q d ≡ true
      → count q ds ≤ 1
      → first q ds ≡ some d
  first_only p q [] d found holds le = cc
  first_only p q (x ∷ ds) d found holds le =
      ground (arith, first_only p q ds d, bit-le-count p q ds d)
