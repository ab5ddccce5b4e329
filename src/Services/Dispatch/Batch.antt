-- ===== src/Services/Dispatch/Batch.antt =====
-- `dispatch_batch` of src/canterlot/services/dispatch.py against `dispatch` of each item.
use Prim.Native.String.{String}
use text.Mathlib.Text.{◌==◌ as str_eq}
use text.Mathlib.TextEquality.{eq_iff}
use text.Mathlib.TextPositions.{eq_refl}
use canterlot_api.Base.{
  ℕ, ◌+◌, ◌≡◌, refl, ap, true, false, ◌&&◌, List, [], ◌∷◌, ◌++◌, map, arith, bit, is_empty,
  Bool-cases, inl, inr,
}
use canterlot_api.Base.Texts.{has_text}
use canterlot_api.Emails.Policy.{
  EmailTask, Cache, is_external_suppressed, suppressed_of, check_external_suppressions,
  external_suppression, find_many,
}
use canterlot_api.Services.Dispatch.{
  BatchEmailDispatchItem, dispatch, distinct_texts, enqueue_all, dispatch_batch,
}

-- Each item by itself, in turn, and how many are enqueued.
unfoldable pub dispatch_each :
    Cache → List BatchEmailDispatchItem → List EmailTask → ℕ × List EmailTask
dispatch_each cache [] queue = (0, queue)
dispatch_each cache (item ∷ items) queue =
    let (sent, queue') = dispatch cache item.task item.prefs queue in
    let (count, end) = dispatch_each cache items queue' in (bit sent + count, end)

has_text-distinct : (t : String) (ss : List String) → has_text t (distinct_texts ss) ≡ has_text t ss
has_text-distinct t [] = refl
has_text-distinct t (s ∷ ss) = elim (Bool-cases (str_eq s t)) [
  | inl same ↦ ground (arith, has_text-distinct t ss, ap (λ u. has_text u ss) ((eq_iff s t).0 same))
  | inr other ↦ ground (arith, has_text-distinct t ss)
]

has_text-suppressed :
    (t : String) (cache : Cache) (emails : List String)
    → has_text t (suppressed_of emails (find_many cache (map external_suppression emails)))
      ≡ (has_text t emails && is_external_suppressed t cache)
has_text-suppressed t cache [] = refl
has_text-suppressed t cache (s ∷ emails) = elim (Bool-cases (str_eq s t)) [
  | inl same ↦ ground (
    arith,
    has_text-suppressed t cache emails,
    ap (λ u. is_external_suppressed u cache) ((eq_iff s t).0 same),
  )
  | inr other ↦ ground (arith, has_text-suppressed t cache emails)
]

abbrev recipients : List BatchEmailDispatchItem → List String
recipients = map (λ (item : BatchEmailDispatchItem). item.task.to)

enqueue_all_lem :
    (cache : Cache) (suppressed_emails : List String) (items : List BatchEmailDispatchItem)
    (queue : List EmailTask)
    → ((t : String)
        → has_text t (recipients items) ≡ true
        → has_text t suppressed_emails ≡ is_external_suppressed t cache)
    → enqueue_all suppressed_emails items queue ≡ dispatch_each cache items queue
unfolding enqueue_all dispatch_each dispatch
enqueue_all_lem cache suppressed_emails [] queue same = refl
enqueue_all_lem cache suppressed_emails (item ∷ items) queue same = ground (
  arith,
  enqueue_all_lem cache suppressed_emails items queue (λ t h. same t (ground arith)),
  enqueue_all_lem cache suppressed_emails items (queue ++ item.task ∷ [])
      (λ t h. same t (ground arith)),
  same item.task.to,
  eq_refl item.task.to,
)

suppressed_lem :
    (cache : Cache) (items : List BatchEmailDispatchItem) (t : String)
    → has_text t (recipients items) ≡ true
    → has_text t (check_external_suppressions (distinct_texts (recipients items)) cache)
      ≡ is_external_suppressed t cache
suppressed_lem cache items t there =
    elim (Bool-cases (is_empty (distinct_texts (recipients items)))) [
      | inl nobody ↦ absurd (
          ground (
            arith,
            has_text-distinct t (recipients items),
            nothing_in (distinct_texts (recipients items)),
          ))
      | inr some_one ↦ ground (
        arith,
        has_text-suppressed t cache (distinct_texts (recipients items)),
        has_text-distinct t (recipients items),
      )
    ]
  where
    nothing_in : (ss : List String) → is_empty ss ≡ true → has_text t ss ≡ false
    nothing_in [] h = refl
    nothing_in (s ∷ ss) h = cc

-- For any contents of the cache, items and queue, `dispatch_batch`, which looks the suppressions of all
-- recipients up at once, enqueues the same emails in the same order as `dispatch` called with each item
-- in turn, and returns the number of the calls that return True.
pub dispatch_batch-each :
    (cache : Cache) (items : List BatchEmailDispatchItem) (queue : List EmailTask)
    → dispatch_batch cache items queue ≡ dispatch_each cache items queue
unfolding dispatch_batch dispatch_each
dispatch_batch-each cache [] queue = refl
dispatch_batch-each cache (item ∷ items) queue =
    enqueue_all_lem cache _ (item ∷ items) queue
      (λ t there. suppressed_lem cache (item ∷ items) t there)
