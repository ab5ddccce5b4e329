-- ===== src/Services/Dispatch.antt =====
-- src/canterlot/services/dispatch.py: putting emails on the queue of the worker.
pub mod Batch
use Prim.Native.String.{String}
use canterlot_api.Base.{
  ℕ, suc, Bool, true, false, not, Option, none, some, List, [], ◌∷◌, ◌++◌, map, is_empty,
  if◌then◌else◌,
}
use canterlot_api.Base.Texts.{has_text}
use canterlot_api.Models.{EmailPreferences}
use canterlot_api.Emails.Policy.{
  EmailTask, Cache, is_external_suppressed, check_external_suppressions, is_delivery_allowed,
}

pub record BatchEmailDispatchItem : Type 0 where
  pub task : EmailTask
  pub prefs : Option EmailPreferences

-- `prefs and not is_delivery_allowed(…)`
abbrev pub is_refused : EmailTask → Option EmailPreferences → Bool
is_refused task none = false
is_refused task (some prefs) = not (is_delivery_allowed task prefs)

-- The queue is the list of what is enqueued, in order. A call gives what it returns and the queue.
unfoldable pub dispatch :
    Cache → EmailTask → Option EmailPreferences → List EmailTask → Bool × List EmailTask
dispatch cache task prefs queue =
    if is_external_suppressed task.to cache
    then (false, queue)
    else if is_refused task prefs
    then (false, queue)
    else (true, queue ++ task ∷ [])

-- The keys of a set of texts.
abbrev pub distinct_texts : List String → List String
distinct_texts [] = []
distinct_texts (s ∷ ss) = let rest = distinct_texts ss in if has_text s ss then rest else s ∷ rest

-- The loop over the items.
unfoldable pub enqueue_all :
    List String → List BatchEmailDispatchItem → List EmailTask → ℕ × List EmailTask
enqueue_all suppressed_emails [] queue = (0, queue)
enqueue_all suppressed_emails (item ∷ items) queue =
    let after = enqueue_all suppressed_emails items (queue ++ item.task ∷ []) in
    let skipped = enqueue_all suppressed_emails items queue in
    if has_text item.task.to suppressed_emails
    then skipped
    else if is_refused item.task item.prefs
    then skipped
    else (suc after.0, after.1)

unfoldable pub dispatch_batch :
    Cache → List BatchEmailDispatchItem → List EmailTask → ℕ × List EmailTask
unfolding enqueue_all
dispatch_batch cache items queue =
    if is_empty items
    then (0, queue)
    else (let unique_emails =
          distinct_texts (map (λ (item : BatchEmailDispatchItem). item.task.to) items) in
        enqueue_all (check_external_suppressions unique_emails cache) items queue)
