-- ===== src/Repositories/Rounds/Moves.antt =====
-- How the rounds of src/canterlot/models/round.py may move: what is started, put to the vote, decided by a
-- draw, read and concluded, apart from the handlers that do it.
use canterlot_api.Base.{
  ℕ, ◌≤◌, ◌≡◌, Bool, true, false, ◌&&◌, ◌||◌, not, Option, none, some, List, [], ◌∷◌, ◌++◌, arith,
  is_some,
}
use canterlot_api.Mongo.{first, update_first}
use canterlot_api.Mongo.Count.{count, count-append_one, first-append_one_other, count-first-none}
use canterlot_api.Types.{RoundStatus, ◌is◌, round_status_enum}
use canterlot_api.Models.{Round}
use canterlot_api.Repositories.Rounds.{
  is_active_of, has_round_id, is_round_at, put_to_vote, drawn, completed_last, concluded,
}

-- A new round has a book, or is in its setup.
abbrev pub is_opening : Round → Bool
is_opening r =
    (r.status is RoundStatus.setup) || (r.status is RoundStatus.decided && is_some r.book_id)

pub data Move (rs : List Round) (rs' : List Round) : Type 0 where
  starts :
      (r : Round)
      → first (is_active_of r.club_id) rs ≡ none
      → count (has_round_id r.id) rs ≡ 0
      → is_opening r ≡ true
      → rs' ≡ rs ++ r ∷ []
      → Move rs rs'
  votes :
      (round_id : ℕ)
      → rs' ≡ update_first (is_round_at round_id RoundStatus.setup) put_to_vote rs
      → Move rs rs'
  draws :
      (round_id book_id decided_at : ℕ) (deadline : Option ℕ)
      → rs'
        ≡ update_first
            (is_round_at round_id RoundStatus.setup)
            (drawn book_id decided_at deadline)
            rs
      → Move rs rs'
  reads :
      (round_id user_id at : ℕ)
      → rs' ≡ update_first (is_round_at round_id RoundStatus.decided) (completed_last user_id at) rs
      → Move rs rs'
  concludes :
      (round_id : ℕ)
      → rs' ≡ update_first (is_round_at round_id RoundStatus.decided) concluded rs
      → Move rs rs'

pub data Moves : List Round → List Round → Type 0 where
  stays : {rs : List Round} → Moves rs rs
  moves : {rs ss ts : List Round} → Move rs ss → Moves ss ts → Moves rs ts

pub Moves-append : {rs ss ts : List Round} → Moves rs ss → Moves ss ts → Moves rs ts
Moves-append stays after = after
Moves-append (moves one rest) after = moves one (Moves-append rest after)

-- A decided round without its book.
abbrev pub lacks_book : Round → Bool
lacks_book r = r.status is RoundStatus.decided && not (is_some r.book_id)

pub record RoundsSound (rs : List Round) : Type 0 where
  pub ids : (k : ℕ) → count (has_round_id k) rs ≤ 1
  pub one_active : (c : ℕ) → count (is_active_of c) rs ≤ 1
  pub books : count lacks_book rs ≡ 0

-- A change that lets nothing pass `q` that did not pass before.
pub count-update_first-le :
    (p q : Round → Bool) (f : Round → Round) (rs : List Round)
    → ((r : Round) → p r ≡ true → q (f r) ≡ true → q r ≡ true)
    → count q (update_first p f rs) ≤ count q rs
count-update_first-le p q f [] narrows = omega arith
count-update_first-le p q f (r ∷ rs) narrows =
    ground (arith, count-update_first-le p q f rs narrows, narrows r)

update_first-RoundsSound :
    (p : Round → Bool) (f : Round → Round) (rs : List Round)
    → ((r : Round) (k : ℕ) → p r ≡ true → has_round_id k (f r) ≡ true → has_round_id k r ≡ true)
    → ((r : Round) (c : ℕ) → p r ≡ true → is_active_of c (f r) ≡ true → is_active_of c r ≡ true)
    → ((r : Round) → p r ≡ true → lacks_book (f r) ≡ true → lacks_book r ≡ true)
    → RoundsSound rs
    → RoundsSound (update_first p f rs)
update_first-RoundsSound p f rs keeps_id keeps_active keeps_book sound = record {
  ids = λ k.
      omega (arith, count-update_first-le p (has_round_id k) f rs (λ r. keeps_id r k), sound.ids k);
  one_active = λ c. omega (
    arith,
    count-update_first-le p (is_active_of c) f rs (λ r. keeps_active r c),
    sound.one_active c,
  );
  books = omega (arith, count-update_first-le p lacks_book f rs keeps_book, sound.books);
}

pub Move-RoundsSound : {rs ss : List Round} → Move rs ss → RoundsSound rs → RoundsSound ss
Move-RoundsSound {rs} (starts r idle fresh opening e) sound = rw e (record {
  ids = λ k. ground (arith, count-append_one (has_round_id k) rs r, sound.ids k);
  one_active = λ c. ground (
    arith,
    count-append_one (is_active_of c) rs r,
    sound.one_active c,
    count-first-none (is_active_of r.club_id) rs idle,
  );
  books = ground (arith, count-append_one lacks_book rs r, sound.books);
})
Move-RoundsSound {rs} (votes round_id e) sound = rw e (
    update_first-RoundsSound (is_round_at round_id RoundStatus.setup) put_to_vote rs (λ r k p h. h)
      (λ r c p h. ground arith) (λ r p h. ground arith) sound)
Move-RoundsSound {rs} (draws round_id book_id decided_at deadline e) sound = rw e (
    update_first-RoundsSound (is_round_at round_id RoundStatus.setup)
      (drawn book_id decided_at deadline) rs (λ r k p h. h) (λ r c p h. ground arith)
      (λ r p h. ground arith) sound)
Move-RoundsSound {rs} (reads round_id user_id at e) sound = rw e (
    update_first-RoundsSound (is_round_at round_id RoundStatus.decided) (completed_last user_id at)
      rs (λ r k p h. h) (λ r c p h. h) (λ r p h. h) sound)
Move-RoundsSound {rs} (concludes round_id e) sound = rw e (
    update_first-RoundsSound (is_round_at round_id RoundStatus.decided) concluded rs (λ r k p h. h)
      (λ r c p h. ground arith) (λ r p h. ground arith) sound)

pub Moves-RoundsSound : {rs ss : List Round} → Moves rs ss → RoundsSound rs → RoundsSound ss
Moves-RoundsSound stays sound = sound
Moves-RoundsSound (moves one rest) sound = Moves-RoundsSound rest (Move-RoundsSound one sound)

-- A document that the update does not find is found as before.
first-update_first-kept :
    (p q : Round → Bool) (f : Round → Round) (rs : List Round) (r : Round)
    → first q rs ≡ some r
    → p r ≡ false
    → ((x : Round) → p x ≡ true → q (f x) ≡ true → q x ≡ true)
    → first q (update_first p f rs) ≡ some r
first-update_first-kept p q f [] r found apart narrows = found
first-update_first-kept p q f (x ∷ rs) r found apart narrows =
    ground (arith, first-update_first-kept p q f rs r, narrows x)

-- Nothing moves a club's round from VOTING.
pub Move-voting :
    {rs ss : List Round} (club_id : ℕ) (r : Round)
    → Move rs ss
    → first (is_active_of club_id) rs ≡ some r
    → (r.status is RoundStatus.voting) ≡ true
    → first (is_active_of club_id) ss ≡ some r
Move-voting {rs} club_id r (starts s idle fresh opening e) found voting =
    rw e (ground (arith, first-append_one_other (is_active_of club_id) rs s))
Move-voting {rs} club_id r (votes round_id e) found voting = rw e (
    first-update_first-kept (is_round_at round_id RoundStatus.setup) (is_active_of club_id)
      put_to_vote rs r found (ground arith) (λ x p h. ground arith))
Move-voting {rs} club_id r (draws round_id book_id decided_at deadline e) found voting = rw e (
    first-update_first-kept (is_round_at round_id RoundStatus.setup) (is_active_of club_id)
      (drawn book_id decided_at deadline) rs r found (ground arith) (λ x p h. ground arith))
Move-voting {rs} club_id r (reads round_id user_id at e) found voting = rw e (
    first-update_first-kept (is_round_at round_id RoundStatus.decided) (is_active_of club_id)
      (completed_last user_id at) rs r found (ground arith) (λ x p h. h))
Move-voting {rs} club_id r (concludes round_id e) found voting = rw e (
    first-update_first-kept (is_round_at round_id RoundStatus.decided) (is_active_of club_id)
      concluded rs r found (ground arith) (λ x p h. ground arith))

pub Moves-voting :
    {rs ss : List Round} (club_id : ℕ) (r : Round)
    → Moves rs ss
    → first (is_active_of club_id) rs ≡ some r
    → (r.status is RoundStatus.voting) ≡ true
    → first (is_active_of club_id) ss ≡ some r
Moves-voting club_id r stays found voting = found
Moves-voting club_id r (moves one rest) found voting =
    Moves-voting club_id r rest (Move-voting club_id r one found voting) voting
