-- ===== src/Repositories/Memberships/Sound.antt =====
-- The invariant of the clubs and their rosters, and the changes of the collections that keep it.
use canterlot_api.Base.{
  ℕ, ◌≤◌, ◌≡◌, ap, ◌∙◌, Bool, true, false, ◌&&◌, not, Option, none, some, List, [], ◌∷◌, ◌++◌,
  arith, ◌==◌, if◌then◌else◌, Option-cases, inl, inr,
}
use canterlot_api.Mongo.{first, update_first, delete_first, delete_all}
use canterlot_api.Mongo.Count.{
  count, first-holds, count-first-none, count-update_first, update_first-none, count-append_one,
  count-delete_first, delete_first-none, count-delete_all, count_mono, bit-le-count,
}
use canterlot_api.Types.{MembershipStatus, status_enum}
use canterlot_api.Models.{Club, ClubMembership, Database}
use canterlot_api.Repositories.Memberships.{
  has_key, has_status, in_club, has_id, memberships_set, clubs_set,
}
use canterlot_api.Repositories.Memberships.Roster.{KeysUnique, status_at}
use canterlot_api.Repositories.Memberships.Queries.{holds_status}

abbrev pub owns : ℕ → ClubMembership → Bool
owns club_id d = in_club club_id d && has_status MembershipStatus.owner d

-- Every club that is stored has exactly one owner, and no other club has any.
pub record IsSound (db : Database) : Type 0 where
  pub keys : KeysUnique db.memberships
  pub club_ids : (club_id : ℕ) → count (has_id club_id) db.clubs ≤ 1
  pub owners : (club_id : ℕ) → count (owns club_id) db.memberships ≡ count (has_id club_id) db.clubs

abbrev pub is_owner_status : Option MembershipStatus → Bool
is_owner_status = holds_status MembershipStatus.owner

module _ (club_id user_id : ℕ) (f : ClubMembership → ClubMembership)
    (keeps : (a b : ℕ) (d : ClubMembership) → has_key a b (f d) ≡ has_key a b d) where
  pub count_key-update_first :
      (ds : List ClubMembership) (a b : ℕ)
      → count (has_key a b) (update_first (has_key club_id user_id) f ds) ≡ count (has_key a b) ds
  count_key-update_first ds a b = elim (Option-cases (first (has_key club_id user_id) ds)) [
    | inl absent ↦ ap (count (has_key a b)) (update_first-none _ f ds absent)
    | inr (d, found) ↦ ground (
      arith,
      count-update_first (has_key club_id user_id) f (has_key a b) ds d found,
      keeps a b d,
    )
  ]

  -- Neither the old nor the new status is OWNER.
  pub update_first-IsSound :
      (db : Database) (status : MembershipStatus)
      → IsSound db
      → ((d : ClubMembership) → (f d).status ≡ status)
      → is_owner_status (status_at club_id user_id db.memberships) ≡ false
      → is_owner_status (some status) ≡ false
      → IsSound (memberships_set (update_first (has_key club_id user_id) f db.memberships) db)
  update_first-IsSound db status sound sets old new = record {
    keys = λ a b. omega (arith, count_key-update_first db.memberships a b, sound.keys a b);
    club_ids = sound.club_ids;
    owners = λ c. elim (Option-cases (first (has_key club_id user_id) db.memberships)) [
      | inl absent ↦
          ap (count (owns c)) (update_first-none _ f db.memberships absent) ∙ sound.owners c
      | inr (d, found) ↦ ground (
        arith,
        count-update_first (has_key club_id user_id) f (owns c) db.memberships d found,
        sound.owners c,
        sets d,
      )
    ];
  }

count_absent :
    (a b : ℕ) (d : ClubMembership) (ds : List ClubMembership)
    → status_at d.club_id d.user_id ds ≡ none
    → has_key a b d ≡ true
    → count (has_key a b) ds ≡ 0
count_absent a b d ds absent here =
    let ea : d.club_id ≡ a = ground arith in
    let eb : d.user_id ≡ b = ground arith in
    count-first-none (has_key a b) ds
      (elim (Option-cases (first (has_key a b) ds)) [ inl e ↦ e | inr (x, e) ↦ cc (ea, eb) ])

count_kept :
    (p : Club → Bool) (f : Club → Club) (k : ℕ) (cs : List Club)
    → ((c : Club) → (f c).id ≡ c.id)
    → count (has_id k) (update_first p f cs) ≡ count (has_id k) cs
count_kept p f k cs keeps = elim (Option-cases (first p cs)) [
  | inl absent ↦ ap (count (has_id k)) (update_first-none p f cs absent)
  | inr (c, found) ↦ ground (arith, count-update_first p f (has_id k) cs c found, keeps c)
]

count_id-delete_first :
    (club_id k : ℕ) (cs : List Club)
    → count (has_id club_id) cs ≤ 1
    → count (has_id k) (delete_first (has_id club_id) cs)
      ≡ (if k == club_id then 0 else count (has_id k) cs)
count_id-delete_first club_id k cs le = elim (Option-cases (first (has_id club_id) cs)) [
  | inl absent ↦ ground (
    arith,
    delete_first-none (has_id club_id) cs absent,
    count-first-none (has_id club_id) cs absent,
  )
  | inr (c, found) ↦ ground (
    arith,
    count-delete_first (has_id club_id) (has_id k) cs c found,
    first-holds (has_id club_id) cs c found,
    bit-le-count (has_id club_id) (has_id k) cs c found,
  )
]

count-owns-delete_all :
    (club_id k : ℕ) (ds : List ClubMembership)
    → count (owns k) (delete_all (in_club club_id) ds)
      ≡ (if k == club_id then 0 else count (owns k) ds)
count-owns-delete_all club_id k [] = ground arith
count-owns-delete_all club_id k (d ∷ ds) = ground (arith, count-owns-delete_all club_id k ds)

module _ (db : Database) (sound : IsSound db) where
  pub append_one-IsSound :
      (d : ClubMembership)
      → status_at d.club_id d.user_id db.memberships ≡ none
      → is_owner_status (some d.status) ≡ false
      → IsSound (memberships_set (db.memberships ++ d ∷ []) db)
  append_one-IsSound d absent other = record {
    keys = λ a b. ground (
      arith,
      count-append_one (has_key a b) db.memberships d,
      sound.keys a b,
      count_absent a b d db.memberships,
    );
    club_ids = sound.club_ids;
    owners = λ c. ground (arith, count-append_one (owns c) db.memberships d, sound.owners c);
  }

  pub delete_first-IsSound :
      (club_id user_id : ℕ)
      → is_owner_status (status_at club_id user_id db.memberships) ≡ false
      → IsSound (memberships_set (delete_first (has_key club_id user_id) db.memberships) db)
  delete_first-IsSound club_id user_id other =
      elim (Option-cases (first (has_key club_id user_id) db.memberships)) [
        | inl absent ↦ rw (delete_first-none _ db.memberships absent) sound
        | inr (d, found) ↦ record {
          keys = λ a b. omega (
            arith,
            count-delete_first (has_key club_id user_id) (has_key a b) db.memberships d found,
            sound.keys a b,
          );
          club_ids = sound.club_ids;
          owners = λ c. ground (
            arith,
            count-delete_first (has_key club_id user_id) (owns c) db.memberships d found,
            sound.owners c,
          );
        }
      ]

  -- An update of clubs that keeps their ids.
  pub clubs-IsSound :
      (p : Club → Bool) (f : Club → Club)
      → ((c : Club) → (f c).id ≡ c.id)
      → IsSound (clubs_set (update_first p f db.clubs) db)
  clubs-IsSound p f keeps =
      let same : (k : ℕ)
          → count (has_id k) (update_first p f db.clubs) ≡ count (has_id k) db.clubs =
        λ k. count_kept p f k db.clubs keeps in
      record {
        keys = sound.keys;
        club_ids = λ k. omega (arith, same k, sound.club_ids k);
        owners = λ k. omega (arith, same k, sound.owners k);
      }

  -- A club goes with its whole roster.
  pub dissolve-IsSound :
      (club_id : ℕ)
      → IsSound (record db {
        clubs = delete_first (has_id club_id) db.clubs;
        memberships = delete_all (in_club club_id) db.memberships;
      })
  dissolve-IsSound club_id = record {
    keys = λ a b. omega (
      arith,
      count-delete_all (in_club club_id) (has_key a b) db.memberships,
      count_mono (λ d. has_key a b d && not (in_club club_id d)) (has_key a b) db.memberships
          (λ d h. ground arith),
      sound.keys a b,
    );
    club_ids = λ k.
        ground (
          arith,
          count_id-delete_first club_id k db.clubs,
          sound.club_ids club_id,
          sound.club_ids k,
        );
    owners = λ k. ground (
      arith,
      count_id-delete_first club_id k db.clubs,
      count-owns-delete_all club_id k db.memberships,
      sound.club_ids club_id,
      sound.owners k,
    );
  }
