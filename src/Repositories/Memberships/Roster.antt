-- ===== src/Repositories/Memberships/Roster.antt =====
-- The roster as a function: the status of a user in a club, and how it answers the queries of
-- src/canterlot/repositories/beanie/club_membership.py and follows their writes.
use canterlot_api.Base.{
  ℕ, ◌≤◌, ◌≡◌, true, false, ◌&&◌, Option, none, some, List, [], ◌∷◌, ◌++◌, arith, ◌==◌, is_some, ap,
  if◌then◌else◌, Bool-cases, Option-cases, inl, inr,
}
use canterlot_api.Mongo.{first, update_first, delete_first}
use canterlot_api.Mongo.Count.{
  count, first-update_first, first-update_first_other, first-delete_first, first-delete_first_other,
  first-append_one, first-append_one_other,
}
use canterlot_api.Types.{MemberRole, MembershipStatus, status_enum}
use canterlot_api.Models.{ClubMembership}
use canterlot_api.Repositories.Memberships.{has_key, role_of_status}

-- The unique index on `club_id` and `user_id`.
abbrev pub KeysUnique : List ClubMembership → Type 0
KeysUnique ds = (club_id user_id : ℕ) → count (has_key club_id user_id) ds ≤ 1

abbrev pub status_of : Option ClubMembership → Option MembershipStatus
status_of none = none
status_of (some d) = some d.status

abbrev pub status_at : ℕ → ℕ → List ClubMembership → Option MembershipStatus
status_at club_id user_id ds = status_of (first (has_key club_id user_id) ds)

abbrev pub role_at : ℕ → ℕ → List ClubMembership → Option MemberRole
role_at club_id user_id ds = elim (status_at club_id user_id ds) [
  | none ↦ none
  | some status ↦ role_of_status status
]

-- A status at one place of the roster, the others left.
abbrev pub placed :
    ℕ → ℕ → Option MembershipStatus → List ClubMembership → ℕ → ℕ → Option MembershipStatus
placed club_id user_id status ds c u =
    if c == club_id && u == user_id then status else status_at c u ds

has_key-apart :
    (c u club_id user_id : ℕ)
    → (c == club_id && u == user_id) ≡ false
    → (d : ClubMembership) → has_key club_id user_id d ≡ true
    → has_key c u d ≡ false
has_key-apart c u club_id user_id h d e = ground arith

same_place :
    (c u club_id user_id : ℕ)
    → (c == club_id && u == user_id) ≡ true
    → (c ≡ club_id) × (u ≡ user_id)
same_place c u club_id user_id h = ground arith

-- An equation that holds at one place and elsewhere holds at every place.
by_place :
    (c u club_id user_id : ℕ) (f g : ℕ → ℕ → Option MembershipStatus)
    (status : Option MembershipStatus)
    → f club_id user_id ≡ status
    → ((c == club_id && u == user_id) ≡ false → f c u ≡ g c u)
    → f c u ≡ (if c == club_id && u == user_id then status else g c u)
by_place c u club_id user_id f g status self other =
    elim (Bool-cases (c == club_id && u == user_id)) [
      | inl here ↦ let (ec, eu) = same_place c u club_id user_id here in rw here (cc (ec, eu, self))
      | inr apart ↦ rw apart (other apart)
    ]

module _ (c u club_id user_id : ℕ) (ds : List ClubMembership) where
  pub status_at-update_first :
      (f : ClubMembership → ClubMembership) (status : MembershipStatus)
      → ((a b : ℕ) (d : ClubMembership) → has_key a b (f d) ≡ has_key a b d)
      → ((d : ClubMembership) → (f d).status ≡ status)
      → is_some (status_at club_id user_id ds) ≡ true
      → status_at c u (update_first (has_key club_id user_id) f ds)
        ≡ placed club_id user_id (some status) ds c u
  status_at-update_first f status keeps sets there =
      by_place c u club_id user_id
        (λ a b. status_at a b (update_first (has_key club_id user_id) f ds))
        (λ a b. status_at a b ds) (some status)
        (elim (Option-cases (first (has_key club_id user_id) ds)) [
          | inl none_there ↦ ground arith
          | inr (d, found) ↦ ground (
            arith,
            first-update_first (has_key club_id user_id) f ds (keeps club_id user_id),
            sets d,
          )
        ])
        (λ apart. ap status_of (
          first-update_first_other (has_key club_id user_id) (has_key c u) f ds
            (has_key-apart c u club_id user_id apart) (keeps c u)))

  pub status_at-delete_first :
      KeysUnique ds
      → status_at c u (delete_first (has_key club_id user_id) ds)
        ≡ placed club_id user_id none ds c u
  status_at-delete_first unique =
      by_place c u club_id user_id
        (λ a b. status_at a b (delete_first (has_key club_id user_id) ds)) (λ a b. status_at a b ds)
        none
        (ap status_of (first-delete_first (has_key club_id user_id) ds (unique club_id user_id)))
        (λ apart. ap status_of (
          first-delete_first_other (has_key club_id user_id) (has_key c u) ds
            (has_key-apart c u club_id user_id apart)))

  pub status_at-append_one :
      (d : ClubMembership)
      → d.club_id ≡ club_id
      → d.user_id ≡ user_id
      → status_at club_id user_id ds ≡ none
      → status_at c u (ds ++ d ∷ []) ≡ placed club_id user_id (some d.status) ds c u
  status_at-append_one d ec eu absent =
      by_place c u club_id user_id (λ a b. status_at a b (ds ++ d ∷ [])) (λ a b. status_at a b ds)
        (some d.status) (ground (arith, first-append_one (has_key club_id user_id) ds d))
        (λ apart. ap status_of (first-append_one_other (has_key c u) ds d (ground arith)))
