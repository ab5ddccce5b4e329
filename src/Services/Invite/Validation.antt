-- ===== src/Services/Invite/Validation.antt =====
-- Which invite lets whom in: `validate_incoming_invite` of src/canterlot/services/invite.py, beside the
-- preview of an invite.
use Prim.Native.String.{String}
use text.Mathlib.Text.{◌==◌ as str_eq}
use canterlot_api.Base.{
  ℕ, ◌≡◌, refl, Bool, true, false, ◌&&◌, not, Option, none, some, arith, is_some, is_id, ◌==◌,
  Option-cases, inl, inr, if◌then◌else◌,
}
use canterlot_api.Mongo.{Mongo, IsMongo, plain, eq_plain, first}
use canterlot_api.Types.{InviteType, ◌is◌, invite_type_enum}
use canterlot_api.Models.{Club, Invite, Database}
use canterlot_api.Effects.{ok, Outcome}
use canterlot_api.Repositories.Memberships.{has_id}
use canterlot_api.Repositories.Clubs
use canterlot_api.Repositories.Users
use canterlot_api.Repositories.Invites.{has_invite_id}
use canterlot_api.Repositories.Invites.Live.{find_by_id_lem}
use canterlot_api.Services.Invite.{
  InviteValidationResult, is_expired, resolve_inviter_username, get_preview_metadata,
  validate_incoming_invite,
}

-- A public link is for everyone, a direct invite for the address that it names, or, where it names
-- none, for the user that it names.
abbrev pub is_for : InviteType → Option String → Option ℕ → Option String → Option ℕ → Bool
is_for InviteType.public target_email target_id email user_id = true
is_for InviteType.direct (some target) target_id (some email) user_id =
    str_eq target email && not (str_eq email "")
is_for InviteType.direct (some target) target_id none user_id = false
is_for InviteType.direct none (some target) email (some id) = is_id (some target) id
is_for InviteType.direct none _ email _ = false

abbrev pub club_of : Invite → Database → Option Club
club_of invite db = first (has_id invite.club_id) db.clubs

abbrev has_name : Option Club → Bool
has_name none = false
has_name (some club) = not (str_eq club.name "")

abbrev pub is_open : Option Invite → ℕ → Bool
is_open none now = false
is_open (some invite) now = invite.is_active && not (is_expired invite now)

abbrev pub lets_in : Option Invite → Option String → Option ℕ → Database → Bool
lets_in none email user_id db = false
lets_in (some invite) email user_id db =
    has_name (club_of invite db)
    && is_for invite.type invite.target_email invite.target_user_id email user_id

-- The user who made the invite, or else a name that the caller gives and that is registered.
abbrev pub inviter : (String → String) → Invite → Option String → Database → Option String
inviter lower invite given db = elim invite.created_by [
  | some creator ↦ elim (first (λ u. u.id == creator) db.users) [
    | none ↦ none
    | some u ↦ if str_eq u.username "" then none else some u.username
  ]
  | none ↦ elim given [
    | none ↦ none
    | some name ↦
        if not (str_eq name "") && is_some (first (λ u. str_eq u.username (lower name)) db.users)
        then some name
        else none
  ]
]

find_name_lem :
    (club_id : ℕ) (db : Database)
    → Clubs.find_club_name_by_id plain club_id db ≡ elim (first (has_id club_id) db.clubs) [
      | none ↦ (ok none, db)
      | some c ↦ (ok (some c.name), db)
    ]
unfolding Clubs.find_club_name_by_id
find_name_lem club_id db = ground arith

find_club_lem :
    (club_id : ℕ) (db : Database)
    → Clubs.find_by_id plain club_id db ≡ (ok (first (has_id club_id) db.clubs), db)
unfolding Clubs.find_by_id
find_club_lem club_id db = refl

find_username_lem :
    (user_id : ℕ) (db : Database)
    → Users.find_username_by_id plain user_id db ≡ (
      ok (elim (first (λ u. u.id == user_id) db.users) [
        | none ↦ none
        | some u ↦ if str_eq u.username "" then none else some u.username
      ]),
      db,
    )
unfolding Users.find_username_by_id
find_username_lem user_id db = refl

exists_username_lem :
    (name : String) (db : Database)
    → Users.exists_by_username plain name db
      ≡ (ok (is_some (first (λ u. str_eq u.username name) db.users)), db)
unfolding Users.exists_by_username
exists_username_lem name db = refl

resolve_inviter_lem :
    (lower : String → String) (invite : Invite) (given : Option String) (db : Database)
    → resolve_inviter_username plain lower invite given db
      ≡ (ok (inviter lower invite given db), db)
unfolding resolve_inviter_username
resolve_inviter_lem lower invite given db = elim (Option-cases invite.created_by) [
  | inr (creator, e) ↦ ground (arith, find_username_lem creator db)
  | inl e ↦ elim (Option-cases given) [
    | inl none_given ↦ ground arith
    | inr (name, g) ↦ ground (arith, exists_username_lem (lower name) db)
  ]
]

module _ (lower : String → String) (invite_id : ℕ) (email : Option String) (user_id : Option ℕ)
    (given : Option String) (now : ℕ) (db : Database) where
  abbrev invite_found : Option Invite
  invite_found = first (has_invite_id invite_id) db.invites

  -- The result says what the stored invite and its club say.
  abbrev pub Says : Option Invite → InviteValidationResult → Type 0
  Says none result = ⊥
  Says (some invite) result =
      (result.club_id ≡ invite.club_id)
      × (result.is_direct ≡ (invite.type is InviteType.direct))
      × (result.invited_by ≡ inviter lower invite given db)
      × ((club : Club) → club_of invite db ≡ some club → result.club_name ≡ club.name)

  validate_plain :
      Outcome
        (is_open invite_found now && lets_in invite_found email user_id db)
        (λ result db'. Says invite_found result × (db' ≡ db))
        db
        (validate_incoming_invite plain lower invite_id email user_id given now db)
  unfolding validate_incoming_invite
  validate_plain = elim (Option-cases invite_found) [
    | inl absent ↦ ground (arith, find_by_id_lem invite_id db)
    | inr (invite, found) ↦ ground (
      arith,
      find_by_id_lem invite_id db,
      find_name_lem invite.club_id db,
      resolve_inviter_lem lower invite given db,
    )
  ]

  preview_plain :
      Outcome
        (is_open invite_found now
          && (elim invite_found [ none ↦ false | some invite ↦ is_some (club_of invite db) ]))
        (λ preview db'.
          (db' ≡ db)
          × ((invite : Invite) (club : Club)
              → invite_found ≡ some invite
              → club_of invite db ≡ some club
              → preview ≡ record {
                club_slug = club.slug;
                club_name = club.name;
                join_policy = club.join_policy;
                invite_type = invite.type;
                invited_by_username = inviter lower invite given db;
              }))
        db
        (get_preview_metadata plain lower invite_id given now db)
  unfolding get_preview_metadata
  preview_plain = elim (Option-cases invite_found) [
    | inl absent ↦ ground (arith, find_by_id_lem invite_id db)
    | inr (invite, found) ↦ ground (
      arith,
      find_by_id_lem invite_id db,
      find_club_lem invite.club_id db,
      resolve_inviter_lem lower invite given db,
    )
  ]

-- `validate_incoming_invite` returns exactly when the invite is stored, active and not expired, its
-- club is stored under a name, and the invite is for the caller: a public link is for everyone, a
-- direct one for the address, or else the user, that it names. It then returns the club, the club's
-- name, whether the invite is direct, and the inviter. It never changes the database.
pub validate_incoming_invite-Outcome :
    (m : Mongo) (laws : IsMongo m) (lower : String → String) (invite_id : ℕ) (email : Option String)
    (user_id : Option ℕ) (given : Option String) (now : ℕ) (db : Database)
    → Outcome
        (is_open (first (has_invite_id invite_id) db.invites) now
          && lets_in (first (has_invite_id invite_id) db.invites) email user_id db)
        (λ result db'.
          Says lower invite_id email user_id given now db
            (first (has_invite_id invite_id) db.invites)
            result
          × (db' ≡ db))
        db
        (validate_incoming_invite m lower invite_id email user_id given now db)
validate_incoming_invite-Outcome m laws lower invite_id email user_id given now db =
    rw (eq_plain m laws) (validate_plain lower invite_id email user_id given now db)

-- `get_preview_metadata` returns exactly when the invite is stored, active and not expired and its
-- club is stored. It then shows the club and the inviter as they are stored. It never changes the
-- database.
pub get_preview_metadata-Outcome :
    (m : Mongo) (laws : IsMongo m) (lower : String → String) (invite_id : ℕ) (given : Option String)
    (now : ℕ) (db : Database)
    → Outcome
        (is_open (first (has_invite_id invite_id) db.invites) now
          && (elim (first (has_invite_id invite_id) db.invites) [
            | none ↦ false
            | some invite ↦ is_some (club_of invite db)
          ]))
        (λ preview db'.
          (db' ≡ db)
          × ((invite : Invite) (club : Club)
              → first (has_invite_id invite_id) db.invites ≡ some invite
              → club_of invite db ≡ some club
              → preview ≡ record {
                club_slug = club.slug;
                club_name = club.name;
                join_policy = club.join_policy;
                invite_type = invite.type;
                invited_by_username = inviter lower invite given db;
              }))
        db
        (get_preview_metadata m lower invite_id given now db)
get_preview_metadata-Outcome m laws lower invite_id given now db =
    rw (eq_plain m laws) (preview_plain lower invite_id none none given now db)
