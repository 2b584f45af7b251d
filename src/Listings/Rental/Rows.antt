-- ===== src/Listings/Rental/Rows.antt =====
-- The rows of applications and listings behind `rentListing` of src/listings/listings.service.ts.
use renyqo_app.Prelude.{
  ℕ, ◌≡◌, refl, sym, ◌∙◌, ap, subst, inl, inr, Bool, true, false, not, ◌&&◌, ◌||◌, Option, none,
  some, List, [], ◌∷◌, ◌==◌, any, filter, All, arith, if◌then◌else◌, Bool-cases, Option-cases,
}
use renyqo_app.Prelude.Sort.{All-map, All-Has, any-filter}
use renyqo_app.Domain.{Listing, Application, rented, is_active, is_waiting}
use renyqo_app.Applications.Store.{Store, update_where, find_application, find-update_where}
use renyqo_app.Listings.Status.{find_one_by_provider}
use renyqo_app.Listings.Rental.{
  is_left_out, left_out_row, append_each, accepted_row, mark_rented, is_valid_choice,
}

-- an application of the listing that is not decided
abbrev pub is_undecided : ℕ → Application → Bool
is_undecided listing_id a =
    a.listing_id == listing_id && (is_active a.status || is_waiting a.status)

abbrev pub rented_row : ℕ → Listing → Listing
rented_row now l = record l { status = rented; rented_at = some now }

append_each-tables :
    (rows : List Application) (provider_id : ℕ) (s : Store)
    → ((append_each rows provider_id s).applications ≡ s.applications)
      × ((append_each rows provider_id s).listings ≡ s.listings)
append_each-tables [] provider_id s = (refl, refl)
append_each-tables (a ∷ rows) provider_id s = append_each-tables rows provider_id _

-- the test of the applications that are rejected
abbrev is_rejected_row : ℕ → ℕ → List Application → Application → Bool
is_rejected_row id selected rows a = any (λ r. r.id == a.id) (filter (is_left_out id selected) rows)

-- the applications behind the writes
abbrev pub settled_rows : ℕ → ℕ → ℕ → List Application → List Application
settled_rows id selected now rows =
    update_where (λ a. a.id == selected) accepted_row
      (update_where (is_rejected_row id selected rows) (left_out_row now) rows)

pub mark_rented-tables :
    (id provider_id selected : ℕ) (s : Store)
    → ((mark_rented id provider_id selected s).applications
        ≡ settled_rows id selected s.now s.applications)
      × ((mark_rented id provider_id selected s).listings
          ≡ update_where (λ l. l.id == id) (rented_row s.now) s.listings)
unfolding mark_rented
mark_rented-tables id provider_id selected s =
    let rows = filter (is_left_out id selected) s.applications in
    let rejected : Store = record s {
      applications =
          update_where (is_rejected_row id selected s.applications) (left_out_row s.now)
            s.applications;
    } in
    let (a, l) = append_each-tables rows provider_id rejected in
    (
      ap (update_where (λ x. x.id == selected) accepted_row) a,
      ap (update_where (λ x. x.id == id) (rented_row s.now)) l,
    )

module _ {A : Type 0} (p q q' : A → Bool) (f f' : A → A) where
  abbrev updated : A → A
  updated x = if q x then f x else x

  -- No row passes a test that each fails after both updates.
  filter-updates :
      (xs : List A)
      → All (λ x. p (if q' (updated x) then f' (updated x) else updated x) ≡ false) xs
      → filter p (update_where q' f' (update_where q f xs)) ≡ []
  unfolding update_where
  filter-updates [] h = refl
  filter-updates (x ∷ xs) (h, hs) = rw h (filter-updates xs hs)

-- an application after both updates of the applications
abbrev settled : ℕ → ℕ → Bool → Application → Application
settled selected now hit a =
    let b = if hit then left_out_row now a else a in if b.id == selected then accepted_row b else b

settled_lem :
    (id selected now : ℕ) (hit : Bool) (a : Application)
    → (is_left_out id selected a ≡ true → hit ≡ true)
    → is_undecided id (settled selected now hit a) ≡ false
unfolding is_left_out
settled_lem id selected now true a h = ground arith
settled_lem id selected now false a h = elim (Bool-cases (is_left_out id selected a)) [
  | inl left ↦ let bad : false ≡ true = h left in cc
  | inr other ↦ ground (arith, other)
]

pub filter-settled_rows :
    (id selected now : ℕ) (rows : List Application)
    → filter (is_undecided id) (settled_rows id selected now rows) ≡ []
filter-settled_rows id selected now rows =
    filter-updates (is_undecided id) (is_rejected_row id selected rows) (λ a. a.id == selected)
      (left_out_row now) accepted_row rows
      (All-map
        (λ a has. settled_lem id selected now (is_rejected_row id selected rows a) a (λ left.
          any-filter (is_left_out id selected) (λ r. r.id == a.id) rows
          ∙ has _ (ground (arith, left))))
        rows (All-Has rows))

pub unguarded : (b : Bool) → not b ≡ false → b ≡ true
unguarded true h = refl
unguarded false h = cc

abbrev option_map : {A B : Type 0} → (A → B) → Option A → Option B
option_map f none = none
option_map f (some x) = some (f x)

pub choice-is_valid :
    (id selected : ℕ) (rows : List Application)
    → is_valid_choice id (find_application selected rows) ≡ true
    → (a : Application) × (find_application selected rows ≡ some a)
      × (a.listing_id ≡ id)
      × (is_active a.status ≡ true)
choice-is_valid id selected rows h = elim (Option-cases (find_application selected rows)) [
  | inl missing ↦ let bad : ⊥ = ground (arith, (rw missing at h)) in elim bad [ ]
  | inr (a, found) ↦
      let valid : (a.listing_id == id && is_active a.status) ≡ true = rw found at h in
      (a, found, ground (arith, valid), ground (arith, valid))
]

find_application-test :
    (selected : ℕ) (rows : List Application) (a : Application)
    → find_application selected rows ≡ some a
    → (a.id == selected) ≡ true
unfolding find_application
find_application-test selected [] a h = cc
find_application-test selected (x ∷ rows) a h = elim (Bool-cases (x.id == selected)) [
  | inl hit ↦ ground (arith, hit, (rw hit at h))
  | inr miss ↦ find_application-test selected rows a (rw miss at h)
]

any-left_out :
    (id selected : ℕ) (xs : List Application)
    → any (λ r. is_left_out id selected r && r.id == selected) xs ≡ false
unfolding is_left_out
any-left_out id selected [] = refl
any-left_out id selected (x ∷ xs) = ground (arith, any-left_out id selected xs)

selected-stays :
    (id selected : ℕ) (rows : List Application) (a : Application)
    → (a.id == selected) ≡ true
    → is_rejected_row id selected rows a ≡ false
selected-stays id selected rows a own =
    let same : a.id ≡ selected = ground (arith, own) in
    any-filter (is_left_out id selected) (λ r. r.id == a.id) rows
    ∙ subst (λ (n : ℕ). any (λ r. is_left_out id selected r && r.id == n) rows ≡ false) (sym same)
        (any-left_out id selected rows)

pub find_application-settled_rows :
    (id selected now : ℕ) (rows : List Application) (a : Application)
    → find_application selected rows ≡ some a
    → find_application selected (settled_rows id selected now rows) ≡ some (accepted_row a)
unfolding find_application
find_application-settled_rows id selected now rows a found =
    let own = find_application-test selected rows a found in
    let stays = selected-stays id selected rows a own in
    let first =
      find-update_where (λ x. x.id == selected) (is_rejected_row id selected rows)
        (left_out_row now) rows a (λ y. refl) found in
    let kept = first ∙ (rw stays refl) in
    find-update_where (λ x. x.id == selected) (λ x. x.id == selected) accepted_row
      (update_where (is_rejected_row id selected rows) (left_out_row now) rows) a (λ y. refl) kept
    ∙ (rw own refl)

pub find_one_by_provider-rented :
    (id provider_id now : ℕ) (rows : List Listing) (l : Listing)
    → find_one_by_provider id provider_id rows ≡ some l
    → (l.id ≡ id)
      × (find_one_by_provider id provider_id (update_where (λ x. x.id == id) (rented_row now) rows)
          ≡ some (rented_row now l))
unfolding find_one_by_provider update_where
find_one_by_provider-rented id provider_id now [] l h = cc
find_one_by_provider-rented id provider_id now (x ∷ rows) l h =
    elim (Bool-cases (x.id == id && x.provider_id == provider_id)) [
      | inl hit ↦
          let same : some x ≡ some l = rw hit at h in
          let own : (x.id == id) ≡ true = ground (arith, hit) in
          (
            ground (arith, own, same),
            (rw own (rw hit refl)) ∙ ap (option_map (rented_row now)) same,
          )
      | inr miss ↦
          let (own, found) = find_one_by_provider-rented id provider_id now rows l (rw miss at h) in
          (
            own,
            elim (Bool-cases (x.id == id)) [
              | inl hit ↦ rw hit (rw miss found)
              | inr other ↦ rw other (rw miss found)
            ],
          )
    ]
