-- ===== src/Listings/Status/Machine.antt =====
-- The status of a listing (src/listings/listings.service.ts) as a state machine: its steps, and what
-- a handler that returned has made of the rows.
use renyqo_app.Prelude.{
  ℕ, ◌≡◌, refl, subst, ◌⊎◌, inl, inr, Bool, true, false, not, none, some, List, [], ◌∷◌, ◌==◌, any,
  filter, length, arith, Bool-cases, Option-cases,
}
use renyqo_app.Domain.{ListingStatus, draft, published, paused, archived, rented, Listing}
use renyqo_app.Applications.Store.{Store, Result, Proposal, update_where}
use renyqo_app.Listings.Status.{
  is_status, ListingStatusWrite, written, is_unchanged, publish, move_to_draft, pause, resume,
  archive,
}

-- the handlers that change the status
pub data Change : Type 0 where
  publishing unpublishing pausing resuming archiving : Change

abbrev pub change :
    (Store → ℕ → Proposal → Proposal) → Change → ℕ → ℕ → Store → Store → Result Store
change legacy_resolution publishing = publish legacy_resolution
change legacy_resolution unpublishing = move_to_draft legacy_resolution
change legacy_resolution pausing = pause legacy_resolution
change legacy_resolution resuming = resume legacy_resolution
change legacy_resolution archiving = archive legacy_resolution

-- The steps of the machine; none of them leaves a listing that is archived or rented.
pub data IsStep : Change → ListingStatus → ListingStatus → Type 0 where
  draft_published : IsStep publishing draft published
  published_draft : IsStep unpublishing published draft
  paused_draft : IsStep unpublishing paused draft
  published_paused : IsStep pausing published paused
  paused_published : IsStep resuming paused published
  draft_archived : IsStep archiving draft archived
  published_archived : IsStep archiving published archived
  paused_archived : IsStep archiving paused archived

-- A row of the listing before and after a change that was read at `read_at`: the status takes a
-- step, a date of publication stays, a first one is the time of the reading, and no other column
-- changes.
pub record IsMoved (c : Change) (id provider_id read_at : ℕ) (l l' : Listing) : Type 0 where
  owned : (l.id ≡ id) × (l.provider_id ≡ provider_id)
  step : IsStep c l.status l'.status
  dated :
      (l'.published_at ≡ l.published_at)
      ⊎ ((l.published_at ≡ none) × (l'.published_at ≡ some read_at))
  rest : l' ≡ record l { status = l'.status; published_at = l'.published_at }

module _ {A : Type 0} (R : A → A → Type 0) where
  -- the rows of two tables, one by one
  abbrev pub AllPairs : List A → List A → Type 0
  AllPairs [] [] = Unit
  AllPairs (x ∷ xs) (y ∷ ys) = R x y × AllPairs xs ys
  AllPairs _ _ = ⊥

  abbrev pub AnyPair : List A → List A → Type 0
  AnyPair (x ∷ xs) (y ∷ ys) = R x y ⊎ AnyPair xs ys
  AnyPair _ _ = ⊥

-- Every row is moved or left alone, and some row is moved.
abbrev pub IsChanged : Change → ℕ → ℕ → ℕ → List Listing → List Listing → Type 0
IsChanged c id provider_id read_at rows rows' =
    AllPairs (λ l l'. (l' ≡ l) ⊎ IsMoved c id provider_id read_at l l') rows rows'
    × AnyPair (IsMoved c id provider_id read_at) rows rows'

module _ {A : Type 0} (R : A → A → Type 0) (p : A → Bool) (f : A → A) where
  pub AllPairs-update_where :
      ((x : A) → p x ≡ true → R x (f x))
      → (xs : List A) → AllPairs (λ x y. (y ≡ x) ⊎ R x y) xs (update_where p f xs)
  unfolding update_where
  AllPairs-update_where h [] = tt
  AllPairs-update_where h (x ∷ xs) = (
    elim (Bool-cases (p x)) [ inl hit ↦ rw hit (inr (h x hit)) | inr miss ↦ rw miss (inl refl) ],
    AllPairs-update_where h xs,
  )

  pub AnyPair-update_where :
      ((x : A) → p x ≡ true → R x (f x))
      → (xs : List A) → not (length (filter p xs) == 1) ≡ false
      → AnyPair R xs (update_where p f xs)
  unfolding update_where
  AnyPair-update_where h [] one = let bad : ⊥ = ground (arith, one) in bad
  AnyPair-update_where h (x ∷ xs) one = elim (Bool-cases (p x)) [
    | inl hit ↦ rw hit (inl (h x hit))
    | inr miss ↦ inr (AnyPair-update_where h xs (rw miss at one))
  ]

pub is_status-eq : (a b : ListingStatus) → is_status a b ≡ true → a ≡ b
is_status-eq draft b h = ground (arith, h)
is_status-eq published b h = ground (arith, h)
is_status-eq paused b h = ground (arith, h)
is_status-eq archived b h = ground (arith, h)
is_status-eq rented b h = ground (arith, h)

-- the row that a commit writes
pub row-IsMoved :
    (c : Change) (listing : Listing) (id provider_id read_at : ℕ) (data_ : ListingStatusWrite)
    → listing.id ≡ id
    → IsStep c listing.status data_.status
    → (data_.published_at ≡ none) ⊎ (data_.published_at ≡ some read_at)
    → (l : Listing) → is_unchanged listing provider_id data_ l ≡ true
    → IsMoved c id provider_id read_at l (written data_ l)
unfolding is_unchanged
row-IsMoved c listing id provider_id read_at data_ same step date l hit = record {
  owned = (ground (arith, same, hit), ground (arith, hit));
  step =
      subst (λ a. IsStep c a data_.status)
        (is_status-eq listing.status l.status (ground (arith, hit))) step;
  dated = elim date [
    | inl kept ↦ inl (rw kept refl)
    | inr given ↦ elim (Option-cases l.published_at) [
      | inl new ↦ inr (new, rw given refl)
      | inr (at, old) ↦ let bad : ⊥ = ground (arith, (rw (given, old) at hit)) in elim bad [ ]
    ]
  ];
  rest = refl;
}

pub may_publish :
    (a : ListingStatus) → any (is_status a) (draft ∷ []) ≡ true → IsStep publishing a published
may_publish draft h = draft_published
may_publish published h = let bad : ⊥ = ground (arith, h) in elim bad [ ]
may_publish paused h = let bad : ⊥ = ground (arith, h) in elim bad [ ]
may_publish archived h = let bad : ⊥ = ground (arith, h) in elim bad [ ]
may_publish rented h = let bad : ⊥ = ground (arith, h) in elim bad [ ]

pub may_unpublish :
    (a : ListingStatus)
    → any (is_status a) (published ∷ paused ∷ []) ≡ true
    → IsStep unpublishing a draft
may_unpublish draft h = let bad : ⊥ = ground (arith, h) in elim bad [ ]
may_unpublish published h = published_draft
may_unpublish paused h = paused_draft
may_unpublish archived h = let bad : ⊥ = ground (arith, h) in elim bad [ ]
may_unpublish rented h = let bad : ⊥ = ground (arith, h) in elim bad [ ]

pub may_pause :
    (a : ListingStatus) → any (is_status a) (published ∷ []) ≡ true → IsStep pausing a paused
may_pause draft h = let bad : ⊥ = ground (arith, h) in elim bad [ ]
may_pause published h = published_paused
may_pause paused h = let bad : ⊥ = ground (arith, h) in elim bad [ ]
may_pause archived h = let bad : ⊥ = ground (arith, h) in elim bad [ ]
may_pause rented h = let bad : ⊥ = ground (arith, h) in elim bad [ ]

pub may_resume :
    (a : ListingStatus) → any (is_status a) (paused ∷ []) ≡ true → IsStep resuming a published
may_resume draft h = let bad : ⊥ = ground (arith, h) in elim bad [ ]
may_resume published h = let bad : ⊥ = ground (arith, h) in elim bad [ ]
may_resume paused h = paused_published
may_resume archived h = let bad : ⊥ = ground (arith, h) in elim bad [ ]
may_resume rented h = let bad : ⊥ = ground (arith, h) in elim bad [ ]

pub may_archive :
    (a : ListingStatus)
    → any (is_status a) (draft ∷ published ∷ paused ∷ []) ≡ true
    → IsStep archiving a archived
may_archive draft h = draft_archived
may_archive published h = published_archived
may_archive paused h = paused_archived
may_archive archived h = let bad : ⊥ = ground (arith, h) in elim bad [ ]
may_archive rented h = let bad : ⊥ = ground (arith, h) in elim bad [ ]
