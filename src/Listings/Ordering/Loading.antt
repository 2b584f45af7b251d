-- ===== src/Listings/Ordering/Loading.antt =====
-- The listings of a provider as rows of the table (src/listings/listing-ordering.service.ts).
use renyqo_app.Prelude.{
  ℕ, zero, suc, ◌-◌, ◌≤◌, ◌≡◌, ◌≢◌, refl, sym, ap, ◌∙◌, subst, Bool, true, ◌&&◌, ◌||◌, some, [],
  ◌∷◌, ◌++◌, ◌==◌, leb, arith, any, find, filter, take, drop, All, Bool-cases, inl, inr,
  take-append-drop,
}
use renyqo_app.Prelude.Sort.{All-map, All-order_by, All-Has, any-order_by, any-filter}
use renyqo_app.Listings.Ordering.{
  OrderedListing, Rows, shows_before, load_provider_listings, highest, ids_of, orders_of, moved_to,
  without_id,
}
use renyqo_app.Listings.Ordering.Positions.{IsPresent, Covers}

-- The primary key.
abbrev pub HasUniqueIds : Rows → Type 0
HasUniqueIds [] = Unit
HasUniqueIds (o ∷ rows) = All (λ b. o.id ≢ b.id) rows × HasUniqueIds rows

module _ (P : OrderedListing → Type 0) where
  All-append : (xs ys : Rows) → All P xs → All P ys → All P (xs ++ ys)
  All-append [] ys h k = k
  All-append (x ∷ xs) ys (h, hs) k = (h, All-append xs ys hs k)

  pub All-take : (n : ℕ) (xs : Rows) → All P xs → All P (take n xs)
  All-take zero xs h = tt
  All-take (suc n) [] h = tt
  All-take (suc n) (x ∷ xs) (h, hs) = (h, All-take n xs hs)

  All-drop : (n : ℕ) (xs : Rows) → All P xs → All P (drop n xs)
  All-drop zero xs h = h
  All-drop (suc n) [] h = tt
  All-drop (suc n) (x ∷ xs) (h, hs) = All-drop n xs hs

  pub All-find :
      (p : OrderedListing → Bool) (xs : Rows) (l : OrderedListing)
      → All P xs
      → find p xs ≡ some l
      → P l
  All-find p [] l h e = cc
  All-find p (x ∷ xs) l (h, hs) e = elim (Bool-cases (p x)) [
    | inl here ↦ subst P (ground (arith, rw here at e)) h
    | inr there ↦ All-find p xs l hs (rw there at e)
  ]

  pub All-without_id : (id : ℕ) (xs : Rows) → All P xs → All P (without_id id xs)
  All-without_id id [] h = tt
  All-without_id id (x ∷ xs) (h, hs) = elim (Bool-cases (x.id == id)) [
    | inl here ↦ rw here hs
    | inr there ↦ rw there (h, All-without_id id xs hs)
  ]

  pub All-moved_to :
      (position : ℕ) (l : OrderedListing) (others : Rows)
      → P l
      → All P others
      → All P (moved_to position l others)
  All-moved_to position l others h hs =
      All-append (take (position - 1) others) (l ∷ drop (position - 1) others)
        (All-take (position - 1) others hs) (h, All-drop (position - 1) others hs)

any-append : (q : OrderedListing → Bool) (xs ys : Rows) → any q (xs ++ ys) ≡ (any q xs || any q ys)
any-append q [] ys = refl
any-append q (x ∷ xs) ys = ground (arith, any-append q xs ys)

or-swap : (a b c : Bool) → (a || (b || c)) ≡ (b || (a || c))
or-swap a b c = ground arith

pub any-moved_to :
    (q : OrderedListing → Bool) (position : ℕ) (l : OrderedListing) (others : Rows)
    → any q (moved_to position l others) ≡ (q l || any q others)
any-moved_to q position l others =
    let n = position - 1 in
    any-append q (take n others) (l ∷ drop n others)
    ∙ or-swap (any q (take n others)) (q l) (any q (drop n others))
    ∙ ap (λ b. q l || b)
        (sym (any-append q (take n others) (drop n others))
          ∙ ap (any q) (take-append-drop n others))

pub any-without_id :
    (q : OrderedListing → Bool) (id : ℕ) (xs : Rows) (l : OrderedListing)
    → find (λ o. o.id == id) xs ≡ some l
    → (q l || any q (without_id id xs)) ≡ any q xs
any-without_id q id [] l h = cc
any-without_id q id (x ∷ xs) l h = elim (Bool-cases (x.id == id)) [
  | inl here ↦ rw here (ap (λ o. q o || any q xs) (sym (ground (arith, rw here at h))))
  | inr there ↦ rw there (
      or-swap (q l) (q x) (any q (without_id id xs))
      ∙ ap (λ b. q x || b) (any-without_id q id xs l (rw there at h)))
]

any-ids_of : (q : ℕ → Bool) (xs : Rows) → any q (ids_of xs) ≡ any (λ l. q l.id) xs
any-ids_of q [] = refl
any-ids_of q (x ∷ xs) = ap (λ b. q x.id || b) (any-ids_of q xs)

any-load :
    (q : OrderedListing → Bool) (p : ℕ) (rows : Rows)
    → any q (load_provider_listings p rows) ≡ any (λ l. l.provider_id == p && q l) rows
unfolding load_provider_listings
any-load q p rows =
    any-order_by shows_before q (filter (λ l. l.provider_id == p) rows)
    ∙ any-filter (λ l. l.provider_id == p) q rows

highest-above :
    (k : ℕ) (ls : Rows) → any (λ l. leb k l.display_order) ls ≡ true → k ≤ highest (orders_of ls)
highest-above k [] h = cc
highest-above k (l ∷ ls) h = ground (arith, highest-above k ls)

-- A row of the table is found under its id, and is the provider's.
pub record IsOwn (p : ℕ) (rows : Rows) (l : OrderedListing) : Type 0 where
  pub found : find (λ o. o.id == l.id) rows ≡ some l
  pub owned : l.provider_id ≡ p

found_tail :
    (a : OrderedListing) (rows xs : Rows)
    → All (λ b. a.id ≢ b.id) xs
    → All (λ l. find (λ o. o.id == l.id) rows ≡ some l) xs
    → All (λ l. find (λ o. o.id == l.id) (a ∷ rows) ≡ some l) xs
found_tail a rows [] n h = tt
found_tail a rows (x ∷ xs) (n, ns) (h, hs) = (ground (arith, h), found_tail a rows xs ns hs)

pub all_found :
    (rows : Rows) → HasUniqueIds rows → All (λ l. find (λ o. o.id == l.id) rows ≡ some l) rows
all_found [] u = tt
all_found (a ∷ rows) (n, u) = (ground arith, found_tail a rows rows n (all_found rows u))

owned_only :
    (p : ℕ) (rows xs : Rows)
    → All (λ l. find (λ o. o.id == l.id) rows ≡ some l) xs
    → All (IsOwn p rows) (filter (λ l. l.provider_id == p) xs)
owned_only p rows [] h = tt
owned_only p rows (x ∷ xs) (h, hs) = elim (Bool-cases (x.provider_id == p)) [
  | inl own ↦ rw own (record { found = h; owned = ground arith }, owned_only p rows xs hs)
  | inr other ↦ rw other (owned_only p rows xs hs)
]

pub All-IsOwn :
    (p : ℕ) (rows : Rows) → HasUniqueIds rows → All (IsOwn p rows) (load_provider_listings p rows)
unfolding load_provider_listings
All-IsOwn p rows u =
    All-order_by shows_before (IsOwn p rows) (filter (λ l. l.provider_id == p) rows)
      (owned_only p rows rows (all_found rows u))

pub ids-IsPresent :
    (p : ℕ) (rows xs : Rows) → All (IsOwn p rows) xs → All (IsPresent p rows) (ids_of xs)
ids-IsPresent p rows [] h = tt
ids-IsPresent p rows (x ∷ xs) (h, hs) =
    (record { row = x; found = h.found; owned = h.owned }, ids-IsPresent p rows xs hs)

-- An order of the provider's listings has the same listings, as any test sees them.
abbrev pub Same : Rows → Rows → Type 0
Same xs ys = (q : OrderedListing → Bool) → any q xs ≡ any q ys

pub ids-Covers :
    (p : ℕ) (rows xs : Rows) → Same xs (load_provider_listings p rows) → Covers p (ids_of xs) rows
ids-Covers p rows xs same =
    All-map
      (λ o has own.
        any-ids_of (λ k. k == o.id) xs
        ∙ same (λ l. l.id == o.id)
        ∙ any-load (λ l. l.id == o.id) p rows
        ∙ has _ (ground (arith, own)))
      rows (All-Has rows)

pub all_below :
    (p : ℕ) (rows : Rows)
    → All
        (λ o.
          o.provider_id ≡ p → o.display_order ≤ highest (orders_of (load_provider_listings p rows)))
        rows
all_below p rows =
    All-map
      (λ o has own.
        highest-above o.display_order (load_provider_listings p rows) (
          any-load (λ l. leb o.display_order l.display_order) p rows ∙ has _ (ground (arith, own))))
      rows (All-Has rows)

pub find_id :
    (id : ℕ) (xs : Rows) (l : OrderedListing) → find (λ o. o.id == id) xs ≡ some l → l.id ≡ id
find_id id [] l h = cc
find_id id (x ∷ xs) l h = elim (Bool-cases (x.id == id)) [
  | inl here ↦ ground (arith, rw here at h)
  | inr there ↦ find_id id xs l (rw there at h)
]
