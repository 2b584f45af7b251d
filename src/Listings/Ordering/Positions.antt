-- ===== src/Listings/Ordering/Positions.antt =====
-- The two passes of `persistVisibleOrder` (src/listings/listing-ordering.service.ts): first to positions
-- above all that are in use, then to the final ones.
use renyqo_app.Prelude.{
  ℕ, suc, ◌+◌, ◌≤◌, ◌<◌, ◌≡◌, refl, sym, ap, ◌∙◌, subst, true, false, some, List, [], ◌∷◌, map,
  ◌==◌, arith, if◌then◌else◌, any, find, length, All, ◌⊎◌, inl, inr, Bool-cases,
}
use renyqo_app.Prelude.Sort.{All-map}
use renyqo_app.Listings.Ordering.{
  OrderedListing, Rows, ok, is_taken, placed, update_position, write_position, place_from, highest,
  persist_visible_order,
}

-- The row after each of the ids in turn got its position, from `base + 1` on.
unfoldable pub row_at : ℕ → List ℕ → OrderedListing → OrderedListing
row_at base [] o = o
row_at base (id ∷ ids) o = row_at (suc base) ids (if o.id == id then placed (base + 1) o else o)

-- The rows with the listings of `ids` at the positions from `base + 1` on, and all others untouched.
abbrev pub arrange : ℕ → List ℕ → Rows → Rows
arrange base ids rows = map (row_at base ids) rows

-- The id is that of a listing of this provider.
pub record IsPresent (provider_id : ℕ) (rows : Rows) (id : ℕ) : Type 0 where
  pub row : OrderedListing
  pub found : find (λ l. l.id == id) rows ≡ some row
  pub owned : row.provider_id ≡ provider_id

-- The listings of the provider leave the positions above `low` up to `high` free.
abbrev pub IsFree : ℕ → ℕ → ℕ → OrderedListing → Type 0
IsFree provider_id low high o =
    o.provider_id ≡ provider_id → (o.display_order ≤ low) ⊎ (high < o.display_order)

not_taken :
    (l : OrderedListing) (low high position : ℕ) (rows : Rows)
    → low < position
    → position ≤ high
    → All (IsFree l.provider_id low high) rows
    → is_taken l position rows ≡ false
unfolding is_taken
not_taken l low high position [] p q h = refl
not_taken l low high position (o ∷ rows) p q (h, hs) =
    ground (arith, h, not_taken l low high position rows p q hs)

abbrev place_one : ℕ → ℕ → OrderedListing → OrderedListing
place_one id position o = if o.id == id then placed position o else o

find-place_one :
    (id position key : ℕ) (rows : Rows) (l : OrderedListing)
    → find (λ l. l.id == key) rows ≡ some l
    → (l' : OrderedListing) × (find (λ l. l.id == key) (map (place_one id position) rows) ≡ some l')
      × (l'.provider_id ≡ l.provider_id)
find-place_one id position key [] l h = cc
find-place_one id position key (o ∷ rows) l h = elim (Bool-cases (o.id == key)) [
  | inl here ↦ (place_one id position o, ground arith, ground arith)
  | inr there ↦
      let (l', found, owned) = find-place_one id position key rows l (rw there at h) in
      (l', ground (arith, found), owned)
]

keeps_IsPresent :
    (p id position : ℕ) (rows : Rows) (ids : List ℕ)
    → All (IsPresent p rows) ids
    → All (IsPresent p (map (place_one id position) rows)) ids
keeps_IsPresent p id position rows ids h =
    All-map
      (λ key q.
        let (l', found, owned) = find-place_one id position key rows q.row q.found in
        record { row = l'; found = found; owned = owned ∙ q.owned })
      ids h

keeps_IsFree :
    (p low high id : ℕ) (rows : Rows)
    → All (IsFree p low high) rows
    → All (IsFree p (suc low) high) (map (place_one id (low + 1)) rows)
keeps_IsFree p low high id [] h = tt
keeps_IsFree p low high id (o ∷ rows) (h, hs) =
    (ground (arith, h), keeps_IsFree p low high id rows hs)

map-map :
    (f g : OrderedListing → OrderedListing) (rows : Rows)
    → map g (map f rows) ≡ map (λ o. g (f o)) rows
map-map f g [] = refl
map-map f g (o ∷ rows) = ap (λ t. g (f o) ∷ t) (map-map f g rows)

update_position_ok :
    (p id position : ℕ) (rows : Rows) (here : IsPresent p rows id)
    → is_taken here.row position rows ≡ false
    → update_position id position rows ≡ ok (map (place_one id position) rows)
unfolding update_position write_position
update_position_ok p id position rows here free = rw (here.found, free) refl

-- Where the positions from `start + index + 1` on are free, a pass writes them all.
place_from_ok :
    (p start index : ℕ) (ids : List ℕ) (rows : Rows)
    → All (IsPresent p rows) ids
    → All (IsFree p (start + index) (start + index + length ids)) rows
    → place_from start index ids rows ≡ ok (arrange (start + index) ids rows)
unfolding place_from row_at
place_from_ok p start index [] rows present free = ap ok (sym (map-id rows))
  where
    map-id : (rows : Rows) → map (λ o. o) rows ≡ rows
    map-id [] = refl
    map-id (o ∷ rows) = ap (λ t. o ∷ t) (map-id rows)
place_from_ok p start index (id ∷ ids) rows (here, present) free =
    let base = start + index in
    let rows' = map (place_one id (base + 1)) rows in
    let open_place : is_taken here.row (base + 1) rows ≡ false =
      not_taken here.row base (base + length (id ∷ ids)) (base + 1) rows (omega arith) (omega arith)
        (rw here.owned free) in
    let shift : suc base ≡ start + suc index = omega arith in
    let end : base + length (id ∷ ids) ≡ start + suc index + length ids = omega arith in
    let later : All (IsFree p (start + suc index) (start + suc index + length ids)) rows' =
      subst (λ n. All (IsFree p (start + suc index) n) rows') end
        (subst (λ n. All (IsFree p n (base + length (id ∷ ids))) rows') shift
          (keeps_IsFree p base (base + length (id ∷ ids)) id rows free)) in
    rw (update_position_ok p id (base + 1) rows here open_place) (
      place_from_ok p start (suc index) ids rows' (keeps_IsPresent p id (base + 1) rows ids present)
        later
      ∙ ap (λ n. ok (arrange n ids rows')) (sym shift)
      ∙ ap ok (map-map (place_one id (base + 1)) (row_at (suc base) ids) rows))

abbrev pub Holds : List ℕ → ℕ → Type 0
Holds ids id = any (λ key. key == id) ids ≡ true

-- A row that a pass places comes to stand above where the pass begins.
row_at-above :
    (low base : ℕ) (ids : List ℕ) (o : OrderedListing)
    → low ≤ base
    → (low < o.display_order) ⊎ Holds ids o.id
    → low < (row_at base ids o).display_order
unfolding row_at
row_at-above low base [] o q (inl h) = h
row_at-above low base [] o q (inr h) = cc
row_at-above low base (id ∷ ids) o q h = elim (Bool-cases (o.id == id)) [
  | inl same ↦
      rw (same, row_at)
        (row_at-above low (suc base) ids (placed (base + 1) o) (omega arith) (inl (omega arith)))
  | inr other ↦ rw (other, row_at) (row_at-above low (suc base) ids o (omega arith) (ground arith))
]

-- A pass leaves a row's id and provider.
pub row_at-id : (base : ℕ) (ids : List ℕ) (o : OrderedListing) → (row_at base ids o).id ≡ o.id
unfolding row_at
row_at-id base [] o = refl
row_at-id base (id ∷ ids) o = row_at-id (suc base) ids (place_one id (base + 1) o) ∙ ground arith

row_at-provider :
    (base : ℕ) (ids : List ℕ) (o : OrderedListing) → (row_at base ids o).provider_id ≡ o.provider_id
unfolding row_at
row_at-provider base [] o = refl
row_at-provider base (id ∷ ids) o =
    row_at-provider (suc base) ids (place_one id (base + 1) o) ∙ ground arith

as_placed :
    (a b : OrderedListing)
    → a.id ≡ b.id
    → a.provider_id ≡ b.provider_id
    → a ≡ placed a.display_order b
as_placed a b h k = rw (sym h, sym k) refl

row_at-as_placed :
    (base : ℕ) (ids : List ℕ) (o : OrderedListing)
    → row_at base ids o ≡ placed (row_at base ids o).display_order o
row_at-as_placed base ids o =
    as_placed (row_at base ids o) o (row_at-id base ids o) (row_at-provider base ids o)

-- A pass over a row's id forgets where the row stood.
row_at-placed :
    (base : ℕ) (ids : List ℕ) (o : OrderedListing) (position : ℕ)
    → Holds ids o.id
    → row_at base ids (placed position o) ≡ row_at base ids o
unfolding row_at
row_at-placed base [] o position h = cc
row_at-placed base (id ∷ ids) o position h = elim (Bool-cases (o.id == id)) [
  | inl same ↦ rw same refl
  | inr other ↦ rw other (row_at-placed (suc base) ids o position (ground arith))
]

row_at-absent :
    (base : ℕ) (ids : List ℕ) (o : OrderedListing)
    → any (λ key. key == o.id) ids ≡ false
    → row_at base ids o ≡ o
unfolding row_at
row_at-absent base [] o h = refl
row_at-absent base (id ∷ ids) o h =
    let other : (o.id == id) ≡ false = ground arith in
    rw other (row_at-absent (suc base) ids o (ground arith))

row_at-twice :
    (base start : ℕ) (ids : List ℕ) (o : OrderedListing)
    → row_at base ids (row_at start ids o) ≡ row_at base ids o
row_at-twice base start ids o = elim (Bool-cases (any (λ key. key == o.id) ids)) [
  | inl here ↦
      ap (row_at base ids) (row_at-as_placed start ids o)
      ∙ row_at-placed base ids o (row_at start ids o).display_order here
  | inr gone ↦ ap (row_at base ids) (row_at-absent start ids o gone)
]

-- Every listing of the provider is among the ids.
abbrev pub Covers : ℕ → List ℕ → Rows → Type 0
Covers p ids rows = All (λ o. o.provider_id ≡ p → Holds ids o.id) rows

IsFree-above :
    (p start : ℕ) (ids : List ℕ) (rows : Rows)
    → length ids ≤ start
    → Covers p ids rows
    → All (IsFree p 0 (length ids)) (arrange start ids rows)
IsFree-above p start ids [] q h = tt
IsFree-above p start ids (o ∷ rows) q (h, hs) = (
  (λ owned. inr (
      row_at-above (length ids) start ids o q
        (inr (h (sym (row_at-provider start ids o) ∙ owned))))),
  IsFree-above p start ids rows q hs,
)

pub find-arrange :
    (base : ℕ) (ids : List ℕ) (key : ℕ) (rows : Rows) (l : OrderedListing)
    → find (λ l. l.id == key) rows ≡ some l
    → find (λ l. l.id == key) (arrange base ids rows) ≡ some (row_at base ids l)
find-arrange base ids key [] l h = cc
find-arrange base ids key (o ∷ rows) l h =
    ground (arith, row_at-id base ids o, find-arrange base ids key rows l)

IsPresent-arrange :
    (p base : ℕ) (ids : List ℕ) (rows : Rows) (keys : List ℕ)
    → All (IsPresent p rows) keys
    → All (IsPresent p (arrange base ids rows)) keys
IsPresent-arrange p base ids rows keys h =
    All-map
      (λ key q. record {
        row = row_at base ids q.row;
        found = find-arrange base ids key rows q.row q.found;
        owned = row_at-provider base ids q.row ∙ q.owned;
      })
      keys h

arrange-twice :
    (base start : ℕ) (ids : List ℕ) (rows : Rows)
    → arrange base ids (arrange start ids rows) ≡ arrange base ids rows
arrange-twice base start ids [] = refl
arrange-twice base start ids (o ∷ rows) =
    rw (row_at-twice base start ids o)
      (ap (λ t. row_at base ids o ∷ t) (arrange-twice base start ids rows))

-- Where the ids are those of all the listings of a provider and no position of them passes the
-- highest one given, the two passes write every position without meeting the unique key: they leave
-- the listings at 1, 2, 3, … in the order of the ids, and every other row as it was.
pub persist_visible_order_lem :
    (p : ℕ) (ids orders : List ℕ) (rows : Rows)
    → All (IsPresent p rows) ids
    → Covers p ids rows
    → All (λ o. o.provider_id ≡ p → o.display_order ≤ highest orders) rows
    → persist_visible_order ids orders rows ≡ ok (arrange 0 ids rows)
unfolding persist_visible_order
persist_visible_order_lem p ids orders rows present covers below =
    let start = highest orders + length ids in
    let zero_start : start + 0 ≡ start = omega arith in
    let up =
      place_from_ok p start 0 ids rows present
        (All-map (λ o h owned. inl (omega (arith, h owned))) rows below) in
    rw up (
      place_from_ok p 0 0 ids (arrange (start + 0) ids rows)
        (IsPresent-arrange p (start + 0) ids rows ids present)
        (subst (λ n. All (IsFree p 0 n) (arrange (start + 0) ids rows)) length_shift
          (IsFree-above p (start + 0) ids rows (omega arith) covers))
      ∙ ap ok (arrange-twice 0 (start + 0) ids rows))
  where
    length_shift : length ids ≡ 0 + 0 + length ids
    length_shift = omega arith
