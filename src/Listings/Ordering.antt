-- ===== src/Listings/Ordering.antt =====
-- src/listings/listing-ordering.service.ts: the positions of a provider's listings, under the unique
-- key on provider and position.
pub mod Positions
pub mod Loading
pub mod Moves
mod Tests
use renyqo_app.Prelude.{
  ℕ, zero, suc, ◌+◌, ◌-◌, ◌*◌, Bool, true, false, not, Option, none, some, List, [], ◌∷◌, ◌++◌, map,
  ◌&&◌, ◌||◌, ◌==◌, ltb, leb, max, if◌then◌else◌, any, filter, find, length, order_by, take, drop,
  is_none,
}

-- The columns of `listings` that the ordering reads and writes.
pub record OrderedListing : Type 0 where
  pub id : ℕ
  pub provider_id : ℕ
  pub display_order : ℕ

abbrev pub Rows : Type 0
Rows = List OrderedListing

-- the exceptions; `unique_violation` is the database's, for the key on provider and position
pub data OrderingError : Type 0 where
  bad_position listing_not_found unique_violation : OrderingError

pub data Result (Value : Type 0) : Type 0 where
  err : (thrown : OrderingError) → Result Value
  ok : (value : Value) → Result Value

-- the next statement, where the last one has not thrown
infixl 5 ◌>>=◌
abbrev pub ◌>>=◌ : {Value Next : Type 0} → Result Value → (Value → Result Next) → Result Next
err thrown >>= next = err thrown
ok value >>= next = next value

-- `orderBy: [{ displayOrder: 'asc' }, { id: 'asc' }]`
pub shows_before : OrderedListing → OrderedListing → Bool
shows_before a b =
    ltb a.display_order b.display_order || (a.display_order == b.display_order && ltb a.id b.id)

-- `loadProviderListings`
pub load_provider_listings : ℕ → Rows → Rows
unfolding shows_before
load_provider_listings provider_id rows =
    order_by shows_before (filter (λ l. l.provider_id == provider_id) rows)

-- the `every` of `matchesContiguousOrder`, from an index on
abbrev pub matches_from : ℕ → Rows → List ℕ → Bool
matches_from index [] [] = true
matches_from index (l ∷ ls) (id ∷ ids) =
    (l.id == id && l.display_order == index + 1) && matches_from (suc index) ls ids
matches_from index _ _ = false

-- `matchesContiguousOrder`
abbrev pub matches_contiguous_order : Rows → List ℕ → Bool
matches_contiguous_order listings ordered_ids = matches_from 0 listings ordered_ids

abbrev provider_of : ℕ → Rows → Option ℕ
provider_of id rows = elim (find (λ l. l.id == id) rows) [
  | none ↦ none
  | some l ↦ some l.provider_id
]

-- Another listing of the same provider stands at this position.
pub is_taken : OrderedListing → ℕ → Rows → Bool
is_taken l position rows =
    any (λ o. o.provider_id == l.provider_id && (o.display_order == position && not (o.id == l.id)))
      rows

abbrev pub placed : ℕ → OrderedListing → OrderedListing
placed position l = record l { display_order = position }

-- what the statement does with the row that it found
pub write_position : ℕ → ℕ → Rows → Option OrderedListing → Result Rows
unfolding is_taken
write_position id position rows none = err listing_not_found
write_position id position rows (some l) =
    if is_taken l position rows
    then err unique_violation
    else ok (map (λ o. if o.id == id then placed position o else o) rows)

-- `tx.listing.update({ where: { id }, data: { displayOrder } })`: no row of the id, or another listing
-- of its provider at the position, makes the statement fail.
pub update_position : ℕ → ℕ → Rows → Result Rows
update_position id position rows = write_position id position rows (find (λ l. l.id == id) rows)

-- a loop of `persistVisibleOrder`, from an index on
pub place_from : ℕ → ℕ → List ℕ → Rows → Result Rows
place_from start index [] rows = ok rows
place_from start index (id ∷ ids) rows =
    update_position id (start + index + 1) rows >>= λ rows'. place_from start (suc index) ids rows'

abbrev pub highest : List ℕ → ℕ
highest [] = 0
highest (p ∷ ps) = max p (highest ps)

-- `persistVisibleOrder`
pub persist_visible_order : List ℕ → List ℕ → Rows → Result Rows
unfolding place_from
persist_visible_order ordered_ids current_display_orders rows =
    let temporary_start = highest current_display_orders + length ordered_ids in
    place_from temporary_start 0 ordered_ids rows >>= λ rows'. place_from 0 0 ordered_ids rows'

abbrev pub ids_of : Rows → List ℕ
ids_of listings = map (λ l. l.id) listings

abbrev pub orders_of : Rows → List ℕ
orders_of listings = map (λ l. l.display_order) listings

-- the write of an order, where the listings do not have it yet
pub reorder : Rows → List ℕ → Rows → Result Rows
unfolding persist_visible_order
reorder listings ordered_ids rows =
    if matches_contiguous_order listings ordered_ids
    then ok rows
    else persist_visible_order ordered_ids (orders_of listings) rows

-- `getNextDisplayOrder`
unfoldable pub get_next_display_order : ℕ → Rows → Result (ℕ × Rows)
get_next_display_order provider_id rows =
    let listings = load_provider_listings provider_id rows in
    reorder listings (ids_of listings) rows >>= λ rows'. ok (length listings + 1, rows')

-- `splice(currentIndex, 1)` and `splice(requestedPosition - 1, 0, moved)`
abbrev pub moved_to : ℕ → OrderedListing → Rows → Rows
moved_to position moved others = take (position - 1) others ++ moved ∷ drop (position - 1) others

abbrev pub without_id : ℕ → Rows → Rows
without_id id [] = []
without_id id (l ∷ ls) = if l.id == id then ls else l ∷ without_id id ls

-- `tx.listing.findUnique` at the end of `move`
pub read_moved : Option OrderedListing → Rows → Result (OrderedListing × Rows)
read_moved none rows = err listing_not_found
read_moved (some l) rows = ok (l, rows)

-- the part of `move` that follows the search for the listing among those of the provider
pub move_found : ℕ → ℕ → Rows → Option OrderedListing → Rows → Result (OrderedListing × Rows)
unfolding reorder read_moved
move_found listing_id position listings none rows = err listing_not_found
move_found listing_id position listings (some l) rows =
    let reordered = moved_to position l (without_id listing_id listings) in
    if ltb (length listings) position
    then err bad_position
    else (reorder listings (ids_of reordered) rows >>= λ rows'.
        read_moved (find (λ o. o.id == listing_id) rows') rows')

-- `move`; a position that is no positive integer is refused, of those 0 is left here
unfoldable pub move : ℕ → ℕ → ℕ → Rows → Result (OrderedListing × Rows)
unfolding move_found
move listing_id provider_id position rows =
    let listings = load_provider_listings provider_id rows in
    if ltb position 1
    then err bad_position
    else move_found listing_id position listings (find (λ l. l.id == listing_id) listings) rows
