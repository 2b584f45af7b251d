-- ===== src/Listings/Ordering/Moves.antt =====
-- A move of a listing, and the next free position, from the rows of the table.
use renyqo_app.Prelude.{
  ℕ, suc, ◌+◌, ◌≤◌, ◌≡◌, refl, sym, ap, ◌∙◌, subst, true, false, ◌&&◌, some, List, [], ◌∷◌, ◌==◌,
  ltb, arith, find, length, All, Bool-cases, inl, inr, and-cases,
}
use renyqo_app.Prelude.Sort.{All-map}
use renyqo_app.Listings.Ordering.{
  OrderedListing, Rows, ok, load_provider_listings, matches_from, ids_of, orders_of, reorder,
  read_moved, placed, moved_to, without_id, move, get_next_display_order,
}
use renyqo_app.Listings.Ordering.Positions.{
  row_at, arrange, find-arrange, persist_visible_order_lem,
}
use renyqo_app.Listings.Ordering.Loading.{
  HasUniqueIds, All-find, All-without_id, All-moved_to, any-moved_to, any-without_id, all_found,
  All-IsOwn, ids-IsPresent, ids-Covers, all_below, find_id, IsOwn, Same,
}

placed_there : (o : OrderedListing) (n : ℕ) → o.display_order ≡ n → placed n o ≡ o
placed_there o n e = rw (sym e) refl

-- Where each listing stands at its position already, a pass changes nothing.
row_at-matches :
    (index : ℕ) (ls : Rows) (ids : List ℕ) (o : OrderedListing)
    → matches_from index ls ids ≡ true
    → All (λ l. l.id ≡ o.id → l ≡ o) ls
    → row_at index ids o ≡ o
unfolding row_at
row_at-matches index [] [] o h s = refl
row_at-matches index [] (id ∷ ids) o h s = cc
row_at-matches index (l ∷ ls) [] o h s = cc
row_at-matches index (l ∷ ls) (id ∷ ids) o h (s, ss) =
    let (here, rest) =
      and-cases (l.id == id && l.display_order == index + 1) (matches_from (suc index) ls ids) h in
    let (key, place) = and-cases (l.id == id) (l.display_order == index + 1) here in
    let later = row_at-matches (suc index) ls ids o rest ss in
    elim (Bool-cases (o.id == id)) [
      | inr other ↦ rw other later
      | inl same ↦
          let whole : l ≡ o = s (ground (arith, key, same)) in
          let stands : o.display_order ≡ index + 1 =
            ap (λ x. x.display_order) (sym whole) ∙ ground (arith, place) in
          rw same (ap (row_at (suc index) ids) (placed_there o (index + 1) stands) ∙ later)
    ]

same_listing :
    (p : ℕ) (rows : Rows) (o : OrderedListing)
    → find (λ x. x.id == o.id) rows ≡ some o
    → (l : OrderedListing) → IsOwn p rows l
    → l.id ≡ o.id
    → l ≡ o
same_listing p rows o here l own e = ground (arith, here, rw e at own.found)

arrange-matches :
    (p : ℕ) (ids : List ℕ) (rows xs : Rows)
    → matches_from 0 (load_provider_listings p rows) ids ≡ true
    → All (IsOwn p rows) (load_provider_listings p rows)
    → All (λ o. find (λ x. x.id == o.id) rows ≡ some o) xs
    → arrange 0 ids xs ≡ xs
arrange-matches p ids rows [] h own f = refl
arrange-matches p ids rows (o ∷ xs) h own (f, fs) =
    let first =
      row_at-matches 0 (load_provider_listings p rows) ids o h
        (All-map (λ l q. same_listing p rows o f l q) (load_provider_listings p rows) own) in
    ap (λ x. x ∷ arrange 0 ids xs) first ∙ ap (λ t. o ∷ t) (arrange-matches p ids rows xs h own fs)

-- In any order of the provider's listings, the write succeeds and arranges them so.
reorder_ok :
    (p : ℕ) (rows xs : Rows)
    → HasUniqueIds rows
    → All (IsOwn p rows) xs
    → Same xs (load_provider_listings p rows)
    → reorder (load_provider_listings p rows) (ids_of xs) rows ≡ ok (arrange 0 (ids_of xs) rows)
unfolding reorder
reorder_ok p rows xs u own same =
    elim (Bool-cases (matches_from 0 (load_provider_listings p rows) (ids_of xs))) [
      | inl fits ↦ rw fits (
          ap ok (
            sym (
              arrange-matches p (ids_of xs) rows rows fits (All-IsOwn p rows u)
                (all_found rows u))))
      | inr differs ↦ rw differs (
          persist_visible_order_lem p (ids_of xs) (orders_of (load_provider_listings p rows)) rows
            (ids-IsPresent p rows xs own) (ids-Covers p rows xs same) (all_below p rows))
    ]

-- The next position of a provider is one more than the provider has listings, and asking for it
-- never fails: it leaves the listings, in the order in which they showed before, at 1, 2, 3, … and
-- every other row as it was.
pub get_next_display_order_lem :
    (p : ℕ) (rows : Rows)
    → HasUniqueIds rows
    → get_next_display_order p rows
      ≡ ok (
        length (load_provider_listings p rows) + 1,
        arrange 0 (ids_of (load_provider_listings p rows)) rows,
      )
unfolding get_next_display_order
get_next_display_order_lem p rows u =
    rw (reorder_ok p rows (load_provider_listings p rows) u (All-IsOwn p rows u) (λ q. refl)) refl

-- A move of one of a provider's listings to a position from 1 to their number never fails: it takes
-- the listing out of the order in which they show, puts it in at that position, leaves the listings at
-- 1, 2, 3, … in the order that this makes, and every other row as it was, and returns the listing as
-- it then is.
pub move_lem :
    (listing_id p position : ℕ) (rows : Rows) (l : OrderedListing)
    → HasUniqueIds rows
    → 1 ≤ position
    → position ≤ length (load_provider_listings p rows)
    → find (λ o. o.id == listing_id) (load_provider_listings p rows) ≡ some l
    → (let ids =
          ids_of (moved_to position l (without_id listing_id (load_provider_listings p rows))) in
        move listing_id p position rows ≡ ok (row_at 0 ids l, arrange 0 ids rows))
unfolding move read_moved
move_lem listing_id p position rows l u low high found =
    let listings = load_provider_listings p rows in
    let others = without_id listing_id listings in
    let own = All-IsOwn p rows u in
    let mine = All-find (IsOwn p rows) (λ o. o.id == listing_id) listings l own found in
    let written =
      reorder_ok p rows (moved_to position l others) u
        (All-moved_to (IsOwn p rows) position l others mine
          (All-without_id (IsOwn p rows) listing_id listings own))
        (λ q. any-moved_to q position l others ∙ any-without_id q listing_id listings l found) in
    let one : ltb position 1 ≡ false = ground arith in
    let many : ltb (length listings) position ≡ false = ground arith in
    let key : l.id ≡ listing_id = find_id listing_id listings l found in
    let there : find (λ o. o.id == listing_id) rows ≡ some l =
      subst (λ n. find (λ o. o.id == n) rows ≡ some l) key mine.found in
    rw
      (
        one,
        found,
        many,
        written,
        find-arrange 0 (ids_of (moved_to position l others)) listing_id rows l there,
      )
      refl
