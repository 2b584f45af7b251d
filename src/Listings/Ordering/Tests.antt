-- ===== src/Listings/Ordering/Tests.antt =====
-- The order of three listings of one provider, beside one of another.
use renyqo_app.Listings.Ordering.Loading.{HasUniqueIds}
use renyqo_app.Listings.Ordering.Moves.{get_next_display_order_lem, move_lem}
use renyqo_app.Prelude.{some, find, length, ◌==◌, ◌+◌, ℕ, ◌≤◌, ◌≡◌, refl, [], ◌∷◌, arith, order_by}
use renyqo_app.Listings.Ordering.{
  ids_of, moved_to, without_id, get_next_display_order, OrderedListing, Rows, ok,
  load_provider_listings, update_position, write_position, place_from, is_taken,
  persist_visible_order, move,
}
use renyqo_app.Listings.Ordering.Positions.{arrange, row_at}

abbrev listed : ℕ → ℕ → ℕ → OrderedListing
listed id provider_id display_order = record {
  id = id;
  provider_id = provider_id;
  display_order = display_order;
}

abbrev rows : Rows
rows = listed 1 70 1 ∷ listed 2 70 2 ∷ listed 9 80 1 ∷ listed 3 70 4 ∷ []

-- The last listing goes to the front, and the gap before it is closed.
moved_to_front :
    move 3 70 1 rows
    ≡ ok (listed 3 70 1, listed 1 70 2 ∷ listed 2 70 3 ∷ listed 9 80 1 ∷ listed 3 70 1 ∷ [])
unfolding move load_provider_listings persist_visible_order place_from update_position
    write_position is_taken order_by
moved_to_front = refl

four_ids : HasUniqueIds rows
four_ids = ground arith

third_found :
    (find (λ o. o.id == 3) (load_provider_listings 70 rows) ≡ some (listed 3 70 4))
    × (length (load_provider_listings 70 rows) ≡ 3)
unfolding load_provider_listings order_by
third_found = (refl, refl)

three_listed : 1 ≤ length (load_provider_listings 70 rows)
three_listed = omega (arith, third_found.1)

get_next_display_order_lem_example :
    get_next_display_order 70 rows
    ≡ ok (
      length (load_provider_listings 70 rows) + 1,
      arrange 0 (ids_of (load_provider_listings 70 rows)) rows,
    )
get_next_display_order_lem_example = get_next_display_order_lem 70 rows four_ids

move_lem_example :
    let order =
      ids_of (moved_to 1 (listed 3 70 4) (without_id 3 (load_provider_listings 70 rows))) in
    move 3 70 1 rows ≡ ok (row_at 0 order (listed 3 70 4), arrange 0 order rows)
move_lem_example =
    move_lem 3 70 1 rows (listed 3 70 4) four_ids (omega arith) three_listed third_found.0
