-- ===== src/Listings/Rental/Laws.antt =====
-- What `rentListing` of src/listings/listings.service.ts makes of a listing and its applications.
use renyqo_app.Prelude.{
  ℕ, ◌≡◌, sym, ◌∙◌, ap, subst, inl, inr, true, not, ◌||◌, some, [], ◌==◌, filter, arith,
  Option-cases,
}
use renyqo_app.Domain.{Listing, Application, is_published, is_paused, is_active}
use renyqo_app.Applications.Store.{
  Store, ok, >>=-eq-ok, guard-eq-ok, Proposal, update_where, find_application,
}
use renyqo_app.Applications.Promotion.Batches.{ok_inj}
use renyqo_app.Applications.Frame.{kept_by_closing, close_listing-kept}
use renyqo_app.Applications.Closing.OfListing.{close_listing}
use renyqo_app.Listings.Status.{find_one_by_provider}
use renyqo_app.Listings.Rental.{
  accepted_row, mark_rented, is_valid_choice, rent_found, rent_listing,
}
use renyqo_app.Listings.Rental.Rows.{
  is_undecided, rented_row, settled_rows, mark_rented-tables, filter-settled_rows, unguarded,
  choice-is_valid, find_application-settled_rows, find_one_by_provider-rented,
}

-- The listing that is rented was published or paused; its application that is selected was active
-- and is accepted, and none of its applications is left active or waiting.
pub record IsSettled (id provider_id selected : ℕ) (s t : Store) : Type 0 where
  listing :
      (l : Listing) × (find_one_by_provider id provider_id s.listings ≡ some l)
      × ((is_published l.status || is_paused l.status) ≡ true)
      × (find_one_by_provider id provider_id t.listings ≡ some (rented_row s.now l))
  chosen :
      (a : Application) × (find_application selected s.applications ≡ some a)
      × (a.listing_id ≡ id)
      × (is_active a.status ≡ true)
      × (find_application selected t.applications ≡ some (accepted_row a))
  decided : filter (is_undecided id) t.applications ≡ []

-- the writes, applied to what the closing of the viewings has left
mark_rented-IsSettled :
    (id provider_id selected : ℕ) (s u : Store) (l : Listing)
    → find_one_by_provider id provider_id s.listings ≡ some l
    → (is_published l.status || is_paused l.status) ≡ true
    → is_valid_choice id (find_application selected s.applications) ≡ true
    → kept_by_closing u ≡ kept_by_closing s
    → IsSettled id provider_id selected s (mark_rented id provider_id selected u)
mark_rented-IsSettled id provider_id selected s u l found offered valid kept =
    let (a, chosen, of_listing, was_active) = choice-is_valid id selected s.applications valid in
    let (rows, tables) = mark_rented-tables id provider_id selected u in
    let rows' : (mark_rented id provider_id selected u).applications
        ≡ settled_rows id selected s.now s.applications =
      rows ∙ ap (λ k. settled_rows id selected k.0 k.1) kept in
    let tables' : (mark_rented id provider_id selected u).listings
        ≡ update_where (λ x. x.id == id) (rented_row s.now) s.listings =
      tables ∙ ap (λ k. update_where (λ x. x.id == id) (rented_row k.0) k.3) kept in
    record {
      listing = (
        l,
        found,
        offered,
        ap (find_one_by_provider id provider_id) tables'
            ∙ (find_one_by_provider-rented id provider_id s.now s.listings l found).1,
      );
      chosen = (
        a,
        chosen,
        of_listing,
        was_active,
        ap (find_application selected) rows'
            ∙ find_application-settled_rows id selected s.now s.applications a chosen,
      );
      decided =
          ap (filter (is_undecided id)) rows'
          ∙ filter-settled_rows id selected s.now s.applications;
    }

module _ (legacy_resolution : Store → ℕ → Proposal → Proposal) where
  rent_found-IsSettled :
      (id provider_id selected : ℕ) (s t : Store) (l : Listing)
      → find_one_by_provider id provider_id s.listings ≡ some l
      → rent_found legacy_resolution (some l) provider_id selected s ≡ ok t
      → IsSettled id provider_id selected s t
  rent_found-IsSettled id provider_id selected s t l found h =
      let (offered, h2) = guard-eq-ok (not (is_published l.status || is_paused l.status)) _ _ h in
      let (valid, h3) =
        guard-eq-ok (not (is_valid_choice l.id (find_application selected s.applications))) _ _
          h2 in
      let (u, closed, last) = >>=-eq-ok (close_listing legacy_resolution _ _ _ _ _) _ h3 in
      let kept = close_listing-kept legacy_resolution _ _ _ _ s u closed in
      let own = (find_one_by_provider-rented id provider_id s.now s.listings l found).0 in
      let valid' = unguarded _ valid in
      subst (IsSettled id provider_id selected s) (ok_inj last) (
        subst
          (λ (n : ℕ). IsSettled id provider_id selected s (mark_rented n provider_id selected u))
          (sym own)
          (mark_rented-IsSettled id provider_id selected s u l found (unguarded _ offered)
            (subst (λ (n : ℕ). is_valid_choice n (find_application selected s.applications) ≡ true)
              own valid')
            kept))

  -- A rental that returns had a listing of the provider that was published or paused, and an
  -- application to it that was active: afterwards that listing is rented, at the time of the
  -- transaction, that application is accepted, and no application to the listing is active or waiting.
  pub rent_listing-IsSettled :
      (id provider_id selected : ℕ) (s t : Store)
      → rent_listing legacy_resolution id provider_id selected s ≡ ok t
      → IsSettled id provider_id selected s t
  unfolding rent_listing
  rent_listing-IsSettled id provider_id selected s t h =
      elim (Option-cases (find_one_by_provider id provider_id s.listings)) [
        | inl missing ↦ let bad : ⊥ = ground (arith, (rw missing at h)) in elim bad [ ]
        | inr (l, found) ↦ rent_found-IsSettled id provider_id selected s t l found (rw found at h)
      ]
