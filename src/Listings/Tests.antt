-- ===== src/Listings/Tests.antt =====
-- The status of a listing and its rental (src/listings/listings.service.ts) at a concrete store: a draft that is
-- published, and a published listing that is rented to the first of its two applicants.
use renyqo_app.Prelude.{ℕ, ◌+◌, ◌≡◌, refl, true, false, none, some, [], ◌∷◌, order_by, Option}
use renyqo_app.Domain.{
  Listing, ListingStatus, draft, published, Application, ApplicationStatus, active, waiting,
  PublishRequiredField, title, street, zip, city, living_area, rooms, bedrooms, cold_rent,
  available_from,
}
use renyqo_app.Applications.Store.{
  Store, Result, ok, err, missing_fields, conflict, Proposal, update_where, find_application,
}
use renyqo_app.Applications.Promotion.{reconcile, batches, queue_behind, count_active}
use renyqo_app.Applications.Lifecycle.{promote_within}
use renyqo_app.Applications.Closing.{find_workflow, live_viewings}
use renyqo_app.Applications.Closing.OfListing.{close_listing, close_each, has_viewings_to_close}
use renyqo_app.Listings.Status.{
  find_one_by_provider, missing, is_unchanged, commit_listing_status, publish,
}
use renyqo_app.Listings.Rental.{is_left_out, mark_rented, rent_listing}
use renyqo_app.Listings.Status.Machine.{IsChanged, publishing}
use renyqo_app.Listings.Status.Changed.{change-IsChanged, WasComplete}
use renyqo_app.Listings.Rental.Laws.{IsSettled, rent_listing-IsSettled}

abbrev flat : ListingStatus → Option ℕ → Listing
flat status published_at = record {
  id = 7;
  provider_id = 70;
  status = status;
  published_at = published_at;
  rented_at = none;
  is_given = λ field. true;
  criteria = record {
    minimum_household_net_income = none;
    suitable_for_people_count = none;
    pets_policy = none;
    smoking_policy = none;
    schufa_required = false;
    income_proof_required = false;
  };
}

abbrev application : ℕ → ApplicationStatus → Application
application id status = record {
  id = id;
  listing_id = 7;
  applicant_id = id + 10;
  status = status;
  queue_order = id;
  rejected_at = none;
  public_reason = none;
  active_at = none;
  withdrawn_at = none;
  created_at = 10;
}

abbrev drafted : Store
drafted = record {
  now = 1000;
  next_id = 100;
  next_queue_order = 9;
  next_position = 1;
  applications = [];
  listings = flat draft none ∷ [];
  profiles = [];
  activities = [];
  events = [];
  revisions = [];
  assessments = [];
  viewings = [];
  workflows = [];
  proposals = [];
  appointments = [];
  outcomes = [];
  interests = [];
  positions = [];
  consequences = [];
  receipts = [];
}

abbrev offered : Store
offered = record drafted {
  applications = application 1 active ∷ application 2 waiting ∷ [];
  listings = flat published (some 5) ∷ [];
}

abbrev keep : Store → ℕ → Proposal → Proposal
keep s id p = p

abbrev value_or {ℓ} : {A : Type ℓ} → A → Result A → A
value_or d (ok a) = a
value_or d (err e) = d

abbrev with_title_missing : Listing
with_title_missing = record (flat draft none) {
  is_given = λ (field : PublishRequiredField). elim field [
    | title ↦ false
    | street ↦ true
    | zip ↦ true
    | city ↦ true
    | living_area ↦ true
    | rooms ↦ true
    | bedrooms ↦ true
    | cold_rent ↦ true
    | available_from ↦ true
  ];
}

title_is_required :
    publish keep 7 70 (record drafted { listings = with_title_missing ∷ [] }) drafted
    ≡ err (missing_fields (title ∷ []))
unfolding publish find_one_by_provider missing
title_is_required = refl

-- A draft that another request has published in between is not published again.
publish_twice :
    publish keep 7 70 drafted (record drafted { listings = flat published (some 999) ∷ [] })
    ≡ err conflict
unfolding publish find_one_by_provider missing commit_listing_status is_unchanged
publish_twice = refl

change-IsChanged_example :
    IsChanged publishing 7 70 1000 drafted.listings (flat published (some 1000) ∷ [])
    × WasComplete publishing 7 70 drafted
unfolding publish find_one_by_provider missing commit_listing_status is_unchanged update_where
    promote_within reconcile batches queue_behind count_active order_by
change-IsChanged_example =
    change-IsChanged keep publishing 7 70 drafted drafted
      (record drafted { listings = flat published (some 1000) ∷ [] }) refl

rent_listing-IsSettled_example :
    IsSettled 7 70 1 offered (value_or offered (rent_listing keep 7 70 1 offered))
unfolding rent_listing find_one_by_provider find_application close_listing close_each mark_rented
    is_left_out update_where find_workflow live_viewings has_viewings_to_close order_by
rent_listing-IsSettled_example =
    rent_listing-IsSettled keep 7 70 1 offered (value_or offered (rent_listing keep 7 70 1 offered))
      refl
