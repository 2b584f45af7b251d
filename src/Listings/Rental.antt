-- ===== src/Listings/Rental.antt =====
-- `rentListing` of src/listings/listings.service.ts: a listing is rented to one of its applicants, and
-- the others are rejected. `legacy_resolution` is the parameter of the closing of viewings.
pub mod Rows
pub mod Laws
use renyqo_app.Prelude.{
  ℕ, Bool, true, false, not, Option, none, some, List, [], ◌∷◌, ◌++◌, ◌&&◌, ◌||◌, ◌==◌,
  if◌then◌else◌, filter, find, length, is_some, any,
}
use renyqo_app.Domain.{
  ListingStatus, draft, published, paused, archived, rented, Listing, is_draft, is_published,
  is_paused, is_archived, is_rented, PublishRequiredField, title, street, zip, city, living_area,
  rooms, bedrooms, cold_rent, available_from, Application, ApplicationStatus, is_active, is_waiting,
  listing_rented, provider_actor, to_both, to_applicant, application_rejected, ClosureReason,
  ActivityType,
}
use renyqo_app.Applications.Store.{
  Store, Result, ok, err, not_found, conflict, missing_fields, ◌>>=◌, Proposal, Activity,
  no_metadata, append_activity, update_where, update_application, find_application,
}
use renyqo_app.Applications.Closing.OfListing.{close_listing}
use renyqo_app.Applications.Lifecycle.{promote_within}
use renyqo_app.Listings.Status.{find_one_by_provider}

-- the `where` of the applications that are not selected
unfoldable pub is_left_out : ℕ → ℕ → Application → Bool
is_left_out listing_id selected a =
    a.listing_id == listing_id
    && (not (a.id == selected) && (is_active a.status || is_waiting a.status))

abbrev pub left_out_row : ℕ → Application → Application
left_out_row now a = record a {
  status = ApplicationStatus.rejected;
  rejected_at = some now;
  public_reason = some listing_rented;
}

abbrev pub left_out : ℕ → ℕ → Application → Activity
left_out provider_id now a = record {
  application_id = a.id;
  type = application_rejected;
  actor_user_id = some provider_id;
  actor_type = provider_actor;
  visibility = if is_active a.status then to_both else to_applicant;
  occurred_at = now;
  metadata = record no_metadata {
    from_status = some a.status;
    to_status = some ApplicationStatus.rejected;
    reason = some listing_rented;
  };
}

abbrev append_each : List Application → ℕ → Store → Store
append_each [] provider_id s = s
append_each (a ∷ rows) provider_id s =
    append_each rows provider_id (append_activity (left_out provider_id s.now a) s)

abbrev pub reject_left_out : List Application → ℕ → Store → Store
reject_left_out rows provider_id s = append_each rows provider_id (record s {
  applications =
      update_where (λ a. any (λ r. r.id == a.id) rows) (left_out_row s.now) s.applications;
})

abbrev selection : ℕ → ℕ → ℕ → Activity
selection selected provider_id now = record {
  application_id = selected;
  type = ActivityType.application_accepted;
  actor_user_id = some provider_id;
  actor_type = provider_actor;
  visibility = to_both;
  occurred_at = now;
  metadata = record no_metadata {
    from_status = some ApplicationStatus.active;
    to_status = some ApplicationStatus.accepted;
  };
}

abbrev pub accepted_row : Application → Application
accepted_row a = record a { status = ApplicationStatus.accepted }

-- the writes of `rentListing` behind the closing of the viewings
unfoldable pub mark_rented : ℕ → ℕ → ℕ → Store → Store
unfolding is_left_out
mark_rented id provider_id selected s =
    let rejected =
      reject_left_out (filter (is_left_out id selected) s.applications) provider_id s in
    let chosen =
      append_activity (selection selected provider_id s.now)
        (update_application selected accepted_row rejected) in
    record chosen {
      listings =
          update_where (λ l. l.id == id) (λ l. record l { status = rented; rented_at = some s.now })
            chosen.listings;
    }

-- the test of the selected application
abbrev pub is_valid_choice : ℕ → Option Application → Bool
is_valid_choice id none = false
is_valid_choice id (some a) = a.listing_id == id && is_active a.status

module _ (legacy_resolution : Store → ℕ → Proposal → Proposal) where
  abbrev pub rent_found : Option Listing → ℕ → ℕ → Store → Result Store
  rent_found none provider_id selected s = err not_found
  rent_found (some listing) provider_id selected s =
      if not (is_published listing.status || is_paused listing.status)
      then err conflict
      else if not (is_valid_choice listing.id (find_application selected s.applications))
      then err conflict
      else (close_listing legacy_resolution listing.id ClosureReason.listing_rented provider_id
            (some selected) s
          >>= λ t. ok (mark_rented listing.id provider_id selected t))

  -- `rentListing`; what it returns is the row of the listing in the new store
  unfoldable pub rent_listing : ℕ → ℕ → ℕ → Store → Result Store
  unfolding mark_rented find_one_by_provider
  rent_listing id provider_id selected s =
      rent_found (find_one_by_provider id provider_id s.listings) provider_id selected s
