-- ===== src/Listings/Status.antt =====
-- src/listings/listings.service.ts: a listing is published, moved to draft, paused, resumed and
-- archived. The status change reads the listing before its transaction begins, so that it takes two
-- stores: `before`, in which the listing was read, and the store of the transaction.
-- `legacy_resolution` is the parameter of the closing of viewings.
pub mod Machine
pub mod Changed
use renyqo_app.Prelude.{
  ℕ, Bool, true, false, not, Option, none, some, List, [], ◌∷◌, ◌++◌, ◌&&◌, ◌||◌, ◌==◌,
  if◌then◌else◌, filter, find, length, is_some, any,
}
use renyqo_app.Domain.{
  ListingStatus, draft, published, paused, archived, rented, Listing, is_draft, is_published,
  is_paused, is_archived, is_rented, PublishRequiredField, title, street, zip, city, living_area,
  rooms, bedrooms, cold_rent, available_from, Application, ApplicationStatus, is_active, is_waiting,
  listing_rented, provider_actor, to_both, to_applicant, application_rejected, ClosureReason,
  ActivityType,
}
use renyqo_app.Applications.Store.{
  Store, Result, ok, err, not_found, conflict, missing_fields, ◌>>=◌, Proposal, Activity,
  no_metadata, append_activity, update_where, update_application, find_application,
}
use renyqo_app.Applications.Closing.OfListing.{close_listing}
use renyqo_app.Applications.Lifecycle.{promote_within}

-- `a === b`
abbrev pub is_status : ListingStatus → ListingStatus → Bool
is_status draft b = is_draft b
is_status published b = is_published b
is_status paused b = is_paused b
is_status archived b = is_archived b
is_status rented b = is_rented b

-- `findOneByProvider`
unfoldable pub find_one_by_provider : ℕ → ℕ → List Listing → Option Listing
find_one_by_provider id provider_id rows =
    find (λ l. l.id == id && l.provider_id == provider_id) rows

abbrev publish_required_fields : List PublishRequiredField
publish_required_fields =
    title ∷ street ∷ zip ∷ city ∷ living_area ∷ rooms ∷ bedrooms ∷ cold_rent ∷ available_from ∷ []

-- the required fields that are null
unfoldable pub missing : Listing → List PublishRequiredField
missing listing = filter (λ field. not (listing.is_given field)) publish_required_fields

-- `publishedAt` is none where the write leaves it alone
pub record ListingStatusWrite : Type 0 where
  pub status : ListingStatus
  pub published_at : Option ℕ

abbrev pub written : ListingStatusWrite → Listing → Listing
written data_ l = record l {
  status = data_.status;
  published_at = if is_some data_.published_at then data_.published_at else l.published_at;
}

-- what `publish` writes: a date only where there is none
abbrev pub publication : Listing → ℕ → ListingStatusWrite
publication listing now = record {
  status = published;
  published_at = if is_some listing.published_at then none else some now;
}

-- the `where` of the update: the listing is as it was read
unfoldable pub is_unchanged : Listing → ℕ → ListingStatusWrite → Listing → Bool
is_unchanged listing provider_id data_ l =
    l.id == listing.id
    && (l.provider_id == provider_id
        && (is_status listing.status l.status
            && not (is_some data_.published_at && is_some l.published_at)))

-- the reason of the closing that the new status calls for
abbrev pub closure_of : ListingStatus → ClosureReason
closure_of archived = ClosureReason.listing_archived
closure_of _ = ClosureReason.listing_unpublished

module _ (legacy_resolution : Store → ℕ → Proposal → Proposal) where
  abbrev pub close_for : ListingStatus → ℕ → ℕ → Store → Result Store
  close_for status id provider_id s =
      if is_archived status || is_draft status
      then close_listing legacy_resolution id (closure_of status) provider_id none s
      else ok s

  -- what follows the reading of the result
  abbrev pub reconcile_for : ListingStatus → Option Listing → Store → Result Store
  reconcile_for status none s = err not_found
  reconcile_for status (some result) s =
      if is_published status then promote_within (some result) s else ok s

  -- the statements behind an update of one row
  abbrev pub after_update : Listing → ℕ → ListingStatus → Store → Result Store
  after_update listing provider_id status s = close_for status listing.id provider_id s >>= λ t.
      reconcile_for status (find_one_by_provider listing.id provider_id t.listings) t

  -- `commitListingStatus`; what it returns is the row of the listing in the new store
  unfoldable pub commit_listing_status :
      Listing → ℕ → List ListingStatus → ListingStatusWrite → Store → Result Store
  unfolding is_unchanged find_one_by_provider
  commit_listing_status listing provider_id allowed data_ s =
      let test : Listing → Bool = is_unchanged listing provider_id data_ in
      if not (any (is_status listing.status) allowed)
      then err conflict
      else if not (length (filter test s.listings) == 1)
      then (if is_some (find_one_by_provider listing.id provider_id s.listings)
          then err conflict
          else err not_found)
      else after_update listing provider_id data_.status
          (record s { listings = update_where test (written data_) s.listings })

  abbrev transition_found :
      Option Listing → ℕ → List ListingStatus → ListingStatusWrite → Store → Result Store
  transition_found none provider_id allowed data_ s = err not_found
  transition_found (some listing) provider_id allowed data_ s =
      commit_listing_status listing provider_id allowed data_ s

  -- `transitionListing`
  unfoldable pub transition_listing :
      ℕ → ℕ → List ListingStatus → ListingStatusWrite → Store → Store → Result Store
  unfolding commit_listing_status find_one_by_provider
  transition_listing id provider_id allowed data_ before s =
      transition_found (find_one_by_provider id provider_id before.listings) provider_id allowed
        data_ s

  abbrev pub publish_found : Option Listing → ℕ → Store → Store → Result Store
  publish_found none provider_id before s = err not_found
  publish_found (some listing) provider_id before s =
      if not (is_draft listing.status)
      then err conflict
      else if not (length (missing listing) == 0)
      then err (missing_fields (missing listing))
      else commit_listing_status listing provider_id (draft ∷ []) (publication listing before.now) s

  unfoldable pub publish : ℕ → ℕ → Store → Store → Result Store
  unfolding missing commit_listing_status find_one_by_provider
  publish id provider_id before s =
      publish_found (find_one_by_provider id provider_id before.listings) provider_id before s

  unfoldable pub move_to_draft : ℕ → ℕ → Store → Store → Result Store
  unfolding transition_listing
  move_to_draft id provider_id before s =
      transition_listing id provider_id (published ∷ paused ∷ [])
        (record { status = draft; published_at = none }) before s

  unfoldable pub pause : ℕ → ℕ → Store → Store → Result Store
  unfolding transition_listing
  pause id provider_id before s =
      transition_listing id provider_id (published ∷ [])
        (record { status = paused; published_at = none }) before s

  unfoldable pub resume : ℕ → ℕ → Store → Store → Result Store
  unfolding transition_listing
  resume id provider_id before s =
      transition_listing id provider_id (paused ∷ [])
        (record { status = published; published_at = none }) before s

  unfoldable pub archive : ℕ → ℕ → Store → Store → Result Store
  unfolding transition_listing
  archive id provider_id before s =
      transition_listing id provider_id (draft ∷ published ∷ paused ∷ [])
        (record { status = archived; published_at = none }) before s
