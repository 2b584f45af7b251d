-- ===== src/Applications/Curation.antt =====
-- src/applications/provider-application-curation.service.ts: a provider turns an application down and
-- takes it back.
pub mod Cooldown
use renyqo_app.Prelude.{
  ℕ, ◌+◌, Bool, true, false, not, Option, none, some, List, [], ◌∷◌, ◌&&◌, ◌||◌, ◌==◌, ltb,
  if◌then◌else◌, filter, order_by,
}
use renyqo_app.Domain.{
  ApplicationStatus, active, waiting, rejected, not_selected, Application, Listing, is_active,
  is_waiting, is_rejected, is_not_selected, is_published, provider_actor, to_both, to_applicant,
  ActivityType, restore, rejected_by_provider, restored_by_provider, ListingEventSource,
  ClosureReason,
}
use renyqo_app.Eligibility.{evaluate_profile}
use renyqo_app.Applications.Store.{
  Store, Result, ok, err, not_found, conflict, unprocessable, too_many_requests, internal_error,
  ◌>>=◌, Proposal, Activity, ListingEvent, no_metadata, append_activity, create_event,
  update_application, find_application, find_listing, find_profile,
}
use renyqo_app.Applications.Admission.{has_newer_attempt}
use renyqo_app.Applications.Assessments.{record_assessment}
use renyqo_app.Applications.Promotion.{reconcile}
use renyqo_app.Applications.Process.{provider_curation_allowed}
use renyqo_app.Applications.Closing.{Options, close}
use renyqo_app.Applications.Closing.Restore.{restore_viewings}
use renyqo_app.Applications.Lifecycle.{promote_within}

-- `orderBy: { occurredAt: 'desc' }`
abbrev pub occurs_after : ListingEvent → ListingEvent → Bool
occurs_after a b = ltb b.occurred_at a.occurred_at

abbrev pub time_of_first : List ListingEvent → Option ℕ
time_of_first [] = none
time_of_first (e ∷ _) = some e.occurred_at

-- the time of the last decision on the application; both types of event are wanted
pub last_decision : ℕ → List ListingEvent → Option ℕ
last_decision application_id events =
    time_of_first (order_by occurs_after (filter (λ e. e.application_id == application_id) events))

abbrev rejected_row : ℕ → Application → Application
rejected_row now a = record a {
  status = rejected;
  rejected_at = some now;
  public_reason = some not_selected;
}

abbrev rejection : ℕ → ℕ → ℕ → Activity
rejection application_id provider_id now = record {
  application_id = application_id;
  type = ActivityType.application_rejected;
  actor_user_id = some provider_id;
  actor_type = provider_actor;
  visibility = to_both;
  occurred_at = now;
  metadata = record no_metadata {
    from_status = some active;
    to_status = some rejected;
    reason = some not_selected;
  };
}

abbrev rejection_event : Application → ℕ → Store → ListingEvent
rejection_event a provider_id s = record {
  id = s.next_id;
  listing_id = a.listing_id;
  application_id = a.id;
  type = rejected_by_provider;
  source = ListingEventSource.provider;
  actor_user_id = some provider_id;
  reason = some not_selected;
  from_status = active;
  to_status = rejected;
  occurred_at = s.now;
}

-- The writes of `rejectWithinTransaction` once the viewings are closed.
unfoldable pub mark_rejected : Application → ℕ → Store → Store
mark_rejected a provider_id s =
    let updated = update_application a.id (rejected_row s.now) s in
    let noted = append_activity (rejection a.id provider_id s.now) updated in
    create_event (rejection_event a provider_id noted) noted

abbrev restored_row : Bool → ℕ → ℕ → Application → Application
restored_row to_active now queue_order a =
    if to_active
    then record a {
      status = active;
      active_at = some now;
      rejected_at = none;
      public_reason = none;
    }
    else record a {
      status = waiting;
      active_at = none;
      rejected_at = none;
      public_reason = none;
      queue_order = queue_order;
    }

abbrev status_after : Bool → ApplicationStatus
status_after to_active = if to_active then active else waiting

abbrev restoration : ℕ → ℕ → Bool → ℕ → Activity
restoration application_id provider_id to_active now = record {
  application_id = application_id;
  type = ActivityType.application_restored;
  actor_user_id = some provider_id;
  actor_type = provider_actor;
  visibility = if to_active then to_both else to_applicant;
  occurred_at = now;
  metadata = record no_metadata {
    from_status = some rejected;
    to_status = some (status_after to_active);
  };
}

abbrev restoration_event : Application → ℕ → Bool → Store → ListingEvent
restoration_event a provider_id to_active s = record {
  id = s.next_id;
  listing_id = a.listing_id;
  application_id = a.id;
  type = restored_by_provider;
  source = ListingEventSource.provider;
  actor_user_id = some provider_id;
  reason = some not_selected;
  from_status = rejected;
  to_status = status_after to_active;
  occurred_at = s.now;
}

-- the row of the application, with a new place in the queue where it waits again
pub put_back : Application → Bool → Store → Store
put_back a to_active s =
    let changed = update_application a.id (restored_row to_active s.now s.next_queue_order) s in
    if to_active then changed else record changed { next_queue_order = s.next_queue_order + 1 }

-- The writes of `restore` once the viewings are closed.
pub mark_restored : Application → Listing → ℕ → Bool → Store → Result Store
unfolding put_back
mark_restored a listing provider_id to_active s =
    let put = put_back a to_active s in
    let noted = append_activity (restoration a.id provider_id to_active s.now) put in
    record_assessment a.id listing (find_profile a.applicant_id s.profiles) restore
      (some provider_id) noted
    >>= λ s'. ok (create_event (restoration_event a provider_id to_active s') s')

module _ (legacy_resolution : Store → ℕ → Proposal → Proposal) where
  -- the part of `rejectWithinTransaction` that follows the reading of the application and its listing
  unfoldable pub reject_row : Application → Listing → ℕ → Bool → Store → Result Store
  unfolding mark_rejected last_decision
  reject_row a listing provider_id post_viewing_decision s =
      let options : Options = record {
        do_not_continue = post_viewing_decision;
        restore_cleanup = false;
      } in
      if not (listing.provider_id == provider_id)
      then err not_found
      else if is_waiting a.status
      then err not_found
      else if not (is_active a.status)
      then err conflict
      else if not (provider_curation_allowed (last_decision a.id s.events) s.now)
      then err too_many_requests
      else (close legacy_resolution a.id ClosureReason.application_rejected provider_actor
            (some provider_id) options s
          >>= λ s'.
              let left = mark_rejected a provider_id s' in
              if is_published listing.status
              then promote_within (find_listing a.listing_id left.listings) left
              else ok left)

  abbrev reject_listed : Application → Option Listing → ℕ → Bool → Store → Result Store
  reject_listed a none provider_id post_viewing_decision s = err not_found
  reject_listed a (some listing) provider_id post_viewing_decision s =
      reject_row a listing provider_id post_viewing_decision s

  abbrev reject_found : Option Application → ℕ → Bool → Store → Result Store
  reject_found none provider_id post_viewing_decision s = err not_found
  reject_found (some a) provider_id post_viewing_decision s =
      reject_listed a (find_listing a.listing_id s.listings) provider_id post_viewing_decision s

  -- `rejectWithinTransaction`; an application without a listing is ruled out by the foreign key
  unfoldable pub reject : ℕ → ℕ → Bool → Store → Result Store
  unfolding reject_row
  reject application_id provider_id post_viewing_decision s =
      reject_found (find_application application_id s.applications) provider_id
        post_viewing_decision s

  -- the part of `restore` that follows the reading of the application and its listing
  pub restore_row : Application → Listing → ℕ → Store → Result Store
  unfolding mark_restored last_decision
  restore_row a listing provider_id s =
      let profile = find_profile a.applicant_id s.profiles in
      if not (listing.provider_id == provider_id)
      then err not_found
      else if not (is_published listing.status)
      then err conflict
      else if not (is_rejected a.status && is_not_selected a.public_reason)
      then err conflict
      else if has_newer_attempt a s.applications
      then err conflict
      else if not (evaluate_profile listing.criteria profile s.now).can_apply
      then err unprocessable
      else if not (provider_curation_allowed (last_decision a.id s.events) s.now)
      then err too_many_requests
      else (reconcile listing s >>= λ r.
          restore_viewings legacy_resolution a.id provider_id r.store >>= λ s'.
          mark_restored a listing provider_id (ltb 0 r.remaining_capacity) s')

  abbrev restore_listed : Application → Option Listing → ℕ → Store → Result Store
  restore_listed a none provider_id s = err not_found
  restore_listed a (some listing) provider_id s = restore_row a listing provider_id s

  abbrev restore_found : Option Application → ℕ → Store → Result Store
  restore_found none provider_id s = err not_found
  restore_found (some a) provider_id s =
      restore_listed a (find_listing a.listing_id s.listings) provider_id s

  -- `restore`
  pub restore_application : ℕ → ℕ → Store → Result Store
  unfolding restore_row
  restore_application application_id provider_id s =
      restore_found (find_application application_id s.applications) provider_id s
