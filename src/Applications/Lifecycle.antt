-- ===== src/Applications/Lifecycle.antt =====
-- src/applications/application-lifecycle.service.ts: an application is submitted, withdrawn, expired
-- and revalidated; what gets free goes to those who wait.
pub mod Laws
pub mod Expiry
pub mod Revalidation
use renyqo_app.Prelude.{
  ℕ, ◌+◌, ◌*◌, Bool, true, false, not, Option, none, some, List, [], ◌∷◌, ◌++◌, ◌&&◌, ◌||◌, ◌==◌,
  ltb, leb, if◌then◌else◌, filter, find, any, max, order_by,
}
use renyqo_app.Domain.{
  ApplicationStatus, active, waiting, rejected, withdrawn, post_viewing_response_expired,
  profile_no_longer_eligible, Application, Listing, is_active, is_waiting, is_withdrawn,
  is_published, is_paused, system_actor, applicant_actor, to_both, to_applicant, ActivityType,
  application_created, profile_changed, ViewingStatus, WorkflowMode, WorkflowState, ClosureReason,
  InterestState,
}
use renyqo_app.Eligibility.{ApplicantEligibilityFacts, evaluate_profile}
use renyqo_app.Applications.Store.{
  Store, Result, ok, err, not_found, conflict, unprocessable, internal_error, ◌>>=◌, Viewing,
  Workflow, Proposal, Appointment, Activity, no_metadata, append_activity, update_where,
  update_application, find_application, find_listing, find_profile,
}
use renyqo_app.Applications.Admission.{AdmissionHistory, evaluate, history_for_listing}
use renyqo_app.Applications.Assessments.{record_assessment}
use renyqo_app.Applications.Promotion.{reconcile}
use renyqo_app.Applications.Process.{application_can_withdraw}
use renyqo_app.Applications.Closing.{
  close, no_options, find_workflow, is_closed, is_current_mode, update_workflow,
}

-- `history.reduce(…, Date.now())`: the new application is the newest of its history
pub submission_time : ℕ → List AdmissionHistory → ℕ
submission_time now [] = now
submission_time now (row ∷ rows) = submission_time (max now (row.created_at + 1)) rows

-- the partial unique index on listing and applicant, for applications that are active or waiting
pub has_current : ℕ → ℕ → List Application → Bool
has_current listing_id applicant_id rows =
    any
      (λ a.
        a.listing_id == listing_id
        && (a.applicant_id == applicant_id && (is_active a.status || is_waiting a.status)))
      rows

-- the row that `apply` creates
pub new_application : ℕ → ℕ → Bool → ℕ → Store → Application
new_application listing_id applicant_id is_active_now now s = record {
  id = s.next_id;
  listing_id = listing_id;
  applicant_id = applicant_id;
  status = if is_active_now then active else waiting;
  queue_order = s.next_queue_order;
  rejected_at = none;
  public_reason = none;
  active_at = if is_active_now then some now else none;
  withdrawn_at = none;
  created_at = now;
}

abbrev insert_application : Application → Store → Store
insert_application a s = record s {
  applications = s.applications ++ a ∷ [];
  next_id = s.next_id + 1;
  next_queue_order = s.next_queue_order + 1;
}

abbrev submitted : Application → ℕ → Activity
submitted a applicant_id = record {
  application_id = a.id;
  type = ActivityType.application_submitted;
  actor_user_id = some applicant_id;
  actor_type = applicant_actor;
  visibility = if is_active a.status then to_both else to_applicant;
  occurred_at = a.created_at;
  metadata = record no_metadata { initial_status = some a.status };
}

-- the creation of the application, once the free places are known
pub submit :
    Listing → ℕ → Option ApplicantEligibilityFacts → ℕ → Bool → Store → Result (Application × Store)
unfolding new_application has_current
submit listing applicant_id profile now is_active_now s =
    let a = new_application listing.id applicant_id is_active_now now s in
    let created = append_activity (submitted a applicant_id) (insert_application a s) in
    if has_current listing.id applicant_id s.applications
    then err conflict
    else (record_assessment a.id listing profile application_created (some applicant_id) created
        >>= λ s'. ok (a, s'))

-- the part of `apply` that follows the reading of the listing
unfoldable pub apply_to : Listing → ℕ → Store → Result (Application × Store)
unfolding submit submission_time
apply_to listing applicant_id s =
    let history = history_for_listing applicant_id listing.id s in
    let admission = evaluate history listing.status true s.now in
    let profile = find_profile applicant_id s.profiles in
    if not (is_published listing.status)
    then err unprocessable
    else if not admission.can_submit_application
    then err conflict
    else if not (evaluate_profile listing.criteria profile s.now).can_apply
    then err unprocessable
    else (reconcile listing s >>= λ r.
        submit listing applicant_id profile (submission_time s.now history)
          (ltb 0 r.remaining_capacity) r.store)

abbrev apply_found : Option Listing → ℕ → Store → Result (Application × Store)
apply_found none applicant_id s = err not_found
apply_found (some listing) applicant_id s = apply_to listing applicant_id s

-- `apply`
pub apply : ℕ → ℕ → Store → Result (Application × Store)
unfolding apply_to
apply listing_id applicant_id s = apply_found (find_listing listing_id s.listings) applicant_id s

-- `promoteWithinTransaction`, of a listing that was read
unfoldable pub promote_within : Option Listing → Store → Result Store
promote_within none s = ok s
promote_within (some listing) s = reconcile listing s >>= λ r. ok r.store

-- `promoteWaitingApplications`, with the number of applications that it promoted
pub promote_waiting_applications : ℕ → Store → Result (ℕ × Store)
promote_waiting_applications listing_id s = elim (find_listing listing_id s.listings) [
  | none ↦ ok (0, s)
  | some listing ↦ reconcile listing s >>= λ r. ok (r.promoted_count, r.store)
]

module _ (legacy_resolution : Store → ℕ → Proposal → Proposal) where
  abbrev withdrawn_row : ℕ → Application → Application
  withdrawn_row now a =
      if is_active a.status
      then record a { status = withdrawn; withdrawn_at = some now }
      else record a { status = withdrawn }

  abbrev withdrawal : Application → ℕ → ℕ → Activity
  withdrawal a applicant_id now = record {
    application_id = a.id;
    type = ActivityType.application_withdrawn;
    actor_user_id = some applicant_id;
    actor_type = applicant_actor;
    visibility = if is_active a.status then to_both else to_applicant;
    occurred_at = now;
    metadata = record no_metadata { from_status = some a.status; to_status = some withdrawn };
  }

  -- the part of `withdraw` that follows the reading of the application
  unfoldable pub withdraw_row : Application → ℕ → Store → Result Store
  unfolding promote_within
  withdraw_row a applicant_id s =
      if not (a.applicant_id == applicant_id)
      then err not_found
      else if is_withdrawn a.status
      then ok s
      else if not (application_can_withdraw a.status)
      then err conflict
      else (close legacy_resolution a.id ClosureReason.application_withdrawn applicant_actor
            (some applicant_id) no_options s
          >>= λ s'.
              let left =
                append_activity (withdrawal a applicant_id s.now)
                  (update_application a.id (withdrawn_row s.now) s') in
              if is_active a.status
              then promote_within (find_listing a.listing_id left.listings) left
              else ok left)

  abbrev withdraw_found : Option Application → ℕ → Store → Result Store
  withdraw_found none applicant_id s = err not_found
  withdraw_found (some a) applicant_id s = withdraw_row a applicant_id s

  -- `withdrawWithinTransaction`; what it returns is the row of the application in the new store
  unfoldable pub withdraw : ℕ → ℕ → Store → Result Store
  unfolding withdraw_row
  withdraw application_id applicant_id s =
      withdraw_found (find_application application_id s.applications) applicant_id s
