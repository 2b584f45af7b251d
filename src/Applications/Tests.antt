-- ===== src/Applications/Tests.antt =====
-- The application lifecycle at a concrete store: a published listing with one application that waits
-- and is eligible, and an older one whose applicant has no profile.
use renyqo_app.Prelude.{
  order_by, ℕ, ◌+◌, ◌-◌, ◌≤◌, ◌<◌, ◌≡◌, ◌≢◌, refl, ◌⊎◌, ◌↔◌, true, false, not, ◌&&◌, none, some, [],
  ◌∷◌, length, leb, arith, All, if◌then◌else◌,
}
use renyqo_app.Domain.{
  ViewingStatus, ClosureReason, applicant_actor, Application, Listing, active, waiting, published,
  is_published, not_selected, rejected, rejected_by_provider, provider,
}
use renyqo_app.Eligibility.{ApplicantEligibilityFacts, evaluate_profile}
use renyqo_app.Applications.Store.{
  CriteriaRevision, Viewing, find_application, Store, Result, ok, err, Proposal, ListingEvent,
  find_profile, update_where,
}
use renyqo_app.Applications.Assessments.{
  latest_revision, record_assessment, current_revision, record_with, latest_assessment,
  criteria_same,
}
use renyqo_app.Applications.Promotion.{
  Reconciled, active_applications_limit, reconcile, unchanged, count_active, is_queued, is_eligible,
  comes_before, queue_behind, promote, serve, batches,
}
use renyqo_app.Applications.Promotion.Order.{HasUniqueIds}
use renyqo_app.Applications.Promotion.Spec.{reconcile_lem, activate_all, admitted}
use renyqo_app.Applications.Promotion.Capacity.{reconcile_capacity}
use renyqo_app.Applications.Promotion.Complete.{reconcile_complete}
use renyqo_app.Applications.Admission.{evaluate, history_for_listing}
use renyqo_app.Applications.Admission.Laws.{Permits}
use renyqo_app.Applications.Lifecycle.{apply_to}
use renyqo_app.Applications.Lifecycle.Laws.{apply_to-Permits, apply_to_limit}
use renyqo_app.Applications.Process.{
  provider_application_is_visible, provider_application_visibility,
  provider_application_visibility_lem,
}
use renyqo_app.Applications.Assessments.Returns.{IsInSync}
use renyqo_app.Applications.Promotion.Returns.{reconcile_returns}
use renyqo_app.Applications.Closing.{
  close, no_options, live_viewings, find_workflow, close_read, close_workflow, end_viewings,
  end_viewing,
}
use renyqo_app.Applications.Closing.Laws.{close-live_viewings}
use renyqo_app.Applications.Curation.{reject_row, restore_row}
use renyqo_app.Applications.Curation.Cooldown.{decision_too_soon}

abbrev flat : Listing
flat = record {
  id = 7;
  provider_id = 70;
  status = published;
  published_at = some 1;
  rented_at = none;
  is_given = λ field. true;
  criteria = record {
    minimum_household_net_income = none;
    suitable_for_people_count = none;
    pets_policy = none;
    smoking_policy = none;
    schufa_required = false;
    income_proof_required = false;
  };
}

abbrev tenant : ApplicantEligibilityFacts
tenant = record {
  household_net_income = none;
  adults_count = none;
  children_count = none;
  people_count = none;
  has_pets = none;
  is_smoker = none;
  schufa_available = none;
  income_proof_available = none;
}

abbrev in_queue : ℕ → ℕ → ℕ → Application
in_queue id applicant_id queue_order = record {
  id = id;
  listing_id = 7;
  applicant_id = applicant_id;
  status = waiting;
  queue_order = queue_order;
  rejected_at = none;
  public_reason = none;
  active_at = none;
  withdrawn_at = none;
  created_at = 10;
}

abbrev before : Store
before = record {
  now = 1000;
  next_id = 100;
  next_queue_order = 9;
  next_position = 1;
  applications = in_queue 1 11 5 ∷ in_queue 2 12 3 ∷ [];
  listings = flat ∷ [];
  profiles = (11, tenant) ∷ (13, tenant) ∷ [];
  activities = [];
  events = [];
  revisions = [];
  assessments = [];
  viewings = [];
  workflows = [];
  proposals = [];
  appointments = [];
  outcomes = [];
  interests = [];
  positions = [];
  consequences = [];
  receipts = [];
}

abbrev value_or {ℓ} : {A : Type ℓ} → A → Result A → A
value_or d (ok a) = a
value_or d (err e) = d

abbrev after : Reconciled
after = value_or (unchanged before) (reconcile flat before)

-- The one who is eligible gets a place, though the other one is before in the queue.
promoted_one :
    (reconcile flat before ≡ ok after) × (after.promoted_count ≡ 1) × (after.remaining_capacity ≡ 4)
unfolding reconcile batches serve promote record_assessment current_revision record_with
    latest_assessment criteria_same queue_behind comes_before count_active is_eligible
    evaluate_profile find_profile update_where order_by
promoted_one = (refl, refl, refl)

two_ids : HasUniqueIds before.applications
two_ids = ground arith

reconcile_lem_example :
    (after.store.applications ≡ activate_all before.now (admitted flat before) before.applications)
    × (after.promoted_count ≡ length (admitted flat before))
    × (after.remaining_capacity ≡ (
        if is_published flat.status
        then active_applications_limit
          - (count_active flat.id before.applications + length (admitted flat before))
        else 0))
reconcile_lem_example = reconcile_lem flat before after two_ids promoted_one.0

reconcile_capacity_example :
    if is_published flat.status
      && not (leb active_applications_limit (count_active flat.id before.applications))
    then count_active flat.id after.store.applications + after.remaining_capacity
      ≡ active_applications_limit
    else after ≡ unchanged before
reconcile_capacity_example = reconcile_capacity flat before after two_ids promoted_one.0

places_left : 0 < after.remaining_capacity
places_left = omega (arith, promoted_one.2)

reconcile_complete_example :
    All (λ a. is_queued flat a ≡ true → is_eligible flat before a ≡ false) after.store.applications
reconcile_complete_example = reconcile_complete flat before after two_ids promoted_one.0 places_left

abbrev applied : Application × Store
applied = value_or (in_queue 0 0 0, before) (apply_to flat 13 before)

applied_active : (apply_to flat 13 before ≡ ok applied) × (applied.0.status ≡ active)
unfolding apply_to reconcile batches serve promote record_assessment current_revision record_with
    latest_assessment criteria_same queue_behind comes_before count_active is_eligible
    evaluate_profile find_profile update_where order_by evaluate history_for_listing
applied_active = (refl, refl)

none_active : count_active flat.id before.applications ≤ active_applications_limit
unfolding count_active
none_active = omega arith

apply_to_limit_example :
    (count_active flat.id applied.1.applications ≤ active_applications_limit)
    × ((applied.0.status ≡ active)
        ⊎ ((applied.0.status ≡ waiting)
            × (count_active flat.id applied.1.applications ≡ active_applications_limit)))
apply_to_limit_example =
    apply_to_limit flat 13 before applied.0 applied.1 two_ids none_active applied_active.0

apply_to-Permits_example :
    (flat.status ≡ published)
    × ((evaluate_profile flat.criteria (find_profile 13 before.profiles) before.now).can_apply
        ≡ true)
    × All (Permits before.now) (history_for_listing 13 flat.id before)
apply_to-Permits_example = apply_to-Permits flat 13 before applied.0 applied.1 applied_active.0

abbrev turned_down : Application
turned_down = record (in_queue 1 11 5) {
  status = rejected;
  rejected_at = some 1000;
  public_reason = some not_selected;
  active_at = some 20;
}

abbrev decision : ListingEvent
decision = record {
  id = 3;
  listing_id = 7;
  application_id = 1;
  type = rejected_by_provider;
  source = provider;
  actor_user_id = some 70;
  reason = some not_selected;
  from_status = active;
  to_status = rejected;
  occurred_at = 1000;
}

abbrev decided : Store
decided = record before { now = 2000; applications = turned_down ∷ []; events = decision ∷ [] }

abbrev unresolved : Store → ℕ → Proposal → Proposal
unresolved s id p = p

decision_too_soon_example :
    (reject_row unresolved turned_down flat 70 false decided ≢ ok before)
    × (restore_row unresolved turned_down flat 70 decided ≢ ok before)
decision_too_soon_example =
    decision_too_soon unresolved turned_down flat 70 1000 false decided before refl (omega arith)

provider_application_visibility_lem_example :
    (provider_application_visibility 70 (some flat) turned_down ≡ true)
    ↔ ((flat.provider_id ≡ 70) × (provider_application_is_visible turned_down ≡ true))
provider_application_visibility_lem_example =
    provider_application_visibility_lem 70 flat turned_down

abbrev invitation : Viewing
invitation = record {
  id = 40;
  application_id = 1;
  round = 1;
  status = ViewingStatus.proposed;
  starts_at = 90000;
  ends_at = 990000;
  time_zone = 1;
  provider_note = none;
  accepted_at = none;
  declined_at = none;
  cancelled_at = none;
  superseded_at = none;
  request_key = 90;
  request_hash = 91;
}

abbrev invited : Store
invited = record before { viewings = invitation ∷ [] }

abbrev closed : Store
closed = value_or before (
    close unresolved 1 ClosureReason.application_withdrawn applicant_actor (some 11) no_options
      invited)

closed_ok :
    close unresolved 1 ClosureReason.application_withdrawn applicant_actor
      (some 11)
      no_options
      invited
    ≡ ok closed
unfolding close find_application find_workflow live_viewings close_read close_workflow end_viewings
    end_viewing update_where
closed_ok = refl

close-live_viewings_example : live_viewings 1 closed.viewings ≡ []
close-live_viewings_example =
    close-live_viewings unresolved 1 ClosureReason.application_withdrawn applicant_actor (some 11)
      no_options invited closed closed_ok

abbrev first_revision : CriteriaRevision
first_revision = record { id = 50; listing_id = 7; revision = 1; criteria = flat.criteria }

abbrev synced : Store
synced = record before { revisions = first_revision ∷ [] }

in_sync : IsInSync flat first_revision synced.revisions
unfolding latest_revision criteria_same
in_sync = record { latest = refl; same = refl }

reconcile_returns_example : (after : Reconciled) × (reconcile flat synced ≡ ok after)
reconcile_returns_example = reconcile_returns flat first_revision synced two_ids in_sync
