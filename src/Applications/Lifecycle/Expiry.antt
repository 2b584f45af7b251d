-- ===== src/Applications/Lifecycle/Expiry.antt =====
-- `expireViewingInterestWithinTransaction` of src/applications/application-lifecycle.service.ts: an
-- applicant who did not answer after a viewing loses the application.
use renyqo_app.Prelude.{
  ℕ, ◌+◌, Bool, true, false, not, Option, none, some, List, [], ◌∷◌, ◌&&◌, ◌||◌, ◌==◌, ltb, leb,
  if◌then◌else◌, filter, find, order_by,
}
use renyqo_app.Domain.{
  Application, Listing, active, rejected, post_viewing_response_expired, is_active, is_published,
  is_paused, system_actor, to_both, ActivityType, viewing_interest_expired, ViewingStatus,
  ClosureReason, InterestState,
}
use renyqo_app.Applications.Store.{
  Store, Result, ok, err, internal_error, ◌>>=◌, Viewing, Workflow, Proposal, Appointment, Activity,
  no_metadata, append_activity, update_where, update_application, find_application, find_listing,
}
use renyqo_app.Applications.Closing.{close, no_options, find_workflow, is_closed, is_current_mode}
use renyqo_app.Applications.Promotion.{reconcile}

abbrev pub is_completed : ViewingStatus → Bool
is_completed ViewingStatus.completed = true
is_completed _ = false

abbrev pub is_pending_interest : InterestState → Bool
is_pending_interest InterestState.pending = true
is_pending_interest _ = false

abbrev pub is_provider_closed : Option ClosureReason → Bool
is_provider_closed (some ClosureReason.provider_closed) = true
is_provider_closed _ = false

abbrev pub id_of_first : List Viewing → Option ℕ
id_of_first [] = none
id_of_first (v ∷ _) = some v.id

-- `findFirst({ where: { status: 'COMPLETED' }, orderBy: { round: 'desc' } })`
unfoldable pub latest_completed : ℕ → List Viewing → Option ℕ
latest_completed application_id rows = id_of_first (
    order_by (λ a b. ltb b.round a.round)
      (filter (λ v. v.application_id == application_id && is_completed v.status) rows))

-- the appointment of the viewing in the workflow of the application
abbrev pub find_appointment : ℕ → Option Workflow → List Appointment → Option Appointment
find_appointment appointment_id none rows = none
find_appointment appointment_id (some w) rows =
    find (λ a. a.viewing_id == appointment_id && a.workflow_id == w.id) rows

abbrev is_id : ℕ → Option ℕ → Bool
is_id id none = false
is_id id (some k) = k == id

abbrev pub is_due : ℕ → Option ℕ → Bool
is_due now none = false
is_due now (some deadline) = leb deadline now

abbrev is_visited : Option Viewing → Bool
is_visited none = false
is_visited (some v) = is_completed v.status

abbrev pub is_asked : ℕ → Option Appointment → Bool
is_asked now none = false
is_asked now (some a) = is_pending_interest a.interest_state && is_due now a.interest_deadline_at

-- the negation of the condition under which the code returns false, for a workflow that is there
unfoldable pub may_expire : Application → Listing → Workflow → ℕ → ℕ → ℕ → Store → Bool
unfolding latest_completed
may_expire app listing w appointment_id expected_revision now s =
    is_current_mode w.mode
    && ((not (is_closed w.state) || is_provider_closed w.closure_reason)
        && (w.revision == expected_revision
            && (is_id appointment_id (latest_completed app.id s.viewings)
                && (is_asked now (find_appointment appointment_id (some w) s.appointments)
                    && (is_visited (find (λ v. v.id == appointment_id) s.viewings)
                        && (is_active app.status
                            && (is_published listing.status || is_paused listing.status)))))))

abbrev expired_interest : ℕ → Appointment → Appointment
expired_interest now a = record a {
  interest_state = InterestState.expired;
  interest_closed_at = some now;
}

abbrev expiry_note : ℕ → ℕ → Workflow → ℕ → Activity
expiry_note application_id appointment_id w now = record {
  application_id = application_id;
  type = viewing_interest_expired;
  actor_user_id = none;
  actor_type = system_actor;
  visibility = to_both;
  occurred_at = now;
  metadata = record no_metadata {
    appointment_id = some appointment_id;
    workflow_id = some w.id;
    workflow_revision = some (w.revision + 1);
  };
}

abbrev rejection_note : ℕ → ℕ → Activity
rejection_note application_id now = record {
  application_id = application_id;
  type = ActivityType.application_rejected;
  actor_user_id = none;
  actor_type = system_actor;
  visibility = to_both;
  occurred_at = now;
  metadata = record no_metadata {
    from_status = some active;
    to_status = some rejected;
    reason = some post_viewing_response_expired;
  };
}

-- A closure that is historical keeps its date and reason; the revision goes on once.
abbrev advance : Workflow → ℕ → Store → Store
advance w now s =
    if is_closed w.state
    then record s {
      workflows =
          update_where (λ x. x.id == w.id && x.revision == w.revision)
            (λ x. record x { revision = x.revision + 1; updated_at = now }) s.workflows;
    }
    else s

abbrev expired_row : ℕ → Application → Application
expired_row now a = record a {
  status = rejected;
  rejected_at = some now;
  public_reason = some post_viewing_response_expired;
}

module _ (legacy_resolution : Store → ℕ → Proposal → Proposal) where
  -- the writes of the expiry
  unfoldable pub expire : Application → Listing → Workflow → ℕ → ℕ → Store → Result Store
  expire app listing w appointment_id now s =
      let asked = record s {
        appointments =
            update_where (λ a. a.viewing_id == appointment_id) (expired_interest now)
              s.appointments;
      } in
      let noted = append_activity (expiry_note app.id appointment_id w now) asked in
      do
        closed ←
            close legacy_resolution app.id ClosureReason.post_viewing_response_expired system_actor
              none no_options noted
        let advanced = advance w now closed
        let gone = update_application app.id (expired_row now) advanced
        r ← reconcile listing (append_activity (rejection_note app.id now) gone)
        ok r.store

  abbrev pub expire_with :
      Application → Listing → Option Workflow → ℕ → ℕ → ℕ → Store → Result (Bool × Store)
  expire_with app listing none appointment_id expected_revision now s = ok (false, s)
  expire_with app listing (some w) appointment_id expected_revision now s =
      if not (may_expire app listing w appointment_id expected_revision now s)
      then ok (false, s)
      else (expire app listing w appointment_id now s >>= λ s'. ok (true, s'))

  -- an application without a listing is ruled out by the foreign key
  abbrev expire_listed : Application → Option Listing → ℕ → ℕ → ℕ → Store → Result (Bool × Store)
  expire_listed app none appointment_id expected_revision now s = err internal_error
  expire_listed app (some listing) appointment_id expected_revision now s =
      expire_with app listing (find_workflow app.id s.workflows) appointment_id expected_revision
        now s

  abbrev expire_found : Option Application → ℕ → ℕ → ℕ → Store → Result (Bool × Store)
  expire_found none appointment_id expected_revision now s = err internal_error
  expire_found (some app) appointment_id expected_revision now s =
      expire_listed app (find_listing app.listing_id s.listings) appointment_id expected_revision
        now s

  -- `expireViewingInterestWithinTransaction`
  unfoldable pub expire_viewing_interest : ℕ → ℕ → ℕ → ℕ → Store → Result (Bool × Store)
  unfolding expire may_expire
  expire_viewing_interest application_id appointment_id expected_revision now s =
      expire_found (find_application application_id s.applications) appointment_id expected_revision
        now s
