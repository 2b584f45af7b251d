-- ===== src/Workflows/Outcomes.antt =====
-- src/application-viewings/viewing-workflow-decision.service.ts: the outcome of a viewing and its
-- correction.
pub mod Laws
use renyqo_app.Prelude.{
  ℕ, ◌+◌, ◌*◌, Bool, true, false, not, Option, none, some, List, [], ◌∷◌, ◌++◌, ◌&&◌, ◌||◌, ◌==◌,
  leb, length, is_some, is_none, if◌then◌else◌,
}
use renyqo_app.Domain.{
  Audience, is_provider, provider_actor, ActivityType, Reason, ViewingStatus, ViewingOutcome,
  outcome_completed, outcome_no_show, AbsenceSide, applicant_absent, provider_absent, both_absent,
  InterestState, ProposalResolution,
}
use renyqo_app.Viewings.Text.{Text}
use renyqo_app.Viewings.Policy.{correction_window_ms, is_agreed, is_outcome_pending}
use renyqo_app.Applications.Store.{
  Store, Result, ok, err, ◌>>=◌, bad_request, Appointment, OutcomeRow, update_where,
}
use renyqo_app.Applications.Closing.{update_workflow, is_closed, is_unanswered, close_interests}
use renyqo_app.Workflows.Commands.{OutcomeBody, text_of}
use renyqo_app.Workflows.Access.{can_mutate}
use renyqo_app.Workflows.Rows.{changed_at, is_the}
use renyqo_app.Workflows.Consideration.{OutcomeEffect, record_effect}
use renyqo_app.Workflows.Reading.{Read, is_active_process, post_viewing_open}

abbrev pub same_outcome : ViewingOutcome → ViewingOutcome → Bool
same_outcome outcome_completed outcome_completed = true
same_outcome outcome_no_show outcome_no_show = true
same_outcome _ _ = false

abbrev pub same_absence : Option AbsenceSide → Option AbsenceSide → Bool
same_absence none none = true
same_absence (some applicant_absent) (some applicant_absent) = true
same_absence (some provider_absent) (some provider_absent) = true
same_absence (some both_absent) (some both_absent) = true
same_absence _ _ = false

abbrev pub is_correction : OutcomeBody → Bool
is_correction body = is_some body.correction_reason

-- a correction is not allowed
unfoldable pub correction_refused : Read → List OutcomeRow → OutcomeBody → ℕ → Bool
correction_refused r [] body now = true
correction_refused r (first ∷ rest) body now =
    not r.is_latest
    || (not (length (first ∷ rest) == 1)
        || (r.has_interest
            || (leb (first.recorded_at + correction_window_ms) now
                || (same_outcome first.outcome body.outcome
                    && same_absence first.absence_side body.absence_side))))

-- a first outcome is not allowed
abbrev pub first_refused : Read → Bool
first_refused r =
    not (is_agreed r.viewing.status || is_outcome_pending r.viewing.status)
    || not (length r.outcomes == 0)

-- a no-show has an absent side, and a completed viewing has none
abbrev pub absence_misplaced : ViewingOutcome → Option AbsenceSide → Bool
absence_misplaced outcome_no_show side = is_none side
absence_misplaced outcome_completed side = is_some side

abbrev pub status_of : ViewingOutcome → ViewingStatus
status_of outcome_completed = ViewingStatus.completed
status_of outcome_no_show = ViewingStatus.no_show

abbrev pub is_applicant_absent : Option AbsenceSide → Bool
is_applicant_absent (some applicant_absent) = true
is_applicant_absent _ = false

-- the appointment is the one that the workflow has confirmed
abbrev pub owns_commitment : Read → Bool
owns_commitment r = is_the r.viewing.id r.workflow.confirmed_appointment_id

unfoldable pub penalizes : Read → OutcomeBody → Bool
unfolding can_mutate
penalizes r body =
    is_active_process r
    && (r.is_latest
        && (not (is_closed r.workflow.state)
            && (not (same_outcome body.outcome outcome_completed)
                && (is_applicant_absent body.absence_side
                    && (is_correction body || (is_agreed r.viewing.status && owns_commitment r))))))

abbrev pub first_id : List OutcomeRow → Option ℕ
first_id [] = none
first_id (o ∷ _) = some o.id

abbrev pub insert_outcome : Read → OutcomeBody → Option Text → Store → Store
insert_outcome r body reason s = record s {
  next_id = s.next_id + 1;
  outcomes =
      s.outcomes
      ++ record {
        id = s.next_id;
        viewing_id = r.viewing.id;
        revision = if is_correction body then 2 else 1;
        outcome = body.outcome;
        absence_side = body.absence_side;
        correction_reason = reason;
        recorded_at = s.now;
      }
        ∷ [];
  viewings =
      update_where (λ v. v.id == r.viewing.id) (λ v. record v { status = status_of body.outcome })
        s.viewings;
}

abbrev pub closed_interest : ℕ → Appointment → Appointment
closed_interest now a = record a {
  interest_state = InterestState.closed;
  interest_closed_at = some now;
}

abbrev pub asked_interest : ℕ → Appointment → Appointment
asked_interest now a = record a {
  interest_state = InterestState.pending;
  interest_requested_at = some now;
  interest_deadline_at = some (now + 48 * 60 * 60000);
  interest_closed_at = none;
}

abbrev pub is_closed_interest : InterestState → Bool
is_closed_interest InterestState.closed = true
is_closed_interest _ = false

-- whether a completed viewing asks the applicant
unfoldable pub asks_interest : Read → Bool
unfolding can_mutate
asks_interest r =
    is_active_process r
    && (r.is_latest
        && (post_viewing_open r.workflow
            && (not (is_closed_interest r.appointment.interest_state)
                && not (is_outcome_pending r.viewing.status))))

abbrev pub update_appointment : ℕ → (Appointment → Appointment) → Store → Store
update_appointment viewing_id f s = record s {
  appointments = update_where (λ a. a.viewing_id == viewing_id) f s.appointments;
}

-- what an outcome does to the questions of the workflow
unfoldable pub settle_interest : Read → ViewingOutcome → Store → Store
unfolding asks_interest close_interests
settle_interest r outcome_completed s =
    let settled =
      if r.is_latest
      then record s {
        appointments = close_interests r.workflow.id is_unanswered s.now s.appointments;
      }
      else s in
    if asks_interest r
    then update_appointment r.viewing.id (asked_interest s.now) settled
    else update_appointment r.viewing.id (closed_interest s.now) settled
settle_interest r outcome_no_show s =
    let settled =
      if r.is_latest
      then record s {
        appointments = close_interests r.workflow.id is_unanswered s.now s.appointments;
      }
      else s in
    if is_unanswered r.appointment.interest_state
    then update_appointment r.viewing.id (closed_interest s.now) settled
    else settled

abbrev pub close_pending : Option ℕ → Store → Store
close_pending none s = s
close_pending (some id) s = record s {
  proposals =
      update_where (λ p. p.id == id)
        (λ p. record p {
          resolution = ProposalResolution.closed;
          resolved_by = some provider_actor;
          resolved_at = some s.now;
        })
        s.proposals;
}

-- the workflow after an outcome, which ends the commitment that it belongs to
unfoldable pub settle_workflow : Read → Store → Store
settle_workflow r s =
    if owns_commitment r
    then update_workflow r.workflow.id
        (λ x. record x {
          pending_proposal_id = none;
          confirmed_appointment_id = none;
          revision = x.revision + 1;
          updated_at = s.now;
        })
        (close_pending r.workflow.pending_proposal_id s)
    else update_workflow r.workflow.id
        (λ x. record x { revision = x.revision + 1; updated_at = s.now }) s

abbrev pub outcome_event : OutcomeBody → ViewingOutcome → ActivityType
outcome_event body outcome_completed =
    if is_correction body
    then ActivityType.viewing_outcome_corrected
    else ActivityType.viewing_completed
outcome_event body outcome_no_show =
    if is_correction body
    then ActivityType.viewing_outcome_corrected
    else ActivityType.viewing_no_show

-- the argument of `outcomeWithinTransaction`
abbrev pub effect_of : Read → OutcomeBody → ℕ → OutcomeEffect
unfolding penalizes
effect_of r body outcome_id = record {
  application_id = r.workflow.application_id;
  listing_id = r.application.1.id;
  outcome_id = outcome_id;
  previous_outcome_id = if is_correction body then first_id r.outcomes else none;
  penalize = penalizes r body;
}

-- the writes of the case `outcome`
unfoldable pub outcome_writes :
    Read → OutcomeBody → Option Text → Store → Result (ActivityType × Store)
unfolding record_effect settle_interest settle_workflow
outcome_writes r body reason s =
    record_effect (effect_of r body s.next_id) (insert_outcome r body reason s) >>= λ s'.
    ok (outcome_event body body.outcome, settle_workflow r (settle_interest r body.outcome s'))

-- the guard `OUTCOME_OPERATION_NOT_ALLOWED`
abbrev pub is_refused : Read → OutcomeBody → ℕ → Bool
is_refused r body now =
    if is_correction body then correction_refused r r.outcomes body now else first_refused r

-- the case `outcome`
unfoldable pub record_outcome :
    Read → Audience → OutcomeBody → Store → Result (ActivityType × Store)
unfolding correction_refused outcome_writes
record_outcome r side body s =
    if not (is_provider side)
    then changed_at r.workflow Reason.action_not_allowed_for_side
    else if not (leb r.viewing.ends_at s.now)
    then changed_at r.workflow Reason.appointment_not_ended
    else if is_refused r body s.now
    then changed_at r.workflow Reason.outcome_operation_not_allowed
    else if absence_misplaced body.outcome body.absence_side
    then err bad_request
    else (text_of body.correction_reason >>= λ reason. outcome_writes r body reason s)
