-- ===== src/Applications/Closing.antt =====
-- src/applications/viewing-lifecycle.service.ts: what the end of an application closes of its viewings.
-- `legacy_resolution` stands for the SQL function `legacy_viewing_proposal_rows` of the migrations.
pub mod Laws
pub mod OfListing
pub mod Restore
use renyqo_app.Prelude.{
  ℕ, ◌+◌, ◌*◌, Bool, true, false, not, Option, none, some, List, [], ◌∷◌, ◌++◌, ◌&&◌, ◌==◌, leb,
  if◌then◌else◌, filter, find, length, is_some, any, order_by,
}
use renyqo_app.Domain.{
  Application, ActorType, provider_actor, to_both, to_applicant, viewing_workflow_closed,
  ViewingStatus, outcome_pending, cancelled, WorkflowMode, WorkflowState, ClosureReason,
  ProposalResolution, InterestState, Consideration, application_ended,
}
use renyqo_app.Applications.Store.{
  Store, Result, ok, err, internal_error, ◌>>=◌, Viewing, Workflow, Proposal, Appointment, Activity,
  no_metadata, append_activity, update_where, find_application,
}

abbrev pub is_open_offer : ViewingStatus → Bool
is_open_offer ViewingStatus.proposed = true
is_open_offer ViewingStatus.accepted = true
is_open_offer _ = false

abbrev is_accepted_visit : ViewingStatus → Bool
is_accepted_visit ViewingStatus.accepted = true
is_accepted_visit _ = false

abbrev is_proposed_visit : ViewingStatus → Bool
is_proposed_visit ViewingStatus.proposed = true
is_proposed_visit _ = false

abbrev pub is_closed : WorkflowState → Bool
is_closed WorkflowState.closed_state = true
is_closed _ = false

abbrev pub is_current_mode : WorkflowMode → Bool
is_current_mode WorkflowMode.current = true
is_current_mode _ = false

-- PENDING and LEGACY_UNANSWERED
abbrev pub is_unanswered : InterestState → Bool
is_unanswered InterestState.pending = true
is_unanswered InterestState.legacy_unanswered = true
is_unanswered _ = false

-- PENDING, LEGACY_UNANSWERED and NOT_REQUESTED
abbrev pub is_without_answer : InterestState → Bool
is_without_answer InterestState.not_requested = true
is_without_answer state = is_unanswered state

abbrev pub is_pending_proposal : ProposalResolution → Bool
is_pending_proposal ProposalResolution.pending = true
is_pending_proposal _ = false

unfoldable pub find_workflow : ℕ → List Workflow → Option Workflow
find_workflow application_id rows = find (λ w. w.application_id == application_id) rows

-- the viewings of the application that are proposed or accepted
unfoldable pub live_viewings : ℕ → List Viewing → List Viewing
live_viewings application_id rows =
    filter (λ v. v.application_id == application_id && is_open_offer v.status) rows

abbrev closed_interest : ℕ → Appointment → Appointment
closed_interest now a = record a {
  interest_state = InterestState.closed;
  interest_closed_at = some now;
}

-- `updateMany` of the appointments of a workflow whose interest passes the test
unfoldable pub close_interests :
    ℕ → (InterestState → Bool) → ℕ → List Appointment → List Appointment
close_interests workflow_id test now rows =
    update_where (λ a. a.workflow_id == workflow_id && test a.interest_state) (closed_interest now)
      rows

abbrev pub update_workflow : ℕ → (Workflow → Workflow) → Store → Store
update_workflow id f s = record s { workflows = update_where (λ w. w.id == id) f s.workflows }

-- A closure that is historical: only decisions that are still open are closed.
unfoldable pub close_again : Workflow → Store → Store
unfolding close_interests
close_again w s =
    let ended = any (λ a. a.workflow_id == w.id && is_unanswered a.interest_state) s.appointments in
    let s' = record s { appointments = close_interests w.id is_unanswered s.now s.appointments } in
    if ended
    then update_workflow w.id (λ w. record w { revision = w.revision + 1; updated_at = s.now }) s'
    else s'

-- the workflow that records the closure of a legacy history
abbrev pub legacy_workflow : ℕ → ℕ → Workflow
legacy_workflow application_id now = record {
  id = application_id;
  application_id = application_id;
  mode = WorkflowMode.legacy;
  revision = 0;
  state = WorkflowState.open_state;
  closure_reason = none;
  closed_at = none;
  pending_proposal_id = none;
  confirmed_appointment_id = none;
  provider_consideration = Consideration.undecided;
  consideration_decided_at = none;
  updated_at = now;
}

-- `row.status === 'ACCEPTED' && row.startsAt <= now`
abbrev pub has_started : Viewing → ℕ → Bool
has_started row now = is_accepted_visit row.status && leb row.starts_at now

-- one round of the loop over the live viewings
unfoldable pub end_viewing : ActorType → Viewing → Store → Store
end_viewing actor row s =
    let started = has_started row s.now in
    let ended : Viewing → Viewing = λ v.
      if started
      then record v { status = outcome_pending }
      else record v { status = cancelled; cancelled_at = some s.now } in
    let s' = record s { viewings = update_where (λ v. v.id == row.id) ended s.viewings } in
    if not started && is_accepted_visit row.status
    then record s' {
      appointments =
          update_where (λ a. a.viewing_id == row.id)
            (λ a. record a {
              cancelled_by = some actor;
              cancellation_reason = some application_ended;
              late_cancellation = some (leb row.starts_at (s.now + 6 * 60 * 60000));
            })
            s'.appointments;
    }
    else s'

unfoldable pub end_viewings : ActorType → List Viewing → Store → Store
unfolding end_viewing
end_viewings actor [] s = s
end_viewings actor (row ∷ rows) s = end_viewings actor rows (end_viewing actor row s)

-- the options of `closeWithinTransaction`
pub record Options : Type 0 where
  pub do_not_continue : Bool
  pub restore_cleanup : Bool

abbrev pub no_options : Options
no_options = record { do_not_continue = false; restore_cleanup = false }

-- the update of the workflow at the end of the closure; `w` is the row that was read before
unfoldable pub closed_workflow : Workflow → ClosureReason → Options → ℕ → Workflow → Workflow
closed_workflow w reason options now x =
    let decided : Workflow =
      if options.do_not_continue
      then record x {
        provider_consideration = Consideration.do_not_continue;
        consideration_decided_at = some now;
      }
      else x in
    let dated : Workflow =
      if is_closed w.state
      then decided
      else record decided { closed_at = some now; closure_reason = some reason } in
    record dated {
      state = WorkflowState.closed_state;
      pending_proposal_id = none;
      confirmed_appointment_id = none;
      revision = x.revision + 1;
      updated_at = now;
    }

abbrev or_else {ℓ} : {A : Type ℓ} → Option A → Option A → Option A
or_else none b = b
or_else (some a) b = some a

abbrev id_of : Option Viewing → Option ℕ
id_of none = none
id_of (some v) = some v.id

-- the activity at the end of the closure
unfoldable pub closure_activity :
    Application
    → Workflow
    → List Viewing
    → ClosureReason
    → ActorType
    → Option ℕ
    → Options
    → ℕ
    → Activity
closure_activity a w rows reason actor actor_user_id options now = record {
  application_id = a.id;
  type = viewing_workflow_closed;
  actor_user_id = actor_user_id;
  actor_type = actor;
  visibility = if is_some a.active_at then to_both else to_applicant;
  occurred_at = now;
  metadata = record no_metadata {
    workflow_id = some w.id;
    workflow_revision = some (w.revision + 1);
    proposal_id =
        if is_current_mode w.mode
        then w.pending_proposal_id
        else id_of (find (λ v. is_proposed_visit v.status) rows);
    appointment_id = id_of (find (λ v. is_accepted_visit v.status) rows);
    viewing_closure_reason =
        if is_closed w.state then or_else w.closure_reason (some reason) else some reason;
    restore_cleanup = options.restore_cleanup;
  };
}

module _ (legacy_resolution : Store → ℕ → Proposal → Proposal) where
  -- the proposals of the workflow after the closure, pending ones closed or legacy ones resolved
  abbrev pub resolve_current : Workflow → ActorType → Store → Store
  resolve_current w actor s =
      if is_current_mode w.mode
      then record s {
        proposals =
            update_where (λ p. p.workflow_id == w.id && is_pending_proposal p.resolution)
              (λ p. record p {
                resolution = ProposalResolution.closed;
                resolved_at = some s.now;
                resolved_by = some actor;
              })
              s.proposals;
      }
      else s

  abbrev pub resolve_legacy : Workflow → Store → Store
  resolve_legacy w s = if is_current_mode w.mode then s else record s {
    proposals =
        update_where (λ p. p.workflow_id == w.id) (legacy_resolution s w.application_id)
          s.proposals;
  }

  -- The closure of a workflow, with the live viewings of its application.
  unfoldable pub close_workflow :
      Application
      → Workflow
      → List Viewing
      → ClosureReason
      → ActorType
      → Option ℕ
      → Options
      → Store
      → Store
  unfolding end_viewings close_interests closed_workflow closure_activity
  close_workflow a w rows reason actor actor_user_id options s =
      let resolved = resolve_legacy w (end_viewings actor rows (resolve_current w actor s)) in
      let asked = record resolved {
        appointments = close_interests w.id is_without_answer s.now resolved.appointments;
      } in
      let closed = update_workflow w.id (closed_workflow w reason options s.now) asked in
      append_activity (closure_activity a w rows reason actor actor_user_id options s.now) closed

  -- what follows the reading of the application, its workflow and its live viewings
  unfoldable pub close_read :
      Application
      → Option Workflow
      → List Viewing
      → ClosureReason
      → ActorType
      → Option ℕ
      → Options
      → Store
      → Store
  unfolding close_workflow close_again
  close_read a (some w) rows reason actor actor_user_id options s =
      if is_closed w.state && length rows == 0
      then close_again w s
      else close_workflow a w rows reason actor actor_user_id options s
  close_read a none rows reason actor actor_user_id options s =
      let w = legacy_workflow a.id s.now in
      if any (λ v. v.application_id == a.id) s.viewings
      then close_workflow a w rows reason actor actor_user_id options
          (record s { workflows = s.workflows ++ w ∷ [] })
      else s

  -- what follows the reading of the application
  abbrev pub close_found :
      Option Application → ClosureReason → ActorType → Option ℕ → Options → Store → Result Store
  close_found none reason actor actor_user_id options s = err internal_error
  close_found (some a) reason actor actor_user_id options s = ok (
      close_read a (find_workflow a.id s.workflows) (live_viewings a.id s.viewings) reason actor
        actor_user_id options s)

  -- `closeWithinTransaction`
  unfoldable pub close : ℕ → ClosureReason → ActorType → Option ℕ → Options → Store → Result Store
  unfolding close_read find_workflow live_viewings
  close application_id reason actor actor_user_id options s =
      close_found (find_application application_id s.applications) reason actor actor_user_id
        options s
