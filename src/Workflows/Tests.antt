-- ===== src/Workflows/Tests.antt =====
-- A workflow at concrete times: the applicant of an active application accepts the invitation of the
-- provider.
mod Steps
mod Outcomes
use renyqo_app.Prelude.{
  sym, ap, subst, ℕ, ◌+◌, ◌≡◌, refl, true, false, Option, none, some, List, [], ◌∷◌, length, All,
  arith, order_by,
}
use renyqo_app.Domain.{
  Application, Listing, active, published, provider_side, applicant_side, ProposalTiming,
  ProposalResolution, WorkflowMode, WorkflowState, Consideration, ViewingStatus, InterestState,
  outcome_no_show, applicant_absent, ActivityType, viewing_proposed,
}
use renyqo_app.Applications.Store.{
  Store, Result, ok, err, Error, Viewing, Workflow, Proposal, CommandResult, CommandOutcome,
  success, ConsiderationPosition, find_application, find_listing, update_where,
}
use renyqo_app.Viewings.Text.{text}
use renyqo_app.Applications.Closing.{find_workflow, close_interests}
use renyqo_app.Applications.Process.{application_process_allows_mutation}
use renyqo_app.Applications.Lifecycle.Expiry.{latest_completed}
use renyqo_app.Workflows.Commands.{Schedule, Intent, Digested, OutcomeBody}
use renyqo_app.Workflows.Access.{lock, authorize, may_see, can_mutate}
use renyqo_app.Workflows.Rows.{load, load_row, pending, appointment, bump}
use renyqo_app.Workflows.Rows.Writes.{resolve, cancel_appointment, cancel_writes}
use renyqo_app.Workflows.Step.{Step}
use renyqo_app.Workflows.Answers.{decide, accept_writes, cancel}
use renyqo_app.Workflows.Apply.{act, apply}
use renyqo_app.Workflows.Apply.Moves.{IsMarked, is_present}
use renyqo_app.Workflows.Consideration.{record_effect, penalize, correct_effect}
use renyqo_app.Workflows.Consideration.Laws.{missed, corrects, position_of, record_effect_restores}
use renyqo_app.Workflows.Reading.{Read}
use renyqo_app.Workflows.Outcomes.{
  record_outcome, correction_refused, outcome_writes, penalizes, settle_interest, settle_workflow,
  asks_interest,
}
use renyqo_app.Workflows.Outcomes.Laws.{IsRecorded, record_outcome-IsRecorded}
use renyqo_app.Workflows.Apply.Laws.{
  IsCurrent, IsNext, apply-IsNext, Sent, apply_all, apply_all_lem,
}
use renyqo_app.Workflows.Apply.Allowed.{IsAllowed, act-IsAllowed}
use renyqo_app.Workflows.Expiry.{expire_interest, expire_proposal, is_overdue}
use renyqo_app.Workflows.Expiry.Laws.{IsExpired, expire_proposal_once}
use renyqo_app.Workflows.Requests.{Request, find_receipt, is_inactive}
use renyqo_app.Workflows.Execute.{transact, run, go_on, dispatch, negotiate, execute}
use renyqo_app.Workflows.Execute.Laws.{transact_again}

abbrev flat : Listing
flat = record {
  id = 7;
  provider_id = 70;
  status = published;
  published_at = some 1;
  rented_at = none;
  is_given = λ field. true;
  criteria = record {
    minimum_household_net_income = none;
    suitable_for_people_count = none;
    pets_policy = none;
    smoking_policy = none;
    schufa_required = false;
    income_proof_required = false;
  };
}

abbrev applied : Application
applied = record {
  id = 1;
  listing_id = 7;
  applicant_id = 11;
  status = active;
  queue_order = 5;
  rejected_at = none;
  public_reason = none;
  active_at = some 20;
  withdrawn_at = none;
  created_at = 10;
}

abbrev invitation : Proposal
invitation = record {
  id = 30;
  workflow_id = 20;
  round = 1;
  proposer_side = provider_side;
  responder_side = applicant_side;
  starts_at = 100000000;
  ends_at = 101800000;
  time_zone = 1;
  message = none;
  predecessor_proposal_id = none;
  base_appointment_id = none;
  timing = ProposalTiming.normal;
  response_deadline_at = some 43201000;
  request_key = 90;
  request_hash = 91;
  created_at = 1000;
  resolution = ProposalResolution.pending;
  resolved_at = none;
  resolved_by = none;
}

abbrev arranging : Workflow
arranging = record {
  id = 20;
  application_id = 1;
  mode = WorkflowMode.current;
  revision = 1;
  state = WorkflowState.open_state;
  closure_reason = none;
  closed_at = none;
  pending_proposal_id = some 30;
  confirmed_appointment_id = none;
  provider_consideration = Consideration.undecided;
  consideration_decided_at = none;
  updated_at = 1000;
}

abbrev before : Store
before = record {
  now = 2000;
  next_id = 100;
  next_queue_order = 9;
  next_position = 5;
  applications = applied ∷ [];
  listings = flat ∷ [];
  profiles = [];
  activities = [];
  events = [];
  revisions = [];
  assessments = [];
  viewings = [];
  workflows = arranging ∷ [];
  proposals = invitation ∷ [];
  appointments = [];
  outcomes = [];
  interests = [];
  positions = record { application_id = 1; listing_id = 7; position = 2; revision = 0 } ∷ [];
  consequences = [];
  receipts = [];
}

abbrev value_or {ℓ} : {A : Type ℓ} → A → Result A → A
value_or d (ok a) = a
value_or d (err e) = d

abbrev schedule_hash : Schedule → ℕ
schedule_hash body = body.starts_at

abbrev unresolved : Store → ℕ → Proposal → Proposal
unresolved s id p = p

abbrev imported : ℕ → Store → Option Store
imported id s = some s

imported_keeps : (id : ℕ) (s t : Store) → imported id s ≡ some t → t.receipts ≡ s.receipts
imported_keeps id s t h = ground arith

abbrev acceptance : Request
acceptance = record {
  application_id = 1;
  user_id = 11;
  side = applicant_side;
  command = record { request_key = 95; expected_workflow_revision = 1; intent = Intent.accept 30 };
  request_hash = 96;
}

abbrev no_result : CommandResult
no_result = record {
  application_id = 0;
  workflow_id = none;
  workflow_revision = 0;
  proposal_id = none;
  appointment_id = none;
}

abbrev accepted : CommandOutcome × Store
accepted =
    value_or (success no_result, before)
      (transact schedule_hash unresolved imported acceptance before)

-- The appointment has the id of the proposal, the workflow its next revision, and the applicant may
-- still see the application.
accepted_ok :
    (transact schedule_hash unresolved imported acceptance before ≡ ok accepted)
    × (accepted.0
        ≡ success (record {
          application_id = 1;
          workflow_id = some 20;
          workflow_revision = 2;
          proposal_id = some 30;
          appointment_id = some 30;
        }))
    × (lock 1 11 applicant_side accepted.1 ≡ ok (applied, flat))
unfolding transact lock authorize may_see find_receipt run go_on dispatch negotiate is_inactive
    can_mutate load find_workflow expire_interest latest_completed expire_proposal is_overdue
    pending apply act decide accept_writes resolve bump application_process_allows_mutation
    update_where order_by find_application find_listing
accepted_ok = (refl, refl, refl)

transact_again_example :
    transact schedule_hash unresolved imported acceptance accepted.1 ≡ ok (accepted.0, accepted.1)
transact_again_example =
    transact_again schedule_hash unresolved imported imported_keeps acceptance before accepted.0
      accepted.1 (applied, flat) accepted_ok.0 accepted_ok.2

-- The response deadline is over.
abbrev late : Store
late = record before { now = 50000000 }

abbrev request_digest : Digested → ℕ
request_digest d = d.expected_workflow_revision

abbrev refused : Result CommandResult × Store
refused =
    execute schedule_hash unresolved imported request_digest 1 11 applicant_side acceptance.command
      late

abbrev thrown : Result CommandResult → Error
thrown (err e) = e
thrown (ok r) = Error.conflict
