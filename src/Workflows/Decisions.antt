-- ===== src/Workflows/Decisions.antt =====
-- src/application-viewings/viewing-workflow-decision.service.ts: the answer of the applicant after a
-- viewing, the decision of the provider, and the end of every decision.
pub mod Frame
use renyqo_app.Prelude.{
  ℕ, ◌+◌, Bool, true, false, not, Option, none, some, [], ◌∷◌, ◌++◌, ◌&&◌, ◌||◌, ◌==◌, leb, find,
  any, length, if◌then◌else◌,
}
use renyqo_app.Domain.{
  Audience, is_provider, to_both, ActivityType, Reason, Interest, answered_interested,
  answered_not_interested, Consideration, InterestState,
}
use renyqo_app.Viewings.Policy.{is_completed}
use renyqo_app.Applications.Store.{
  Store, Result, ok, err, ◌>>=◌, bad_request, internal_error, CommandResult, Viewing, Workflow,
  Proposal, Appointment, Activity, no_metadata, append_activity, update_where,
}
use renyqo_app.Applications.Closing.{find_workflow, update_workflow}
use renyqo_app.Applications.Lifecycle.{withdraw}
use renyqo_app.Applications.Lifecycle.Expiry.{latest_completed}
use renyqo_app.Applications.Curation.{reject}
use renyqo_app.Workflows.Commands.{Intent}
use renyqo_app.Workflows.Access.{ViewingApplication, can_mutate}
use renyqo_app.Workflows.Rows.{actor_of, changed_at, is_the}
use renyqo_app.Workflows.Reading.{
  Read, read_rows, is_active_process, latest_accepted, outcomes_of, post_viewing_open,
}
use renyqo_app.Workflows.Outcomes.{is_closed_interest, record_outcome}

abbrev pub is_asking : InterestState → Option ℕ → ℕ → Bool
is_asking InterestState.legacy_unanswered deadline now = true
is_asking InterestState.pending none now = false
is_asking InterestState.pending (some deadline) now = not (leb deadline now)
is_asking _ deadline now = false

abbrev pub is_not_interested : Interest → Bool
is_not_interested answered_not_interested = true
is_not_interested answered_interested = false

abbrev pub answer_state : Interest → InterestState
answer_state answered_not_interested = InterestState.not_interested
answer_state answered_interested = InterestState.still_interested

abbrev pub insert_interest : Read → Interest → Store → Store
insert_interest r answer s = record s {
  interests =
      s.interests
      ++ record { viewing_id = r.viewing.id; interest = answer; responded_at = s.now } ∷ [];
  appointments =
      update_where (λ a. a.viewing_id == r.viewing.id)
        (λ a. record a { interest_state = answer_state answer }) s.appointments;
}

-- the guard `INTEREST_RESPONSE_UNAVAILABLE`
abbrev pub cannot_answer : Read → ℕ → Bool
cannot_answer r now =
    not (post_viewing_open r.workflow)
    || (not (is_completed r.viewing.status)
        || not (is_asking r.appointment.interest_state r.appointment.interest_deadline_at now))

abbrev pub decided_consideration : Intent → Option Consideration
decided_consideration (Intent.consideration _ c) = some c
decided_consideration _ = none

abbrev pub decided_outcome : Read → Intent → Option ℕ
decided_outcome r (Intent.outcome _ _) = some (length r.outcomes + 1)
decided_outcome r _ = none

abbrev pub decision_note : Read → ℕ → Audience → Intent → ActivityType → ℕ → ℕ → Activity
decision_note r user_id side intent type revision now = record {
  application_id = r.workflow.application_id;
  type = type;
  actor_user_id = some user_id;
  actor_type = actor_of side;
  visibility = to_both;
  occurred_at = now;
  metadata = record no_metadata {
    workflow_id = some r.workflow.id;
    workflow_revision = some revision;
    appointment_id = some r.viewing.id;
    viewing_id = some r.viewing.id;
    provider_consideration = decided_consideration intent;
    outcome_revision = decided_outcome r intent;
  };
}

abbrev pub decision_result : Read → ℕ → CommandResult
decision_result r revision = record {
  application_id = r.workflow.application_id;
  workflow_id = some r.workflow.id;
  workflow_revision = revision;
  proposal_id = none;
  appointment_id = some r.viewing.id;
}

-- the end of `apply`, with the row of the workflow as it is now
abbrev pub conclude :
    Read
    → ℕ
    → Audience
    → Intent
    → ActivityType × Store
    → Option Workflow
    → Result (CommandResult × Store)
conclude r user_id side intent e none = err internal_error
conclude r user_id side intent (type, s) (some current) = ok (
  decision_result r current.revision,
  append_activity (decision_note r user_id side intent type current.revision s.now) s,
)

abbrev pub is_outcome : Intent → Bool
is_outcome (Intent.outcome _ _) = true
is_outcome _ = false

module _ (legacy_resolution : Store → ℕ → Proposal → Proposal) where
  -- A refusal withdraws the application, which ends the workflow; an interest goes on with it.
  unfoldable pub interest_writes : Read → ℕ → Interest → Store → Result (ActivityType × Store)
  interest_writes r user_id answered_not_interested s =
      withdraw legacy_resolution r.workflow.application_id user_id
        (insert_interest r answered_not_interested s)
      >>= λ s'. ok (ActivityType.viewing_interest_declined, s')
  interest_writes r user_id answered_interested s = ok (
    ActivityType.viewing_interest_confirmed,
    update_workflow r.workflow.id (λ x. record x { revision = x.revision + 1; updated_at = s.now })
        (insert_interest r answered_interested s),
  )

  -- the case `interest`
  unfoldable pub answer_interest :
      Read → ℕ → Audience → Interest → Bool → Store → Result (ActivityType × Store)
  unfolding interest_writes can_mutate
  answer_interest r user_id side answer confirm_withdrawal s =
      if is_provider side || not (is_active_process r)
      then changed_at r.workflow Reason.application_process_inactive
      else if cannot_answer r s.now
      then changed_at r.workflow Reason.interest_response_unavailable
      else if is_not_interested answer && not confirm_withdrawal
      then err bad_request
      else interest_writes r user_id answer s

  abbrev pub keep_considering : Read → Consideration → Store → Store
  keep_considering r c s =
      update_workflow r.workflow.id
        (λ x. record x {
          provider_consideration = c;
          consideration_decided_at = some s.now;
          revision = x.revision + 1;
          updated_at = s.now;
        })
        s

  -- A decision not to go on rejects the application, which ends the workflow.
  unfoldable pub consideration_writes : Read → ℕ → Consideration → Store → Result Store
  consideration_writes r user_id Consideration.do_not_continue s =
      reject legacy_resolution r.workflow.application_id user_id true s
  consideration_writes r user_id c s = ok (keep_considering r c s)

  -- the case `consideration`
  unfoldable pub decide_consideration :
      Read → ℕ → Audience → Consideration → Store → Result (ActivityType × Store)
  unfolding consideration_writes can_mutate
  decide_consideration r user_id side c s =
      if not (is_provider side) || not (is_active_process r)
      then changed_at r.workflow Reason.application_process_inactive
      else if not (is_completed r.viewing.status)
      then changed_at r.workflow Reason.consideration_requires_completed_viewing
      else if not (post_viewing_open r.workflow) || is_closed_interest r.appointment.interest_state
      then changed_at r.workflow Reason.post_viewing_decision_closed
      else (consideration_writes r user_id c s >>= λ s'.
          ok (ActivityType.viewing_consideration_changed, s'))

  -- the switch of `apply`; the other actions do not come here
  unfoldable pub decide : Read → ℕ → Audience → Intent → Store → Result (ActivityType × Store)
  unfolding record_outcome answer_interest decide_consideration
  decide r user_id side (Intent.outcome _ body) s = record_outcome r side body s
  decide r user_id side (Intent.interest _ answer confirmed) s =
      answer_interest r user_id side answer confirmed s
  decide r user_id side (Intent.consideration _ c) s = decide_consideration r user_id side c s
  decide r user_id side _ s = err bad_request

  -- what follows the reading of the rows
  unfoldable pub apply_read : Read → ℕ → Audience → Intent → Store → Result (CommandResult × Store)
  unfolding decide latest_completed
  apply_read r user_id side intent s =
      if not (is_outcome intent)
        && not (is_the r.viewing.id (latest_completed r.workflow.application_id s.viewings))
      then changed_at r.workflow Reason.appointment_is_not_current
      else (decide r user_id side intent s >>= λ e.
          conclude r user_id side intent e (find (λ x. x.id == r.workflow.id) e.1.workflows))

  abbrev pub apply_visit :
      Workflow
      → ViewingApplication
      → Appointment
      → Option Viewing
      → ℕ
      → Audience
      → Intent
      → Store
      → Result (CommandResult × Store)
  apply_visit w app a none user_id side intent s = err internal_error
  apply_visit w app a (some v) user_id side intent s =
      apply_read (read_rows w app a v s) user_id side intent s

  abbrev pub apply_appointment :
      Workflow
      → ViewingApplication
      → Option Appointment
      → ℕ
      → Audience
      → Intent
      → Store
      → Result (CommandResult × Store)
  apply_appointment w app none user_id side intent s =
      changed_at w Reason.appointment_is_not_current
  apply_appointment w app (some a) user_id side intent s =
      apply_visit w app a (find (λ v. v.id == a.viewing_id) s.viewings) user_id side intent s

  abbrev pub apply_workflow :
      Option Workflow
      → ViewingApplication
      → ℕ
      → ℕ
      → Audience
      → Intent
      → Store
      → Result (CommandResult × Store)
  apply_workflow none app appointment_id user_id side intent s = err internal_error
  apply_workflow (some w) app appointment_id user_id side intent s =
      apply_appointment w app
        (find (λ a. a.viewing_id == appointment_id && a.workflow_id == w.id) s.appointments) user_id
        side intent s

  -- `apply`, of the application as the command has read it
  unfoldable pub apply :
      ViewingApplication → ℕ → ℕ → Audience → Intent → Store → Result (CommandResult × Store)
  unfolding apply_read outcomes_of latest_accepted
  apply app appointment_id user_id side intent s =
      apply_workflow (find_workflow app.0.id s.workflows) app appointment_id user_id side intent s
