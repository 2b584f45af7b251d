-- ===== src/Workflows/Commands.antt =====
-- The commands of src/application-viewings/viewing-workflow-command.service.ts and the request hash
-- that a receipt keeps. An instant of a schedule is given as `instant` reads it, a time zone as a
-- number. `digest` stands for SHA-256 of the JSON text, of node:crypto.
use renyqo_app.Prelude.{ℕ, Bool, Option, none, some}
use renyqo_app.Domain.{
  Audience, Action, Cancellation, ViewingOutcome, AbsenceSide, Interest, Consideration,
}
use renyqo_app.Viewings.Text.{Text, TextResult, text}
use renyqo_app.Applications.Store.{Result, ok, err, bad_request, ◌>>=◌}

-- `WorkflowScheduleDto`, less what every command has
pub record Schedule : Type 0 where
  pub starts_at : ℕ
  pub ends_at : ℕ
  pub time_zone : ℕ
  pub message : Option Text
  pub short_notice : Bool

-- `WorkflowOutcomeDto`
pub record OutcomeBody : Type 0 where
  pub outcome : ViewingOutcome
  pub absence_side : Option AbsenceSide
  pub correction_reason : Option Text

-- `WorkflowCloseDto`
pub record CloseBody : Type 0 where
  pub reason : Cancellation
  pub message : Option Text
  pub proposal_id : Option ℕ
  pub appointment_id : Option ℕ

-- `ViewingWorkflowCommand`: the action with the id that it names and its own part of the body
pub data Intent : Type 0 where
  reconcile : Intent
  invite : (body : Schedule) → Intent
  accept reject withdraw : (proposal_id : ℕ) → Intent
  counterproposal alternative_proposal : (proposal_id : ℕ) (body : Schedule) → Intent
  replacement alternative_appointment : (appointment_id : ℕ) (body : Schedule) → Intent
  cancel : (appointment_id : ℕ) (message : Option Text) → Intent
  close : (workflow_id : ℕ) (body : CloseBody) → Intent
  interest : (appointment_id : ℕ) (interest : Interest) (confirm_withdrawal : Bool) → Intent
  consideration : (appointment_id : ℕ) (consideration : Consideration) → Intent
  outcome : (appointment_id : ℕ) (body : OutcomeBody) → Intent

-- a command with the part of its body that `WorkflowCommandDto` has
pub record Command : Type 0 where
  pub request_key : ℕ
  pub expected_workflow_revision : ℕ
  pub intent : Intent

abbrev pub action_of : Intent → Action
action_of Intent.reconcile = Action.reconcile
action_of (Intent.invite _) = Action.invite
action_of (Intent.accept _) = Action.accept
action_of (Intent.reject _) = Action.reject
action_of (Intent.withdraw _) = Action.withdraw
action_of (Intent.counterproposal _ _) = Action.counterproposal
action_of (Intent.alternative_proposal _ _) = Action.alternative_proposal
action_of (Intent.replacement _ _) = Action.replacement
action_of (Intent.alternative_appointment _ _) = Action.alternative_appointment
action_of (Intent.cancel _ _) = Action.cancel
action_of (Intent.close _ _) = Action.close
action_of (Intent.interest _ _ _) = Action.interest
action_of (Intent.consideration _ _) = Action.consideration
action_of (Intent.outcome _ _) = Action.outcome

-- `'proposalId' in command ? command.proposalId : null`
abbrev pub proposal_of : Intent → Option ℕ
proposal_of (Intent.accept id) = some id
proposal_of (Intent.reject id) = some id
proposal_of (Intent.withdraw id) = some id
proposal_of (Intent.counterproposal id _) = some id
proposal_of (Intent.alternative_proposal id _) = some id
proposal_of _ = none

-- `'appointmentId' in command ? command.appointmentId : null`
abbrev pub appointment_of : Intent → Option ℕ
appointment_of (Intent.replacement id _) = some id
appointment_of (Intent.alternative_appointment id _) = some id
appointment_of (Intent.cancel id _) = some id
appointment_of (Intent.interest id _ _) = some id
appointment_of (Intent.consideration id _) = some id
appointment_of (Intent.outcome id _) = some id
appointment_of _ = none

abbrev workflow_of : Intent → Option ℕ
workflow_of (Intent.close id _) = some id
workflow_of _ = none

abbrev closing_of : Intent → Option (Cancellation × Option ℕ × Option ℕ)
closing_of (Intent.close _ body) = some (body.reason, body.proposal_id, body.appointment_id)
closing_of _ = none

abbrev read_text : TextResult → Result (Option Text)
read_text TextResult.no_text = ok none
read_text TextResult.not_plain = err bad_request
read_text (TextResult.plain t) = ok (some t)

-- `ApplicationViewingPolicy.text`, with its exception
abbrev pub text_of : Option Text → Result (Option Text)
text_of value = read_text (text value)

-- `canonicalSchedule`
abbrev pub canonical_schedule : Schedule → Result Schedule
canonical_schedule body = text_of body.message >>= λ t. ok (record body { message = t })

pub data Payload : Type 0 where
  interest_payload : Interest → Bool → Payload
  consideration_payload : Consideration → Payload
  outcome_payload : ViewingOutcome → Option AbsenceSide → Option Text → Payload
  schedule_payload : Schedule → Payload
  message_payload : Option Text → Payload

abbrev scheduled_payload : Schedule → Result Payload
scheduled_payload body = canonical_schedule body >>= λ c. ok (schedule_payload c)

unfoldable pub payload_of : Intent → Result Payload
unfolding text
payload_of (Intent.interest _ answer confirmed) = ok (interest_payload answer confirmed)
payload_of (Intent.consideration _ c) = ok (consideration_payload c)
payload_of (Intent.outcome _ body) =
    text_of body.correction_reason >>= λ t. ok (outcome_payload body.outcome body.absence_side t)
payload_of (Intent.invite body) = scheduled_payload body
payload_of (Intent.counterproposal _ body) = scheduled_payload body
payload_of (Intent.alternative_proposal _ body) = scheduled_payload body
payload_of (Intent.replacement _ body) = scheduled_payload body
payload_of (Intent.alternative_appointment _ body) = scheduled_payload body
payload_of (Intent.cancel _ message) = text_of message >>= λ t. ok (message_payload t)
payload_of (Intent.close _ body) = text_of body.message >>= λ t. ok (message_payload t)
payload_of _ = ok (message_payload none)

-- the object whose JSON text is hashed
pub record Digested : Type 0 where
  pub action : Action
  pub side : Audience
  pub expected_workflow_revision : ℕ
  pub proposal_id : Option ℕ
  pub appointment_id : Option ℕ
  pub workflow_id : Option ℕ
  pub close : Option (Cancellation × Option ℕ × Option ℕ)
  pub payload : Payload

unfoldable pub digested : Command → Audience → Result Digested
unfolding payload_of
digested command side = payload_of command.intent >>= λ payload. ok (record {
  action = action_of command.intent;
  side = side;
  expected_workflow_revision = command.expected_workflow_revision;
  proposal_id = proposal_of command.intent;
  appointment_id = appointment_of command.intent;
  workflow_id = workflow_of command.intent;
  close = closing_of command.intent;
  payload = payload;
})

-- `hash`
unfoldable pub hash : (Digested → ℕ) → Command → Audience → Result ℕ
unfolding digested
hash digest command side = digested command side >>= λ d. ok (digest d)
