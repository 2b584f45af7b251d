-- ===== src/Workflows/Requests.antt =====
-- src/application-viewings/viewing-workflow-command.service.ts: the receipts of requests, and what
-- `execute` checks before and after an action.
use renyqo_app.Prelude.{
  ℕ, ◌+◌, Bool, true, false, not, Option, none, some, List, [], ◌∷◌, ◌++◌, ◌&&◌, ◌||◌, ◌==◌, find,
  any, if◌then◌else◌,
}
use renyqo_app.Domain.{
  ApplicationStatus, ListingStatus, Audience, Action, Reason, WorkflowMode, WorkflowState,
  ClosureReason, Consideration, InterestState, is_waiting,
}
use renyqo_app.Applications.Store.{
  Store, Result, ok, err, ◌>>=◌, idempotency_key_reused, viewing_state_changed, CommandResult,
  CommandOutcome, success, Receipt, Workflow, Proposal, update_where,
}
use renyqo_app.Applications.Closing.{is_closed, is_current_mode, is_without_answer}
use renyqo_app.Workflows.Access.{ViewingApplication, can_mutate}
use renyqo_app.Workflows.Commands.{Intent, Command, action_of}
use renyqo_app.Workflows.Rows.{Loaded, failure, is_the, pending}
use renyqo_app.Workflows.Answers.{close_targets_changed}
use renyqo_app.Workflows.Expiry.{expire_proposal}

unfoldable pub same_action : Action → Action → Bool
same_action Action.invite Action.invite = true
same_action Action.accept Action.accept = true
same_action Action.reject Action.reject = true
same_action Action.withdraw Action.withdraw = true
same_action Action.counterproposal Action.counterproposal = true
same_action Action.alternative_proposal Action.alternative_proposal = true
same_action Action.replacement Action.replacement = true
same_action Action.alternative_appointment Action.alternative_appointment = true
same_action Action.cancel Action.cancel = true
same_action Action.close Action.close = true
same_action Action.interest Action.interest = true
same_action Action.consideration Action.consideration = true
same_action Action.outcome Action.outcome = true
same_action Action.reconcile Action.reconcile = true
same_action _ _ = false

-- who sends which command, with the hash of the request
pub record Request : Type 0 where
  pub application_id : ℕ
  pub user_id : ℕ
  pub side : Audience
  pub command : Command
  pub request_hash : ℕ

-- `findUnique({ where: { applicationId_requestKey } })`
unfoldable pub find_receipt : ℕ → ℕ → List Receipt → Option Receipt
find_receipt application_id request_key rows =
    find (λ r. r.application_id == application_id && r.request_key == request_key) rows

-- the row that `save` creates
abbrev pub receipt_row : Request → CommandOutcome → ℕ → Receipt
receipt_row q outcome now = record {
  application_id = q.application_id;
  request_key = q.command.request_key;
  actor_user_id = q.user_id;
  actor_side = q.side;
  command = action_of q.command.intent;
  request_hash = q.request_hash;
  outcome = outcome;
  created_at = now;
}

-- `save`
abbrev pub save : Request → CommandOutcome → Store → CommandOutcome × Store
save q outcome s = (outcome, record s { receipts = s.receipts ++ receipt_row q outcome s.now ∷ [] })

abbrev pub save_result : Request → CommandResult × Store → CommandOutcome × Store
save_result q (result, s) = save q (success result) s

-- a receipt that is there answers the request, or refuses another request with its key
unfoldable pub replay : Request → Receipt → Store → Result (CommandOutcome × Store)
unfolding same_action
replay q r s =
    if not (r.request_hash == q.request_hash)
      || (not (r.actor_user_id == q.user_id)
          || not (same_action r.command (action_of q.command.intent)))
    then err idempotency_key_reused
    else ok (r.outcome, s)

abbrev pub refuse {ℓ} : {A : Type ℓ} → Request → ℕ → Reason → Result A
refuse q revision reason = err (viewing_state_changed (failure q.application_id revision reason))

abbrev pub revision_of : Option Loaded → ℕ
revision_of none = 0
revision_of (some w) = w.row.revision

abbrev pub is_reconcile : Intent → Bool
is_reconcile Intent.reconcile = true
is_reconcile _ = false

abbrev pub is_outcome : Intent → Bool
is_outcome (Intent.outcome _ _) = true
is_outcome _ = false

abbrev pub is_invite : Intent → Bool
is_invite (Intent.invite _) = true
is_invite _ = false

-- the command needs an active process, and this one is not
unfoldable pub is_inactive : ViewingApplication → Intent → Bool
unfolding can_mutate
is_inactive app intent =
    not (can_mutate app)
    && (not (is_outcome intent) && not (is_reconcile intent && not (is_waiting app.0.status)))

-- the reason for which a terminal application ends its viewings
unfoldable pub terminal_reason : ApplicationStatus → ListingStatus → ClosureReason
terminal_reason ApplicationStatus.withdrawn l = ClosureReason.application_withdrawn
terminal_reason ApplicationStatus.accepted l = ClosureReason.application_accepted
terminal_reason ApplicationStatus.rejected l = ClosureReason.application_rejected
terminal_reason _ ListingStatus.rented = ClosureReason.listing_rented
terminal_reason _ ListingStatus.archived = ClosureReason.listing_archived
terminal_reason _ _ = ClosureReason.listing_unpublished

abbrev pub id_of_loaded : Option Loaded → Option ℕ
id_of_loaded none = none
id_of_loaded (some w) = some w.row.id

abbrev pub reconciled_result : Request → Option Loaded → CommandResult
reconciled_result q w = record {
  application_id = q.application_id;
  workflow_id = id_of_loaded w;
  workflow_revision = revision_of w;
  proposal_id = none;
  appointment_id = none;
}

abbrev pub value_or : Option ℕ → ℕ → ℕ
value_or none now = now
value_or (some t) now = t

-- A recorded closure stays: what the import asks again is closed at the time of the closure.
abbrev pub keep_closed : Option Loaded → Option Loaded → Store → Store
keep_closed (some before) (some w) s =
    if not (is_current_mode before.row.mode) && is_closed before.row.state
    then record s {
      appointments =
          update_where (λ a. a.workflow_id == w.row.id && is_without_answer a.interest_state)
            (λ a. record a {
              interest_state = InterestState.closed;
              interest_closed_at = some (value_or before.row.closed_at s.now);
            })
            s.appointments;
    }
    else s
keep_closed _ _ s = s

-- the workflow that `execute` creates for the first invitation
abbrev pub new_workflow : ℕ → Store → Workflow
new_workflow application_id s = record {
  id = s.next_id;
  application_id = application_id;
  mode = WorkflowMode.current;
  revision = 0;
  state = WorkflowState.open_state;
  closure_reason = none;
  closed_at = none;
  pending_proposal_id = none;
  confirmed_appointment_id = none;
  provider_consideration = Consideration.undecided;
  consideration_decided_at = none;
  updated_at = s.now;
}

abbrev pub insert_workflow : Workflow → Store → Store
insert_workflow w s = record s { workflows = s.workflows ++ w ∷ []; next_id = s.next_id + 1 }

abbrev pub is_legacy_loaded : Option Loaded → Store → ℕ → Bool
is_legacy_loaded none s application_id = any (λ v. v.application_id == application_id) s.viewings
is_legacy_loaded (some w) s application_id = not (is_current_mode w.row.mode)

abbrev pub check_proposal : Loaded → Option ℕ → Store → Result Store
check_proposal w none s = ok s
check_proposal w (some id) s = pending w id >>= λ _. ok s

abbrev pub is_stale_appointment : Loaded → Option ℕ → Bool
is_stale_appointment w none = false
is_stale_appointment w (some id) = not (is_the id w.row.confirmed_appointment_id)

abbrev pub is_stale_close : Loaded → Intent → Bool
is_stale_close w (Intent.close workflow_id body) = close_targets_changed w workflow_id body
is_stale_close w _ = false

abbrev pub expire_overdue : Loaded → Option Proposal → Store → Bool × Store
expire_overdue w none s = (false, s)
expire_overdue w (some p) s = expire_proposal w.row.application_id p.id s
