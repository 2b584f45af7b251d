-- ===== src/Workflows/Step.antt =====
-- What an action of src/application-viewings/viewing-workflow-command.service.ts leaves for the end of
-- `apply`, and the patches of the workflow.
use renyqo_app.Prelude.{ℕ, Option, none, some}
use renyqo_app.Domain.{WorkflowState, ClosureReason}
use renyqo_app.Applications.Store.{Store, Workflow, Proposal}

-- what an action leaves for the end of `apply`: the patch of the workflow and the two ids
pub record Step : Type 0 where
  pub patch : Workflow → Workflow
  pub proposal_id : Option ℕ
  pub appointment_id : Option ℕ
  pub store : Store

abbrev pub proposed : Proposal → Workflow → Workflow
proposed p x = record x { pending_proposal_id = some p.id }

abbrev pub reopened : Proposal → Workflow → Workflow
reopened p x = record x {
  pending_proposal_id = some p.id;
  state = WorkflowState.open_state;
  closed_at = none;
  closure_reason = none;
}

abbrev pub answered : Workflow → Workflow
answered x = record x { pending_proposal_id = none }

abbrev pub agreed : Proposal → Workflow → Workflow
agreed p x = record x { confirmed_appointment_id = some p.id; pending_proposal_id = none }

abbrev pub emptied : Workflow → Workflow
emptied x = record x { confirmed_appointment_id = none; pending_proposal_id = none }

abbrev pub ended : ℕ → Workflow → Workflow
ended now x = record x {
  pending_proposal_id = none;
  confirmed_appointment_id = none;
  state = WorkflowState.closed_state;
  closure_reason = some ClosureReason.provider_closed;
  closed_at = some now;
}
