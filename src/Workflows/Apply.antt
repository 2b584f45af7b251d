-- ===== src/Workflows/Apply.antt =====
-- `apply` of src/application-viewings/viewing-workflow-command.service.ts: one action, and the next
-- revision of the workflow.
pub mod Moves
pub mod Steps
pub mod Ending
pub mod Offering
pub mod Laws
pub mod Allowed
use renyqo_app.Prelude.{ℕ, ◌+◌, true, false, some}
use renyqo_app.Domain.{Audience}
use renyqo_app.Applications.Store.{Store, Result, ok, err, ◌>>=◌, bad_request, CommandResult}
use renyqo_app.Workflows.Commands.{Schedule, Intent}
use renyqo_app.Workflows.Rows.{Loaded, bump}
use renyqo_app.Workflows.Step.{Step}
use renyqo_app.Workflows.Answers.{cancel, close, decide, withdraw}
use renyqo_app.Workflows.Offers.{
  alternative_appointment, alternative_proposal, counterproposal, invite, replacement,
}

module _ (digest : Schedule → ℕ) where
  -- the switch of `apply`; the other actions do not come here
  unfoldable pub act : Loaded → ℕ → Audience → ℕ → Intent → Store → Result Step
  unfolding decide withdraw invite alternative_proposal counterproposal replacement
      alternative_appointment cancel close
  act w user_id side key (Intent.invite body) s = invite digest w user_id side key body s
  act w user_id side key (Intent.accept id) s = decide w user_id side true id s
  act w user_id side key (Intent.reject id) s = decide w user_id side false id s
  act w user_id side key (Intent.withdraw id) s = withdraw w user_id side id s
  act w user_id side key (Intent.counterproposal id body) s =
      counterproposal digest w user_id side key id body s
  act w user_id side key (Intent.alternative_proposal id body) s =
      alternative_proposal digest w user_id side key id body s
  act w user_id side key (Intent.replacement id body) s =
      replacement digest w user_id side key id body s
  act w user_id side key (Intent.alternative_appointment id body) s =
      alternative_appointment digest w user_id side key id body s
  act w user_id side key (Intent.cancel id message) s = cancel w user_id side id message s
  act w user_id side key (Intent.close id body) s = close w user_id side id body s
  act w user_id side key _ s = err bad_request

  abbrev result_of : Loaded → Step → CommandResult
  result_of w step = record {
    application_id = w.row.application_id;
    workflow_id = some w.row.id;
    workflow_revision = w.row.revision + 1;
    proposal_id = step.proposal_id;
    appointment_id = step.appointment_id;
  }

  -- `apply`
  unfoldable pub apply : Loaded → ℕ → Audience → ℕ → Intent → Store → Result (CommandResult × Store)
  unfolding act bump
  apply w user_id side request_key intent s = act w user_id side request_key intent s >>= λ step.
      bump w step.patch step.store >>= λ s'. ok (result_of w step, s')
