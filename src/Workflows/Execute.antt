-- ===== src/Workflows/Execute.antt =====
-- `execute` of src/application-viewings/viewing-workflow-command.service.ts: a command is executed once
-- for each request key, and what came of it is kept in a receipt. `legacy_resolution` and
-- `reconcile_legacy` stand for the SQL functions of the migrations; `reconcile_legacy` has no result
-- where the database reports an integrity failure.
pub mod Saved
pub mod Late
pub mod Laws
use renyqo_app.Prelude.{
  ℕ, ◌+◌, Bool, true, false, not, Option, none, some, List, [], ◌∷◌, ◌++◌, ◌&&◌, ◌||◌, ◌==◌, find,
  any, is_some, if◌then◌else◌,
}
use renyqo_app.Domain.{
  Application, Listing, ApplicationStatus, ListingStatus, Audience, is_provider, Action, Reason,
  ActorType, system_actor, WorkflowMode, WorkflowState, ClosureReason, Consideration, InterestState,
  is_waiting,
}
use renyqo_app.Applications.Store.{
  Store, Result, ok, err, ◌>>=◌, idempotency_key_reused, viewing_state_changed, Failure,
  CommandResult, CommandOutcome, success, failed, Receipt, Workflow, Proposal, Appointment,
  update_where,
}
use renyqo_app.Applications.Closing.{
  no_options, is_closed, is_current_mode, is_without_answer, update_workflow,
}
use renyqo_app.Applications.Closing
use renyqo_app.Workflows.Access.{ViewingApplication, lock, can_mutate}
use renyqo_app.Workflows.Commands.{
  Schedule, CloseBody, Intent, Command, Digested, hash, action_of, proposal_of, appointment_of,
}
use renyqo_app.Workflows.Rows.{
  Confirmed, Loaded, actor_of, appointment, bump, changed, changed_at, check_appointment,
  check_pending, confirm, event, failure, find_confirmed, find_proposal, is_at, is_legacy_timing,
  is_the, load, load_found, load_row, other_side, pending, same_id, same_side,
  viewing_change_cutoff_ms, with_viewing,
}
use renyqo_app.Workflows.Answers.{close_targets_changed}
use renyqo_app.Workflows.Apply
use renyqo_app.Workflows.Expiry.{expire_interest, expire_proposal}
use renyqo_app.Workflows.Decisions
use renyqo_app.Workflows.Requests.{
  Request, check_proposal, expire_overdue, find_receipt, id_of_loaded, insert_workflow, is_inactive,
  is_invite, is_legacy_loaded, is_outcome, is_reconcile, is_stale_appointment, is_stale_close,
  keep_closed, new_workflow, receipt_row, reconciled_result, refuse, replay, revision_of,
  same_action, save, save_result, terminal_reason, value_or,
}

-- An exception rolls the transaction back; a failure that was committed is thrown after it.
abbrev pub settle : Store → Result (CommandOutcome × Store) → Result CommandResult × Store
settle s (err thrown) = (err thrown, s)
settle s (ok (success result, s')) = (ok result, s')
settle s (ok (failed f, s')) = (err (viewing_state_changed f), s')

module _ (digest_schedule : Schedule → ℕ) (legacy_resolution : Store → ℕ → Proposal → Proposal)
    (reconcile_legacy : ℕ → Store → Option Store) where
  -- the closure of what a reconciled application that has ended still had
  abbrev pub close_terminal : Request → ViewingApplication → Option Loaded → Store → Result Store
  close_terminal q app none s = ok s
  close_terminal q app (some w) s =
      if can_mutate app
      then ok s
      else Closing.close legacy_resolution q.application_id
          (terminal_reason app.0.status app.1.status) system_actor none no_options s

  abbrev pub reconcile_imported :
      Request → ViewingApplication → Option Loaded → Option Store → Result (CommandResult × Store)
  reconcile_imported q app before none =
      refuse q (revision_of before) Reason.legacy_reconciliation_failed
  reconcile_imported q app before (some s) =
      let imported = load q.application_id s in
      close_terminal q app imported (keep_closed before imported s) >>= λ s'.
      ok (reconciled_result q (load q.application_id s'), s')

  -- the branch of the action `reconcile`
  unfoldable pub reconcile :
      Request → ViewingApplication → Option Loaded → Store → Result (CommandResult × Store)
  unfolding load can_mutate terminal_reason
  reconcile q app w s = reconcile_imported q app w (reconcile_legacy q.application_id s)

  -- after the expiry of the pending proposal
  abbrev pub negotiate_after : Request → Loaded → Bool × Store → Result (CommandOutcome × Store)
  negotiate_after q w (true, s) =
      ok (save q (failed (failure q.application_id (w.row.revision + 1) Reason.proposal_expired)) s)
  negotiate_after q w (false, s) =
      Apply.apply digest_schedule w q.user_id q.side q.command.request_key q.command.intent s
      >>= λ r. ok (save_result q r)

  -- the exact targets of the command are checked before an expiry can change a row
  unfoldable pub negotiate : Request → Loaded → Store → Result (CommandOutcome × Store)
  unfolding pending expire_proposal Apply.apply
  negotiate q w s = check_proposal w (proposal_of q.command.intent) s >>= λ s'.
      if is_stale_appointment w (appointment_of q.command.intent)
      then changed w Reason.appointment_is_not_current
      else if is_stale_close w q.command.intent
      then changed w Reason.close_targets_changed
      else negotiate_after q w (expire_overdue w w.pending_proposal s')

  -- the actions of the decision service, and the others
  unfoldable pub dispatch :
      Request → ViewingApplication → Loaded → Intent → Store → Result (CommandOutcome × Store)
  unfolding negotiate Decisions.apply
  dispatch q app w (Intent.interest id answer confirmed) s =
      Decisions.apply legacy_resolution app id q.user_id q.side
        (Intent.interest id answer confirmed) s
      >>= λ r. ok (save_result q r)
  dispatch q app w (Intent.consideration id c) s =
      Decisions.apply legacy_resolution app id q.user_id q.side (Intent.consideration id c) s
      >>= λ r. ok (save_result q r)
  dispatch q app w (Intent.outcome id body) s =
      Decisions.apply legacy_resolution app id q.user_id q.side (Intent.outcome id body) s >>= λ r.
      ok (save_result q r)
  dispatch q app w _ s = negotiate q w s

  -- An overdue answer is settled before the command, and the command is refused.
  abbrev pub dispatch_after :
      Request → ViewingApplication → Loaded → Bool × Store → Result (CommandOutcome × Store)
  dispatch_after q app w (true, s) = ok (
      save q
        (failed (
          failure q.application_id (revision_of (load q.application_id s))
            Reason.interest_response_expired))
        s)
  dispatch_after q app w (false, s) = dispatch q app w q.command.intent s

  unfoldable pub go_on :
      Request → ViewingApplication → Loaded → Store → Result (CommandOutcome × Store)
  unfolding expire_interest dispatch load
  go_on q app w s =
      expire_interest legacy_resolution q.application_id s >>= λ r. dispatch_after q app w r

  -- the workflow of the command, a new one for the first invitation of a provider
  abbrev pub go_on_with :
      Request → ViewingApplication → Option Loaded → Store → Result (CommandOutcome × Store)
  go_on_with q app (some w) s = go_on q app w s
  go_on_with q app none s =
      if not (is_invite q.command.intent) || not (is_provider q.side)
      then refuse q 0 Reason.provider_invitation_required
      else let w = new_workflow q.application_id s in
        go_on q app (record { row = w; pending_proposal = none; confirmed_appointment = none })
          (insert_workflow w s)

  -- the command to a process that may be changed, with the revision that it expects
  unfoldable pub run :
      Request → ViewingApplication → Option Loaded → Store → Result (CommandOutcome × Store)
  unfolding reconcile go_on is_inactive
  run q app w s =
      if is_inactive app q.command.intent
      then refuse q (revision_of w) Reason.application_process_inactive
      else if not (q.command.expected_workflow_revision == revision_of w)
      then refuse q (revision_of w) Reason.stale_revision
      else if is_reconcile q.command.intent
      then (reconcile q app w s >>= λ r. ok (save_result q r))
      else if is_legacy_loaded w s q.application_id
      then refuse q (revision_of w) Reason.legacy_reconciliation_required
      else go_on_with q app w s

  abbrev pub answer :
      Request → ViewingApplication → Option Receipt → Store → Result (CommandOutcome × Store)
  answer q app (some r) s = replay q r s
  answer q app none s = run q app (load q.application_id s) s

  -- the transaction of `execute`
  unfoldable pub transact : Request → Store → Result (CommandOutcome × Store)
  unfolding lock find_receipt replay run load
  transact q s = lock q.application_id q.user_id q.side s >>= λ app.
      answer q app (find_receipt q.application_id q.command.request_key s.receipts) s

  abbrev pub execute_hashed :
      ℕ → ℕ → Audience → Command → Result ℕ → Store → Result CommandResult × Store
  execute_hashed application_id user_id side command (err thrown) s = (err thrown, s)
  execute_hashed application_id user_id side command (ok h) s = settle s (
      transact
        (record {
          application_id = application_id;
          user_id = user_id;
          side = side;
          command = command;
          request_hash = h;
        })
        s)

  -- `execute`
  unfoldable pub execute :
      (Digested → ℕ) → ℕ → ℕ → Audience → Command → Store → Result CommandResult × Store
  unfolding hash transact
  execute digest application_id user_id side command s =
      execute_hashed application_id user_id side command (hash digest command side) s
