-- ===== src/Workflows/Tests/Steps.antt =====
-- The steps of a workflow at concrete times.
use renyqo_app.Prelude.{
  ◌⊎◌, sym, ap, subst, ◌+◌, ◌≡◌, refl, true, false, none, some, List, [], ◌∷◌, length, All, arith,
}
use renyqo_app.Domain.{applicant_side}
use renyqo_app.Applications.Store.{
  find_application, Store, ok, Workflow, CommandResult, update_where,
}
use renyqo_app.Viewings.Text.{text}
use renyqo_app.Applications.Closing.{find_workflow}
use renyqo_app.Workflows.Commands.{Intent}
use renyqo_app.Workflows.Rows.{load, load_row, pending, appointment, bump}
use renyqo_app.Workflows.Rows.Writes.{resolve, cancel_appointment, cancel_writes}
use renyqo_app.Workflows.Step.{Step}
use renyqo_app.Workflows.Answers.{decide, accept_writes, cancel}
use renyqo_app.Workflows.Apply.{act, apply}
use renyqo_app.Workflows.Apply.Moves.{IsMarked, is_present}
use renyqo_app.Workflows.Apply.Laws.{
  IsCurrent, IsNext, apply-IsNext, Sent, apply_all, apply_all_lem,
}
use renyqo_app.Workflows.Frame.{are_opposed}
use renyqo_app.Workflows.Apply.Allowed.{IsAllowed, act-IsAllowed}
use renyqo_app.Workflows.Expiry.{expire_proposal}
use renyqo_app.Workflows.Expiry.{process_target, proposal_target}
use renyqo_app.Workflows.Rows.Writes.{resolved_row}
use renyqo_app.Workflows.Expiry.{Target}
use renyqo_app.Domain.{system_actor, ProposalResolution}
use renyqo_app.Workflows.Rows.{find_proposal}
use renyqo_app.Workflows.Expiry.Laws.{
  IsDue, process_target-expires, IsExpired, expire_proposal_once,
}
use renyqo_app.Workflows.Tests.{
  applied, invitation, unresolved, arranging, before, value_or, schedule_hash, no_result, late,
}

is_arranging :
    (s : Store)
    → s.workflows ≡ before.workflows
    → s.proposals ≡ before.proposals
    → s.next_id ≡ 100
    → IsCurrent 1 arranging s
unfolding find_workflow
is_arranging s rows proposals ids = record {
  found = ap (find_workflow 1) rows;
  owner = refl;
  sound = record {
    marked = subst (All (IsMarked 20 (some 30))) (sym proposals) (λ _. refl, tt);
    below = rw (ids, proposals) (omega arith, tt);
    present = ap (is_present (some 30)) proposals;
  };
}

expire_proposal_once_example :
    ((expire_proposal 1 30 late ≡ (false, late))
      ⊎ (IsExpired 1 arranging (expire_proposal 1 30 late).1
          × ((expire_proposal 1 30 late).0 ≡ true)))
    × ((expire_proposal 1 30 (expire_proposal 1 30 late).1)
        ≡ (false, (expire_proposal 1 30 late).1))
expire_proposal_once_example =
    expire_proposal_once 1 arranging 30 late (is_arranging late refl refl refl)

abbrev applied_acceptance : CommandResult × Store
applied_acceptance =
    value_or (no_result, before)
      (apply schedule_hash (load_row arranging before) 11 applicant_side 95 (Intent.accept 30)
        before)

applied_ok :
    apply schedule_hash (load_row arranging before) 11 applicant_side 95 (Intent.accept 30) before
    ≡ ok (applied_acceptance.0, applied_acceptance.1)
unfolding apply act decide accept_writes resolve bump pending update_where
applied_ok = refl

apply-IsNext_example :
    IsNext 1 (Intent.accept 30) arranging before applied_acceptance.0 applied_acceptance.1
apply-IsNext_example =
    apply-IsNext schedule_hash 1 arranging 11 applicant_side 95 (Intent.accept 30) before
      applied_acceptance.0 applied_acceptance.1 (is_arranging before refl refl refl) applied_ok

abbrev commands : List Sent
commands =
    record { user = 11; side = applicant_side; key = 95; intent = Intent.accept 30 }
    ∷ record { user = 11; side = applicant_side; key = 97; intent = Intent.cancel 30 none }
    ∷ []

abbrev cancelled_store : Store
cancelled_store = value_or before (apply_all schedule_hash 1 commands before)

commands_ok : apply_all schedule_hash 1 commands before ≡ ok cancelled_store
unfolding apply_all load find_workflow apply act decide accept_writes resolve bump pending
    update_where cancel appointment cancel_appointment cancel_writes text
commands_ok = refl

apply_all_lem_example :
    (w' : Workflow) × IsCurrent 1 w' cancelled_store × (w'.revision ≡ 1 + length commands)
apply_all_lem_example =
    apply_all_lem schedule_hash 1 commands arranging before cancelled_store
      (is_arranging before refl refl refl) commands_ok

abbrev no_step : Step
no_step = record { patch = λ x. x; proposal_id = none; appointment_id = none; store = before }

abbrev step_taken : Step
step_taken =
    value_or no_step
      (act schedule_hash (load_row arranging before) 11 applicant_side 95 (Intent.accept 30) before)

step_ok :
    act schedule_hash (load_row arranging before) 11 applicant_side 95 (Intent.accept 30) before
    ≡ ok step_taken
unfolding act decide accept_writes resolve pending update_where
step_ok = refl

act-IsAllowed_example :
    IsAllowed (load_row arranging before) applicant_side 2000 (Intent.accept 30)
    × (are_opposed step_taken.store.proposals ≡ true)
unfolding are_opposed
act-IsAllowed_example =
    act-IsAllowed schedule_hash arranging 11 applicant_side 95 (Intent.accept 30) before step_taken
      refl step_ok

found_applied : find_application 1 late.applications ≡ some applied
unfolding find_application
found_applied = refl

abbrev response_target : Target
response_target = record { application_id = 1; id = 30; kind = proposal_target }

process_target-expires_example :
    (IsDue arranging invitation 50000000
      × (s' : Store) × (process_target unresolved response_target late ≡ ok (true, s'))
      × (find_proposal (some 30) s'.proposals
          ≡ some (resolved_row ProposalResolution.expired system_actor 50000000 invitation))
      × IsExpired 1 arranging s')
    ⊎ ((¬ IsDue arranging invitation 50000000)
        × (process_target unresolved response_target late ≡ ok (false, late)))
process_target-expires_example =
    process_target-expires unresolved 1 applied arranging invitation late found_applied
      (is_arranging late refl refl refl) refl
