-- ===== src/Workflows/Tests/Outcomes.antt =====
-- The outcome of a viewing and its effects at concrete times.
use renyqo_app.Prelude.{◌+◌, ◌≡◌, refl, none, some, [], ◌∷◌, order_by}
use renyqo_app.Domain.{
  provider_side, ViewingStatus, InterestState, outcome_no_show, applicant_absent, ActivityType,
  viewing_proposed,
}
use renyqo_app.Applications.Store.{
  Store, ok, Viewing, Workflow, Appointment, ConsiderationPosition, find_application, update_where,
}
use renyqo_app.Viewings.Text.{text}
use renyqo_app.Applications.Closing.{close_interests}
use renyqo_app.Applications.Process.{application_process_allows_mutation}
use renyqo_app.Workflows.Commands.{OutcomeBody}
use renyqo_app.Workflows.Access.{can_mutate}
use renyqo_app.Workflows.Consideration.{record_effect, penalize, correct_effect}
use renyqo_app.Workflows.Consideration.Laws.{missed, corrects, position_of, record_effect_restores}
use renyqo_app.Workflows.Reading.{Read, read_rows, outcomes_of, latest_accepted}
use renyqo_app.Workflows.Outcomes.{
  record_outcome, correction_refused, outcome_writes, penalizes, settle_interest, settle_workflow,
  asks_interest,
}
use renyqo_app.Workflows.Outcomes.Laws.{IsRecorded, record_outcome-IsRecorded}
use renyqo_app.Workflows.Tests.{flat, applied, arranging, before, value_or}

abbrev place : ConsiderationPosition
place = record { application_id = 1; listing_id = 7; position = 2; revision = 0 }

abbrev after_miss : Store
after_miss = value_or before (record_effect (missed 1 7 60) before)

abbrev after_correction : Store
after_correction = value_or before (record_effect (corrects 1 7 61 60) after_miss)

effects_ok :
    (record_effect (missed 1 7 60) before ≡ ok after_miss)
    × (record_effect (corrects 1 7 61 60) after_miss ≡ ok after_correction)
unfolding record_effect penalize correct_effect update_where find_application
effects_ok = (refl, refl)

found_applicant : find_application 1 before.applications ≡ some applied
unfolding find_application
found_applicant = refl

record_effect_restores_example :
    position_of 1 after_correction ≡ some (record place { revision = place.revision + 2 })
record_effect_restores_example =
    record_effect_restores 1 7 60 61 applied place before after_miss after_correction refl refl
      found_applicant refl effects_ok.0 effects_ok.1

abbrev visit : Viewing
visit = record {
  id = 30;
  application_id = 1;
  round = 1;
  status = ViewingStatus.accepted;
  starts_at = 1000;
  ends_at = 1900;
  time_zone = 1;
  provider_note = none;
  accepted_at = some 500;
  declined_at = none;
  cancelled_at = none;
  superseded_at = none;
  request_key = 90;
  request_hash = 91;
}

abbrev attended : Appointment
attended = record {
  viewing_id = 30;
  workflow_id = 20;
  proposal_id = 30;
  cancelled_by = none;
  cancellation_reason = none;
  cancellation_note = none;
  late_cancellation = none;
  interest_state = InterestState.not_requested;
  interest_requested_at = none;
  interest_deadline_at = none;
  interest_closed_at = none;
}

abbrev attending : Workflow
attending = record arranging { pending_proposal_id = none; confirmed_appointment_id = some 30 }

abbrev viewed : Store
viewed = record before { viewings = visit ∷ [] }

abbrev visited : Read
visited = read_rows attending (applied, flat) attended visit viewed

abbrev no_show : OutcomeBody
no_show = record {
  outcome = outcome_no_show;
  absence_side = some applicant_absent;
  correction_reason = none;
}

abbrev recorded : ActivityType × Store
recorded = value_or (viewing_proposed, viewed) (record_outcome visited provider_side no_show viewed)

recorded_ok :
    (record_outcome visited provider_side no_show viewed ≡ ok recorded)
    × (position_of 1 recorded.1 ≡ some (record place { position = 5; revision = 1 }))
unfolding record_outcome outcomes_of latest_accepted order_by correction_refused outcome_writes
    penalizes can_mutate application_process_allows_mutation record_effect penalize settle_interest
    settle_workflow asks_interest close_interests update_where text
recorded_ok = (refl, refl)

record_outcome-IsRecorded_example : IsRecorded visited provider_side no_show viewed recorded.1
record_outcome-IsRecorded_example =
    record_outcome-IsRecorded attending (applied, flat) attended visit provider_side no_show viewed
      recorded recorded_ok.0
