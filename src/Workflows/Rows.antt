-- ===== src/Workflows/Rows.antt =====
-- src/application-viewings/viewing-workflow-command.service.ts: the rows of a workflow, as the commands
-- read them, check them and move them on.
pub mod Writes
use renyqo_app.Prelude.{
  ℕ, ◌+◌, ◌*◌, Bool, true, false, not, Option, none, some, List, [], ◌∷◌, ◌++◌, ◌&&◌, ◌==◌, leb,
  max, any, find, filter, length, if◌then◌else◌,
}
use renyqo_app.Domain.{
  Audience, provider_side, applicant_side, is_provider, ProposalTiming, Cancellation, Reason,
  ActorType, provider_actor, applicant_actor, to_both, ActivityType, ViewingStatus,
  ProposalResolution,
}
use renyqo_app.Viewings.Schedule.{Scheduled, Timing, Outcome, scheduled, refused, schedule}
use renyqo_app.Applications.Store.{
  Store, Result, ok, err, ◌>>=◌, Failure, bad_request, idempotency_key_reused,
  viewing_state_changed, schedule_refused, Viewing, Workflow, Proposal, Appointment, Metadata,
  append_activity, update_where,
}
use renyqo_app.Viewings.Text.{Text}
use renyqo_app.Applications.Closing.{find_workflow}
use renyqo_app.Workflows.Commands.{Schedule, text_of}

-- `VIEWING_CHANGE_CUTOFF_MS`
abbrev pub viewing_change_cutoff_ms : ℕ
viewing_change_cutoff_ms = 6 * 60 * 60000

abbrev pub same_side : Audience → Audience → Bool
same_side provider_side side = is_provider side
same_side applicant_side side = not (is_provider side)

abbrev pub other_side : Audience → Audience
other_side provider_side = applicant_side
other_side applicant_side = provider_side

abbrev pub actor_of : Audience → ActorType
actor_of provider_side = provider_actor
actor_of applicant_side = applicant_actor

abbrev pub is_the : ℕ → Option ℕ → Bool
is_the id none = false
is_the id (some k) = k == id

abbrev pub same_id : Option ℕ → Option ℕ → Bool
same_id none none = true
same_id (some j) (some k) = j == k
same_id _ _ = false

abbrev pub is_legacy_timing : ProposalTiming → Bool
is_legacy_timing ProposalTiming.legacy_timing = true
is_legacy_timing _ = false

-- a confirmed appointment with its viewing
pub record Confirmed : Type 0 where
  pub appointment : Appointment
  pub viewing : Viewing

-- a workflow with what `workflowInclude` joins to it
pub record Loaded : Type 0 where
  pub row : Workflow
  pub pending_proposal : Option Proposal
  pub confirmed_appointment : Option Confirmed

abbrev pub find_proposal : Option ℕ → List Proposal → Option Proposal
find_proposal none rows = none
find_proposal (some id) rows = find (λ p. p.id == id) rows

abbrev pub with_viewing : Appointment → Option Viewing → Option Confirmed
with_viewing a none = none
with_viewing a (some v) = some (record { appointment = a; viewing = v })

abbrev pub confirm : Option Appointment → List Viewing → Option Confirmed
confirm none rows = none
confirm (some a) rows = with_viewing a (find (λ v. v.id == a.viewing_id) rows)

abbrev pub find_confirmed : Option ℕ → Store → Option Confirmed
find_confirmed none s = none
find_confirmed (some id) s = confirm (find (λ a. a.viewing_id == id) s.appointments) s.viewings

abbrev pub load_row : Workflow → Store → Loaded
load_row w s = record {
  row = w;
  pending_proposal = find_proposal w.pending_proposal_id s.proposals;
  confirmed_appointment = find_confirmed w.confirmed_appointment_id s;
}

abbrev pub load_found : Option Workflow → Store → Option Loaded
load_found none s = none
load_found (some w) s = some (load_row w s)

-- `load`
unfoldable pub load : ℕ → Store → Option Loaded
unfolding find_workflow
load application_id s = load_found (find_workflow application_id s.workflows) s

-- `failure`
abbrev pub failure : ℕ → ℕ → Reason → Failure
failure application_id revision reason = record {
  application_id = application_id;
  revision = revision;
  reason = reason;
}

-- `changed`
abbrev pub changed_at {ℓ} : {A : Type ℓ} → Workflow → Reason → Result A
changed_at w reason = err (viewing_state_changed (failure w.application_id w.revision reason))

abbrev pub changed {ℓ} : {A : Type ℓ} → Loaded → Reason → Result A
changed w reason = changed_at w.row reason

abbrev pub check_pending : Loaded → Option Proposal → ℕ → Result Proposal
check_pending w none id = changed w Reason.proposal_is_not_current
check_pending w (some p) id =
    if is_the id w.row.pending_proposal_id then ok p else changed w Reason.proposal_is_not_current

-- `pending`
unfoldable pub pending : Loaded → ℕ → Result Proposal
pending w id = check_pending w w.pending_proposal id

abbrev pub check_appointment : Loaded → Option Confirmed → ℕ → ℕ → Result Confirmed
check_appointment w none id now = changed w Reason.appointment_is_not_current
check_appointment w (some c) id now =
    if not (is_the id w.row.confirmed_appointment_id)
    then changed w Reason.appointment_is_not_current
    else if leb c.viewing.starts_at now
    then changed w Reason.appointment_already_started
    else ok c

-- `appointment`
unfoldable pub appointment : Loaded → ℕ → ℕ → Result Confirmed
appointment w id now = check_appointment w w.confirmed_appointment id now

-- `event`
abbrev pub event : Loaded → ℕ → ActorType → ActivityType → Metadata → Store → Store
event w user_id actor type metadata s =
    append_activity
      (record {
        application_id = w.row.application_id;
        type = type;
        actor_user_id = some user_id;
        actor_type = actor;
        visibility = to_both;
        occurred_at = s.now;
        metadata = record metadata {
          workflow_id = some w.row.id;
          workflow_revision = some (w.row.revision + 1);
        };
      })
      s

abbrev pub is_at : Workflow → Workflow → Bool
is_at w x = x.id == w.id && x.revision == w.revision

-- `bump`
unfoldable pub bump : Loaded → (Workflow → Workflow) → Store → Result Store
bump w patch s =
    if length (filter (is_at w.row) s.workflows) == 1
    then ok (record s {
      workflows =
          update_where (is_at w.row)
            (λ x. record (patch x) { revision = x.revision + 1; updated_at = s.now }) s.workflows;
    })
    else changed w Reason.stale_revision
