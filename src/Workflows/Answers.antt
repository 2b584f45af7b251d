-- ===== src/Workflows/Answers.antt =====
-- `apply` of src/application-viewings/viewing-workflow-command.service.ts: the actions by which a side
-- answers a proposal, and those that end a viewing.
use renyqo_app.Prelude.{
  ℕ, Bool, true, false, not, Option, none, some, [], ◌∷◌, ◌++◌, ◌&&◌, ◌||◌, ◌==◌, leb, is_none,
  if◌then◌else◌,
}
use renyqo_app.Domain.{
  Audience, is_provider, Cancellation, Reason, ActivityType, ViewingStatus, ProposalResolution,
}
use renyqo_app.Viewings.Text.{Text}
use renyqo_app.Applications.Store.{
  Store, Result, ok, err, ◌>>=◌, bad_request, Viewing, Proposal, Appointment, no_metadata,
  update_where,
}
use renyqo_app.Applications.Closing.{is_closed}
use renyqo_app.Domain.{InterestState}
use renyqo_app.Workflows.Commands.{CloseBody}
use renyqo_app.Workflows.Rows.{
  Confirmed, Loaded, actor_of, appointment, changed, event, is_legacy_timing, pending, same_id,
  same_side,
}
use renyqo_app.Workflows.Rows.Writes.{cancel_appointment, resolve, resolve_pending}
use renyqo_app.Workflows.Step.{Step, agreed, answered, emptied, ended}

-- the row of a proposal that was accepted, as a viewing
abbrev pub viewing_row : Loaded → Proposal → ℕ → Viewing
viewing_row w p now = record {
  id = p.id;
  application_id = w.row.application_id;
  round = p.round;
  status = ViewingStatus.accepted;
  starts_at = p.starts_at;
  ends_at = p.ends_at;
  time_zone = p.time_zone;
  provider_note = if is_provider p.proposer_side then p.message else none;
  accepted_at = some now;
  declined_at = none;
  cancelled_at = none;
  superseded_at = none;
  request_key = p.request_key;
  request_hash = p.request_hash;
}

abbrev pub appointment_row : Loaded → Proposal → Appointment
appointment_row w p = record {
  viewing_id = p.id;
  workflow_id = w.row.id;
  proposal_id = p.id;
  cancelled_by = none;
  cancellation_reason = none;
  cancellation_note = none;
  late_cancellation = none;
  interest_state = InterestState.not_requested;
  interest_requested_at = none;
  interest_deadline_at = none;
  interest_closed_at = none;
}

-- the appointment that the accepted proposal replaces
abbrev pub supersede_confirmed : Loaded → Option Confirmed → Store → Result Store
supersede_confirmed w none s = ok s
supersede_confirmed w (some c) s = appointment w c.viewing.id s.now >>= λ _. ok (record s {
  viewings =
      update_where (λ v. v.id == c.viewing.id)
        (λ v. record v { status = ViewingStatus.superseded; superseded_at = some s.now })
        s.viewings;
})

abbrev pub rescheduled : Loaded → ℕ → Audience → Proposal → Option ℕ → Store → Store
rescheduled w user_id side p none s = s
rescheduled w user_id side p (some previous) s =
    event w user_id (actor_of side) ActivityType.viewing_rescheduled
      (record no_metadata {
        proposal_id = some p.id;
        appointment_id = some p.id;
        previous_appointment_id = some previous;
      })
      s

-- the writes of an acceptance, the replaced appointment aside
unfoldable pub accept_writes : Loaded → ℕ → Audience → Proposal → Store → Step
unfolding resolve
accept_writes w user_id side p s =
    let decided = resolve p ProposalResolution.accepted (actor_of side) s in
    let created = record decided {
      viewings = decided.viewings ++ viewing_row w p s.now ∷ [];
      appointments = decided.appointments ++ appointment_row w p ∷ [];
    } in
    let noted =
      event w user_id (actor_of side) ActivityType.viewing_accepted
        (record no_metadata {
          proposal_id = some p.id;
          appointment_id = some p.id;
          viewing_id = some p.id;
        })
        created in
    record {
      patch = agreed p;
      proposal_id = some p.id;
      appointment_id = some p.id;
      store = rescheduled w user_id side p w.row.confirmed_appointment_id noted;
    }

unfoldable pub reject_writes : Loaded → ℕ → Audience → Proposal → Store → Step
unfolding resolve
reject_writes w user_id side p s = record {
  patch = answered;
  proposal_id = some p.id;
  appointment_id = none;
  store =
      event w user_id (actor_of side) ActivityType.viewing_declined
        (record no_metadata { proposal_id = some p.id })
        (resolve p ProposalResolution.declined (actor_of side) s);
}

-- the cases `accept` and `reject`
unfoldable pub decide : Loaded → ℕ → Audience → Bool → ℕ → Store → Result Step
unfolding pending accept_writes reject_writes appointment
decide w user_id side accepts proposal_id s = pending w proposal_id >>= λ p.
    if not (same_side p.responder_side side)
    then changed w Reason.only_responder_can_decide
    else if leb p.starts_at s.now
    then changed w Reason.proposal_already_started
    else if not accepts
    then ok (reject_writes w user_id side p s)
    else if is_legacy_timing p.timing || is_none p.response_deadline_at
    then changed w Reason.legacy_invitation_requires_reissue
    else (supersede_confirmed w w.confirmed_appointment s >>= λ s'.
        ok (accept_writes w user_id side p s'))

-- the case `withdraw`
unfoldable pub withdraw : Loaded → ℕ → Audience → ℕ → Store → Result Step
unfolding pending resolve
withdraw w user_id side proposal_id s =
    if is_provider side
    then changed w Reason.action_not_allowed_for_side
    else (pending w proposal_id >>= λ p.
        if is_provider p.proposer_side
        then changed w Reason.only_own_alternative_can_be_withdrawn
        else ok (record {
          patch = answered;
          proposal_id = some p.id;
          appointment_id = none;
          store =
              event w user_id (actor_of side) ActivityType.viewing_proposal_withdrawn
                (record no_metadata { proposal_id = some p.id })
                (resolve p ProposalResolution.withdrawn (actor_of side) s);
        }))

-- the case `cancel`
unfoldable pub cancel : Loaded → ℕ → Audience → ℕ → Option Text → Store → Result Step
unfolding appointment resolve cancel_appointment
cancel w user_id side appointment_id message s =
    if is_provider side
    then changed w Reason.action_not_allowed_for_side
    else (appointment w appointment_id s.now >>= λ c.
        cancel_appointment w side Cancellation.applicant_cancelled message
          (resolve_pending w.pending_proposal ProposalResolution.closed (actor_of side) s)
        >>= λ s'. ok (record {
          patch = emptied;
          proposal_id = none;
          appointment_id = some c.viewing.id;
          store =
              event w user_id (actor_of side) ActivityType.viewing_cancelled
                (record no_metadata {
                  appointment_id = some c.viewing.id;
                  viewing_id = some c.viewing.id;
                  proposal_id = w.row.pending_proposal_id;
                  cancellation_reason = some Cancellation.applicant_cancelled;
                })
                s';
        }))

abbrev pub is_provider_reason : Cancellation → Bool
is_provider_reason Cancellation.applicant_cancelled = false
is_provider_reason Cancellation.application_ended = false
is_provider_reason _ = true

-- `CLOSE_TARGETS_CHANGED`, the check before the expiry
abbrev pub close_targets_changed : Loaded → ℕ → CloseBody → Bool
close_targets_changed w workflow_id body =
    not (w.row.id == workflow_id)
    || (not (same_id w.row.pending_proposal_id body.proposal_id)
        || not (same_id w.row.confirmed_appointment_id body.appointment_id))

-- the case `close`
unfoldable pub close : Loaded → ℕ → Audience → ℕ → CloseBody → Store → Result Step
unfolding resolve cancel_appointment
close w user_id side workflow_id body s =
    if not (is_provider side)
    then changed w Reason.action_not_allowed_for_side
    else if close_targets_changed w workflow_id body || is_closed w.row.state
    then changed w Reason.close_targets_changed
    else if is_none w.row.pending_proposal_id && is_none w.row.confirmed_appointment_id
    then changed w Reason.no_open_viewing
    else if not (is_provider_reason body.reason)
    then err bad_request
    else (cancel_appointment w side body.reason body.message
          (resolve_pending w.pending_proposal ProposalResolution.closed (actor_of side) s)
        >>= λ s'. ok (record {
          patch = ended s.now;
          proposal_id = w.row.pending_proposal_id;
          appointment_id = w.row.confirmed_appointment_id;
          store =
              event w user_id (actor_of side) ActivityType.viewing_cancelled
                (record no_metadata {
                  proposal_id = w.row.pending_proposal_id;
                  appointment_id = w.row.confirmed_appointment_id;
                  cancellation_reason = some body.reason;
                })
                s';
        }))
