-- ===== src/Workflows/Rows/Writes.antt =====
-- src/application-viewings/viewing-workflow-command.service.ts: what a command writes to proposals,
-- viewings and appointments. `digest` stands for the hash of a schedule.
use renyqo_app.Prelude.{
  ℕ, ◌+◌, Bool, true, false, not, Option, none, some, List, [], ◌∷◌, ◌++◌, ◌&&◌, ◌==◌, leb, max,
  any, if◌then◌else◌,
}
use renyqo_app.Domain.{
  Audience, ProposalTiming, Cancellation, ActorType, ViewingStatus, ProposalResolution,
}
use renyqo_app.Viewings.Schedule.{Scheduled, Timing, Outcome, scheduled, refused, schedule}
use renyqo_app.Applications.Store.{
  Store, Result, ok, err, ◌>>=◌, bad_request, idempotency_key_reused, schedule_refused, Viewing,
  Proposal, update_where,
}
use renyqo_app.Viewings.Text.{Text}
use renyqo_app.Workflows.Commands.{Schedule, text_of}
use renyqo_app.Workflows.Rows.{
  Confirmed, Loaded, actor_of, appointment, is_legacy_timing, other_side, viewing_change_cutoff_ms,
}

abbrev pub is_accepted_resolution : ProposalResolution → Bool
is_accepted_resolution ProposalResolution.accepted = true
is_accepted_resolution _ = false

-- the placeholder of a legacy proposal, once the proposal is resolved
unfoldable pub retired : ProposalResolution → ℕ → Viewing → Viewing
retired ProposalResolution.declined now v = record v {
  status = ViewingStatus.declined;
  declined_at = some now;
}
retired ProposalResolution.superseded now v = record v {
  status = ViewingStatus.superseded;
  superseded_at = some now;
}
retired _ now v = record v { status = ViewingStatus.cancelled; cancelled_at = some now }

abbrev pub is_proposed_visit : ViewingStatus → Bool
is_proposed_visit ViewingStatus.proposed = true
is_proposed_visit _ = false

abbrev pub resolved_row : ProposalResolution → ActorType → ℕ → Proposal → Proposal
resolved_row resolution actor now p = record p {
  resolution = resolution;
  resolved_at = some now;
  resolved_by = some actor;
}

-- `resolve`
unfoldable pub resolve : Proposal → ProposalResolution → ActorType → Store → Store
unfolding retired
resolve p resolution actor s =
    let decided = record s {
      proposals =
          update_where (λ x. x.id == p.id) (resolved_row resolution actor s.now) s.proposals;
    } in
    if is_legacy_timing p.timing && not (is_accepted_resolution resolution)
    then record decided {
      viewings =
          update_where (λ v. v.id == p.id && is_proposed_visit v.status) (retired resolution s.now)
            s.viewings;
    }
    else decided

-- `resolve` of a pending proposal, where there is one
abbrev pub resolve_pending : Option Proposal → ProposalResolution → ActorType → Store → Store
resolve_pending none resolution actor s = s
resolve_pending (some p) resolution actor s = resolve p resolution actor s

-- `aggregate({ where: { workflowId }, _max: { round: true } })`, with 0 where there is no row
unfoldable pub max_round : ℕ → List Proposal → ℕ
max_round workflow_id [] = 0
max_round workflow_id (p ∷ ps) =
    let rest = max_round workflow_id ps in
    if p.workflow_id == workflow_id then max p.round rest else rest

abbrev pub base_id : Option Confirmed → Option ℕ
base_id none = none
base_id (some c) = some c.viewing.id

abbrev pub base_start : Option Confirmed → Option ℕ
base_start none = none
base_start (some c) = some c.viewing.starts_at

-- the new schedule is that of the appointment
abbrev pub is_unmoved : Option Confirmed → ℕ → ℕ → Bool
is_unmoved none starts_at ends_at = false
is_unmoved (some c) starts_at ends_at =
    c.viewing.starts_at == starts_at && c.viewing.ends_at == ends_at

abbrev pub timing_of : Timing → ProposalTiming
timing_of Timing.short_notice_timing = ProposalTiming.short_notice
timing_of Timing.normal_timing = ProposalTiming.normal

-- `schedule` of the command policy, with its exceptions
abbrev pub accept_schedule : Outcome → Result Scheduled
accept_schedule (scheduled r) = ok r
accept_schedule (refused cause) = err (schedule_refused cause)

abbrev pub schedule_of : Schedule → Audience → ℕ → Option ℕ → Result Scheduled
schedule_of body side now confirmed =
    accept_schedule (schedule body.starts_at body.ends_at body.short_notice side now confirmed)

module _ (digest : Schedule → ℕ) where
  -- the row that `newProposal` creates
  unfoldable pub proposal_row :
      Loaded → Schedule → ℕ → Audience → Scheduled → Option ℕ → Option Confirmed → Store → Proposal
  unfolding max_round
  proposal_row w canonical request_key side r predecessor base s = record {
    id = s.next_id;
    workflow_id = w.row.id;
    round = max_round w.row.id s.proposals + 1;
    proposer_side = side;
    responder_side = other_side side;
    starts_at = r.starts_at;
    ends_at = r.ends_at;
    time_zone = canonical.time_zone;
    message = canonical.message;
    predecessor_proposal_id = predecessor;
    base_appointment_id = base_id base;
    timing = timing_of r.timing;
    response_deadline_at = some r.response_deadline_at;
    request_key = request_key;
    request_hash = digest canonical;
    created_at = s.now;
    resolution = ProposalResolution.pending;
    resolved_at = none;
    resolved_by = none;
  }

  abbrev insert_proposal : Proposal → Store → Store
  insert_proposal p s = record s { proposals = s.proposals ++ p ∷ []; next_id = s.next_id + 1 }

  -- `newProposal`; the hash of the command has read the same text before
  unfoldable pub new_proposal :
      Loaded
      → Schedule
      → ℕ
      → Audience
      → Option ℕ
      → Option Confirmed
      → Store
      → Result (Proposal × Store)
  unfolding proposal_row
  new_proposal w body request_key side predecessor base s =
      schedule_of body side s.now (base_start base) >>= λ r. text_of body.message >>= λ t.
      let canonical = record body { message = t } in
      let p = proposal_row w canonical request_key side r predecessor base s in
      if is_unmoved base r.starts_at r.ends_at
      then err bad_request
      else if any (λ x. x.workflow_id == w.row.id && x.request_key == request_key) s.proposals
      then err idempotency_key_reused
      else ok (p, insert_proposal p s)

-- the start is at most `VIEWING_CHANGE_CUTOFF_MS` away
abbrev pub past_cutoff : ℕ → ℕ → Bool
past_cutoff starts_at now = leb starts_at (now + viewing_change_cutoff_ms)

-- the writes of `cancelAppointment`
unfoldable pub cancel_writes : Confirmed → Audience → Cancellation → Option Text → Store → Store
cancel_writes c side reason note s = record s {
  viewings =
      update_where (λ v. v.id == c.viewing.id)
        (λ v. record v { status = ViewingStatus.cancelled; cancelled_at = some s.now }) s.viewings;
  appointments =
      update_where (λ a. a.viewing_id == c.viewing.id)
        (λ a. record a {
          cancelled_by = some (actor_of side);
          cancellation_reason = some reason;
          cancellation_note = note;
          late_cancellation = some (past_cutoff c.viewing.starts_at s.now);
        })
        s.appointments;
}

abbrev pub cancel_confirmed :
    Loaded → Option Confirmed → Audience → Cancellation → Option Text → Store → Result Store
cancel_confirmed w none side reason message s = ok s
cancel_confirmed w (some c) side reason message s = appointment w c.viewing.id s.now >>= λ _.
    text_of message >>= λ note. ok (cancel_writes c side reason note s)

-- `cancelAppointment`
unfoldable pub cancel_appointment :
    Loaded → Audience → Cancellation → Option Text → Store → Result Store
unfolding cancel_writes appointment
cancel_appointment w side reason message s =
    cancel_confirmed w w.confirmed_appointment side reason message s
