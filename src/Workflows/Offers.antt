-- ===== src/Workflows/Offers.antt =====
-- `apply` of src/application-viewings/viewing-workflow-command.service.ts: the actions by which a side
-- proposes a time.
use renyqo_app.Prelude.{
  ℕ, Bool, true, false, not, Option, none, some, ◌&&◌, ◌||◌, ◌==◌, leb, is_some, if◌then◌else◌,
}
use renyqo_app.Domain.{
  Audience, provider_side, applicant_side, is_provider, Reason, ActivityType, ProposalResolution,
}
use renyqo_app.Applications.Store.{
  Store, Result, ok, err, ◌>>=◌, bad_request, Proposal, no_metadata,
}
use renyqo_app.Applications.Closing.{close_interests, is_without_answer, is_closed}
use renyqo_app.Workflows.Commands.{Schedule, canonical_schedule}
use renyqo_app.Workflows.Rows.{Confirmed, Loaded, actor_of, appointment, changed, event, pending}
use renyqo_app.Workflows.Rows.Writes.{new_proposal, past_cutoff, resolve}
use renyqo_app.Workflows.Step.{Step, proposed, reopened}

-- `w.confirmedAppointment`, with its start so near that the applicant cannot change it any more
abbrev pub cutoff_passed : Option Confirmed → ℕ → Bool
cutoff_passed none now = false
cutoff_passed (some c) now = past_cutoff c.viewing.starts_at now

-- `patch` and the event of an invitation
abbrev pub invited : Loaded → ℕ → Audience → Proposal × Store → Step
invited w user_id side (p, s) = record {
  patch = reopened p;
  proposal_id = some p.id;
  appointment_id = none;
  store =
      event w user_id (actor_of side) ActivityType.viewing_proposed
        (record no_metadata {
          proposal_id = some p.id;
          viewing_round = some p.round;
          starts_at = some p.starts_at;
          ends_at = some p.ends_at;
        })
        s;
}

-- An unanswered decision is not carried into a workflow that opens again.
abbrev pub start_afresh : Loaded → Store → Store
start_afresh w s =
    if is_closed w.row.state
    then record s { appointments = close_interests w.row.id is_without_answer s.now s.appointments }
    else s

-- the event of a proposal that moves the viewing
abbrev pub moved : Audience → ActivityType
moved provider_side = ActivityType.viewing_replacement_proposed
moved applicant_side = ActivityType.viewing_change_requested

-- a counterproposal to the proposal of the applicant declines it
abbrev pub declines : Bool → Proposal → Bool
declines counter p = counter && not (is_provider p.proposer_side)

abbrev pub declined_note : Loaded → ℕ → Audience → Proposal → Store → Store
declined_note w user_id side p s =
    event w user_id (actor_of side) ActivityType.viewing_declined
      (record no_metadata { proposal_id = some p.id; counterproposal = true }) s

-- the old proposal is resolved before the new one is made
unfoldable pub give_way : Loaded → ℕ → Audience → Bool → Proposal → Store → Store
unfolding resolve
give_way w user_id side counter p s =
    if declines counter p
    then declined_note w user_id side p (resolve p ProposalResolution.declined (actor_of side) s)
    else resolve p ProposalResolution.superseded (actor_of side) s

abbrev pub check_confirmed : Loaded → Option ℕ → Store → Result Store
check_confirmed w none s = ok s
check_confirmed w (some id) s = appointment w id s.now >>= λ _. ok s

abbrev pub succeeded : Loaded → ℕ → Audience → Proposal → Proposal × Store → Step
succeeded w user_id side p (next, s) = record {
  patch = proposed next;
  proposal_id = some next.id;
  appointment_id = none;
  store =
      event w user_id (actor_of side) (moved side)
        (record no_metadata {
          proposal_id = some next.id;
          previous_proposal_id = some p.id;
          viewing_round = some next.round;
        })
        s;
}

abbrev pub postponed : Loaded → ℕ → Audience → Confirmed → Proposal × Store → Step
postponed w user_id side c (next, s) = record {
  patch = proposed next;
  proposal_id = some next.id;
  appointment_id = some c.viewing.id;
  store =
      event w user_id (actor_of side) (moved side)
        (record no_metadata {
          proposal_id = some next.id;
          appointment_id = some c.viewing.id;
          viewing_round = some next.round;
        })
        s;
}

module _ (digest : Schedule → ℕ) where
  -- the case `invite`
  unfoldable pub invite : Loaded → ℕ → Audience → ℕ → Schedule → Store → Result Step
  unfolding close_interests new_proposal
  invite w user_id side request_key body s =
      if not (is_provider side)
      then changed w Reason.action_not_allowed_for_side
      else if is_some w.row.pending_proposal_id || is_some w.row.confirmed_appointment_id
      then changed w Reason.viewing_already_pending_or_confirmed
      else (new_proposal digest w body request_key side none none (start_afresh w s) >>= λ r.
          ok (invited w user_id side r))

  -- the end of the cases `alternative-proposal` and `counterproposal`
  unfoldable pub replace_proposal :
      Loaded → ℕ → Audience → ℕ → Bool → Schedule → Proposal → Store → Result Step
  unfolding appointment give_way new_proposal
  replace_proposal w user_id side request_key counter body p s =
      check_confirmed w w.row.confirmed_appointment_id s >>= λ s'.
      new_proposal digest w body request_key side (some p.id) w.confirmed_appointment
        (give_way w user_id side counter p s')
      >>= λ r. ok (succeeded w user_id side p r)

  -- the case `alternative-proposal`
  unfoldable pub alternative_proposal :
      Loaded → ℕ → Audience → ℕ → ℕ → Schedule → Store → Result Step
  unfolding pending replace_proposal
  alternative_proposal w user_id side request_key proposal_id body s =
      pending w proposal_id >>= λ p.
      if is_provider side
      then changed w Reason.action_not_allowed_for_side
      else if cutoff_passed w.confirmed_appointment s.now
      then changed w Reason.applicant_change_cutoff_passed
      else if not (is_provider p.proposer_side) || leb p.starts_at s.now
      then changed w Reason.provider_invitation_required
      else (canonical_schedule body >>= λ candidate.
          if candidate.starts_at == p.starts_at && candidate.ends_at == p.ends_at
          then err bad_request
          else replace_proposal w user_id side request_key false body p s)

  -- the case `counterproposal`
  unfoldable pub counterproposal : Loaded → ℕ → Audience → ℕ → ℕ → Schedule → Store → Result Step
  unfolding pending replace_proposal
  counterproposal w user_id side request_key proposal_id body s = pending w proposal_id >>= λ p.
      if not (is_provider side)
      then changed w Reason.action_not_allowed_for_side
      else replace_proposal w user_id side request_key true body p s

  -- the end of the cases `replacement` and `alternative-appointment`
  unfoldable pub move_appointment : Loaded → ℕ → Audience → ℕ → ℕ → Schedule → Store → Result Step
  unfolding appointment new_proposal
  move_appointment w user_id side request_key appointment_id body s =
      appointment w appointment_id s.now >>= λ c.
      if is_some w.row.pending_proposal_id
      then changed w Reason.pending_proposal_must_be_resolved
      else (new_proposal digest w body request_key side (some c.appointment.proposal_id) (some c) s
          >>= λ r. ok (postponed w user_id side c r))

  -- the case `replacement`
  unfoldable pub replacement : Loaded → ℕ → Audience → ℕ → ℕ → Schedule → Store → Result Step
  unfolding move_appointment
  replacement w user_id side request_key appointment_id body s =
      if not (is_provider side)
      then changed w Reason.action_not_allowed_for_side
      else move_appointment w user_id side request_key appointment_id body s

  -- the case `alternative-appointment`
  unfoldable pub alternative_appointment :
      Loaded → ℕ → Audience → ℕ → ℕ → Schedule → Store → Result Step
  unfolding move_appointment
  alternative_appointment w user_id side request_key appointment_id body s =
      if is_provider side
      then changed w Reason.action_not_allowed_for_side
      else if cutoff_passed w.confirmed_appointment s.now
      then changed w Reason.applicant_change_cutoff_passed
      else move_appointment w user_id side request_key appointment_id body s
