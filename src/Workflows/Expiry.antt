-- ===== src/Workflows/Expiry.antt =====
-- src/application-viewings/viewing-workflow-expiry.service.ts: a proposal and a question that nobody
-- answered in time. Each target of a batch is a transaction of its own.
pub mod Frame
pub mod Laws
use renyqo_app.Prelude.{
  ℕ, ◌+◌, Bool, true, false, not, Option, none, some, List, [], ◌∷◌, ◌&&◌, ◌||◌, ◌==◌, leb, is_none,
  if◌then◌else◌,
}
use renyqo_app.Domain.{ProposalResolution, ActivityType, system_actor, to_both}
use renyqo_app.Applications.Store.{
  Store, Result, ok, err, Workflow, Proposal, Activity, no_metadata, append_activity, update_where,
  find_application,
}
use renyqo_app.Applications.Closing.{
  find_workflow, is_closed, is_current_mode, is_pending_proposal, update_workflow,
}
use renyqo_app.Applications.Lifecycle.Expiry.{
  expire_viewing_interest, latest_completed, is_provider_closed,
}
use renyqo_app.Workflows.Rows.{Loaded, load, is_legacy_timing}
use renyqo_app.Workflows.Rows.Writes.{resolved_row}

abbrev pub is_reached : ℕ → Option ℕ → ℕ → Bool
is_reached now none starts_at = false
is_reached now (some deadline) starts_at = leb deadline now || leb starts_at now

-- the negation of the condition under which `proposalWithinTransaction` returns false
unfoldable pub is_overdue : Loaded → Proposal → ℕ → ℕ → Bool
is_overdue w p proposal_id now =
    is_current_mode w.row.mode
    && (not (is_closed w.row.state)
        && (p.id == proposal_id
            && (is_pending_proposal p.resolution
                && (not (is_legacy_timing p.timing)
                    && is_reached now p.response_deadline_at p.starts_at))))

abbrev pub unanswered_note : Loaded → Proposal → ℕ → Activity
unanswered_note w p now = record {
  application_id = w.row.application_id;
  type = ActivityType.viewing_proposal_expired;
  actor_user_id = none;
  actor_type = system_actor;
  visibility = to_both;
  occurred_at = now;
  metadata = record no_metadata {
    workflow_id = some w.row.id;
    workflow_revision = some (w.row.revision + 1);
    proposal_id = some p.id;
    viewing_round = some p.round;
  };
}

-- the writes of `proposalWithinTransaction`
unfoldable pub expire_writes : Loaded → Proposal → Store → Store
expire_writes w p s =
    let resolved = record s {
      proposals =
          update_where (λ x. x.id == p.id)
            (resolved_row ProposalResolution.expired system_actor s.now) s.proposals;
    } in
    let freed =
      update_workflow w.row.id
        (λ x. record x {
          pending_proposal_id = none;
          revision = x.revision + 1;
          updated_at = s.now;
        })
        resolved in
    append_activity (unanswered_note w p s.now) freed

abbrev pub expire_pending : Loaded → Option Proposal → ℕ → Store → Bool × Store
expire_pending w none proposal_id s = (false, s)
expire_pending w (some p) proposal_id s =
    if is_overdue w p proposal_id s.now then (true, expire_writes w p s) else (false, s)

abbrev pub expire_loaded : Option Loaded → ℕ → Store → Bool × Store
expire_loaded none proposal_id s = (false, s)
expire_loaded (some w) proposal_id s = expire_pending w w.pending_proposal proposal_id s

-- `proposalWithinTransaction`
unfoldable pub expire_proposal : ℕ → ℕ → Store → Bool × Store
unfolding load is_overdue expire_writes
expire_proposal application_id proposal_id s = expire_loaded (load application_id s) proposal_id s

pub data TargetKind : Type 0 where
  proposal_target interest_target : TargetKind

-- `ViewingExpiryTarget`
pub record Target : Type 0 where
  pub application_id : ℕ
  pub id : ℕ
  pub kind : TargetKind

-- what a batch counts, and the database after it
pub record Batch : Type 0 where
  pub processed : ℕ
  pub failures : ℕ
  pub after : Store

abbrev pub tally : Batch → Result (Bool × Store) → Batch
tally b (err thrown) = record b { failures = b.failures + 1 }
tally b (ok (true, s)) = record b { processed = b.processed + 1; after = s }
tally b (ok (false, s)) = record b { after = s }

module _ (legacy_resolution : Store → ℕ → Proposal → Proposal) where
  abbrev pub expire_completed : ℕ → Workflow → Option ℕ → Store → Result (Bool × Store)
  expire_completed application_id w none s = ok (false, s)
  expire_completed application_id w (some completed) s =
      expire_viewing_interest legacy_resolution application_id completed w.revision s.now s

  abbrev pub expire_asked : ℕ → Option Workflow → Store → Result (Bool × Store)
  expire_asked application_id none s = ok (false, s)
  expire_asked application_id (some w) s =
      if not (is_current_mode w.mode)
        || (is_closed w.state && not (is_provider_closed w.closure_reason))
      then ok (false, s)
      else expire_completed application_id w (latest_completed application_id s.viewings) s

  -- `interestWithinTransaction`
  unfoldable pub expire_interest : ℕ → Store → Result (Bool × Store)
  unfolding latest_completed
  expire_interest application_id s =
      expire_asked application_id (find_workflow application_id s.workflows) s

  abbrev pub expire_target_interest : Target → Option Workflow → Store → Result (Bool × Store)
  expire_target_interest t none s = ok (false, s)
  expire_target_interest t (some w) s =
      expire_viewing_interest legacy_resolution t.application_id t.id w.revision s.now s

  abbrev pub process_kind : TargetKind → Target → Store → Result (Bool × Store)
  process_kind proposal_target t s = ok (expire_proposal t.application_id t.id s)
  process_kind interest_target t s =
      expire_target_interest t (find_workflow t.application_id s.workflows) s

  -- `processTarget`
  unfoldable pub process_target : Target → Store → Result (Bool × Store)
  unfolding expire_proposal
  process_target t s =
      if is_none (find_application t.application_id s.applications)
      then ok (false, s)
      else process_kind t.kind t s

  -- the loop of `processBatch`
  unfoldable pub process_targets : List Target → Batch → Batch
  unfolding process_target
  process_targets [] b = b
  process_targets (t ∷ ts) b = process_targets ts (tally b (process_target t b.after))
