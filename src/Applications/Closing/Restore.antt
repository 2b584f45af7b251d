-- ===== src/Applications/Closing/Restore.antt =====
-- `restoreWithinTransaction` of src/applications/viewing-lifecycle.service.ts: what a provider who takes
-- an application back clears of its viewings.
use renyqo_app.Prelude.{
  ℕ, ◌+◌, Bool, true, false, Option, none, some, ◌&&◌, ◌==◌, if◌then◌else◌, length,
}
use renyqo_app.Domain.{provider_actor, ClosureReason, Consideration}
use renyqo_app.Applications.Store.{Store, Result, ok, ◌>>=◌, Workflow, Proposal}
use renyqo_app.Applications.Closing.{
  is_closed, is_without_answer, find_workflow, live_viewings, close_interests, update_workflow,
  Options, close,
}

-- the client sets `updatedAt` with every update
abbrev undecided : ℕ → Workflow → Workflow
undecided now w = record w {
  provider_consideration = Consideration.undecided;
  consideration_decided_at = none;
  revision = w.revision + 1;
  updated_at = now;
}

abbrev is_ended : Option Workflow → Bool
is_ended none = false
is_ended (some w) = is_closed w.state

abbrev is_not_continued : Consideration → Bool
is_not_continued Consideration.do_not_continue = true
is_not_continued _ = false

-- the last step of `restoreWithinTransaction`
abbrev reopen_decision : Option Workflow → Store → Store
reopen_decision none s = s
reopen_decision (some w) s =
    if is_not_continued w.provider_consideration
    then update_workflow w.id (undecided s.now) s
    else s

abbrev restart_decision : Option Workflow → Store → Store
restart_decision none s = s
restart_decision (some w) s = update_workflow w.id (undecided s.now) s

abbrev close_open_interests : Option Workflow → Store → Store
close_open_interests none s = s
close_open_interests (some w) s = record s {
  appointments = close_interests w.id is_without_answer s.now s.appointments;
}

module _ (legacy_resolution : Store → ℕ → Proposal → Proposal) where
  -- `restoreWithinTransaction`
  pub restore_viewings : ℕ → ℕ → Store → Result Store
  unfolding find_workflow live_viewings close_interests
  restore_viewings application_id actor_user_id s =
      let before = find_workflow application_id s.workflows in
      let repaired = close_open_interests before s in
      let options : Options = record { do_not_continue = false; restore_cleanup = true } in
      if is_ended before && length (live_viewings application_id repaired.viewings) == 0
      then ok (restart_decision before repaired)
      else do
        s' ←
            close legacy_resolution application_id ClosureReason.application_rejected provider_actor
              (some actor_user_id) options repaired
        ok (reopen_decision (find_workflow application_id s'.workflows) s')
