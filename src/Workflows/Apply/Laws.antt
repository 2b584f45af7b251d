-- ===== src/Workflows/Apply/Laws.antt =====
-- The commands of src/application-viewings/viewing-workflow-command.service.ts, one after the other, as
-- runs of the state machine of the workflow.
use renyqo_app.Prelude.{
  ℕ, ◌+◌, ◌≡◌, refl, sym, ap, ◌∙◌, subst, true, ◌==◌, Option, none, some, List, [], ◌∷◌, arith,
  filter, length, if◌then◌else◌, Bool-cases, inl, inr,
}
use renyqo_app.Domain.{Audience}
use renyqo_app.Applications.Store.{
  find-update_where, Store, Result, ok, err, internal_error, ◌>>=◌, >>=-eq-ok, Workflow,
  CommandResult,
}
use renyqo_app.Applications.Closing.{find_workflow}
use renyqo_app.Applications.Promotion.Batches.{ok_inj}
use renyqo_app.Workflows.Commands.{Schedule, Intent}
use renyqo_app.Workflows.Rows.{Loaded, load, load_found, load_row, bump, is_at}
use renyqo_app.Workflows.Step.{Step}
use renyqo_app.Workflows.Apply.{act, apply}
use renyqo_app.Workflows.Apply.Moves.{pointers, Moves, IsSound, IsJoined, load_row-IsJoined, IsStep}
use renyqo_app.Workflows.Apply.Steps.{
  KeepsRows, IsSound-kept, accept-IsStep, reject-IsStep, withdraw-IsStep,
}
use renyqo_app.Workflows.Apply.Ending.{cancel-IsStep, close-IsStep}
use renyqo_app.Workflows.Apply.Offering.{
  invite-IsStep, counterproposal-IsStep, alternative_proposal-IsStep, replacement-IsStep,
  alternative_appointment-IsStep,
}

module _ (digest : Schedule → ℕ) where
  act-IsStep :
      (w : Loaded) (user : ℕ) (side : Audience) (key : ℕ) (intent : Intent) (s : Store)
      (step : Step)
      → IsJoined w
      → IsSound w.row.id w.row.pending_proposal_id s
      → act digest w user side key intent s ≡ ok step
      → IsStep intent w s step
  unfolding act
  act-IsStep w user side key Intent.reconcile s step joined sound h = cc
  act-IsStep w user side key (Intent.interest _ _ _) s step joined sound h = cc
  act-IsStep w user side key (Intent.consideration _ _) s step joined sound h = cc
  act-IsStep w user side key (Intent.outcome _ _) s step joined sound h = cc
  act-IsStep w user side key (Intent.invite body) s step joined sound h =
      invite-IsStep digest w user side key body s step sound h
  act-IsStep w user side key (Intent.accept id) s step joined sound h =
      accept-IsStep w user side id s step joined sound h
  act-IsStep w user side key (Intent.reject id) s step joined sound h =
      reject-IsStep w user side id s step joined sound h
  act-IsStep w user side key (Intent.withdraw id) s step joined sound h =
      withdraw-IsStep w user side id s step joined sound h
  act-IsStep w user side key (Intent.counterproposal id body) s step joined sound h =
      counterproposal-IsStep digest w user side key id body s step joined sound h
  act-IsStep w user side key (Intent.alternative_proposal id body) s step joined sound h =
      alternative_proposal-IsStep digest w user side key id body s step joined sound h
  act-IsStep w user side key (Intent.replacement id body) s step joined sound h =
      replacement-IsStep digest w user side key id body s step sound h
  act-IsStep w user side key (Intent.alternative_appointment id body) s step joined sound h =
      alternative_appointment-IsStep digest w user side key id body s step sound h
  act-IsStep w user side key (Intent.cancel id message) s step joined sound h =
      cancel-IsStep w user side id message s step joined sound h
  act-IsStep w user side key (Intent.close id body) s step joined sound h =
      close-IsStep w user side id body s step joined sound h

-- `w` is the workflow of the application, with the proposals that belong to it.
pub record IsCurrent (application_id : ℕ) (w : Workflow) (s : Store) : Type 0 where
  pub found : find_workflow application_id s.workflows ≡ some w
  pub owner : w.application_id ≡ application_id
  pub sound : IsSound w.id w.pending_proposal_id s

-- the workflow after one command
pub record IsNext (application_id : ℕ) (intent : Intent) (w : Workflow) (s : Store)
    (r : CommandResult) (s' : Store) : Type 0 where
  pub row : Workflow
  pub current : IsCurrent application_id row s'
  pub moves : Moves s.next_id intent (pointers w) (pointers row)
  pub revision : row.revision ≡ w.revision + 1
  pub reported : r.workflow_revision ≡ row.revision

is_at_self : (w : Workflow) → is_at w w ≡ true
is_at_self w = ground arith

bump-row :
    (application_id : ℕ) (w : Loaded) (patch : Workflow → Workflow) (s t : Store)
    → ((x : Workflow) → ((patch x).id ≡ x.id) × ((patch x).application_id ≡ x.application_id))
    → find_workflow application_id s.workflows ≡ some w.row
    → bump w patch s ≡ ok t
    → (find_workflow application_id t.workflows
        ≡ some (record (patch w.row) { revision = w.row.revision + 1; updated_at = s.now }))
      × KeepsRows s (record t { workflows = s.workflows })
unfolding bump find_workflow
bump-row application_id w patch s t ids found h =
    elim (Bool-cases (length (filter (is_at w.row) s.workflows) == 1)) [
      | inr stale ↦ cc (rw stale at h)
      | inl one ↦
          let written = ok_inj (rw one at h) in
          let moved : Workflow → Workflow =
            λ x. record (patch x) { revision = x.revision + 1; updated_at = s.now } in
          let there =
            find-update_where (λ x. x.application_id == application_id) (is_at w.row) moved
              s.workflows w.row (λ y. ap (λ k. k == application_id) (ids y).1) found in
          (
            ap (λ x. find_workflow application_id x.workflows) (sym written)
                ∙ (there ∙ ap (λ b. some (if b then moved w.row else w.row)) (is_at_self w.row)),
            record {
              workflows = refl;
              next_id = ap (λ x. x.next_id) (sym written);
              proposals = ap (λ x. x.proposals) (sym written);
            },
          )
    ]

-- a command with its sender, key and action
pub record Sent : Type 0 where
  pub user : ℕ
  pub side : Audience
  pub key : ℕ
  pub intent : Intent

module _ (digest : Schedule → ℕ) where
  -- A command that succeeds takes the workflow of the application one step of the state machine on:
  -- from none to a pending proposal, from there to a confirmed appointment, to another proposal or
  -- back, and from an appointment to its replacement or to nothing. The revision goes up by one, the
  -- command reports it, and a proposal of the workflow is pending after it exactly if the workflow
  -- points to it, provided that this was so before and no proposal has an id that is still to come.
  pub apply-IsNext :
      (application_id : ℕ) (w : Workflow) (user : ℕ) (side : Audience) (key : ℕ) (intent : Intent)
      (s : Store) (r : CommandResult) (s' : Store)
      → IsCurrent application_id w s
      → apply digest (load_row w s) user side key intent s ≡ ok (r, s')
      → IsNext application_id intent w s r s'
  unfolding apply
  apply-IsNext application_id w user side key intent s r s' current h =
      let joined = load_row-IsJoined w s current.sound in
      let (step, first, later) = >>=-eq-ok (act digest (load_row w s) user side key intent s) _ h in
      let (t, second, last) = >>=-eq-ok (bump (load_row w s) step.patch step.store) _ later in
      let done =
        act-IsStep digest (load_row w s) user side key intent s step joined current.sound first in
      let (found, kept) =
        bump-row application_id (load_row w s) step.patch step.store t done.ids
          (ap (find_workflow application_id) done.workflows ∙ current.found) second in
      let after : Workflow = record (step.patch w) {
        revision = w.revision + 1;
        updated_at = step.store.now;
      } in
      let sound =
        IsSound-kept after.id after.pending_proposal_id step.store
          (record t { workflows = step.store.workflows }) kept
          (subst (λ k. IsSound k after.pending_proposal_id step.store) (sym (done.ids w).0)
            done.sound) in
      subst (λ x. IsNext application_id intent w s x.0 x.1) (ok_inj last)
        (record {
          row = after;
          current = record {
            found = found;
            owner = (done.ids w).1 ∙ current.owner;
            sound = record { marked = sound.marked; below = sound.below; present = sound.present };
          };
          moves = done.moves;
          revision = refl;
          reported = refl;
        })

  abbrev apply_loaded : Option Loaded → Sent → Store → Result (CommandResult × Store)
  apply_loaded none c s = err internal_error
  apply_loaded (some w) c s = apply digest w c.user c.side c.key c.intent s

  -- Commands to one application, one after the other; each reads the workflow that it finds.
  unfoldable pub apply_all : ℕ → List Sent → Store → Result Store
  unfolding load apply
  apply_all application_id [] s = ok s
  apply_all application_id (c ∷ cs) s =
      apply_loaded (load application_id s) c s >>= λ r. apply_all application_id cs r.1

  load-current :
      (application_id : ℕ) (w : Workflow) (s : Store)
      → IsCurrent application_id w s
      → load application_id s ≡ some (load_row w s)
  unfolding load
  load-current application_id w s current = ap (λ o. load_found o s) current.found

  -- Whatever commands succeed one after the other on the workflow of an application, its revision
  -- counts them, and at the end a proposal of the workflow is pending exactly if the workflow points to
  -- it, so that at most one is, provided that this was so at the start.
  pub apply_all_lem :
      (application_id : ℕ) (cs : List Sent) (w : Workflow) (s s' : Store)
      → IsCurrent application_id w s
      → apply_all application_id cs s ≡ ok s'
      → (w' : Workflow) × IsCurrent application_id w' s' × (w'.revision ≡ w.revision + length cs)
  unfolding apply_all
  apply_all_lem application_id [] w s s' current h =
      (w, subst (IsCurrent application_id w) (ok_inj h) current, omega arith)
  apply_all_lem application_id (c ∷ cs) w s s' current h =
      let (r, first, later) = >>=-eq-ok (apply_loaded (load application_id s) c s) _ h in
      let applied : apply digest (load_row w s) c.user c.side c.key c.intent s ≡ ok r =
        ap (λ o. apply_loaded o c s) (sym (load-current application_id w s current)) ∙ first in
      let next =
        apply-IsNext application_id w c.user c.side c.key c.intent s r.0 r.1 current applied in
      let (w', current', counted) =
        apply_all_lem application_id cs next.row r.1 s' next.current later in
      (w', current', omega (arith, counted, next.revision))
