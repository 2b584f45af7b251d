-- ===== src/Workflows/Decisions/Frame.antt =====
-- The receipts under the decisions of src/application-viewings/viewing-workflow-decision.service.ts.
use renyqo_app.Prelude.{
  Option-cases, inl, inr, ℕ, ◌≡◌, sym, ap, ◌∙◌, leb, Bool, not, ◌&&◌, ◌||◌, ◌==◌, Option, none,
  some, find, arith,
}
use renyqo_app.Domain.{
  is_provider, Audience, ActivityType, Interest, Consideration, ViewingOutcome, outcome_completed,
  outcome_no_show,
}
use renyqo_app.Viewings.Text.{Text}
use renyqo_app.Applications.Store.{
  Appointment, Store, ok, >>=-eq-ok, guard-eq-ok, Proposal, Workflow, CommandResult,
}
use renyqo_app.Applications.Lifecycle.Expiry.{latest_completed}
use renyqo_app.Applications.Promotion.Batches.{ok_inj}
use renyqo_app.Applications.Frame.{withdraw-kept, reject-kept}
use renyqo_app.Applications.Closing.{find_workflow}
use renyqo_app.Workflows.Commands.{Intent, OutcomeBody, text_of}
use renyqo_app.Workflows.Access.{ViewingApplication, can_mutate}
use renyqo_app.Workflows.Rows.{is_the}
use renyqo_app.Workflows.Consideration.{OutcomeEffect, record_effect, correct_effect, penalize}
use renyqo_app.Workflows.Reading.{read_rows, Read}
use renyqo_app.Workflows.Outcomes.{
  is_refused, absence_misplaced, effect_of, insert_outcome, record_outcome, outcome_writes,
  settle_interest, settle_workflow,
}
use renyqo_app.Workflows.Decisions.{
  apply_appointment, cannot_answer, decide, answer_interest, interest_writes, decide_consideration,
  consideration_writes, apply, apply_read, conclude, is_outcome,
}

record_effect-receipts :
    (input : OutcomeEffect) (s t : Store) → record_effect input s ≡ ok t → t.receipts ≡ s.receipts
unfolding record_effect correct_effect penalize
record_effect-receipts input s t h = grind arith

settle_interest-receipts :
    (r : Read) (o : ViewingOutcome) (s : Store) → (settle_interest r o s).receipts ≡ s.receipts
unfolding settle_interest
settle_interest-receipts r outcome_completed s = grind arith
settle_interest-receipts r outcome_no_show s = grind arith

settle_workflow-receipts : (r : Read) (s : Store) → (settle_workflow r s).receipts ≡ s.receipts
unfolding settle_workflow
settle_workflow-receipts r s = grind arith

outcome_writes-receipts :
    (r : Read) (body : OutcomeBody) (reason : Option Text) (s : Store) (e : ActivityType × Store)
    → outcome_writes r body reason s ≡ ok e
    → e.1.receipts ≡ s.receipts
unfolding outcome_writes
outcome_writes-receipts r body reason s e h =
    let input = effect_of r body s.next_id in
    let inserted = insert_outcome r body reason s in
    let (t, first, last) = >>=-eq-ok (record_effect input inserted) _ h in
    let kept = record_effect-receipts input inserted t first in
    let settled = settle_interest-receipts r body.outcome t in
    let moved = settle_workflow-receipts r (settle_interest r body.outcome t) in
    sym (ap (λ x. x.1.receipts) (ok_inj last)) ∙ (moved ∙ (settled ∙ kept))

record_outcome-receipts :
    (r : Read) (side : Audience) (body : OutcomeBody) (s : Store) (e : ActivityType × Store)
    → record_outcome r side body s ≡ ok e
    → e.1.receipts ≡ s.receipts
unfolding record_outcome
record_outcome-receipts r side body s e h =
    let (_, h1) = guard-eq-ok (not (is_provider side)) _ _ h in
    let (_, h2) = guard-eq-ok (not (leb r.viewing.ends_at s.now)) _ _ h1 in
    let (_, h3) = guard-eq-ok (is_refused r body s.now) _ _ h2 in
    let (_, h4) = guard-eq-ok (absence_misplaced body.outcome body.absence_side) _ _ h3 in
    let (reason, _, last) = >>=-eq-ok (text_of body.correction_reason) _ h4 in
    outcome_writes-receipts r body reason s e last

module _ (legacy_resolution : Store → ℕ → Proposal → Proposal) where
  interest_writes-receipts :
      (r : Read) (user : ℕ) (answer : Interest) (s : Store) (e : ActivityType × Store)
      → interest_writes legacy_resolution r user answer s ≡ ok e
      → e.1.receipts ≡ s.receipts
  unfolding interest_writes
  interest_writes-receipts r user answer s e h = grind (arith, withdraw-kept)

  answer_interest-receipts :
      (r : Read) (user : ℕ) (side : Audience) (answer : Interest) (confirmed : Bool) (s : Store)
      (e : ActivityType × Store)
      → answer_interest legacy_resolution r user side answer confirmed s ≡ ok e
      → e.1.receipts ≡ s.receipts
  unfolding answer_interest
  answer_interest-receipts r user side answer confirmed s e h =
      let (_, h1) = guard-eq-ok (is_provider side || not (can_mutate r.application)) _ _ h in
      let (_, h2) = guard-eq-ok (cannot_answer r s.now) _ _ h1 in
      let (_, h3) = guard-eq-ok _ _ _ h2 in interest_writes-receipts r user answer s e h3

  consideration_writes-receipts :
      (r : Read) (user : ℕ) (c : Consideration) (s t : Store)
      → consideration_writes legacy_resolution r user c s ≡ ok t
      → t.receipts ≡ s.receipts
  unfolding consideration_writes
  consideration_writes-receipts r user c s t h = grind (arith, reject-kept)

  decide_consideration-receipts :
      (r : Read) (user : ℕ) (side : Audience) (c : Consideration) (s : Store)
      (e : ActivityType × Store)
      → decide_consideration legacy_resolution r user side c s ≡ ok e
      → e.1.receipts ≡ s.receipts
  unfolding decide_consideration
  decide_consideration-receipts r user side c s e h = grind (arith, consideration_writes-receipts)

  decide-receipts :
      (r : Read) (user : ℕ) (side : Audience) (intent : Intent) (s : Store)
      (e : ActivityType × Store)
      → decide legacy_resolution r user side intent s ≡ ok e
      → e.1.receipts ≡ s.receipts
  unfolding decide
  decide-receipts r user side (Intent.outcome _ body) s e h =
      record_outcome-receipts r side body s e h
  decide-receipts r user side (Intent.interest _ answer confirmed) s e h =
      answer_interest-receipts r user side answer confirmed s e h
  decide-receipts r user side (Intent.consideration _ c) s e h =
      decide_consideration-receipts r user side c s e h
  decide-receipts r user side Intent.reconcile s e h = grind arith
  decide-receipts r user side (Intent.invite _) s e h = grind arith
  decide-receipts r user side (Intent.accept _) s e h = grind arith
  decide-receipts r user side (Intent.reject _) s e h = grind arith
  decide-receipts r user side (Intent.withdraw _) s e h = grind arith
  decide-receipts r user side (Intent.counterproposal _ _) s e h = grind arith
  decide-receipts r user side (Intent.alternative_proposal _ _) s e h = grind arith
  decide-receipts r user side (Intent.replacement _ _) s e h = grind arith
  decide-receipts r user side (Intent.alternative_appointment _ _) s e h = grind arith
  decide-receipts r user side (Intent.cancel _ _) s e h = grind arith
  decide-receipts r user side (Intent.close _ _) s e h = grind arith

  conclude-receipts :
      (r : Read) (user : ℕ) (side : Audience) (intent : Intent) (e : ActivityType × Store)
      (w : Option Workflow) (result : CommandResult) (t : Store)
      → conclude r user side intent e w ≡ ok (result, t)
      → t.receipts ≡ e.1.receipts
  conclude-receipts r user side intent e none result t h = grind arith
  conclude-receipts r user side intent e (some w) result t h = grind arith

  apply_read-receipts :
      (r : Read) (user : ℕ) (side : Audience) (intent : Intent) (s : Store) (result : CommandResult)
      (t : Store)
      → apply_read legacy_resolution r user side intent s ≡ ok (result, t)
      → t.receipts ≡ s.receipts
  unfolding apply_read
  apply_read-receipts r user side intent s result t h =
      let (_, h') =
        guard-eq-ok
          (not (is_outcome intent)
            && not (is_the r.viewing.id (latest_completed r.workflow.application_id s.viewings)))
          _ _ h in
      let (e, first, last) = >>=-eq-ok (decide legacy_resolution r user side intent s) _ h' in
      grind (
        arith,
        decide-receipts r user side intent s e first,
        conclude-receipts r user side intent e (find (λ x. x.id == r.workflow.id) e.1.workflows)
            result t last,
      )

  apply_appointment-receipts :
      (w : Workflow) (app : ViewingApplication) (a : Option Appointment) (user : ℕ)
      (side : Audience) (intent : Intent) (s : Store) (result : CommandResult) (t : Store)
      → apply_appointment legacy_resolution w app a user side intent s ≡ ok (result, t)
      → t.receipts ≡ s.receipts
  apply_appointment-receipts w app none user side intent s result t h = grind arith
  apply_appointment-receipts w app (some a) user side intent s result t h =
      elim (Option-cases (find (λ v. v.id == a.viewing_id) s.viewings)) [
        | inl missing ↦ grind (arith, (rw missing at h))
        | inr (v, joined) ↦
            apply_read-receipts (read_rows w app a v s) user side intent s result t (rw joined at h)
      ]

  pub apply-receipts :
      (app : ViewingApplication) (id user : ℕ) (side : Audience) (intent : Intent) (s : Store)
      (result : CommandResult) (t : Store)
      → apply legacy_resolution app id user side intent s ≡ ok (result, t)
      → t.receipts ≡ s.receipts
  unfolding apply
  apply-receipts app id user side intent s result t h =
      elim (Option-cases (find_workflow app.0.id s.workflows)) [
        | inl missing ↦ grind (arith, (rw missing at h))
        | inr (w, loaded) ↦
            apply_appointment-receipts w app
              (find (λ a. a.viewing_id == id && a.workflow_id == w.id) s.appointments) user side
              intent s result t (rw loaded at h)
      ]
