-- ===== src/Workflows/Apply/Ending.antt =====
-- The actions of src/application-viewings/viewing-workflow-command.service.ts that end a viewing, as
-- steps of the state machine of the workflow.
use renyqo_app.Prelude.{
  ℕ, ◌≡◌, ◌≢◌, refl, sym, ap, ◌∙◌, subst, true, false, not, ◌&&◌, ◌||◌, Option, none, some, arith,
  is_none,
}
use renyqo_app.Domain.{Audience, ActorType, ProposalResolution, is_provider, Cancellation}
use renyqo_app.Viewings.Text.{Text}
use renyqo_app.Applications.Store.{Store, ok, >>=-eq-ok, guard-eq-ok}
use renyqo_app.Applications.Closing.{is_closed}
use renyqo_app.Applications.Promotion.Batches.{ok_inj}
use renyqo_app.Workflows.Commands.{CloseBody, Intent}
use renyqo_app.Workflows.Rows.{same_id, Loaded, appointment, actor_of}
use renyqo_app.Workflows.Rows.Writes.{resolve_pending, cancel_appointment, cancel_writes}
use renyqo_app.Workflows.Step.{Step}
use renyqo_app.Workflows.Answers.{is_provider_reason, cancel, close, close_targets_changed}
use renyqo_app.Workflows.Apply.Moves.{pointers, IsSound, IsJoined, IsStep, appointment-eq}
use renyqo_app.Workflows.Apply.Steps.{KeepsRows, IsSound-kept, resolve_joined-IsSound}

cancel_appointment-KeepsRows :
    (w : Loaded) (side : Audience) (reason : Cancellation) (message : Option Text) (s t : Store)
    → cancel_appointment w side reason message s ≡ ok t
    → KeepsRows s t
unfolding cancel_appointment cancel_writes
cancel_appointment-KeepsRows w side reason message s t h = grind arith

-- the pending proposal is closed with the appointment
ended-IsSound :
    (w : Loaded) (actor : ActorType) (s t : Store)
    → IsJoined w
    → IsSound w.row.id w.row.pending_proposal_id s
    → KeepsRows (resolve_pending w.pending_proposal ProposalResolution.closed actor s) t
    → IsSound w.row.id none t × (t.workflows ≡ s.workflows)
ended-IsSound w actor s t joined sound kept =
    let (resolved, rows) =
      resolve_joined-IsSound w.row.id w.pending_proposal ProposalResolution.closed actor s refl
        (subst (λ k. IsSound w.row.id k s) (sym joined.proposal) sound) in
    (IsSound-kept w.row.id none _ t kept resolved, kept.workflows ∙ rows)

pub cancel-IsStep :
    (w : Loaded) (user : ℕ) (side : Audience) (id : ℕ) (message : Option Text) (s : Store)
    (step : Step)
    → IsJoined w
    → IsSound w.row.id w.row.pending_proposal_id s
    → cancel w user side id message s ≡ ok step
    → IsStep (Intent.cancel id message) w s step
unfolding cancel
cancel-IsStep w user side id message s step joined sound h =
    let (_, h1) = guard-eq-ok (is_provider side) _ _ h in
    let (c, named, h2) = >>=-eq-ok (appointment w id s.now) _ h1 in
    let resolved = resolve_pending w.pending_proposal ProposalResolution.closed (actor_of side) s in
    let (t, went, last) =
      >>=-eq-ok (cancel_appointment w side Cancellation.applicant_cancelled message resolved) _
        h2 in
    let (sound', rows) = ended-IsSound w (actor_of side) s t joined sound (
      cancel_appointment-KeepsRows w side Cancellation.applicant_cancelled message resolved t
        went) in
    subst (IsStep (Intent.cancel id message) w s) (ok_inj last) (record {
      moves = ((appointment-eq w id s.now c named).0, refl);
      workflows = rows;
      ids = λ x. (refl, refl);
      sound =
          IsSound-kept w.row.id none t _
            (record { workflows = refl; next_id = refl; proposals = refl }) sound';
    })

same_id-eq : (a b : Option ℕ) → same_id a b ≡ true → a ≡ b
same_id-eq none none h = refl
same_id-eq none (some b) h = cc
same_id-eq (some a) none h = cc
same_id-eq (some a) (some b) h = ground arith

-- the targets of a closure that went on
close-targets :
    (w : Loaded) (id : ℕ) (body : CloseBody)
    → (close_targets_changed w id body || is_closed w.row.state) ≡ false
    → (is_none w.row.pending_proposal_id && is_none w.row.confirmed_appointment_id) ≡ false
    → (pointers w.row ≡ (body.proposal_id, body.appointment_id)) × (pointers w.row ≢ (none, none))
close-targets w id body same left =
    let first = same_id-eq w.row.pending_proposal_id body.proposal_id in
    let second = same_id-eq w.row.confirmed_appointment_id body.appointment_id in
    (
      ground (arith, first, second),
      λ empty. ground (arith, ap (λ x. x.0) empty, ap (λ x. x.1) empty),
    )

pub close-IsStep :
    (w : Loaded) (user : ℕ) (side : Audience) (id : ℕ) (body : CloseBody) (s : Store) (step : Step)
    → IsJoined w
    → IsSound w.row.id w.row.pending_proposal_id s
    → close w user side id body s ≡ ok step
    → IsStep (Intent.close id body) w s step
unfolding close
close-IsStep w user side id body s step joined sound h =
    let (_, h1) = guard-eq-ok (not (is_provider side)) _ _ h in
    let (same, h2) =
      guard-eq-ok (close_targets_changed w id body || is_closed w.row.state) _ _ h1 in
    let (left, h3) =
      guard-eq-ok (is_none w.row.pending_proposal_id && is_none w.row.confirmed_appointment_id) _ _
        h2 in
    let (_, h4) = guard-eq-ok (not (is_provider_reason body.reason)) _ _ h3 in
    let resolved = resolve_pending w.pending_proposal ProposalResolution.closed (actor_of side) s in
    let (t, went, last) =
      >>=-eq-ok (cancel_appointment w side body.reason body.message resolved) _ h4 in
    let (sound', rows) =
      ended-IsSound w (actor_of side) s t joined sound
        (cancel_appointment-KeepsRows w side body.reason body.message resolved t went) in
    let (targets, nonempty) = close-targets w id body same left in
    subst (IsStep (Intent.close id body) w s) (ok_inj last) (record {
      moves = (targets, nonempty, refl);
      workflows = rows;
      ids = λ x. (refl, refl);
      sound =
          IsSound-kept w.row.id none t _
            (record { workflows = refl; next_id = refl; proposals = refl }) sound';
    })
