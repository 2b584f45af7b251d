-- ===== src/Workflows/Apply/Steps.antt =====
-- Each action of src/application-viewings/viewing-workflow-command.service.ts is a step of the state
-- machine of the workflow.
use renyqo_app.Prelude.{
  ℕ, ◌≡◌, refl, sym, ap, ◌∙◌, subst, true, false, not, ◌||◌, ◌==◌, Option, none, some, All, arith,
  leb, is_none,
}
use renyqo_app.Domain.{Audience, ActorType, ProposalResolution, is_provider}
use renyqo_app.Applications.Store.{Store, ok, >>=-eq-ok, guard-eq-ok, Proposal, update_where}
use renyqo_app.Applications.Closing.{is_pending_proposal}
use renyqo_app.Applications.Promotion.Batches.{ok_inj}
use renyqo_app.Workflows.Commands.{Intent}
use renyqo_app.Workflows.Rows.{Loaded, Confirmed, pending, same_side, actor_of, is_legacy_timing}
use renyqo_app.Workflows.Rows.Writes.{resolved_row, resolve, resolve_pending}
use renyqo_app.Workflows.Step.{Step}
use renyqo_app.Workflows.Answers.{
  supersede_confirmed, decide, accept_writes, reject_writes, withdraw,
}
use renyqo_app.Workflows.Apply.Moves.{
  is_present, is_present, IsMarked, IsBelow, IsSound, IsJoined, joined_id, IsStep, pending-eq,
  IsMarked-resolved, IsBelow-resolved,
}

-- what a part of an action keeps of the store, the proposals aside
pub record KeepsRows (s t : Store) : Type 0 where
  pub workflows : t.workflows ≡ s.workflows
  pub next_id : t.next_id ≡ s.next_id
  pub proposals : t.proposals ≡ s.proposals

pub resolve-eq :
    (p : Proposal) (resolution : ProposalResolution) (actor : ActorType) (s : Store)
    → ((resolve p resolution actor s).workflows ≡ s.workflows)
      × ((resolve p resolution actor s).next_id ≡ s.next_id)
      × ((resolve p resolution actor s).proposals
          ≡ update_where (λ x. x.id == p.id) (resolved_row resolution actor s.now) s.proposals)
unfolding resolve
resolve-eq p resolution actor s = grind arith

-- the resolution of the pending proposal
pub resolve-IsSound :
    (workflow_id : ℕ) (p : Proposal) (resolution : ProposalResolution) (actor : ActorType)
    (s : Store)
    → is_pending_proposal resolution ≡ false
    → IsSound workflow_id (some p.id) s
    → IsSound workflow_id none (resolve p resolution actor s)
resolve-IsSound workflow_id p resolution actor s shut sound =
    let (_, ids, rows) = resolve-eq p resolution actor s in
    record {
      marked =
          subst (All (IsMarked workflow_id none)) (sym rows) (
            IsMarked-resolved workflow_id p.id resolution actor s.now s.proposals shut
              sound.marked);
      below =
          subst (λ n. All (IsBelow n) (resolve p resolution actor s).proposals) (sym ids)
            (subst (All (IsBelow s.next_id)) (sym rows)
              (IsBelow-resolved s.next_id p.id resolution actor s.now s.proposals sound.below));
      present = refl;
    }

pub IsSound-kept :
    (workflow_id : ℕ) (pointer : Option ℕ) (s t : Store)
    → KeepsRows s t
    → IsSound workflow_id pointer s
    → IsSound workflow_id pointer t
IsSound-kept workflow_id pointer s t kept sound = record {
  marked = subst (All (IsMarked workflow_id pointer)) (sym kept.proposals) sound.marked;
  below =
      subst (λ n. All (IsBelow n) t.proposals) (sym kept.next_id)
        (subst (All (IsBelow s.next_id)) (sym kept.proposals) sound.below);
  present = subst (λ rows. is_present pointer rows ≡ true) (sym kept.proposals) sound.present;
}

pub resolve_joined-IsSound :
    (workflow_id : ℕ) (o : Option Proposal) (resolution : ProposalResolution) (actor : ActorType)
    (s : Store)
    → is_pending_proposal resolution ≡ false
    → IsSound workflow_id (joined_id o) s
    → IsSound workflow_id none (resolve_pending o resolution actor s)
      × ((resolve_pending o resolution actor s).workflows ≡ s.workflows)
resolve_joined-IsSound workflow_id none resolution actor s shut sound = (sound, refl)
resolve_joined-IsSound workflow_id (some p) resolution actor s shut sound = (
  resolve-IsSound workflow_id p resolution actor s shut sound,
  (resolve-eq p resolution actor s).0,
)

-- the pending proposal that an action names
module _ (w : Loaded) (id : ℕ) (p : Proposal) (joined : IsJoined w)
    (named : pending w id ≡ ok p) where
  pub pending-id : p.id ≡ id
  pending-id =
      let (pointed, found) = pending-eq w id p named in
      let same : some p.id ≡ some id = sym (ap joined_id found) ∙ (joined.proposal ∙ pointed) in
      ground (arith, same)

  pub pending-pointed : w.row.pending_proposal_id ≡ some p.id
  pending-pointed = (pending-eq w id p named).0 ∙ sym (ap some pending-id)

  pub resolved-IsSound :
      (resolution : ProposalResolution) (actor : ActorType) (s : Store)
      → is_pending_proposal resolution ≡ false
      → IsSound w.row.id w.row.pending_proposal_id s
      → IsSound w.row.id none (resolve p resolution actor s)
  resolved-IsSound resolution actor s shut sound =
      resolve-IsSound w.row.id p resolution actor s shut
        (subst (λ k. IsSound w.row.id k s) pending-pointed sound)

supersede-KeepsRows :
    (w : Loaded) (c : Option Confirmed) (s t : Store)
    → supersede_confirmed w c s ≡ ok t
    → KeepsRows s t
supersede-KeepsRows w none s t h = grind arith
supersede-KeepsRows w (some c) s t h = grind arith

accept_writes-KeepsRows :
    (w : Loaded) (user : ℕ) (side : Audience) (p : Proposal) (s : Store)
    → KeepsRows
        (resolve p ProposalResolution.accepted (actor_of side) s)
        (accept_writes w user side p s).store
unfolding accept_writes
accept_writes-KeepsRows w user side p s = grind arith

pub accept-IsStep :
    (w : Loaded) (user : ℕ) (side : Audience) (id : ℕ) (s : Store) (step : Step)
    → IsJoined w
    → IsSound w.row.id w.row.pending_proposal_id s
    → decide w user side true id s ≡ ok step
    → IsStep (Intent.accept id) w s step
unfolding decide
accept-IsStep w user side id s step joined sound h =
    let (p, named, h1) = >>=-eq-ok (pending w id) _ h in
    let (_, h2) = guard-eq-ok (not (same_side p.responder_side side)) _ _ h1 in
    let (_, h3) = guard-eq-ok (leb p.starts_at s.now) _ _ h2 in
    let (_, h4) =
      guard-eq-ok (is_legacy_timing p.timing || is_none p.response_deadline_at) _ _ h3 in
    let (t, went, last) = >>=-eq-ok (supersede_confirmed w w.confirmed_appointment s) _ h4 in
    let kept = supersede-KeepsRows w w.confirmed_appointment s t went in
    let rows = accept_writes-KeepsRows w user side p t in
    let resolved =
      resolved-IsSound w id p joined named ProposalResolution.accepted (actor_of side) t refl
        (IsSound-kept w.row.id w.row.pending_proposal_id s t kept sound) in
    subst (IsStep (Intent.accept id) w s) (ok_inj last) (record {
      moves =
          ((pending-eq w id p named).0, ap (λ k. (none, some k)) (pending-id w id p joined named));
      workflows =
          rows.workflows
          ∙ ((resolve-eq p ProposalResolution.accepted (actor_of side) t).0 ∙ kept.workflows);
      ids = λ x. (refl, refl);
      sound = IsSound-kept w.row.id none _ _ rows resolved;
    })

pub reject-IsStep :
    (w : Loaded) (user : ℕ) (side : Audience) (id : ℕ) (s : Store) (step : Step)
    → IsJoined w
    → IsSound w.row.id w.row.pending_proposal_id s
    → decide w user side false id s ≡ ok step
    → IsStep (Intent.reject id) w s step
unfolding decide reject_writes
reject-IsStep w user side id s step joined sound h =
    let (p, named, h1) = >>=-eq-ok (pending w id) _ h in
    let (_, h2) = guard-eq-ok (not (same_side p.responder_side side)) _ _ h1 in
    let (_, h3) = guard-eq-ok (leb p.starts_at s.now) _ _ h2 in
    subst (IsStep (Intent.reject id) w s) (ok_inj h3) (record {
      moves = ((pending-eq w id p named).0, refl);
      workflows = (resolve-eq p ProposalResolution.declined (actor_of side) s).0;
      ids = λ x. (refl, refl);
      sound =
          IsSound-kept w.row.id none _ _
            (record { workflows = refl; next_id = refl; proposals = refl })
            (resolved-IsSound w id p joined named ProposalResolution.declined (actor_of side) s refl
              sound);
    })

pub withdraw-IsStep :
    (w : Loaded) (user : ℕ) (side : Audience) (id : ℕ) (s : Store) (step : Step)
    → IsJoined w
    → IsSound w.row.id w.row.pending_proposal_id s
    → withdraw w user side id s ≡ ok step
    → IsStep (Intent.withdraw id) w s step
unfolding withdraw
withdraw-IsStep w user side id s step joined sound h =
    let (_, h1) = guard-eq-ok (is_provider side) _ _ h in
    let (p, named, h2) = >>=-eq-ok (pending w id) _ h1 in
    let (_, h3) = guard-eq-ok (is_provider p.proposer_side) _ _ h2 in
    subst (IsStep (Intent.withdraw id) w s) (ok_inj h3) (record {
      moves = ((pending-eq w id p named).0, refl);
      workflows = (resolve-eq p ProposalResolution.withdrawn (actor_of side) s).0;
      ids = λ x. (refl, refl);
      sound =
          IsSound-kept w.row.id none _ _
            (record { workflows = refl; next_id = refl; proposals = refl })
            (resolved-IsSound w id p joined named ProposalResolution.withdrawn (actor_of side) s
              refl sound);
    })
