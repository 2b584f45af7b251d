-- ===== src/Workflows/Frame.antt =====
-- What the actions of a workflow keep: the receipts, which only `save` of
-- src/application-viewings/viewing-workflow-command.service.ts writes, and that the two sides of each
-- proposal differ.
use renyqo_app.Prelude.{
  ℕ, ◌≡◌, refl, sym, ap, ◌∙◌, Bool, true, false, not, ◌&&◌, ◌||◌, none, some, is_none, leb, ◌==◌,
  ◌++◌, Option, List, [], ◌∷◌, all, arith, Bool-cases, inl, inr,
}
use renyqo_app.Domain.{
  Audience, is_provider, provider_side, applicant_side, ActorType, Cancellation, ProposalResolution,
}
use renyqo_app.Viewings.Text.{Text}
use renyqo_app.Applications.Store.{
  Store, ok, >>=-eq-ok, guard-eq-ok, Workflow, Proposal, Receipt, CommandResult, update_where,
}
use renyqo_app.Applications.Closing.{is_closed}
use renyqo_app.Applications.Promotion.Batches.{ok_inj}
use renyqo_app.Workflows.Commands.{Schedule, CloseBody, Intent}
use renyqo_app.Workflows.Rows.{
  Loaded, Confirmed, bump, same_side, other_side, actor_of, appointment, pending, is_legacy_timing,
}
use renyqo_app.Workflows.Rows.Writes.{
  resolved_row, proposal_row, resolve_pending, resolve, new_proposal, cancel_appointment,
  cancel_writes,
}
use renyqo_app.Workflows.Step.{Step}
use renyqo_app.Workflows.Answers.{
  supersede_confirmed, close_targets_changed, is_provider_reason, decide, accept_writes,
  reject_writes, withdraw, cancel, close,
}
use renyqo_app.Workflows.Offers.{
  invite, replace_proposal, alternative_proposal, counterproposal, move_appointment, replacement,
  alternative_appointment, give_way,
}
use renyqo_app.Workflows.Apply.{act, apply}

-- the check `proposal_opposite_sides` of the table of proposals
abbrev pub is_opposed : Proposal → Bool
is_opposed p = not (same_side p.proposer_side p.responder_side)

unfoldable pub are_opposed : List Proposal → Bool
are_opposed rows = all is_opposed rows

-- what every action of a workflow keeps
abbrev pub kept : Store → List Receipt × Bool
kept s = (s.receipts, are_opposed s.proposals)

are_opposed-update_where :
    (q : Proposal → Bool) (f : Proposal → Proposal) (rows : List Proposal)
    → ((p : Proposal) → is_opposed (f p) ≡ is_opposed p)
    → are_opposed (update_where q f rows) ≡ are_opposed rows
unfolding update_where are_opposed
are_opposed-update_where q f [] same = refl
are_opposed-update_where q f (p ∷ rows) same = elim (Bool-cases (q p)) [
  | inl hit ↦
      rw (hit, are_opposed-update_where q f rows same) (ap (λ b. b && are_opposed rows) (same p))
  | inr miss ↦ rw (miss, are_opposed-update_where q f rows same) refl
]

are_opposed-append :
    (rows : List Proposal) (p : Proposal)
    → is_opposed p ≡ true
    → are_opposed (rows ++ p ∷ []) ≡ are_opposed rows
unfolding are_opposed
are_opposed-append [] p h = ground (arith, h)
are_opposed-append (x ∷ rows) p h = ap (λ b. is_opposed x && b) (are_opposed-append rows p h)

other_side-differs : (side : Audience) → not (same_side side (other_side side)) ≡ true
other_side-differs provider_side = refl
other_side-differs applicant_side = refl

resolve-kept :
    (p : Proposal) (resolution : ProposalResolution) (actor : ActorType) (s : Store)
    → kept (resolve p resolution actor s) ≡ kept s
unfolding resolve
resolve-kept p resolution actor s =
    let same =
      are_opposed-update_where (λ x. x.id == p.id) (resolved_row resolution actor s.now) s.proposals
        (λ x. refl) in
    grind (arith, same)

resolve_pending-kept :
    (p : Option Proposal) (resolution : ProposalResolution) (actor : ActorType) (s : Store)
    → kept (resolve_pending p resolution actor s) ≡ kept s
resolve_pending-kept none resolution actor s = refl
resolve_pending-kept (some p) resolution actor s = resolve-kept p resolution actor s

cancel_appointment-kept :
    (w : Loaded) (side : Audience) (reason : Cancellation) (message : Option Text) (s t : Store)
    → cancel_appointment w side reason message s ≡ ok t
    → kept t ≡ kept s
unfolding cancel_appointment cancel_writes
cancel_appointment-kept w side reason message s t h = grind arith

accept_writes-kept :
    (w : Loaded) (user : ℕ) (side : Audience) (p : Proposal) (s : Store)
    → kept (accept_writes w user side p s).store ≡ kept s
unfolding accept_writes
accept_writes-kept w user side p s = grind (arith, resolve-kept)

reject_writes-kept :
    (w : Loaded) (user : ℕ) (side : Audience) (p : Proposal) (s : Store)
    → kept (reject_writes w user side p s).store ≡ kept s
unfolding reject_writes
reject_writes-kept w user side p s = grind (arith, resolve-kept)

supersede_confirmed-kept :
    (w : Loaded) (c : Option Confirmed) (s t : Store)
    → supersede_confirmed w c s ≡ ok t
    → kept t ≡ kept s
supersede_confirmed-kept w none s t h = ground arith
supersede_confirmed-kept w (some c) s t h =
    let (_, _, last) = >>=-eq-ok (appointment w c.viewing.id s.now) _ h in
    ap kept (sym (ok_inj last))

decide-kept :
    (w : Loaded) (user : ℕ) (side : Audience) (accepts : Bool) (id : ℕ) (s : Store) (step : Step)
    → decide w user side accepts id s ≡ ok step
    → kept step.store ≡ kept s
unfolding decide
decide-kept w user side false id s step h =
    let (p, _, h1) = >>=-eq-ok (pending w id) _ h in
    let (_, h2) = guard-eq-ok (not (same_side p.responder_side side)) _ _ h1 in
    let (_, last) = guard-eq-ok (leb p.starts_at s.now) _ _ h2 in
    ap (λ x. kept x.store) (sym (ok_inj last)) ∙ reject_writes-kept w user side p s
decide-kept w user side true id s step h =
    let (p, _, h1) = >>=-eq-ok (pending w id) _ h in
    let (_, h2) = guard-eq-ok (not (same_side p.responder_side side)) _ _ h1 in
    let (_, h3) = guard-eq-ok (leb p.starts_at s.now) _ _ h2 in
    let (_, h4) =
      guard-eq-ok (is_legacy_timing p.timing || is_none p.response_deadline_at) _ _ h3 in
    let (t, first, last) = >>=-eq-ok (supersede_confirmed w w.confirmed_appointment s) _ h4 in
    ap (λ x. kept x.store) (sym (ok_inj last))
    ∙ (accept_writes-kept w user side p t
        ∙ supersede_confirmed-kept w w.confirmed_appointment s t first)

withdraw_proposal-kept :
    (w : Loaded) (user : ℕ) (side : Audience) (id : ℕ) (s : Store) (step : Step)
    → withdraw w user side id s ≡ ok step
    → kept step.store ≡ kept s
unfolding withdraw
withdraw_proposal-kept w user side id s step h = grind (arith, resolve-kept)

cancel-kept :
    (w : Loaded) (user : ℕ) (side : Audience) (id : ℕ) (message : Option Text) (s : Store)
    (step : Step)
    → cancel w user side id message s ≡ ok step
    → kept step.store ≡ kept s
unfolding cancel
cancel-kept w user side id message s step h = grind (arith, resolve-kept, cancel_appointment-kept)

close-kept :
    (w : Loaded) (user : ℕ) (side : Audience) (id : ℕ) (body : CloseBody) (s : Store) (step : Step)
    → close w user side id body s ≡ ok step
    → kept step.store ≡ kept s
unfolding close
close-kept w user side id body s step h =
    let (_, h1) = guard-eq-ok (not (is_provider side)) _ _ h in
    let (_, h2) = guard-eq-ok (close_targets_changed w id body || is_closed w.row.state) _ _ h1 in
    let (_, h3) =
      guard-eq-ok (is_none w.row.pending_proposal_id && is_none w.row.confirmed_appointment_id) _ _
        h2 in
    let (_, h4) = guard-eq-ok (not (is_provider_reason body.reason)) _ _ h3 in
    let resolved = resolve_pending w.pending_proposal ProposalResolution.closed (actor_of side) s in
    let (t, first, last) =
      >>=-eq-ok (cancel_appointment w side body.reason body.message resolved) _ h4 in
    ap (λ x. kept x.store) (sym (ok_inj last))
    ∙ (cancel_appointment-kept w side body.reason body.message resolved t first
        ∙ resolve_pending-kept w.pending_proposal ProposalResolution.closed (actor_of side) s)

bump-kept :
    (w : Loaded) (patch : Workflow → Workflow) (s t : Store)
    → bump w patch s ≡ ok t
    → kept t ≡ kept s
unfolding bump
bump-kept w patch s t h = grind arith

module _ (digest : Schedule → ℕ) where
  new_proposal-kept :
      (w : Loaded) (body : Schedule) (key : ℕ) (side : Audience) (before : Option ℕ)
      (base : Option Confirmed) (s : Store) (p : Proposal) (t : Store)
      → new_proposal digest w body key side before base s ≡ ok (p, t)
      → kept t ≡ kept s
  unfolding new_proposal proposal_row
  new_proposal-kept w body key side before base s p t h =
      grind (arith, are_opposed-append, other_side-differs)

  invite-kept :
      (w : Loaded) (user : ℕ) (side : Audience) (key : ℕ) (body : Schedule) (s : Store)
      (step : Step)
      → invite digest w user side key body s ≡ ok step
      → kept step.store ≡ kept s
  unfolding invite
  invite-kept w user side key body s step h = grind (arith, new_proposal-kept)

  give_way-kept :
      (w : Loaded) (user : ℕ) (side : Audience) (counter : Bool) (p : Proposal) (s : Store)
      → kept (give_way w user side counter p s) ≡ kept s
  unfolding give_way
  give_way-kept w user side counter p s = grind (arith, resolve-kept)

  replace_proposal-kept :
      (w : Loaded) (user : ℕ) (side : Audience) (key : ℕ) (counter : Bool) (body : Schedule)
      (p : Proposal) (s : Store) (step : Step)
      → replace_proposal digest w user side key counter body p s ≡ ok step
      → kept step.store ≡ kept s
  unfolding replace_proposal
  replace_proposal-kept w user side key counter body p s step h =
      grind (arith, new_proposal-kept, give_way-kept)

  alternative_proposal-kept :
      (w : Loaded) (user : ℕ) (side : Audience) (key id : ℕ) (body : Schedule) (s : Store)
      (step : Step)
      → alternative_proposal digest w user side key id body s ≡ ok step
      → kept step.store ≡ kept s
  unfolding alternative_proposal
  alternative_proposal-kept w user side key id body s step h = grind (arith, replace_proposal-kept)

  counterproposal-kept :
      (w : Loaded) (user : ℕ) (side : Audience) (key id : ℕ) (body : Schedule) (s : Store)
      (step : Step)
      → counterproposal digest w user side key id body s ≡ ok step
      → kept step.store ≡ kept s
  unfolding counterproposal
  counterproposal-kept w user side key id body s step h = grind (arith, replace_proposal-kept)

  move_appointment-kept :
      (w : Loaded) (user : ℕ) (side : Audience) (key id : ℕ) (body : Schedule) (s : Store)
      (step : Step)
      → move_appointment digest w user side key id body s ≡ ok step
      → kept step.store ≡ kept s
  unfolding move_appointment
  move_appointment-kept w user side key id body s step h = grind (arith, new_proposal-kept)

  replacement-kept :
      (w : Loaded) (user : ℕ) (side : Audience) (key id : ℕ) (body : Schedule) (s : Store)
      (step : Step)
      → replacement digest w user side key id body s ≡ ok step
      → kept step.store ≡ kept s
  unfolding replacement
  replacement-kept w user side key id body s step h = grind (arith, move_appointment-kept)

  alternative_appointment-kept :
      (w : Loaded) (user : ℕ) (side : Audience) (key id : ℕ) (body : Schedule) (s : Store)
      (step : Step)
      → alternative_appointment digest w user side key id body s ≡ ok step
      → kept step.store ≡ kept s
  unfolding alternative_appointment
  alternative_appointment-kept w user side key id body s step h =
      grind (arith, move_appointment-kept)

  pub act-kept :
      (w : Loaded) (user : ℕ) (side : Audience) (key : ℕ) (intent : Intent) (s : Store)
      (step : Step)
      → act digest w user side key intent s ≡ ok step
      → kept step.store ≡ kept s
  unfolding act
  act-kept w user side key Intent.reconcile s step h = grind arith
  act-kept w user side key (Intent.interest _ _ _) s step h = grind arith
  act-kept w user side key (Intent.consideration _ _) s step h = grind arith
  act-kept w user side key (Intent.outcome _ _) s step h = grind arith
  act-kept w user side key (Intent.invite body) s step h = invite-kept w user side key body s step h
  act-kept w user side key (Intent.accept id) s step h = decide-kept w user side true id s step h
  act-kept w user side key (Intent.reject id) s step h = decide-kept w user side false id s step h
  act-kept w user side key (Intent.withdraw id) s step h =
      withdraw_proposal-kept w user side id s step h
  act-kept w user side key (Intent.counterproposal id body) s step h =
      counterproposal-kept w user side key id body s step h
  act-kept w user side key (Intent.alternative_proposal id body) s step h =
      alternative_proposal-kept w user side key id body s step h
  act-kept w user side key (Intent.replacement id body) s step h =
      replacement-kept w user side key id body s step h
  act-kept w user side key (Intent.alternative_appointment id body) s step h =
      alternative_appointment-kept w user side key id body s step h
  act-kept w user side key (Intent.cancel id message) s step h =
      cancel-kept w user side id message s step h
  act-kept w user side key (Intent.close id body) s step h = close-kept w user side id body s step h

  apply-kept :
      (w : Loaded) (user : ℕ) (side : Audience) (key : ℕ) (intent : Intent) (s : Store)
      (r : CommandResult) (t : Store)
      → apply digest w user side key intent s ≡ ok (r, t)
      → kept t ≡ kept s
  unfolding apply
  apply-kept w user side key intent s r t h =
      let (step, first, later) = >>=-eq-ok (act digest w user side key intent s) _ h in
      let (u, second, last) = >>=-eq-ok (bump w step.patch step.store) _ later in
      grind (
        arith,
        act-kept w user side key intent s step first,
        bump-kept w step.patch step.store u second,
        last,
      )

  pub apply-receipts :
      (w : Loaded) (user : ℕ) (side : Audience) (key : ℕ) (intent : Intent) (s : Store)
      (r : CommandResult) (t : Store)
      → apply digest w user side key intent s ≡ ok (r, t)
      → t.receipts ≡ s.receipts
  apply-receipts w user side key intent s r t h =
      ap (λ k. k.0) (apply-kept w user side key intent s r t h)
