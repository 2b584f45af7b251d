-- ===== src/Workflows/Apply/Offering.antt =====
-- Each proposing action of src/application-viewings/viewing-workflow-command.service.ts is a step of the state
-- machine of the workflow.
use renyqo_app.Prelude.{
  ℕ, ◌+◌, ◌≡◌, refl, sym, ap, ◌∙◌, subst, Bool, true, false, not, ◌&&◌, ◌||◌, ◌==◌, Option, none,
  some, [], ◌∷◌, ◌++◌, All, arith, leb, is_some, Bool-cases, inl, inr,
}
use renyqo_app.Domain.{Audience, ProposalResolution, is_provider}
use renyqo_app.Applications.Store.{Store, ok, >>=-eq-ok, guard-eq-ok, Workflow, Proposal}
use renyqo_app.Applications.Closing.{is_pending_proposal}
use renyqo_app.Applications.Promotion.Batches.{ok_inj}
use renyqo_app.Workflows.Commands.{canonical_schedule, Schedule, Intent}
use renyqo_app.Workflows.Rows.{Loaded, Confirmed, pending, appointment, actor_of}
use renyqo_app.Workflows.Rows.Writes.{resolve, new_proposal}
use renyqo_app.Workflows.Step.{Step}
use renyqo_app.Workflows.Offers.{
  declines, start_afresh, check_confirmed, cutoff_passed, invite, replace_proposal,
  alternative_proposal, counterproposal, move_appointment, replacement, alternative_appointment,
  give_way,
}
use renyqo_app.Workflows.Apply.Moves.{
  is_present, is_present-append, pointers, IsMarked, IsBelow, IsSound, IsJoined, IsStep, pending-eq,
  appointment-eq, IsMarked-append, IsBelow-append,
}
use renyqo_app.Workflows.Apply.Steps.{KeepsRows, resolve-eq, IsSound-kept, resolved-IsSound}

module _ (digest : Schedule → ℕ) where
  -- what a new proposal does
  record IsNew (s : Store) (p : Proposal) (t : Store) : Type 0 where
    id : p.id ≡ s.next_id
    is_open : is_pending_proposal p.resolution ≡ true
    workflows : t.workflows ≡ s.workflows
    next_id : t.next_id ≡ s.next_id + 1
    proposals : t.proposals ≡ s.proposals ++ p ∷ []

  new_proposal-IsNew :
      (w : Loaded) (body : Schedule) (key : ℕ) (side : Audience) (before : Option ℕ)
      (base : Option Confirmed) (s : Store) (p : Proposal) (t : Store)
      → new_proposal digest w body key side before base s ≡ ok (p, t)
      → IsNew s p t
  unfolding new_proposal
  new_proposal-IsNew w body key side before base s p t h = grind arith

  -- a new proposal of a workflow that has none
  new-IsSound :
      (workflow_id : ℕ) (s : Store) (p : Proposal) (t : Store)
      → IsNew s p t
      → IsSound workflow_id none s
      → IsSound workflow_id (some p.id) t
  new-IsSound workflow_id s p t new sound = record {
    marked =
        subst (λ n. All (IsMarked workflow_id (some n)) t.proposals) (sym new.id)
          (subst (All (IsMarked workflow_id (some s.next_id))) (sym new.proposals) (
            IsMarked-append workflow_id s.next_id s.proposals p new.id new.is_open sound.below
              sound.marked));
    below =
        subst (λ n. All (IsBelow n) t.proposals) (sym new.next_id)
          (subst (All (IsBelow (s.next_id + 1))) (sym new.proposals)
            (IsBelow-append s.next_id s.proposals p new.id sound.below));
    present =
        subst (λ rows. is_present (some p.id) rows ≡ true) (sym new.proposals)
          (is_present-append s.proposals p);
  }

  start_afresh-KeepsRows : (w : Loaded) (s : Store) → KeepsRows s (start_afresh w s)
  start_afresh-KeepsRows w s = grind arith

  pub invite-IsStep :
      (w : Loaded) (user : ℕ) (side : Audience) (key : ℕ) (body : Schedule) (s : Store)
      (step : Step)
      → IsSound w.row.id w.row.pending_proposal_id s
      → invite digest w user side key body s ≡ ok step
      → IsStep (Intent.invite body) w s step
  unfolding invite
  invite-IsStep w user side key body s step sound h =
      let (_, h1) = guard-eq-ok (not (is_provider side)) _ _ h in
      let (free, h2) =
        guard-eq-ok (is_some w.row.pending_proposal_id || is_some w.row.confirmed_appointment_id) _
          _ h1 in
      let ((p, t), made, last) =
        >>=-eq-ok (new_proposal digest w body key side none none (start_afresh w s)) _ h2 in
      let new = new_proposal-IsNew w body key side none none (start_afresh w s) p t made in
      let kept = start_afresh-KeepsRows w s in
      let empty : pointers w.row ≡ (none, none) = ground (arith, free) in
      subst (IsStep (Intent.invite body) w s) (ok_inj last) (record {
        moves = (empty, ground (arith, new.id, kept.next_id, ap (λ x. x.1) empty));
        workflows = new.workflows ∙ kept.workflows;
        ids = λ x. (refl, refl);
        sound =
            IsSound-kept w.row.id (some p.id) t _
              (record { workflows = refl; next_id = refl; proposals = refl })
              (new-IsSound w.row.id (start_afresh w s) p t new (
                IsSound-kept w.row.id none s (start_afresh w s) kept
                  (subst (λ k. IsSound w.row.id k s) (ap (λ x. x.0) empty) sound)));
      })

  give_way-eq :
      (w : Loaded) (user : ℕ) (side : Audience) (counter : Bool) (p : Proposal) (s : Store)
      → (r : ProposalResolution) × (is_pending_proposal r ≡ false)
        × KeepsRows (resolve p r (actor_of side) s) (give_way w user side counter p s)
  unfolding give_way
  give_way-eq w user side counter p s = elim (Bool-cases (declines counter p)) [
    | inl declined ↦ (
      ProposalResolution.declined,
      refl,
      rw declined (record { workflows = refl; next_id = refl; proposals = refl }),
    )
    | inr superseded ↦ (
      ProposalResolution.superseded,
      refl,
      rw superseded (record { workflows = refl; next_id = refl; proposals = refl }),
    )
  ]

  check_confirmed-store :
      (w : Loaded) (id : Option ℕ) (s t : Store) → check_confirmed w id s ≡ ok t → s ≡ t
  check_confirmed-store w none s t h = ground arith
  check_confirmed-store w (some id) s t h = grind arith

  -- what the two actions that replace a proposal have in common
  record IsReplaced (w : Loaded) (id : ℕ) (s : Store) (step : Step) : Type 0 where
    pointed : w.row.pending_proposal_id ≡ some id
    after : pointers (step.patch w.row) ≡ (some s.next_id, w.row.confirmed_appointment_id)
    workflows : step.store.workflows ≡ s.workflows
    ids :
        (x : Workflow)
        → ((step.patch x).id ≡ x.id) × ((step.patch x).application_id ≡ x.application_id)
    sound : IsSound w.row.id (step.patch w.row).pending_proposal_id step.store

  replace_proposal-IsReplaced :
      (w : Loaded) (user : ℕ) (side : Audience) (key : ℕ) (counter : Bool) (body : Schedule)
      (id : ℕ) (p : Proposal) (s : Store) (step : Step)
      → IsJoined w
      → pending w id ≡ ok p
      → IsSound w.row.id w.row.pending_proposal_id s
      → replace_proposal digest w user side key counter body p s ≡ ok step
      → IsReplaced w id s step
  unfolding replace_proposal
  replace_proposal-IsReplaced w user side key counter body id p s step joined named sound h =
      let (s1, checked, h1) = >>=-eq-ok (check_confirmed w w.row.confirmed_appointment_id s) _ h in
      let way = give_way w user side counter p s1 in
      let ((next, t), made, last) =
        >>=-eq-ok (new_proposal digest w body key side (some p.id) w.confirmed_appointment way) _
          h1 in
      let same = check_confirmed-store w w.row.confirmed_appointment_id s s1 checked in
      let (r, shut, kept) = give_way-eq w user side counter p s1 in
      let (rows, ids, _) = resolve-eq p r (actor_of side) s1 in
      let new =
        new_proposal-IsNew w body key side (some p.id) w.confirmed_appointment way next t made in
      let sound1 = subst (IsSound w.row.id w.row.pending_proposal_id) same sound in
      let n : next.id ≡ s.next_id =
        new.id ∙ (kept.next_id ∙ (ids ∙ sym (ap (λ x. x.next_id) same))) in
      subst (IsReplaced w id s) (ok_inj last) (record {
        pointed = (pending-eq w id p named).0;
        after = ap (λ k. (some k, w.row.confirmed_appointment_id)) n;
        workflows = new.workflows ∙ (kept.workflows ∙ (rows ∙ sym (ap (λ x. x.workflows) same)));
        ids = λ x. (refl, refl);
        sound =
            IsSound-kept w.row.id (some next.id) t _
              (record { workflows = refl; next_id = refl; proposals = refl })
              (new-IsSound w.row.id way next t new (
                IsSound-kept w.row.id none (resolve p r (actor_of side) s1) way kept
                  (resolved-IsSound w id p joined named r (actor_of side) s1 shut sound1)));
      })

  pub counterproposal-IsStep :
      (w : Loaded) (user : ℕ) (side : Audience) (key id : ℕ) (body : Schedule) (s : Store)
      (step : Step)
      → IsJoined w
      → IsSound w.row.id w.row.pending_proposal_id s
      → counterproposal digest w user side key id body s ≡ ok step
      → IsStep (Intent.counterproposal id body) w s step
  unfolding counterproposal
  counterproposal-IsStep w user side key id body s step joined sound h =
      let (p, named, h1) = >>=-eq-ok (pending w id) _ h in
      let (_, h2) = guard-eq-ok (not (is_provider side)) _ _ h1 in
      let done =
        replace_proposal-IsReplaced w user side key true body id p s step joined named sound h2 in
      record {
        moves = (done.pointed, done.after);
        workflows = done.workflows;
        ids = done.ids;
        sound = done.sound;
      }

  pub alternative_proposal-IsStep :
      (w : Loaded) (user : ℕ) (side : Audience) (key id : ℕ) (body : Schedule) (s : Store)
      (step : Step)
      → IsJoined w
      → IsSound w.row.id w.row.pending_proposal_id s
      → alternative_proposal digest w user side key id body s ≡ ok step
      → IsStep (Intent.alternative_proposal id body) w s step
  unfolding alternative_proposal
  alternative_proposal-IsStep w user side key id body s step joined sound h =
      let (p, named, h1) = >>=-eq-ok (pending w id) _ h in
      let (_, h2) = guard-eq-ok (is_provider side) _ _ h1 in
      let (_, h3) = guard-eq-ok (cutoff_passed w.confirmed_appointment s.now) _ _ h2 in
      let (_, h4) =
        guard-eq-ok (not (is_provider p.proposer_side) || leb p.starts_at s.now) _ _ h3 in
      let (candidate, _, h5) = >>=-eq-ok (canonical_schedule body) _ h4 in
      let (_, h6) =
        guard-eq-ok (candidate.starts_at == p.starts_at && candidate.ends_at == p.ends_at) _ _ h5 in
      let done =
        replace_proposal-IsReplaced w user side key false body id p s step joined named sound h6 in
      record {
        moves = (done.pointed, done.after);
        workflows = done.workflows;
        ids = done.ids;
        sound = done.sound;
      }

  -- what the two actions that move an appointment have in common
  record IsMoved (w : Loaded) (id : ℕ) (s : Store) (step : Step) : Type 0 where
    before : pointers w.row ≡ (none, some id)
    after : pointers (step.patch w.row) ≡ (some s.next_id, some id)
    workflows : step.store.workflows ≡ s.workflows
    ids :
        (x : Workflow)
        → ((step.patch x).id ≡ x.id) × ((step.patch x).application_id ≡ x.application_id)
    sound : IsSound w.row.id (step.patch w.row).pending_proposal_id step.store

  move_appointment-IsMoved :
      (w : Loaded) (user : ℕ) (side : Audience) (key id : ℕ) (body : Schedule) (s : Store)
      (step : Step)
      → IsSound w.row.id w.row.pending_proposal_id s
      → move_appointment digest w user side key id body s ≡ ok step
      → IsMoved w id s step
  unfolding move_appointment
  move_appointment-IsMoved w user side key id body s step sound h =
      let (c, named, h1) = >>=-eq-ok (appointment w id s.now) _ h in
      let (free, h2) = guard-eq-ok (is_some w.row.pending_proposal_id) _ _ h1 in
      let ((p, t), made, last) =
        >>=-eq-ok (new_proposal digest w body key side (some c.appointment.proposal_id) (some c) s)
          _ h2 in
      let new =
        new_proposal-IsNew w body key side (some c.appointment.proposal_id) (some c) s p t made in
      let (pointed, _, _) = appointment-eq w id s.now c named in
      let empty : w.row.pending_proposal_id ≡ none = ground (arith, free) in
      subst (IsMoved w id s) (ok_inj last) (record {
        before = ground (arith, empty, pointed);
        after = ground (arith, new.id, pointed);
        workflows = new.workflows;
        ids = λ x. (refl, refl);
        sound =
            IsSound-kept w.row.id (some p.id) t _
              (record { workflows = refl; next_id = refl; proposals = refl })
              (new-IsSound w.row.id s p t new (subst (λ k. IsSound w.row.id k s) empty sound));
      })

  pub replacement-IsStep :
      (w : Loaded) (user : ℕ) (side : Audience) (key id : ℕ) (body : Schedule) (s : Store)
      (step : Step)
      → IsSound w.row.id w.row.pending_proposal_id s
      → replacement digest w user side key id body s ≡ ok step
      → IsStep (Intent.replacement id body) w s step
  unfolding replacement
  replacement-IsStep w user side key id body s step sound h =
      let (_, h1) = guard-eq-ok (not (is_provider side)) _ _ h in
      let done = move_appointment-IsMoved w user side key id body s step sound h1 in
      record {
        moves = (done.before, done.after);
        workflows = done.workflows;
        ids = done.ids;
        sound = done.sound;
      }

  pub alternative_appointment-IsStep :
      (w : Loaded) (user : ℕ) (side : Audience) (key id : ℕ) (body : Schedule) (s : Store)
      (step : Step)
      → IsSound w.row.id w.row.pending_proposal_id s
      → alternative_appointment digest w user side key id body s ≡ ok step
      → IsStep (Intent.alternative_appointment id body) w s step
  unfolding alternative_appointment
  alternative_appointment-IsStep w user side key id body s step sound h =
      let (_, h1) = guard-eq-ok (is_provider side) _ _ h in
      let (_, h2) = guard-eq-ok (cutoff_passed w.confirmed_appointment s.now) _ _ h1 in
      let done = move_appointment-IsMoved w user side key id body s step sound h2 in
      record {
        moves = (done.before, done.after);
        workflows = done.workflows;
        ids = done.ids;
        sound = done.sound;
      }
