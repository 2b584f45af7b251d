-- ===== src/Workflows/Apply/Allowed.antt =====
-- Who may take which action, and until when
-- (src/application-viewings/viewing-workflow-command.service.ts).
use renyqo_app.Prelude.{
  ℕ, ◌+◌, ◌<◌, ◌≡◌, refl, ap, ◌∙◌, Bool, true, false, not, ◌||◌, ◌==◌, Option, none, some, List, [],
  ◌∷◌, find, arith, leb, Bool-cases, inl, inr,
}
use renyqo_app.Domain.{Audience, provider_side, applicant_side, is_provider}
use renyqo_app.Applications.Store.{Store, ok, >>=-eq-ok, guard-eq-ok, Workflow, Proposal}
use renyqo_app.Workflows.Commands.{Schedule, Intent}
use renyqo_app.Workflows.Rows.{
  Loaded, Confirmed, pending, appointment, same_side, other_side, find_proposal, load_row,
  viewing_change_cutoff_ms,
}
use renyqo_app.Workflows.Frame.{is_opposed, are_opposed, act-kept}
use renyqo_app.Workflows.Step.{Step}
use renyqo_app.Workflows.Answers.{decide, withdraw, cancel, close}
use renyqo_app.Workflows.Offers.{
  invite, alternative_proposal, counterproposal, move_appointment, replacement,
  alternative_appointment, cutoff_passed,
}
use renyqo_app.Workflows.Apply.{act}
use renyqo_app.Workflows.Apply.Moves.{pending-eq, appointment-eq}

-- the pending proposal, with what holds of it
abbrev WithPending : Loaded → (Proposal → Type 0) → Type 0
WithPending w P = (p : Proposal) × (w.pending_proposal ≡ some p) × P p

-- the confirmed appointment starts after `t`
abbrev ConfirmedAfter : Loaded → ℕ → Type 0
ConfirmedAfter w t =
    (c : Confirmed) × (w.confirmed_appointment ≡ some c) × (t < c.viewing.starts_at)

-- a confirmed appointment, if there is one, starts after `t`
abbrev NoneBefore : Option Confirmed → ℕ → Type 0
NoneBefore none t = Unit
NoneBefore (some c) t = t < c.viewing.starts_at

-- `side` has not made the proposal and is the one to answer it, and the viewing is still to come
abbrev IsAnswerable : Proposal → Audience → ℕ → Type 0
IsAnswerable p side now =
    (side ≡ p.responder_side) × (p.proposer_side ≡ other_side side) × (now < p.starts_at)

-- the side, the proposal and the appointment that an action needs at the time `now`
abbrev pub IsAllowed : Loaded → Audience → ℕ → Intent → Type 0
IsAllowed w side now (Intent.invite _) = side ≡ provider_side
IsAllowed w side now (Intent.accept _) = WithPending w (λ p. IsAnswerable p side now)
IsAllowed w side now (Intent.reject _) = WithPending w (λ p. IsAnswerable p side now)
IsAllowed w side now (Intent.withdraw _) =
    (side ≡ applicant_side) × WithPending w (λ p. p.proposer_side ≡ applicant_side)
IsAllowed w side now (Intent.counterproposal _ _) =
    (side ≡ provider_side) × WithPending w (λ p. Unit)
IsAllowed w side now (Intent.alternative_proposal _ _) =
    (side ≡ applicant_side)
    × NoneBefore w.confirmed_appointment (now + viewing_change_cutoff_ms)
    × WithPending w (λ p. (p.proposer_side ≡ provider_side) × (now < p.starts_at))
IsAllowed w side now (Intent.replacement _ _) = (side ≡ provider_side) × ConfirmedAfter w now
IsAllowed w side now (Intent.alternative_appointment _ _) =
    (side ≡ applicant_side) × ConfirmedAfter w (now + viewing_change_cutoff_ms)
IsAllowed w side now (Intent.cancel _ _) = (side ≡ applicant_side) × ConfirmedAfter w now
IsAllowed w side now (Intent.close _ _) = side ≡ provider_side
IsAllowed w side now _ = ⊥

is_provider-eq : (side : Audience) → is_provider side ≡ true → side ≡ provider_side
is_provider-eq provider_side h = refl
is_provider-eq applicant_side h = cc

is_applicant-eq : (side : Audience) → is_provider side ≡ false → side ≡ applicant_side
is_applicant-eq provider_side h = cc
is_applicant-eq applicant_side h = refl

same_side-eq : (a b : Audience) → same_side a b ≡ true → b ≡ a
same_side-eq provider_side b h = is_provider-eq b h
same_side-eq applicant_side b h = is_applicant-eq b (ground arith)

not-false : (b : Bool) → not b ≡ false → b ≡ true
not-false true h = refl
not-false false h = cc

cutoff_passed-NoneBefore :
    (c : Option Confirmed) (now : ℕ)
    → cutoff_passed c now ≡ false
    → NoneBefore c (now + viewing_change_cutoff_ms)
cutoff_passed-NoneBefore none now h = tt
cutoff_passed-NoneBefore (some c) now h = ground arith

decide-IsAllowed :
    (w : Loaded) (user : ℕ) (side : Audience) (accepts : Bool) (id : ℕ) (s : Store) (step : Step)
    → decide w user side accepts id s ≡ ok step
    → WithPending w (λ p. (side ≡ p.responder_side) × (s.now < p.starts_at))
unfolding decide
decide-IsAllowed w user side accepts id s step h =
    let (p, named, h1) = >>=-eq-ok (pending w id) _ h in
    let (may, h2) = guard-eq-ok (not (same_side p.responder_side side)) _ _ h1 in
    let (early, _) = guard-eq-ok (leb p.starts_at s.now) _ _ h2 in
    (
      p,
      (pending-eq w id p named).1,
      (same_side-eq p.responder_side side (not-false _ may), ground (arith, early)),
    )

-- the pending proposal, if there is one, passes the check of the table
abbrev HasOpposed : Loaded → Type 0
HasOpposed w = (p : Proposal) → w.pending_proposal ≡ some p → is_opposed p ≡ true

find-opposed :
    (q : Proposal → Bool) (rows : List Proposal) (p : Proposal)
    → are_opposed rows ≡ true
    → find q rows ≡ some p
    → is_opposed p ≡ true
unfolding are_opposed
find-opposed q [] p h found = cc
find-opposed q (x ∷ rows) p h found = elim (Bool-cases (q x)) [
  | inl hit ↦ let same : some x ≡ some p = rw hit at found in ground (arith, h, same)
  | inr miss ↦ find-opposed q rows p (ground (arith, h)) (rw miss at found)
]

find_proposal-opposed :
    (id : Option ℕ) (rows : List Proposal)
    → are_opposed rows ≡ true
    → (p : Proposal) → find_proposal id rows ≡ some p
    → is_opposed p ≡ true
find_proposal-opposed none rows h p found = cc
find_proposal-opposed (some id) rows h p found = find-opposed (λ x. x.id == id) rows p h found

opposed-eq : (a b side : Audience) → not (same_side a b) ≡ true → side ≡ b → a ≡ other_side side
opposed-eq a b side h own = ground (arith, h, own)

answer-IsAllowed :
    (w : Loaded) (user : ℕ) (side : Audience) (accepts : Bool) (id : ℕ) (s : Store) (step : Step)
    → HasOpposed w
    → decide w user side accepts id s ≡ ok step
    → WithPending w (λ p. IsAnswerable p side s.now)
answer-IsAllowed w user side accepts id s step opposed h =
    let (p, found, (own, early)) = decide-IsAllowed w user side accepts id s step h in
    (p, found, (own, opposed-eq p.proposer_side p.responder_side side (opposed p found) own, early))

withdraw-IsAllowed :
    (w : Loaded) (user : ℕ) (side : Audience) (id : ℕ) (s : Store) (step : Step)
    → withdraw w user side id s ≡ ok step
    → (side ≡ applicant_side) × WithPending w (λ p. p.proposer_side ≡ applicant_side)
unfolding withdraw
withdraw-IsAllowed w user side id s step h =
    let (applicant, h1) = guard-eq-ok (is_provider side) _ _ h in
    let (p, named, h2) = >>=-eq-ok (pending w id) _ h1 in
    let (own, _) = guard-eq-ok (is_provider p.proposer_side) _ _ h2 in
    (
      is_applicant-eq side applicant,
      (p, (pending-eq w id p named).1, is_applicant-eq p.proposer_side own),
    )

cancel-IsAllowed :
    (w : Loaded) (user : ℕ) (side : Audience) (id : ℕ) (s : Store) (step : Step)
    (message : Option _)
    → cancel w user side id message s ≡ ok step
    → (side ≡ applicant_side) × ConfirmedAfter w s.now
unfolding cancel
cancel-IsAllowed w user side id s step message h =
    let (applicant, h1) = guard-eq-ok (is_provider side) _ _ h in
    let (c, named, _) = >>=-eq-ok (appointment w id s.now) _ h1 in
    let (_, found, early) = appointment-eq w id s.now c named in
    (is_applicant-eq side applicant, (c, found, early))

module _ (digest : Schedule → ℕ) where
  move_appointment-ConfirmedAfter :
      (w : Loaded) (user : ℕ) (side : Audience) (key id : ℕ) (body : Schedule) (s : Store)
      (step : Step)
      → move_appointment digest w user side key id body s ≡ ok step
      → ConfirmedAfter w s.now
  unfolding move_appointment
  move_appointment-ConfirmedAfter w user side key id body s step h =
      let (c, named, _) = >>=-eq-ok (appointment w id s.now) _ h in
      let (_, found, early) = appointment-eq w id s.now c named in (c, found, early)

  alternative_proposal-IsAllowed :
      (w : Loaded) (user : ℕ) (side : Audience) (key id : ℕ) (body : Schedule) (s : Store)
      (step : Step)
      → alternative_proposal digest w user side key id body s ≡ ok step
      → IsAllowed w side s.now (Intent.alternative_proposal id body)
  unfolding alternative_proposal
  alternative_proposal-IsAllowed w user side key id body s step h =
      let (p, named, h1) = >>=-eq-ok (pending w id) _ h in
      let (applicant, h2) = guard-eq-ok (is_provider side) _ _ h1 in
      let (before, h3) = guard-eq-ok (cutoff_passed w.confirmed_appointment s.now) _ _ h2 in
      let (offered, _) =
        guard-eq-ok (not (is_provider p.proposer_side) || leb p.starts_at s.now) _ _ h3 in
      (
        is_applicant-eq side applicant,
        cutoff_passed-NoneBefore w.confirmed_appointment s.now before,
        (
          p,
          (pending-eq w id p named).1,
          (is_provider-eq p.proposer_side (ground (arith, offered)), ground (arith, offered)),
        ),
      )

  alternative_appointment-IsAllowed :
      (w : Loaded) (user : ℕ) (side : Audience) (key id : ℕ) (body : Schedule) (s : Store)
      (step : Step)
      → alternative_appointment digest w user side key id body s ≡ ok step
      → IsAllowed w side s.now (Intent.alternative_appointment id body)
  unfolding alternative_appointment
  alternative_appointment-IsAllowed w user side key id body s step h =
      let (applicant, h1) = guard-eq-ok (is_provider side) _ _ h in
      let (before, h2) = guard-eq-ok (cutoff_passed w.confirmed_appointment s.now) _ _ h1 in
      let (c, found, _) = move_appointment-ConfirmedAfter w user side key id body s step h2 in
      let later = cutoff_passed-NoneBefore w.confirmed_appointment s.now before in
      (is_applicant-eq side applicant, (c, found, subst_before found later))
    where
      subst_before :
          {o : Option Confirmed} {c : Confirmed} {t : ℕ}
          → o ≡ some c
          → NoneBefore o t
          → t < c.viewing.starts_at
      subst_before found later = rw found at later

  act_loaded-IsAllowed :
      (w : Loaded) (user : ℕ) (side : Audience) (key : ℕ) (intent : Intent) (s : Store)
      (step : Step)
      → HasOpposed w
      → act digest w user side key intent s ≡ ok step
      → IsAllowed w side s.now intent
  unfolding act invite counterproposal replacement close
  act_loaded-IsAllowed w user side key Intent.reconcile s step opposed h = cc
  act_loaded-IsAllowed w user side key (Intent.interest _ _ _) s step opposed h = cc
  act_loaded-IsAllowed w user side key (Intent.consideration _ _) s step opposed h = cc
  act_loaded-IsAllowed w user side key (Intent.outcome _ _) s step opposed h = cc
  act_loaded-IsAllowed w user side key (Intent.invite body) s step opposed h =
      is_provider-eq side (not-false _ (guard-eq-ok (not (is_provider side)) _ _ h).0)
  act_loaded-IsAllowed w user side key (Intent.accept id) s step opposed h =
      answer-IsAllowed w user side true id s step opposed h
  act_loaded-IsAllowed w user side key (Intent.reject id) s step opposed h =
      answer-IsAllowed w user side false id s step opposed h
  act_loaded-IsAllowed w user side key (Intent.withdraw id) s step opposed h =
      withdraw-IsAllowed w user side id s step h
  act_loaded-IsAllowed w user side key (Intent.counterproposal id body) s step opposed h =
      let (p, named, h1) = >>=-eq-ok (pending w id) _ h in
      (
        is_provider-eq side (not-false _ (guard-eq-ok (not (is_provider side)) _ _ h1).0),
        (p, (pending-eq w id p named).1, tt),
      )
  act_loaded-IsAllowed w user side key (Intent.alternative_proposal id body) s step opposed h =
      alternative_proposal-IsAllowed w user side key id body s step h
  act_loaded-IsAllowed w user side key (Intent.replacement id body) s step opposed h =
      let (provides, h1) = guard-eq-ok (not (is_provider side)) _ _ h in
      (
        is_provider-eq side (not-false _ provides),
        move_appointment-ConfirmedAfter w user side key id body s step h1,
      )
  act_loaded-IsAllowed w user side key (Intent.alternative_appointment id body) s step opposed h =
      alternative_appointment-IsAllowed w user side key id body s step h
  act_loaded-IsAllowed w user side key (Intent.cancel id message) s step opposed h =
      cancel-IsAllowed w user side id s step message h
  act_loaded-IsAllowed w user side key (Intent.close id body) s step opposed h =
      is_provider-eq side (not-false _ (guard-eq-ok (not (is_provider side)) _ _ h).0)

  -- An action on a workflow that was read from the store succeeds only for the side that may take it,
  -- and in time. A proposal is answered by the side that did not make it, before the viewing would
  -- start; only the applicant withdraws a proposal, and only one of their own; only the provider
  -- invites, counters, replaces and closes; and an applicant moves a confirmed viewing only up to six
  -- hours before it, and cancels it only before it. The condition is the check of the table that the
  -- two sides of a proposal differ, and an action that succeeds keeps it.
  pub act-IsAllowed :
      (row : Workflow) (user : ℕ) (side : Audience) (key : ℕ) (intent : Intent) (s : Store)
      (step : Step)
      → are_opposed s.proposals ≡ true
      → act digest (load_row row s) user side key intent s ≡ ok step
      → IsAllowed (load_row row s) side s.now intent × (are_opposed step.store.proposals ≡ true)
  act-IsAllowed row user side key intent s step opposed h = (
    act_loaded-IsAllowed (load_row row s) user side key intent s step
        (find_proposal-opposed row.pending_proposal_id s.proposals opposed) h,
    ap (λ k. k.1) (act-kept digest (load_row row s) user side key intent s step h) ∙ opposed,
  )
