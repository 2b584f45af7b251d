-- ===== src/Workflows/Outcomes/Laws.antt =====
-- The outcomes of a viewing: one, and one correction
-- (src/application-viewings/viewing-workflow-decision.service.ts).
use renyqo_app.Prelude.{
  ℕ, ◌+◌, ◌≤◌, ◌<◌, ◌≡◌, refl, sym, ap, ◌∙◌, ◌⊎◌, inl, inr, true, false, not, ◌||◌, ◌==◌, Option,
  List, [], ◌∷◌, ◌++◌, filter, length, leb, arith, Bool-cases, suc,
}
use renyqo_app.Domain.{
  Audience, provider_side, is_provider, ActivityType, ViewingOutcome, outcome_completed,
  outcome_no_show,
}
use renyqo_app.Viewings.Text.{Text}
use renyqo_app.Viewings.Policy.{correction_window_ms, is_agreed, is_outcome_pending}
use renyqo_app.Applications.Store.{
  Store, ok, >>=-eq-ok, guard-eq-ok, OutcomeRow, Viewing, Workflow, Appointment,
}
use renyqo_app.Applications.Promotion.Batches.{ok_inj}
use renyqo_app.Workflows.Commands.{OutcomeBody, text_of}
use renyqo_app.Workflows.Consideration.{OutcomeEffect, record_effect, correct_effect, penalize}
use renyqo_app.Workflows.Reading.{Read, read_rows, outcomes_of}
use renyqo_app.Workflows.Access.{ViewingApplication}
use renyqo_app.Prelude.Sort.{length-order_by}
use renyqo_app.Workflows.Outcomes.{
  record_outcome, outcome_writes, settle_interest, settle_workflow, effect_of, insert_outcome,
  is_refused, absence_misplaced, correction_refused, first_refused, is_correction,
}

record_effect-outcomes :
    (input : OutcomeEffect) (s t : Store) → record_effect input s ≡ ok t → t.outcomes ≡ s.outcomes
unfolding record_effect correct_effect penalize
record_effect-outcomes input s t h = grind arith

settle_interest-outcomes :
    (r : Read) (o : ViewingOutcome) (s : Store) → (settle_interest r o s).outcomes ≡ s.outcomes
unfolding settle_interest
settle_interest-outcomes r outcome_completed s = grind arith
settle_interest-outcomes r outcome_no_show s = grind arith

settle_workflow-outcomes : (r : Read) (s : Store) → (settle_workflow r s).outcomes ≡ s.outcomes
unfolding settle_workflow
settle_workflow-outcomes r s = grind arith

outcome_writes-outcomes :
    (r : Read) (body : OutcomeBody) (reason : Option Text) (s : Store) (e : ActivityType × Store)
    → outcome_writes r body reason s ≡ ok e
    → e.1.outcomes ≡ (insert_outcome r body reason s).outcomes
unfolding outcome_writes
outcome_writes-outcomes r body reason s e h =
    let input = effect_of r body s.next_id in
    let inserted = insert_outcome r body reason s in
    let (t, first, last) = >>=-eq-ok (record_effect input inserted) _ h in
    sym (ap (λ x. x.1.outcomes) (ok_inj last))
    ∙ (settle_workflow-outcomes r (settle_interest r body.outcome t)
        ∙ (settle_interest-outcomes r body.outcome t
            ∙ record_effect-outcomes input inserted t first))

-- the number of outcomes of a viewing
unfoldable pub count_outcomes : ℕ → List OutcomeRow → ℕ
count_outcomes viewing_id rows = length (filter (λ o. o.viewing_id == viewing_id) rows)

count_outcomes-append :
    (v : ℕ) (rows : List OutcomeRow) (o : OutcomeRow)
    → (o.viewing_id == v) ≡ true
    → count_outcomes v (rows ++ o ∷ []) ≡ count_outcomes v rows + 1
unfolding count_outcomes
count_outcomes-append v [] o own = ground (arith, own)
count_outcomes-append v (x ∷ rows) o own = ground (arith, count_outcomes-append v rows o own)

-- the outcome is a correction of the only one, which is less than a day old
pub record CorrectsFirst (r : Read) (now : ℕ) : Type 0 where
  pub first : OutcomeRow
  pub only : r.outcomes ≡ first ∷ []
  pub recent : now < first.recorded_at + correction_window_ms
  pub unanswered : r.has_interest ≡ false
  pub latest : r.is_latest ≡ true

correction_refused-CorrectsFirst :
    (r : Read) (rows : List OutcomeRow) (body : OutcomeBody) (now : ℕ)
    → r.outcomes ≡ rows
    → correction_refused r rows body now ≡ false
    → CorrectsFirst r now
unfolding correction_refused
correction_refused-CorrectsFirst r [] body now e h = cc
correction_refused-CorrectsFirst r (first ∷ []) body now e h = record {
  first = first;
  only = e;
  recent = ground (arith, h);
  unanswered = ground (arith, h);
  latest = ground (arith, h);
}
correction_refused-CorrectsFirst r (first ∷ second ∷ rest) body now e h =
    let bad : ⊥ = ground (arith, h) in elim bad [ ]

-- why an outcome was recorded, and what the table of outcomes has after it
pub record IsRecorded (r : Read) (side : Audience) (body : OutcomeBody) (s s' : Store)
    : Type 0 where
  pub provider : side ≡ provider_side
  pub after_end : r.viewing.ends_at ≤ s.now
  pub allowed :
      ((is_correction body ≡ true) × CorrectsFirst r s.now)
      ⊎ ((is_correction body ≡ false)
          × (r.outcomes ≡ [])
          × ((is_agreed r.viewing.status || is_outcome_pending r.viewing.status) ≡ true))
  pub counted : count_outcomes r.viewing.id s'.outcomes ≡ count_outcomes r.viewing.id s.outcomes + 1
  pub bounded : count_outcomes r.viewing.id s'.outcomes ≤ 2

is_provider-eq : (side : Audience) → not (is_provider side) ≡ false → side ≡ provider_side
is_provider-eq side h = ground arith

first_refused-eq :
    (r : Read) (rows : List OutcomeRow)
    → r.outcomes ≡ rows
    → first_refused r ≡ false
    → (rows ≡ []) × ((is_agreed r.viewing.status || is_outcome_pending r.viewing.status) ≡ true)
first_refused-eq r [] e h = (refl, ground (arith, h))
first_refused-eq r (x ∷ rows) e h =
    let some_left : length r.outcomes ≡ suc (length rows) = ap length e in
    let bad : ⊥ = ground (arith, h, some_left) in elim bad [ ]

allowed_outcome :
    (r : Read) (body : OutcomeBody) (now : ℕ)
    → is_refused r body now ≡ false
    → ((is_correction body ≡ true) × CorrectsFirst r now)
      ⊎ ((is_correction body ≡ false)
          × (r.outcomes ≡ [])
          × ((is_agreed r.viewing.status || is_outcome_pending r.viewing.status) ≡ true))
allowed_outcome r body now h = elim (Bool-cases (is_correction body)) [
  | inl correction ↦
      inl (
        correction,
        correction_refused-CorrectsFirst r r.outcomes body now refl (rw correction at h),
      )
  | inr first ↦
      let (empty, live) = first_refused-eq r r.outcomes refl (rw first at h) in
      inr (first, empty, live)
]

count_outcomes-outcomes_of :
    (v : ℕ) (rows : List OutcomeRow) → length (outcomes_of v rows) ≡ count_outcomes v rows
unfolding outcomes_of count_outcomes
count_outcomes-outcomes_of v rows = length-order_by _ (filter (λ o. o.viewing_id == v) rows)

-- An outcome is recorded on the rows that `apply` reads only by the provider and only when the viewing
-- is over: a first one for an agreed viewing that has none, or one correction of it within 24 hours,
-- before the applicant has answered and for the latest viewing. The table has one outcome of the
-- viewing more after it, and then at most two of them.
pub record_outcome-IsRecorded :
    (w : Workflow) (app : ViewingApplication) (a : Appointment) (v : Viewing) (side : Audience)
    (body : OutcomeBody) (s : Store) (e : ActivityType × Store)
    → record_outcome (read_rows w app a v s) side body s ≡ ok e
    → IsRecorded (read_rows w app a v s) side body s e.1
unfolding record_outcome
record_outcome-IsRecorded w app a v side body s e h =
    let r = read_rows w app a v s in
    let (provides, h1) = guard-eq-ok (not (is_provider side)) _ _ h in
    let (over, h2) = guard-eq-ok (not (leb v.ends_at s.now)) _ _ h1 in
    let (fits, h3) = guard-eq-ok (is_refused r body s.now) _ _ h2 in
    let (_, h4) = guard-eq-ok (absence_misplaced body.outcome body.absence_side) _ _ h3 in
    let (reason, _, last) = >>=-eq-ok (text_of body.correction_reason) _ h4 in
    let why = allowed_outcome r body s.now fits in
    let more : count_outcomes v.id e.1.outcomes ≡ count_outcomes v.id s.outcomes + 1 =
      ap (count_outcomes v.id) (outcome_writes-outcomes r body reason s e last)
      ∙ count_outcomes-append v.id s.outcomes _ (own v.id) in
    let at_most : length r.outcomes ≤ 1 = elim why [
      | inl (_, corrected) ↦ omega (arith, ap length corrected.only)
      | inr (_, none_yet, _) ↦ omega (arith, ap length none_yet)
    ] in
    record {
      provider = is_provider-eq side provides;
      after_end = ground (arith, over);
      allowed = why;
      counted = more;
      bounded = omega (arith, more, at_most, count_outcomes-outcomes_of v.id s.outcomes);
    }
  where
    own : (k : ℕ) → (k == k) ≡ true
    own k = ground arith
