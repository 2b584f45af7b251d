-- ===== src/Workflows/Consideration/Laws.antt =====
-- A correction takes a no-show back
-- (src/applications/application-consideration.service.ts).
use renyqo_app.Prelude.{
  ℕ, ◌+◌, ◌≡◌, refl, sym, ap, ◌∙◌, Bool, true, false, ◌==◌, Option, none, some, List, [], ◌∷◌, ◌++◌,
  find, arith, if◌then◌else◌,
}
use renyqo_app.Domain.{Application, is_active}
use renyqo_app.Applications.Store.{
  find-update_where, Store, ok, >>=-eq-ok, ConsiderationPosition, NoShowConsequence, update_where,
  find_application,
}
use renyqo_app.Applications.Promotion.Batches.{ok_inj}
use renyqo_app.Workflows.Consideration.{
  OutcomeEffect, record_effect, correct_effect, correct_found, correct_previous, penalize,
  is_applied,
}

abbrev pub position_of : ℕ → Store → Option ConsiderationPosition
position_of application_id s = find (λ x. x.application_id == application_id) s.positions

-- the argument for a no-show, and for the correction of that outcome
abbrev pub missed : ℕ → ℕ → ℕ → OutcomeEffect
missed application_id listing_id outcome_id = record {
  application_id = application_id;
  listing_id = listing_id;
  outcome_id = outcome_id;
  previous_outcome_id = none;
  penalize = true;
}

abbrev pub corrects : ℕ → ℕ → ℕ → ℕ → OutcomeEffect
corrects application_id listing_id outcome_id previous = record {
  application_id = application_id;
  listing_id = listing_id;
  outcome_id = outcome_id;
  previous_outcome_id = some previous;
  penalize = false;
}

abbrev consequence : ℕ → ℕ → ℕ → ConsiderationPosition → ℕ → NoShowConsequence
consequence application_id listing_id outcome_id x n = record {
  outcome_id = outcome_id;
  application_id = application_id;
  listing_id = listing_id;
  previous_position = x.position;
  applied_position = n;
  applied_revision = x.revision + 1;
  corrected_by_outcome_id = none;
  corrected_at = none;
  position_restored = none;
}

find-append :
    (id : ℕ) (rows : List NoShowConsequence) (c : NoShowConsequence)
    → find (λ e. e.outcome_id == id) rows ≡ none
    → c.outcome_id ≡ id
    → find (λ e. e.outcome_id == id) (rows ++ c ∷ []) ≡ some c
find-append id [] c h e = ground arith
find-append id (x ∷ rows) c h e = ground (arith, find-append id rows c)

abbrev sent_back : ℕ → ConsiderationPosition → ConsiderationPosition
sent_back n x = record x { position = n; revision = x.revision + 1 }

-- the store after a no-show
abbrev penalized : ℕ → ℕ → ℕ → ConsiderationPosition → Store → Store
penalized application_id listing_id outcome_id x s = record s {
  next_position = s.next_position + 1;
  positions =
      update_where (λ y. y.application_id == application_id) (sent_back s.next_position)
        s.positions;
  consequences =
      s.consequences ++ consequence application_id listing_id outcome_id x s.next_position ∷ [];
}

missed-eq :
    (application_id listing_id outcome_id : ℕ) (x : ConsiderationPosition) (s : Store)
    → position_of application_id s ≡ some x
    → record_effect (missed application_id listing_id outcome_id) s
      ≡ ok (penalized application_id listing_id outcome_id x s)
unfolding record_effect penalize
missed-eq application_id listing_id outcome_id x s found = rw found refl

is_applied-sent_back :
    (application_id listing_id outcome_id : ℕ) (x : ConsiderationPosition) (n : ℕ)
    → (x.application_id == application_id) ≡ true
    → is_applied
        (consequence application_id listing_id outcome_id x n)
        application_id
        (sent_back n x)
      ≡ true
is_applied-sent_back application_id listing_id outcome_id x n own = ground (arith, own)

find-test {ℓ} :
    {A : Type ℓ} (p : A → Bool) (rows : List A) (x : A) → find p rows ≡ some x → p x ≡ true
find-test p [] x h = cc
find-test p (y ∷ rows) x h = ground (arith, find-test p rows x)

correct_effect-position :
    (application_id listing_id outcome_id previous : ℕ) (a : Application)
    (x : ConsiderationPosition) (s t : Store)
    → is_active a.status ≡ true
    → position_of application_id s ≡ some x
    → correct_effect
        (corrects application_id listing_id outcome_id previous)
        (consequence application_id listing_id previous x s.next_position)
        (some a)
        (penalized application_id listing_id previous x s)
      ≡ ok t
    → position_of application_id t ≡ some (record x { revision = x.revision + 2 })
unfolding correct_effect
correct_effect-position application_id listing_id outcome_id previous a x s t active found h =
    let n = s.next_position in
    let c = consequence application_id listing_id previous x n in
    let own_row : ConsiderationPosition → Bool = λ y. y.application_id == application_id in
    let back : ConsiderationPosition → ConsiderationPosition =
      λ y. record y { position = x.position; revision = y.revision + 1 } in
    let own = find-test own_row s.positions x found in
    let moved =
      find-update_where own_row own_row (sent_back n) s.positions x (λ y. refl) found
      ∙ ap (λ b. some (if b then sent_back n x else x)) own in
    let restored =
      find-update_where own_row (is_applied c application_id) back
        (penalized application_id listing_id previous x s).positions (sent_back n x) (λ y. refl)
        moved
      ∙ ap (λ b. some (if b then back (sent_back n x) else sent_back n x))
          (is_applied-sent_back application_id listing_id previous x n own) in
    ap (position_of application_id) (sym (ok_inj (rw active at h)))
    ∙ (restored ∙ ap (λ k. some (record x { revision = k })) (twice x.revision))
  where
    twice : (k : ℕ) → k + 1 + 1 ≡ k + 2
    twice k = omega arith

-- When the outcome of a no-show is corrected while the application is active and has not moved since,
-- the applicant has the position in the order of consideration that they had before the no-show, two
-- revisions later.
pub record_effect_restores :
    (application_id listing_id missed_id outcome_id : ℕ) (a : Application)
    (x : ConsiderationPosition) (s t u : Store)
    → position_of application_id s ≡ some x
    → find (λ e. e.outcome_id == missed_id) s.consequences ≡ none
    → find_application application_id s.applications ≡ some a
    → is_active a.status ≡ true
    → record_effect (missed application_id listing_id missed_id) s ≡ ok t
    → record_effect (corrects application_id listing_id outcome_id missed_id) t ≡ ok u
    → position_of application_id u ≡ some (record x { revision = x.revision + 2 })
unfolding record_effect
record_effect_restores application_id listing_id missed_id outcome_id a x s t u found fresh owner
      active first second =
    let penal = penalized application_id listing_id missed_id x s in
    let c = consequence application_id listing_id missed_id x s.next_position in
    let at : record_effect (corrects application_id listing_id outcome_id missed_id) penal ≡ ok u =
      ap (record_effect (corrects application_id listing_id outcome_id missed_id))
        (ok_inj (sym (missed-eq application_id listing_id missed_id x s found) ∙ first))
      ∙ second in
    let there = find-append missed_id s.consequences c fresh refl in
    let (v, went, last) =
      >>=-eq-ok
        (correct_previous (corrects application_id listing_id outcome_id missed_id) (some missed_id)
          penal)
        _ at in
    let corrected =
      ap (λ o. correct_found (corrects application_id listing_id outcome_id missed_id) o penal)
        (sym there)
      ∙ went in
    ap (position_of application_id) (sym (ok_inj last))
    ∙ correct_effect-position application_id listing_id outcome_id missed_id a x s v active found (
        ap (λ o. correct_effect (corrects application_id listing_id outcome_id missed_id) c o penal)
          (sym owner)
        ∙ corrected)
