-- ===== src/Applications/Curation/Cooldown.antt =====
-- The minute between two decisions of a provider on one application.
use renyqo_app.Prelude.{
  ℕ, ◌+◌, ◌≤◌, ◌<◌, ◌≡◌, ◌≢◌, refl, ◌∙◌, Bool, true, false, some, List, [], ◌∷◌, ◌&&◌, ◌==◌, ltb,
  leb, arith, Bool-cases, inl, inr, filter, any, order_by, insert,
}
use renyqo_app.Prelude.Sort.{any-filter}
use renyqo_app.Domain.{Application, Listing}
use renyqo_app.Applications.Store.{Store, ok, ListingEvent, Proposal}
use renyqo_app.Applications.Process.{provider_curation_allowed, provider_curation_cooldown_ms}
use renyqo_app.Applications.Curation.{
  occurs_after, time_of_first, last_decision, reject_row, restore_row,
}

-- What comes first after an insertion is no earlier than the event and what came first before.
insert_first :
    (e : ListingEvent) (events : List ListingEvent)
    → (first : ℕ) × (time_of_first (insert occurs_after e events) ≡ some first)
      × (e.occurred_at ≤ first)
      × ((t : ℕ) → time_of_first events ≡ some t → t ≤ first)
unfolding insert
insert_first e [] = (e.occurred_at, refl, omega arith, λ t h. ground arith)
insert_first e (y ∷ events) = elim (Bool-cases (ltb e.occurred_at y.occurred_at)) [
  | inl before ↦ (y.occurred_at, rw before refl, ground arith, λ t h. ground arith)
  | inr after ↦ (e.occurred_at, rw after refl, omega arith, λ t h. ground arith)
]

-- The first of the events that are ordered from the last is as late as any.
first_is_last :
    (t : ℕ) (events : List ListingEvent)
    → any (λ e. leb t e.occurred_at) events ≡ true
    → (first : ℕ) × (time_of_first (order_by occurs_after events) ≡ some first) × (t ≤ first)
unfolding order_by
first_is_last t [] h = cc
first_is_last t (e ∷ events) h =
    let (first, found, above, all_above) = insert_first e (order_by occurs_after events) in
    elim (Bool-cases (leb t e.occurred_at)) [
      | inl here ↦ (first, found, ground arith)
      | inr there ↦
          let (last, was, late) = first_is_last t events (rw there at h) in
          (first, found, omega (arith, all_above last was, late))
    ]

-- An event on the application at or after a time.
abbrev pub HasDecision : ℕ → ℕ → List ListingEvent → Type 0
HasDecision application_id t events =
    any (λ e. e.application_id == application_id && leb t e.occurred_at) events ≡ true

last_decision-lem :
    (application_id t : ℕ) (events : List ListingEvent)
    → HasDecision application_id t events
    → (last : ℕ) × (last_decision application_id events ≡ some last) × (t ≤ last)
unfolding last_decision
last_decision-lem application_id t events h =
    first_is_last t (filter (λ e. e.application_id == application_id) events)
      (any-filter (λ e. e.application_id == application_id) (λ e. leb t e.occurred_at) events ∙ h)

too_soon :
    (application_id t now : ℕ) (events : List ListingEvent)
    → HasDecision application_id t events
    → now < t + provider_curation_cooldown_ms
    → provider_curation_allowed (last_decision application_id events) now ≡ false
unfolding provider_curation_allowed
too_soon application_id t now events h soon =
    let (last, found, late) = last_decision-lem application_id t events h in rw found (ground arith)

module _ (legacy_resolution : Store → ℕ → Proposal → Proposal) where
  reject_row_too_soon :
      (a : Application) (listing : Listing) (provider_id : ℕ) (post : Bool) (s s' : Store)
      → provider_curation_allowed (last_decision a.id s.events) s.now ≡ false
      → reject_row legacy_resolution a listing provider_id post s ≢ ok s'
  unfolding reject_row
  reject_row_too_soon a listing provider_id post s s' closed h = ground (arith, closed, h)

  restore_row_too_soon :
      (a : Application) (listing : Listing) (provider_id : ℕ) (s s' : Store)
      → provider_curation_allowed (last_decision a.id s.events) s.now ≡ false
      → restore_row legacy_resolution a listing provider_id s ≢ ok s'
  unfolding restore_row
  restore_row_too_soon a listing provider_id s s' closed h = ground (arith, closed, h)

  -- Less than a minute after a decision on an application, it is neither turned down nor taken back.
  pub decision_too_soon :
      (a : Application) (listing : Listing) (provider_id t : ℕ) (post : Bool) (s s' : Store)
      → HasDecision a.id t s.events
      → s.now < t + provider_curation_cooldown_ms
      → (reject_row legacy_resolution a listing provider_id post s ≢ ok s')
        × (restore_row legacy_resolution a listing provider_id s ≢ ok s')
  decision_too_soon a listing provider_id t post s s' h soon =
      let closed = too_soon a.id t s.now s.events h soon in
      (
        reject_row_too_soon a listing provider_id post s s' closed,
        restore_row_too_soon a listing provider_id s s' closed,
      )
