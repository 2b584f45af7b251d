-- ===== src/Applications/Promotion/Complete.antt =====
-- Who still waits after a reconciliation
-- (src/applications/application-waiting-promotion.service.ts).
use renyqo_app.Prelude.{
  ℕ, zero, suc, ◌-◌, ◌<◌, true, false, ◌≡◌, refl, ap, ◌∙◌, subst, inl, inr, none, List, [], ◌∷◌,
  ◌==◌, ◌&&◌, arith, length, take, filter, any, All, Bool-cases, if◌then◌else◌,
}
use renyqo_app.Prelude.Sort.{Has, All-Has, All-map, any-order_by, any-filter}
use renyqo_app.Domain.{Application, Listing, is_published}
use renyqo_app.Applications.Store.{Store, ok, update_where}
use renyqo_app.Applications.Promotion.{
  Reconciled, active_applications_limit, queue_behind, activated, count_active, is_eligible,
  is_queued, is_past, comes_before, reconcile,
}
use renyqo_app.Applications.Promotion.Order.{HasUniqueIds}
use renyqo_app.Applications.Promotion.Spec.{activate_all, admitted, reconcile_lem}

module _ (listing : Listing) (s : Store) where
  -- An application that waits and is eligible is among `chosen`.
  abbrev IsCovered : List Application → Application → Type 0
  IsCovered chosen b =
      is_queued listing b ≡ true
      → is_eligible listing s b ≡ true
      → any (λ c. c.id == b.id) chosen ≡ true

  All-IsCovered :
      (rows : List Application)
      → All (IsCovered (filter (is_eligible listing s) (queue_behind listing none rows))) rows
  unfolding queue_behind
  All-IsCovered rows = All-map covers rows (All-Has rows)
    where
      covers :
          (b : Application)
          → Has rows b
          → IsCovered (filter (is_eligible listing s) (queue_behind listing none rows)) b
      covers b has queued fits =
          any-filter (is_eligible listing s) (λ c. c.id == b.id) (queue_behind listing none rows)
          ∙ any-order_by comes_before _ (filter (λ a. is_queued listing a && is_past none a) rows)
          ∙ any-filter (λ a. is_queued listing a && is_past none a) _ rows
          ∙ has _ (rw (queued, fits) (ground arith))

  IsCovered-row :
      (now : ℕ) (c : Application) (chosen : List Application) (b : Application)
      → IsCovered (c ∷ chosen) b
      → IsCovered chosen (if b.id == c.id then activated now b else b)
  unfolding is_eligible
  IsCovered-row now c chosen b h = elim (Bool-cases (b.id == c.id)) [
    | inl same ↦ rw same (λ queued. ground (arith, queued))
    | inr other ↦ rw other (λ queued fits. ground (arith, h queued fits))
  ]

  IsCovered-step :
      (now : ℕ) (c : Application) (chosen rows : List Application)
      → All (IsCovered (c ∷ chosen)) rows
      → All (IsCovered chosen) (update_where (λ b. b.id == c.id) (activated now) rows)
  unfolding update_where
  IsCovered-step now c chosen [] h = tt
  IsCovered-step now c chosen (b ∷ rows) (h, hs) =
      (IsCovered-row now c chosen b h, IsCovered-step now c chosen rows hs)

  IsCovered-All :
      (now : ℕ) (chosen rows : List Application)
      → All (IsCovered chosen) rows
      → All (IsCovered []) (activate_all now chosen rows)
  unfolding activate_all
  IsCovered-All now [] rows h = h
  IsCovered-All now (c ∷ chosen) rows h =
      IsCovered-All now chosen _ (IsCovered-step now c chosen rows h)

  not_waiting :
      (b : Application)
      → IsCovered [] b
      → is_queued listing b ≡ true
      → is_eligible listing s b ≡ false
  not_waiting b h queued = elim (Bool-cases (is_eligible listing s b)) [
    | inl fits ↦ cc (h queued fits)
    | inr unfit ↦ unfit
  ]

-- Where fewer were taken than there was room for, all were taken.
take_all : (n : ℕ) (xs : List Application) → 0 < n - length (take n xs) → take n xs ≡ xs
take_all zero xs h = elim h [ ]
take_all (suc n) [] h = refl
take_all (suc n) (x ∷ xs) h = ap (λ ys. x ∷ ys) (take_all n xs (omega (arith, h)))

-- After a reconciliation that reports free places, no application of the listing waits that the
-- criteria let in at its time.
pub reconcile_complete :
    (listing : Listing) (s : Store) (r : Reconciled)
    → HasUniqueIds s.applications
    → reconcile listing s ≡ ok r
    → 0 < r.remaining_capacity
    → All (λ a. is_queued listing a ≡ true → is_eligible listing s a ≡ false) r.store.applications
reconcile_complete listing s r unique h free =
    let (table, _, left) = reconcile_lem listing s r unique h in
    elim (Bool-cases (is_published listing.status)) [
      | inr shut ↦ elim (subst (λ n. 0 < n) (rw shut at left) free) [ ]
      | inl shown ↦
          let places = active_applications_limit - count_active listing.id s.applications in
          let fits = filter (is_eligible listing s) (queue_behind listing none s.applications) in
          let had : 0 < places - length (take places fits) =
            omega (arith, rw shown at left, free) in
          let all_of : admitted listing s ≡ fits = rw shown (take_all places fits had) in
          rw (table, all_of)
            (All-map (not_waiting listing s) _ (
              IsCovered-All listing s s.now fits s.applications
                (All-IsCovered listing s s.applications)))
    ]
