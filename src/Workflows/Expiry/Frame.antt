-- ===== src/Workflows/Expiry/Frame.antt =====
-- The receipts under the expiry of src/application-viewings/viewing-workflow-expiry.service.ts.
use renyqo_app.Prelude.{
  ℕ, ◌≡◌, ap, Bool, not, ◌&&◌, ◌||◌, Option, none, some, arith, Bool-cases, inl, inr,
}
use renyqo_app.Applications.Store.{Store, ok, Workflow, Proposal}
use renyqo_app.Applications.Closing.{is_closed, is_current_mode}
use renyqo_app.Applications.Lifecycle.Expiry.{is_provider_closed, latest_completed}
use renyqo_app.Applications.Frame.{expire_viewing_interest-kept}
use renyqo_app.Workflows.Rows.{Loaded}
use renyqo_app.Workflows.Expiry.{
  expire_writes, expire_pending, expire_loaded, expire_proposal, expire_completed, expire_asked,
  expire_interest,
}

expire_pending-receipts :
    (w : Loaded) (p : Option Proposal) (id : ℕ) (s : Store)
    → (expire_pending w p id s).1.receipts ≡ s.receipts
unfolding expire_writes
expire_pending-receipts w none id s = grind arith
expire_pending-receipts w (some p) id s = grind arith

expire_loaded-receipts :
    (w : Option Loaded) (id : ℕ) (s : Store) → (expire_loaded w id s).1.receipts ≡ s.receipts
expire_loaded-receipts none id s = grind arith
expire_loaded-receipts (some w) id s = expire_pending-receipts w w.pending_proposal id s

pub expire_proposal-receipts :
    (application_id id : ℕ) (s : Store)
    → (expire_proposal application_id id s).1.receipts ≡ s.receipts
unfolding expire_proposal
expire_proposal-receipts application_id id s = expire_loaded-receipts _ id s

module _ (legacy_resolution : Store → ℕ → Proposal → Proposal) where
  expire_completed-receipts :
      (id : ℕ) (w : Workflow) (completed : Option ℕ) (s : Store) (b : Bool) (t : Store)
      → expire_completed legacy_resolution id w completed s ≡ ok (b, t)
      → t.receipts ≡ s.receipts
  expire_completed-receipts id w none s b t h = grind arith
  expire_completed-receipts id w (some a) s b t h =
      ap (λ k. k.0) (expire_viewing_interest-kept legacy_resolution id a w.revision s.now s b t h)

  expire_asked-receipts :
      (id : ℕ) (w : Option Workflow) (s : Store) (b : Bool) (t : Store)
      → expire_asked legacy_resolution id w s ≡ ok (b, t)
      → t.receipts ≡ s.receipts
  expire_asked-receipts id none s b t h = grind arith
  expire_asked-receipts id (some w) s b t h =
      elim (Bool-cases (
        not (is_current_mode w.mode)
        || (is_closed w.state && not (is_provider_closed w.closure_reason)))) [
          | inl shut ↦ grind (arith, (rw shut at h))
          | inr runs ↦
              expire_completed-receipts id w (latest_completed id s.viewings) s b t (rw runs at h)
        ]

  pub expire_interest-receipts :
      (id : ℕ) (s : Store) (b : Bool) (t : Store)
      → expire_interest legacy_resolution id s ≡ ok (b, t)
      → t.receipts ≡ s.receipts
  unfolding expire_interest
  expire_interest-receipts id s b t h = expire_asked-receipts id _ s b t h
