-- ===== src/Workflows/Execute/Saved.antt =====
-- What `execute` of src/application-viewings/viewing-workflow-command.service.ts commits: the outcome of
-- a request with its receipt.
use renyqo_app.Prelude.{
  ℕ, ◌≡◌, refl, sym, ap, ◌∙◌, subst, inl, inr, ◌++◌, ◌||◌, not, Bool, true, false, Option, none,
  some, [], ◌∷◌, ◌==◌, arith, Bool-cases, Option-cases,
}
use renyqo_app.Domain.{is_provider}
use renyqo_app.Applications.Store.{
  Store, Result, ok, ◌>>=◌, >>=-eq-ok, guard-eq-ok, Failure, CommandResult, CommandOutcome, success,
  failed, Proposal,
}
use renyqo_app.Applications.Promotion.Batches.{ok_inj}
use renyqo_app.Applications.Frame.{close-kept}
use renyqo_app.Workflows.Commands.{Schedule, Intent, proposal_of, appointment_of}
use renyqo_app.Workflows.Access.{ViewingApplication, can_mutate}
use renyqo_app.Workflows.Rows.{Loaded, load}
use renyqo_app.Workflows.Apply
use renyqo_app.Workflows.Decisions
use renyqo_app.Workflows.Frame.{apply-receipts}
use renyqo_app.Workflows.Decisions.Frame
use renyqo_app.Workflows.Expiry.{expire_interest}
use renyqo_app.Workflows.Expiry.Frame.{expire_proposal-receipts, expire_interest-receipts}
use renyqo_app.Workflows.Requests.{
  Request, receipt_row, save, save_result, is_inactive, revision_of, is_reconcile, is_legacy_loaded,
  keep_closed, check_proposal, is_stale_appointment, is_stale_close, expire_overdue, is_invite,
  new_workflow, insert_workflow,
}
use renyqo_app.Workflows.Execute.{
  reconcile, close_terminal, negotiate, negotiate_after, dispatch, dispatch_after, go_on,
  go_on_with, run, answer,
}

-- the outcome of a request that was executed, with its receipt
pub record IsSaved (q : Request) (s : Store) (r : CommandOutcome × Store) : Type 0 where
  pub receipts : r.1.receipts ≡ s.receipts ++ receipt_row q r.0 r.1.now ∷ []

save_result-IsSaved :
    (q : Request) (s : Store) (r : CommandResult × Store)
    → r.1.receipts ≡ s.receipts
    → IsSaved q s (save_result q r)
save_result-IsSaved q s (r, t) kept = record {
  receipts = ap (λ rows. rows ++ receipt_row q (success r) t.now ∷ []) kept;
}

save_failure-IsSaved :
    (q : Request) (s : Store) (f : Failure) (t : Store)
    → t.receipts ≡ s.receipts
    → IsSaved q s (save q (failed f) t)
save_failure-IsSaved q s f t kept = record {
  receipts = ap (λ rows. rows ++ receipt_row q (failed f) t.now ∷ []) kept;
}

-- a handler whose result is saved
IsSaved-after :
    (q : Request) (s : Store) (m : Result (CommandResult × Store)) (r : CommandOutcome × Store)
    → ((x : CommandResult × Store) → m ≡ ok x → x.1.receipts ≡ s.receipts)
    → (m >>= λ x. ok (save_result q x)) ≡ ok r
    → IsSaved q s r
IsSaved-after q s m r kept h =
    let (x, first, last) = >>=-eq-ok m _ h in
    subst (IsSaved q s) (ok_inj last) (save_result-IsSaved q s x (kept x first))

pub check_proposal-eq :
    (w : Loaded) (id : Option ℕ) (s t : Store) → check_proposal w id s ≡ ok t → t ≡ s
check_proposal-eq w none s t h = grind arith
check_proposal-eq w (some id) s t h = grind arith

expire_overdue-receipts :
    (w : Loaded) (p : Option Proposal) (s : Store) → (expire_overdue w p s).1.receipts ≡ s.receipts
expire_overdue-receipts w none s = refl
expire_overdue-receipts w (some p) s = expire_proposal-receipts w.row.application_id p.id s

module _ (digest_schedule : Schedule → ℕ) (legacy_resolution : Store → ℕ → Proposal → Proposal)
    (reconcile_legacy : ℕ → Store → Option Store) where
  negotiate_after-IsSaved :
      (q : Request) (w : Loaded) (s : Store) (e : Bool × Store) (r : CommandOutcome × Store)
      → e.1.receipts ≡ s.receipts
      → negotiate_after digest_schedule legacy_resolution reconcile_legacy q w e ≡ ok r
      → IsSaved q s r
  negotiate_after-IsSaved q w s (true, t) r kept h =
      subst (IsSaved q s) (ok_inj h) (save_failure-IsSaved q s _ t kept)
  negotiate_after-IsSaved q w s (false, t) r kept h =
      IsSaved-after q s
        (Apply.apply digest_schedule w q.user_id q.side q.command.request_key q.command.intent t) r
        (λ x e.
          apply-receipts digest_schedule w q.user_id q.side q.command.request_key q.command.intent t
            x.0 x.1 e
          ∙ kept)
        h

  negotiate-IsSaved :
      (q : Request) (w : Loaded) (s : Store) (r : CommandOutcome × Store)
      → negotiate digest_schedule legacy_resolution reconcile_legacy q w s ≡ ok r
      → IsSaved q s r
  unfolding negotiate
  negotiate-IsSaved q w s r h =
      let (t, first, later) = >>=-eq-ok (check_proposal w (proposal_of q.command.intent) s) _ h in
      let (_, h1) =
        guard-eq-ok (is_stale_appointment w (appointment_of q.command.intent)) _ _ later in
      let (_, h2) = guard-eq-ok (is_stale_close w q.command.intent) _ _ h1 in
      negotiate_after-IsSaved q w s (expire_overdue w w.pending_proposal t) r
        (expire_overdue-receipts w w.pending_proposal t
          ∙ ap (λ x. x.receipts) (check_proposal-eq w _ s t first))
        h2

  decision-IsSaved :
      (q : Request) (app : ViewingApplication) (id : ℕ) (intent : Intent) (s : Store)
      (r : CommandOutcome × Store)
      → (Decisions.apply legacy_resolution app id q.user_id q.side intent s >>= λ x.
          ok (save_result q x))
        ≡ ok r
      → IsSaved q s r
  decision-IsSaved q app id intent s r h =
      IsSaved-after q s (Decisions.apply legacy_resolution app id q.user_id q.side intent s) r
        (λ x e. Frame.apply-receipts legacy_resolution app id q.user_id q.side intent s x.0 x.1 e) h

  dispatch-IsSaved :
      (q : Request) (app : ViewingApplication) (w : Loaded) (intent : Intent) (s : Store)
      (r : CommandOutcome × Store)
      → dispatch digest_schedule legacy_resolution reconcile_legacy q app w intent s ≡ ok r
      → IsSaved q s r
  unfolding dispatch
  dispatch-IsSaved q app w (Intent.interest id answer confirmed) s r h =
      decision-IsSaved q app id (Intent.interest id answer confirmed) s r h
  dispatch-IsSaved q app w (Intent.consideration id c) s r h =
      decision-IsSaved q app id (Intent.consideration id c) s r h
  dispatch-IsSaved q app w (Intent.outcome id body) s r h =
      decision-IsSaved q app id (Intent.outcome id body) s r h
  dispatch-IsSaved q app w Intent.reconcile s r h = negotiate-IsSaved q w s r h
  dispatch-IsSaved q app w (Intent.invite body) s r h = negotiate-IsSaved q w s r h
  dispatch-IsSaved q app w (Intent.accept id) s r h = negotiate-IsSaved q w s r h
  dispatch-IsSaved q app w (Intent.reject id) s r h = negotiate-IsSaved q w s r h
  dispatch-IsSaved q app w (Intent.withdraw id) s r h = negotiate-IsSaved q w s r h
  dispatch-IsSaved q app w (Intent.counterproposal id body) s r h = negotiate-IsSaved q w s r h
  dispatch-IsSaved q app w (Intent.alternative_proposal id body) s r h = negotiate-IsSaved q w s r h
  dispatch-IsSaved q app w (Intent.replacement id body) s r h = negotiate-IsSaved q w s r h
  dispatch-IsSaved q app w (Intent.alternative_appointment id body) s r h =
      negotiate-IsSaved q w s r h
  dispatch-IsSaved q app w (Intent.cancel id message) s r h = negotiate-IsSaved q w s r h
  dispatch-IsSaved q app w (Intent.close id body) s r h = negotiate-IsSaved q w s r h

  IsSaved-from :
      (q : Request) (s t : Store) (r : CommandOutcome × Store)
      → t.receipts ≡ s.receipts
      → IsSaved q t r
      → IsSaved q s r
  IsSaved-from q s t r kept saved = record {
    receipts = saved.receipts ∙ ap (λ rows. rows ++ receipt_row q r.0 r.1.now ∷ []) kept;
  }

  dispatch_after-IsSaved :
      (q : Request) (app : ViewingApplication) (w : Loaded) (s : Store) (e : Bool × Store)
      (r : CommandOutcome × Store)
      → e.1.receipts ≡ s.receipts
      → dispatch_after digest_schedule legacy_resolution reconcile_legacy q app w e ≡ ok r
      → IsSaved q s r
  dispatch_after-IsSaved q app w s (true, t) r kept h =
      subst (IsSaved q s) (ok_inj h) (save_failure-IsSaved q s _ t kept)
  dispatch_after-IsSaved q app w s (false, t) r kept h =
      IsSaved-from q s t r kept (dispatch-IsSaved q app w q.command.intent t r h)

  go_on-IsSaved :
      (q : Request) (app : ViewingApplication) (w : Loaded) (s : Store) (r : CommandOutcome × Store)
      → go_on digest_schedule legacy_resolution reconcile_legacy q app w s ≡ ok r
      → IsSaved q s r
  unfolding go_on
  go_on-IsSaved q app w s r h =
      let (e, first, later) =
        >>=-eq-ok (expire_interest legacy_resolution q.application_id s) _ h in
      dispatch_after-IsSaved q app w s e r
        (expire_interest-receipts legacy_resolution q.application_id s e.0 e.1 first) later

  go_on_with-IsSaved :
      (q : Request) (app : ViewingApplication) (w : Option Loaded) (s : Store)
      (r : CommandOutcome × Store)
      → go_on_with digest_schedule legacy_resolution reconcile_legacy q app w s ≡ ok r
      → IsSaved q s r
  go_on_with-IsSaved q app (some w) s r h = go_on-IsSaved q app w s r h
  go_on_with-IsSaved q app none s r h =
      let (_, h1) =
        guard-eq-ok (not (is_invite q.command.intent) || not (is_provider q.side)) _ _ h in
      let w = new_workflow q.application_id s in
      IsSaved-from q s (insert_workflow w s) r refl (
        go_on-IsSaved q app
          (record { row = w; pending_proposal = none; confirmed_appointment = none })
          (insert_workflow w s) r h1)

  keep_closed-receipts :
      (before imported : Option Loaded) (s : Store)
      → (keep_closed before imported s).receipts ≡ s.receipts
  keep_closed-receipts none imported s = refl
  keep_closed-receipts (some b) none s = refl
  keep_closed-receipts (some b) (some w) s = grind arith

  close_terminal-receipts :
      (q : Request) (app : ViewingApplication) (w : Option Loaded) (s t : Store)
      → close_terminal digest_schedule legacy_resolution reconcile_legacy q app w s ≡ ok t
      → t.receipts ≡ s.receipts
  close_terminal-receipts q app none s t h = grind arith
  close_terminal-receipts q app (some w) s t h = elim (Bool-cases (can_mutate app)) [
    | inl may ↦ grind (arith, (rw may at h))
    | inr ended ↦ ap (λ k. k.2) (close-kept legacy_resolution _ _ _ _ _ s t (rw ended at h))
  ]

  -- The SQL function of the migrations writes no receipt.
  abbrev pub KeepsReceipts : Type 0
  KeepsReceipts = (id : ℕ) (s t : Store) → reconcile_legacy id s ≡ some t → t.receipts ≡ s.receipts

  module _ (keeps : KeepsReceipts) where
    pub reconcile-receipts :
        (q : Request) (app : ViewingApplication) (w : Option Loaded) (s : Store)
        (r : CommandResult × Store)
        → reconcile digest_schedule legacy_resolution reconcile_legacy q app w s ≡ ok r
        → r.1.receipts ≡ s.receipts
    unfolding reconcile
    reconcile-receipts q app w s r h = elim (Option-cases (reconcile_legacy q.application_id s)) [
      | inl refused ↦ grind (arith, (rw refused at h))
      | inr (t, went) ↦
          let imported = load q.application_id t in
          let (u, first, last) =
            >>=-eq-ok
              (close_terminal digest_schedule legacy_resolution reconcile_legacy q app imported
                (keep_closed w imported t))
              _ (rw went at h) in
          sym (ap (λ x. x.1.receipts) (ok_inj last))
          ∙ (close_terminal-receipts q app imported (keep_closed w imported t) u first
              ∙ (keep_closed-receipts w imported t ∙ keeps q.application_id s t went))
    ]

    pub run-IsSaved :
        (q : Request) (app : ViewingApplication) (w : Option Loaded) (s : Store)
        (r : CommandOutcome × Store)
        → run digest_schedule legacy_resolution reconcile_legacy q app w s ≡ ok r
        → IsSaved q s r
    unfolding run
    run-IsSaved q app w s r h =
        let (_, h1) = guard-eq-ok (is_inactive app q.command.intent) _ _ h in
        let (_, h2) =
          guard-eq-ok (not (q.command.expected_workflow_revision == revision_of w)) _ _ h1 in
        elim (Bool-cases (is_reconcile q.command.intent)) [
          | inl legacy ↦
              IsSaved-after q s
                (reconcile digest_schedule legacy_resolution reconcile_legacy q app w s) r
                (λ x e. reconcile-receipts q app w s x e) (rw legacy at h2)
          | inr other ↦
              let (_, h3) =
                guard-eq-ok (is_legacy_loaded w s q.application_id) _ _ (rw other at h2) in
              go_on_with-IsSaved q app w s r h3
        ]
