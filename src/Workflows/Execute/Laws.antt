-- ===== src/Workflows/Execute/Laws.antt =====
-- What `execute` of src/application-viewings/viewing-workflow-command.service.ts answers when the same
-- request comes again.
use renyqo_app.Prelude.{
  ℕ, ◌≡◌, refl, sym, ap, ◌∙◌, subst, ◌++◌, ◌&&◌, true, Option, none, some, List, [], ◌∷◌, ◌==◌,
  arith,
}
use renyqo_app.Domain.{Action}
use renyqo_app.Applications.Store.{Store, ok, >>=-eq-ok, CommandOutcome, Receipt, Proposal}
use renyqo_app.Workflows.Commands.{Schedule, action_of}
use renyqo_app.Workflows.Access.{ViewingApplication, lock}
use renyqo_app.Workflows.Rows.{load}
use renyqo_app.Workflows.Requests.{Request, find_receipt, receipt_row, replay, same_action}
use renyqo_app.Workflows.Execute.{answer, transact}
use renyqo_app.Workflows.Execute.Late.{replay-store}
use renyqo_app.Workflows.Execute.Saved.{KeepsReceipts, run-IsSaved}

module _ (digest_schedule : Schedule → ℕ) (legacy_resolution : Store → ℕ → Proposal → Proposal)
    (reconcile_legacy : ℕ → Store → Option Store)
    (keeps : KeepsReceipts digest_schedule legacy_resolution reconcile_legacy) where
  same_action_refl : (a : Action) → same_action a a ≡ true
  unfolding same_action
  same_action_refl a = grind arith

  replay-same :
      (q : Request) (o : CommandOutcome) (now : ℕ) (s : Store)
      → replay q (receipt_row q o now) s ≡ ok (o, s)
  unfolding replay
  replay-same q o now s = ground (arith, same_action_refl (action_of q.command.intent))

  key_matches : (a k : ℕ) → (a == a && k == k) ≡ true
  key_matches a k = ground arith

  find_receipt-append :
      (a k : ℕ) (rows : List Receipt) (r : Receipt)
      → find_receipt a k rows ≡ none
      → (r.application_id == a && r.request_key == k) ≡ true
      → find_receipt a k (rows ++ r ∷ []) ≡ some r
  unfolding find_receipt
  find_receipt-append a k [] r h e = rw e refl
  find_receipt-append a k (x ∷ rows) r h e = ground (arith, find_receipt-append a k rows r)

  -- the answer to a request for which there is a receipt, or none
  answer-again :
      (q : Request) (app app' : ViewingApplication) (s : Store) (r : CommandOutcome × Store)
      (found : Option Receipt)
      → find_receipt q.application_id q.command.request_key s.receipts ≡ found
      → answer digest_schedule legacy_resolution reconcile_legacy q app found s ≡ ok r
      → answer digest_schedule legacy_resolution reconcile_legacy q app'
          (find_receipt q.application_id q.command.request_key r.1.receipts)
          r.1
        ≡ ok r
  answer-again q app app' s r (some x) e h =
      subst
        (λ t.
          answer digest_schedule legacy_resolution reconcile_legacy q app'
            (find_receipt q.application_id q.command.request_key t.receipts) t
          ≡ ok r)
        (replay-store q x s r h) (rw e h)
  answer-again q app app' s r none e h =
      let saved =
        run-IsSaved digest_schedule legacy_resolution reconcile_legacy keeps q app
          (load q.application_id s) s r h in
      let found : find_receipt q.application_id q.command.request_key r.1.receipts
          ≡ some (receipt_row q r.0 r.1.now) =
        ap (find_receipt q.application_id q.command.request_key) saved.receipts
        ∙ find_receipt-append q.application_id q.command.request_key s.receipts
            (receipt_row q r.0 r.1.now) e (key_matches q.application_id q.command.request_key) in
      subst (λ x. answer digest_schedule legacy_resolution reconcile_legacy q app' x r.1 ≡ ok r)
        (sym found) (replay-same q r.0 r.1.now r.1)

  -- A request that was answered, with a result or with a failure that was committed, is answered in
  -- the same way when it comes again, and changes nothing then, as long as its user may still see the
  -- application and the SQL function of the migrations writes no receipt.
  pub transact_again :
      (q : Request) (s : Store) (o : CommandOutcome) (s' : Store) (app : ViewingApplication)
      → transact digest_schedule legacy_resolution reconcile_legacy q s ≡ ok (o, s')
      → lock q.application_id q.user_id q.side s' ≡ ok app
      → transact digest_schedule legacy_resolution reconcile_legacy q s' ≡ ok (o, s')
  unfolding transact
  transact_again q s o s' app h allowed =
      let (app_before, first, later) = >>=-eq-ok (lock q.application_id q.user_id q.side s) _ h in
      rw allowed (
        answer-again q app_before app s (o, s')
          (find_receipt q.application_id q.command.request_key s.receipts) refl later)
