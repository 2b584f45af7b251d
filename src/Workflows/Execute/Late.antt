-- ===== src/Workflows/Execute/Late.antt =====
-- What `execute` of src/application-viewings/viewing-workflow-command.service.ts leaves when it throws.
pub mod Expiries
use renyqo_app.Prelude.{
  ℕ, ◌≤◌, ◌≡◌, sym, ap, ◌⊎◌, inl, inr, ◌&&◌, List, leb, arith, Option-cases, if◌then◌else◌,
}
use renyqo_app.Domain.{Application, Listing, Audience, Reason, InterestState}
use renyqo_app.Applications.Store.{
  Store, Result, ok, err, Failure, CommandOutcome, success, failed, Receipt, Workflow, Appointment,
  Error, viewing_state_changed, find_application, find_listing,
}
use renyqo_app.Applications.Closing.{find_workflow, is_closed, is_current_mode}
use renyqo_app.Applications.Lifecycle.Expiry.{
  expire, expire_with, expire_viewing_interest, may_expire, is_asked, is_due, is_pending_interest,
  find_appointment, latest_completed, is_provider_closed,
}
use renyqo_app.Workflows.Commands.{Command}
use renyqo_app.Workflows.Rows.{load_found}
use renyqo_app.Workflows.Expiry.{
  expire_writes, expire_pending, expire_loaded, expire_proposal, expire_completed, expire_asked,
  is_overdue,
}
use renyqo_app.Workflows.Expiry.Laws.{IsDue, is_overdue-IsDue}
use renyqo_app.Workflows.Apply
use renyqo_app.Workflows.Decisions
use renyqo_app.Workflows.Requests.{Request, replay}
use renyqo_app.Workflows.Execute.{settle}
use renyqo_app.Workflows.Execute.Late.Expiries.{IsLateProposal}

pub replay-store :
    (q : Request) (x : Receipt) (s : Store) (r : CommandOutcome × Store)
    → replay q x s ≡ ok r
    → s ≡ r.1
unfolding replay
replay-store q x s r h = grind arith

pub settle-cases :
    (s : Store) (m : Result (CommandOutcome × Store)) (e : Error) (s' : Store)
    → settle s m ≡ (err e, s')
    → (s' ≡ s) ⊎ ((f : Failure) × (m ≡ ok (failed f, s')) × (e ≡ viewing_state_changed f))
settle-cases s (err thrown) e s' h = inl (sym (ap (λ x. x.1) h))
settle-cases s (ok (success r, t)) e s' h = cc (ap (λ x. x.0) h)
settle-cases s (ok (failed f, t)) e s' h =
    inr (f, ap (λ x. ok (failed f, x)) (ap (λ x. x.1) h), cc (ap (λ x. x.0) h))

abbrev pub request_of : ℕ → ℕ → Audience → Command → ℕ → Request
request_of application_id user_id side command request_hash = record {
  application_id = application_id;
  user_id = user_id;
  side = side;
  command = command;
  request_hash = request_hash;
}

abbrev reason_of : CommandOutcome → Reason → Reason
reason_of (success r) other = other
reason_of (failed f) other = f.reason
