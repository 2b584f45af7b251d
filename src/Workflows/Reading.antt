-- ===== src/Workflows/Reading.antt =====
-- src/application-viewings/viewing-workflow-decision.service.ts: what a decision reads of a viewing
-- before it looks at the action.
use renyqo_app.Prelude.{
  ℕ, Bool, not, Option, none, some, List, [], ◌∷◌, ◌&&◌, ◌||◌, ◌==◌, ltb, filter, any, is_some,
  order_by,
}
use renyqo_app.Applications.Store.{Store, Viewing, Workflow, Appointment, OutcomeRow}
use renyqo_app.Applications.Closing.{is_closed}
use renyqo_app.Applications.Lifecycle.Expiry.{is_provider_closed}
use renyqo_app.Workflows.Rows.{is_the}
use renyqo_app.Workflows.Access.{ViewingApplication, can_mutate}

-- what `apply` reads before it looks at the action
pub record Read : Type 0 where
  pub workflow : Workflow
  pub application : ViewingApplication
  pub appointment : Appointment
  pub viewing : Viewing
  pub outcomes : List OutcomeRow
  pub has_interest : Bool
  pub is_latest : Bool

abbrev pub is_active_process : Read → Bool
is_active_process r = can_mutate r.application

-- `postViewingOpen`
abbrev pub post_viewing_open : Workflow → Bool
post_viewing_open w = not (is_closed w.state) || is_provider_closed w.closure_reason

abbrev pub id_of_first : List Viewing → Option ℕ
id_of_first [] = none
id_of_first (v ∷ _) = some v.id

-- `findFirst({ where: { acceptedAt: { not: null } }, orderBy: { round: 'desc' } })`
unfoldable pub latest_accepted : ℕ → List Viewing → Option ℕ
latest_accepted application_id rows = id_of_first (
    order_by (λ a b. ltb b.round a.round)
      (filter (λ v. v.application_id == application_id && is_some v.accepted_at) rows))

-- `outcomes: { orderBy: { revision: 'asc' } }`
unfoldable pub outcomes_of : ℕ → List OutcomeRow → List OutcomeRow
outcomes_of viewing_id rows =
    order_by (λ a b. ltb a.revision b.revision) (filter (λ o. o.viewing_id == viewing_id) rows)

-- the rows of a viewing, with what is joined to it
abbrev pub read_rows : Workflow → ViewingApplication → Appointment → Viewing → Store → Read
read_rows w app a v s = record {
  workflow = w;
  application = app;
  appointment = a;
  viewing = v;
  outcomes = outcomes_of v.id s.outcomes;
  has_interest = any (λ i. i.viewing_id == v.id) s.interests;
  is_latest = is_the v.id (latest_accepted w.application_id s.viewings);
}
