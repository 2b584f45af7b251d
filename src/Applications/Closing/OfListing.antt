-- ===== src/Applications/Closing/OfListing.antt =====
-- `closeListingWithinTransaction` of src/applications/viewing-lifecycle.service.ts: a listing that is
-- rented, archived or taken back closes the viewings of all its applications.
use renyqo_app.Prelude.{
  ℕ, Bool, false, not, Option, none, some, List, [], ◌∷◌, ◌&&◌, ◌||◌, ◌==◌, ltb, if◌then◌else◌,
  filter, length, is_some, any, order_by,
}
use renyqo_app.Domain.{Application, provider_actor, ClosureReason}
use renyqo_app.Applications.Store.{Store, Result, ok, ◌>>=◌, Workflow, Proposal, Appointment}
use renyqo_app.Applications.Closing.{
  is_closed, is_unanswered, find_workflow, live_viewings, no_options, close,
}

-- what the `OR` of `closeListingWithinTransaction` tests of the workflow
abbrev has_open_workflow : Option Workflow → List Appointment → Bool
has_open_workflow none appointments = false
has_open_workflow (some w) appointments =
    not (is_closed w.state)
    || any (λ a. a.workflow_id == w.id && is_unanswered a.interest_state) appointments

-- the applications that `closeListingWithinTransaction` reads
unfoldable pub has_viewings_to_close : ℕ → Store → Application → Bool
unfolding find_workflow live_viewings
has_viewings_to_close listing_id s a =
    let w = find_workflow a.id s.workflows in
    a.listing_id == listing_id
    && (has_open_workflow w s.appointments
        || (not (length (live_viewings a.id s.viewings) == 0)
            || (not (is_some w) && any (λ v. v.application_id == a.id) s.viewings)))

abbrev is_selected : Option ℕ → ℕ → Bool
is_selected none id = false
is_selected (some selected) id = id == selected

module _ (legacy_resolution : Store → ℕ → Proposal → Proposal) where
  -- the loop of `closeListingWithinTransaction`
  unfoldable pub close_each : List Application → ClosureReason → ℕ → Option ℕ → Store → Result Store
  close_each [] reason actor_user_id selected s = ok s
  close_each (a ∷ rows) reason actor_user_id selected s =
      close legacy_resolution a.id
        (if is_selected selected a.id then ClosureReason.application_accepted else reason)
        provider_actor (some actor_user_id) no_options s
      >>= λ s'. close_each rows reason actor_user_id selected s'

  -- `closeListingWithinTransaction`
  unfoldable pub close_listing : ℕ → ClosureReason → ℕ → Option ℕ → Store → Result Store
  unfolding has_viewings_to_close close_each
  close_listing listing_id reason actor_user_id selected s =
      close_each
        (order_by (λ a b. ltb a.id b.id)
          (filter (has_viewings_to_close listing_id s) s.applications))
        reason actor_user_id selected s
