-- ===== src/Workflows/Access.antt =====
-- src/application-viewings/application-viewing-access.service.ts: who may read and change the viewings
-- of an application. The row locks have no effect on one transaction by itself.
use renyqo_app.Prelude.{ℕ, Bool, not, Option, none, some, ◌&&◌, ◌==◌, if◌then◌else◌}
use renyqo_app.Domain.{Application, Listing, Audience, provider_side, applicant_side}
use renyqo_app.Applications.Store.{
  Store, Result, ok, err, ◌>>=◌, not_found, internal_error, conflict, Workflow, find_application,
  find_listing,
}
use renyqo_app.Applications.Process.{
  application_process_allows_mutation, provider_application_is_visible,
}
use renyqo_app.Applications.Closing.{find_workflow, is_current_mode}

-- an application with its listing
abbrev pub ViewingApplication : Type 0
ViewingApplication = Application × Listing

unfoldable pub may_see : ℕ → Audience → ViewingApplication → Bool
unfolding provider_application_is_visible
may_see user_id applicant_side (a, l) = a.applicant_id == user_id
may_see user_id provider_side (a, l) = l.provider_id == user_id && provider_application_is_visible a

-- an application without a listing is ruled out by the foreign key
abbrev authorize_listed : Application → Option Listing → ℕ → Audience → Result ViewingApplication
authorize_listed a none user_id side = err internal_error
authorize_listed a (some l) user_id side =
    if may_see user_id side (a, l) then ok (a, l) else err not_found

abbrev authorize_found : Option Application → ℕ → Audience → Store → Result ViewingApplication
authorize_found none user_id side s = err not_found
authorize_found (some a) user_id side s =
    authorize_listed a (find_listing a.listing_id s.listings) user_id side

-- `authorize`
unfoldable pub authorize : ℕ → ℕ → Audience → Store → Result ViewingApplication
unfolding may_see
authorize application_id user_id side s =
    authorize_found (find_application application_id s.applications) user_id side s

-- `canMutate`
unfoldable pub can_mutate : ViewingApplication → Bool
unfolding application_process_allows_mutation
can_mutate (a, l) = application_process_allows_mutation a.status l.status

-- `lock`
unfoldable pub lock : ℕ → ℕ → Audience → Store → Result ViewingApplication
unfolding authorize
lock application_id user_id side s =
    authorize application_id user_id side s >>= λ _. authorize application_id user_id side s

-- `mutation`
unfoldable pub mutation : ℕ → ℕ → Audience → Store → Result ViewingApplication
unfolding lock can_mutate
mutation application_id user_id side s = lock application_id user_id side s >>= λ current.
    if not (can_mutate current) then err conflict else ok current

abbrev assert_mode : Option Workflow → Store → Result Store
assert_mode none s = ok s
assert_mode (some w) s = if is_current_mode w.mode then err conflict else ok s

-- `assertLegacy`
unfoldable pub assert_legacy : ℕ → Store → Result Store
assert_legacy application_id s = assert_mode (find_workflow application_id s.workflows) s
