-- ===== src/Applications/Process.antt =====
-- src/applications/application-process.policy.ts: who may see and change an application, and when.
use renyqo_app.Prelude.{
  ℕ, ◌-◌, ◌≡◌, ◌↔◌, Bool, true, false, not, Option, none, some, ◌&&◌, ◌||◌, ◌==◌, leb, arith,
  is_some, is_none,
}
use renyqo_app.Domain.{
  ApplicationStatus, ListingStatus, Application, Listing, is_active, is_waiting, is_published,
  is_paused,
}

-- `PROVIDER_CURATION_COOLDOWN_MS`
abbrev pub provider_curation_cooldown_ms : ℕ
provider_curation_cooldown_ms = 60000

abbrev pub application_can_withdraw : ApplicationStatus → Bool
application_can_withdraw status = is_active status || is_waiting status

-- `providerCurationAllowed`; a time in the future gives a negative difference, here 0
unfoldable pub provider_curation_allowed : Option ℕ → ℕ → Bool
provider_curation_allowed none as_of = true
provider_curation_allowed (some last) as_of = leb provider_curation_cooldown_ms (as_of - last)

unfoldable pub application_process_allows_mutation : ApplicationStatus → ListingStatus → Bool
application_process_allows_mutation status listing_status =
    is_active status && (is_published listing_status || is_paused listing_status)

-- `providerApplicationIsVisible`
unfoldable pub provider_application_is_visible : Application → Bool
provider_application_is_visible a =
    not (is_waiting a.status) && (is_active a.status || is_some a.active_at)

-- the rows that the query of `providerApplicationVisibility` selects
pub provider_application_visibility : ℕ → Option Listing → Application → Bool
provider_application_visibility provider_id none a = false
provider_application_visibility provider_id (some l) a =
    l.provider_id == provider_id
    && (not (is_waiting a.status) && (is_active a.status || not (is_none a.active_at)))

-- Of the applications to a provider's own listing, the query selects exactly those that
-- `providerApplicationIsVisible` lets the provider see.
pub provider_application_visibility_lem :
    (provider_id : ℕ) (l : Listing) (a : Application)
    → (provider_application_visibility provider_id (some l) a ≡ true)
      ↔ ((l.provider_id ≡ provider_id) × (provider_application_is_visible a ≡ true))
unfolding provider_application_visibility provider_application_is_visible
provider_application_visibility_lem provider_id l a = ground arith
