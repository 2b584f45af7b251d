-- ===== src/Applications/Lifecycle/Revalidation.antt =====
-- `revalidateActiveAndWaitingApplications` of src/applications/application-lifecycle.service.ts: after
-- a change of a profile, the applications that no longer meet the criteria end.
use renyqo_app.Prelude.{
  ℕ, Bool, none, some, List, [], ◌∷◌, ◌&&◌, ◌||◌, ◌==◌, ltb, if◌then◌else◌, filter, order_by,
}
use renyqo_app.Domain.{
  Application, Listing, rejected, profile_no_longer_eligible, is_active, is_waiting, is_published,
  system_actor, to_applicant, ActivityType, profile_changed, ClosureReason,
}
use renyqo_app.Eligibility.{ApplicantEligibilityFacts, evaluate_profile}
use renyqo_app.Applications.Store.{
  Store, Result, ok, ◌>>=◌, Proposal, Activity, no_metadata, append_activity, update_application,
  find_listing,
}
use renyqo_app.Applications.Assessments.{record_assessment}
use renyqo_app.Applications.Closing.{close, no_options}
use renyqo_app.Applications.Promotion.{reconcile}

-- the rows that the query reads, each with its listing
pub with_listings : List Listing → List Application → List (Application × Listing)
with_listings listings [] = []
with_listings listings (a ∷ rows) =
    let rest = with_listings listings rows in
    elim (find_listing a.listing_id listings) [ none ↦ rest | some l ↦ (a, l) ∷ rest ]

-- Listing by listing, in the order of their ids; the rows of one listing stay in theirs.
abbrev by_listing : List (Application × Listing) → List (Application × Listing)
by_listing rows = order_by (λ x y. ltb x.0.listing_id y.0.listing_id) rows

abbrev ineligible_row : ℕ → Application → Application
ineligible_row now a = record a {
  status = rejected;
  rejected_at = some now;
  public_reason = some profile_no_longer_eligible;
}

abbrev ineligible_note : Application → ℕ → Activity
ineligible_note a now = record {
  application_id = a.id;
  type = ActivityType.application_rejected;
  actor_user_id = none;
  actor_type = system_actor;
  visibility = to_applicant;
  occurred_at = now;
  metadata = record no_metadata {
    from_status = some a.status;
    to_status = some rejected;
    reason = some profile_no_longer_eligible;
  };
}

module _ (legacy_resolution : Store → ℕ → Proposal → Proposal) where
  -- the end of an application that is not eligible any more
  pub end_ineligible : Application → Listing → Store → Result Store
  end_ineligible a listing s =
      close legacy_resolution a.id ClosureReason.eligibility_rejected system_actor none no_options s
      >>= λ closed.
          let gone =
            append_activity (ineligible_note a s.now)
              (update_application a.id (ineligible_row s.now) closed) in
          if is_active a.status && is_published listing.status
          then (reconcile listing gone >>= λ r. ok r.store)
          else ok gone

  -- the body of the inner loop
  pub revalidate : Application → Listing → ℕ → ApplicantEligibilityFacts → Store → Result Store
  unfolding end_ineligible
  revalidate a listing applicant_id profile s =
      let eligible = (evaluate_profile listing.criteria (some profile) s.now).can_apply in
      record_assessment a.id listing (some profile) profile_changed (some applicant_id) s >>= λ s'.
      if eligible then ok s' else end_ineligible a listing s'

  pub revalidate_all :
      List (Application × Listing) → ℕ → ApplicantEligibilityFacts → Store → Result Store
  unfolding revalidate
  revalidate_all [] applicant_id profile s = ok s
  revalidate_all ((a, listing) ∷ rows) applicant_id profile s =
      revalidate a listing applicant_id profile s >>= λ s'.
      revalidate_all rows applicant_id profile s'

  -- `revalidateActiveAndWaitingApplications`
  pub revalidate_applications : ℕ → ApplicantEligibilityFacts → Store → Result Store
  unfolding revalidate_all with_listings
  revalidate_applications applicant_id profile s =
      let current : Application → Bool =
        λ a. a.applicant_id == applicant_id && (is_active a.status || is_waiting a.status) in
      revalidate_all (by_listing (with_listings s.listings (filter current s.applications)))
        applicant_id profile s
