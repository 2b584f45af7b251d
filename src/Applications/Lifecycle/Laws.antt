-- ===== src/Applications/Lifecycle/Laws.antt =====
-- A submission (`apply` of src/applications/application-lifecycle.service.ts): what it checks and what
-- it leaves.
use renyqo_app.Prelude.{
  ℕ, ◌+◌, ◌≤◌, ◌≡◌, refl, sym, ap, ◌∙◌, subst, Bool, true, false, not, Option, List, [], ◌∷◌, ◌++◌,
  ◌&&◌, ◌==◌, ltb, leb, arith, ◌⊎◌, if◌then◌else◌, All, Bool-cases, inl, inr,
}
use renyqo_app.Domain.{Application, Listing, active, waiting, published, is_active, is_published}
use renyqo_app.Eligibility.{ApplicantEligibilityFacts, evaluate_profile}
use renyqo_app.Applications.Store.{Store, ok, >>=-eq-ok, guard-eq-ok, find_profile}
use renyqo_app.Applications.Admission.{evaluate, history_for_listing}
use renyqo_app.Applications.Admission.Laws.{Permits, can_submit_iff}
use renyqo_app.Applications.Assessments.{record_assessment}
use renyqo_app.Applications.Assessments.Frame.{record_assessment-frame}
use renyqo_app.Applications.Promotion.{
  Reconciled, active_applications_limit, count_active, reconcile,
}
use renyqo_app.Applications.Promotion.Order.{HasUniqueIds}
use renyqo_app.Applications.Promotion.Batches.{ok_inj}
use renyqo_app.Applications.Promotion.Capacity.{reconcile_capacity}
use renyqo_app.Applications.Lifecycle.{submission_time, new_application, submit, apply_to}

not-true : (b : Bool) → not b ≡ false → b ≡ true
not-true b h = ground arith

-- What a submission has checked, and the steps that it took.
record IsSubmitted (listing : Listing) (applicant_id : ℕ) (s : Store) (a : Application) (s' : Store)
    : Type 0 where
  shown : is_published listing.status ≡ true
  admitted :
      (evaluate
        (history_for_listing applicant_id listing.id s)
        listing.status
        true
        s.now).can_submit_application
      ≡ true
  eligible :
      (evaluate_profile listing.criteria (find_profile applicant_id s.profiles) s.now).can_apply
      ≡ true
  reconciled : Reconciled
  served : reconcile listing s ≡ ok reconciled
  written :
      submit listing applicant_id
        (find_profile applicant_id s.profiles)
        (submission_time s.now (history_for_listing applicant_id listing.id s))
        (ltb 0 reconciled.remaining_capacity)
        reconciled.store
      ≡ ok (a, s')

apply_to-IsSubmitted :
    (listing : Listing) (applicant_id : ℕ) (s : Store) (a : Application) (s' : Store)
    → apply_to listing applicant_id s ≡ ok (a, s')
    → IsSubmitted listing applicant_id s a s'
unfolding apply_to
apply_to-IsSubmitted listing applicant_id s a s' h =
    let (shown, h1) = guard-eq-ok _ _ _ h in
    let (admitted, h2) = guard-eq-ok _ _ _ h1 in
    let (eligible, h3) = guard-eq-ok _ _ _ h2 in
    let (r, served, written) = >>=-eq-ok (reconcile listing s) _ h3 in
    record {
      shown = not-true _ shown;
      admitted = not-true _ admitted;
      eligible = not-true _ eligible;
      reconciled = r;
      served = served;
      written = written;
    }

-- An application that was submitted is to a listing that is published, its applicant meets the criteria
-- of the listing at that time, and every earlier application of theirs to it permits another.
pub apply_to-Permits :
    (listing : Listing) (applicant_id : ℕ) (s : Store) (a : Application) (s' : Store)
    → apply_to listing applicant_id s ≡ ok (a, s')
    → (listing.status ≡ published)
      × ((evaluate_profile listing.criteria (find_profile applicant_id s.profiles) s.now).can_apply
          ≡ true)
      × All (Permits s.now) (history_for_listing applicant_id listing.id s)
apply_to-Permits listing applicant_id s a s' h =
    let done = apply_to-IsSubmitted listing applicant_id s a s' h in
    let permits =
      (can_submit_iff (history_for_listing applicant_id listing.id s) listing.status true s.now).0
        done.admitted in
    (permits.0, done.eligible, permits.2)

count_active-append :
    (id : ℕ) (rows : List Application) (a : Application)
    → count_active id (rows ++ a ∷ [])
      ≡ count_active id rows + (if a.listing_id == id && is_active a.status then 1 else 0)
unfolding count_active
count_active-append id [] a = ground arith
count_active-append id (b ∷ rows) a = ground (arith, count_active-append id rows a)

-- what a submission adds to the table
record IsAdded (listing : Listing) (room : Bool) (s : Store) (a : Application) (s' : Store)
    : Type 0 where
  table : s'.applications ≡ s.applications ++ a ∷ []
  listed : a.listing_id ≡ listing.id
  status : a.status ≡ (if room then active else waiting)

submit-IsAdded :
    (listing : Listing) (applicant_id : ℕ) (profile : Option ApplicantEligibilityFacts) (now : ℕ)
    (room : Bool) (s : Store) (a : Application) (s' : Store)
    → submit listing applicant_id profile now room s ≡ ok (a, s')
    → IsAdded listing room s a s'
unfolding submit new_application
submit-IsAdded listing applicant_id profile now room s a s' h =
    let (_, h1) = guard-eq-ok _ _ _ h in
    let (t, recorded, done) = >>=-eq-ok (record_assessment _ listing profile _ _ _) _ h1 in
    let frame = record_assessment-frame _ listing profile _ _ _ t recorded in
    subst (λ q. IsAdded listing room s q.0 q.1) (ok_inj done)
      (record { table = ap (λ x. x.applications) frame; listed = refl; status = refl })

-- A reconciliation keeps the limit, and where it reports no room the listing has reached it.
reconcile_limit :
    (listing : Listing) (s : Store) (r : Reconciled)
    → is_published listing.status ≡ true
    → HasUniqueIds s.applications
    → count_active listing.id s.applications ≤ active_applications_limit
    → reconcile listing s ≡ ok r
    → count_active listing.id r.store.applications + r.remaining_capacity
      ≡ active_applications_limit
reconcile_limit listing s r shown unique within h =
    let law = rw shown at (reconcile_capacity listing s r unique h) in
    elim (Bool-cases (leb active_applications_limit (count_active listing.id s.applications))) [
      | inr room ↦ rw room at law
      | inl full ↦
          subst
            (λ r.
              count_active listing.id r.store.applications + r.remaining_capacity
              ≡ active_applications_limit)
            (sym (rw full at law)) (ground arith)
    ]

-- A submission keeps the limit of five active applications of the listing, and it makes the applicant
-- wait only where the listing has five.
pub apply_to_limit :
    (listing : Listing) (applicant_id : ℕ) (s : Store) (a : Application) (s' : Store)
    → HasUniqueIds s.applications
    → count_active listing.id s.applications ≤ active_applications_limit
    → apply_to listing applicant_id s ≡ ok (a, s')
    → (count_active listing.id s'.applications ≤ active_applications_limit)
      × ((a.status ≡ active)
          ⊎ ((a.status ≡ waiting)
              × (count_active listing.id s'.applications ≡ active_applications_limit)))
apply_to_limit listing applicant_id s a s' unique within h =
    let done = apply_to-IsSubmitted listing applicant_id s a s' h in
    let r = done.reconciled in
    let sum = reconcile_limit listing s r done.shown unique within done.served in
    let added =
      submit-IsAdded listing applicant_id _ _ (ltb 0 r.remaining_capacity) r.store a s'
        done.written in
    let count =
      ap (count_active listing.id) added.table
      ∙ count_active-append listing.id r.store.applications a in
    ground (arith, sum, count, added.listed, added.status)
