-- ===== src/Applications/Assessments/Returns.antt =====
-- When the recording of an assessment throws
-- (src/eligibility/application-eligibility-assessment.service.ts).
use renyqo_app.Prelude.{
  ℕ, ◌≡◌, refl, subst, true, Option, none, some, List, [], ◌∷◌, ◌==◌, All, filter, arith, ltb,
  Bool-cases, inl, inr,
}
use renyqo_app.Domain.{Listing, AssessmentTrigger}
use renyqo_app.Eligibility.{ApplicantEligibilityFacts, evaluate_profile}
use renyqo_app.Applications.Store.{Store, Result, ok, CriteriaRevision}
use renyqo_app.Applications.Assessments.{
  criteria_same, latest_from, latest_revision, current_revision, record_with, record_assessment,
  is_repeated, latest_assessment,
}

-- The criteria of the listing are those of its last revision.
pub record IsInSync (listing : Listing) (r : CriteriaRevision) (rows : List CriteriaRevision)
    : Type 0 where
  pub latest : latest_revision listing.id rows ≡ some r
  pub same : criteria_same r.criteria listing.criteria ≡ true

latest_from-All :
    (P : CriteriaRevision → Type 0) (key : CriteriaRevision → ℕ) (best : CriteriaRevision)
    (rows : List CriteriaRevision) (r : CriteriaRevision)
    → P best
    → All P rows
    → latest_from key (some best) rows ≡ some r
    → P r
unfolding latest_from
latest_from-All P key best [] r p h e = subst P (ground arith) p
latest_from-All P key best (x ∷ rows) r p (q, h) e = elim (Bool-cases (ltb (key best) (key x))) [
  | inl newer ↦ latest_from-All P key x rows r q h (rw newer at e)
  | inr older ↦ latest_from-All P key best rows r p h (rw older at e)
]

All-listed :
    (id : ℕ) (rows : List CriteriaRevision)
    → All (λ r. r.listing_id ≡ id) (filter (λ r. r.listing_id == id) rows)
All-listed id [] = tt
All-listed id (r ∷ rows) = ground (arith, All-listed id rows)

latest_from-first :
    (id : ℕ) (rows : List CriteriaRevision) (r : CriteriaRevision)
    → All (λ r. r.listing_id ≡ id) rows
    → latest_from (λ r. r.revision) none rows ≡ some r
    → r.listing_id ≡ id
unfolding latest_from
latest_from-first id [] r h e = cc
latest_from-first id (x ∷ rows) r (q, h) e =
    latest_from-All (λ r. r.listing_id ≡ id) (λ r. r.revision) x rows r q h e

latest_revision-listed :
    (id : ℕ) (rows : List CriteriaRevision) (r : CriteriaRevision)
    → latest_revision id rows ≡ some r
    → r.listing_id ≡ id
unfolding latest_revision
latest_revision-listed id rows r e =
    latest_from-first id (filter (λ r. r.listing_id == id) rows) r (All-listed id rows) e

current_revision_ok :
    (listing : Listing) (r : CriteriaRevision) (s : Store)
    → IsInSync listing r s.revisions
    → current_revision listing s ≡ ok (r, s)
unfolding current_revision
current_revision_ok listing r s sync = ground (arith, sync.latest, sync.same)

-- What the recording of an assessment gives, and that it keeps the revisions.
pub record Records (m : Result Store) (s : Store) : Type 0 where
  pub after : Store
  pub returns : m ≡ ok after
  pub revisions : after.revisions ≡ s.revisions

record_with_ok :
    (id : ℕ) (listing : Listing) (r : CriteriaRevision) (p : Option ApplicantEligibilityFacts)
    (trigger : AssessmentTrigger) (actor : Option ℕ) (s : Store)
    → r.listing_id ≡ listing.id
    → Records (record_with id listing r p trigger actor s) s
unfolding record_with
record_with_ok id listing r p trigger actor s e =
    let same : (r.listing_id == listing.id) ≡ true = ground (arith, e) in
    let facts = (evaluate_profile r.criteria p s.now).facts in
    let last = latest_assessment id s.assessments in
    elim (Bool-cases (is_repeated trigger r facts last)) [
      | inl again ↦ rw (same, again) (record { after = s; returns = refl; revisions = refl })
      | inr new ↦ rw (same, new) (record { after = _; returns = refl; revisions = refl })
    ]

pub record_assessment_ok :
    (id : ℕ) (listing : Listing) (r : CriteriaRevision) (p : Option ApplicantEligibilityFacts)
    (trigger : AssessmentTrigger) (actor : Option ℕ) (s : Store)
    → IsInSync listing r s.revisions
    → Records (record_assessment id listing p trigger actor s) s
unfolding record_assessment
record_assessment_ok id listing r p trigger actor s sync =
    let listed = latest_revision-listed listing.id s.revisions r sync.latest in
    rw (current_revision_ok listing r s sync) (record_with_ok id listing r p trigger actor s listed)
