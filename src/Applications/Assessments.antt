-- ===== src/Applications/Assessments.antt =====
-- src/eligibility/listing-criteria-revision.service.ts and
-- src/eligibility/application-eligibility-assessment.service.ts: the revisions of a listing's criteria
-- and the history of an application's assessments.
pub mod Frame
pub mod Returns
use renyqo_app.Prelude.{
  ℕ, ◌+◌, ◌*◌, ◌^◌, Bool, true, false, not, Option, none, some, List, [], ◌∷◌, ◌++◌, ◌&&◌, ◌||◌,
  ◌==◌, ltb, if◌then◌else◌, filter, order_by,
}
use renyqo_app.Domain.{
  Listing, Application, AssessmentTrigger, application_created, criteria_changed, is_active,
  is_waiting,
}
use renyqo_app.Eligibility.{
  PetsPolicy, allowed, by_arrangement, not_allowed, ListingEligibilityCriteria,
  ApplicantEligibilityFacts, EvaluatedProfileFacts, evaluate_profile,
}
use renyqo_app.Eligibility.Doubles.{Amount, Number, amount, below_zero, infinity, neg_infinity, nan}
use renyqo_app.Applications.Store.{
  Store, Result, ok, err, internal_error, CriteriaRevision, Assessment, find_profile, ◌>>=◌,
}

-- `===` on numbers, null included
amount_same : Amount → Amount → Bool
amount_same a b = a.mantissa * 2 ^ b.exponent == b.mantissa * 2 ^ a.exponent

-- -(m + 1) / 2 ^ e
below_same : Amount → Amount → Bool
below_same a b = (a.mantissa + 1) * 2 ^ b.exponent == (b.mantissa + 1) * 2 ^ a.exponent

number_same : Number → Number → Bool
unfolding amount_same below_same
number_same (amount a) (amount b) = amount_same a b
number_same (below_zero a) (below_zero b) = below_same a b
number_same infinity infinity = true
number_same neg_infinity neg_infinity = true
number_same _ _ = false

abbrev option_same {ℓ} : {A : Type ℓ} → (A → A → Bool) → Option A → Option A → Bool
option_same same none none = true
option_same same (some a) (some b) = same a b
option_same same _ _ = false

abbrev bool_same : Bool → Bool → Bool
bool_same true b = b
bool_same false b = not b

policy_same : PetsPolicy → PetsPolicy → Bool
policy_same allowed allowed = true
policy_same by_arrangement by_arrangement = true
policy_same not_allowed not_allowed = true
policy_same _ _ = false

-- `!CRITERIA_FIELDS.some((field) => a[field] !== b[field])`
unfoldable pub criteria_same : ListingEligibilityCriteria → ListingEligibilityCriteria → Bool
unfolding number_same policy_same
criteria_same a b =
    option_same number_same a.minimum_household_net_income b.minimum_household_net_income
    && (option_same number_same a.suitable_for_people_count b.suitable_for_people_count
        && (option_same policy_same a.pets_policy b.pets_policy
            && (option_same policy_same a.smoking_policy b.smoking_policy
                && (bool_same a.schufa_required b.schufa_required
                    && bool_same a.income_proof_required b.income_proof_required))))

-- `findFirst({ orderBy: { revision: 'desc' } })`
latest_from {ℓ} : {A : Type ℓ} → (A → ℕ) → Option A → List A → Option A
latest_from key best [] = best
latest_from key none (x ∷ xs) = latest_from key (some x) xs
latest_from key (some b) (x ∷ xs) =
    latest_from key (if ltb (key b) (key x) then some x else some b) xs

unfoldable pub latest_revision : ℕ → List CriteriaRevision → Option CriteriaRevision
unfolding latest_from
latest_revision listing_id rows =
    latest_from (λ r. r.revision) none (filter (λ r. r.listing_id == listing_id) rows)

create_revision : Listing → ℕ → Store → CriteriaRevision × Store
create_revision listing revision s =
    let row : CriteriaRevision = record {
      id = s.next_id;
      listing_id = listing.id;
      revision = revision;
      criteria = listing.criteria;
    } in
    (row, record s { next_id = s.next_id + 1; revisions = s.revisions ++ row ∷ [] })

-- `ListingCriteriaRevisionService.current`
unfoldable pub current_revision : Listing → Store → Result (CriteriaRevision × Store)
unfolding create_revision latest_revision
current_revision listing s = elim (latest_revision listing.id s.revisions) [
  | none ↦ ok (create_revision listing 1 s)
  | some latest ↦
      if criteria_same latest.criteria listing.criteria then ok (latest, s) else err internal_error
]

-- `ListingCriteriaRevisionService.changed`; `none` where the criteria are the same
pub changed_revision : Listing → Listing → Store → Result (Option CriteriaRevision × Store)
unfolding create_revision
changed_revision before after s =
    if criteria_same before.criteria after.criteria then ok (none, s) else do
      (previous, s') ← current_revision before s
      let (row, s'') = create_revision after (previous.revision + 1) s'
      ok (some row, s'')

facts_same : EvaluatedProfileFacts → EvaluatedProfileFacts → Bool
unfolding amount_same
facts_same a b =
    bool_same a.profile_present b.profile_present
    && (option_same amount_same a.household_net_income b.household_net_income
        && (option_same amount_same a.household_size b.household_size
            && (option_same bool_same a.has_pets b.has_pets
                && (option_same bool_same a.is_smoker b.is_smoker
                    && (option_same bool_same a.schufa_available b.schufa_available
                        && option_same bool_same a.income_proof_available
                            b.income_proof_available)))))

unfoldable pub latest_assessment : ℕ → List Assessment → Option Assessment
unfolding latest_from
latest_assessment application_id rows =
    latest_from (λ r. r.revision) none (filter (λ r. r.application_id == application_id) rows)

abbrev is_creation : AssessmentTrigger → Bool
is_creation application_created = true
is_creation _ = false

-- `PROFILE_EVALUATOR_VERSION`, by the number in its name
abbrev profile_evaluator_version : ℕ
profile_evaluator_version = 2

-- `last` is kept: the trigger is no creation, and the criteria, the version of the evaluator and the
-- facts are the last ones
is_repeated :
    AssessmentTrigger → CriteriaRevision → EvaluatedProfileFacts → Option Assessment → Bool
unfolding facts_same
is_repeated trigger revision facts none = false
is_repeated trigger revision facts (some last) =
    not (is_creation trigger)
    && (last.criteria_revision_id == revision.id
        && (last.evaluator_version == profile_evaluator_version
            && facts_same last.evaluation.facts facts))

abbrev next_revision : Option Assessment → ℕ
next_revision none = 1
next_revision (some last) = last.revision + 1

-- The rest of `record`, once the criteria are known.
unfoldable pub record_with :
    ℕ
    → Listing
    → CriteriaRevision
    → Option ApplicantEligibilityFacts
    → AssessmentTrigger
    → Option ℕ
    → Store
    → Result Store
unfolding is_repeated
record_with application_id listing revision p trigger actor s =
    let evaluation = evaluate_profile revision.criteria p s.now in
    let last = latest_assessment application_id s.assessments in
    let row : Assessment = record {
      application_id = application_id;
      listing_id = listing.id;
      criteria_revision_id = revision.id;
      revision = next_revision last;
      trigger = trigger;
      actor_user_id = actor;
      evaluator_version = profile_evaluator_version;
      evaluation = evaluation;
    } in
    if not (revision.listing_id == listing.id)
    then err internal_error
    else if is_repeated trigger revision evaluation.facts last
    then ok s
    else ok (record s { assessments = s.assessments ++ row ∷ [] })

-- `ApplicationEligibilityAssessmentService.record`, without a given revision
unfoldable pub record_assessment :
    ℕ
    → Listing
    → Option ApplicantEligibilityFacts
    → AssessmentTrigger
    → Option ℕ
    → Store
    → Result Store
unfolding record_with
record_assessment application_id listing p trigger actor s = do
  (revision, s') ← current_revision listing s
  record_with application_id listing revision p trigger actor s'

-- the loop of `reassessListing`
reassess_all : List Application → Listing → CriteriaRevision → ℕ → Store → Result Store
unfolding record_with
reassess_all [] listing revision actor s = ok s
reassess_all (a ∷ rows) listing revision actor s = do
  s' ←
      record_with a.id listing revision (find_profile a.applicant_id s.profiles) criteria_changed
        (some actor) s
  reassess_all rows listing revision actor s'

-- `reassessListing`
pub reassess_listing : Listing → CriteriaRevision → ℕ → Store → Result Store
unfolding reassess_all
reassess_listing listing revision actor s =
    let current : Application → Bool =
      λ a. a.listing_id == listing.id && (is_active a.status || is_waiting a.status) in
    reassess_all (order_by (λ a b. ltb a.id b.id) (filter current s.applications)) listing revision
      actor s
