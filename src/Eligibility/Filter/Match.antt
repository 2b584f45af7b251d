-- ===== src/Eligibility/Filter/Match.antt =====
-- The two halves of the rules of src/eligibility/profile-eligibility-evaluator.ts, side by side.
use renyqo_app.Eligibility.Doubles.{Amount, nan}
use renyqo_app.Eligibility.{
  Code, profile_check, household_income_not_available, household_income_below_requirement,
  household_size_not_available, household_size_exceeds_requirement, pets_not_allowed,
  smoking_not_allowed, pets_information_not_available, smoking_information_not_available,
  pets_by_arrangement, smoking_by_arrangement, schufa_declaration_pending,
  schufa_declared_not_verified, income_proof_declaration_pending,
  income_proof_declared_not_verified, ListingEligibilityCriteria, ApplicantEligibilityFacts,
  EvaluatedProfileFacts, Outcome, EligibilityCheck, is_fail, is_unknown, is_match, lte, gte,
  normalized, numeric_check, policy_check, declaration_check, checks_of, result_of,
  evaluate_profile,
}
use renyqo_app.Eligibility.Filter.{
  NumberColumn, PolicyColumn, profile_where, everything, numeric_where, policy_where, wheres_of,
  number_of, policy_of, hard_profile_match_where, Filtering, selects, minimum_household_net_income,
  suitable_for_people_count, pets_policy, smoking_policy,
}
use renyqo_app.Prelude.{
  ℕ, sym, Bool, true, false, not, ◌≡◌, ◌≢◌, refl, Option, none, some, List, [], ◌∷◌, ◌&&◌, ◌||◌,
  arith, any, all, Option-cases, inl, inr, ap, ◌∙◌,
}

abbrev blocks : Outcome → Bool
blocks o = is_fail o || is_unknown o

all-not-blocks :
    (cs : List EligibilityCheck)
    → all (λ c. not (blocks c.outcome)) cs
      ≡ (not (any (λ c. is_fail c.outcome) cs) && not (any (λ c. is_unknown c.outcome) cs))
all-not-blocks [] = refl
all-not-blocks (c ∷ cs) = ground (arith, all-not-blocks cs)

-- A result is a match unless some check fails or lacks a fact.
is_match-result_of :
    (cs : List EligibilityCheck) → is_match (result_of cs) ≡ all (λ c. not (blocks c.outcome)) cs
unfolding result_of
is_match-result_of cs = ground (arith, all-not-blocks cs)

module _ (db : Filtering) (c : ListingEligibilityCriteria) where
  matches-profile_rule :
      (present : Bool)
      → db.matches (profile_where present) c ≡ not (blocks (profile_check present).outcome)
  matches-profile_rule true = db.matches-everything c
  matches-profile_rule false = db.matches-id_in_none c

  matches-lte_rule :
      (k : NumberColumn) (missing failed : Code) (fact : Option Amount)
      → db.matches (numeric_where lte k fact) c
        ≡ not (blocks (numeric_check lte missing failed (number_of k c) fact).outcome)
  unfolding numeric_where numeric_check
  matches-lte_rule k missing failed none = rw (db.matches-number_is_null k c) (ground arith)
  matches-lte_rule k missing failed (some a) = elim (Option-cases (number_of k c)) [
    | inl e ↦ rw (db.matches-either, db.matches-number_is_null) (rw e refl)
    | inr (v, e) ↦
        rw (db.matches-either, db.matches-number_is_null, db.matches-lte k a c v e)
          (rw e (ground arith))
  ]

  matches-gte_rule :
      (k : NumberColumn) (missing failed : Code) (fact : Option Amount)
      → number_of k c ≢ some nan
      → db.matches (numeric_where gte k fact) c
        ≡ not (blocks (numeric_check gte missing failed (number_of k c) fact).outcome)
  unfolding numeric_where numeric_check
  matches-gte_rule k missing failed none h = rw (db.matches-number_is_null k c) (ground arith)
  matches-gte_rule k missing failed (some a) h = elim (Option-cases (number_of k c)) [
    | inl e ↦ rw (db.matches-either, db.matches-number_is_null) (rw e refl)
    | inr (v, e) ↦
        rw
          (
            db.matches-either,
            db.matches-number_is_null,
            db.matches-gte k a c v e (λ n. h (e ∙ ap some n)),
          )
          (rw e (ground arith))
  ]

  matches-policy_rule :
      (k : PolicyColumn) (missing prohibited arrangement : Code) (fact : Option Bool)
      → db.matches (policy_where k fact) c
        ≡ not (blocks (policy_check missing prohibited arrangement (policy_of k c) fact).outcome)
  unfolding policy_where policy_check
  matches-policy_rule k missing prohibited arrangement (some false) =
      rw (db.matches-everything c) (ground arith)
  matches-policy_rule k missing prohibited arrangement fact = elim (Option-cases (policy_of k c)) [
    | inl e ↦ rw (db.matches-either, db.matches-policy_is_null) (rw e refl)
    | inr (v, e) ↦
        rw (db.matches-either, db.matches-policy_is_null, db.matches-policy_is_not k c v e)
          (rw e (ground arith))
  ]

  matches-declaration_rule :
      (pending unverified : Code) (required : Bool) (fact : Option Bool)
      → db.matches everything c
        ≡ not (blocks (declaration_check pending unverified required fact).outcome)
  unfolding declaration_check
  matches-declaration_rule pending unverified required fact =
      rw (db.matches-everything c) (ground arith)

  selects-wheres_of :
      (f : EvaluatedProfileFacts)
      → c.suitable_for_people_count ≢ some nan
      → selects db (wheres_of f) c ≡ all (λ k. not (blocks k.outcome)) (checks_of c f)
  unfolding wheres_of checks_of
  selects-wheres_of f h = cc (
    matches-profile_rule f.profile_present,
    matches-lte_rule minimum_household_net_income household_income_not_available
        household_income_below_requirement f.household_net_income,
    matches-gte_rule suitable_for_people_count household_size_not_available
        household_size_exceeds_requirement f.household_size h,
    matches-policy_rule pets_policy pets_information_not_available pets_not_allowed
        pets_by_arrangement f.has_pets,
    matches-policy_rule smoking_policy smoking_information_not_available smoking_not_allowed
        smoking_by_arrangement f.is_smoker,
    matches-declaration_rule schufa_declaration_pending schufa_declared_not_verified
        c.schufa_required f.schufa_available,
    matches-declaration_rule income_proof_declaration_pending income_proof_declared_not_verified
        c.income_proof_required f.income_proof_available,
  )

-- The filter of `hardProfileMatchWhere` selects a listing exactly when `evaluateProfile` lets the
-- applicant apply to it, for every listing whose `suitableForPeopleCount` is not NaN.
pub selects-hard_profile_match_where :
    (db : Filtering) (c : ListingEligibilityCriteria) (p : Option ApplicantEligibilityFacts)
    (evaluated_at : ℕ)
    → c.suitable_for_people_count ≢ some nan
    → selects db (hard_profile_match_where p) c ≡ (evaluate_profile c p evaluated_at).can_apply
unfolding hard_profile_match_where evaluate_profile
selects-hard_profile_match_where db c p evaluated_at h =
    selects-wheres_of db c (normalized p) h ∙ sym (is_match-result_of (checks_of c (normalized p)))
