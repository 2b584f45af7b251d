-- ===== src/Eligibility/Outcomes.antt =====
-- The response of src/eligibility/profile-eligibility-evaluator.ts: its result, reasons, warnings and
-- facts.
use renyqo_app.Eligibility.{
  lte, gte, income, household_size, household_income_not_available,
  household_income_below_requirement, household_size_not_available,
  household_size_exceeds_requirement, profile_check, is_match, PetsPolicy, Code, Criterion,
  Comparison, ListingEligibilityCriteria, ApplicantEligibilityFacts, EvaluatedProfileFacts, Outcome,
  EligibilityCheck, Result, match, match_with_observations, no_match, insufficient_information,
  is_fail, is_unknown, is_observation, normalized, numeric_check, policy_check, declaration_check,
  checks_of, codes_of, result_of, used_facts, evaluate_profile, keep_if, is_restricted, check_of,
}
use renyqo_app.Eligibility.Doubles.{Amount, Number}
use renyqo_app.Prelude.{
  if◌then◌else◌, ℕ, Bool, true, false, ◌≡◌, ◌≢◌, ◌↔◌, refl, Option, none, some, List, [], ◌∷◌, ◌||◌,
  arith, any, All, is_some,
}

numeric_check-keep_if :
    (o : Comparison) (missing failed : Code) (bound : Option Number) (fact : Option Amount)
    → numeric_check o missing failed bound (keep_if (is_some bound) fact)
      ≡ numeric_check o missing failed bound fact
unfolding numeric_check
numeric_check-keep_if o missing failed none fact = refl
numeric_check-keep_if o missing failed (some b) fact = refl

policy_check-keep_if :
    (missing prohibited arrangement : Code) (policy : Option PetsPolicy) (fact : Option Bool)
    → policy_check missing prohibited arrangement policy (keep_if (is_restricted policy) fact)
      ≡ policy_check missing prohibited arrangement policy fact
unfolding policy_check
policy_check-keep_if missing prohibited arrangement policy fact = ground arith

declaration_check-keep_if :
    (pending unverified : Code) (required : Bool) (fact : Option Bool)
    → declaration_check pending unverified required (keep_if required fact)
      ≡ declaration_check pending unverified required fact
unfolding declaration_check
declaration_check-keep_if pending unverified required fact = ground arith

-- The facts that a response keeps give every check of the full facts.
pub checks_of-used_facts :
    (c : ListingEligibilityCriteria) (f : EvaluatedProfileFacts)
    → checks_of c (used_facts c f) ≡ checks_of c f
unfolding checks_of used_facts
checks_of-used_facts c f =
    simp (numeric_check-keep_if, policy_check-keep_if, declaration_check-keep_if)

abbrev reported : Outcome → Bool
reported o = is_fail o || (is_unknown o || is_observation o)

-- An outcome that is reported has a code.
record HasCode (c : EligibilityCheck) : Type 0 where
  coded : reported c.outcome ≡ true → c.code ≢ none

HasCode-numeric :
    (k : Criterion) (o : Comparison) (missing failed : Code) (bound : Option Number)
    (fact : Option Amount)
    → HasCode (check_of k (numeric_check o missing failed bound fact))
unfolding numeric_check
HasCode-numeric k o missing failed bound fact = ground arith

HasCode-policy :
    (k : Criterion) (missing prohibited arrangement : Code) (policy : Option PetsPolicy)
    (fact : Option Bool)
    → HasCode (check_of k (policy_check missing prohibited arrangement policy fact))
unfolding policy_check
HasCode-policy k missing prohibited arrangement policy fact = ground arith

HasCode-declaration :
    (k : Criterion) (pending unverified : Code) (required : Bool) (fact : Option Bool)
    → HasCode (check_of k (declaration_check pending unverified required fact))
unfolding declaration_check
HasCode-declaration k pending unverified required fact = ground arith

HasCode-profile : (k : Criterion) (present : Bool) → HasCode (check_of k (profile_check present))
HasCode-profile k present = ground arith

All-HasCode-checks_of :
    (c : ListingEligibilityCriteria) (f : EvaluatedProfileFacts) → All HasCode (checks_of c f)
unfolding checks_of
All-HasCode-checks_of c f = (
  HasCode-profile _ _,
  (
    HasCode-numeric income lte household_income_not_available household_income_below_requirement
        c.minimum_household_net_income f.household_net_income,
    (
      HasCode-numeric household_size gte household_size_not_available
          household_size_exceeds_requirement c.suitable_for_people_count f.household_size,
      (
        HasCode-policy _ _ _ _ _ _,
        (
          HasCode-policy _ _ _ _ _ _,
          (HasCode-declaration _ _ _ _ _, (HasCode-declaration _ _ _ _ _, tt)),
        ),
      ),
    ),
  ),
)

-- No code is listed exactly when no check has an outcome that is kept.
codes_of-nil_iff :
    (keep : Outcome → Bool) (cs : List EligibilityCheck)
    → ((o : Outcome) → keep o ≡ true → reported o ≡ true)
    → All HasCode cs
    → (codes_of keep cs ≡ []) ↔ (any (λ c. keep c.outcome) cs ≡ false)
unfolding codes_of
codes_of-nil_iff keep [] sub h = ground arith
codes_of-nil_iff keep (c ∷ cs) sub (h, hs) =
    ground (arith, codes_of-nil_iff keep cs sub hs, sub c.outcome, h.coded)

any-or :
    (cs : List EligibilityCheck)
    → any (λ c. is_fail c.outcome || is_unknown c.outcome) cs
      ≡ (any (λ c. is_fail c.outcome) cs || any (λ c. is_unknown c.outcome) cs)
any-or [] = refl
any-or (c ∷ cs) = ground (arith, any-or cs)

fail_or_unknown_reported : (o : Outcome) → (is_fail o || is_unknown o) ≡ true → reported o ≡ true
fail_or_unknown_reported o h = ground arith

observation_reported : (o : Outcome) → is_observation o ≡ true → reported o ≡ true
observation_reported o h = ground arith

-- the ladder of `result`, over its three tests
abbrev ranked : Bool → Bool → Bool → Result
ranked failed unsure observed =
    if failed
    then no_match
    else if unsure
    then insufficient_information
    else if observed
    then match_with_observations
    else match

ranked_iff :
    (failed unsure observed : Bool) (reasons warnings : List Code)
    → (reasons ≡ []) ↔ ((failed || unsure) ≡ false)
    → (warnings ≡ []) ↔ (observed ≡ false)
    → ((is_match (ranked failed unsure observed) ≡ true) ↔ (reasons ≡ []))
      × ((ranked failed unsure observed ≡ match) ↔ ((reasons ≡ []) × (warnings ≡ [])))
      × ((ranked failed unsure observed ≡ match_with_observations)
          ↔ ((reasons ≡ []) × (warnings ≢ [])))
ranked_iff true unsure observed reasons warnings h k = ground arith
ranked_iff false true observed reasons warnings h k = ground arith
ranked_iff false false true reasons warnings h k = ground arith
ranked_iff false false false reasons warnings h k = ground arith

-- For every listing and profile: an applicant can apply exactly when no reason is listed, the result
-- is MATCH exactly when moreover no warning is listed, and MATCH_WITH_OBSERVATIONS exactly when no
-- reason and some warning is listed.
pub evaluate_profile_result :
    (c : ListingEligibilityCriteria) (p : Option ApplicantEligibilityFacts) (evaluated_at : ℕ)
    → let r = evaluate_profile c p evaluated_at in
      ((r.can_apply ≡ true) ↔ (r.reasons ≡ []))
      × ((r.result ≡ match) ↔ ((r.reasons ≡ []) × (r.warnings ≡ [])))
      × ((r.result ≡ match_with_observations) ↔ ((r.reasons ≡ []) × (r.warnings ≢ [])))
unfolding evaluate_profile result_of
evaluate_profile_result c p evaluated_at =
    let cs = checks_of c (normalized p) in
    let coded = All-HasCode-checks_of c (normalized p) in
    let reasons =
      codes_of-nil_iff (λ o. is_fail o || is_unknown o) cs fail_or_unknown_reported coded in
    let warnings = codes_of-nil_iff is_observation cs observation_reported coded in
    ranked_iff (any (λ c. is_fail c.outcome) cs) (any (λ c. is_unknown c.outcome) cs)
      (any (λ c. is_observation c.outcome) cs) _ _ (rw (any-or cs) at reasons) warnings

-- The facts that a response keeps give, evaluated as a whole, every check of the response.
pub checks_of-kept_facts :
    (c : ListingEligibilityCriteria) (p : Option ApplicantEligibilityFacts) (evaluated_at : ℕ)
    → checks_of c (evaluate_profile c p evaluated_at).facts
      ≡ (evaluate_profile c p evaluated_at).checks
unfolding evaluate_profile
checks_of-kept_facts c p evaluated_at = checks_of-used_facts c (normalized p)
