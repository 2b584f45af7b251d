-- ===== src/Eligibility.antt =====
-- src/eligibility/profile-eligibility-evaluator.ts: the rules that compare a listing's criteria with
-- an applicant's profile, and the result that the evaluator draws from them.
pub mod Doubles
pub mod Filter
pub mod Outcomes
mod Tests
use Doubles.{Amount, Number, at_least, at_most, number_fact, add, is_positive_integer}
use renyqo_app.Prelude.{
  ℕ, Bool, true, false, Option, none, some, List, [], ◌∷◌, ◌++◌, map, if◌then◌else◌, is_some, any,
  ◌||◌,
}

pub data PetsPolicy : Type 0 where
  allowed by_arrangement not_allowed : PetsPolicy

-- `smokingPolicy` has the same three values.
pub record ListingEligibilityCriteria : Type 0 where
  pub minimum_household_net_income : Option Number
  pub suitable_for_people_count : Option Number
  pub pets_policy : Option PetsPolicy
  pub smoking_policy : Option PetsPolicy
  pub schufa_required : Bool
  pub income_proof_required : Bool

pub record ApplicantEligibilityFacts : Type 0 where
  pub household_net_income : Option Number
  pub adults_count : Option Number
  pub children_count : Option Number
  pub people_count : Option Number
  pub has_pets : Option Bool
  pub is_smoker : Option Bool
  pub schufa_available : Option Bool
  pub income_proof_available : Option Bool

pub record EvaluatedProfileFacts : Type 0 where
  pub profile_present : Bool
  pub household_net_income : Option Amount
  pub household_size : Option Amount
  pub has_pets : Option Bool
  pub is_smoker : Option Bool
  pub schufa_available : Option Bool
  pub income_proof_available : Option Bool

pub data Outcome : Type 0 where
  pass fail unknown observation not_applicable : Outcome

pub data Criterion : Type 0 where
  profile income household_size pets smoking schufa_declaration income_proof_declaration : Criterion

pub data Code : Type 0 where
  profile_not_available household_income_not_available : Code
  household_income_below_requirement household_size_not_available : Code
  household_size_exceeds_requirement pets_not_allowed smoking_not_allowed : Code
  pets_information_not_available smoking_information_not_available pets_by_arrangement : Code
  smoking_by_arrangement schufa_declaration_pending schufa_declared_not_verified : Code
  income_proof_declaration_pending income_proof_declared_not_verified : Code

pub data Result : Type 0 where
  match no_match match_with_observations insufficient_information : Result

pub record Verdict : Type 0 where
  pub outcome : Outcome
  pub code : Option Code

pub record EligibilityCheck : Type 0 where
  pub criterion : Criterion
  pub outcome : Outcome
  pub code : Option Code

pub record EligibilityResponse : Type 0 where
  pub can_apply : Bool
  pub reasons : List Code
  pub warnings : List Code
  pub evaluated_at : ℕ
  pub result : Result
  pub checks : List EligibilityCheck
  pub facts : EvaluatedProfileFacts

-- `count !== null && Number.isInteger(count) && count > 0 ? count : null`
abbrev positive_count : Option Amount → Option Amount
positive_count none = none
positive_count (some n) = if is_positive_integer n then some n else none

abbrev household_count : Option Amount → Option Amount → Option Amount → Option Amount
household_count (some adults) (some children) people = some (add adults children)
household_count _ _ people = people

pub normalized : Option ApplicantEligibilityFacts → EvaluatedProfileFacts
unfolding number_fact add is_positive_integer
normalized none = record {
  profile_present = false;
  household_net_income = none;
  household_size = none;
  has_pets = none;
  is_smoker = none;
  schufa_available = none;
  income_proof_available = none;
}
normalized (some p) = record {
  profile_present = true;
  household_net_income = number_fact p.household_net_income;
  household_size = positive_count (
      household_count (number_fact p.adults_count) (number_fact p.children_count)
        (number_fact p.people_count));
  has_pets = p.has_pets;
  is_smoker = p.is_smoker;
  schufa_available = p.schufa_available;
  income_proof_available = p.income_proof_available;
}

abbrev passed : Verdict
passed = record { outcome = pass; code = none }

abbrev inactive : Verdict
inactive = record { outcome = not_applicable; code = none }

abbrev verdict : Outcome → Code → Verdict
verdict o c = record { outcome = o; code = some c }

pub data Comparison : Type 0 where
  lte gte : Comparison

abbrev compares : Comparison → Amount → Number → Bool
compares lte fact bound = at_least fact bound
compares gte fact bound = at_most fact bound

-- the `check` of `numericRule`, at the values of its two fields
pub numeric_check : Comparison → Code → Code → Option Number → Option Amount → Verdict
unfolding at_least at_most
numeric_check comparison missing failed none fact = inactive
numeric_check comparison missing failed (some bound) none = verdict unknown missing
numeric_check comparison missing failed (some bound) (some fact) =
    if compares comparison fact bound then passed else verdict fail failed

-- the `check` of `policyRule`
pub policy_check : Code → Code → Code → Option PetsPolicy → Option Bool → Verdict
policy_check missing prohibited arrangement none fact = inactive
policy_check missing prohibited arrangement (some allowed) fact = inactive
policy_check missing prohibited arrangement (some not_allowed) none = verdict unknown missing
policy_check missing prohibited arrangement (some not_allowed) (some true) = verdict fail prohibited
policy_check missing prohibited arrangement (some not_allowed) (some false) = passed
policy_check missing prohibited arrangement (some by_arrangement) (some false) = passed
policy_check missing prohibited arrangement (some by_arrangement) none = verdict observation missing
policy_check missing prohibited arrangement (some by_arrangement) (some true) =
    verdict observation arrangement

-- the `check` of `declarationRule`
pub declaration_check : Code → Code → Bool → Option Bool → Verdict
declaration_check pending unverified false fact = inactive
declaration_check pending unverified true (some true) = verdict observation unverified
declaration_check pending unverified true _ = verdict observation pending

abbrev profile_check : Bool → Verdict
profile_check true = passed
profile_check false = verdict unknown profile_not_available

abbrev check_of : Criterion → Verdict → EligibilityCheck
check_of c v = record { criterion = c; outcome = v.outcome; code = v.code }

-- `rules.map(...)`: every rule's check, in the order of `rules`
pub checks_of : ListingEligibilityCriteria → EvaluatedProfileFacts → List EligibilityCheck
unfolding numeric_check policy_check declaration_check
checks_of c f =
    check_of profile (profile_check f.profile_present)
    ∷ check_of income (
        numeric_check lte household_income_not_available household_income_below_requirement
          c.minimum_household_net_income f.household_net_income)
    ∷ check_of household_size (
        numeric_check gte household_size_not_available household_size_exceeds_requirement
          c.suitable_for_people_count f.household_size)
    ∷ check_of pets (
        policy_check pets_information_not_available pets_not_allowed pets_by_arrangement
          c.pets_policy f.has_pets)
    ∷ check_of smoking (
        policy_check smoking_information_not_available smoking_not_allowed smoking_by_arrangement
          c.smoking_policy f.is_smoker)
    ∷ check_of schufa_declaration (
        declaration_check schufa_declaration_pending schufa_declared_not_verified c.schufa_required
          f.schufa_available)
    ∷ check_of income_proof_declaration (
        declaration_check income_proof_declaration_pending income_proof_declared_not_verified
          c.income_proof_required f.income_proof_available)
    ∷ []

abbrev pub is_fail : Outcome → Bool
is_fail fail = true
is_fail _ = false

abbrev pub is_unknown : Outcome → Bool
is_unknown unknown = true
is_unknown _ = false

abbrev pub is_observation : Outcome → Bool
is_observation observation = true
is_observation _ = false

-- `checks.filter(c => keep(c.outcome)).flatMap(c => c.code ? [c.code] : [])`
pub codes_of : (Outcome → Bool) → List EligibilityCheck → List Code
codes_of keep [] = []
codes_of keep (c ∷ cs) =
    let rest = codes_of keep cs in
    if keep c.outcome then elim c.code [ none ↦ rest | some code ↦ code ∷ rest ] else rest

pub result_of : List EligibilityCheck → Result
result_of checks =
    if any (λ c. is_fail c.outcome) checks
    then no_match
    else if any (λ c. is_unknown c.outcome) checks
    then insufficient_information
    else if any (λ c. is_observation c.outcome) checks
    then match_with_observations
    else match

abbrev pub is_match : Result → Bool
is_match match = true
is_match match_with_observations = true
is_match _ = false

-- the policies under which a fact is used
abbrev pub is_restricted : Option PetsPolicy → Bool
is_restricted (some not_allowed) = true
is_restricted (some by_arrangement) = true
is_restricted _ = false

abbrev keep_if {ℓ} : {A : Type ℓ} → Bool → Option A → Option A
keep_if true fact = fact
keep_if false fact = none

-- `used`: only the facts that a configured rule reads
pub used_facts : ListingEligibilityCriteria → EvaluatedProfileFacts → EvaluatedProfileFacts
used_facts c f = record f {
  household_net_income = keep_if (is_some c.minimum_household_net_income) f.household_net_income;
  household_size = keep_if (is_some c.suitable_for_people_count) f.household_size;
  has_pets = keep_if (is_restricted c.pets_policy) f.has_pets;
  is_smoker = keep_if (is_restricted c.smoking_policy) f.is_smoker;
  schufa_available = keep_if c.schufa_required f.schufa_available;
  income_proof_available = keep_if c.income_proof_required f.income_proof_available;
}

unfoldable pub evaluate_profile :
    ListingEligibilityCriteria → Option ApplicantEligibilityFacts → ℕ → EligibilityResponse
unfolding normalized checks_of codes_of result_of used_facts
evaluate_profile c p evaluated_at =
    let f = normalized p in
    let checks = checks_of c f in
    let result = result_of checks in
    record {
      can_apply = is_match result;
      reasons = codes_of (λ o. is_fail o || is_unknown o) checks;
      warnings = codes_of is_observation checks;
      evaluated_at = evaluated_at;
      result = result;
      checks = checks;
      facts = used_facts c f;
    }
