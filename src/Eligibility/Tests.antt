-- ===== src/Eligibility/Tests.antt =====
-- The evaluator at concrete listings and profiles, and a database that meets `Filtering`.
use renyqo_app.Eligibility.Doubles.{Amount, Number, amount, whole, at_least, at_most}
use renyqo_app.Eligibility.{
  PetsPolicy, ListingEligibilityCriteria, ApplicantEligibilityFacts, Comparison, lte, gte,
  not_allowed, by_arrangement, pets_not_allowed, smoking_by_arrangement, evaluate_profile,
  checks_of, match_with_observations, match,
}
use renyqo_app.Eligibility.Filter.{
  Where, everything, id_in_none, number_is_null, number_is, policy_is_null, policy_is_not, either,
  number_of, policy_of, is_not_prohibited, hard_profile_match_where, Filtering, selects,
}
use renyqo_app.Eligibility.Filter.Match.{selects-hard_profile_match_where}
use renyqo_app.Eligibility.Outcomes.{evaluate_profile_result, checks_of-kept_facts}
use renyqo_app.Prelude.{
  Bool, true, false, ◌≡◌, ◌≢◌, ◌↔◌, refl, ap, Option, none, some, [], ◌∷◌, ◌||◌, is_none,
}

abbrev compare_number : Comparison → Amount → Option Number → Bool
compare_number o a none = false
compare_number lte a (some v) = at_least a v
compare_number gte a (some v) = at_most a v

abbrev differs : Option PetsPolicy → Bool
differs none = false
differs (some p) = is_not_prohibited p

abbrev interpret : Where → ListingEligibilityCriteria → Bool
interpret everything c = true
interpret id_in_none c = false
interpret (number_is_null k) c = is_none (number_of k c)
interpret (number_is o k a) c = compare_number o a (number_of k c)
interpret (policy_is_null k) c = is_none (policy_of k c)
interpret (policy_is_not k p) c = differs (policy_of k c)
interpret (either a b) c = interpret a c || interpret b c

abbrev database : Filtering
database = record {
  matches = interpret;
  matches-everything = λ c. refl;
  matches-id_in_none = λ c. refl;
  matches-number_is_null = λ k c. refl;
  matches-number_is_of_null = λ o k a c e. ap (compare_number o a) e;
  matches-lte = λ k a c v e. ap (compare_number lte a) e;
  matches-gte = λ k a c v e _. ap (compare_number gte a) e;
  matches-policy_is_null = λ k c. refl;
  matches-policy_is_not = λ k c p e. ap differs e;
  matches-either = λ a b c. refl;
}

abbrev flat : ListingEligibilityCriteria
flat = record {
  minimum_household_net_income = some (amount (record { mantissa = 5001; exponent = 1 }));
  suitable_for_people_count = some (amount (whole 3));
  pets_policy = some not_allowed;
  smoking_policy = some by_arrangement;
  schufa_required = false;
  income_proof_required = false;
}

abbrev tenant : ApplicantEligibilityFacts
tenant = record {
  household_net_income = some (amount (whole 2501));
  adults_count = some (amount (whole 2));
  children_count = some (amount (whole 1));
  people_count = none;
  has_pets = some false;
  is_smoker = some true;
  schufa_available = none;
  income_proof_available = none;
}

-- 2501 is at least 2500.5, three people fit, and smoking is by arrangement.
tenant_observed :
    ((evaluate_profile flat (some tenant) 0).result ≡ match_with_observations)
    × ((evaluate_profile flat (some tenant) 0).warnings ≡ smoking_by_arrangement ∷ [])
unfolding evaluate_profile at_least at_most
tenant_observed = (refl, refl)

tenant_with_dog :
    (evaluate_profile flat (some (record tenant { has_pets = some true })) 0).reasons
    ≡ pets_not_allowed ∷ []
unfolding evaluate_profile at_least at_most
tenant_with_dog = refl

selects-hard_profile_match_where_example :
    selects database (hard_profile_match_where (some tenant)) flat
    ≡ (evaluate_profile flat (some tenant) 7).can_apply
selects-hard_profile_match_where_example =
    selects-hard_profile_match_where database flat (some tenant) 7 (λ e. cc)

evaluate_profile_result_example :
    let r = evaluate_profile flat (some tenant) 7 in
    ((r.can_apply ≡ true) ↔ (r.reasons ≡ []))
    × ((r.result ≡ match) ↔ ((r.reasons ≡ []) × (r.warnings ≡ [])))
    × ((r.result ≡ match_with_observations) ↔ ((r.reasons ≡ []) × (r.warnings ≢ [])))
evaluate_profile_result_example = evaluate_profile_result flat (some tenant) 7

checks_of-kept_facts_example :
    checks_of flat (evaluate_profile flat (some tenant) 7).facts
    ≡ (evaluate_profile flat (some tenant) 7).checks
checks_of-kept_facts_example = checks_of-kept_facts flat (some tenant) 7
