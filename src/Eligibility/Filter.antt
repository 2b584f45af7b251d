-- ===== src/Eligibility/Filter.antt =====
-- The `where` half of the rules of src/eligibility/profile-eligibility-evaluator.ts: a profile's
-- translation into a filter on listings, which the database evaluates.
pub mod Match
use renyqo_app.Eligibility.Doubles.{Amount, Number, nan, at_least, at_most}
use renyqo_app.Eligibility.{
  PetsPolicy, not_allowed, ListingEligibilityCriteria, ApplicantEligibilityFacts,
  EvaluatedProfileFacts, Comparison, lte, gte, normalized,
}
use renyqo_app.Prelude.{
  Bool, true, false, ◌≡◌, ◌≢◌, Option, none, some, List, [], ◌∷◌, ◌||◌, is_none, all,
}

pub data NumberColumn : Type 0 where
  minimum_household_net_income suitable_for_people_count : NumberColumn

pub data PolicyColumn : Type 0 where
  pets_policy smoking_policy : PolicyColumn

-- The members of `Prisma.ListingWhereInput` that the rules build.
pub data Where : Type 0 where
  everything : Where  -- {}
  id_in_none : Where  -- { id: { in: [] } }
  number_is_null : NumberColumn → Where
  number_is : Comparison → NumberColumn → Amount → Where
  policy_is_null : PolicyColumn → Where
  policy_is_not : PolicyColumn → PetsPolicy → Where
  either : Where → Where → Where  -- { OR: [a, b] }

abbrev pub number_of : NumberColumn → ListingEligibilityCriteria → Option Number
number_of minimum_household_net_income c = c.minimum_household_net_income
number_of suitable_for_people_count c = c.suitable_for_people_count

abbrev pub policy_of : PolicyColumn → ListingEligibilityCriteria → Option PetsPolicy
policy_of pets_policy c = c.pets_policy
policy_of smoking_policy c = c.smoking_policy

numeric_where : Comparison → NumberColumn → Option Amount → Where
numeric_where comparison column none = number_is_null column
numeric_where comparison column (some fact) =
    either (number_is_null column) (number_is comparison column fact)

policy_where : PolicyColumn → Option Bool → Where
policy_where column (some false) = everything
policy_where column _ = either (policy_is_null column) (policy_is_not column not_allowed)

abbrev profile_where : Bool → Where
profile_where true = everything
profile_where false = id_in_none

wheres_of : EvaluatedProfileFacts → List Where
unfolding numeric_where policy_where
wheres_of f =
    profile_where f.profile_present
    ∷ numeric_where lte minimum_household_net_income f.household_net_income
    ∷ numeric_where gte suitable_for_people_count f.household_size
    ∷ policy_where pets_policy f.has_pets
    ∷ policy_where smoking_policy f.is_smoker
    ∷ everything
    ∷ everything
    ∷ []

-- the members of `{ AND: [...] }`
unfoldable pub hard_profile_match_where : Option ApplicantEligibilityFacts → List Where
unfolding normalized wheres_of
hard_profile_match_where p = wheres_of (normalized p)

abbrev pub is_not_prohibited : PetsPolicy → Bool
is_not_prohibited not_allowed = false
is_not_prohibited _ = true

-- How the database reads a filter on a listing's row: what Prisma documents for null, `not`, `lte`,
-- `gte`, OR and the empty `in`, where a comparison with a null column selects nothing.
pub record Filtering : Type 0 where
  pub matches : Where → ListingEligibilityCriteria → Bool
  pub matches-everything : (c : ListingEligibilityCriteria) → matches everything c ≡ true
  pub matches-id_in_none : (c : ListingEligibilityCriteria) → matches id_in_none c ≡ false
  pub matches-number_is_null :
      (k : NumberColumn) (c : ListingEligibilityCriteria)
      → matches (number_is_null k) c ≡ is_none (number_of k c)
  pub matches-number_is_of_null :
      (o : Comparison) (k : NumberColumn) (a : Amount) (c : ListingEligibilityCriteria)
      → number_of k c ≡ none
      → matches (number_is o k a) c ≡ false
  pub matches-lte :
      (k : NumberColumn) (a : Amount) (c : ListingEligibilityCriteria) (v : Number)
      → number_of k c ≡ some v
      → matches (number_is lte k a) c ≡ at_least a v
  pub matches-gte :
      (k : NumberColumn) (a : Amount) (c : ListingEligibilityCriteria) (v : Number)
      → number_of k c ≡ some v
      → v ≢ nan
      → matches (number_is gte k a) c ≡ at_most a v
  pub matches-policy_is_null :
      (k : PolicyColumn) (c : ListingEligibilityCriteria)
      → matches (policy_is_null k) c ≡ is_none (policy_of k c)
  pub matches-policy_is_not :
      (k : PolicyColumn) (c : ListingEligibilityCriteria) (p : PetsPolicy)
      → policy_of k c ≡ some p
      → matches (policy_is_not k not_allowed) c ≡ is_not_prohibited p
  pub matches-either :
      (a b : Where) (c : ListingEligibilityCriteria)
      → matches (either a b) c ≡ (matches a c || matches b c)

module _ (db : Filtering) where
  -- `findMany({ where: { AND: ws } })` selects the row
  abbrev pub selects : List Where → ListingEligibilityCriteria → Bool
  selects ws c = all (λ w. db.matches w c) ws
