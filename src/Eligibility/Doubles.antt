-- ===== src/Eligibility/Doubles.antt =====
-- The numbers that the eligibility evaluator compares: IEEE doubles, as exact dyadic values.
use renyqo_app.Prelude.{
  ℕ, ◌+◌, ◌*◌, ◌%◌, ◌^◌, Bool, true, false, Option, none, some, leb, ltb, ◌==◌, ◌&&◌,
}

-- mantissa / 2 ^ exponent
pub record Amount : Type 0 where
  pub mantissa : ℕ
  pub exponent : ℕ

-- `below_zero a` is a value less than 0: -(mantissa + 1) / 2 ^ exponent. -0 is `amount` of 0.
pub data Number : Type 0 where
  amount : Amount → Number
  below_zero : Amount → Number
  infinity neg_infinity nan : Number

abbrev amount_le : Amount → Amount → Bool
amount_le a b = leb (a.mantissa * 2 ^ b.exponent) (b.mantissa * 2 ^ a.exponent)

-- `fact >= bound`, and false where `bound` is NaN
unfoldable pub at_least : Amount → Number → Bool
at_least fact (amount a) = amount_le a fact
at_least fact (below_zero a) = true
at_least fact infinity = false
at_least fact neg_infinity = true
at_least fact nan = false

-- `fact <= bound`, and false where `bound` is NaN
unfoldable pub at_most : Amount → Number → Bool
at_most fact (amount a) = amount_le fact a
at_most fact (below_zero a) = false
at_most fact infinity = true
at_most fact neg_infinity = false
at_most fact nan = false

-- `numberFact`: a finite number that is not negative, or null
unfoldable pub number_fact : Option Number → Option Amount
number_fact (some (amount a)) = some a
number_fact _ = none

-- the sum of two counts, exact for the integers that the profile's columns hold
unfoldable pub add : Amount → Amount → Amount
add a b = record {
  mantissa = a.mantissa * 2 ^ b.exponent + b.mantissa * 2 ^ a.exponent;
  exponent = a.exponent + b.exponent;
}

-- `Number.isInteger(count) && count > 0`
unfoldable pub is_positive_integer : Amount → Bool
is_positive_integer a = (a.mantissa % 2 ^ a.exponent) == 0 && ltb 0 a.mantissa

abbrev pub whole : ℕ → Amount
whole n = record { mantissa = n; exponent = 0 }
