-- ===== src/Support/Retry.antt =====
-- src/prisma/run-serializable-transaction.ts: a transaction that the database refuses for a conflict
-- is tried again, a bounded number of times.
use renyqo_app.Prelude.{
  ℕ, zero, subst, suc, ◌+◌, ◌-◌, ◌*◌, ◌^◌, ◌≤◌, ◌<◌, ◌≡◌, refl, sym, ap, Bool, true, false, not,
  Option, none, some, List, [], ◌∷◌, ◌&&◌, ◌||◌, ◌==◌, min, arith, if◌then◌else◌, length, All,
}

-- The strings that the tests of an error compare with; any other is `other_code`.
pub data Code : Type 0 where
  p2034 p2010 sql_40001 other_code : Code

-- A value that is thrown. What is no object, or is absent, is `no_record`; of an object the
-- properties are kept that the tests read.
pub data Thrown : Type 0 where
  no_record : Thrown
  object :
      (is_known_request_error : Bool) (code : Code) (is_write_conflict : Bool)
      (original_code : Code) (cause meta driver_adapter_error : Thrown)
      → Thrown

abbrev is_p2034 : Code → Bool
is_p2034 p2034 = true
is_p2034 _ = false

abbrev is_p2010 : Code → Bool
is_p2010 p2010 = true
is_p2010 _ = false

abbrev is_40001 : Code → Bool
is_40001 sql_40001 = true
is_40001 _ = false

-- `hasSerializationCode`; for what is no record the recursive call gives false too
pub has_serialization_code : Thrown → Bool
has_serialization_code no_record = false
has_serialization_code (object known code write_conflict original cause meta driver) =
    is_p2034 code || ((write_conflict && is_40001 original) || has_serialization_code cause)

abbrev original_code_of : Thrown → Code
original_code_of no_record = other_code
original_code_of (object known code write_conflict original cause meta driver) = original

abbrev cause_of : Thrown → Thrown
cause_of no_record = no_record
cause_of (object known code write_conflict original cause meta driver) = cause

abbrev driver_adapter_error_of : Thrown → Thrown
driver_adapter_error_of no_record = no_record
driver_adapter_error_of (object known code write_conflict original cause meta driver) = driver

-- `isPrismaRawQuerySerializationConflict`; a step along what is no record ends at `other_code`
pub is_raw_query_conflict : Thrown → Bool
is_raw_query_conflict no_record = false
is_raw_query_conflict (object known code write_conflict original cause meta driver) =
    is_p2010 code && is_40001 (original_code_of (cause_of (driver_adapter_error_of meta)))

abbrev is_known_p2034 : Thrown → Bool
is_known_p2034 no_record = false
is_known_p2034 (object known code write_conflict original cause meta driver) =
    known && is_p2034 code

-- `isSerializationConflict`
unfoldable pub is_serialization_conflict : Thrown → Bool
unfolding has_serialization_code is_raw_query_conflict
is_serialization_conflict error =
    if is_known_p2034 error
    then true
    else has_serialization_code error || is_raw_query_conflict error

-- how one call of `prisma.$transaction` ends
pub data Attempt (A : Type 0) : Type 0 where
  committed : A → Attempt A
  threw : Thrown → Attempt A

-- how the whole ends, `gave_up` with the fallback message
pub data Ending (A : Type 0) : Type 0 where
  returned : A → Ending A
  rethrown : Thrown → Ending A
  gave_up : Ending A

-- `Math.min(250, 10 * 2 ** attempt)`
pub delay_ms : ℕ → ℕ
delay_ms attempt = min 250 (10 * 2 ^ attempt)

-- `options.maxRetries ?? DEFAULT_RETRIES`
abbrev pub retries : Option ℕ → ℕ
retries none = 8
retries (some n) = n

-- How many waits there were, and that each was of 10 to 250 ms.
pub record WaitsFor (k : ℕ) (delays : List ℕ) : Type 0 where
  pub number : length delays ≡ k
  pub bounded : All (λ d. (10 ≤ d) × (d ≤ 250)) delays

pow_positive : (n : ℕ) → 1 ≤ 2 ^ n
pow_positive zero = omega arith
pow_positive (suc n) = omega (arith, pow_positive n)

delay_bounds : (n : ℕ) → (10 ≤ delay_ms n) × (delay_ms n ≤ 250)
unfolding delay_ms
delay_bounds n = ground (arith, pow_positive n)

module _ {A : Type 0} where
  -- What the loop does with the end of an attempt, where `left` more may follow; `rest` is what they
  -- come to, with the delays that they wait.
  pub after_attempt : ℕ → ℕ → Ending A × List ℕ → Attempt A → Ending A × List ℕ
  unfolding is_serialization_conflict delay_ms
  after_attempt left attempt rest (committed a) = (returned a, [])
  after_attempt left attempt rest (threw error) =
      if not (is_serialization_conflict error)
      then (rethrown error, [])
      else if left == 0
      then (gave_up, [])
      else (rest.0, delay_ms attempt ∷ rest.1)

  -- The loop from an attempt on, with the number of attempts that are left.
  pub retry : (ℕ → Attempt A) → ℕ → ℕ → Ending A × List ℕ
  unfolding after_attempt
  retry operation zero attempt = (gave_up, [])
  retry operation (suc left) attempt =
      after_attempt left attempt (retry operation left (suc attempt)) (operation attempt)

  -- `runSerializableTransaction`, where `operation n` is how the attempt `n` ends
  pub run_serializable_transaction : (ℕ → Attempt A) → Option ℕ → Ending A × List ℕ
  run_serializable_transaction operation max_retries = retry operation (retries max_retries) 0

  -- The attempt was refused for a conflict.
  abbrev pub is_refused : Attempt A → Bool
  is_refused (committed a) = false
  is_refused (threw error) = is_serialization_conflict error

  abbrev pub ending_of : Attempt A → Ending A
  ending_of (committed a) = returned a
  ending_of (threw error) = rethrown error

  after_settled :
      (left attempt : ℕ) (rest : Ending A × List ℕ) (x : Attempt A)
      → is_refused x ≡ false
      → after_attempt left attempt rest x ≡ (ending_of x, [])
  unfolding after_attempt
  after_settled left attempt rest (committed a) h = refl
  after_settled left attempt rest (threw error) h = rw h refl

  last_refused :
      (attempt : ℕ) (rest : Ending A × List ℕ) (x : Attempt A)
      → is_refused x ≡ true
      → after_attempt 0 attempt rest x ≡ (gave_up, [])
  unfolding after_attempt
  last_refused attempt rest (committed a) h = cc
  last_refused attempt rest (threw error) h = rw h refl

  after_refused :
      (left attempt : ℕ) (rest : Ending A × List ℕ) (x : Attempt A)
      → is_refused x ≡ true
      → 0 < left
      → after_attempt left attempt rest x ≡ (rest.0, delay_ms attempt ∷ rest.1)
  unfolding after_attempt
  after_refused left attempt rest (committed a) h p = cc
  after_refused left attempt rest (threw error) h p =
      let more : (left == 0) ≡ false = ground arith in rw (h, more) refl

  retry-settles :
      (operation : ℕ → Attempt A) (k left attempt : ℕ)
      → k < left
      → ((j : ℕ) → j < k → is_refused (operation (attempt + j)) ≡ true)
      → is_refused (operation (attempt + k)) ≡ false
      → ((retry operation left attempt).0 ≡ ending_of (operation (attempt + k)))
        × WaitsFor k (retry operation left attempt).1
  unfolding retry
  retry-settles operation k zero attempt h refused settled = elim h [ ]
  retry-settles operation zero (suc left) attempt h refused settled =
      let here : attempt + 0 ≡ attempt = omega arith in
      rw
        (
          here,
          after_settled left attempt (retry operation left (suc attempt)) (operation attempt)
              (rw here at settled),
        )
        (refl, record { number = refl; bounded = tt })
  retry-settles operation (suc k) (suc left) attempt h refused settled =
      let here : attempt + 0 ≡ attempt = omega arith in
      let next : (j : ℕ) → attempt + suc j ≡ suc attempt + j = λ j. omega arith in
      let (ends, waits) =
        retry-settles operation k left (suc attempt) (omega (arith, h))
          (λ j before.
            subst (λ n. is_refused (operation n) ≡ true) (next j)
              (refused (suc j) (omega (arith, before))))
          (subst (λ n. is_refused (operation n) ≡ false) (next k) settled) in
      rw
        (
          next k,
          after_refused left attempt (retry operation left (suc attempt)) (operation attempt)
              (subst (λ n. is_refused (operation n) ≡ true) here (refused 0 (omega arith)))
              (omega (arith, h)),
        )
        (
          ends,
          record { number = ap suc waits.number; bounded = (delay_bounds attempt, waits.bounded) },
        )

  retry-gives_up :
      (operation : ℕ → Attempt A) (left attempt : ℕ)
      → ((j : ℕ) → j < left → is_refused (operation (attempt + j)) ≡ true)
      → ((retry operation left attempt).0 ≡ gave_up)
        × WaitsFor (left - 1) (retry operation left attempt).1
  unfolding retry
  retry-gives_up operation zero attempt refused = (refl, record { number = refl; bounded = tt })
  retry-gives_up operation (suc zero) attempt refused =
      let here : attempt + 0 ≡ attempt = omega arith in
      rw
        (last_refused attempt (retry operation zero (suc attempt)) (operation attempt)
          (subst (λ n. is_refused (operation n) ≡ true) here (refused 0 (omega arith))))
        (refl, record { number = refl; bounded = tt })
  retry-gives_up operation (suc (suc left)) attempt refused =
      let here : attempt + 0 ≡ attempt = omega arith in
      let next : (j : ℕ) → attempt + suc j ≡ suc attempt + j = λ j. omega arith in
      let (ends, waits) = retry-gives_up operation (suc left) (suc attempt) (λ j before.
        subst (λ n. is_refused (operation n) ≡ true) (next j)
          (refused (suc j) (omega (arith, before)))) in
      rw
        (after_refused (suc left) attempt (retry operation (suc left) (suc attempt))
          (operation attempt)
          (subst (λ n. is_refused (operation n) ≡ true) here (refused 0 (omega arith)))
          (omega arith))
        (
          ends,
          record {
            number = omega (arith, waits.number);
            bounded = (delay_bounds attempt, waits.bounded);
          },
        )

  -- Where the attempts before `k` are all refused for a conflict and attempt `k`, one of the allowed
  -- number, is not, its result or its error is that of the whole, after `k` waits of 10 to 250 ms.
  pub run_serializable_transaction_lem :
      (operation : ℕ → Attempt A) (max_retries : Option ℕ) (k : ℕ)
      → k < retries max_retries
      → ((j : ℕ) → j < k → is_refused (operation j) ≡ true)
      → is_refused (operation k) ≡ false
      → ((run_serializable_transaction operation max_retries).0 ≡ ending_of (operation k))
        × WaitsFor k (run_serializable_transaction operation max_retries).1
  unfolding run_serializable_transaction
  run_serializable_transaction_lem operation max_retries k h refused settled =
      let from : (j : ℕ) → j ≡ 0 + j = λ j. omega arith in
      let all = retries max_retries in
      subst
        (λ n.
          ((retry operation all 0).0 ≡ ending_of (operation n))
          × WaitsFor k (retry operation all 0).1)
        (sym (from k))
        (retry-settles operation k all 0 h
          (λ j before. subst (λ n. is_refused (operation n) ≡ true) (from j) (refused j before))
          (subst (λ n. is_refused (operation n) ≡ false) (from k) settled))

  -- Where every allowed attempt is refused for a conflict, the whole ends with the fallback error,
  -- after one wait of 10 to 250 ms between any two attempts.
  pub run_serializable_transaction-gives_up :
      (operation : ℕ → Attempt A) (max_retries : Option ℕ)
      → ((j : ℕ) → j < retries max_retries → is_refused (operation j) ≡ true)
      → ((run_serializable_transaction operation max_retries).0 ≡ gave_up)
        × WaitsFor (retries max_retries - 1) (run_serializable_transaction operation max_retries).1
  unfolding run_serializable_transaction
  run_serializable_transaction-gives_up operation max_retries refused =
      let from : (j : ℕ) → j ≡ 0 + j = λ j. omega arith in
      retry-gives_up operation (retries max_retries) 0
        (λ j before. subst (λ n. is_refused (operation n) ≡ true) (from j) (refused j before))
