-- ===== src/Support/Tests.antt =====
-- The retry and the rate limiter at concrete runs.
use renyqo_app.Prelude.{
  ℕ, zero, suc, ◌-◌, ◌<◌, ◌≡◌, refl, true, false, none, some, [], ◌∷◌, arith, ltb, if◌then◌else◌,
}
use renyqo_app.Support.Retry.{
  Thrown, object, no_record, p2034, other_code, Attempt, committed, threw, gave_up,
  run_serializable_transaction, is_refused, ending_of, WaitsFor, is_serialization_conflict,
  run_serializable_transaction_lem, run_serializable_transaction-gives_up,
}
use renyqo_app.Support.Throttle.{
  Bucket, Buckets, increment, cleanup, calls, AreCounted, calls-AreCounted, increment-cleanup,
  calls-AreBlocked, AreBlocked,
}

abbrev conflict : Thrown
conflict = object true p2034 false other_code no_record no_record no_record

-- Two conflicts, then a commit.
abbrev third_time : ℕ → Attempt ℕ
third_time n = if ltb n 2 then threw conflict else committed 7

refused_twice : (j : ℕ) → j < 2 → is_refused (third_time j) ≡ true
unfolding is_serialization_conflict
refused_twice zero h = refl
refused_twice (suc zero) h = refl
refused_twice (suc (suc j)) h = ground arith

run_serializable_transaction_lem_example :
    ((run_serializable_transaction third_time none).0 ≡ ending_of (third_time 2))
    × WaitsFor 2 (run_serializable_transaction third_time none).1
run_serializable_transaction_lem_example =
    run_serializable_transaction_lem third_time none 2 (omega arith) refused_twice refl

abbrev never : ℕ → Attempt ℕ
never n = threw conflict

always_refused : (j : ℕ) → j < 3 → is_refused (never j) ≡ true
unfolding is_serialization_conflict
always_refused j h = refl

run_serializable_transaction-gives_up_example :
    ((run_serializable_transaction never (some 3)).0 ≡ gave_up)
    × WaitsFor (3 - 1) (run_serializable_transaction never (some 3)).1
run_serializable_transaction-gives_up_example =
    run_serializable_transaction-gives_up never (some 3) always_refused

abbrev empty : Buckets
empty k = none

calls-AreCounted_example : AreCounted 3 0 (calls 1 60000 3 60000 (1000 ∷ 2000 ∷ 3000 ∷ []) empty)
calls-AreCounted_example =
    calls-AreCounted 1 60000 3 60000 1000 (2000 ∷ 3000 ∷ []) empty refl (omega arith) (ground arith)
      (omega arith)

abbrev used : Bucket
used = record { total_hits = 3; expires_at = 61000; blocked_until = 0 }

abbrev one_used : Buckets
one_used k = some used

increment-cleanup_example :
    increment 1 60000 3 60000 70000 (cleanup 1 one_used) ≡ increment 1 60000 3 60000 70000 one_used
increment-cleanup_example = increment-cleanup 1 60000 3 60000 70000 one_used used refl (omega arith)

calls-AreBlocked_example : AreBlocked 4 (calls 1 60000 3 60000 (2000 ∷ 50000 ∷ 61999 ∷ []) one_used)
calls-AreBlocked_example =
    calls-AreBlocked 1 60000 3 60000 2000 61000 (50000 ∷ 61999 ∷ []) one_used refl (omega arith)
      (omega arith) (omega arith, (omega arith, tt))
