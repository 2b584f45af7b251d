-- ===== src/Support/Throttle.antt =====
-- src/applications/application-action-throttler.storage.ts: the buckets of the rate limiter.
use renyqo_app.Prelude.{
  ℕ, suc, ◌+◌, ◌-◌, ◌/◌, ◌≤◌, ◌<◌, ◌≡◌, refl, sym, ap, ◌∙◌, Bool, true, false, Option, none, some,
  List, [], ◌∷◌, ◌&&◌, ◌==◌, ltb, leb, max, arith, if◌then◌else◌, length, All, fun_ext,
}

-- `ApplicationActionBucket`, without the timer
pub record Bucket : Type 0 where
  pub total_hits : ℕ
  pub expires_at : ℕ
  pub blocked_until : ℕ

pub record RateLimitResult : Type 0 where
  pub total_hits : ℕ
  pub time_to_expire : ℕ
  pub is_blocked : Bool
  pub time_to_block_expire : ℕ

-- `Map<string, ApplicationActionBucket>`
abbrev pub Buckets : Type 0
Buckets = ℕ → Option Bucket

abbrev pub set_bucket : ℕ → Option Bucket → Buckets → Buckets
set_bucket key b buckets k = if k == key then b else buckets k

abbrev fresh : ℕ → ℕ → Bucket
fresh ttl now = record { total_hits = 0; expires_at = now + ttl; blocked_until = 0 }

-- the bucket that the call goes on with
pub current_bucket : ℕ → ℕ → Option Bucket → Bucket
current_bucket ttl now none = fresh ttl now
current_bucket ttl now (some b) =
    if leb b.expires_at now && leb b.blocked_until now then fresh ttl now else b

-- a window that is over begins again
pub renewed : ℕ → ℕ → Bucket → Bucket
renewed ttl now b =
    if leb b.expires_at now then record b { total_hits = 0; expires_at = now + ttl } else b

-- one more hit, and the block where it passes the limit
pub counted : ℕ → ℕ → ℕ → Bucket → Bucket
counted limit block_duration now b =
    let more : Bucket = record b { total_hits = b.total_hits + 1 } in
    if ltb limit (b.total_hits + 1)
    then record more { blocked_until = now + block_duration }
    else more

-- the hit, where the bucket is not blocked
pub hit : ℕ → ℕ → ℕ → ℕ → Bucket → Bucket
unfolding renewed counted
hit ttl limit block_duration now b =
    if leb b.blocked_until now then counted limit block_duration now (renewed ttl now b) else b

-- `Math.max(0, Math.ceil((until - now) / 1000))`
abbrev seconds_to : ℕ → ℕ → ℕ
seconds_to until now = (until - now + 999) / 1000

-- what the call answers
pub answer : ℕ → Bucket → RateLimitResult
answer now b = record {
  total_hits = b.total_hits;
  time_to_expire = seconds_to b.expires_at now;
  is_blocked = ltb now b.blocked_until;
  time_to_block_expire = seconds_to b.blocked_until now;
}

-- `increment`, without the timer that it sets
pub increment : ℕ → ℕ → ℕ → ℕ → ℕ → Buckets → RateLimitResult × Buckets
unfolding current_bucket hit answer
increment key ttl limit block_duration now buckets =
    let b = hit ttl limit block_duration now (current_bucket ttl now (buckets key)) in
    (answer now b, set_bucket key (some b) buckets)

-- the time after which the timer of `scheduleCleanup` fires
abbrev pub cleanup_at : Bucket → ℕ
cleanup_at b = max b.expires_at b.blocked_until

-- the timer of a key
abbrev pub cleanup : ℕ → Buckets → Buckets
cleanup key buckets = set_bucket key none buckets

set_bucket-set_bucket :
    (key : ℕ) (a b : Option Bucket) (buckets : Buckets)
    → set_bucket key a (set_bucket key b buckets) ≡ set_bucket key a buckets
set_bucket-set_bucket key a b buckets = fun_ext λ k. ground arith

set_bucket-same :
    (key : ℕ) (a : Option Bucket) (buckets : Buckets) → set_bucket key a buckets key ≡ a
set_bucket-same key a buckets = ground arith

current_bucket-expired :
    (ttl now : ℕ) (b : Bucket)
    → cleanup_at b < now
    → current_bucket ttl now (some b) ≡ current_bucket ttl now none
unfolding current_bucket
current_bucket-expired ttl now b h =
    let one : leb b.expires_at now ≡ true = ground arith in
    let two : leb b.blocked_until now ≡ true = ground arith in rw (one, two) refl

-- The timer frees memory and nothing else: at any time after the one it waits for, a call for the key
-- answers the same and leaves the same buckets whether it has fired or not.
pub increment-cleanup :
    (key ttl limit block_duration now : ℕ) (buckets : Buckets) (b : Bucket)
    → buckets key ≡ some b
    → cleanup_at b < now
    → increment key ttl limit block_duration now (cleanup key buckets)
      ≡ increment key ttl limit block_duration now buckets
unfolding increment
increment-cleanup key ttl limit block_duration now buckets b found after =
    let same : current_bucket ttl now (cleanup key buckets key)
        ≡ current_bucket ttl now (buckets key) =
      ap (current_bucket ttl now) (set_bucket-same key none buckets)
      ∙ sym (current_bucket-expired ttl now b after)
      ∙ ap (current_bucket ttl now) (sym found) in
    ap
      (λ c. (
        answer now (hit ttl limit block_duration now c),
        set_bucket key (some (hit ttl limit block_duration now c)) (cleanup key buckets),
      ))
      same
    ∙ ap
        (λ m.
          (answer now (hit ttl limit block_duration now (current_bucket ttl now (buckets key))), m))
        (set_bucket-set_bucket key _ none buckets)

-- A row of calls for one key, at their times: the answers.
pub calls : ℕ → ℕ → ℕ → ℕ → List ℕ → Buckets → List RateLimitResult
unfolding increment
calls key ttl limit block_duration [] buckets = []
calls key ttl limit block_duration (now ∷ times) buckets =
    let (result, buckets') = increment key ttl limit block_duration now buckets in
    result ∷ calls key ttl limit block_duration times buckets'

-- The answers of a window: the hits count up, and only those past the limit are blocked.
abbrev pub AreCounted : ℕ → ℕ → List RateLimitResult → Type 0
AreCounted limit n [] = Unit
AreCounted limit n (r ∷ rs) =
    (r.total_hits ≡ suc n) × (r.is_blocked ≡ false) × AreCounted limit (suc n) rs

abbrev counting : ℕ → ℕ → Bucket
counting n end = record { total_hits = n; expires_at = end; blocked_until = 0 }

counted-counting :
    (limit block_duration now n end : ℕ)
    → suc n ≤ limit
    → counted limit block_duration now (counting n end) ≡ counting (suc n) end
unfolding counted
counted-counting limit block_duration now n end k =
    let allowed : ltb limit (n + 1) ≡ false = ground arith in
    let count : n + 1 ≡ suc n = omega arith in rw (allowed, count) refl

hit-counting :
    (ttl limit block_duration now n end : ℕ)
    → now < end
    → suc n ≤ limit
    → hit ttl limit block_duration now (current_bucket ttl now (some (counting n end)))
      ≡ counting (suc n) end
unfolding hit current_bucket renewed
hit-counting ttl limit block_duration now n end h k =
    let open_window : leb end now ≡ false = ground arith in
    let free : leb 0 now ≡ true = ground arith in
    rw (open_window, free) (rw open_window (counted-counting limit block_duration now n end k))

hit-fresh :
    (ttl limit block_duration now : ℕ)
    → 0 < ttl
    → 1 ≤ limit
    → hit ttl limit block_duration now (current_bucket ttl now none) ≡ counting 1 (now + ttl)
unfolding hit current_bucket renewed
hit-fresh ttl limit block_duration now p k =
    let open_window : leb (now + ttl) now ≡ false = ground arith in
    let free : leb 0 now ≡ true = ground arith in
    rw (open_window, free) (counted-counting limit block_duration now 0 (now + ttl) k)

counted_from :
    (key ttl limit block_duration end n : ℕ) (times : List ℕ) (buckets : Buckets)
    → buckets key ≡ some (counting n end)
    → All (λ t. t < end) times
    → n + length times ≤ limit
    → AreCounted limit n (calls key ttl limit block_duration times buckets)
unfolding calls increment answer
counted_from key ttl limit block_duration end n [] buckets found within h = tt
counted_from key ttl limit block_duration end n (now ∷ times) buckets found (before, within) h =
    rw (found, hit-counting ttl limit block_duration now n end before (omega (arith, h)))
      (
        refl,
        ground arith,
        counted_from key ttl limit block_duration end (suc n) times _
            (set_bucket-same key (some (counting (suc n) end)) buckets) within (omega (arith, h)),
      )

-- Where a key has no bucket, the calls of one window, the first at `start` and the others before
-- `start + ttl`, as many as the limit allows, count up from 1, and none of them is blocked.
pub calls-AreCounted :
    (key ttl limit block_duration start : ℕ) (times : List ℕ) (buckets : Buckets)
    → buckets key ≡ none
    → 0 < ttl
    → All (λ t. t < start + ttl) times
    → suc (length times) ≤ limit
    → AreCounted limit 0 (calls key ttl limit block_duration (start ∷ times) buckets)
unfolding calls increment answer
calls-AreCounted key ttl limit block_duration start times buckets unknown p within h =
    rw (unknown, hit-fresh ttl limit block_duration start p (omega (arith, h)))
      (
        refl,
        ground arith,
        counted_from key ttl limit block_duration (start + ttl) 1 times _
            (set_bucket-same key (some (counting 1 (start + ttl))) buckets) within
            (omega (arith, h)),
      )

abbrev blocked : ℕ → ℕ → ℕ → Bucket
blocked n end until = record { total_hits = n; expires_at = end; blocked_until = until }

hit-limit :
    (ttl limit block_duration now end : ℕ)
    → now < end
    → hit ttl limit block_duration now (current_bucket ttl now (some (counting limit end)))
      ≡ blocked (limit + 1) end (now + block_duration)
unfolding hit current_bucket renewed counted
hit-limit ttl limit block_duration now end h =
    let open_window : leb end now ≡ false = ground arith in
    let free : leb 0 now ≡ true = ground arith in
    let passed : ltb limit (limit + 1) ≡ true = ground arith in
    rw (open_window, free) (rw open_window (rw passed refl))

hit-blocked :
    (ttl limit block_duration now n end until : ℕ)
    → now < until
    → hit ttl limit block_duration now (current_bucket ttl now (some (blocked n end until)))
      ≡ blocked n end until
unfolding hit current_bucket
hit-blocked ttl limit block_duration now n end until h =
    let shut : leb until now ≡ false = ground arith in
    let kept : (leb end now && leb until now) ≡ false = ground arith in rw (kept, shut) refl

-- The answers of a block: all are blocked, and none of the calls counts.
abbrev pub AreBlocked : ℕ → List RateLimitResult → Type 0
AreBlocked n rs = All (λ r. (r.is_blocked ≡ true) × (r.total_hits ≡ n)) rs

-- calls for a bucket that is blocked; each leaves the bucket as it is
blocked_from :
    (key ttl limit block_duration n end until : ℕ) (times : List ℕ) (buckets : Buckets)
    → buckets key ≡ some (blocked n end until)
    → All (λ t. t < until) times
    → AreBlocked n (calls key ttl limit block_duration times buckets)
unfolding calls increment answer
blocked_from key ttl limit block_duration n end until [] buckets found within = tt
blocked_from key ttl limit block_duration n end until (now ∷ times) buckets found (h, within) =
    rw (found, hit-blocked ttl limit block_duration now n end until h)
      (
        (ground arith, refl),
        blocked_from key ttl limit block_duration n end until times _
            (set_bucket-same key (some (blocked n end until)) buckets) within,
      )

-- Where the bucket of a key has as many hits as the limit allows and no block, and its window is still
-- open, the next call is blocked, if a block lasts at all, and so is every one of the calls that follow
-- it within the duration of the block, however many they are, even where the window ends before; each
-- answers with one hit more than the limit, so that none of those that follow counts as a further hit.
pub calls-AreBlocked :
    (key ttl limit block_duration now end : ℕ) (times : List ℕ) (buckets : Buckets)
    → buckets key ≡ some (record { total_hits = limit; expires_at = end; blocked_until = 0 })
    → now < end
    → 0 < block_duration
    → All (λ t. t < now + block_duration) times
    → AreBlocked (limit + 1) (calls key ttl limit block_duration (now ∷ times) buckets)
unfolding calls increment answer
calls-AreBlocked key ttl limit block_duration now end times buckets found open_still p within =
    let over = blocked (limit + 1) end (now + block_duration) in
    rw (found, hit-limit ttl limit block_duration now end open_still)
      (
        (ground arith, refl),
        blocked_from key ttl limit block_duration (limit + 1) end (now + block_duration) times _
            (set_bucket-same key (some over) buckets) within,
      )
