-- ===== src/Outbox/Dispatch.antt =====
-- One round of a dispatcher (src/outbox/outbox-dispatcher.service.ts) as a sequence of writes.
use renyqo_app.Prelude.{
  ℕ, zero, suc, ◌+◌, ◌∙◌, ◌≢◌, ◌≤◌, ◌≡◌, refl, Bool, ◌||◌, none, some, List, [], ◌∷◌, arith, All,
  Bool-cases, if◌then◌else◌, inl, inr, ◌==◌, leb, min, ap,
}
use renyqo_app.Outbox.{
  OutboxEvent, Table, claim_batch, backoff_ms, Config, Surroundings, deliver, deliver_all,
  dispatch_once,
}
use renyqo_app.Outbox.Laws.{
  Command, claims, marks, releases, execute, execute_all, Rowwise, HasUniqueIds, IsLater,
  execute_all-IsLater, KeepsLease, Respects, execute_all-KeepsLease,
}

-- The write that the round makes for an event.
delivery : Config → Surroundings → ℕ → OutboxEvent → Command
delivery config world token e = elim (world.failure e.id) [
  | none ↦ marks e.id token (world.clock_after e.id)
  | some message ↦
      releases e.id token (world.clock_after e.id + backoff_ms e.attempt_count) message
        (leb config.max_attempts e.attempt_count)
]

-- The writes of the round after its claim.
deliveries : Config → Surroundings → ℕ → ℕ → Table → List Command
deliveries config world token until [] = []
deliveries config world token until (e ∷ events) =
    let rest = deliveries config world token until events in
    if world.stopped e.id || leb until (world.clock_before e.id)
    then []
    else delivery config world token e ∷ rest

deliver-execute :
    (config : Config) (world : Surroundings) (token : ℕ) (e : OutboxEvent) (rows : Table)
    → deliver config world token e rows ≡ execute (delivery config world token e) rows
unfolding deliver delivery execute
deliver-execute config world token e rows = ground arith

deliver_all-execute_all :
    (config : Config) (world : Surroundings) (token until : ℕ) (events rows : Table)
    → deliver_all config world token until events rows
      ≡ execute_all (deliveries config world token until events) rows
unfolding deliver_all deliveries execute_all
deliver_all-execute_all config world token until [] rows = refl
deliver_all-execute_all config world token until (e ∷ events) rows =
    elim (Bool-cases (world.stopped e.id || leb until (world.clock_before e.id))) [
      | inl ends ↦ rw ends refl
      | inr goes_on ↦ rw goes_on (
          deliver_all-execute_all config world token until events _
          ∙ ap (execute_all (deliveries config world token until events))
              (deliver-execute config world token e rows))
    ]

-- The writes that a whole round makes.
pub writes_of : Config → Surroundings → (ℕ → Bool) → ℕ → ℕ → Table → List Command
unfolding claim_batch
writes_of config world locked as_of token rows =
    let until = as_of + config.lease_ms in
    claims locked token as_of until config.batch_size
    ∷ deliveries config world token until
        (claim_batch locked token as_of until config.batch_size rows).0

dispatch_once-execute_all :
    (config : Config) (world : Surroundings) (locked : ℕ → Bool) (as_of token : ℕ) (rows : Table)
    → dispatch_once config world locked as_of token rows
      ≡ execute_all (writes_of config world locked as_of token rows) rows
unfolding dispatch_once writes_of execute_all execute
dispatch_once-execute_all config world locked as_of token rows =
    deliver_all-execute_all config world token (as_of + config.lease_ms) _ _

Respects-deliveries :
    (config : Config) (world : Surroundings) (token id other until end : ℕ) (events : Table)
    → other ≢ token
    → All (Respects id other until) (deliveries config world token end events)
unfolding deliveries delivery
Respects-deliveries config world token id other until end [] differs = tt
Respects-deliveries config world token id other until end (e ∷ events) differs =
    ground (arith, Respects-deliveries config world token id other until end events differs)

respects :
    (config : Config) (world : Surroundings) (locked : ℕ → Bool) (as_of token : ℕ) (rows : Table)
    (id other until : ℕ)
    → other ≢ token
    → as_of ≤ until
    → All (Respects id other until) (writes_of config world locked as_of token rows)
unfolding writes_of
respects config world locked as_of token rows id other until differs lasts =
    (lasts, Respects-deliveries config world token id other until _ _ differs)

-- A round leaves alone what is done and what others hold: an event that was dispatched is exactly as
-- it was, no event loses an attempt, and the event with an id that is under the lease of another token,
-- which lasts at the time of the round, is exactly as it was.
pub dispatch_once-KeepsLease :
    (config : Config) (world : Surroundings) (locked : ℕ → Bool) (as_of token : ℕ) (rows : Table)
    (id other until : ℕ)
    → HasUniqueIds rows
    → other ≢ token
    → as_of ≤ until
    → Rowwise IsLater rows (dispatch_once config world locked as_of token rows)
      × Rowwise
          (KeepsLease id other until)
          rows
          (dispatch_once config world locked as_of token rows)
dispatch_once-KeepsLease config world locked as_of token rows id other until unique differs lasts =
    rw (dispatch_once-execute_all config world locked as_of token rows) (
      execute_all-IsLater (writes_of config world locked as_of token rows) rows unique,
      execute_all-KeepsLease id other until (writes_of config world locked as_of token rows) rows
          unique (respects config world locked as_of token rows id other until differs lasts),
    )

-- the delay, attempt by attempt
delay_after : ℕ → ℕ
delay_after n =
    if n == 0
    then 1000
    else if n == 1
    then 2000
    else if n == 2
    then 4000
    else if n == 3
    then 8000
    else if n == 4
    then 16000
    else if n == 5
    then 32000
    else 60000

backoff_ms-eq-delay_after : (n : ℕ) → backoff_ms n ≡ delay_after n
unfolding backoff_ms delay_after
backoff_ms-eq-delay_after zero = refl
backoff_ms-eq-delay_after (suc zero) = refl
backoff_ms-eq-delay_after (suc (suc zero)) = refl
backoff_ms-eq-delay_after (suc (suc (suc zero))) = refl
backoff_ms-eq-delay_after (suc (suc (suc (suc zero)))) = refl
backoff_ms-eq-delay_after (suc (suc (suc (suc (suc zero))))) = refl
backoff_ms-eq-delay_after (suc (suc (suc (suc (suc (suc n)))))) =
    let capped : min (suc (suc (suc (suc (suc (suc n)))))) 6 ≡ 6 = omega arith in
    rw capped (ground arith)

-- The delay after a failed attempt is at least two seconds from the first attempt on, at most a
-- minute, and does not shrink with further attempts.
pub backoff_ms_lem :
    (n m : ℕ)
    → 1 ≤ n
    → n ≤ m
    → (2000 ≤ backoff_ms n) × (backoff_ms n ≤ backoff_ms m) × (backoff_ms m ≤ 60000)
unfolding delay_after
backoff_ms_lem n m h k =
    rw (backoff_ms-eq-delay_after n, backoff_ms-eq-delay_after m) (ground arith)
