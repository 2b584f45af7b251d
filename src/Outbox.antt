-- ===== src/Outbox.antt =====
-- src/outbox/outbox-repository.ts and src/outbox/outbox-dispatcher.service.ts: the table of events that
-- wait for delivery, the leases by which a dispatcher claims them, and one round of a dispatcher.
pub mod Laws
pub mod Dispatch
mod Tests
use renyqo_app.Prelude.{
  ℕ, zero, suc, ◌+◌, ◌*◌, ◌^◌, Bool, true, false, not, Option, none, some, List, [], ◌∷◌, map, ◌&&◌,
  ◌||◌, ◌==◌, ltb, leb, min, is_none, if◌then◌else◌, any, filter, length, take, order_by,
}

-- Text by its UTF-16 code units.
abbrev pub Text : Type 0
Text = List ℕ

-- The columns of `outbox_events` that the dispatch reads or writes; the rest of an event is its payload.
pub record OutboxEvent : Type 0 where
  pub id : ℕ
  pub created_at : ℕ
  pub dispatched_at : Option ℕ
  pub next_attempt_at : ℕ
  pub claim_token : Option ℕ
  pub claimed_until : Option ℕ
  pub attempt_count : ℕ
  pub last_error : Option Text

abbrev pub Table : Type 0
Table = List OutboxEvent

abbrev lease_is_over : ℕ → Option ℕ → Bool
lease_is_over as_of none = true
lease_is_over as_of (some until) = ltb until as_of

-- the `WHERE` of the candidates
pub is_claimable : ℕ → OutboxEvent → Bool
is_claimable as_of e =
    is_none e.dispatched_at && (leb e.next_attempt_at as_of && lease_is_over as_of e.claimed_until)

abbrev pub created_before : OutboxEvent → OutboxEvent → Bool
created_before a b = ltb a.created_at b.created_at

-- The candidates: the oldest claimable rows that no other transaction holds a lock on.
unfoldable pub candidates : (ℕ → Bool) → ℕ → ℕ → Table → Table
unfolding is_claimable
candidates locked as_of batch_size rows =
    take batch_size
      (order_by created_before (filter (λ e. is_claimable as_of e && not (locked e.id)) rows))

abbrev pub claimed : ℕ → ℕ → OutboxEvent → OutboxEvent
claimed token lease_until e = record e {
  claim_token = some token;
  claimed_until = some lease_until;
  attempt_count = e.attempt_count + 1;
}

abbrev pub update_rows : (OutboxEvent → Bool) → (OutboxEvent → OutboxEvent) → Table → Table
update_rows p f rows = map (λ e. if p e then f e else e) rows

abbrev pub has_id_of : Table → OutboxEvent → Bool
has_id_of chosen e = any (λ c. c.id == e.id) chosen

-- `claimBatch`, with the rows that it returns
pub claim_batch : (ℕ → Bool) → ℕ → ℕ → ℕ → ℕ → Table → Table × Table
claim_batch locked token as_of lease_until batch_size rows =
    let chosen = candidates locked as_of batch_size rows in
    (
      map (claimed token lease_until) chosen,
      update_rows (has_id_of chosen) (claimed token lease_until) rows,
    )

abbrev is_token : ℕ → Option ℕ → Bool
is_token token none = false
is_token token (some t) = t == token

-- `where: { id: eventId, claimToken, dispatchedAt: null }`
unfoldable pub is_held : ℕ → ℕ → OutboxEvent → Bool
is_held event_id token e =
    e.id == event_id && (is_token token e.claim_token && is_none e.dispatched_at)

abbrev pub dispatched : ℕ → OutboxEvent → OutboxEvent
dispatched at e = record e {
  dispatched_at = some at;
  claim_token = none;
  claimed_until = none;
  last_error = none;
}

-- `markDispatched`, with the count of the rows that it changed
pub mark_dispatched : ℕ → ℕ → ℕ → Table → ℕ × Table
mark_dispatched event_id token at rows = (
  length (filter (is_held event_id token) rows),
  update_rows (is_held event_id token) (dispatched at) rows,
)

-- `new Date('2099-01-01T00:00:00.000Z')`
abbrev pub year_2099 : ℕ
year_2099 = 4070908800000

abbrev pub released : ℕ → Text → Bool → OutboxEvent → OutboxEvent
released next_attempt_at last_error exhausted e = record e {
  claim_token = none;
  claimed_until = none;
  next_attempt_at = if exhausted then year_2099 else next_attempt_at;
  last_error = some (take 500 last_error);
}

-- `releaseAfterFailure`
pub release_after_failure : ℕ → ℕ → ℕ → Text → Bool → Table → ℕ × Table
release_after_failure event_id token next_attempt_at last_error exhausted rows = (
  length (filter (is_held event_id token) rows),
  update_rows (is_held event_id token) (released next_attempt_at last_error exhausted) rows,
)

-- the rows that `deleteDispatchedOlderThan` deletes
abbrev is_older_than : ℕ → OutboxEvent → Bool
is_older_than cutoff e = elim e.dispatched_at [ none ↦ false | some at ↦ ltb at cutoff ]

abbrev dispatched_before : OutboxEvent → OutboxEvent → Bool
dispatched_before a b = elim a.dispatched_at [
  | none ↦ false
  | some s ↦ elim b.dispatched_at [ none ↦ true | some t ↦ ltb s t ]
]

-- `deleteDispatchedOlderThan`
pub delete_dispatched_older_than : ℕ → ℕ → Table → Table
delete_dispatched_older_than cutoff batch_size rows =
    let old = take batch_size (order_by dispatched_before (filter (is_older_than cutoff) rows)) in
    filter (λ e. not (has_id_of old e)) rows

-- `Math.min(60_000, 1000 * 2 ** Math.min(event.attemptCount, 6))`
unfoldable pub backoff_ms : ℕ → ℕ
backoff_ms attempt_count = min 60000 (1000 * 2 ^ min attempt_count 6)

pub record Config : Type 0 where
  pub lease_ms : ℕ
  pub batch_size : ℕ
  pub max_attempts : ℕ

-- What one round meets at the event of an id: whether the service was stopped before it, the clock
-- there, the error that the publisher or the write after it threw, and the clock after that.
pub record Surroundings : Type 0 where
  pub stopped : ℕ → Bool
  pub clock_before : ℕ → ℕ
  pub failure : ℕ → Option Text
  pub clock_after : ℕ → ℕ

-- the body of the loop of `dispatchOnce`, for an event that was claimed with `token`
unfoldable pub deliver : Config → Surroundings → ℕ → OutboxEvent → Table → Table
unfolding mark_dispatched release_after_failure backoff_ms
deliver config world token e rows = elim (world.failure e.id) [
  | none ↦ (mark_dispatched e.id token (world.clock_after e.id) rows).1
  | some message ↦
      let exhausted = leb config.max_attempts e.attempt_count in
      let next_attempt_at = world.clock_after e.id + backoff_ms e.attempt_count in
      (release_after_failure e.id token next_attempt_at message exhausted rows).1
]

-- the loop of `dispatchOnce`
unfoldable pub deliver_all : Config → Surroundings → ℕ → ℕ → Table → Table → Table
deliver_all config world token lease_until [] rows = rows
deliver_all config world token lease_until (e ∷ events) rows =
    let rest =
      deliver_all config world token lease_until events (deliver config world token e rows) in
    if world.stopped e.id || leb lease_until (world.clock_before e.id) then rows else rest

-- `dispatchOnce`
unfoldable pub dispatch_once : Config → Surroundings → (ℕ → Bool) → ℕ → ℕ → Table → Table
unfolding claim_batch
dispatch_once config world locked as_of token rows =
    let lease_until = as_of + config.lease_ms in
    let (events, rows') = claim_batch locked token as_of lease_until config.batch_size rows in
    deliver_all config world token lease_until events rows'
