-- ===== src/Outbox/Tests.antt =====
-- The outbox at a concrete table: one event that is due, one under the lease of another dispatcher.
use renyqo_app.Prelude.{◌≤◌, ◌≡◌, refl, false, none, some, [], ◌∷◌, arith, order_by, List}
use renyqo_app.Outbox.{
  OutboxEvent, Table, Config, Surroundings, dispatch_once, deliver_all, deliver, candidates,
  backoff_ms, is_held,
}
use renyqo_app.Outbox.Laws.{
  Command, claims, marks, releases, execute_all, Rowwise, HasUniqueIds, IsLater, KeepsLease,
  execute_all-IsLater, execute_all-KeepsLease,
}
use renyqo_app.Outbox.Dispatch.{dispatch_once-KeepsLease, backoff_ms_lem}

abbrev due : OutboxEvent
due = record {
  id = 1;
  created_at = 10;
  dispatched_at = none;
  next_attempt_at = 20;
  claim_token = none;
  claimed_until = none;
  attempt_count = 0;
  last_error = none;
}

abbrev leased : OutboxEvent
leased = record due { id = 2; claim_token = some 55; claimed_until = some 9000; attempt_count = 1 }

abbrev table : Table
table = due ∷ leased ∷ []

abbrev config : Config
config = record { lease_ms = 5000; batch_size = 10; max_attempts = 5 }

-- The publisher fails for the event 1.
abbrev world : Surroundings
world = record {
  stopped = λ id. false;
  clock_before = λ id. 1001;
  failure = λ id. some (70 ∷ []);
  clock_after = λ id. 1002;
}

-- The event that was due goes back with a delay of two seconds; the other is as it was.
one_released :
    dispatch_once config world (λ id. false) 1000 77 table
    ≡ record due { attempt_count = 1; next_attempt_at = 3002; last_error = some (70 ∷ []) }
      ∷ leased
      ∷ []
unfolding dispatch_once deliver_all deliver candidates backoff_ms order_by is_held
one_released = refl

two_ids : HasUniqueIds table
two_ids = ground arith

dispatch_once-KeepsLease_example :
    Rowwise IsLater table (dispatch_once config world (λ id. false) 1000 77 table)
    × Rowwise (KeepsLease 2 55 9000) table (dispatch_once config world (λ id. false) 1000 77 table)
dispatch_once-KeepsLease_example =
    dispatch_once-KeepsLease config world (λ id. false) 1000 77 table 2 55 9000 two_ids
      (ground arith) (omega arith)

abbrev writes : List Command
writes =
    claims (λ id. false) 77 1000 6000 10
    ∷ marks 1 77 1002
    ∷ marks 2 77 1003
    ∷ releases 2 77 4000 (70 ∷ []) false
    ∷ []

execute_all-IsLater_example : Rowwise IsLater table (execute_all writes table)
execute_all-IsLater_example = execute_all-IsLater writes table two_ids

execute_all-KeepsLease_example : Rowwise (KeepsLease 2 55 9000) table (execute_all writes table)
execute_all-KeepsLease_example =
    execute_all-KeepsLease 2 55 9000 writes table two_ids (ground arith)

backoff_ms_lem_example :
    (2000 ≤ backoff_ms 2) × (backoff_ms 2 ≤ backoff_ms 9) × (backoff_ms 9 ≤ 60000)
backoff_ms_lem_example = backoff_ms_lem 2 9 (omega arith) (omega arith)
