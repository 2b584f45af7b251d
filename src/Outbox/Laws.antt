-- ===== src/Outbox/Laws.antt =====
-- Sequences of the writes of src/outbox/outbox-repository.ts, and a row of the outbox under them.
use renyqo_app.Prelude.{
  ℕ, zero, suc, ◌∙◌, sym, subst, ◌≢◌, ◌≤◌, ◌≡◌, refl, Bool, true, false, not, ◌&&◌, none, some,
  List, [], ◌∷◌, arith, All, if◌then◌else◌, any, take, filter, ◌==◌, order_by, and-cases,
}
use renyqo_app.Prelude.Sort.{All-map, any-order_by, any-filter}
use renyqo_app.Outbox.{
  Text, OutboxEvent, Table, is_claimable, candidates, claimed, update_rows, has_id_of, claim_batch,
  is_held, dispatched, mark_dispatched, released, release_after_failure, created_before,
}

-- A write that some dispatcher makes.
pub data Command : Type 0 where
  claims : (locked : ℕ → Bool) (token as_of lease_until batch_size : ℕ) → Command
  marks : (event_id token at : ℕ) → Command
  releases : (event_id token next_attempt_at : ℕ) (last_error : Text) (exhausted : Bool) → Command

unfoldable pub execute : Command → Table → Table
unfolding claim_batch mark_dispatched release_after_failure
execute (claims locked token as_of lease_until batch_size) rows =
    (claim_batch locked token as_of lease_until batch_size rows).1
execute (marks event_id token at) rows = (mark_dispatched event_id token at rows).1
execute (releases event_id token next last_error exhausted) rows =
    (release_after_failure event_id token next last_error exhausted rows).1

unfoldable pub execute_all : List Command → Table → Table
execute_all [] rows = rows
execute_all (c ∷ cs) rows = execute_all cs (execute c rows)

-- The rows of two tables, one by one.
abbrev pub Rowwise : (OutboxEvent → OutboxEvent → Type 0) → Table → Table → Type 0
Rowwise R [] [] = Unit
Rowwise R (e ∷ rows) (e' ∷ rows') = R e e' × Rowwise R rows rows'
Rowwise R _ _ = ⊥

pub Rowwise-update :
    (R : OutboxEvent → OutboxEvent → Type 0) (p : OutboxEvent → Bool)
    (f : OutboxEvent → OutboxEvent) (rows : Table)
    → All (λ e. R e (if p e then f e else e)) rows
    → Rowwise R rows (update_rows p f rows)
Rowwise-update R p f [] h = tt
Rowwise-update R p f (e ∷ rows) (h, hs) = (h, Rowwise-update R p f rows hs)

-- What holds of every row holds of all.
pub All-every : (P : OutboxEvent → Type 0) (rows : Table) → ((e : OutboxEvent) → P e) → All P rows
All-every P [] f = tt
All-every P (e ∷ rows) f = (f e, All-every P rows f)

Rowwise-trans :
    (R : OutboxEvent → OutboxEvent → Type 0)
    → ((a b c : OutboxEvent) → R a b → R b c → R a c)
    → (xs ys zs : Table) → Rowwise R xs ys
    → Rowwise R ys zs
    → Rowwise R xs zs
Rowwise-trans R trans [] [] [] h k = tt
Rowwise-trans R trans (x ∷ xs) (y ∷ ys) (z ∷ zs) (h, hs) (k, ks) =
    (trans x y z h k, Rowwise-trans R trans xs ys zs hs ks)
Rowwise-trans R trans [] (y ∷ ys) zs h k = elim h [ ]
Rowwise-trans R trans (x ∷ xs) [] zs h k = elim h [ ]
Rowwise-trans R trans [] [] (z ∷ zs) h k = elim k [ ]
Rowwise-trans R trans (x ∷ xs) (y ∷ ys) [] h k = elim k [ ]

Rowwise-refl :
    (R : OutboxEvent → OutboxEvent → Type 0)
    → ((a : OutboxEvent) → R a a)
    → (xs : Table) → Rowwise R xs xs
Rowwise-refl R same [] = tt
Rowwise-refl R same (x ∷ xs) = (same x, Rowwise-refl R same xs)

any-take :
    (p : OutboxEvent → Bool) (n : ℕ) (rows : Table) → any p (take n rows) ≡ true → any p rows ≡ true
any-take p zero rows h = cc
any-take p (suc n) [] h = cc
any-take p (suc n) (e ∷ rows) h = ground (arith, any-take p n rows)

-- A row with the id of a candidate has the id of a row that can be claimed.
has_id_of_claimable :
    (locked : ℕ → Bool) (as_of batch_size : ℕ) (rows : Table) (e : OutboxEvent)
    → has_id_of (candidates locked as_of batch_size rows) e ≡ true
    → any (λ c. (is_claimable as_of c && not (locked c.id)) && c.id == e.id) rows ≡ true
unfolding candidates
has_id_of_claimable locked as_of batch_size rows e h =
    let free : OutboxEvent → Bool = λ c. is_claimable as_of c && not (locked c.id) in
    sym (any-filter free (λ c. c.id == e.id) rows)
    ∙ sym (any-order_by created_before (λ c. c.id == e.id) (filter free rows))
    ∙ any-take (λ c. c.id == e.id) batch_size (order_by created_before (filter free rows)) h

-- The primary key.
abbrev pub HasUniqueIds : Table → Type 0
HasUniqueIds [] = Unit
HasUniqueIds (e ∷ rows) = All (λ b. e.id ≢ b.id) rows × HasUniqueIds rows

-- No row of the table has this id and passes the test.
absent :
    (p : OutboxEvent → Bool) (id : ℕ) (rows : Table)
    → All (λ b. id ≢ b.id) rows
    → any (λ c. p c && c.id == id) rows ≡ false
absent p id [] h = refl
absent p id (b ∷ rows) (n, h) = ground (arith, absent p id rows h)

-- By the key, a row with the id of one that passes passes itself.
abbrev Identifies : (OutboxEvent → Bool) → Table → OutboxEvent → Type 0
Identifies p rows e = any (λ c. p c && c.id == e.id) rows ≡ true → p e ≡ true

Identifies-tail :
    (p : OutboxEvent → Bool) (b : OutboxEvent) (rows es : Table)
    → All (λ e. b.id ≢ e.id) es
    → All (Identifies p rows) es
    → All (Identifies p (b ∷ rows)) es
Identifies-tail p b rows [] n h = tt
Identifies-tail p b rows (e ∷ es) (n, ns) (h, hs) =
    ((λ found. h (ground (arith, found))), Identifies-tail p b rows es ns hs)

All-Identifies :
    (p : OutboxEvent → Bool) (rows : Table) → HasUniqueIds rows → All (Identifies p rows) rows
All-Identifies p [] u = tt
All-Identifies p (e ∷ rows) (n, u) = (
  (λ found. ground (arith, found, absent p e.id rows n)),
  Identifies-tail p e rows rows n (All-Identifies p rows u),
)

unique-Rowwise :
    (rows rows' : Table)
    → Rowwise (λ e e'. e'.id ≡ e.id) rows rows'
    → HasUniqueIds rows
    → HasUniqueIds rows'
unique-Rowwise [] [] h u = tt
unique-Rowwise [] (e' ∷ rows') h u = elim h [ ]
unique-Rowwise (e ∷ rows) [] h u = elim h [ ]
unique-Rowwise (e ∷ rows) (e' ∷ rows') (h, hs) (n, u) =
    (differ rows rows' hs n, unique-Rowwise rows rows' hs u)
  where
    differ :
        (xs ys : Table)
        → Rowwise (λ e e'. e'.id ≡ e.id) xs ys
        → All (λ b. e.id ≢ b.id) xs
        → All (λ b. e'.id ≢ b.id) ys
    differ [] [] g m = tt
    differ [] (y ∷ ys) g m = elim g [ ]
    differ (x ∷ xs) [] g m = elim g [ ]
    differ (x ∷ xs) (y ∷ ys) (g, gs) (m, ms) = (rw (h, g) m, differ xs ys gs ms)

-- What a relation of rows must hold of for a write to keep it.
abbrev Allows : (OutboxEvent → OutboxEvent → Type 0) → Command → OutboxEvent → Type 0
Allows R (claims locked token as_of until batch_size) e =
    is_claimable as_of e ≡ true → R e (claimed token until e)
Allows R (marks event_id token at) e = is_held event_id token e ≡ true → R e (dispatched at e)
Allows R (releases event_id token next message exhausted) e =
    is_held event_id token e ≡ true → R e (released next message exhausted e)

module _ (R : OutboxEvent → OutboxEvent → Type 0) (same : (e : OutboxEvent) → R e e) where
  change_row :
      (b : Bool) (f : OutboxEvent → OutboxEvent) (e : OutboxEvent)
      → (b ≡ true → R e (f e))
      → R e (if b then f e else e)
  change_row true f e h = h refl
  change_row false f e h = same e

  change_rows :
      (p : OutboxEvent → Bool) (f : OutboxEvent → OutboxEvent) (rows : Table)
      → All (λ e. p e ≡ true → R e (f e)) rows
      → Rowwise R rows (update_rows p f rows)
  change_rows p f rows h =
      Rowwise-update R p f rows (All-map (λ e q. change_row (p e) f e q) rows h)

  execute-Rowwise :
      (c : Command) (rows : Table)
      → HasUniqueIds rows
      → ((e : OutboxEvent) → Allows R c e)
      → Rowwise R rows (execute c rows)
  unfolding execute
  execute-Rowwise (claims locked token as_of until batch_size) rows u h =
      change_rows _ (claimed token until) rows (
        All-map
          (λ e q found. h e (
            (and-cases (is_claimable as_of e) (not (locked e.id))
              (q (has_id_of_claimable locked as_of batch_size rows e found))).0))
          rows (All-Identifies (λ c. is_claimable as_of c && not (locked c.id)) rows u))
  execute-Rowwise (marks event_id token at) rows u h =
      change_rows (is_held event_id token) (dispatched at) rows (All-every _ rows h)
  execute-Rowwise (releases event_id token next message exhausted) rows u h =
      change_rows (is_held event_id token) (released next message exhausted) rows
        (All-every _ rows h)

execute-HasUniqueIds :
    (c : Command) (rows : Table) → HasUniqueIds rows → HasUniqueIds (execute c rows)
execute-HasUniqueIds c rows u =
    unique-Rowwise rows (execute c rows)
      (execute-Rowwise (λ e e'. e'.id ≡ e.id) (λ e. refl) c rows u (keeps_id c)) u
  where
    keeps_id : (c : Command) (e : OutboxEvent) → Allows (λ e e'. e'.id ≡ e.id) c e
    keeps_id (claims locked token as_of until batch_size) e = λ h. refl
    keeps_id (marks event_id token at) e = λ h. refl
    keeps_id (releases event_id token next message exhausted) e = λ h. refl

module _ (R : OutboxEvent → OutboxEvent → Type 0) (same : (e : OutboxEvent) → R e e)
    (trans : (a b c : OutboxEvent) → R a b → R b c → R a c) where
  execute_all-Rowwise :
      (cs : List Command) (rows : Table)
      → HasUniqueIds rows
      → All (λ c. (e : OutboxEvent) → Allows R c e) cs
      → Rowwise R rows (execute_all cs rows)
  unfolding execute_all
  execute_all-Rowwise [] rows u h = Rowwise-refl R same rows
  execute_all-Rowwise (c ∷ cs) rows u (h, hs) =
      Rowwise-trans R trans rows (execute c rows) (execute_all cs (execute c rows))
        (execute-Rowwise R same c rows u h)
        (execute_all-Rowwise cs (execute c rows) (execute-HasUniqueIds c rows u) hs)

-- An event that was dispatched stays as it is; no event changes its id or loses an attempt.
pub record IsLater (e e' : OutboxEvent) : Type 0 where
  pub id : e'.id ≡ e.id
  pub attempts : e.attempt_count ≤ e'.attempt_count
  pub final : e.dispatched_at ≢ none → e' ≡ e

all-IsLater : (c : Command) (e : OutboxEvent) → Allows IsLater c e
unfolding is_claimable is_held
all-IsLater (claims locked token as_of until batch_size) e =
    λ h. record { id = refl; attempts = omega arith; final = ground arith }
all-IsLater (marks event_id token at) e =
    λ h. record { id = refl; attempts = omega arith; final = ground arith }
all-IsLater (releases event_id token next message exhausted) e =
    λ h. record { id = refl; attempts = omega arith; final = ground arith }

-- After any sequence of claims, marks and releases, whichever dispatchers make them and in whichever
-- order, each row has its id still and no fewer attempts, and a row that was dispatched before is
-- exactly as it was.
pub execute_all-IsLater :
    (cs : List Command) (rows : Table)
    → HasUniqueIds rows
    → Rowwise IsLater rows (execute_all cs rows)
execute_all-IsLater cs rows u =
    execute_all-Rowwise IsLater
      (λ e. record { id = refl; attempts = omega arith; final = λ h. refl })
      (λ a b c h k. record {
        id = k.id ∙ h.id;
        attempts = omega (arith, h.attempts, k.attempts);
        final = λ n. k.final (subst (λ x. x.dispatched_at ≢ none) (sym (h.final n)) n) ∙ h.final n;
      })
      cs rows u (every cs)
  where
    every : (cs : List Command) → All (λ c. (e : OutboxEvent) → Allows IsLater c e) cs
    every [] = tt
    every (c ∷ cs) = (all-IsLater c, every cs)

-- The command is not made by the holder of the lease, and comes while the lease lasts.
abbrev pub Respects : ℕ → ℕ → ℕ → Command → Type 0
Respects id token until (claims locked t as_of lease_until batch_size) = as_of ≤ until
Respects id token until (marks event_id t at) = (event_id ≡ id) → (t ≢ token)
Respects id token until (releases event_id t next message exhausted) = (event_id ≡ id) → (t ≢ token)

-- The row, if it is the one leased, is as it was.
abbrev pub KeepsLease : ℕ → ℕ → ℕ → OutboxEvent → OutboxEvent → Type 0
KeepsLease id token until e e' =
    e.id ≡ id → e.claim_token ≡ some token → e.claimed_until ≡ some until → e' ≡ e

all_respect :
    (id token until : ℕ) (c : Command)
    → Respects id token until c
    → (e : OutboxEvent) → Allows (KeepsLease id token until) c e
unfolding is_claimable is_held
all_respect id token until (claims locked t as_of lease_until batch_size) r e =
    λ h i k u. ground arith
all_respect id token until (marks event_id t at) r e = λ h i k u. ground (arith, r)
all_respect id token until (releases event_id t next message exhausted) r e =
    λ h i k u. ground (arith, r)

-- While a lease lasts, no write of another dispatcher changes the event: after any sequence of claims
-- at times up to the end of the lease, and of marks and releases under other tokens or of other
-- events, the row that carries the lease is exactly as it was.
pub execute_all-KeepsLease :
    (id token until : ℕ) (cs : List Command) (rows : Table)
    → HasUniqueIds rows
    → All (Respects id token until) cs
    → Rowwise (KeepsLease id token until) rows (execute_all cs rows)
execute_all-KeepsLease id token until cs rows u h =
    execute_all-Rowwise (KeepsLease id token until) (λ e i k l. refl)
      (λ a b c f g i k l. let same = f i k l in g (rw same i) (rw same k) (rw same l) ∙ same) cs
      rows u (All-respect cs h)
  where
    All-respect :
        (cs : List Command)
        → All (Respects id token until) cs
        → All (λ c. (e : OutboxEvent) → Allows (KeepsLease id token until) c e) cs
    All-respect [] h = tt
    All-respect (c ∷ cs) (h, hs) = (all_respect id token until c h, All-respect cs hs)
