-- ===== src/Applications/Promotion/Capacity.antt =====
-- The count of active applications that the loop of
-- src/applications/application-waiting-promotion.service.ts keeps.
use renyqo_app.Prelude.{
  not, ℕ, suc, ◌+◌, ◌≤◌, Bool, true, false, ◌≡◌, ◌≢◌, refl, sym, ap, ◌∙◌, subst, inl, inr, none,
  some, List, [], ◌∷◌, ◌==◌, ◌&&◌, leb, arith, length, All, Bool-cases, if◌then◌else◌,
}
use renyqo_app.Prelude.Sort.{All-filter}
use renyqo_app.Domain.{Application, Listing, is_published}
use renyqo_app.Applications.Store.{Store, ok, >>=-eq-ok, update_where}
use renyqo_app.Applications.Promotion.{
  Progress, Reconciled, active_applications_limit, queue_behind, activated, count_active,
  is_eligible, is_queued, is_past, serve, batches, reconcile, start, finish, unchanged,
}
use renyqo_app.Applications.Promotion.Order.{HasUniqueIds}
use renyqo_app.Applications.Promotion.Queue.{head_holds, All-filter_self}
use renyqo_app.Applications.Promotion.Batches.{
  promote-HasPromoted, round, IsAt, round-IsAt, batches-eq-serve, ok_inj,
}
use renyqo_app.Applications.Promotion.Spec.{round_fits, round_skips, queue-length}

-- A change of a row that is not there changes nothing.
update_where-absent :
    (id now : ℕ) (rows : List Application)
    → All (λ b. id ≢ b.id) rows
    → update_where (λ b. b.id == id) (activated now) rows ≡ rows
unfolding update_where
update_where-absent id now [] h = refl
update_where-absent id now (b ∷ rows) (n, h) = ground (arith, update_where-absent id now rows h)

-- An application of the queue that becomes active is one more that counts.
abbrev CountsOnce : Listing → ℕ → List Application → Application → Type 0
CountsOnce listing now rows x =
    is_queued listing x ≡ true
    → count_active listing.id (update_where (λ b. b.id == x.id) (activated now) rows)
      ≡ suc (count_active listing.id rows)

counts_head :
    (listing : Listing) (now : ℕ) (a : Application) (rows : List Application)
    → All (λ b. a.id ≢ b.id) rows
    → CountsOnce listing now (a ∷ rows) a
unfolding count_active update_where
counts_head listing now a rows n q = ground (arith, update_where-absent a.id now rows n)

counts_tail :
    (listing : Listing) (now : ℕ) (a : Application) (rows : List Application) (x : Application)
    → a.id ≢ x.id
    → CountsOnce listing now rows x
    → CountsOnce listing now (a ∷ rows) x
unfolding count_active update_where
counts_tail listing now a rows x n h q = ground (arith, h q)

counts_zip :
    (listing : Listing) (now : ℕ) (a : Application) (rows xs : List Application)
    → All (λ b. a.id ≢ b.id) xs
    → All (CountsOnce listing now rows) xs
    → All (CountsOnce listing now (a ∷ rows)) xs
counts_zip listing now a rows [] n h = tt
counts_zip listing now a rows (x ∷ xs) (n, ns) (h, hs) =
    (counts_tail listing now a rows x n h, counts_zip listing now a rows xs ns hs)

All-CountsOnce :
    (listing : Listing) (now : ℕ) (rows : List Application)
    → HasUniqueIds rows
    → All (CountsOnce listing now rows) rows
All-CountsOnce listing now [] u = tt
All-CountsOnce listing now (a ∷ rows) (n, u) = (
  counts_head listing now a rows n,
  counts_zip listing now a rows rows n (All-CountsOnce listing now rows u),
)

queued_of : (a b : Bool) → (a && b) ≡ true → a ≡ true
queued_of a b h = ground arith

head_counts :
    (listing : Listing) (st : Progress) (a : Application) (rows : List Application)
    → IsAt listing (a ∷ rows) st
    → count_active listing.id
        (update_where (λ b. b.id == a.id) (activated st.store.now) st.store.applications)
      ≡ suc (count_active listing.id st.store.applications)
head_counts listing st a rows at =
    let table = st.store.applications in
    let holds = head_holds listing st.cursor table a rows at.unique at.queue in
    holds (CountsOnce listing st.store.now table)
      (All-filter _ (λ a. is_queued listing a && is_past st.cursor a) table
        (All-CountsOnce listing st.store.now table at.unique))
      (queued_of (is_queued listing a) (is_past st.cursor a) (
        holds (λ x. (is_queued listing x && is_past st.cursor x) ≡ true) (All-filter_self _ table)))

-- The loop counts right, and never past the limit.
record IsCounted (listing : Listing) (st : Progress) : Type 0 where
  exact : count_active listing.id st.store.applications ≡ st.active_count
  within : st.active_count ≤ active_applications_limit

round-IsCounted :
    (listing : Listing) (a : Application) (rows : List Application) (st next : Progress)
    → IsAt listing (a ∷ rows) st
    → leb active_applications_limit st.active_count ≡ false
    → IsCounted listing st
    → round listing a st ≡ ok next
    → IsCounted listing next
round-IsCounted listing a rows st next at room c went =
    elim (Bool-cases (is_eligible listing st.store a)) [
      | inl fits ↦
          let done =
            promote-HasPromoted listing a (record st { cursor = some a }) next
              (round_fits listing a st next fits went) in
          record {
            exact =
                ap (count_active listing.id) done.applications
                ∙ head_counts listing st a rows at
                ∙ ap suc c.exact
                ∙ sym done.active_count;
            within = ground (arith, done.active_count);
          }
      | inr not_fit ↦
          subst (IsCounted listing) (round_skips listing a st next not_fit went)
            (record { exact = c.exact; within = c.within })
    ]

serve-IsCounted :
    (listing : Listing) (rows : List Application) (st st' : Progress)
    → IsAt listing rows st
    → IsCounted listing st
    → serve listing rows st ≡ ok st'
    → IsCounted listing st'
unfolding serve
serve-IsCounted listing [] st st' at c h = subst (IsCounted listing) (ok_inj h) c
serve-IsCounted listing (a ∷ rows) st st' at c h =
    elim (Bool-cases (leb active_applications_limit st.active_count)) [
      | inl full ↦ subst (IsCounted listing) (ok_inj (rw full at h)) c
      | inr room ↦
          let (next, went, later) =
            >>=-eq-ok (round listing a st) (serve listing rows) (rw room at h) in
          serve-IsCounted listing rows next st' (round-IsAt listing a rows st next at went)
            (round-IsCounted listing a rows st next at room c went) later
    ]

finish_counts :
    (listing : Listing) (s : Store) (st : Progress)
    → HasUniqueIds s.applications
    → leb active_applications_limit (count_active listing.id s.applications) ≡ false
    → batches (suc (length s.applications)) listing (start listing s) ≡ ok st
    → count_active listing.id st.store.applications + (finish st).remaining_capacity
      ≡ active_applications_limit
finish_counts listing s st unique room went =
    let queue = queue_behind listing none s.applications in
    let at : IsAt listing queue (start listing s) = record { unique = unique; queue = refl } in
    let counted =
      serve-IsCounted listing queue (start listing s) st at
        (record { exact = refl; within = ground arith })
        (sym (
            batches-eq-serve (suc (length s.applications)) listing queue (start listing s) at
              (queue-length listing s.applications))
          ∙ went) in
    omega (arith, counted.exact, counted.within)

-- Where a reconciliation finds free places on a published listing, the active applications of the
-- table that it leaves and the capacity that it reports add up to the limit of five; in every other
-- case it leaves the store as it was and reports no capacity.
pub reconcile_capacity :
    (listing : Listing) (s : Store) (r : Reconciled)
    → HasUniqueIds s.applications
    → reconcile listing s ≡ ok r
    → (if is_published listing.status
          && not (leb active_applications_limit (count_active listing.id s.applications))
        then count_active listing.id r.store.applications + r.remaining_capacity
          ≡ active_applications_limit
        else r ≡ unchanged s)
unfolding reconcile
reconcile_capacity listing s r unique h = elim (Bool-cases (is_published listing.status)) [
  | inr shut ↦ rw shut (sym (ok_inj (rw shut at h)))
  | inl shown ↦
      elim (Bool-cases (leb active_applications_limit (count_active listing.id s.applications))) [
        | inl full ↦ rw (shown, full) (sym (ok_inj (rw (shown, full) at h)))
        | inr room ↦
            let (st, went, done) =
              >>=-eq-ok (batches (suc (length s.applications)) listing (start listing s))
                (λ st. ok (finish st)) (rw (shown, room) at h) in
            rw (shown, room)
              (subst
                (λ r.
                  count_active listing.id r.store.applications + r.remaining_capacity
                  ≡ active_applications_limit)
                (ok_inj done) (finish_counts listing s st unique room went))
      ]
]
