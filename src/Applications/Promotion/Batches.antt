-- ===== src/Applications/Promotion/Batches.antt =====
-- The loop over batches of src/applications/application-waiting-promotion.service.ts, beside one pass
-- over the queue.
use renyqo_app.Prelude.{
  ℕ, zero, suc, ◌<◌, true, false, ◌≡◌, refl, sym, ap, ◌∙◌, subst, ◌⊎◌, inl, inr, some, List, [],
  ◌∷◌, ◌++◌, ◌==◌, leb, ltb, arith, length, take, drop, take-append-drop, drop_short, length-drop,
  ltb→lt, ◌-◌, Bool-cases, if◌then◌else◌,
}
use renyqo_app.Domain.{Application, Listing}
use renyqo_app.Applications.Store.{Result, ok, ◌>>=◌, >>=-eq-ok, Result-cases, update_where}
use renyqo_app.Applications.Assessments.Frame.{record_assessment-frame}
use renyqo_app.Applications.Assessments.{record_assessment}
use renyqo_app.Applications.Promotion.{
  Progress, active_applications_limit, promotion_batch_size, queue_behind, activated, is_eligible,
  promote, serve, batches,
}
use renyqo_app.Applications.Promotion.Order.{HasUniqueIds}
use renyqo_app.Applications.Promotion.Queue.{
  HasUniqueIds-update_where, queue_behind_head, queue_behind-activated,
}

-- What a promotion does to the progress of the loop.
pub record HasPromoted (a : Application) (st st' : Progress) : Type 0 where
  pub applications :
      st'.store.applications
      ≡ update_where (λ b. b.id == a.id) (activated st.store.now) st.store.applications
  pub profiles : st'.store.profiles ≡ st.store.profiles
  pub now : st'.store.now ≡ st.store.now
  pub active_count : st'.active_count ≡ suc st.active_count
  pub promoted_count : st'.promoted_count ≡ suc st.promoted_count
  pub cursor : st'.cursor ≡ st.cursor

pub promote-HasPromoted :
    (listing : Listing) (a : Application) (st st' : Progress)
    → promote listing a st ≡ ok st'
    → HasPromoted a st st'
unfolding promote
promote-HasPromoted listing a st st' h =
    let (recorded, first, second) = >>=-eq-ok (record_assessment _ _ _ _ _ _) _ h in
    let frame = record_assessment-frame _ _ _ _ _ _ recorded first in ground (arith, frame, second)

-- One round of the loop over a batch.
abbrev pub round : Listing → Application → Progress → Result Progress
round listing a st =
    let seen : Progress = record st { cursor = some a } in
    if is_eligible listing st.store a then promote listing a seen else ok seen

pub serve_full :
    (listing : Listing) (rows : List Application) (st : Progress)
    → leb active_applications_limit st.active_count ≡ true
    → serve listing rows st ≡ ok st
unfolding serve
serve_full listing [] st h = refl
serve_full listing (a ∷ rows) st h = rw h refl

pub serve-append :
    (listing : Listing) (xs ys : List Application) (st : Progress)
    → serve listing (xs ++ ys) st ≡ (serve listing xs st >>= serve listing ys)
unfolding serve
serve-append listing [] ys st = refl
serve-append listing (a ∷ xs) ys st =
    elim (Bool-cases (leb active_applications_limit st.active_count)) [
      | inl full ↦ rw full (sym (serve_full listing ys st full))
      | inr room ↦ rw room elim (Result-cases (round listing a st)) [
        | inl (e, failed) ↦ rw failed refl
        | inr (st', went) ↦ rw went (serve-append listing xs ys st')
      ]
    ]

pub ok_inj {ℓ} : {A : Type ℓ} {a b : A} → ok a ≡ ok b → a ≡ b
ok_inj h = cc

-- What a round leaves for the next one: unique ids, and the queue without its first application.
pub record IsAt (listing : Listing) (rows : List Application) (st : Progress) : Type 0 where
  pub unique : HasUniqueIds st.store.applications
  pub queue : queue_behind listing st.cursor st.store.applications ≡ rows

pub round-IsAt :
    (listing : Listing) (a : Application) (rows : List Application) (st st' : Progress)
    → IsAt listing (a ∷ rows) st
    → round listing a st ≡ ok st'
    → IsAt listing rows st'
round-IsAt listing a rows st st' at h = elim (Bool-cases (is_eligible listing st.store a)) [
  | inl e ↦
      let done = promote-HasPromoted listing a (record st { cursor = some a }) st' (rw e at h) in
      record {
        unique =
            subst HasUniqueIds (sym done.applications)
              (HasUniqueIds-update_where _ _ (λ b. refl) _ at.unique);
        queue =
            rw (done.cursor, done.applications)
              (queue_behind-activated listing st.cursor st.store.applications a rows at.unique
                at.queue st.store.now);
      }
  | inr e ↦
      let same : record st { cursor = some a } ≡ st' = ground (arith, (rw e at h)) in
      subst (IsAt listing rows) same (record {
        unique = at.unique;
        queue = queue_behind_head listing st.cursor st.store.applications a rows at.unique at.queue;
      })
]

serve-IsAt :
    (listing : Listing) (batch rows : List Application) (st st' : Progress)
    → IsAt listing (batch ++ rows) st
    → serve listing batch st ≡ ok st'
    → (leb active_applications_limit st'.active_count ≡ true) ⊎ IsAt listing rows st'
unfolding serve
serve-IsAt listing [] rows st st' at h = inr (subst (IsAt listing rows) (ok_inj h) at)
serve-IsAt listing (a ∷ batch) rows st st' at h =
    elim (Bool-cases (leb active_applications_limit st.active_count)) [
      | inl full ↦ inl (
          subst (λ (t : Progress). leb active_applications_limit t.active_count ≡ true)
            (ok_inj (rw full at h)) full)
      | inr room ↦
          let (next, went, later) =
            >>=-eq-ok (round listing a st) (serve listing batch) (rw room at h) in
          serve-IsAt listing batch rows next st'
            (round-IsAt listing a (batch ++ rows) st next at went) later
    ]

batches_full :
    (fuel : ℕ) (listing : Listing) (st : Progress)
    → leb active_applications_limit st.active_count ≡ true
    → batches (suc fuel) listing st ≡ ok st
unfolding batches
batches_full fuel listing st full = rw full refl

serve-nil : (listing : Listing) (st : Progress) → serve listing [] st ≡ ok st
unfolding serve
serve-nil listing st = refl

-- What follows a batch of `n`, given the loop with one batch less.
module _ (fuel : ℕ) (listing : Listing)
    (ih : (rows : List Application) (st : Progress)
      → IsAt listing rows st
      → length rows < fuel
      → batches fuel listing st ≡ serve listing rows st) where
  full_or_left :
      (rows : List Application) (st : Progress)
      → (leb active_applications_limit st.active_count ≡ true) ⊎ IsAt listing rows st
      → length rows < fuel
      → batches fuel listing st ≡ serve listing rows st
  full_or_left rows st (inr at) h = ih rows st at h
  full_or_left rows st (inl full) h =
      subst (λ k. batches k listing st ≡ ok st) (omega arith)
        (batches_full (fuel - 1) listing st full)
      ∙ sym (serve_full listing rows st full)

  after_batch :
      (n : ℕ) (rows : List Application) (st : Progress)
      → IsAt listing rows st
      → 0 < n
      → length rows < suc fuel
      → 0 < length rows
      → (serve listing (take n rows) st >>= λ st'.
          if ltb (length (take n rows)) n then ok st' else batches fuel listing st')
        ≡ serve listing rows st
  after_batch n rows st at pos h some_rows =
      both
      ∙ sym (serve-append listing (take n rows) (drop n rows) st)
      ∙ ap (λ r. serve listing r st) (take-append-drop n rows)
    where
      follows :
          (st' : Progress)
          → serve listing (take n rows) st ≡ ok st'
          → (if ltb (length (take n rows)) n then ok st' else batches fuel listing st')
            ≡ serve listing (drop n rows) st'
      follows st' went = elim (Bool-cases (ltb (length (take n rows)) n)) [
        | inl short ↦ rw (short, drop_short n rows (ltb→lt _ n short)) (sym (serve-nil listing st'))
        | inr long ↦ rw long (
            full_or_left (drop n rows) st'
              (serve-IsAt listing (take n rows) (drop n rows) st st'
                (subst (λ r. IsAt listing r st) (sym (take-append-drop n rows)) at) went)
              (omega (arith, length-drop n rows)))
      ]

      both :
          (serve listing (take n rows) st >>= λ st'.
          if ltb (length (take n rows)) n then ok st' else batches fuel listing st')
          ≡ (serve listing (take n rows) st >>= serve listing (drop n rows))
      both = elim (Result-cases (serve listing (take n rows) st)) [
        | inl (e, failed) ↦ rw failed refl
        | inr (st', went) ↦ rw went (follows st' went)
      ]

suc_ne_zero : (n : ℕ) → (suc n == 0) ≡ false
suc_ne_zero n = ground arith

-- From any point of the loop, with fuel above the length of the queue that is left, the batches serve
-- that queue as one pass does.
pub batches-eq-serve :
    (fuel : ℕ) (listing : Listing) (rows : List Application) (st : Progress)
    → IsAt listing rows st
    → length rows < fuel
    → batches fuel listing st ≡ serve listing rows st
unfolding batches
batches-eq-serve zero listing rows st at h = elim h [ ]
batches-eq-serve (suc fuel) listing [] st at h =
    elim (Bool-cases (leb active_applications_limit st.active_count)) [
      | inl full ↦ rw full (sym (serve_full listing [] st full))
      | inr room ↦ rw (room, at.queue) (sym (serve-nil listing st))
    ]
batches-eq-serve (suc fuel) listing (a ∷ rows) st at h =
    elim (Bool-cases (leb active_applications_limit st.active_count)) [
      | inl full ↦ rw full (sym (serve_full listing (a ∷ rows) st full))
      | inr room ↦
          rw (room, at.queue, suc_ne_zero (length (take 49 rows)))
            (after_batch fuel listing (batches-eq-serve fuel listing) promotion_batch_size
              (a ∷ rows) st at (omega arith) h (omega arith))
    ]
