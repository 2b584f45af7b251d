-- ===== src/Applications/Promotion/Spec.antt =====
-- What a reconciliation does (src/applications/application-waiting-promotion.service.ts), told without
-- its loops.
use renyqo_app.Prelude.{
  ◌<◌, ◌&&◌, ℕ, zero, suc, ◌+◌, ◌-◌, true, false, ◌≡◌, refl, sym, ap, ◌∙◌, subst, fun_ext, inl, inr,
  none, some, List, [], ◌∷◌, ◌==◌, leb, arith, length, take, filter, Bool-cases, if◌then◌else◌,
}
use renyqo_app.Prelude.Sort.{length-order_by, length-filter}
use renyqo_app.Domain.{Application, Listing, is_published}
use renyqo_app.Applications.Store.{Store, ok, >>=-eq-ok, update_where}
use renyqo_app.Applications.Promotion.{
  Progress, Reconciled, active_applications_limit, queue_behind, activated, count_active,
  is_eligible, promote, serve, reconcile, start, finish, batches, comes_before, is_past, is_queued,
  unchanged,
}
use renyqo_app.Applications.Promotion.Order.{HasUniqueIds}
use renyqo_app.Applications.Promotion.Batches.{
  HasPromoted, promote-HasPromoted, round, batches-eq-serve, ok_inj,
}

-- The rows after each of `chosen` became active at `now`.
unfoldable pub activate_all : ℕ → List Application → List Application → List Application
activate_all now [] rows = rows
activate_all now (a ∷ chosen) rows =
    activate_all now chosen (update_where (λ b. b.id == a.id) (activated now) rows)

-- The applications that get the free places of a listing.
abbrev pub chosen_from : Listing → Store → ℕ → List Application → List Application
chosen_from listing s places rows = take places (filter (is_eligible listing s) rows)

is_eligible-frame :
    (listing : Listing) (s t : Store)
    → t.profiles ≡ s.profiles
    → t.now ≡ s.now
    → is_eligible listing t ≡ is_eligible listing s
unfolding is_eligible
is_eligible-frame listing s t p n = fun_ext λ a. rw (p, n) refl

pub record HasServed (chosen : List Application) (st st' : Progress) : Type 0 where
  pub applications : st'.store.applications ≡ activate_all st.store.now chosen st.store.applications
  pub active_count : st'.active_count ≡ st.active_count + length chosen
  pub promoted_count : st'.promoted_count ≡ st.promoted_count + length chosen

nothing_served : (st : Progress) → HasServed [] st st
unfolding activate_all
nothing_served st = record {
  applications = refl;
  active_count = omega arith;
  promoted_count = omega arith;
}

one_served :
    (a : Application) (chosen : List Application) (st next st' : Progress)
    → HasPromoted a (record st { cursor = some a }) next
    → HasServed chosen next st'
    → HasServed (a ∷ chosen) st st'
unfolding activate_all
one_served a chosen st next st' p h = record {
  applications = h.applications ∙ rw (p.now, p.applications) refl;
  active_count = omega (arith, p.active_count, h.active_count);
  promoted_count = omega (arith, p.promoted_count, h.promoted_count);
}

take-nil : (n : ℕ) → take {A = Application} n [] ≡ []
take-nil zero = refl
take-nil (suc n) = refl

pub round_fits :
    (listing : Listing) (a : Application) (st next : Progress)
    → is_eligible listing st.store a ≡ true
    → round listing a st ≡ ok next
    → promote listing a (record st { cursor = some a }) ≡ ok next
round_fits listing a st next fits h = ground arith

pub round_skips :
    (listing : Listing) (a : Application) (st next : Progress)
    → is_eligible listing st.store a ≡ false
    → round listing a st ≡ ok next
    → record st { cursor = some a } ≡ next
round_skips listing a st next not_fit h = ground arith

serve-HasServed :
    (n : ℕ) (listing : Listing) (rows : List Application) (st st' : Progress)
    → active_applications_limit - st.active_count ≡ n
    → serve listing rows st ≡ ok st'
    → HasServed (chosen_from listing st.store n rows) st st'
unfolding serve
serve-HasServed n listing [] st st' e h =
    rw (take-nil n) (subst (HasServed [] st) (ok_inj h) (nothing_served st))
serve-HasServed zero listing (a ∷ rows) st st' e h =
    let full : leb active_applications_limit st.active_count ≡ true = ground arith in
    subst (HasServed [] st) (ok_inj (rw full at h)) (nothing_served st)
serve-HasServed (suc n) listing (a ∷ rows) st st' e h =
    let room : leb active_applications_limit st.active_count ≡ false = ground arith in
    let (next, went, later) = >>=-eq-ok (round listing a st) (serve listing rows) (rw room at h) in
    elim (Bool-cases (is_eligible listing st.store a)) [
      | inl fits ↦
          let done =
            promote-HasPromoted listing a (record st { cursor = some a }) next
              (round_fits listing a st next fits went) in
          let same = is_eligible-frame listing st.store next.store done.profiles done.now in
          let rest =
            serve-HasServed n listing rows next st' (omega (arith, done.active_count)) later in
          rw fits (
            one_served a _ st next st' done
              (subst (λ f. HasServed (take n (filter f rows)) next st') same rest))
      | inr not_fit ↦
          let seen : Progress = record st { cursor = some a } in
          let same : seen ≡ next = round_skips listing a st next not_fit went in
          let rest =
            serve-HasServed (suc n) listing rows seen st' e
              (subst (λ t. serve listing rows t ≡ ok st') (sym same) later) in
          rw not_fit (record {
            applications = rest.applications;
            active_count = rest.active_count;
            promoted_count = rest.promoted_count;
          })
    ]

-- The applications that a reconciliation promotes, in the order of the queue.
abbrev pub admitted : Listing → Store → List Application
admitted listing s =
    if is_published listing.status
    then chosen_from listing s (active_applications_limit - count_active listing.id s.applications)
        (queue_behind listing none s.applications)
    else []

pub queue-length :
    (listing : Listing) (rows : List Application)
    → length (queue_behind listing none rows) < suc (length rows)
unfolding queue_behind
queue-length listing rows = omega (
  arith,
  length-order_by comes_before (filter (λ a. is_queued listing a && is_past none a) rows),
  length-filter (λ a. is_queued listing a && is_past none a) rows,
)

-- What `reconcile_lem` says of a result, for the applications that it chose.
record HasReconciled (listing : Listing) (chosen : List Application) (s : Store) (r : Reconciled)
    : Type 0 where
  applications : r.store.applications ≡ activate_all s.now chosen s.applications
  promoted : r.promoted_count ≡ length chosen
  remaining : r.remaining_capacity ≡ (
      if is_published listing.status
      then active_applications_limit - (count_active listing.id s.applications + length chosen)
      else 0)

from_unchanged :
    (listing : Listing) (s : Store) (r : Reconciled)
    → unchanged s ≡ r
    → (if is_published listing.status
        then active_applications_limit - (count_active listing.id s.applications + 0)
        else 0)
      ≡ 0
    → HasReconciled listing [] s r
unfolding activate_all
from_unchanged listing s r e z =
    subst (HasReconciled listing [] s) e
      (record { applications = refl; promoted = refl; remaining = sym z })

from_served :
    (listing : Listing) (s : Store) (st : Progress)
    → is_published listing.status ≡ true
    → HasUniqueIds s.applications
    → batches (suc (length s.applications)) listing (start listing s) ≡ ok st
    → HasReconciled listing (admitted listing s) s (finish st)
from_served listing s st shown unique went =
    let places = active_applications_limit - count_active listing.id s.applications in
    let queue = queue_behind listing none s.applications in
    let served = serve-HasServed places listing queue (start listing s) st refl (
      sym (
        batches-eq-serve (suc (length s.applications)) listing queue (start listing s)
          (record { unique = unique; queue = refl }) (queue-length listing s.applications))
      ∙ went) in
    rw shown (record {
      applications = served.applications;
      promoted = served.promoted_count ∙ omega arith;
      remaining = rw shown (ap (λ n. active_applications_limit - n) served.active_count);
    })

reconcile-HasReconciled :
    (listing : Listing) (s : Store) (r : Reconciled)
    → HasUniqueIds s.applications
    → reconcile listing s ≡ ok r
    → HasReconciled listing (admitted listing s) s r
unfolding reconcile
reconcile-HasReconciled listing s r unique h = elim (Bool-cases (is_published listing.status)) [
  | inr shut ↦ rw shut (from_unchanged listing s r (ok_inj (rw shut at h)) (rw shut refl))
  | inl shown ↦
      elim (Bool-cases (leb active_applications_limit (count_active listing.id s.applications))) [
        | inl full ↦
            let none_left : active_applications_limit - count_active listing.id s.applications ≡ 0 =
              ground arith in
            rw (shown, none_left)
              (from_unchanged listing s r (ok_inj (rw (shown, full) at h))
                (rw shown (ground arith)))
        | inr room ↦
            let (st, went, done) =
              >>=-eq-ok (batches (suc (length s.applications)) listing (start listing s))
                (λ st. ok (finish st)) (rw (shown, room) at h) in
            subst (HasReconciled listing (admitted listing s) s) (ok_inj done)
              (from_served listing s st shown unique went)
      ]
]

-- A reconciliation that returns has made active, at its time, exactly the first eligible applications
-- in the order of the queue, as many as the listing has free places, and none where the listing is
-- not published; it counts them, and reports the places that are left, or 0 where it found the
-- listing full or not published.
pub reconcile_lem :
    (listing : Listing) (s : Store) (r : Reconciled)
    → HasUniqueIds s.applications
    → reconcile listing s ≡ ok r
    → (r.store.applications ≡ activate_all s.now (admitted listing s) s.applications)
      × (r.promoted_count ≡ length (admitted listing s))
      × (r.remaining_capacity ≡ (
          if is_published listing.status
          then active_applications_limit
            - (count_active listing.id s.applications + length (admitted listing s))
          else 0))
reconcile_lem listing s r unique h =
    let done = reconcile-HasReconciled listing s r unique h in
    (done.applications, done.promoted, done.remaining)
