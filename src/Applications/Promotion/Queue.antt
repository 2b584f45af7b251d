-- ===== src/Applications/Promotion/Queue.antt =====
-- The queue behind the cursor (src/applications/application-waiting-promotion.service.ts).
use renyqo_app.Prelude.{
  if◌then◌else◌, ℕ, Bool, true, ◌≢◌, ◌≡◌, refl, sym, ap, ◌∙◌, subst, Option, none, some, List, [],
  ◌∷◌, ◌&&◌, ◌==◌, arith, filter, order_by, All,
}
use renyqo_app.Prelude.Sort.{
  All-filter, All-order_by, order_by-filter, order_by-IsStrict, filter-above_head, IsStrict,
  AreComparable,
}
use renyqo_app.Domain.{Application, Listing}
use renyqo_app.Applications.Store.{update_where}
use renyqo_app.Applications.Promotion.{comes_before, is_past, is_queued, queue_behind, activated}
use renyqo_app.Applications.Promotion.Order.{
  comes_before-IsStrictOrder, HasUniqueIds, HasUniqueIds-AreComparable, IsNotBehind,
  unique-IsNotBehind,
}

pub All-filter_self :
    (p : Application → Bool) (rows : List Application) → All (λ a. p a ≡ true) (filter p rows)
All-filter_self p [] = tt
All-filter_self p (a ∷ rows) = ground (arith, All-filter_self p rows)

filter-filter :
    (p q r : Application → Bool) (rows : List Application)
    → ((a : Application) → r a ≡ (q a && p a))
    → filter r rows ≡ filter p (filter q rows)
filter-filter p q r [] h = refl
filter-filter p q r (a ∷ rows) h = ground (arith, h a, filter-filter p q r rows h)

HasUniqueIds-filter :
    (p : Application → Bool) (rows : List Application)
    → HasUniqueIds rows
    → HasUniqueIds (filter p rows)
HasUniqueIds-filter p [] u = tt
HasUniqueIds-filter p (a ∷ rows) (h, u) =
    ground (arith, HasUniqueIds-filter p rows u, All-filter _ p rows h)

past_trans :
    (cursor : Option Application) (x a : Application)
    → is_past cursor x ≡ true
    → comes_before x a ≡ true
    → is_past cursor a ≡ true
past_trans none x a h k = refl
past_trans (some c) x a h k = comes_before-IsStrictOrder.trans c x a h k

filter-activated :
    (listing : Listing) (x : Application) (now : ℕ) (rows : List Application)
    → All (IsNotBehind x) rows
    → filter
        (λ a. is_queued listing a && is_past (some x) a)
        (update_where (λ a. a.id == x.id) (activated now) rows)
      ≡ filter (λ a. is_queued listing a && is_past (some x) a) rows
unfolding update_where
filter-activated listing x now [] h = refl
filter-activated listing x now (a ∷ rows) (h, hs) =
    ground (arith, h, filter-activated listing x now rows hs)

-- A change that keeps every id keeps the ids unique.
module _ (p : Application → Bool) (f : Application → Application)
    (kept : (a : Application) → (f a).id ≡ a.id) where
  id_kept : (a : Application) → (if p a then f a else a).id ≡ a.id
  id_kept a = ground (arith, kept a)

  others :
      (k : ℕ) (rows : List Application)
      → All (λ b. k ≢ b.id) rows
      → All (λ b. k ≢ b.id) (update_where p f rows)
  unfolding update_where
  others k [] h = tt
  others k (b ∷ rows) (n, h) = ((λ e. n (e ∙ id_kept b)), others k rows h)

  pub HasUniqueIds-update_where :
      (rows : List Application) → HasUniqueIds rows → HasUniqueIds (update_where p f rows)
  unfolding update_where
  HasUniqueIds-update_where [] u = tt
  HasUniqueIds-update_where (a ∷ rows) (h, u) = (
    subst (λ k. All (λ b. k ≢ b.id) (update_where p f rows)) (sym (id_kept a)) (others a.id rows h),
    HasUniqueIds-update_where rows u,
  )

module _ (listing : Listing) (cursor : Option Application) (rows : List Application) where
  module _ (x : Application) (rest : List Application) (unique : HasUniqueIds rows)
      (shown : queue_behind listing cursor rows ≡ x ∷ rest) where
    -- What holds of every row behind the cursor holds of the first one.
    pub head_holds :
        (P : Application → Type 0)
        → All P (filter (λ a. is_queued listing a && is_past cursor a) rows)
        → P x
    unfolding queue_behind
    head_holds P h = (subst (All P) shown (All-order_by comes_before P _ h)).0

    head_past : is_past cursor x ≡ true
    head_past =
        (ground (
          arith,
          head_holds (λ a. (is_queued listing a && is_past cursor a) ≡ true)
              (All-filter_self _ rows),
        ))

    queue_narrows :
        (a : Application)
        → (is_queued listing a && is_past (some x) a)
          ≡ ((is_queued listing a && is_past cursor a) && comes_before x a)
    queue_narrows a = ground (arith, past_trans cursor x a head_past)

    comparable_rows :
        AreComparable comes_before (filter (λ a. is_queued listing a && is_past cursor a) rows)
    comparable_rows = HasUniqueIds-AreComparable _ (HasUniqueIds-filter _ rows unique)

    -- The queue behind its first application is its rest.
    pub queue_behind_head : queue_behind listing (some x) rows ≡ rest
    unfolding queue_behind
    queue_behind_head =
        ap (order_by comes_before) (filter-filter (comes_before x) _ _ rows queue_narrows)
        ∙ order_by-filter comes_before-IsStrictOrder (comes_before x) _ comparable_rows
        ∙ ap (filter (comes_before x)) shown
        ∙ filter-above_head comes_before-IsStrictOrder x rest (
            subst (IsStrict comes_before) shown
              (order_by-IsStrict comes_before-IsStrictOrder _ comparable_rows))

    -- It stays so when the row of that application is changed to active.
    pub queue_behind-activated :
        (now : ℕ)
        → queue_behind listing (some x) (update_where (λ a. a.id == x.id) (activated now) rows)
          ≡ rest
    unfolding queue_behind
    queue_behind-activated now =
        ap (order_by comes_before) (
          filter-activated listing x now rows (
            head_holds (λ y. All (IsNotBehind y) rows)
              (All-filter _ _ rows (unique-IsNotBehind rows unique))))
        ∙ queue_behind_head
