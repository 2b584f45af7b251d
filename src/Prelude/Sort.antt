-- ===== src/Prelude/Sort.antt =====
-- `orderBy`: insertion by a strict order, and how it goes with a filter.
use Prim.Native.Nat.{suc, ◌≤◌}
use mathlib.Core.Path.{◌≡◌, refl, ap, ◌∙◌}
use mathlib.Core.Bool.{Bool, true, false, ◌||◌, ◌&&◌}
use mathlib.Core.List.{List, [], ◌∷◌}
use mathlib.Core.Logic.{inl, inr}
use native.Mathlib.Omega.{arith}
use renyqo_app.Prelude.Tests.{if◌then◌else◌, Bool-cases}
use renyqo_app.Prelude.Lists.{filter, All, length, any}

module _ {A : Type 0} (lt : A → A → Bool) where
  unfoldable pub insert : A → List A → List A
  insert x [] = x ∷ []
  insert x (y ∷ ys) = let rest = insert x ys in if lt y x then y ∷ rest else x ∷ y ∷ ys

  unfoldable pub order_by : List A → List A
  unfolding insert
  order_by [] = []
  order_by (x ∷ xs) = insert x (order_by xs)

  -- Each element is below all that follow.
  abbrev pub IsStrict : List A → Type 0
  IsStrict [] = Unit
  IsStrict (x ∷ xs) = All (λ y. lt x y ≡ true) xs × IsStrict xs

  -- Any two elements are comparable.
  abbrev pub AreComparable : List A → Type 0
  AreComparable [] = Unit
  AreComparable (x ∷ xs) = All (λ y. (lt x y || lt y x) ≡ true) xs × AreComparable xs

  pub All-insert : (P : A → Type 0) (x : A) (ys : List A) → P x → All P ys → All P (insert x ys)
  unfolding insert
  All-insert P x [] p h = (p, tt)
  All-insert P x (y ∷ ys) p (q, h) = elim (Bool-cases (lt y x)) [
    | inl e ↦ rw e (q, All-insert P x ys p h)
    | inr e ↦ rw e (p, (q, h))
  ]

  pub All-order_by : (P : A → Type 0) (xs : List A) → All P xs → All P (order_by xs)
  unfolding order_by
  All-order_by P [] h = tt
  All-order_by P (x ∷ xs) (p, h) = All-insert P x (order_by xs) p (All-order_by P xs h)

  pub record IsStrictOrder : Type 0 where
    pub trans : (a b c : A) → lt a b ≡ true → lt b c ≡ true → lt a c ≡ true
    pub asym : (a b : A) → lt a b ≡ true → lt b a ≡ false

module _ {A : Type 0} where
  pub All-map : {P Q : A → Type 0} (f : (x : A) → P x → Q x) (xs : List A) → All P xs → All Q xs
  All-map f [] h = tt
  All-map f (x ∷ xs) (p, h) = (f x p, All-map f xs h)

  pub All-filter : (P : A → Type 0) (p : A → Bool) (xs : List A) → All P xs → All P (filter p xs)
  All-filter P p [] h = tt
  All-filter P p (x ∷ xs) (q, h) = ground (arith, All-filter P p xs h)

  pub filter-All : (p : A → Bool) (xs : List A) → All (λ x. p x ≡ true) xs → filter p xs ≡ xs
  filter-All p [] h = refl
  filter-All p (x ∷ xs) (e, h) = ground (arith, filter-All p xs h)

module _ {A : Type 0} {lt : A → A → Bool} (order : IsStrictOrder lt) where
  insert-IsStrict :
      (x : A) (ys : List A)
      → IsStrict lt ys
      → All (λ y. (lt x y || lt y x) ≡ true) ys
      → IsStrict lt (insert lt x ys)
  unfolding insert
  insert-IsStrict x [] h c = (tt, tt)
  insert-IsStrict x (y ∷ ys) (h, s) (c, cs) = elim (Bool-cases (lt y x)) [
    | inl e ↦ rw e (All-insert lt (λ z. lt y z ≡ true) x ys e h, insert-IsStrict x ys s cs)
    | inr e ↦
        let below : lt x y ≡ true = ground arith in
        rw e ((below, All-map (λ z q. order.trans x y z below q) ys h), (h, s))
  ]

  pub order_by-IsStrict : (xs : List A) → AreComparable lt xs → IsStrict lt (order_by lt xs)
  unfolding order_by
  order_by-IsStrict [] c = tt
  order_by-IsStrict (x ∷ xs) (c, cs) =
      insert-IsStrict x (order_by lt xs) (order_by-IsStrict xs cs) (All-order_by lt _ xs c)

  insert-least : (x : A) (ys : List A) → All (λ y. lt y x ≡ false) ys → insert lt x ys ≡ x ∷ ys
  unfolding insert
  insert-least x [] h = refl
  insert-least x (y ∷ ys) (e, h) = rw e refl

  filter-insert :
      (p : A → Bool) (x : A) (ys : List A)
      → IsStrict lt ys
      → All (λ y. (lt x y || lt y x) ≡ true) ys
      → filter p (insert lt x ys) ≡ (if p x then insert lt x (filter p ys) else filter p ys)
  unfolding insert
  filter-insert p x [] h c = ground arith
  filter-insert p x (y ∷ ys) (h, s) (c, cs) = elim (Bool-cases (lt y x)) [
    | inl e ↦ rw e (ground (arith, filter-insert p x ys s cs))
    | inr e ↦
        let below : lt x y ≡ true = ground arith in
        let least : All (λ z. lt z x ≡ false) (y ∷ ys) =
          (e, All-map (λ z q. order.asym x z (order.trans x y z below q)) ys h) in
        rw e (ground (arith, insert-least x (filter p (y ∷ ys)) (All-filter _ p (y ∷ ys) least)))
  ]

  pub order_by-filter :
      (p : A → Bool) (xs : List A)
      → AreComparable lt xs
      → order_by lt (filter p xs) ≡ filter p (order_by lt xs)
  unfolding order_by
  order_by-filter p [] c = refl
  order_by-filter p (x ∷ xs) (c, cs) = ground (
    arith,
    order_by-filter p xs cs,
    filter-insert p x (order_by lt xs) (order_by-IsStrict xs cs) (All-order_by lt _ xs c),
  )

  -- Behind the first element of a strict list comes the rest.
  pub filter-above_head : (x : A) (ys : List A) → IsStrict lt (x ∷ ys) → filter (lt x) (x ∷ ys) ≡ ys
  filter-above_head x ys (h, s) = ground (arith, order.asym x x, filter-All (lt x) ys h)

module _ {A : Type 0} where
  length-insert :
      (lt : A → A → Bool) (x : A) (ys : List A) → length (insert lt x ys) ≡ suc (length ys)
  unfolding insert
  length-insert lt x [] = refl
  length-insert lt x (y ∷ ys) = ground (arith, length-insert lt x ys)

  pub length-order_by : (lt : A → A → Bool) (xs : List A) → length (order_by lt xs) ≡ length xs
  unfolding order_by
  length-order_by lt [] = refl
  length-order_by lt (x ∷ xs) = length-insert lt x (order_by lt xs) ∙ ap suc (length-order_by lt xs)

  pub length-filter : (p : A → Bool) (xs : List A) → length (filter p xs) ≤ length xs
  length-filter p [] = omega arith
  length-filter p (x ∷ xs) = ground (arith, length-filter p xs)

  any-insert :
      (lt : A → A → Bool) (p : A → Bool) (x : A) (ys : List A)
      → any p (insert lt x ys) ≡ (p x || any p ys)
  unfolding insert
  any-insert lt p x [] = refl
  any-insert lt p x (y ∷ ys) = ground (arith, any-insert lt p x ys)

  pub any-order_by :
      (lt : A → A → Bool) (p : A → Bool) (xs : List A) → any p (order_by lt xs) ≡ any p xs
  unfolding order_by
  any-order_by lt p [] = refl
  any-order_by lt p (x ∷ xs) =
      any-insert lt p x (order_by lt xs) ∙ ap (λ b. p x || b) (any-order_by lt p xs)

  pub any-filter : (q p : A → Bool) (xs : List A) → any p (filter q xs) ≡ any (λ x. q x && p x) xs
  any-filter q p [] = refl
  any-filter q p (x ∷ xs) = ground (arith, any-filter q p xs)

  -- `x` is among `xs`, as any test sees it.
  abbrev pub Has : List A → A → Type 0
  Has xs x = (p : A → Bool) → p x ≡ true → any p xs ≡ true

  Has-cons : (y x : A) (xs : List A) → Has xs x → Has (y ∷ xs) x
  Has-cons y x xs h p e = ground (arith, h p e)

  Has-head : (x : A) (xs : List A) → Has (x ∷ xs) x
  Has-head x xs p e = ground arith

  pub All-Has : (xs : List A) → All (Has xs) xs
  All-Has [] = tt
  All-Has (x ∷ xs) = (Has-head x xs, All-map (λ y h. Has-cons x y xs h) xs (All-Has xs))
