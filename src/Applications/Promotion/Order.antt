-- ===== src/Applications/Promotion/Order.antt =====
-- The order of the queue (src/applications/application-waiting-promotion.service.ts).
use renyqo_app.Prelude.{sym, ◌≡◌, ◌≢◌, ◌||◌, true, false, List, [], ◌∷◌, arith, All}
use renyqo_app.Prelude.Sort.{IsStrictOrder, AreComparable, All-map}
use renyqo_app.Domain.{Application}
use renyqo_app.Applications.Promotion.{comes_before}

pub comes_before-IsStrictOrder : IsStrictOrder comes_before
unfolding comes_before
comes_before-IsStrictOrder = record {
  trans = λ a b c h k. ground arith;
  asym = λ a b h. ground arith;
}

-- `id` is the primary key of the table.
abbrev pub HasUniqueIds : List Application → Type 0
HasUniqueIds [] = Unit
HasUniqueIds (a ∷ rows) = All (λ b. a.id ≢ b.id) rows × HasUniqueIds rows

comparable : (a b : Application) → a.id ≢ b.id → (comes_before a b || comes_before b a) ≡ true
unfolding comes_before
comparable a b h = ground arith

pub HasUniqueIds-AreComparable :
    (rows : List Application) → HasUniqueIds rows → AreComparable comes_before rows
HasUniqueIds-AreComparable [] h = tt
HasUniqueIds-AreComparable (a ∷ rows) (h, u) =
    (All-map (λ b. comparable a b) rows h, HasUniqueIds-AreComparable rows u)

-- An application with the id of `x` does not come behind `x`.
abbrev pub IsNotBehind : Application → Application → Type 0
IsNotBehind x a = a.id ≡ x.id → comes_before x a ≡ false

IsNotBehind-self : (a : Application) → IsNotBehind a a
unfolding comes_before
IsNotBehind-self a e = ground arith

join :
    (a : Application) (P : Application → Application → Type 0) (rows : List Application)
    → All (λ x. P x a) rows
    → All (λ x. All (P x) rows) rows
    → All (λ x. P x a × All (P x) rows) rows
join a P rows h k = zip rows h k
  where
    zip :
        (xs : List Application)
        → All (λ x. P x a) xs
        → All (λ x. All (P x) rows) xs
        → All (λ x. P x a × All (P x) rows) xs
    zip [] h k = tt
    zip (x ∷ xs) (p, h) (q, k) = ((p, q), zip xs h k)

pub unique-IsNotBehind :
    (rows : List Application) → HasUniqueIds rows → All (λ x. All (IsNotBehind x) rows) rows
unique-IsNotBehind [] h = tt
unique-IsNotBehind (a ∷ rows) (h, u) = (
  (IsNotBehind-self a, All-map (λ b n e. absurd (n (sym e))) rows h),
  join a IsNotBehind rows (All-map (λ x n e. absurd (n e)) rows h) (unique-IsNotBehind rows u),
)
