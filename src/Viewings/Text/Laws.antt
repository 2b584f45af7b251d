-- ===== src/Viewings/Text/Laws.antt =====
-- Which texts are accepted, and as what (src/application-viewings/application-viewing.policy.ts).
use renyqo_app.Prelude.{
  ℕ, ◌≤◌, ◌≡◌, refl, sym, ap, ◌∙◌, subst, ◌↔◌, true, false, not, ◌||◌, some, [], ◌∷◌, ◌++◌, ltb,
  length, All, Bool-cases, inl, inr, arith,
}
use renyqo_app.Viewings.Text.{
  Text, is_space, is_refused, trim_start, trim_end, keep, is_plain, plain, accepted_text, text,
}

abbrev AllSpace : Text → Type 0
AllSpace cs = All (λ c. is_space c ≡ true) cs

-- the text does not start with space
abbrev StartsPlain : Text → Type 0
StartsPlain [] = Unit
StartsPlain (c ∷ cs) = is_space c ≡ false

-- the text does not end with space
abbrev EndsPlain : Text → Type 0
EndsPlain [] = Unit
EndsPlain (c ∷ []) = is_space c ≡ false
EndsPlain (c ∷ d ∷ cs) = EndsPlain (d ∷ cs)

-- `t` is what is left of `value` without the space around it: between 1 and 500 code units, none of
-- them refused.
pub record IsRead (value t : Text) : Type 0 where
  before : Text
  after : Text
  split : value ≡ before ++ (t ++ after)
  around : AllSpace before × AllSpace after
  trimmed : StartsPlain t × EndsPlain t
  size : (1 ≤ length t) × (length t ≤ 500)
  allowed : All (λ c. is_refused c ≡ false) t

trim_start-split : (t : Text) → (before : Text) × (t ≡ before ++ trim_start t) × AllSpace before
unfolding trim_start
trim_start-split [] = ([], refl, tt)
trim_start-split (c ∷ cs) = elim (Bool-cases (is_space c)) [
  | inl space ↦
      let (before, split, blank) = trim_start-split cs in
      rw space (c ∷ before, ap (λ xs. c ∷ xs) split, (space, blank))
  | inr other ↦ rw other ([], refl, tt)
]

trim_start-StartsPlain : (t : Text) → StartsPlain (trim_start t)
unfolding trim_start
trim_start-StartsPlain [] = tt
trim_start-StartsPlain (c ∷ cs) = elim (Bool-cases (is_space c)) [
  | inl space ↦ rw space (trim_start-StartsPlain cs)
  | inr other ↦ rw other other
]

keep-split :
    (c : ℕ) (rest after : Text)
    → AllSpace after
    → (left : Text) × (c ∷ (rest ++ after) ≡ keep c rest ++ left) × AllSpace left
keep-split c [] after blank = elim (Bool-cases (is_space c)) [
  | inl space ↦ rw space (c ∷ after, refl, (space, blank))
  | inr other ↦ rw other (after, refl, blank)
]
keep-split c (d ∷ rest) after blank = (after, refl, blank)

trim_end-split : (t : Text) → (after : Text) × (t ≡ trim_end t ++ after) × AllSpace after
unfolding trim_end
trim_end-split [] = ([], refl, tt)
trim_end-split (c ∷ cs) =
    let (after, split, blank) = trim_end-split cs in
    let (left, more, blank') = keep-split c (trim_end cs) after blank in
    (left, ap (λ xs. c ∷ xs) split ∙ more, blank')

keep-EndsPlain : (c : ℕ) (rest : Text) → EndsPlain rest → EndsPlain (keep c rest)
keep-EndsPlain c [] h = elim (Bool-cases (is_space c)) [
  | inl space ↦ rw space tt
  | inr other ↦ rw other other
]
keep-EndsPlain c (d ∷ rest) h = h

trim_end-EndsPlain : (t : Text) → EndsPlain (trim_end t)
unfolding trim_end
trim_end-EndsPlain [] = tt
trim_end-EndsPlain (c ∷ cs) = keep-EndsPlain c (trim_end cs) (trim_end-EndsPlain cs)

keep-nonspace : (c : ℕ) (rest : Text) → is_space c ≡ false → keep c rest ≡ c ∷ rest
keep-nonspace c [] h = rw h refl
keep-nonspace c (x ∷ xs) h = refl

trim_end-StartsPlain : (t : Text) → StartsPlain t → StartsPlain (trim_end t)
unfolding trim_end
trim_end-StartsPlain [] h = tt
trim_end-StartsPlain (c ∷ cs) h = subst StartsPlain (sym (keep-nonspace c (trim_end cs) h)) h

is_plain-All : (t : Text) → is_plain t ≡ true → All (λ c. is_refused c ≡ false) t
unfolding is_plain
is_plain-All [] h = tt
is_plain-All (c ∷ cs) h = (ground (arith, h), is_plain-All cs (ground (arith, h)))

All-is_plain : (t : Text) → All (λ c. is_refused c ≡ false) t → is_plain t ≡ true
unfolding is_plain
All-is_plain [] h = refl
All-is_plain (c ∷ cs) (h, hs) = ground (arith, h, All-is_plain cs hs)

accepted_text-eq :
    (w t : Text)
    → accepted_text w ≡ plain t
    → (w ≡ t) × ((1 ≤ length w) × (length w ≤ 500)) × All (λ c. is_refused c ≡ false) w
accepted_text-eq [] t h = cc
accepted_text-eq (c ∷ cs) t h =
    elim (Bool-cases (ltb 500 (length (c ∷ cs)) || not (is_plain (c ∷ cs)))) [
      | inl refused ↦ cc (rw refused at h)
      | inr fine ↦
          let same : plain (c ∷ cs) ≡ plain t = rw fine at h in
          (
            cc same,
            (omega arith, ground (arith, fine)),
            is_plain-All (c ∷ cs) (ground (arith, fine)),
          )
    ]

text-IsRead : (value t : Text) → text (some value) ≡ plain t → IsRead value t
unfolding text
text-IsRead value t h =
    let x = trim_start value in
    let (same, size, allowed) = accepted_text-eq (trim_end x) t h in
    let (before, split, blank) = trim_start-split value in
    let (after, split', blank') = trim_end-split x in
    subst (IsRead value) same (record {
      before = before;
      after = after;
      split = split ∙ ap (λ xs. before ++ xs) split';
      around = (blank, blank');
      trimmed = (trim_end-StartsPlain x (trim_start-StartsPlain value), trim_end-EndsPlain x);
      size = size;
      allowed = allowed;
    })

trim_start-append : (before t : Text) → AllSpace before → trim_start (before ++ t) ≡ trim_start t
unfolding trim_start
trim_start-append [] t h = refl
trim_start-append (c ∷ cs) t (h, hs) = rw h (trim_start-append cs t hs)

trim_start-kept : (t : Text) → StartsPlain t → trim_start t ≡ t
unfolding trim_start
trim_start-kept [] h = refl
trim_start-kept (c ∷ cs) h = rw h refl

trim_end-AllSpace : (t : Text) → AllSpace t → trim_end t ≡ []
unfolding trim_end
trim_end-AllSpace [] h = refl
trim_end-AllSpace (c ∷ cs) (h, hs) = rw (trim_end-AllSpace cs hs, h) refl

trim_end-append : (t after : Text) → EndsPlain t → AllSpace after → trim_end (t ++ after) ≡ t
unfolding trim_end
trim_end-append [] after h blank = trim_end-AllSpace after blank
trim_end-append (c ∷ []) after h blank = rw (trim_end-AllSpace after blank, h) refl
trim_end-append (c ∷ d ∷ cs) after h blank = ap (keep c) (trim_end-append (d ∷ cs) after h blank)

accepted_text-plain :
    (t : Text) → (1 ≤ length t) × (length t ≤ 500) → is_plain t ≡ true → accepted_text t ≡ plain t
accepted_text-plain [] size h = let bad : ⊥ = omega (arith, size.0) in elim bad [ ]
accepted_text-plain (c ∷ cs) size h =
    let short : ltb 500 (length (c ∷ cs)) ≡ false = ground (arith, size.1) in rw (short, h) refl

IsRead-text : (value t : Text) → IsRead value t → text (some value) ≡ plain t
unfolding text
IsRead-text value [] r = let bad : ⊥ = omega (arith, r.size.0) in elim bad [ ]
IsRead-text value (c ∷ cs) r =
    let t = c ∷ cs in
    let kept : trim_start (t ++ r.after) ≡ t ++ r.after =
      trim_start-kept (t ++ r.after) r.trimmed.0 in
    let left : trim_end (trim_start value) ≡ t =
      ap (λ x. trim_end (trim_start x)) r.split
      ∙ (ap trim_end (trim_start-append r.before (t ++ r.after) r.around.0 ∙ kept)
          ∙ trim_end-append t r.after r.trimmed.1 r.around.1) in
    ap accepted_text left ∙ accepted_text-plain t r.size (All-is_plain t r.allowed)

-- A text is accepted as `t` exactly if `t` is what is left of it without the space at both ends, and
-- has between 1 and 500 code units, none of which is a control character other than CR, LF and tab or
-- an angle bracket.
pub text_iff : (value t : Text) → (text (some value) ≡ plain t) ↔ IsRead value t
text_iff value t = (text-IsRead value t, IsRead-text value t)
