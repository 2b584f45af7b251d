-- ===== src/Applications/Admission/Laws.antt =====
-- When `evaluate` lets an applicant apply, and what the time that it announces means.
use renyqo_app.Prelude.{
  ℕ, ◌+◌, ◌≤◌, ◌<◌, ◌≡◌, ◌≢◌, ◌↔◌, refl, Bool, true, false, Option, none, some, List, [], ◌∷◌, ◌||◌,
  arith, is_some, any, find, All, Any, ltb, lt→ltb, ◌⊎◌, inl, inr, is_none, if◌then◌else◌, ◌&&◌,
}
use renyqo_app.Domain.{
  ListingStatus, active, waiting, accepted, rejected, published, listing_rented, not_selected,
  is_accepted, is_rejected, is_listing_rented,
}
use renyqo_app.Applications.Admission.{
  AdmissionHistory, application_reapplication_cooldown, reapplication_cooldown_ms, rejection_of,
  later, is_unknown_rejection, scan, is_current, expiry_of, is_before, block_reason, evaluate,
}

-- The cooldown of a rejection, if there was one, is over.
abbrev pub IsCooled : ℕ → Option ℕ → Type 0
IsCooled as_of none = Unit
IsCooled as_of (some r) = r + reapplication_cooldown_ms ≤ as_of

-- A new application may follow this one.
abbrev pub Permits : ℕ → AdmissionHistory → Type 0
Permits as_of row =
    (row.status ≢ active)
    × (row.status ≢ waiting)
    × (row.status ≢ accepted)
    × (row.status ≡ rejected → row.public_reason ≢ some listing_rented)
    × (row.status ≡ rejected → row.public_reason ≢ none)
    × (row.status ≡ rejected → row.public_reason ≡ some not_selected → rejection_of row ≢ none)
    × IsCooled as_of (rejection_of row)

IsCooled-iff :
    (as_of : ℕ) (o : Option ℕ) → (is_before as_of (expiry_of o) ≡ false) ↔ IsCooled as_of o
IsCooled-iff as_of none = ground arith
IsCooled-iff as_of (some r) = ground arith

IsCooled-later :
    (as_of : ℕ) (a b : Option ℕ)
    → IsCooled as_of (later a b) ↔ (IsCooled as_of a × IsCooled as_of b)
unfolding later
IsCooled-later as_of a none = ground arith
IsCooled-later as_of none (some r) = ground arith
IsCooled-later as_of (some l) (some r) = ground arith

IsCooled-scan :
    (as_of : ℕ) (latest : Option ℕ) (unsure : Bool) (rows : List AdmissionHistory)
    → IsCooled as_of (scan latest unsure rows).0
      ↔ (IsCooled as_of latest × All (λ row. IsCooled as_of (rejection_of row)) rows)
unfolding scan
IsCooled-scan as_of latest unsure [] = ground arith
IsCooled-scan as_of latest unsure (row ∷ rows) =
    let next = if is_unknown_rejection row then true else unsure in
    let (to, from) = IsCooled-scan as_of (later latest (rejection_of row)) next rows in
    let (split, join) = IsCooled-later as_of latest (rejection_of row) in
    (
      λ h. ((split (to h).0).0, ((split (to h).0).1, (to h).1)),
      λ h. from (join (h.0, h.1.0), h.1.1),
    )

unsure-scan :
    (latest : Option ℕ) (unsure : Bool) (rows : List AdmissionHistory)
    → (scan latest unsure rows).1 ≡ (unsure || any is_unknown_rejection rows)
unfolding scan
unsure-scan latest unsure [] = ground arith
unsure-scan latest unsure (row ∷ rows) = ground (
  arith,
  unsure-scan (later latest (rejection_of row)) (if is_unknown_rejection row then true else unsure)
      rows,
)

find-any : (rows : List AdmissionHistory) → is_some (find is_current rows) ≡ any is_current rows
find-any [] = refl
find-any (row ∷ rows) = ground (arith, find-any rows)

-- What in a row stops a new application at any time.
bars : AdmissionHistory → Bool
bars row =
    is_current row
    || (is_accepted row.status
        || ((is_rejected row.status && is_listing_rented row.public_reason)
            || is_unknown_rejection row))

any-bars :
    (rows : List AdmissionHistory)
    → any bars rows ≡ (
        any is_current rows
        || (any (λ row. is_accepted row.status) rows
            || (any (λ row. is_rejected row.status && is_listing_rented row.public_reason) rows
                || any is_unknown_rejection rows)))
unfolding bars
any-bars [] = refl
any-bars (row ∷ rows) = ground (arith, any-bars rows)

Permits-iff :
    (as_of : ℕ) (row : AdmissionHistory)
    → ((bars row ≡ false) × IsCooled as_of (rejection_of row)) ↔ Permits as_of row
unfolding bars is_unknown_rejection
Permits-iff as_of row = ground arith

All-Permits_iff :
    (as_of : ℕ) (rows : List AdmissionHistory)
    → ((any bars rows ≡ false) × All (λ row. IsCooled as_of (rejection_of row)) rows)
      ↔ All (Permits as_of) rows
All-Permits_iff as_of [] = ground arith
All-Permits_iff as_of (row ∷ rows) =
    let (to, from) = All-Permits_iff as_of rows in
    let (to_row, from_row) = Permits-iff as_of row in
    (
      λ h. (to_row (ground arith, h.1.0), to (ground arith, h.1.1)),
      λ h. let (b, c) = from_row h.0 in let (bs, cs) = from h.1 in (ground arith, (c, cs)),
    )

ladder_iff :
    (rows : List AdmissionHistory) (status : ListingStatus) (eligible cooldown : Bool)
    → (is_none (
          block_reason rows
            (find is_current rows)
            status
            eligible
            (any is_unknown_rejection rows)
            cooldown)
        ≡ true)
      ↔ ((status ≡ published) × (any bars rows ≡ false) × (cooldown ≡ false) × (eligible ≡ true))
unfolding block_reason
ladder_iff rows status eligible cooldown = ground (arith, any-bars rows, find-any rows)

-- An application may be submitted exactly when the listing is published, the applicant is eligible,
-- and every earlier application permits it: none is active, waiting or accepted, none was rejected
-- because the listing was rented or for a reason or at a time that is not known, and the cooldown of
-- every rejection by the provider is over.
pub can_submit_iff :
    (history : List AdmissionHistory) (status : ListingStatus) (eligible : Bool) (as_of : ℕ)
    → ((evaluate history status eligible as_of).can_submit_application ≡ true)
      ↔ ((status ≡ published) × (eligible ≡ true) × All (Permits as_of) history)
unfolding evaluate
can_submit_iff history status eligible as_of =
    let (latest, _) = scan none false history in
    let same = unsure-scan none false history in
    let (to, from) =
      ladder_iff history status eligible
        (is_before as_of (expiry_of (scan none false history).0)) in
    let cooled = IsCooled-iff as_of (scan none false history).0 in
    let each = IsCooled-scan as_of none false history in
    let permits = All-Permits_iff as_of history in
    (
      λ h. let (p, b, c, e) = to (rw same at h) in (p, e, permits.0 (b, (each.0 (cooled.0 c)).1)),
      λ h. let (b, cs) = permits.1 h.2 in rw same (from (h.0, b, cooled.1 (each.1 (tt, cs)), h.1)),
    )

later_source : (a b : Option ℕ) (r : ℕ) → later a b ≡ some r → (a ≡ some r) ⊎ (b ≡ some r)
unfolding later
later_source a none r h = inl h
later_source none (some s) r h = inr h
later_source (some l) (some s) r h = ground arith

scan_source :
    (latest : Option ℕ) (unsure : Bool) (rows : List AdmissionHistory) (r : ℕ)
    → (scan latest unsure rows).0 ≡ some r
    → (latest ≡ some r) ⊎ Any (λ row. rejection_of row ≡ some r) rows
unfolding scan
scan_source latest unsure [] r h = inl h
scan_source latest unsure (row ∷ rows) r h =
    elim (scan_source (later latest (rejection_of row))
      (if is_unknown_rejection row then true else unsure) rows r h) [
        | inl e ↦ elim (later_source latest (rejection_of row) r e) [
          | inl p ↦ inl p
          | inr p ↦ inr (inl p)
        ]
        | inr a ↦ inr (inr a)
      ]

cooldown_reason :
    (history : List AdmissionHistory) (current : Option AdmissionHistory) (status : ListingStatus)
    (eligible unsure : Bool)
    → block_reason history current status eligible unsure false
      ≢ some application_reapplication_cooldown
unfolding block_reason
cooldown_reason history current status eligible unsure = ground arith

expiry_of_iff :
    (o : Option ℕ) (t : ℕ)
    → expiry_of o ≡ some t
    → (r : ℕ) × (o ≡ some r) × (t ≡ r + reapplication_cooldown_ms)
expiry_of_iff none t h = cc
expiry_of_iff (some r) t h = (r, refl, ground arith)

announced :
    (as_of t : ℕ) (o : Option ℕ)
    → (if is_before as_of (expiry_of o) then expiry_of o else none) ≡ some t
    → (as_of < t) × (expiry_of o ≡ some t)
announced as_of t none h = cc
announced as_of t (some r) h = ground arith

le→ltb : (s t : ℕ) → t ≤ s → ltb s t ≡ false
le→ltb s t h = ground arith

-- Where a time is announced for the next application, it lies ahead, it is the end of the cooldown
-- of some rejection in the history, every evaluation of the same history before it announces the same
-- time, and from then on no evaluation names the cooldown as its reason.
pub reapply_available_at_lem :
    (history : List AdmissionHistory) (status : ListingStatus) (eligible : Bool) (as_of t : ℕ)
    → (evaluate history status eligible as_of).reapply_available_at ≡ some t
    → (as_of < t)
      × ((r : ℕ) × (t ≡ r + reapplication_cooldown_ms)
          × Any (λ row. rejection_of row ≡ some r) history)
      × ((s : ℕ) → s < t → (evaluate history status eligible s).reapply_available_at ≡ some t)
      × ((s : ℕ)
          → t ≤ s
          → (evaluate history status eligible s).submission_block_reason
            ≢ some application_reapplication_cooldown)
unfolding evaluate
reapply_available_at_lem history status eligible as_of t h =
    let o = (scan none false history).0 in
    let (ahead, e) = announced as_of t o h in
    let (r, found, sum) = expiry_of_iff o t e in
    (
      ahead,
      (r, sum, from_rows r (scan_source none false history r found)),
      λ s before. rw e (rw (lt→ltb s t before) refl),
      λ s after. rw e (rw (le→ltb s t after) (cooldown_reason history _ status eligible _)),
    )
  where
    from_rows :
        (r : ℕ)
        → (none ≡ some r) ⊎ Any (λ row. rejection_of row ≡ some r) history
        → Any (λ row. rejection_of row ≡ some r) history
    from_rows r (inl p) = cc
    from_rows r (inr a) = a
