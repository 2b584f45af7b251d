-- ===== src/Listings/Status/Changed.antt =====
-- The handlers of src/listings/listings.service.ts that change the status of a listing, as steps of the
-- state machine.
use renyqo_app.Prelude.{
  ℕ, ◌≡◌, refl, sym, ◌∙◌, ap, subst, ◌⊎◌, inl, inr, Bool, true, false, not, ◌&&◌, ◌||◌, Option,
  none, some, List, [], ◌∷◌, ◌==◌, any, filter, length, arith, if◌then◌else◌, Bool-cases,
  Option-cases,
}
use renyqo_app.Domain.{ListingStatus, draft, Listing, is_draft, is_published, is_archived}
use renyqo_app.Applications.Store.{Store, Error, Result, ok, err, >>=-eq-ok, guard-eq-ok, Proposal}
use renyqo_app.Applications.Frame.{close_listing-kept, promote_within-kept}
use renyqo_app.Listings.Status.{
  is_status, ListingStatusWrite, written, is_unchanged, find_one_by_provider, closure_of, close_for,
  reconcile_for, after_update, commit_listing_status, transition_listing, publish, move_to_draft,
  pause, resume, archive, missing, publication,
}
use renyqo_app.Listings.Status.Machine.{
  Change, change, IsStep, IsMoved, IsChanged, row-IsMoved, may_publish, may_unpublish, may_pause,
  may_resume, may_archive, AllPairs-update_where, AnyPair-update_where, publishing, unpublishing,
  pausing, resuming, archiving,
}

-- For a publication: the listing that was read lacked no required field.
abbrev pub WasComplete : Change → ℕ → ℕ → Store → Type 0
WasComplete publishing id provider_id before =
    (l : Listing) × (find_one_by_provider id provider_id before.listings ≡ some l)
    × (missing l ≡ [])
WasComplete _ id provider_id before = Unit

find_one_by_provider-id :
    (id provider_id : ℕ) (rows : List Listing) (l : Listing)
    → find_one_by_provider id provider_id rows ≡ some l
    → l.id ≡ id
unfolding find_one_by_provider
find_one_by_provider-id id provider_id [] l h = cc
find_one_by_provider-id id provider_id (x ∷ rows) l h =
    elim (Bool-cases (x.id == id && x.provider_id == provider_id)) [
      | inl hit ↦ ground (arith, hit, (rw hit at h))
      | inr miss ↦ find_one_by_provider-id id provider_id rows l (rw miss at h)
    ]

publication_date :
    (l : Listing) (now : ℕ)
    → ((publication l now).published_at ≡ none) ⊎ ((publication l now).published_at ≡ some now)
publication_date l now = elim (Option-cases l.published_at) [
  | inl new ↦ inr (rw new refl)
  | inr (at, old) ↦ inl (rw old refl)
]

length-eq_zero {ℓ} : {A : Type ℓ} (xs : List A) → length xs ≡ 0 → xs ≡ []
length-eq_zero [] h = refl
length-eq_zero (x ∷ xs) h = let bad : ⊥ = ground (arith, h) in elim bad [ ]

-- Inversion of a guard whose failing branch throws either way.
throws-eq-ok :
    (b c : Bool) (e e' : Error) (m : Result Store) {t : Store}
    → (if b then (if c then err e else err e') else m) ≡ ok t
    → (b ≡ false) × (m ≡ ok t)
throws-eq-ok true true e e' m h = cc
throws-eq-ok true false e e' m h = cc
throws-eq-ok false c e e' m h = (refl, h)

module _ (legacy_resolution : Store → ℕ → Proposal → Proposal) where
  close_for-listings :
      (status : ListingStatus) (id provider_id : ℕ) (s t : Store)
      → close_for legacy_resolution status id provider_id s ≡ ok t
      → t.listings ≡ s.listings
  close_for-listings status id provider_id s t h =
      elim (Bool-cases (is_archived status || is_draft status)) [
        | inl ends ↦
            ap (λ k. k.3)
              (close_listing-kept legacy_resolution id (closure_of status) provider_id none s t
                (rw ends at h))
        | inr stays ↦ ground (arith, (rw stays at h))
      ]

  reconcile_for-listings :
      (status : ListingStatus) (result : Option Listing) (s t : Store)
      → reconcile_for legacy_resolution status result s ≡ ok t
      → t.listings ≡ s.listings
  reconcile_for-listings status none s t h = cc
  reconcile_for-listings status (some l) s t h = elim (Bool-cases (is_published status)) [
    | inl public ↦ ap (λ k. k.1) (promote_within-kept (some l) s t (rw public at h))
    | inr hidden ↦ ground (arith, (rw hidden at h))
  ]

  after_update-listings :
      (listing : Listing) (provider_id : ℕ) (status : ListingStatus) (s t : Store)
      → after_update legacy_resolution listing provider_id status s ≡ ok t
      → t.listings ≡ s.listings
  after_update-listings listing provider_id status s t h =
      let (closed, first, later) = >>=-eq-ok (close_for legacy_resolution _ _ _ _) _ h in
      reconcile_for-listings status _ closed t later
      ∙ close_for-listings status listing.id provider_id s closed first

  -- a commit, once the status that was read permits the step
  commit-IsChanged :
      (c : Change) (listing : Listing) (id provider_id read_at : ℕ) (allowed : List ListingStatus)
      (data_ : ListingStatusWrite) (s t : Store)
      → listing.id ≡ id
      → (any (is_status listing.status) allowed ≡ true → IsStep c listing.status data_.status)
      → (data_.published_at ≡ none) ⊎ (data_.published_at ≡ some read_at)
      → commit_listing_status legacy_resolution listing provider_id allowed data_ s ≡ ok t
      → IsChanged c id provider_id read_at s.listings t.listings
  unfolding commit_listing_status
  commit-IsChanged c listing id provider_id read_at allowed data_ s t same step date h =
      let test : Listing → Bool = is_unchanged listing provider_id data_ in
      let (permitted, h2) = guard-eq-ok (not (any (is_status listing.status) allowed)) _ _ h in
      let (one, h3) = throws-eq-ok (not (length (filter test s.listings) == 1)) _ _ _ _ h2 in
      let moved =
        row-IsMoved c listing id provider_id read_at data_ same (step (ground (arith, permitted)))
          date in
      subst (IsChanged c id provider_id read_at s.listings)
        (sym (after_update-listings listing provider_id data_.status _ t h3))
        (
          AllPairs-update_where (IsMoved c id provider_id read_at) test (written data_) moved
              s.listings,
          AnyPair-update_where (IsMoved c id provider_id read_at) test (written data_) moved
              s.listings one,
        )

  transition-IsChanged :
      (c : Change) (id provider_id : ℕ) (allowed : List ListingStatus) (data_ : ListingStatusWrite)
      (before s t : Store)
      → ((a : ListingStatus) → any (is_status a) allowed ≡ true → IsStep c a data_.status)
      → data_.published_at ≡ none
      → transition_listing legacy_resolution id provider_id allowed data_ before s ≡ ok t
      → IsChanged c id provider_id before.now s.listings t.listings
  unfolding transition_listing
  transition-IsChanged c id provider_id allowed data_ before s t step undated h =
      elim (Option-cases (find_one_by_provider id provider_id before.listings)) [
        | inl unknown ↦ let bad : ⊥ = ground (arith, (rw unknown at h)) in elim bad [ ]
        | inr (l, found) ↦
            commit-IsChanged c l id provider_id before.now allowed data_ s t
              (find_one_by_provider-id id provider_id before.listings l found) (step l.status)
              (inl undated) (rw found at h)
      ]

  publish-IsChanged :
      (id provider_id : ℕ) (before s t : Store)
      → publish legacy_resolution id provider_id before s ≡ ok t
      → IsChanged publishing id provider_id before.now s.listings t.listings
        × WasComplete publishing id provider_id before
  unfolding publish
  publish-IsChanged id provider_id before s t h =
      elim (Option-cases (find_one_by_provider id provider_id before.listings)) [
        | inl unknown ↦ let bad : ⊥ = ground (arith, (rw unknown at h)) in elim bad [ ]
        | inr (l, found) ↦
            let (drafted, h2) = guard-eq-ok (not (is_draft l.status)) _ _ (rw found at h) in
            let (complete, h3) = guard-eq-ok (not (length (missing l) == 0)) _ _ h2 in
            (
              commit-IsChanged publishing l id provider_id before.now (draft ∷ [])
                  (publication l before.now) s t
                  (find_one_by_provider-id id provider_id before.listings l found)
                  (may_publish l.status) (publication_date l before.now) h3,
              (l, found, length-eq_zero (missing l) (ground (arith, complete))),
            )
      ]

  -- A change of status that returned has moved a listing of the provider by a step of the machine
  -- and left every other row alone; whatever happened between the reading and the transaction, the
  -- step starts from the status that the row has in the transaction. A listing that was published
  -- had every required field when it was read.
  pub change-IsChanged :
      (c : Change) (id provider_id : ℕ) (before s t : Store)
      → change legacy_resolution c id provider_id before s ≡ ok t
      → IsChanged c id provider_id before.now s.listings t.listings
        × WasComplete c id provider_id before
  unfolding move_to_draft pause resume archive
  change-IsChanged publishing id provider_id before s t h =
      publish-IsChanged id provider_id before s t h
  change-IsChanged unpublishing id provider_id before s t h =
      (transition-IsChanged _ id provider_id _ _ before s t may_unpublish refl h, tt)
  change-IsChanged pausing id provider_id before s t h =
      (transition-IsChanged _ id provider_id _ _ before s t may_pause refl h, tt)
  change-IsChanged resuming id provider_id before s t h =
      (transition-IsChanged _ id provider_id _ _ before s t may_resume refl h, tt)
  change-IsChanged archiving id provider_id before s t h =
      (transition-IsChanged _ id provider_id _ _ before s t may_archive refl h, tt)
