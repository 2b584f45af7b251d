-- ===== src/Applications/Frame.antt =====
-- The receipts of viewing commands and the listings, which no part of the application lifecycle
-- writes, and the applications, which the closing of viewings leaves alone.
use renyqo_app.Prelude.{
  ℕ, zero, suc, ◌≡◌, refl, sym, ◌∙◌, ◌++◌, ap, Bool, Option, none, some, List, [], ◌∷◌, inl, inr,
  arith, leb, ltb, length, take, ◌==◌, ◌&&◌, Bool-cases, any, Option-cases,
}
use renyqo_app.Domain.{Application, Listing, ActorType, ClosureReason}
use renyqo_app.Applications.Store.{
  Receipt, find_application, Store, ok, >>=-eq-ok, Viewing, Workflow, Proposal, find_listing,
}
use renyqo_app.Applications.Assessments.{record_assessment}
use renyqo_app.Applications.Assessments.Frame.{record_assessment-frame}
use renyqo_app.Applications.Promotion.{
  Progress, Reconciled, active_applications_limit, promotion_batch_size, queue_behind, is_eligible,
  promote, serve, batches, reconcile,
}
use renyqo_app.Applications.Promotion.Batches.{round, ok_inj}
use renyqo_app.Applications.Closing.{
  Options, end_viewing, end_viewings, close, close_read, close_workflow, close_again, is_closed,
  legacy_workflow,
}
use renyqo_app.Applications.Closing.OfListing.{close_each, close_listing}
use renyqo_app.Applications.Lifecycle.{promote_within, withdraw, withdraw_row}
use renyqo_app.Applications.Lifecycle.Expiry.{
  expire, expire_viewing_interest, expire_with, may_expire,
}
use renyqo_app.Applications.Curation.{reject, reject_row, mark_rejected}

-- what a promotion, and what a closing leaves alone
abbrev pub kept : Store → List Receipt × List Listing
kept s = (s.receipts, s.listings)

abbrev pub kept_by_closing : Store → ℕ × List Application × List Receipt × List Listing
kept_by_closing s = (s.now, s.applications, s.receipts, s.listings)

promote-kept :
    (listing : Listing) (a : Application) (st st' : Progress)
    → promote listing a st ≡ ok st'
    → kept st'.store ≡ kept st.store
unfolding promote
promote-kept listing a st st' h =
    let (recorded, first, second) = >>=-eq-ok (record_assessment _ _ _ _ _ _) _ h in
    let frame = record_assessment-frame _ _ _ _ _ _ recorded first in ground (arith, frame, second)

round-kept :
    (listing : Listing) (a : Application) (st st' : Progress)
    → round listing a st ≡ ok st'
    → kept st'.store ≡ kept st.store
round-kept listing a st st' h = elim (Bool-cases (is_eligible listing st.store a)) [
  | inl e ↦ promote-kept listing a (record st { cursor = some a }) st' (rw e at h)
  | inr e ↦ ground (arith, (rw e at h))
]

serve-kept :
    (listing : Listing) (rows : List Application) (st st' : Progress)
    → serve listing rows st ≡ ok st'
    → kept st'.store ≡ kept st.store
unfolding serve
serve-kept listing [] st st' h = ground arith
serve-kept listing (a ∷ rows) st st' h =
    elim (Bool-cases (leb active_applications_limit st.active_count)) [
      | inl full ↦ ground (arith, (rw full at h))
      | inr room ↦
          let (next, went, later) =
            >>=-eq-ok (round listing a st) (serve listing rows) (rw room at h) in
          serve-kept listing rows next st' later ∙ round-kept listing a st next went
    ]

batches-kept :
    (fuel : ℕ) (listing : Listing) (st st' : Progress)
    → batches fuel listing st ≡ ok st'
    → kept st'.store ≡ kept st.store
unfolding batches
batches-kept zero listing st st' h = cc
batches-kept (suc fuel) listing st st' h =
    let batch = take promotion_batch_size (queue_behind listing st.cursor st.store.applications) in
    elim (Bool-cases (leb active_applications_limit st.active_count)) [
      | inl full ↦ ground (arith, (rw full at h))
      | inr room ↦ elim (Bool-cases (length batch == 0)) [
        | inl empty ↦ ground (arith, (rw (room, empty) at h))
        | inr some_left ↦
            let (next, went, later) =
              >>=-eq-ok (serve listing batch st) _ (rw (room, some_left) at h) in
            elim (Bool-cases (ltb (length batch) promotion_batch_size)) [
              | inl short ↦
                  sym (ap (λ (x : Progress). kept x.store) (ok_inj (rw short at later)))
                  ∙ serve-kept listing batch st next went
              | inr full ↦
                  batches-kept fuel listing next st' (rw full at later)
                  ∙ serve-kept listing batch st next went
            ]
      ]
    ]

pub reconcile-kept :
    (listing : Listing) (s : Store) (r : Reconciled)
    → reconcile listing s ≡ ok r
    → kept r.store ≡ kept s
unfolding reconcile
reconcile-kept listing s r h = grind (arith, batches-kept)

pub promote_within-kept :
    (listing : Option Listing) (s t : Store) → promote_within listing s ≡ ok t → kept t ≡ kept s
unfolding promote_within
promote_within-kept none s t h = ground arith
promote_within-kept (some listing) s t h =
    let (r, first, last) = >>=-eq-ok (reconcile listing s) _ h in
    ground (arith, reconcile-kept listing s r first, last)

end_viewings-kept :
    (actor : ActorType) (rows : List Viewing) (s : Store)
    → kept_by_closing (end_viewings actor rows s) ≡ kept_by_closing s
unfolding end_viewings end_viewing
end_viewings-kept actor [] s = refl
end_viewings-kept actor (row ∷ rows) s =
    ground (arith, end_viewings-kept actor rows (end_viewing actor row s))

close_again-kept :
    (w : Workflow) (s : Store) → kept_by_closing (close_again w s) ≡ kept_by_closing s
unfolding close_again
close_again-kept w s = grind arith

module _ (legacy_resolution : Store → ℕ → Proposal → Proposal) where
  close_workflow-kept :
      (a : Application) (w : Workflow) (rows : List Viewing) (reason : ClosureReason)
      (actor : ActorType) (user : Option ℕ) (options : Options) (s : Store)
      → kept_by_closing (close_workflow legacy_resolution a w rows reason actor user options s)
        ≡ kept_by_closing s
  unfolding close_workflow
  close_workflow-kept a w rows reason actor user options s = grind (arith, end_viewings-kept)

  close_read-kept :
      (a : Application) (w : Option Workflow) (rows : List Viewing) (reason : ClosureReason)
      (actor : ActorType) (user : Option ℕ) (options : Options) (s : Store)
      → kept_by_closing (close_read legacy_resolution a w rows reason actor user options s)
        ≡ kept_by_closing s
  unfolding close_read close_again
  close_read-kept a none rows reason actor user options s =
      elim (Bool-cases (any (λ v. v.application_id == a.id) s.viewings)) [
        | inl old ↦ rw old (
            close_workflow-kept a (legacy_workflow a.id s.now) rows reason actor user options
              (record s { workflows = s.workflows ++ legacy_workflow a.id s.now ∷ [] }))
        | inr new ↦ rw new refl
      ]
  close_read-kept a (some w) rows reason actor user options s =
      elim (Bool-cases (is_closed w.state && length rows == 0)) [
        | inl again ↦ rw again (close_again-kept w s)
        | inr first ↦ rw first (close_workflow-kept a w rows reason actor user options s)
      ]

  pub close-kept :
      (id : ℕ) (reason : ClosureReason) (actor : ActorType) (user : Option ℕ) (options : Options)
      (s t : Store)
      → close legacy_resolution id reason actor user options s ≡ ok t
      → kept_by_closing t ≡ kept_by_closing s
  unfolding close
  close-kept id reason actor user options s t h = grind (arith, close_read-kept)

  close_each-kept :
      (rows : List Application) (reason : ClosureReason) (user : ℕ) (selected : Option ℕ)
      (s t : Store)
      → close_each legacy_resolution rows reason user selected s ≡ ok t
      → kept_by_closing t ≡ kept_by_closing s
  unfolding close_each
  close_each-kept [] reason user selected s t h = ground arith
  close_each-kept (a ∷ rows) reason user selected s t h =
      let (next, first, later) = >>=-eq-ok (close legacy_resolution _ _ _ _ _ _) _ h in
      close_each-kept rows reason user selected next t later ∙ close-kept _ _ _ _ _ _ next first

  pub close_listing-kept :
      (id : ℕ) (reason : ClosureReason) (user : ℕ) (selected : Option ℕ) (s t : Store)
      → close_listing legacy_resolution id reason user selected s ≡ ok t
      → kept_by_closing t ≡ kept_by_closing s
  unfolding close_listing
  close_listing-kept id reason user selected s t h = close_each-kept _ reason user selected s t h

  pub withdraw-kept :
      (id user : ℕ) (s t : Store) → withdraw legacy_resolution id user s ≡ ok t → kept t ≡ kept s
  unfolding withdraw withdraw_row
  withdraw-kept id user s t h = grind (arith, close-kept, promote_within-kept)

  pub reject-kept :
      (id user : ℕ) (post : Bool) (s t : Store)
      → reject legacy_resolution id user post s ≡ ok t
      → kept t ≡ kept s
  unfolding reject reject_row mark_rejected
  reject-kept id user post s t h = grind (arith, close-kept, promote_within-kept)

  expire-kept :
      (app : Application) (listing : Listing) (w : Workflow) (appointment now : ℕ) (s t : Store)
      → expire legacy_resolution app listing w appointment now s ≡ ok t
      → kept t ≡ kept s
  unfolding expire
  expire-kept app listing w appointment now s t h =
      let (closed, first, later) = >>=-eq-ok (close legacy_resolution _ _ _ _ _ _) _ h in
      let (r, second, last) = >>=-eq-ok (reconcile listing _) _ later in
      let promoted = reconcile-kept listing _ r second in
      let before = close-kept _ _ _ _ _ _ closed first in grind (arith, promoted, before, last)

  expire_with-kept :
      (app : Application) (listing : Listing) (w : Option Workflow) (appointment revision now : ℕ)
      (s : Store) (b : Bool) (t : Store)
      → expire_with legacy_resolution app listing w appointment revision now s ≡ ok (b, t)
      → kept t ≡ kept s
  expire_with-kept app listing none appointment revision now s b t h = grind arith
  expire_with-kept app listing (some w) appointment revision now s b t h =
      elim (Bool-cases (may_expire app listing w appointment revision now s)) [
        | inr early ↦ grind (arith, (rw early at h))
        | inl due ↦
            let (u, first, last) =
              >>=-eq-ok (expire legacy_resolution app listing w appointment now s) _
                (rw due at h) in
            grind (arith, expire-kept app listing w appointment now s u first, last)
      ]

  pub expire_viewing_interest-kept :
      (id appointment revision now : ℕ) (s : Store) (b : Bool) (t : Store)
      → expire_viewing_interest legacy_resolution id appointment revision now s ≡ ok (b, t)
      → kept t ≡ kept s
  unfolding expire_viewing_interest
  expire_viewing_interest-kept id appointment revision now s b t h =
      elim (Option-cases (find_application id s.applications)) [
        | inl missing ↦ grind (arith, (rw missing at h))
        | inr (app, found) ↦ elim (Option-cases (find_listing app.listing_id s.listings)) [
          | inl unlisted ↦ grind (arith, (rw (found, unlisted) at h))
          | inr (listing, listed) ↦
              expire_with-kept app listing _ appointment revision now s b t
                (rw (found, listed) at h)
        ]
      ]
