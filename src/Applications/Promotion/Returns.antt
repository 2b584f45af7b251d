-- ===== src/Applications/Promotion/Returns.antt =====
-- When a reconciliation throws (src/applications/application-waiting-promotion.service.ts).
use renyqo_app.Prelude.{
  suc, ◌≡◌, refl, sym, ap, ◌∙◌, subst, none, some, List, [], ◌∷◌, length, leb, Bool-cases, inl, inr,
}
use renyqo_app.Domain.{Application, Listing, is_published, promotion}
use renyqo_app.Applications.Store.{
  Store, Result, ok, ◌>>=◌, CriteriaRevision, update_application, find_profile,
}
use renyqo_app.Applications.Assessments.Returns.{IsInSync, record_assessment_ok}
use renyqo_app.Applications.Promotion.{
  Progress, Reconciled, active_applications_limit, queue_behind, activated, count_active,
  is_eligible, promote, serve, reconcile, start, finish, unchanged,
}
use renyqo_app.Applications.Promotion.Order.{HasUniqueIds}
use renyqo_app.Applications.Promotion.Batches.{round, batches-eq-serve}
use renyqo_app.Applications.Promotion.Spec.{queue-length}

-- A step that returns and keeps the revisions.
record Proceeds (m : Result Progress) (st : Progress) : Type 0 where
  after : Progress
  returns : m ≡ ok after
  revisions : after.store.revisions ≡ st.store.revisions

module _ (listing : Listing) (r : CriteriaRevision) where
  promote_ok :
      (a : Application) (st : Progress)
      → IsInSync listing r st.store.revisions
      → Proceeds (promote listing a st) st
  unfolding promote
  promote_ok a st sync =
      let updated = update_application a.id (activated st.store.now) st.store in
      let profile = find_profile a.applicant_id st.store.profiles in
      let recorded = record_assessment_ok a.id listing r profile promotion none updated sync in
      rw recorded.returns (record { after = _; returns = refl; revisions = recorded.revisions })

  round_ok :
      (a : Application) (st : Progress)
      → IsInSync listing r st.store.revisions
      → Proceeds (round listing a st) st
  round_ok a st sync = elim (Bool-cases (is_eligible listing st.store a)) [
    | inl fits ↦
        let done = promote_ok a (record st { cursor = some a }) sync in
        rw fits (record { after = done.after; returns = done.returns; revisions = done.revisions })
    | inr unfit ↦ rw unfit (record { after = _; returns = refl; revisions = refl })
  ]

  serve_ok :
      (rows : List Application) (st : Progress)
      → IsInSync listing r st.store.revisions
      → Proceeds (serve listing rows st) st
  unfolding serve
  serve_ok [] st sync = record { after = st; returns = refl; revisions = refl }
  serve_ok (a ∷ rows) st sync = elim (Bool-cases (leb active_applications_limit st.active_count)) [
    | inl full ↦ rw full (record { after = st; returns = refl; revisions = refl })
    | inr room ↦
        let next = round_ok a st sync in
        let rest =
          serve_ok rows next.after (subst (IsInSync listing r) (sym next.revisions) sync) in
        rw room (record {
          after = rest.after;
          returns = ap (λ m. m >>= serve listing rows) next.returns ∙ rest.returns;
          revisions = rest.revisions ∙ next.revisions;
        })
  ]

-- Where the criteria of the listing are those of its last revision, a reconciliation returns: no row
-- and no batch makes it throw, and its fuel is enough.
pub reconcile_returns :
    (listing : Listing) (r : CriteriaRevision) (s : Store)
    → HasUniqueIds s.applications
    → IsInSync listing r s.revisions
    → (after : Reconciled) × (reconcile listing s ≡ ok after)
unfolding reconcile
reconcile_returns listing r s unique sync = elim (Bool-cases (is_published listing.status)) [
  | inr shut ↦ (unchanged s, rw shut refl)
  | inl shown ↦
      elim (Bool-cases (leb active_applications_limit (count_active listing.id s.applications))) [
        | inl full ↦ (unchanged s, rw (shown, full) refl)
        | inr room ↦
            let queue = queue_behind listing none s.applications in
            let served = serve_ok listing r queue (start listing s) sync in
            let same =
              batches-eq-serve (suc (length s.applications)) listing queue (start listing s)
                (record { unique = unique; queue = refl }) (queue-length listing s.applications) in
            (
              finish served.after,
              rw (shown, room) (ap (λ m. m >>= λ st. ok (finish st)) (same ∙ served.returns)),
            )
      ]
]
