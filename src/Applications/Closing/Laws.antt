-- ===== src/Applications/Closing/Laws.antt =====
-- What a closure leaves of an application's viewings.
use renyqo_app.Prelude.{
  ℕ, ◌++◌, ◌≡◌, refl, sym, ap, ◌∙◌, subst, true, false, ◌&&◌, Option, none, some, List, [], ◌∷◌,
  ◌==◌, any, All, arith, if◌then◌else◌, Bool-cases, and-cases, Option-cases, inl, inr, length,
}
use renyqo_app.Prelude.Sort.{All-map, All-Has, any-filter}
use renyqo_app.Domain.{Application, ActorType, ClosureReason, outcome_pending, cancelled}
use renyqo_app.Applications.Store.{
  Store, ok, Viewing, Workflow, Proposal, update_where, find_application,
}
use renyqo_app.Applications.Closing.{
  is_open_offer, is_closed, live_viewings, has_started, end_viewing, end_viewings, Options,
  resolve_current, resolve_legacy, close_again, close_workflow, close_read, close, legacy_workflow,
  find_workflow,
}
use renyqo_app.Applications.Promotion.Batches.{ok_inj}

module _ (application_id : ℕ) where
  -- A live viewing of the application is among `rows`.
  abbrev IsLeft : List Viewing → Viewing → Type 0
  IsLeft rows v =
      (v.application_id == application_id && is_open_offer v.status) ≡ true
      → any (λ r. r.id == v.id) rows ≡ true

  -- a viewing after the round of `row`
  abbrev ended : ℕ → Viewing → Viewing → Viewing
  ended now row v =
      if has_started row now
      then record v { status = outcome_pending }
      else record v { status = cancelled; cancelled_at = some now }

  IsLeft-row :
      (now : ℕ) (row : Viewing) (rows : List Viewing) (v : Viewing)
      → IsLeft (row ∷ rows) v
      → IsLeft rows (if v.id == row.id then ended now row v else v)
  IsLeft-row now row rows v h = elim (Bool-cases (v.id == row.id)) [
    | inl same ↦ rw same (λ live. ground (arith, live))
    | inr other ↦ rw other (λ live. ground (arith, h live))
  ]

  IsLeft-step :
      (now : ℕ) (row : Viewing) (rows vs : List Viewing)
      → All (IsLeft (row ∷ rows)) vs
      → All (IsLeft rows) (update_where (λ v. v.id == row.id) (ended now row) vs)
  unfolding update_where
  IsLeft-step now row rows [] h = tt
  IsLeft-step now row rows (v ∷ vs) (h, hs) =
      (IsLeft-row now row rows v h, IsLeft-step now row rows vs hs)

  end_viewing-viewings :
      (actor : ActorType) (row : Viewing) (s : Store)
      → ((end_viewing actor row s).viewings
          ≡ update_where (λ v. v.id == row.id) (ended s.now row) s.viewings)
        × ((end_viewing actor row s).now ≡ s.now)
  unfolding end_viewing
  end_viewing-viewings actor row s = ground arith

  IsLeft-end_viewings :
      (actor : ActorType) (rows : List Viewing) (s : Store)
      → All (IsLeft rows) s.viewings
      → All (IsLeft []) (end_viewings actor rows s).viewings
  unfolding end_viewings
  IsLeft-end_viewings actor [] s h = h
  IsLeft-end_viewings actor (row ∷ rows) s h =
      IsLeft-end_viewings actor rows (end_viewing actor row s) (
        subst (All (IsLeft rows)) (sym (end_viewing-viewings actor row s).0)
          (IsLeft-step s.now row rows s.viewings h))

  All-IsLeft : (vs : List Viewing) → All (IsLeft (live_viewings application_id vs)) vs
  unfolding live_viewings
  All-IsLeft vs =
      All-map
        (λ v has live.
          any-filter (λ w. w.application_id == application_id && is_open_offer w.status)
            (λ r. r.id == v.id) vs
          ∙ has _ (ground (arith, live)))
        vs (All-Has vs)

  none_live : (vs : List Viewing) → All (IsLeft []) vs → live_viewings application_id vs ≡ []
  unfolding live_viewings
  none_live [] h = refl
  none_live (v ∷ vs) (h, hs) = ground (arith, h, none_live vs hs)

  none_there :
      (vs : List Viewing)
      → any (λ v. v.application_id == application_id) vs ≡ false
      → live_viewings application_id vs ≡ []
  unfolding live_viewings
  none_there [] h = refl
  none_there (v ∷ vs) h = ground (arith, none_there vs)

find_application-id :
    (id : ℕ) (rows : List Application) (a : Application)
    → find_application id rows ≡ some a
    → a.id ≡ id
unfolding find_application
find_application-id id [] a h = cc
find_application-id id (b ∷ rows) a h = elim (Bool-cases (b.id == id)) [
  | inl here ↦ ground (arith, rw here at h)
  | inr there ↦ find_application-id id rows a (rw there at h)
]

no_viewing : (vs : List Viewing) → (length vs == 0) ≡ true → vs ≡ []
no_viewing [] h = refl
no_viewing (v ∷ vs) h = ground arith

module _ (legacy_resolution : Store → ℕ → Proposal → Proposal) where
  resolve_current-viewings :
      (w : Workflow) (actor : ActorType) (s : Store)
      → (resolve_current legacy_resolution w actor s).viewings ≡ s.viewings
  resolve_current-viewings w actor s = ground arith

  resolve_legacy-viewings :
      (w : Workflow) (s : Store) → (resolve_legacy legacy_resolution w s).viewings ≡ s.viewings
  resolve_legacy-viewings w s = ground arith

  close_workflow-live_viewings :
      (a : Application) (w : Workflow) (reason : ClosureReason) (actor : ActorType)
      (user : Option ℕ) (options : Options) (s : Store)
      → live_viewings a.id
          (close_workflow legacy_resolution a w
            (live_viewings a.id s.viewings)
            reason
            actor
            user
            options
            s).viewings
        ≡ []
  unfolding close_workflow
  close_workflow-live_viewings a w reason actor user options s =
      let rows = live_viewings a.id s.viewings in
      let first = resolve_current legacy_resolution w actor s in
      ap (live_viewings a.id) (resolve_legacy-viewings w (end_viewings actor rows first))
      ∙ none_live a.id (end_viewings actor rows first).viewings (
          IsLeft-end_viewings a.id actor rows first (
            subst (All (IsLeft a.id rows)) (sym (resolve_current-viewings w actor s))
              (All-IsLeft a.id s.viewings)))

  close_again-viewings : (w : Workflow) (s : Store) → (close_again w s).viewings ≡ s.viewings
  unfolding close_again
  close_again-viewings w s = ground arith

  close_read-live_viewings :
      (a : Application) (w : Option Workflow) (reason : ClosureReason) (actor : ActorType)
      (user : Option ℕ) (options : Options) (s : Store)
      → live_viewings a.id
          (close_read legacy_resolution a w
            (live_viewings a.id s.viewings)
            reason
            actor
            user
            options
            s).viewings
        ≡ []
  unfolding close_read
  close_read-live_viewings a (some w) reason actor user options s =
      let rows = live_viewings a.id s.viewings in
      elim (Bool-cases (is_closed w.state && length rows == 0)) [
        | inl over ↦ rw over (
            ap (live_viewings a.id) (close_again-viewings w s)
            ∙ no_viewing rows (and-cases (is_closed w.state) (length rows == 0) over).1)
        | inr going ↦ rw going (close_workflow-live_viewings a w reason actor user options s)
      ]
  close_read-live_viewings a none reason actor user options s =
      elim (Bool-cases (any (λ v. v.application_id == a.id) s.viewings)) [
        | inl some_there ↦ rw some_there (
            close_workflow-live_viewings a (legacy_workflow a.id s.now) reason actor user options
              (record s { workflows = s.workflows ++ legacy_workflow a.id s.now ∷ [] }))
        | inr gone ↦ rw gone (none_there a.id s.viewings gone)
      ]

  -- A closure that returns leaves the application no viewing that is proposed or accepted, whatever
  -- the state and the mode of its workflow, and whether it has one.
  pub close-live_viewings :
      (application_id : ℕ) (reason : ClosureReason) (actor : ActorType) (user : Option ℕ)
      (options : Options) (s s' : Store)
      → close legacy_resolution application_id reason actor user options s ≡ ok s'
      → live_viewings application_id s'.viewings ≡ []
  unfolding close
  close-live_viewings application_id reason actor user options s s' h =
      elim (Option-cases (find_application application_id s.applications)) [
        | inl missing ↦ cc (rw missing at h)
        | inr (a, found) ↦
            let left =
              close_read-live_viewings a (find_workflow a.id s.workflows) reason actor user options
                s in
            subst (λ n. live_viewings n s'.viewings ≡ [])
              (find_application-id application_id s.applications a found)
              (subst (λ t. live_viewings a.id t.viewings ≡ []) (ok_inj (rw found at h)) left)
      ]
