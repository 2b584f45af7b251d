-- ===== src/Workflows/Execute/Late/Expiries.antt =====
-- The expiries that `execute` of src/application-viewings/viewing-workflow-command.service.ts commits
-- where a command came too late.
use renyqo_app.Prelude.{
  ℕ, ◌≤◌, ◌≡◌, refl, sym, ap, ◌∙◌, subst, ◌⊎◌, inl, inr, not, ◌||◌, ◌&&◌, ◌++◌, Bool, true, false,
  Option, none, some, List, [], ◌∷◌, ◌==◌, arith, Bool-cases, Option-cases, if◌then◌else◌,
}
use renyqo_app.Domain.{Application, Listing, Reason, InterestState}
use renyqo_app.Applications.Store.{
  Store, ok, >>=-eq-ok, Failure, failed, Workflow, Proposal, Appointment, find_application,
  find_listing,
}
use renyqo_app.Applications.Closing.{find_workflow, is_closed, is_current_mode}
use renyqo_app.Applications.Promotion.Batches.{ok_inj}
use renyqo_app.Applications.Lifecycle.Expiry.{
  expire, expire_with, expire_viewing_interest, may_expire, is_asked, is_due, is_pending_interest,
  find_appointment, latest_completed, is_provider_closed,
}
use renyqo_app.Workflows.Rows.{Loaded, load}
use renyqo_app.Workflows.Expiry.{
  expire_writes, expire_pending, expire_loaded, expire_proposal, expire_completed, expire_asked,
  expire_interest, is_overdue,
}
use renyqo_app.Workflows.Expiry.Laws.{IsDue, is_overdue-IsDue}
use renyqo_app.Workflows.Requests.{
  Request, receipt_row, expire_overdue, new_workflow, insert_workflow,
}

-- The pending proposal of the application was due in `s`, and `t` is `s` with its expiry.
pub record IsLateProposal (application_id : ℕ) (s t : Store) : Type 0 where
  pub workflow : Loaded
  pub proposal : Proposal
  pub loaded : load application_id s ≡ some workflow
  pub waits : workflow.pending_proposal ≡ some proposal
  pub due : IsDue workflow.row proposal s.now
  pub expired : t ≡ expire_writes workflow proposal s

-- the question of an appointment whose deadline has come
pub record IsOverdueQuestion (a : Appointment) (now : ℕ) : Type 0 where
  pub asked : a.interest_state ≡ InterestState.pending
  pub deadline : ℕ
  pub given : a.interest_deadline_at ≡ some deadline
  pub over : deadline ≤ now

abbrev expiry_of : Bool → Store → Store → Bool × Store
expiry_of b x s = if b then (true, x) else (false, s)

-- the branch of an expiry that says that it did something
went_through : (b : Bool) (x s t : Store) → expiry_of b x s ≡ (true, t) → (b ≡ true) × (t ≡ x)
went_through true x s t h = (refl, sym (ap (λ k. k.1) h))
went_through false x s t h = cc (ap (λ k. k.0) h)

expire_pending-late :
    (application_id : ℕ) (w : Loaded) (o : Option Proposal) (id : ℕ) (s t : Store)
    → load application_id s ≡ some w
    → w.pending_proposal ≡ o
    → expire_pending w o id s ≡ (true, t)
    → IsLateProposal application_id s t
expire_pending-late application_id w none id s t loaded waits h = cc (ap (λ x. x.0) h)
expire_pending-late application_id w (some p) id s t loaded waits h =
    let (due, same) = went_through (is_overdue w p id s.now) (expire_writes w p s) s t h in
    record {
      workflow = w;
      proposal = p;
      loaded = loaded;
      waits = waits;
      due = is_overdue-IsDue w p id s.now due;
      expired = same;
    }

expire_loaded-late :
    (application_id : ℕ) (w : Option Loaded) (id : ℕ) (s t : Store)
    → load application_id s ≡ w
    → expire_loaded w id s ≡ (true, t)
    → IsLateProposal application_id s t
expire_loaded-late application_id none id s t loaded h = cc (ap (λ x. x.0) h)
expire_loaded-late application_id (some w) id s t loaded h =
    expire_pending-late application_id w w.pending_proposal id s t loaded refl h

expire_proposal-late :
    (application_id id : ℕ) (s t : Store)
    → expire_proposal application_id id s ≡ (true, t)
    → IsLateProposal application_id s t
unfolding expire_proposal
expire_proposal-late application_id id s t h =
    expire_loaded-late application_id (load application_id s) id s t refl h

pub expire_overdue-late :
    (application_id : ℕ) (w : Loaded) (o : Option Proposal) (s t : Store)
    → w.row.application_id ≡ application_id
    → expire_overdue w o s ≡ (true, t)
    → IsLateProposal application_id s t
expire_overdue-late application_id w none s t own h = cc (ap (λ x. x.0) h)
expire_overdue-late application_id w (some p) s t own h =
    subst (λ (k : ℕ). IsLateProposal k s t) own
      (expire_proposal-late w.row.application_id p.id s t h)

find_workflow-owner :
    (id : ℕ) (rows : List Workflow) (w : Workflow)
    → find_workflow id rows ≡ some w
    → w.application_id ≡ id
unfolding find_workflow
find_workflow-owner id [] w h = cc
find_workflow-owner id (x ∷ rows) w h = elim (Bool-cases (x.application_id == id)) [
  | inl hit ↦ let same : some x ≡ some w = rw hit at h in ground (arith, hit, same)
  | inr miss ↦ find_workflow-owner id rows w (rw miss at h)
]

pub load-owner : (id : ℕ) (s : Store) (w : Loaded) → load id s ≡ some w → w.row.application_id ≡ id
unfolding load
load-owner id s w h = elim (Option-cases (find_workflow id s.workflows)) [
  | inl missing ↦ cc (rw missing at h)
  | inr (row, found) ↦
      find_workflow-owner id s.workflows w.row (found ∙ ap row_option (rw found at h))
]
  where
    row_option : Option Loaded → Option Workflow
    row_option none = none
    row_option (some x) = some x.row

is_due-eq :
    (now : ℕ) (o : Option ℕ)
    → is_due now o ≡ true
    → (deadline : ℕ) × (o ≡ some deadline) × (deadline ≤ now)
is_due-eq now none h = cc
is_due-eq now (some deadline) h = (deadline, refl, ground (arith, h))

is_pending_interest-eq :
    (i : InterestState) → is_pending_interest i ≡ true → i ≡ InterestState.pending
is_pending_interest-eq i h = ground (arith, h)

may_expire-asked :
    (app : Application) (listing : Listing) (w : Workflow) (appointment_id revision : ℕ) (s : Store)
    → may_expire app listing w appointment_id revision s.now s ≡ true
    → is_asked s.now (find_appointment appointment_id (some w) s.appointments) ≡ true
unfolding may_expire
may_expire-asked app listing w appointment_id revision s h = ground (arith, h)

module _ (legacy_resolution : Store → ℕ → Proposal → Proposal) where
  -- The question that the application has not answered was overdue in `s`, and `t` is `s` with the
  -- expiry of it.
  pub record IsLateAnswer (application_id : ℕ) (s t : Store) : Type 0 where
    pub application : Application
    pub listing : Listing
    pub workflow : Workflow
    pub appointment_id : ℕ
    pub appointment : Appointment
    pub applied : find_application application_id s.applications ≡ some application
    pub listed : find_listing application.listing_id s.listings ≡ some listing
    pub current : find_workflow application.id s.workflows ≡ some workflow
    pub joined : find_appointment appointment_id (some workflow) s.appointments ≡ some appointment
    pub overdue : IsOverdueQuestion appointment s.now
    pub expired :
        expire legacy_resolution application listing workflow appointment_id s.now s ≡ ok t

  -- What is committed of a command that came too late, on top of the store `start`: the expiry of what
  -- was overdue, and the receipt of the request, which keeps the failure.
  pub record IsLate (q : Request) (start : Store) (f : Failure) (s' : Store) : Type 0 where
    pub after : Store
    pub late :
        ((f.reason ≡ Reason.proposal_expired) × IsLateProposal q.application_id start after)
        ⊎ ((f.reason ≡ Reason.interest_response_expired)
            × IsLateAnswer q.application_id start after)
    pub saved :
        s' ≡ record after { receipts = after.receipts ++ receipt_row q (failed f) after.now ∷ [] }

  -- the same from the store of the command, to which a first invitation adds its workflow
  abbrev pub IsCommitted : Request → Store → Failure → Store → Type 0
  IsCommitted q s f s' =
      IsLate q s f s' ⊎ IsLate q (insert_workflow (new_workflow q.application_id s) s) f s'

  is_asked-overdue :
      (a : Option Appointment) (now : ℕ)
      → is_asked now a ≡ true
      → (x : Appointment) × (a ≡ some x) × IsOverdueQuestion x now
  is_asked-overdue none now h = cc
  is_asked-overdue (some a) now h =
      let (deadline, given, over) = is_due-eq now a.interest_deadline_at (ground (arith, h)) in
      (
        a,
        refl,
        record {
          asked = is_pending_interest-eq a.interest_state (ground (arith, h));
          deadline = deadline;
          given = given;
          over = over;
        },
      )

  expire_with-late :
      (id : ℕ) (app : Application) (listing : Listing) (w : Option Workflow)
      (appointment_id revision : ℕ) (s : Store) (b : Bool) (t : Store)
      → find_application id s.applications ≡ some app
      → find_listing app.listing_id s.listings ≡ some listing
      → find_workflow app.id s.workflows ≡ w
      → expire_with legacy_resolution app listing w appointment_id revision s.now s ≡ ok (b, t)
      → ((b ≡ false) × (t ≡ s)) ⊎ ((b ≡ true) × IsLateAnswer id s t)
  expire_with-late id app listing none appointment_id revision s b t found listed current h =
      inl (sym (ap (λ x. x.0) (ok_inj h)), sym (ap (λ x. x.1) (ok_inj h)))
  expire_with-late id app listing (some w) appointment_id revision s b t found listed current h =
      elim (Bool-cases (may_expire app listing w appointment_id revision s.now s)) [
        | inr early ↦
            let same : ok (false, s) ≡ ok (b, t) = rw early at h in
            inl (sym (ap (λ x. x.0) (ok_inj same)), sym (ap (λ x. x.1) (ok_inj same)))
        | inl due ↦
            let (u, first, last) =
              >>=-eq-ok (expire legacy_resolution app listing w appointment_id s.now s) _
                (rw due at h) in
            let (a, joined, overdue) =
              is_asked-overdue (find_appointment appointment_id (some w) s.appointments) s.now
                (may_expire-asked app listing w appointment_id revision s due) in
            inr (
              sym (ap (λ x. x.0) (ok_inj last)),
              record {
                application = app;
                listing = listing;
                workflow = w;
                appointment_id = appointment_id;
                appointment = a;
                applied = found;
                listed = listed;
                current = current;
                joined = joined;
                overdue = overdue;
                expired = first ∙ ap (λ x. ok x.1) (ok_inj last);
              },
            )
      ]

  expire_viewing_interest-late :
      (id appointment_id revision : ℕ) (s : Store) (b : Bool) (t : Store)
      → expire_viewing_interest legacy_resolution id appointment_id revision s.now s ≡ ok (b, t)
      → ((b ≡ false) × (t ≡ s)) ⊎ ((b ≡ true) × IsLateAnswer id s t)
  unfolding expire_viewing_interest
  expire_viewing_interest-late id appointment_id revision s b t h =
      elim (Option-cases (find_application id s.applications)) [
        | inl missing ↦ cc (rw missing at h)
        | inr (app, found) ↦ elim (Option-cases (find_listing app.listing_id s.listings)) [
          | inl unlisted ↦ cc (rw (found, unlisted) at h)
          | inr (listing, listed) ↦
              expire_with-late id app listing _ appointment_id revision s b t found listed refl
                (rw (found, listed) at h)
        ]
      ]

  expire_completed-late :
      (id : ℕ) (w : Workflow) (completed : Option ℕ) (s : Store) (b : Bool) (t : Store)
      → expire_completed legacy_resolution id w completed s ≡ ok (b, t)
      → ((b ≡ false) × (t ≡ s)) ⊎ ((b ≡ true) × IsLateAnswer id s t)
  expire_completed-late id w none s b t h =
      inl (sym (ap (λ x. x.0) (ok_inj h)), sym (ap (λ x. x.1) (ok_inj h)))
  expire_completed-late id w (some c) s b t h = expire_viewing_interest-late id c w.revision s b t h

  expire_asked-late :
      (id : ℕ) (w : Option Workflow) (s : Store) (b : Bool) (t : Store)
      → expire_asked legacy_resolution id w s ≡ ok (b, t)
      → ((b ≡ false) × (t ≡ s)) ⊎ ((b ≡ true) × IsLateAnswer id s t)
  expire_asked-late id none s b t h =
      inl (sym (ap (λ x. x.0) (ok_inj h)), sym (ap (λ x. x.1) (ok_inj h)))
  expire_asked-late id (some w) s b t h =
      elim (Bool-cases (
        not (is_current_mode w.mode)
        || (is_closed w.state && not (is_provider_closed w.closure_reason)))) [
          | inl out ↦
              let same : ok (false, s) ≡ ok (b, t) = rw out at h in
              inl (sym (ap (λ x. x.0) (ok_inj same)), sym (ap (λ x. x.1) (ok_inj same)))
          | inr within ↦
              expire_completed-late id w (latest_completed id s.viewings) s b t (rw within at h)
        ]

  pub expire_interest-late :
      (id : ℕ) (s : Store) (b : Bool) (t : Store)
      → expire_interest legacy_resolution id s ≡ ok (b, t)
      → ((b ≡ false) × (t ≡ s)) ⊎ ((b ≡ true) × IsLateAnswer id s t)
  unfolding expire_interest
  expire_interest-late id s b t h = expire_asked-late id (find_workflow id s.workflows) s b t h
