-- ===== src/Workflows/Expiry/Laws.antt =====
-- The expiry of a proposal, once and for all
-- (src/application-viewings/viewing-workflow-expiry.service.ts).
use renyqo_app.Prelude.{
  ℕ, ◌+◌, ◌≤◌, ◌≡◌, ◌≢◌, refl, sym, ap, ◌∙◌, subst, ◌⊎◌, inl, inr, Bool, true, false, ◌==◌, leb,
  Option, none, some, arith, if◌then◌else◌, Bool-cases,
}
use renyqo_app.Domain.{
  Application, ProposalResolution, ProposalTiming, WorkflowMode, WorkflowState, system_actor,
}
use renyqo_app.Applications.Store.{
  find-update_where, find_application, ok, Store, Workflow, Proposal,
}
use renyqo_app.Applications.Closing.{find_workflow}
use renyqo_app.Workflows.Rows.{Loaded, is_legacy_timing, find_proposal, load, load_found, load_row}
use renyqo_app.Workflows.Rows.Writes.{resolved_row}
use renyqo_app.Workflows.Apply.Moves.{
  IsSound, load_row-IsJoined, joined_id, IsMarked-resolved, IsBelow-resolved,
}
use renyqo_app.Workflows.Apply.Laws.{IsCurrent}
use renyqo_app.Workflows.Expiry.{
  process_target, proposal_target, is_reached, is_overdue, expire_writes, expire_pending,
  expire_loaded, expire_proposal,
}

-- the workflow after the expiry of its proposal
pub record IsExpired (application_id : ℕ) (w : Workflow) (s' : Store) : Type 0 where
  pub row : Workflow
  pub current : IsCurrent application_id row s'
  pub free : row.pending_proposal_id ≡ none
  pub kept : row.confirmed_appointment_id ≡ w.confirmed_appointment_id
  pub revision : row.revision ≡ w.revision + 1

is_own : (w : Workflow) → (w.id == w.id) ≡ true
is_own w = ground arith

expire_writes-IsExpired :
    (application_id : ℕ) (w : Workflow) (p : Proposal) (s : Store)
    → IsCurrent application_id w s
    → w.pending_proposal_id ≡ some p.id
    → IsExpired application_id w (expire_writes (load_row w s) p s)
unfolding expire_writes find_workflow
expire_writes-IsExpired application_id w p s current pointed =
    let freed : Workflow → Workflow =
      λ x. record x { pending_proposal_id = none; revision = x.revision + 1; updated_at = s.now } in
    let sound = subst (λ k. IsSound w.id k s) pointed current.sound in
    record {
      row = freed w;
      current = record {
        found =
            find-update_where (λ x. x.application_id == application_id) (λ x. x.id == w.id) freed
              s.workflows w (λ y. refl) current.found
            ∙ ap (λ b. some (if b then freed w else w)) (is_own w);
        owner = current.owner;
        sound = record {
          marked =
              IsMarked-resolved w.id p.id ProposalResolution.expired system_actor s.now s.proposals
                refl sound.marked;
          below =
              IsBelow-resolved s.next_id p.id ProposalResolution.expired system_actor s.now
                s.proposals sound.below;
          present = refl;
        };
      };
      free = refl;
      kept = refl;
      revision = refl;
    }

expire_pending-cases :
    (application_id : ℕ) (w : Workflow) (o : Option Proposal) (id : ℕ) (s : Store)
    → IsCurrent application_id w s
    → joined_id o ≡ w.pending_proposal_id
    → ((expire_pending (load_row w s) o id s ≡ (false, s)))
      ⊎ (IsExpired application_id w (expire_pending (load_row w s) o id s).1
          × ((expire_pending (load_row w s) o id s).0 ≡ true))
expire_pending-cases application_id w none id s current joined = inl refl
expire_pending-cases application_id w (some p) id s current joined =
    elim (Bool-cases (is_overdue (load_row w s) p id s.now)) [
      | inr early ↦ inl (rw early refl)
      | inl due ↦
          inr (rw due (expire_writes-IsExpired application_id w p s current (sym joined), refl))
    ]

expire_proposal-loaded :
    (application_id : ℕ) (w : Workflow) (id : ℕ) (s : Store)
    → IsCurrent application_id w s
    → expire_proposal application_id id s
      ≡ expire_pending (load_row w s) (load_row w s).pending_proposal id s
unfolding expire_proposal load
expire_proposal-loaded application_id w id s current =
    ap (λ o. expire_loaded (load_found o s) id s) current.found

-- a workflow without a pending proposal has nothing to expire
expire_proposal-free :
    (application_id : ℕ) (w : Workflow) (id : ℕ) (s : Store)
    → IsCurrent application_id w s
    → w.pending_proposal_id ≡ none
    → expire_proposal application_id id s ≡ (false, s)
expire_proposal-free application_id w id s current free =
    expire_proposal-loaded application_id w id s current
    ∙ ap (λ k. expire_pending (load_row w s) (find_proposal k s.proposals) id s) free

-- The expiry of the pending proposal of an application either changes nothing or frees the workflow
-- of the proposal, keeps its appointment and takes its revision on by one; a second run with the same
-- target finds nothing to do in either case.
pub expire_proposal_once :
    (application_id : ℕ) (w : Workflow) (id : ℕ) (s : Store)
    → IsCurrent application_id w s
    → ((expire_proposal application_id id s ≡ (false, s))
        ⊎ (IsExpired application_id w (expire_proposal application_id id s).1
            × ((expire_proposal application_id id s).0 ≡ true)))
      × ((expire_proposal application_id id (expire_proposal application_id id s).1)
          ≡ (false, (expire_proposal application_id id s).1))
expire_proposal_once application_id w id s current =
    rw (expire_proposal-loaded application_id w id s current)
      elim (expire_pending-cases application_id w (load_row w s).pending_proposal id s current
        (load_row-IsJoined w s current.sound).proposal) [
          | inl same ↦ (
            inl same,
            subst (λ x. expire_proposal application_id id x.1 ≡ (false, x.1)) (sym same)
                (expire_proposal-loaded application_id w id s current ∙ same),
          )
          | inr (done, went) ↦ (
            inr (done, went),
            expire_proposal-free application_id done.row id _ done.current done.free,
          )
        ]

-- A proposal that nobody answered in time: it waits in an open workflow of the current mode, it has a
-- deadline that is not a legacy one, and the deadline or the start of the viewing has come.
pub record IsDue (w : Workflow) (p : Proposal) (now : ℕ) : Type 0 where
  pub current_mode : w.mode ≡ WorkflowMode.current
  pub open_workflow : w.state ≡ WorkflowState.open_state
  pub unanswered : p.resolution ≡ ProposalResolution.pending
  pub timed : p.timing ≢ ProposalTiming.legacy_timing
  pub deadline : ℕ
  pub given : p.response_deadline_at ≡ some deadline
  pub reached : (deadline ≤ now) ⊎ (p.starts_at ≤ now)

is_reached-eq :
    (now starts_at : ℕ) (o : Option ℕ)
    → is_reached now o starts_at ≡ true
    → (deadline : ℕ) × (o ≡ some deadline) × ((deadline ≤ now) ⊎ (starts_at ≤ now))
is_reached-eq now starts_at none h = cc
is_reached-eq now starts_at (some deadline) h = elim (Bool-cases (leb deadline now)) [
  | inl over ↦ (deadline, refl, inl (ground (arith, over)))
  | inr still ↦ (deadline, refl, inr (ground (arith, still, h)))
]

pub is_overdue-IsDue :
    (w : Loaded) (p : Proposal) (id now : ℕ) → is_overdue w p id now ≡ true → IsDue w.row p now
unfolding is_overdue
is_overdue-IsDue w p id now h =
    let (deadline, given, reached) =
      is_reached-eq now p.starts_at p.response_deadline_at (ground (arith, h)) in
    record {
      current_mode = ground (arith, h);
      open_workflow = ground (arith, h);
      unanswered = ground (arith, h);
      timed = λ legacy. ground (arith, h, legacy);
      deadline = deadline;
      given = given;
      reached = reached;
    }

not_legacy : (t : ProposalTiming) → t ≢ ProposalTiming.legacy_timing → is_legacy_timing t ≡ false
not_legacy ProposalTiming.normal h = refl
not_legacy ProposalTiming.short_notice h = refl
not_legacy ProposalTiming.legacy_timing h = elim (h refl) [ ]

reached_lem :
    (now starts_at deadline : ℕ)
    → (deadline ≤ now) ⊎ (starts_at ≤ now)
    → is_reached now (some deadline) starts_at ≡ true
reached_lem now starts_at deadline (inl h) = ground (arith, h)
reached_lem now starts_at deadline (inr h) = ground (arith, h)

IsDue-overdue :
    (w : Workflow) (p : Proposal) (s : Store)
    → IsDue w p s.now
    → is_overdue (load_row w s) p p.id s.now ≡ true
unfolding is_overdue
IsDue-overdue w p s due =
    rw
      (
        due.current_mode,
        due.open_workflow,
        due.unanswered,
        not_legacy p.timing due.timed,
        due.given,
        is_same p.id,
        reached_lem s.now p.starts_at due.deadline due.reached,
      )
      refl
  where
    is_same : (k : ℕ) → (k == k) ≡ true
    is_same k = ground arith

expire_proposal-cases :
    (application_id : ℕ) (w : Workflow) (p : Proposal) (s : Store) (b : Bool)
    → IsCurrent application_id w s
    → (load_row w s).pending_proposal ≡ some p
    → is_overdue (load_row w s) p p.id s.now ≡ b
    → expire_proposal application_id p.id s
      ≡ (if b then (true, expire_writes (load_row w s) p s) else (false, s))
expire_proposal-cases application_id w p s b current found due =
    expire_proposal-loaded application_id w p.id s current
    ∙ (ap (λ o. expire_pending (load_row w s) o p.id s) found
        ∙ ap (λ x. if x then (true, expire_writes (load_row w s) p s) else (false, s)) due)

expire_writes-proposal :
    (w : Workflow) (p : Proposal) (s : Store)
    → w.pending_proposal_id ≡ some p.id
    → (load_row w s).pending_proposal ≡ some p
    → find_proposal (some p.id) (expire_writes (load_row w s) p s).proposals
      ≡ some (resolved_row ProposalResolution.expired system_actor s.now p)
unfolding expire_writes
expire_writes-proposal w p s pointed found =
    let there : find_proposal (some p.id) s.proposals ≡ some p =
      ap (λ k. find_proposal k s.proposals) (sym pointed) ∙ found in
    find-update_where (λ x. x.id == p.id) (λ x. x.id == p.id)
      (resolved_row ProposalResolution.expired system_actor s.now) s.proposals p (λ y. refl) there
    ∙ ap (λ b. some (if b then resolved_row ProposalResolution.expired system_actor s.now p else p))
        (own p.id)
  where
    own : (k : ℕ) → (k == k) ≡ true
    own k = ground arith

module _ (legacy_resolution : Store → ℕ → Proposal → Proposal) where
  -- A run of the scheduler on the pending proposal of an application tells exactly whether it is due.
  -- If it is, that is, if it waits in an open workflow of the current mode, has a deadline, is not of
  -- legacy timing, and the deadline or the start of the viewing has come, then the run succeeds: the
  -- proposal is expired by the system at the time of the run, and the workflow is free of it, keeps
  -- its appointment and is one revision on. If it is not, the run changes nothing. The application has
  -- to be there, and its workflow to be the current one, which the proposals in the table agree with.
  pub process_target-expires :
      (application_id : ℕ) (a : Application) (w : Workflow) (p : Proposal) (s : Store)
      → find_application application_id s.applications ≡ some a
      → IsCurrent application_id w s
      → (load_row w s).pending_proposal ≡ some p
      → (IsDue w p s.now
          × (s' : Store) × (process_target legacy_resolution
                (record { application_id = application_id; id = p.id; kind = proposal_target })
                s
              ≡ ok (true, s'))
          × (find_proposal (some p.id) s'.proposals
              ≡ some (resolved_row ProposalResolution.expired system_actor s.now p))
          × IsExpired application_id w s')
        ⊎ ((¬ IsDue w p s.now)
            × (process_target legacy_resolution
                  (record { application_id = application_id; id = p.id; kind = proposal_target })
                  s
                ≡ ok (false, s)))
  unfolding process_target
  process_target-expires application_id a w p s there current found =
      let joined = load_row-IsJoined w s current.sound in
      let pointed = sym joined.proposal ∙ ap joined_id found in
      elim (Bool-cases (is_overdue (load_row w s) p p.id s.now)) [
        | inl due ↦ inl (
          is_overdue-IsDue (load_row w s) p p.id s.now due,
          expire_writes (load_row w s) p s,
          rw there (ap ok (expire_proposal-cases application_id w p s true current found due)),
          expire_writes-proposal w p s pointed found,
          expire_writes-IsExpired application_id w p s current pointed,
        )
        | inr early ↦ inr (
          λ due. absurd_bool (sym (IsDue-overdue w p s due) ∙ early),
          rw there (ap ok (expire_proposal-cases application_id w p s false current found early)),
        )
      ]
    where
      absurd_bool : true ≡ false → ⊥
      absurd_bool h = cc
