-- ===== src/Workflows/Apply/Moves.antt =====
-- The state machine of a workflow: what each action of
-- src/application-viewings/viewing-workflow-command.service.ts makes of the pending proposal and the
-- confirmed appointment, and the mark of the pending proposal in the table of proposals.
use renyqo_app.Prelude.{
  ℕ, ◌+◌, ◌<◌, any, find, ◌≡◌, ◌≢◌, refl, Bool, true, false, ◌==◌, Option, none, some, List, [],
  ◌∷◌, ◌++◌, All, arith,
}
use renyqo_app.Domain.{ActorType, ProposalResolution}
use renyqo_app.Applications.Store.{Store, ok, Workflow, Proposal, update_where}
use renyqo_app.Applications.Closing.{is_pending_proposal}
use renyqo_app.Workflows.Commands.{Intent}
use renyqo_app.Workflows.Rows.{
  load_row, find_proposal, Loaded, Confirmed, is_the, pending, appointment, check_pending,
  check_appointment,
}
use renyqo_app.Workflows.Rows.Writes.{resolved_row}
use renyqo_app.Workflows.Step.{Step}

-- the pending proposal and the confirmed appointment of a workflow
abbrev pub Pointers : Type 0
Pointers = Option ℕ × Option ℕ

abbrev pub pointers : Workflow → Pointers
pointers w = (w.pending_proposal_id, w.confirmed_appointment_id)

-- what an action may make of the pointers, where `n` is the id of the next row
abbrev pub Moves : ℕ → Intent → Pointers → Pointers → Type 0
Moves n (Intent.invite _) a b = (a ≡ (none, none)) × (b ≡ (some n, none))
Moves n (Intent.accept p) a b = (a.0 ≡ some p) × (b ≡ (none, some p))
Moves n (Intent.reject p) a b = (a.0 ≡ some p) × (b ≡ (none, a.1))
Moves n (Intent.withdraw p) a b = (a.0 ≡ some p) × (b ≡ (none, a.1))
Moves n (Intent.counterproposal p _) a b = (a.0 ≡ some p) × (b ≡ (some n, a.1))
Moves n (Intent.alternative_proposal p _) a b = (a.0 ≡ some p) × (b ≡ (some n, a.1))
Moves n (Intent.replacement c _) a b = (a ≡ (none, some c)) × (b ≡ (some n, some c))
Moves n (Intent.alternative_appointment c _) a b = (a ≡ (none, some c)) × (b ≡ (some n, some c))
Moves n (Intent.cancel c _) a b = (a.1 ≡ some c) × (b ≡ (none, none))
Moves n (Intent.close _ body) a b =
    (a ≡ (body.proposal_id, body.appointment_id)) × (a ≢ (none, none)) × (b ≡ (none, none))
Moves n _ a b = ⊥

-- A proposal of the workflow is pending exactly if it is the one that the workflow points to.
abbrev pub IsMarked : ℕ → Option ℕ → Proposal → Type 0
IsMarked workflow_id pointer p =
    p.workflow_id ≡ workflow_id → is_pending_proposal p.resolution ≡ is_the p.id pointer

abbrev pub IsBelow : ℕ → Proposal → Type 0
IsBelow n p = p.id < n

-- the row that the pointer names is there
abbrev pub is_present : Option ℕ → List Proposal → Bool
is_present none rows = true
is_present (some k) rows = any (λ p. p.id == k) rows

-- the proposals of a workflow with its pointer, and ids that the next row does not meet
pub record IsSound (workflow_id : ℕ) (pointer : Option ℕ) (s : Store) : Type 0 where
  pub marked : All (IsMarked workflow_id pointer) s.proposals
  pub below : All (IsBelow s.next_id) s.proposals
  pub present : is_present pointer s.proposals ≡ true

abbrev pub joined_id : Option Proposal → Option ℕ
joined_id none = none
joined_id (some p) = some p.id

-- the pending proposal that is joined to a workflow is the one that it points to
pub record IsJoined (w : Loaded) : Type 0 where
  pub proposal : joined_id w.pending_proposal ≡ w.row.pending_proposal_id

-- what an action leaves for the end of `apply`
pub record IsStep (intent : Intent) (w : Loaded) (s : Store) (step : Step) : Type 0 where
  pub moves : Moves s.next_id intent (pointers w.row) (pointers (step.patch w.row))
  pub workflows : step.store.workflows ≡ s.workflows
  pub ids :
      (x : Workflow)
      → ((step.patch x).id ≡ x.id) × ((step.patch x).application_id ≡ x.application_id)
  pub sound : IsSound w.row.id (step.patch w.row).pending_proposal_id step.store

pub is_the-eq : (id : ℕ) (o : Option ℕ) → is_the id o ≡ true → o ≡ some id
is_the-eq id none h = cc
is_the-eq id (some k) h = ground arith

check_pending-eq :
    (w : Loaded) (o : Option Proposal) (id : ℕ) (p : Proposal)
    → check_pending w o id ≡ ok p
    → (w.row.pending_proposal_id ≡ some id) × (o ≡ some p)
check_pending-eq w none id p h = cc
check_pending-eq w (some x) id p h = ground (arith, is_the-eq id w.row.pending_proposal_id)

pub pending-eq :
    (w : Loaded) (id : ℕ) (p : Proposal)
    → pending w id ≡ ok p
    → (w.row.pending_proposal_id ≡ some id) × (w.pending_proposal ≡ some p)
unfolding pending
pending-eq w id p h = check_pending-eq w w.pending_proposal id p h

check_appointment-eq :
    (w : Loaded) (o : Option Confirmed) (id now : ℕ) (c : Confirmed)
    → check_appointment w o id now ≡ ok c
    → (w.row.confirmed_appointment_id ≡ some id) × (o ≡ some c) × (now < c.viewing.starts_at)
check_appointment-eq w none id now c h = cc
check_appointment-eq w (some x) id now c h =
    ground (arith, is_the-eq id w.row.confirmed_appointment_id)

pub appointment-eq :
    (w : Loaded) (id now : ℕ) (c : Confirmed)
    → appointment w id now ≡ ok c
    → (w.row.confirmed_appointment_id ≡ some id)
      × (w.confirmed_appointment ≡ some c)
      × (now < c.viewing.starts_at)
unfolding appointment
appointment-eq w id now c h = check_appointment-eq w w.confirmed_appointment id now c h

-- The pending proposal is resolved.
pub IsMarked-resolved :
    (workflow_id id : ℕ) (resolution : ProposalResolution) (actor : ActorType) (now : ℕ)
    (rows : List Proposal)
    → is_pending_proposal resolution ≡ false
    → All (IsMarked workflow_id (some id)) rows
    → All
        (IsMarked workflow_id none)
        (update_where (λ x. x.id == id) (resolved_row resolution actor now) rows)
unfolding update_where
IsMarked-resolved workflow_id id resolution actor now [] shut h = tt
IsMarked-resolved workflow_id id resolution actor now (x ∷ rows) shut (h, hs) =
    (ground (arith, h), IsMarked-resolved workflow_id id resolution actor now rows shut hs)

pub IsBelow-resolved :
    (n id : ℕ) (resolution : ProposalResolution) (actor : ActorType) (now : ℕ)
    (rows : List Proposal)
    → All (IsBelow n) rows
    → All (IsBelow n) (update_where (λ x. x.id == id) (resolved_row resolution actor now) rows)
unfolding update_where
IsBelow-resolved n id resolution actor now [] h = tt
IsBelow-resolved n id resolution actor now (x ∷ rows) (h, hs) =
    (ground (arith, h), IsBelow-resolved n id resolution actor now rows hs)

-- A new proposal is pending.
pub IsMarked-append :
    (workflow_id n : ℕ) (rows : List Proposal) (p : Proposal)
    → p.id ≡ n
    → is_pending_proposal p.resolution ≡ true
    → All (IsBelow n) rows
    → All (IsMarked workflow_id none) rows
    → All (IsMarked workflow_id (some n)) (rows ++ p ∷ [])
IsMarked-append workflow_id n [] p e is_open b h = (ground arith, tt)
IsMarked-append workflow_id n (x ∷ rows) p e is_open (b, bs) (h, hs) =
    (ground (arith, h), IsMarked-append workflow_id n rows p e is_open bs hs)

pub IsBelow-append :
    (n : ℕ) (rows : List Proposal) (p : Proposal)
    → p.id ≡ n
    → All (IsBelow n) rows
    → All (IsBelow (n + 1)) (rows ++ p ∷ [])
IsBelow-append n [] p e h = (ground arith, tt)
IsBelow-append n (x ∷ rows) p e (h, hs) = (ground (arith, h), IsBelow-append n rows p e hs)

pub is_present-append :
    (rows : List Proposal) (p : Proposal) → is_present (some p.id) (rows ++ p ∷ []) ≡ true
is_present-append [] p = ground arith
is_present-append (x ∷ rows) p = ground (arith, is_present-append rows p)

find-joined :
    (k : ℕ) (rows : List Proposal)
    → any (λ p. p.id == k) rows ≡ true
    → joined_id (find (λ p. p.id == k) rows) ≡ some k
find-joined k [] h = cc
find-joined k (x ∷ rows) h = ground (arith, find-joined k rows)

find_proposal-joined :
    (pointer : Option ℕ) (rows : List Proposal)
    → is_present pointer rows ≡ true
    → joined_id (find_proposal pointer rows) ≡ pointer
find_proposal-joined none rows h = refl
find_proposal-joined (some k) rows h = find-joined k rows h

pub load_row-IsJoined :
    (w : Workflow) (s : Store) → IsSound w.id w.pending_proposal_id s → IsJoined (load_row w s)
load_row-IsJoined w s sound = record {
  proposal = find_proposal-joined w.pending_proposal_id s.proposals sound.present;
}
