-- ===== src/Applications/Store.antt =====
-- The tables that the application lifecycle reads and writes, and the results of its handlers. The
-- transaction is one pass over an explicit store: a handler that throws returns `err`, and the
-- database keeps the store that the transaction began with. Every reading of the clock in one
-- transaction gives `now`. A new row takes its id from `next_id`, and a new application takes
-- `next_queue_order`, the sequence of the column `queue_order`.
use renyqo_app.Prelude.{
  ◌≡◌, refl, ap, ◌⊎◌, inl, inr, ℕ, ◌+◌, Bool, true, false, Option, none, some, List, [], ◌∷◌, ◌++◌,
  ◌==◌, find, if◌then◌else◌, Bool-cases,
}
use renyqo_app.Eligibility.{
  ListingEligibilityCriteria, ApplicantEligibilityFacts, EligibilityResponse,
}
use renyqo_app.Domain.{
  Application, ApplicationStatus, ApplicationRejectionReason, Listing, ListingEventType,
  ListingEventSource, ActorType, Visibility, ActivityType, AssessmentTrigger, ViewingStatus,
  WorkflowMode, WorkflowState, ClosureReason, ProposalResolution, InterestState, Consideration,
  Audience, ProposalTiming, Cancellation, ViewingOutcome, AbsenceSide, Interest, Action, Reason,
  PublishRequiredField,
}
use renyqo_app.Viewings.Schedule.{ScheduleError}
use renyqo_app.Viewings.Text.{Text}

-- the 409 of the viewing workflow, less its constant status and code
pub record Failure : Type 0 where
  pub application_id : ℕ
  pub revision : ℕ
  pub reason : Reason

-- the exceptions that the handlers throw
pub data Error : Type 0 where
  not_found conflict unprocessable too_many_requests internal_error bad_request : Error
  idempotency_key_reused : Error
  viewing_state_changed : (failure : Failure) → Error
  missing_fields : (fields : List PublishRequiredField) → Error
  schedule_refused : (cause : ScheduleError) → Error

-- how a handler ends: by an exception, or with its value
pub data Result {ℓ} (Value : Type ℓ) : Type ℓ where
  err : (thrown : Error) → Result Value
  ok : (value : Value) → Result Value

-- the next statement of a handler, where the last one has not thrown
module _ {ℓ κ} {Value : Type ℓ} {Next : Type κ} where
  infixl 5 ◌>>=◌
  abbrev pub ◌>>=◌ : Result Value → (Value → Result Next) → Result Next
  err thrown >>= next = err thrown
  ok value >>= next = next value

pub record Metadata : Type 0 where
  pub initial_status : Option ApplicationStatus
  pub from_status : Option ApplicationStatus
  pub to_status : Option ApplicationStatus
  pub reason : Option ApplicationRejectionReason
  pub workflow_id : Option ℕ
  pub workflow_revision : Option ℕ
  pub proposal_id : Option ℕ
  pub appointment_id : Option ℕ
  pub viewing_closure_reason : Option ClosureReason
  pub restore_cleanup : Bool
  pub viewing_id : Option ℕ
  pub viewing_round : Option ℕ
  pub starts_at : Option ℕ
  pub ends_at : Option ℕ
  pub counterproposal : Bool
  pub previous_proposal_id : Option ℕ
  pub previous_appointment_id : Option ℕ
  pub cancellation_reason : Option Cancellation
  pub provider_consideration : Option Consideration
  pub outcome_revision : Option ℕ

abbrev pub no_metadata : Metadata
no_metadata = record {
  initial_status = none;
  from_status = none;
  to_status = none;
  reason = none;
  workflow_id = none;
  workflow_revision = none;
  proposal_id = none;
  appointment_id = none;
  viewing_closure_reason = none;
  restore_cleanup = false;
  viewing_id = none;
  viewing_round = none;
  starts_at = none;
  ends_at = none;
  counterproposal = false;
  previous_proposal_id = none;
  previous_appointment_id = none;
  cancellation_reason = none;
  provider_consideration = none;
  outcome_revision = none;
}

pub record Activity : Type 0 where
  pub application_id : ℕ
  pub type : ActivityType
  pub actor_user_id : Option ℕ
  pub actor_type : ActorType
  pub visibility : Visibility
  pub occurred_at : ℕ
  pub metadata : Metadata

pub record ListingEvent : Type 0 where
  pub id : ℕ
  pub listing_id : ℕ
  pub application_id : ℕ
  pub type : ListingEventType
  pub source : ListingEventSource
  pub actor_user_id : Option ℕ
  pub reason : Option ApplicationRejectionReason
  pub from_status : ApplicationStatus
  pub to_status : ApplicationStatus
  pub occurred_at : ℕ

pub record CriteriaRevision : Type 0 where
  pub id : ℕ
  pub listing_id : ℕ
  pub revision : ℕ
  pub criteria : ListingEligibilityCriteria

pub record Assessment : Type 0 where
  pub application_id : ℕ
  pub listing_id : ℕ
  pub criteria_revision_id : ℕ
  pub revision : ℕ
  pub trigger : AssessmentTrigger
  pub actor_user_id : Option ℕ
  pub evaluator_version : ℕ
  pub evaluation : EligibilityResponse

pub record Viewing : Type 0 where
  pub id : ℕ
  pub application_id : ℕ
  pub round : ℕ
  pub status : ViewingStatus
  pub starts_at : ℕ
  pub ends_at : ℕ
  pub time_zone : ℕ
  pub provider_note : Option Text
  pub accepted_at : Option ℕ
  pub declined_at : Option ℕ
  pub cancelled_at : Option ℕ
  pub superseded_at : Option ℕ
  pub request_key : ℕ
  pub request_hash : ℕ

pub record Workflow : Type 0 where
  pub id : ℕ
  pub application_id : ℕ
  pub mode : WorkflowMode
  pub revision : ℕ
  pub state : WorkflowState
  pub closure_reason : Option ClosureReason
  pub closed_at : Option ℕ
  pub pending_proposal_id : Option ℕ
  pub confirmed_appointment_id : Option ℕ
  pub provider_consideration : Consideration
  pub consideration_decided_at : Option ℕ
  pub updated_at : ℕ

pub record Proposal : Type 0 where
  pub id : ℕ
  pub workflow_id : ℕ
  pub round : ℕ
  pub proposer_side : Audience
  pub responder_side : Audience
  pub starts_at : ℕ
  pub ends_at : ℕ
  pub time_zone : ℕ
  pub message : Option Text
  pub predecessor_proposal_id : Option ℕ
  pub base_appointment_id : Option ℕ
  pub timing : ProposalTiming
  pub response_deadline_at : Option ℕ
  pub request_key : ℕ
  pub request_hash : ℕ
  pub created_at : ℕ
  pub resolution : ProposalResolution
  pub resolved_at : Option ℕ
  pub resolved_by : Option ActorType

pub record Appointment : Type 0 where
  pub viewing_id : ℕ
  pub workflow_id : ℕ
  pub proposal_id : ℕ
  pub cancelled_by : Option ActorType
  pub cancellation_reason : Option Cancellation
  pub cancellation_note : Option Text
  pub late_cancellation : Option Bool
  pub interest_state : InterestState
  pub interest_requested_at : Option ℕ
  pub interest_deadline_at : Option ℕ
  pub interest_closed_at : Option ℕ

-- a row of `applicationViewingOutcome`
pub record OutcomeRow : Type 0 where
  pub id : ℕ
  pub viewing_id : ℕ
  pub revision : ℕ
  pub outcome : ViewingOutcome
  pub absence_side : Option AbsenceSide
  pub correction_reason : Option Text
  pub recorded_at : ℕ

-- a row of `applicationViewingInterest`
pub record InterestRow : Type 0 where
  pub viewing_id : ℕ
  pub interest : Interest
  pub responded_at : ℕ

-- a row of `applicationConsiderationPosition`
pub record ConsiderationPosition : Type 0 where
  pub application_id : ℕ
  pub listing_id : ℕ
  pub position : ℕ
  pub revision : ℕ

-- a row of `applicationNoShowConsequence`
pub record NoShowConsequence : Type 0 where
  pub outcome_id : ℕ
  pub application_id : ℕ
  pub listing_id : ℕ
  pub previous_position : ℕ
  pub applied_position : ℕ
  pub applied_revision : ℕ
  pub corrected_by_outcome_id : Option ℕ
  pub corrected_at : Option ℕ
  pub position_restored : Option Bool

-- what a command to the viewing workflow returns
pub record CommandResult : Type 0 where
  pub application_id : ℕ
  pub workflow_id : Option ℕ
  pub workflow_revision : ℕ
  pub proposal_id : Option ℕ
  pub appointment_id : Option ℕ

-- what a receipt keeps: the result, or a failure that was committed
pub data CommandOutcome : Type 0 where
  success : CommandResult → CommandOutcome
  failed : Failure → CommandOutcome

-- a row of `viewingCommandReceipt`
pub record Receipt : Type 0 where
  pub application_id : ℕ
  pub request_key : ℕ
  pub actor_user_id : ℕ
  pub actor_side : Audience
  pub command : Action
  pub request_hash : ℕ
  pub outcome : CommandOutcome
  pub created_at : ℕ

pub record Store : Type 0 where
  pub now : ℕ
  pub next_id : ℕ
  pub next_queue_order : ℕ
  pub next_position : ℕ
  pub applications : List Application
  pub listings : List Listing
  pub profiles : List (ℕ × ApplicantEligibilityFacts)
  pub activities : List Activity
  pub events : List ListingEvent
  pub revisions : List CriteriaRevision
  pub assessments : List Assessment
  pub viewings : List Viewing
  pub workflows : List Workflow
  pub proposals : List Proposal
  pub appointments : List Appointment
  pub outcomes : List OutcomeRow
  pub interests : List InterestRow
  pub positions : List ConsiderationPosition
  pub consequences : List NoShowConsequence
  pub receipts : List Receipt

-- `updateMany({ where, data })`: the rows that pass the test are changed.
unfoldable pub update_where {ℓ} : {A : Type ℓ} → (A → Bool) → (A → A) → List A → List A
update_where p f [] = []
update_where p f (x ∷ xs) = (if p x then f x else x) ∷ update_where p f xs

-- `application.update({ where: { id }, data })`
abbrev pub update_application : ℕ → (Application → Application) → Store → Store
update_application id f s = record s {
  applications = update_where (λ a. a.id == id) f s.applications;
}

unfoldable pub find_application : ℕ → List Application → Option Application
find_application id rows = find (λ a. a.id == id) rows

unfoldable pub find_listing : ℕ → List Listing → Option Listing
find_listing id rows = find (λ l. l.id == id) rows

-- `applicantProfile.findUnique({ where: { applicantId } })`
unfoldable pub find_profile :
    ℕ → List (ℕ × ApplicantEligibilityFacts) → Option ApplicantEligibilityFacts
find_profile id [] = none
find_profile id ((k, p) ∷ rows) = if k == id then some p else find_profile id rows

-- `ApplicationActivityService.appendWithinTransaction`, as far as the row that it creates
abbrev pub append_activity : Activity → Store → Store
append_activity a s = record s { activities = s.activities ++ a ∷ [] }

-- `listingEvent.create`, of a row that takes its id from `next_id`
abbrev pub create_event : ListingEvent → Store → Store
create_event e s = record s { events = s.events ++ e ∷ []; next_id = s.next_id + 1 }

-- A chain that returned has a first part that returned.
module _ {ℓ κ} {Value : Type ℓ} {Next : Type κ} where
  pub >>=-eq-ok :
      (first : Result Value) (next : Value → Result Next) {last : Next}
      → (first >>= next) ≡ ok last
      → (value : Value) × (first ≡ ok value) × (next value ≡ ok last)
  >>=-eq-ok (err thrown) next returned = cc
  >>=-eq-ok (ok value) next returned = (value, refl, returned)

module _ {ℓ} {Value : Type ℓ} where
  pub Result-cases :
      (r : Result Value)
      → ((thrown : Error) × (r ≡ err thrown)) ⊎ ((value : Value) × (r ≡ ok value))
  Result-cases (err thrown) = inl (thrown, refl)
  Result-cases (ok value) = inr (value, refl)

-- Inversion of a guard that threw nothing.
pub guard-eq-ok {ℓ} :
    {A : Type ℓ} (b : Bool) (e : Error) (m : Result A) {x : A}
    → (if b then err e else m) ≡ ok x
    → (b ≡ false) × (m ≡ ok x)
guard-eq-ok true e m h = cc
guard-eq-ok false e m h = (refl, h)

abbrev map_option {ℓ} : {A : Type ℓ} → (A → A) → Option A → Option A
map_option f none = none
map_option f (some x) = some (f x)

kept-test {ℓ} :
    {A : Type ℓ} (p q : A → Bool) (f : A → A)
    → ((y : A) → p (f y) ≡ p y)
    → (y : A) → p (if q y then f y else y) ≡ p y
kept-test p q f same y = elim (Bool-cases (q y)) [
  | inl holds ↦ rw holds (same y)
  | inr other ↦ rw other refl
]

-- A search finds the row that it found before, as the update has left it.
pub find-update_where {ℓ} :
    {A : Type ℓ} (p q : A → Bool) (f : A → A) (rows : List A) (x : A)
    → ((y : A) → p (f y) ≡ p y)
    → find p rows ≡ some x
    → find p (update_where q f rows) ≡ some (if q x then f x else x)
unfolding update_where
find-update_where p q f [] x same h = cc
find-update_where p q f (y ∷ rows) x same h = rw (kept-test p q f same y) elim (Bool-cases (p y)) [
  | inl holds ↦
      let found : some y ≡ some x = rw holds at h in
      rw holds (ap (map_option (λ z. if q z then f z else z)) found)
  | inr no_match ↦ rw no_match (find-update_where p q f rows x same (rw no_match at h))
]
