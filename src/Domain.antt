-- ===== src/Domain.antt =====
-- The rows and enumerations of prisma/schema.prisma that the application lifecycle works on. A UUID
-- is the 128-bit number that PostgreSQL orders it by, and a date its milliseconds since the epoch.
use renyqo_app.Prelude.{ℕ, Option, Bool, true, false}
use renyqo_app.Eligibility.{ListingEligibilityCriteria}

pub data ApplicationStatus : Type 0 where
  active waiting rejected withdrawn accepted : ApplicationStatus

pub data ListingStatus : Type 0 where
  draft published paused archived rented : ListingStatus

pub data ApplicationRejectionReason : Type 0 where
  post_viewing_response_expired not_selected listing_rented : ApplicationRejectionReason
  profile_no_longer_eligible : ApplicationRejectionReason

pub data ListingEventType : Type 0 where
  rejected_by_provider restored_by_provider : ListingEventType

pub data ListingEventSource : Type 0 where
  provider system applicant : ListingEventSource

abbrev pub is_active : ApplicationStatus → Bool
is_active active = true
is_active _ = false

abbrev pub is_waiting : ApplicationStatus → Bool
is_waiting waiting = true
is_waiting _ = false

abbrev pub is_rejected : ApplicationStatus → Bool
is_rejected rejected = true
is_rejected _ = false

abbrev pub is_withdrawn : ApplicationStatus → Bool
is_withdrawn withdrawn = true
is_withdrawn _ = false

abbrev pub is_accepted : ApplicationStatus → Bool
is_accepted accepted = true
is_accepted _ = false

abbrev pub is_published : ListingStatus → Bool
is_published published = true
is_published _ = false

abbrev pub is_draft : ListingStatus → Bool
is_draft draft = true
is_draft _ = false

abbrev pub is_archived : ListingStatus → Bool
is_archived archived = true
is_archived _ = false

abbrev pub is_rented : ListingStatus → Bool
is_rented rented = true
is_rented _ = false

abbrev pub is_paused : ListingStatus → Bool
is_paused paused = true
is_paused _ = false

abbrev pub is_not_selected : Option ApplicationRejectionReason → Bool
is_not_selected (Option.some not_selected) = true
is_not_selected _ = false

abbrev pub is_listing_rented : Option ApplicationRejectionReason → Bool
is_listing_rented (Option.some listing_rented) = true
is_listing_rented _ = false

pub data PublishRequiredField : Type 0 where
  title street zip city living_area rooms bedrooms cold_rent available_from : PublishRequiredField

-- Of the columns that publishing requires, `is_given` tells which are not null.
pub record Listing : Type 0 where
  pub id : ℕ
  pub provider_id : ℕ
  pub status : ListingStatus
  pub published_at : Option ℕ
  pub rented_at : Option ℕ
  pub is_given : PublishRequiredField → Bool
  pub criteria : ListingEligibilityCriteria

pub record Application : Type 0 where
  pub id : ℕ
  pub listing_id : ℕ
  pub applicant_id : ℕ
  pub status : ApplicationStatus
  pub queue_order : ℕ
  pub rejected_at : Option ℕ
  pub public_reason : Option ApplicationRejectionReason
  pub active_at : Option ℕ
  pub withdrawn_at : Option ℕ
  pub created_at : ℕ

pub data ActorType : Type 0 where
  system_actor applicant_actor provider_actor : ActorType

pub data Visibility : Type 0 where
  to_provider to_applicant to_both internal : Visibility

-- The types of activity that the lifecycle and the viewings of an application append.
pub data ActivityType : Type 0 where
  viewing_workflow_closed viewing_interest_expired application_submitted : ActivityType
  application_promoted_to_active application_withdrawn application_rejected : ActivityType
  application_restored viewing_proposed viewing_accepted viewing_declined : ActivityType
  viewing_rescheduled viewing_change_requested viewing_replacement_proposed : ActivityType
  viewing_proposal_withdrawn viewing_cancelled viewing_proposal_expired : ActivityType
  viewing_completed viewing_no_show viewing_outcome_corrected : ActivityType
  viewing_interest_declined viewing_interest_confirmed : ActivityType
  viewing_consideration_changed application_accepted : ActivityType

pub data AssessmentTrigger : Type 0 where
  application_created criteria_changed profile_changed restore promotion : AssessmentTrigger

pub data ViewingStatus : Type 0 where
  outcome_pending proposed accepted declined change_requested cancelled completed : ViewingStatus
  no_show superseded : ViewingStatus

pub data WorkflowMode : Type 0 where
  legacy current : WorkflowMode

pub data WorkflowState : Type 0 where
  open_state closed_state : WorkflowState

pub data ClosureReason : Type 0 where
  listing_unpublished provider_closed application_withdrawn application_rejected : ClosureReason
  application_accepted listing_rented listing_archived eligibility_rejected : ClosureReason
  post_viewing_response_expired : ClosureReason

pub data ProposalResolution : Type 0 where
  pending accepted declined superseded withdrawn expired closed : ProposalResolution

pub data InterestState : Type 0 where
  not_requested pending still_interested not_interested expired closed : InterestState
  legacy_unanswered : InterestState

pub data Consideration : Type 0 where
  undecided continue_considering do_not_continue : Consideration

-- `ViewingParticipantSide`, and the `ViewingAudience` of the services
pub data Audience : Type 0 where
  provider_side applicant_side : Audience

abbrev pub is_provider : Audience → Bool
is_provider provider_side = true
is_provider applicant_side = false

pub data ProposalTiming : Type 0 where
  normal short_notice legacy_timing : ProposalTiming

-- `ViewingCancellationReason`
pub data Cancellation : Type 0 where
  applicant_cancelled provider_illness provider_operational property_unavailable : Cancellation
  other_reason application_ended : Cancellation

pub data ViewingOutcome : Type 0 where
  outcome_completed outcome_no_show : ViewingOutcome

pub data AbsenceSide : Type 0 where
  applicant_absent provider_absent both_absent : AbsenceSide

-- `ViewingInterest`, the answer of the applicant
pub data Interest : Type 0 where
  answered_interested answered_not_interested : Interest

-- the actions of a command to the viewing workflow
pub data Action : Type 0 where
  invite accept reject withdraw counterproposal alternative_proposal replacement : Action
  alternative_appointment cancel close interest consideration outcome reconcile : Action

-- the reasons of a 409 of the viewing workflow
pub data Reason : Type 0 where
  application_process_inactive stale_revision legacy_reconciliation_failed : Reason
  legacy_reconciliation_required provider_invitation_required interest_response_expired : Reason
  proposal_is_not_current appointment_is_not_current appointment_already_started : Reason
  close_targets_changed proposal_expired action_not_allowed_for_side : Reason
  applicant_change_cutoff_passed viewing_already_pending_or_confirmed : Reason
  only_responder_can_decide proposal_already_started : Reason
  legacy_invitation_requires_reissue pending_proposal_must_be_resolved : Reason
  only_own_alternative_can_be_withdrawn no_open_viewing appointment_not_ended : Reason
  outcome_operation_not_allowed interest_response_unavailable : Reason
  consideration_requires_completed_viewing post_viewing_decision_closed : Reason
