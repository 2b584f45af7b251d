-- ===== src/Viewings/Policy.antt =====
-- src/application-viewings/application-viewing.policy.ts: what each side may do with a viewing, whose
-- turn it is, and when that answer changes.
pub mod Laws
use renyqo_app.Prelude.{
  ℕ, ◌+◌, ◌*◌, Bool, true, false, not, Option, none, some, List, [], ◌∷◌, ◌&&◌, ◌||◌, ◌==◌, ltb,
  leb, max, length, if◌then◌else◌,
}
use renyqo_app.Domain.{
  ViewingStatus, outcome_pending, change_requested, completed, proposed, WorkflowState,
  closed_state, InterestState, Audience, is_provider,
}

-- `ViewingCapabilityState`; of an outcome only `recordedAt` is read, of the interest whether it is there
pub record ViewingState : Type 0 where
  pub status : ViewingStatus
  pub starts_at : ℕ
  pub ends_at : ℕ
  pub outcomes : List ℕ
  pub has_interest : Bool

pub data NextAction : Type 0 where
  applicant_respond_to_viewing provider_respond_to_change_request : NextAction
  provider_record_viewing_outcome applicant_confirm_post_viewing_interest : NextAction
  provider_close_unanswered_viewing provider_decide_consideration no_action : NextAction

abbrev pub is_proposed : ViewingStatus → Bool
is_proposed ViewingStatus.proposed = true
is_proposed _ = false

abbrev pub is_agreed : ViewingStatus → Bool
is_agreed ViewingStatus.accepted = true
is_agreed _ = false

abbrev pub is_change_requested : ViewingStatus → Bool
is_change_requested ViewingStatus.change_requested = true
is_change_requested _ = false

abbrev pub is_outcome_pending : ViewingStatus → Bool
is_outcome_pending ViewingStatus.outcome_pending = true
is_outcome_pending _ = false

abbrev pub is_completed : ViewingStatus → Bool
is_completed ViewingStatus.completed = true
is_completed _ = false

-- `workflow.state` with `closedAt` and `updatedAt`
pub record WorkflowClosure : Type 0 where
  pub state : WorkflowState
  pub closed_at : Option ℕ
  pub updated_at : ℕ

abbrev is_closed_interest : Option InterestState → Bool
is_closed_interest (some InterestState.closed) = true
is_closed_interest _ = false

-- what `legacyInterestClosedByLifecycle` says of a closed workflow
closed_at_boundary : Option ℕ → ℕ → ℕ → List ℕ → Bool
closed_at_boundary none updated_at starts_at outcomes = true
closed_at_boundary (some closed_at) updated_at starts_at [] = true
closed_at_boundary (some closed_at) updated_at starts_at (first ∷ _) =
    leb first (max closed_at updated_at) || leb starts_at (max closed_at updated_at)

-- `legacyInterestClosedByLifecycle`
pub legacy_interest_closed_by_lifecycle :
    Option WorkflowClosure → Option InterestState → ℕ → List ℕ → Bool
unfolding closed_at_boundary
legacy_interest_closed_by_lifecycle workflow interest starts_at outcomes =
    if is_closed_interest interest then true else elim workflow [
      | none ↦ false
      | some w ↦ elim w.state [
        | WorkflowState.open_state ↦ false
        | WorkflowState.closed_state ↦
            closed_at_boundary w.closed_at w.updated_at starts_at outcomes
      ]
    ]

-- `legacyViewingAllowsActions`; the last argument is given, where the source has a default for it
pub legacy_viewing_allows_actions : Bool → Bool → ViewingStatus → Bool → Bool
legacy_viewing_allows_actions mutable closed status interest_closed =
    if is_completed status
    then mutable && not interest_closed
    else mutable
      && (not closed
          || (is_proposed status
              || (is_agreed status || (is_change_requested status || is_outcome_pending status))))

-- `CORRECTION_WINDOW_MS`
abbrev pub correction_window_ms : ℕ
correction_window_ms = 24 * 60 * 60000

abbrev pub unresolved : ViewingState → Bool
unresolved v = is_proposed v.status || is_agreed v.status

pub record Capabilities : Type 0 where
  pub can_accept : Bool
  pub can_decline : Bool
  pub can_request_another_time : Bool
  pub can_reschedule : Bool
  pub can_cancel : Bool
  pub can_mark_completed : Bool
  pub can_mark_no_show : Bool
  pub can_correct_outcome : Bool
  pub can_submit_interest : Bool

-- `first !== undefined && outcomes.length === 1 && … now < first.recordedAt + CORRECTION_WINDOW_MS`
abbrev is_correctable : List ℕ → Bool → ℕ → Bool
is_correctable [] has_interest now = false
is_correctable (first ∷ rest) has_interest now =
    length (first ∷ rest) == 1 && (not has_interest && ltb now (first + correction_window_ms))

unfoldable pub capabilities : ViewingState → Audience → Bool → Bool → ℕ → Capabilities
capabilities v side mutable latest now =
    let provider = is_provider side in
    let future = ltb now v.starts_at in
    let live = mutable && latest in
    let can_respond =
      live && (not provider && (future && (is_proposed v.status || is_agreed v.status))) in
    let can_record =
      live
      && (provider && ((is_agreed v.status || is_outcome_pending v.status) && leb v.ends_at now)) in
    record {
      can_accept = live && (not provider && (future && is_proposed v.status));
      can_decline = can_respond;
      can_request_another_time = can_respond;
      can_reschedule = live && (provider && (future && unresolved v));
      can_cancel = live && (provider && unresolved v);
      can_mark_completed = can_record;
      can_mark_no_show = can_record;
      can_correct_outcome = live && (provider && is_correctable v.outcomes v.has_interest now);
      can_submit_interest =
          mutable && (not provider && (is_completed v.status && not v.has_interest));
    }

unfoldable pub next_action : ViewingState → Bool → Bool → ℕ → NextAction
next_action v mutable latest now =
    if not mutable
    then no_action
    else if latest && (is_proposed v.status && ltb now v.starts_at)
    then applicant_respond_to_viewing
    else if latest && (is_proposed v.status && leb v.starts_at now)
    then provider_close_unanswered_viewing
    else if latest && is_change_requested v.status
    then provider_respond_to_change_request
    else if latest && ((is_agreed v.status || is_outcome_pending v.status) && leb v.ends_at now)
    then provider_record_viewing_outcome
    else if is_completed v.status && not v.has_interest
    then applicant_confirm_post_viewing_interest
    else no_action

unfoldable pub attention_revalidates_at : ViewingState → Bool → Bool → ℕ → Option ℕ
attention_revalidates_at v mutable latest now =
    if not mutable || not latest
    then none
    else if is_proposed v.status && ltb now v.starts_at
    then some v.starts_at
    else if (is_agreed v.status || is_outcome_pending v.status) && ltb now v.ends_at
    then some v.ends_at
    else none
