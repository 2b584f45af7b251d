-- ===== src/Applications/Admission.antt =====
-- src/applications/application-admission.service.ts: whether an applicant may apply, from the
-- history of their applications to one listing.
pub mod Laws
mod Tests
use renyqo_app.Prelude.{
  ℕ, ◌+◌, ◌*◌, Bool, true, false, not, Option, none, some, List, [], ◌∷◌, ◌&&◌, ◌||◌, ltb,
  if◌then◌else◌, is_none, is_some, any, find, filter, order_by, map, ◌==◌,
}
use renyqo_app.Applications.Store.{Store, ListingEvent}
use renyqo_app.Domain.{
  ApplicationStatus, ListingStatus, ApplicationRejectionReason, ListingEventType,
  ListingEventSource, Application, rejected_by_provider, restored_by_provider, is_active,
  is_waiting, is_rejected, is_accepted, is_published, is_not_selected, is_listing_rented,
}

-- `REAPPLICATION_COOLDOWN_MS`
abbrev pub reapplication_cooldown_ms : ℕ
reapplication_cooldown_ms = 720 * 60 * 60 * 1000

pub record HistoryEvent : Type 0 where
  pub type : ListingEventType
  pub occurred_at : ℕ

-- `ApplicationAdmissionHistory`; `listing_event` is `listingEvents[0]` of the query that takes one.
pub record AdmissionHistory : Type 0 where
  pub id : ℕ
  pub listing_id : ℕ
  pub status : ApplicationStatus
  pub public_reason : Option ApplicationRejectionReason
  pub rejected_at : Option ℕ
  pub created_at : ℕ
  pub listing_event : Option HistoryEvent

pub data BlockReason : Type 0 where
  authentication_required listing_not_accepting_applications current_application_exists :
      BlockReason
  application_accepted application_reapplication_cooldown : BlockReason
  application_history_requires_review listing_was_rented applicant_not_eligible : BlockReason

pub record Admission : Type 0 where
  pub has_application_history : Bool
  pub current_application_id : Option ℕ
  pub current_application_status : Option ApplicationStatus
  pub can_submit_application : Bool
  pub submission_block_reason : Option BlockReason
  pub reapply_available_at : Option ℕ

abbrev event_rejection : HistoryEvent → Option ℕ
event_rejection e = elim e.type [
  | rejected_by_provider ↦ some e.occurred_at
  | restored_by_provider ↦ none
]

-- the `rejection` of one round of the loop
unfoldable pub rejection_of : AdmissionHistory → Option ℕ
rejection_of row = elim row.listing_event [
  | some e ↦ event_rejection e
  | none ↦ if is_not_selected row.public_reason then row.rejected_at else none
]

-- `if (rejection && (!latest || rejection > latest)) latest = rejection`
unfoldable pub later : Option ℕ → Option ℕ → Option ℕ
later latest none = latest
later none (some r) = some r
later (some l) (some r) = if ltb l r then some r else some l

unfoldable pub is_unknown_rejection : AdmissionHistory → Bool
unfolding rejection_of
is_unknown_rejection row =
    is_rejected row.status
    && (is_none row.public_reason
        || (is_not_selected row.public_reason && is_none (rejection_of row)))

-- the loop over the history, from the two variables that it assigns
unfoldable pub scan : Option ℕ → Bool → List AdmissionHistory → Option ℕ × Bool
scan latest unsure [] = (latest, unsure)
scan latest unsure (row ∷ rows) =
    scan (later latest (rejection_of row)) (if is_unknown_rejection row then true else unsure) rows

abbrev pub is_current : AdmissionHistory → Bool
is_current row = is_active row.status || is_waiting row.status

abbrev pub expiry_of : Option ℕ → Option ℕ
expiry_of none = none
expiry_of (some r) = some (r + reapplication_cooldown_ms)

-- `expiry !== null && asOf < expiry`
abbrev pub is_before : ℕ → Option ℕ → Bool
is_before as_of none = false
is_before as_of (some expiry) = ltb as_of expiry

unfoldable pub block_reason :
    List AdmissionHistory
    → Option AdmissionHistory
    → ListingStatus
    → Bool
    → Bool
    → Bool
    → Option BlockReason
block_reason history current listing_status eligible unsure cooldown =
    if not (is_published listing_status)
    then some listing_not_accepting_applications
    else if is_some current
    then some current_application_exists
    else if any (λ row. is_accepted row.status) history
    then some application_accepted
    else if any (λ row. is_rejected row.status && is_listing_rented row.public_reason) history
    then some listing_was_rented
    else if unsure
    then some application_history_requires_review
    else if cooldown
    then some application_reapplication_cooldown
    else if not eligible
    then some applicant_not_eligible
    else none

abbrev has_rows : List AdmissionHistory → Bool
has_rows [] = false
has_rows (row ∷ rows) = true

abbrev id_of : Option AdmissionHistory → Option ℕ
id_of none = none
id_of (some row) = some row.id

abbrev status_of : Option AdmissionHistory → Option ApplicationStatus
status_of none = none
status_of (some row) = some row.status

unfoldable pub evaluate : List AdmissionHistory → ListingStatus → Bool → ℕ → Admission
unfolding scan block_reason
evaluate history listing_status eligible as_of =
    let current = find is_current history in
    let (latest, unsure) = scan none false history in
    let expiry = expiry_of latest in
    let cooldown = is_before as_of expiry in
    let reason = block_reason history current listing_status eligible unsure cooldown in
    record {
      has_application_history = has_rows history;
      current_application_id = id_of current;
      current_application_status = status_of current;
      can_submit_application = is_none reason;
      submission_block_reason = reason;
      reapply_available_at = if cooldown then expiry else none;
    }

-- `hasNewerAttempt`: another application of the applicant to the listing was created later
unfoldable pub has_newer_attempt : Application → List Application → Bool
has_newer_attempt a rows =
    any
      (λ b.
        b.applicant_id == a.applicant_id
        && (b.listing_id == a.listing_id && (not (b.id == a.id) && ltb a.created_at b.created_at)))
      rows

-- `orderBy: [{ createdAt: 'desc' }, { id: 'desc' }]` and `orderBy: [{ occurredAt: 'desc' }, { id: 'desc' }]`
pub newer_application : Application → Application → Bool
newer_application a b =
    ltb b.created_at a.created_at || (b.created_at == a.created_at && ltb b.id a.id)

pub newer_event : ListingEvent → ListingEvent → Bool
newer_event a b =
    ltb b.occurred_at a.occurred_at || (b.occurred_at == a.occurred_at && ltb b.id a.id)

abbrev is_provider_source : ListingEventSource → Bool
is_provider_source ListingEventSource.provider = true
is_provider_source _ = false

-- the `where` of the events of a row; both types of event are wanted
pub is_provider_decision : ℕ → ListingEvent → Bool
is_provider_decision application_id e =
    e.application_id == application_id && (is_provider_source e.source && is_not_selected e.reason)

abbrev head_of : List ListingEvent → Option HistoryEvent
head_of [] = none
head_of (e ∷ _) = some (record { type = e.type; occurred_at = e.occurred_at })

pub history_row : List ListingEvent → Application → AdmissionHistory
unfolding newer_event is_provider_decision
history_row events a = record {
  id = a.id;
  listing_id = a.listing_id;
  status = a.status;
  public_reason = a.public_reason;
  rejected_at = a.rejected_at;
  created_at = a.created_at;
  listing_event = head_of (order_by newer_event (filter (is_provider_decision a.id) events));
}

-- `historyForListings`, for the one listing that the callers go on with
unfoldable pub history_for_listing : ℕ → ℕ → Store → List AdmissionHistory
unfolding newer_application history_row
history_for_listing applicant_id listing_id s = map (history_row s.events) (
    order_by newer_application
      (filter (λ a. a.applicant_id == applicant_id && a.listing_id == listing_id) s.applications))
