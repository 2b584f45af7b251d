-- ===== src/Viewings/Schedule.antt =====
-- The schedule of a viewing: `schedule` of src/application-viewings/application-viewing.policy.ts and
-- of src/application-viewings/viewing-workflow-command.policy.ts, from the two instants that
-- `instant` reads. An instant that is not valid has thrown before; one before 1970 is not modelled.
use renyqo_app.Prelude.{
  ℕ, ◌+◌, ◌-◌, ◌*◌, ◌≤◌, ◌<◌, ◌≡◌, ◌↔◌, Bool, false, not, Option, none, some, ◌&&◌, ◌||◌, ltb, leb,
  min, arith, if◌then◌else◌,
}
use renyqo_app.Domain.{Audience, is_provider, provider_side}

pub data ScheduleError : Type 0 where
  bad_schedule no_response_window short_notice_required : ScheduleError

pub data Timing : Type 0 where
  short_notice_timing normal_timing : Timing

-- `VIEWING_RESPONSE_MS` and `VIEWING_NORMAL_LEAD_MS`
abbrev pub viewing_response_ms : ℕ
viewing_response_ms = 12 * 60 * 60000

abbrev pub viewing_normal_lead_ms : ℕ
viewing_normal_lead_ms = 18 * 60 * 60000

-- The guard of `ApplicationViewingPolicy.schedule`. A negative duration is below five minutes, as the
-- 0 of the subtraction is.
pub is_schedule_refused : ℕ → ℕ → ℕ → Bool
is_schedule_refused starts_at ends_at now =
    let duration = ends_at - starts_at in
    leb starts_at now || (ltb duration (5 * 60000) || ltb (240 * 60000) duration)

pub record Scheduled : Type 0 where
  pub starts_at : ℕ
  pub ends_at : ℕ
  pub timing : Timing
  pub response_deadline_at : ℕ

pub data Outcome : Type 0 where
  scheduled : Scheduled → Outcome
  refused : ScheduleError → Outcome

-- `Math.min(now + VIEWING_RESPONSE_MS, startsAt, confirmedStartsAt ?? Infinity)`
abbrev pub deadline_of : ℕ → ℕ → Option ℕ → ℕ
deadline_of now starts_at none = min (now + viewing_response_ms) starts_at
deadline_of now starts_at (some confirmed) =
    min (min (now + viewing_response_ms) starts_at) confirmed

-- `ViewingWorkflowCommandPolicy.schedule`
unfoldable pub schedule : ℕ → ℕ → Bool → Audience → ℕ → Option ℕ → Outcome
unfolding is_schedule_refused
schedule starts_at ends_at short_notice side now confirmed =
    let deadline = deadline_of now starts_at confirmed in
    let shortened = ltb deadline (now + viewing_response_ms) in
    if is_schedule_refused starts_at ends_at now
    then refused bad_schedule
    else if leb deadline now
    then refused no_response_window
    else if is_provider side
        && (not short_notice && (ltb starts_at (now + viewing_normal_lead_ms) || shortened))
    then refused short_notice_required
    else scheduled (record {
      starts_at = starts_at;
      ends_at = ends_at;
      timing = if short_notice || shortened then short_notice_timing else normal_timing;
      response_deadline_at = deadline;
    })

-- The deadline stands before the visit and before the confirmed visit that it would replace.
abbrev pub IsBefore : ℕ → Option ℕ → Type 0
IsBefore t none = Unit
IsBefore t (some confirmed) = t ≤ confirmed

-- A schedule that is accepted starts in the future and lasts 5 to 240 minutes; its response deadline
-- lies ahead, at most 12 hours, and not after the start of the visit or of the visit confirmed before;
-- normal timing means the full 12 hours and no short notice; and a provider who did not ask for short
-- notice has given 18 hours of lead and gets normal timing.
pub schedule_lem :
    (starts_at ends_at : ℕ) (short_notice : Bool) (side : Audience) (now : ℕ) (confirmed : Option ℕ)
    (r : Scheduled)
    → schedule starts_at ends_at short_notice side now confirmed ≡ scheduled r
    → ((now < r.starts_at)
        × (r.starts_at + 300000 ≤ r.ends_at)
        × (r.ends_at ≤ r.starts_at + 14400000))
      × ((now < r.response_deadline_at)
          × (r.response_deadline_at ≤ now + 43200000)
          × (r.response_deadline_at ≤ r.starts_at)
          × IsBefore r.response_deadline_at confirmed)
      × ((r.timing ≡ normal_timing)
          ↔ ((short_notice ≡ false) × (r.response_deadline_at ≡ now + 43200000)))
      × (side ≡ provider_side
          → short_notice ≡ false
          → (now + 64800000 ≤ r.starts_at) × (r.timing ≡ normal_timing))
unfolding schedule
schedule_lem starts_at ends_at short_notice side now confirmed r h = ground arith
