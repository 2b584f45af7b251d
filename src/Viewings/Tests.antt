-- ===== src/Viewings/Tests.antt =====
-- Viewings at concrete times.
use renyqo_app.Prelude.{◌+◌, ◌≤◌, ◌<◌, ◌≡◌, ◌↔◌, refl, true, false, none, some, [], ◌∷◌}
use renyqo_app.Domain.{ViewingStatus, provider_side, applicant_side}
use renyqo_app.Viewings.Policy.{
  ViewingState, applicant_respond_to_viewing, provider_record_viewing_outcome,
  applicant_confirm_post_viewing_interest, capabilities, next_action, attention_revalidates_at,
}
use renyqo_app.Viewings.Policy.Laws.{next_action_iff, IsNextChange, attention_revalidates_at_lem}
use renyqo_app.Viewings.Text.{text, plain, is_space, trim_start, trim_end, is_plain, is_refused}
use renyqo_app.Viewings.Text.Laws.{IsRead, text_iff}
use renyqo_app.Viewings.Schedule.{
  Scheduled, schedule, scheduled, normal_timing, IsBefore, schedule_lem,
}

abbrev offer : ViewingState
offer = record {
  status = ViewingStatus.proposed;
  starts_at = 5000;
  ends_at = 605000;
  outcomes = [];
  has_interest = false;
}

changes_at_start : attention_revalidates_at offer true true 1000 ≡ some 5000
unfolding attention_revalidates_at
changes_at_start = refl

attention_revalidates_at_lem_example :
    IsNextChange (next_action offer true true) 1000 (attention_revalidates_at offer true true 1000)
attention_revalidates_at_lem_example = attention_revalidates_at_lem offer true true 1000

next_action_iff_example :
    ((next_action offer true true 1000 ≡ applicant_respond_to_viewing)
      ↔ ((capabilities offer applicant_side true true 1000).can_accept ≡ true))
    × ((next_action offer true true 1000 ≡ provider_record_viewing_outcome)
        ↔ ((capabilities offer provider_side true true 1000).can_mark_completed ≡ true))
    × ((next_action offer true true 1000 ≡ applicant_confirm_post_viewing_interest)
        ↔ ((capabilities offer applicant_side true true 1000).can_submit_interest ≡ true))
next_action_iff_example = next_action_iff offer true true 1000

-- A visit of half an hour, two days ahead.
abbrev visit : Scheduled
visit = record {
  starts_at = 172800000;
  ends_at = 174600000;
  timing = normal_timing;
  response_deadline_at = 43200000;
}

visit_scheduled : schedule 172800000 174600000 false provider_side 0 none ≡ scheduled visit
unfolding schedule
visit_scheduled = refl

schedule_lem_example :
    ((0 < visit.starts_at)
      × (visit.starts_at + 300000 ≤ visit.ends_at)
      × (visit.ends_at ≤ visit.starts_at + 14400000))
    × ((0 < visit.response_deadline_at)
        × (visit.response_deadline_at ≤ 0 + 43200000)
        × (visit.response_deadline_at ≤ visit.starts_at)
        × IsBefore visit.response_deadline_at none)
    × ((visit.timing ≡ normal_timing)
        ↔ ((false ≡ false) × (visit.response_deadline_at ≡ 0 + 43200000)))
    × (provider_side ≡ provider_side
        → false ≡ false
        → (0 + 64800000 ≤ visit.starts_at) × (visit.timing ≡ normal_timing))
schedule_lem_example =
    schedule_lem 172800000 174600000 false provider_side 0 none visit visit_scheduled

-- " a b " is read as "a b"
text_read : text (some (32 ∷ 97 ∷ 32 ∷ 98 ∷ 32 ∷ [])) ≡ plain (97 ∷ 32 ∷ 98 ∷ [])
unfolding text is_space trim_start trim_end is_plain is_refused
text_read = refl

text_iff_example :
    (text (some (32 ∷ 97 ∷ 32 ∷ 98 ∷ 32 ∷ [])) ≡ plain (97 ∷ 32 ∷ 98 ∷ []))
    ↔ IsRead (32 ∷ 97 ∷ 32 ∷ 98 ∷ 32 ∷ []) (97 ∷ 32 ∷ 98 ∷ [])
text_iff_example = text_iff (32 ∷ 97 ∷ 32 ∷ 98 ∷ 32 ∷ []) (97 ∷ 32 ∷ 98 ∷ [])
