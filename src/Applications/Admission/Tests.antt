-- ===== src/Applications/Admission/Tests.antt =====
-- Admission at concrete histories.
use renyqo_app.Prelude.{
  ℕ, ◌+◌, ◌≤◌, ◌<◌, ◌≡◌, ◌≢◌, ◌↔◌, refl, true, none, some, List, [], ◌∷◌, All, Any,
}
use renyqo_app.Domain.{rejected, withdrawn, published, not_selected, rejected_by_provider}
use renyqo_app.Applications.Admission.{
  AdmissionHistory, is_unknown_rejection, later, application_reapplication_cooldown,
  reapplication_cooldown_ms, rejection_of, evaluate,
}
use renyqo_app.Applications.Admission.Laws.{Permits, can_submit_iff, reapply_available_at_lem}

abbrev turned_down : AdmissionHistory
turned_down = record {
  id = 1;
  listing_id = 7;
  status = rejected;
  public_reason = some not_selected;
  rejected_at = some 1000;
  created_at = 10;
  listing_event = some (record { type = rejected_by_provider; occurred_at = 1000 });
}

abbrev gone : AdmissionHistory
gone = record turned_down { id = 2; status = withdrawn; public_reason = none; listing_event = none }

abbrev past : List AdmissionHistory
past = turned_down ∷ gone ∷ []

-- The cooldown is 30 days of 86,400,000 ms.
still_cooling :
    ((evaluate past published true 2000).submission_block_reason
      ≡ some application_reapplication_cooldown)
    × ((evaluate past published true 2000).reapply_available_at ≡ some 2592001000)
    × ((evaluate past published true 2592001000).can_submit_application ≡ true)
unfolding evaluate is_unknown_rejection later
still_cooling = (refl, refl, refl)

can_submit_iff_example :
    ((evaluate past published true 2592001000).can_submit_application ≡ true)
    ↔ ((published ≡ published) × (true ≡ true) × All (Permits 2592001000) past)
can_submit_iff_example = can_submit_iff past published true 2592001000

reapply_available_at_lem_example :
    (2000 < 2592001000)
    × ((r : ℕ) × (2592001000 ≡ r + reapplication_cooldown_ms)
        × Any (λ row. rejection_of row ≡ some r) past)
    × ((s : ℕ)
        → s < 2592001000
        → (evaluate past published true s).reapply_available_at ≡ some 2592001000)
    × ((s : ℕ)
        → 2592001000 ≤ s
        → (evaluate past published true s).submission_block_reason
          ≢ some application_reapplication_cooldown)
reapply_available_at_lem_example =
    reapply_available_at_lem past published true 2000 2592001000 still_cooling.1
