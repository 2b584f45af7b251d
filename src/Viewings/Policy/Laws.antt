-- ===== src/Viewings/Policy/Laws.antt =====
-- How the next action, the time of its change and the capabilities of a viewing fit together.
use renyqo_app.Prelude.{ℕ, ◌≤◌, ◌<◌, ◌≡◌, ◌≢◌, ◌↔◌, Bool, true, Option, none, some, arith}
use renyqo_app.Domain.{provider_side, applicant_side}
use renyqo_app.Viewings.Policy.{
  ViewingState, NextAction, applicant_respond_to_viewing, provider_record_viewing_outcome,
  applicant_confirm_post_viewing_interest, capabilities, next_action, attention_revalidates_at,
}

-- The next action asks the applicant to respond exactly when the applicant can accept, asks the
-- provider for the outcome exactly when the provider can record one, and asks the applicant for their
-- interest exactly when the applicant can state it.
pub next_action_iff :
    (v : ViewingState) (mutable latest : Bool) (now : ℕ)
    → ((next_action v mutable latest now ≡ applicant_respond_to_viewing)
        ↔ ((capabilities v applicant_side mutable latest now).can_accept ≡ true))
      × ((next_action v mutable latest now ≡ provider_record_viewing_outcome)
          ↔ ((capabilities v provider_side mutable latest now).can_mark_completed ≡ true))
      × ((next_action v mutable latest now ≡ applicant_confirm_post_viewing_interest)
          ↔ ((capabilities v applicant_side mutable latest now).can_submit_interest ≡ true))
unfolding next_action capabilities
next_action_iff v mutable latest now = ground arith

-- The time, if there is one, is the next change of the action: it lies ahead, the action stays until
-- then and differs at it.
abbrev pub IsNextChange : (ℕ → NextAction) → ℕ → Option ℕ → Type 0
IsNextChange action now none = (m : ℕ) → now ≤ m → action m ≡ action now
IsNextChange action now (some t) =
    (now < t) × ((m : ℕ) → now ≤ m → m < t → action m ≡ action now) × (action t ≢ action now)

-- Where `attentionRevalidatesAt` gives a time, it lies ahead, the next action stays the same until
-- then and is another one at it; where it gives none, the next action never changes from now on.
pub attention_revalidates_at_lem :
    (v : ViewingState) (mutable latest : Bool) (now : ℕ)
    → IsNextChange
        (next_action v mutable latest)
        now
        (attention_revalidates_at v mutable latest now)
unfolding next_action attention_revalidates_at
attention_revalidates_at_lem v mutable latest now = ground arith
