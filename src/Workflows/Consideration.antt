-- ===== src/Workflows/Consideration.antt =====
-- src/applications/application-consideration.service.ts: an applicant who missed a viewing goes to the
-- end of the order of consideration, and comes back when the outcome is corrected.
pub mod Laws
use renyqo_app.Prelude.{
  ℕ, ◌+◌, Bool, false, Option, none, some, [], ◌∷◌, ◌++◌, ◌&&◌, ◌==◌, find, filter, length, is_none,
  if◌then◌else◌,
}
use renyqo_app.Domain.{Application, is_active}
use renyqo_app.Applications.Store.{
  Store, Result, ok, err, ◌>>=◌, internal_error, ConsiderationPosition, NoShowConsequence,
  update_where, find_application,
}

-- the argument of `outcomeWithinTransaction`, less the time
pub record OutcomeEffect : Type 0 where
  pub application_id : ℕ
  pub listing_id : ℕ
  pub outcome_id : ℕ
  pub previous_outcome_id : Option ℕ
  pub penalize : Bool

-- the position is still the one that the consequence gave
abbrev pub is_applied : NoShowConsequence → ℕ → ConsiderationPosition → Bool
is_applied effect application_id x =
    x.application_id == application_id
    && (x.position == effect.applied_position && x.revision == effect.applied_revision)

abbrev pub corrected : NoShowConsequence → ℕ → ℕ → Bool → Store → Store
corrected effect outcome_id now restored s = record s {
  consequences =
      update_where (λ e. e.outcome_id == effect.outcome_id)
        (λ e. record e {
          corrected_by_outcome_id = some outcome_id;
          corrected_at = some now;
          position_restored = some restored;
        })
        s.consequences;
}

-- the correction of a consequence, for an application that was read
unfoldable pub correct_effect :
    OutcomeEffect → NoShowConsequence → Option Application → Store → Result Store
correct_effect input effect none s = err internal_error
correct_effect input effect (some a) s =
    let restores = filter (is_applied effect input.application_id) s.positions in
    if is_active a.status
    then ok (
        corrected effect input.outcome_id s.now (length restores == 1) (record s {
          positions =
              update_where (is_applied effect input.application_id)
                (λ x. record x { position = effect.previous_position; revision = x.revision + 1 })
                s.positions;
        }))
    else ok (corrected effect input.outcome_id s.now false s)

abbrev pub correct_found : OutcomeEffect → Option NoShowConsequence → Store → Result Store
correct_found input none s = ok s
correct_found input (some effect) s =
    if is_none effect.corrected_by_outcome_id
    then correct_effect input effect (find_application input.application_id s.applications) s
    else ok s

abbrev pub correct_previous : OutcomeEffect → Option ℕ → Store → Result Store
correct_previous input none s = ok s
correct_previous input (some id) s =
    correct_found input (find (λ e. e.outcome_id == id) s.consequences) s

-- the application takes the next position of the sequence
unfoldable pub penalize : OutcomeEffect → Option ConsiderationPosition → Store → Result Store
penalize input none s = err internal_error
penalize input (some previous) s = ok (record s {
  next_position = s.next_position + 1;
  positions =
      update_where (λ x. x.application_id == input.application_id)
        (λ x. record x { position = s.next_position; revision = x.revision + 1 }) s.positions;
  consequences =
      s.consequences
      ++ record {
        outcome_id = input.outcome_id;
        application_id = input.application_id;
        listing_id = input.listing_id;
        previous_position = previous.position;
        applied_position = s.next_position;
        applied_revision = previous.revision + 1;
        corrected_by_outcome_id = none;
        corrected_at = none;
        position_restored = none;
      }
        ∷ [];
})

-- `outcomeWithinTransaction`
unfoldable pub record_effect : OutcomeEffect → Store → Result Store
unfolding correct_effect penalize
record_effect input s = correct_previous input input.previous_outcome_id s >>= λ s'.
    if input.penalize
    then penalize input (find (λ x. x.application_id == input.application_id) s'.positions) s'
    else ok s'
