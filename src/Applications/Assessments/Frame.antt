-- ===== src/Applications/Assessments/Frame.antt =====
-- The tables that the recording of an assessment writes
-- (src/eligibility/application-eligibility-assessment.service.ts).
use renyqo_app.Prelude.{ℕ, ◌≡◌, Option, arith}
use renyqo_app.Domain.{Listing, AssessmentTrigger}
use renyqo_app.Eligibility.{ApplicantEligibilityFacts}
use renyqo_app.Applications.Store.{Store, ok, CriteriaRevision, >>=-eq-ok}
use renyqo_app.Applications.Assessments.{current_revision, record_with, record_assessment}

-- `s` with the three tables of an assessment as `t` has them
abbrev pub assessed : Store → Store → Store
assessed s t = record s {
  next_id = t.next_id;
  revisions = t.revisions;
  assessments = t.assessments;
}

current_revision-frame :
    (listing : Listing) (s : Store) (r : CriteriaRevision) (t : Store)
    → current_revision listing s ≡ ok (r, t)
    → t ≡ assessed s t
unfolding current_revision
current_revision-frame listing s r t h = ground arith

record_with-frame :
    (id : ℕ) (listing : Listing) (r : CriteriaRevision) (p : Option ApplicantEligibilityFacts)
    (trigger : AssessmentTrigger) (actor : Option ℕ) (s t : Store)
    → record_with id listing r p trigger actor s ≡ ok t
    → t ≡ assessed s t
unfolding record_with
record_with-frame id listing r p trigger actor s t h = ground arith

pub record_assessment-frame :
    (id : ℕ) (listing : Listing) (p : Option ApplicantEligibilityFacts)
    (trigger : AssessmentTrigger) (actor : Option ℕ) (s t : Store)
    → record_assessment id listing p trigger actor s ≡ ok t
    → t ≡ assessed s t
unfolding record_assessment
record_assessment-frame id listing p trigger actor s t h =
    let ((r, u), first, second) =
      >>=-eq-ok (current_revision listing s) (λ (r, u). record_with id listing r p trigger actor u)
        h in
    ground (
      arith,
      record_with-frame id listing r p trigger actor u t second,
      current_revision-frame listing s r u first,
    )
