-- ===== src/Applications/Promotion.antt =====
-- src/applications/application-waiting-promotion.service.ts: the free places of a listing go to the
-- eligible applications that wait, in the order of the queue, read in batches behind a cursor.
pub mod Order
pub mod Queue
pub mod Batches
pub mod Spec
pub mod Capacity
pub mod Complete
pub mod Returns
use renyqo_app.Prelude.{
  ℕ, zero, suc, ◌+◌, ◌-◌, Bool, true, false, not, Option, none, some, List, [], ◌∷◌, ◌&&◌, ◌||◌,
  ◌==◌, ltb, leb, if◌then◌else◌, filter, length, take, order_by,
}
use renyqo_app.Domain.{
  Application, active, waiting, Listing, is_active, is_waiting, is_published, promotion,
  system_actor, to_both, application_promoted_to_active,
}
use renyqo_app.Eligibility.{evaluate_profile}
use renyqo_app.Applications.Store.{
  Activity, Store, Result, ok, err, internal_error, ◌>>=◌, no_metadata, update_application,
  find_profile, append_activity,
}
use renyqo_app.Applications.Assessments.{record_assessment}

-- `ACTIVE_APPLICATIONS_LIMIT` and `PROMOTION_BATCH_SIZE`
abbrev pub active_applications_limit : ℕ
active_applications_limit = 5

abbrev pub promotion_batch_size : ℕ
promotion_batch_size = 50

-- `orderBy: [{ queueOrder: 'asc' }, { id: 'asc' }]`
unfoldable pub comes_before : Application → Application → Bool
comes_before a b =
    ltb a.queue_order b.queue_order || (a.queue_order == b.queue_order && ltb a.id b.id)

-- the `OR` of the query, behind the application that the cursor was taken from
abbrev pub is_past : Option Application → Application → Bool
is_past none a = true
is_past (some c) a = comes_before c a

abbrev pub is_queued : Listing → Application → Bool
is_queued listing a = a.listing_id == listing.id && is_waiting a.status

-- The applications that wait behind the cursor, in the order of the queue.
unfoldable pub queue_behind : Listing → Option Application → List Application → List Application
queue_behind listing cursor rows =
    order_by comes_before (filter (λ a. is_queued listing a && is_past cursor a) rows)

-- `application.count({ where: { listingId, status: ACTIVE } })`
unfoldable pub count_active : ℕ → List Application → ℕ
count_active listing_id rows =
    length (filter (λ a. a.listing_id == listing_id && is_active a.status) rows)

-- the variables of the loop; of the cursor's application only `queueOrder` and `id` are read
pub record Progress : Type 0 where
  pub store : Store
  pub active_count : ℕ
  pub promoted_count : ℕ
  pub cursor : Option Application

-- `this.eligibilityService.evaluate(listing, profile).canApply`
unfoldable pub is_eligible : Listing → Store → Application → Bool
is_eligible listing s a =
    (evaluate_profile listing.criteria (find_profile a.applicant_id s.profiles) s.now).can_apply

abbrev pub activated : ℕ → Application → Application
activated now a = record a { status = active; active_at = some now }

-- the writes for an application that is promoted
unfoldable pub promote : Listing → Application → Progress → Result Progress
promote listing a st =
    let updated = update_application a.id (activated st.store.now) st.store in
    let p = find_profile a.applicant_id st.store.profiles in
    do
      recorded ← record_assessment a.id listing p promotion none updated
      let entry : Activity = record {
        application_id = a.id;
        type = application_promoted_to_active;
        actor_user_id = none;
        actor_type = system_actor;
        visibility = to_both;
        occurred_at = recorded.now;
        metadata = record no_metadata { from_status = some waiting; to_status = some active };
      }
      ok (record st {
        store = append_activity entry recorded;
        active_count = st.active_count + 1;
        promoted_count = st.promoted_count + 1;
      })

-- the loop over one batch; past the limit it breaks
unfoldable pub serve : Listing → List Application → Progress → Result Progress
unfolding promote
serve listing [] st = ok st
serve listing (a ∷ rest) st =
    let seen : Progress = record st { cursor = some a } in
    if leb active_applications_limit st.active_count
    then ok st
    else ((if is_eligible listing st.store a then promote listing a seen else ok seen) >>= λ st'.
        serve listing rest st')

-- The `while` loop, with fuel for the batches. Each full batch moves the cursor on by
-- `promotion_batch_size` applications, so fuel above the number of applications is enough.
unfoldable pub batches : ℕ → Listing → Progress → Result Progress
unfolding queue_behind
batches zero listing st = err internal_error
batches (suc fuel) listing st =
    let batch = take promotion_batch_size (queue_behind listing st.cursor st.store.applications) in
    if leb active_applications_limit st.active_count
    then ok st
    else if length batch == 0
    then ok st
    else (serve listing batch st >>= λ st'.
        let rest = batches fuel listing st' in
        if ltb (length batch) promotion_batch_size then ok st' else rest)

pub record Reconciled : Type 0 where
  pub store : Store
  pub promoted_count : ℕ
  pub remaining_capacity : ℕ

abbrev pub unchanged : Store → Reconciled
unchanged s = record { store = s; promoted_count = 0; remaining_capacity = 0 }

abbrev pub start : Listing → Store → Progress
start listing s = record {
  store = s;
  active_count = count_active listing.id s.applications;
  promoted_count = 0;
  cursor = none;
}

abbrev pub finish : Progress → Reconciled
finish st = record {
  store = st.store;
  promoted_count = st.promoted_count;
  remaining_capacity = active_applications_limit - st.active_count;
}

-- `reconcileWithinTransaction`
unfoldable pub reconcile : Listing → Store → Result Reconciled
reconcile listing s =
    if not (is_published listing.status)
    then ok (unchanged s)
    else if leb active_applications_limit (count_active listing.id s.applications)
    then ok (unchanged s)
    else (do st ← batches (suc (length s.applications)) listing (start listing s); ok (finish st))
