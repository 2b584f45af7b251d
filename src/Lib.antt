-- ===== src/Lib.antt =====
-- Renyqo, the server of a marketplace for rented flats: what decides who may apply to a listing, who
-- gets one of its places, and the machinery that this stands on.
--
-- A provider publishes listings with eligibility criteria; an applicant with a profile applies. At
-- most five applications to a listing are active, the others wait in a queue; whenever a place gets
-- free, in the same transaction, those who wait and are eligible move up. Every change of an
-- application closes what hangs on it (viewings, proposals, appointments), appends an activity, and
-- runs in a serializable transaction that is retried on conflict. Events leave through an outbox.
--
-- Files (paths from the repository's root):
--   Eligibility, Eligibility/Filter   src/eligibility/profile-eligibility-evaluator.ts; the numbers of
--     Eligibility/Doubles are the finite and the special values of a double, exactly
--   Domain, Applications/Store        prisma/schema.prisma; the tables and the results of a handler
--   Applications/Assessments          src/eligibility/listing-criteria-revision.service.ts,
--     src/eligibility/application-eligibility-assessment.service.ts
--   Applications/Admission            src/applications/application-admission.service.ts
--   Applications/Promotion            src/applications/application-waiting-promotion.service.ts
--   Applications/Process              src/applications/application-process.policy.ts
--   Applications/Closing              src/applications/viewing-lifecycle.service.ts
--   Applications/Lifecycle            src/applications/application-lifecycle.service.ts, with the
--     expiry of a viewing's interest and the revalidation of a profile in child modules
--   Applications/Curation             src/applications/provider-application-curation.service.ts
--   Viewings                          src/application-viewings/application-viewing.policy.ts,
--     src/application-viewings/viewing-workflow-command.policy.ts
--   Workflows/Commands, Requests, Execute   `execute` of
--     src/application-viewings/viewing-workflow-command.service.ts, with its hash and its receipts
--   Workflows/Rows, Step, Answers, Offers, Apply   `apply` of the same file, one function for each
--     action, and what the actions write
--   Workflows/Reading, Outcomes, Decisions
--     src/application-viewings/viewing-workflow-decision.service.ts
--   Workflows/Expiry                  src/application-viewings/viewing-workflow-expiry.service.ts
--   Workflows/Access                  src/application-viewings/application-viewing-access.service.ts
--   Workflows/Consideration           src/applications/application-consideration.service.ts
--   Listings/Status, Listings/Rental  src/listings/listings.service.ts: the changes of status and
--     `rentListing`; a change takes the store in which the listing was read before the transaction
--   Listings/Ordering                 src/listings/listing-ordering.service.ts
--   Outbox                            src/outbox/outbox-repository.ts,
--     src/outbox/outbox-dispatcher.service.ts
--   Support/Retry                     src/prisma/run-serializable-transaction.ts
--   Support/Throttle                  src/applications/application-action-throttler.storage.ts
-- Prelude and its children hold Boolean tests, lists by native numbers, and ordering by insertion.
--
-- State and operations: a handler is a function from a store of tables to a result with the store
-- after it; where it throws, the database rolls back to the store before. Locks are not states, since
-- a transaction is one pass. One transaction reads one time from the clock, `now`, though the code
-- reads it several times. A UUID is the number that it is ordered by, and the database hands out
-- `next_id` and `next_queue_order`. A date is its milliseconds since 1970; earlier ones do not occur.
-- A handler that begins by reading a row is two functions, as `apply`, which reads the listing, and
-- `apply_to`, which goes on from it.
--
-- The provider and the applicant agree on a viewing by commands to the workflow of the application.
-- A command reads the workflow with its pending proposal and its confirmed appointment, checks them,
-- leaves a patch, and `bump` writes it with the next revision. `execute` answers a request key that it
-- knows from the receipt. It commits a failure where it came upon an expiry, so that its transaction
-- returns an outcome, and only then throws.
--
-- Bounds: the loop over batches has fuel, one more than there are applications. Each full batch moves
-- the cursor on past fifty of them, so that the fuel is never used up. Every other loop is by recursion
-- on a list or on the attempts that are left.
--
-- A number of a column is a natural number without the bound of its SQL type, as the display order,
-- which is an int4: what happens beyond 2^31 is left out. The text of a schedule is read by the
-- creation of the proposal and not by the schedule, so that a command that is wrong in both ways gets
-- the error of its times first. The filter on the applications that a provider sees is the Boolean
-- function that PostgreSQL computes from it.
--
-- Not modelled: the creation and the input of a listing, projections of the viewing workflow, the events that the handlers put into the outbox,
-- row locks, unique keys of the tables where the code does not check them, conversations, documents,
-- memberships and workspaces, queries for reading, and what only calls third-party code (sessions,
-- mail, image storage, language models). The SQL functions `legacy_viewing_proposal_rows` and
-- `reconcile_legacy_viewing_workflow`, SHA-256 and the reading of instants are parameters, and so is
-- how the database reads a filter, as documented by Prisma (the record `Filtering`).
pub mod Prelude
pub mod Eligibility
pub mod Domain
pub mod Applications
pub mod Viewings
pub mod Outbox
pub mod Listings
pub mod Support
pub mod Workflows
