-- ===== src/Workflows.antt =====
-- src/application-viewings/viewing-workflow-*.service.ts: the commands by which a provider and an
-- applicant agree on a viewing, one workflow for each application.
pub mod Commands
pub mod Access
pub mod Rows
pub mod Step
pub mod Answers
pub mod Offers
pub mod Apply
pub mod Frame
pub mod Expiry
pub mod Consideration
pub mod Reading
pub mod Outcomes
pub mod Decisions
pub mod Requests
pub mod Execute
mod Tests
