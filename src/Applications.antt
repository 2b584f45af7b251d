-- ===== src/Applications.antt =====
-- src/applications: the life of an application to a listing.
pub mod Store
pub mod Assessments
pub mod Promotion
pub mod Admission
pub mod Process
pub mod Closing
pub mod Lifecycle
pub mod Curation
pub mod Frame
mod Tests
