-- ===== src/Listings.antt =====
-- src/listings: the status of a listing, its rental, and the display order of a provider's listings.
pub mod Ordering
pub mod Status
pub mod Rental
pub mod Tests
