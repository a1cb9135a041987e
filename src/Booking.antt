-- ===== src/Booking.antt =====
-- apps/api/src/modules/booking: the booking aggregate, its table and its use cases.
pub mod Domain
pub mod Lifecycle
pub mod History
pub mod Occupancy
pub mod Creation
mod Tests
mod CreationTests
pub mod Store
pub mod UseCases
pub mod Commits
pub mod Interleavings
pub mod Guard
