-- ===== src/Scheduling.antt =====
-- Availability: apps/api/src/modules/scheduling.
pub mod Interval
pub mod IntervalSet
pub mod WallClock
pub mod Pattern
pub mod Recurrence
pub mod Availability
pub mod PatternColumns
pub mod PatternHistory
mod Tests
mod ResolveTests
