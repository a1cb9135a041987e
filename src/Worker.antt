-- ===== src/Worker.antt =====
-- The consumer of the outbox: apps/worker/src/outbox, over the table of
-- packages/db/migrations/0001_platform_outbox.sql.
pub mod Dispatch
pub mod Claim
pub mod Consumer
pub mod Handling
pub mod Claiming
pub mod Paging
pub mod Distance
pub mod Progress
pub mod Ownership
mod Tests
