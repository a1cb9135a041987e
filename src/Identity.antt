-- ===== src/Identity.antt =====
-- The part of the program that knows who its callers are: apps/api/src/modules/identity.
pub mod Sessions
pub mod Invitations
pub mod Directory
pub mod Access
pub mod SignIn
