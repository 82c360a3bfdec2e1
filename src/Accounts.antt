-- ===== src/Accounts.antt =====
-- The accounts of the web application: invitations (apps/web/src/lib/auth/invitation-service.ts),
-- members (member-administration.ts) and the first administrator (setup-service.ts), over the tables
-- that they share.
pub mod Rows
pub mod Invitations
pub mod Members
pub mod Setup
pub mod Sound
pub mod Later
pub mod Ensures
pub mod Steps
pub mod Governing
pub mod History
pub mod Invited
