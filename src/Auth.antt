-- ===== src/Auth.antt =====
-- backend/src/modules/auth and the invitations of backend/src/modules/tenants.
pub mod Tables
pub mod Sessions
pub mod Counters
pub mod LoginAttempts
pub mod Users
pub mod Invitations
pub mod Registration
pub mod Accounts
pub mod Login
pub mod Requests
pub mod Kept
pub mod KeptRequests
pub mod Replay
pub mod Rotation
pub mod SingleUse
pub mod Lockout
pub mod InvitationLink
