-- ===== src/Auth.antt =====
-- backend/src/tradeschool/auth: the accounts, the session tokens and the mailed links.
pub mod Models
pub mod Tokens
pub mod Verification
pub mod Reset
pub mod Manager
pub mod Invariant
pub mod Operations
pub mod Confirmed
pub mod Requests
pub mod Steps
pub mod Once
pub mod Cooldown
pub mod Works
