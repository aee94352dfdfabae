-- ===== src/Auth.antt =====
-- app/backend/auth.py: remembered browsers, the login throttle, the owner password, and the gate
-- that every request passes.
pub mod Sessions
pub mod Throttle
pub mod Password
pub mod Gate
mod Examples
