-- ===== src/Auth.antt =====
-- src/modules/auth: sessions by refresh tokens, and codes by SMS.
pub mod Redis
pub mod Model
pub mod Sessions
pub mod Otp
pub mod Rotation
pub mod Codes
pub mod Renewal
