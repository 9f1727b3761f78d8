-- ===== src/Admin.antt =====
-- src/modules/admin: a company's bookings.
pub mod Bookings
pub mod Dispatch
pub mod Approvals
pub mod Progress
