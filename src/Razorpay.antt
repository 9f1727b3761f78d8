-- ===== src/Razorpay.antt =====
-- src/modules/razorpay: payments for ELK's cleaning and repair bookings.
pub mod Repository
pub mod Service
pub mod Queue
pub mod Invariant
pub mod Capturing
pub mod Refunds
pub mod Settlement
pub mod Recording
pub mod Jobs
