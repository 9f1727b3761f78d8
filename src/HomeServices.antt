-- ===== src/HomeServices.antt =====
-- src/modules/home-services: ELK's own cleaning and repair services.
pub mod Model
pub mod Rules
pub mod Repository
pub mod Service
pub mod Bookings
pub mod Placing
pub mod Cancelling
pub mod Requests
