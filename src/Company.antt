-- ===== src/Company.antt =====
-- src/modules/admin/admin-catalog.service.ts: a company's people, and the promo codes.
pub mod Staff
pub mod Contacts
pub mod Areas
pub mod Centres
pub mod Promos
pub mod Expiry
