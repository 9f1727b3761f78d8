-- ===== src/Catalogue.antt =====
-- src/modules/admin: the services of the catalogue, and the requests to change them.
pub mod Terms
pub mod Repository
pub mod Service
pub mod Approvals
pub mod Standing
pub mod Duties
pub mod Decided
pub mod Refinement
pub mod Once
pub mod Pricing
