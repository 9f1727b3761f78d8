-- ===== src/Marketplace.antt =====
-- src/modules/marketplace: the orders of listings.
pub mod Orders
pub mod Moves
pub mod Attributes
pub mod Details
pub mod Fitting
pub mod Accepting
pub mod Listings
pub mod Selling
pub mod Marks
pub mod Counters
pub mod Managing
pub mod Saving
