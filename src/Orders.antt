-- ===== src/Orders.antt =====
-- The order service (orderhub-order-service/internal).
pub mod Models
pub mod Repo
pub mod Pricing
pub mod Service
pub mod Handler
pub mod Access
pub mod Lists
pub mod Cancelling
pub mod CancelTwice
pub mod CancelReturns
pub mod Storing
pub mod Placing
pub mod Totals
pub mod Duplicates
pub mod Paging
mod Tests
