-- ===== src/Inventory/Ledger.antt =====
-- What the reservations promise: the stock that a row of `inventories` holds back is the sum of the
-- quantities of the product's RESERVED reservations.
pub mod Sums
pub mod Keys
pub mod Statements
pub mod Steps
pub mod Reserving
pub mod ReserveCall
pub mod Releasing
pub mod Listing
pub mod Others
pub mod ReleaseCall
pub mod ConfirmCall
pub mod RoundTrip
pub mod Returning
pub mod StockCalls
pub mod PriceCalls
pub mod CreateCall
pub mod Reachable
