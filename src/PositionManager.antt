-- ===== src/PositionManager.antt =====
-- application/position_manager.py: what a filled order does to a position and its take-profit plan.
-- `Decimals` is the arithmetic of Decimals whose results can be rounded. The text of a new cycle
-- (a uuid) and the column `updated_at` of an order are arguments.
pub mod Book
pub mod Buying
pub mod Selling
pub mod Balance
pub mod Sells
pub mod Bought
pub mod Buys
pub mod Samples
mod Tests
