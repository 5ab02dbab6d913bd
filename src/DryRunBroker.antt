-- ===== src/DryRunBroker.antt =====
-- DryRunBroker of application/broker.py: a broker in memory. An order id is its number in the
-- sequence, the orders are in the order of their ids, and `divide` is the division of Decimals. An
-- operation that raises keeps what it has changed before.
pub mod Wallet
pub mod Orders
pub mod Conserved
pub mod Fills
pub mod Histories
pub mod Placed
mod Tests
