-- ===== src/Reconciliation.antt =====
-- application/reconciliation.py: what the broker holds is compared with the database, symbol by
-- symbol. The broker is a parameter: what `get_holdings` and `list_orders` of its client answer,
-- `none` where the call raises. A quantity is in 10^-18; NaN and the infinities are left out.
pub mod Issues
pub mod Run
pub mod Agreement
pub mod SafeMode
pub mod Clean
pub mod Idle
mod Tests
