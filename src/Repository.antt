-- ===== src/Repository.antt =====
-- application/database.py: the tables of the repository, and what its transactions do to them.
pub mod Errors
pub mod Orders
pub mod Tables
pub mod CoreFill
pub mod Recovery
pub mod Approvals
pub mod Positions
pub mod IdleCash
pub mod Plans
pub mod Signals
pub mod CoreSignals
