-- ===== src/Core.antt =====
-- The strategy's own logic, package `core`.
pub mod TakeProfit
pub mod Execution
pub mod Eligibility
pub mod Budget
pub mod Guards
pub mod Strategy
pub mod Scoring
pub mod Onboarding
pub mod Allocation
pub mod TwinCore
