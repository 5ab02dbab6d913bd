-- ===== src/PositionManager/Book.antt =====
-- The state that application/position_manager.py works on: orders, signals, positions and plans.
use jd_holdings.Prelude.{ℕ, List}
use jd_holdings.Model.Enums.{Symbol}
use jd_holdings.Repository.Orders.{OrderRow}
use jd_holdings.Repository.Positions.{PositionTable}
use jd_holdings.Repository.Plans.{PlanTable}
use jd_holdings.Repository.Signals.{SignalTable}

pub record Decimals : Type 0 where
  pub divide : ℕ → ℕ → ℕ
  pub times : ℕ → ℕ → ℕ

-- The key and the value of `tp1_completed_at`.
pub record Completion : Type 0 where
  pub symbol : Symbol
  pub cycle_id : ℕ
  pub completed_at : ℕ

pub record Book : Type 0 where
  pub orders : List OrderRow
  pub signals : SignalTable
  pub position_table : PositionTable
  pub tp_plans : PlanTable
  pub completions : List Completion
