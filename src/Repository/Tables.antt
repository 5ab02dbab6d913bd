-- ===== src/Repository/Tables.antt =====
-- The tables of application/database.py that the managed account reads: `orders`, `positions`,
-- `core_positions`, `core_fill_progress` and `idle_cash_state`, and the two amounts that
-- `system_state` holds of the account. The risk budget is in 10^-36.
use jd_holdings.Prelude.{ℕ, ◌*◌, ◌==◌, if◌then◌else◌, Option, none, some, List, [], ◌∷◌}
use jd_holdings.Model.Enums.{Symbol, same_symbol}
use jd_holdings.Model.Snapshot.{PositionSnapshot, IdleCashState}
use jd_holdings.Repository.Orders.{OrderRow}

pub record CoreRow : Type 0 where
  pub symbol : Symbol
  pub qty : ℕ
  pub avg_price : ℕ
  pub cost_basis : ℕ
  pub target_weight : ℕ
  pub target_qty : ℕ
  pub version : ℕ

pub record FillProgress : Type 0 where
  pub client_order_id : ℕ
  pub applied_filled_qty : ℕ
  pub applied_notional : ℕ

pub record Database : Type 0 where
  pub orders : List OrderRow
  pub positions : List PositionSnapshot
  pub core_positions : List CoreRow
  pub core_fill_progress : List FillProgress
  pub idle_cash_state : List IdleCashState
  pub high_water : Option ℕ
  pub risk_budget : Option ℕ

-- SELECT * FROM core_positions WHERE symbol = ?
unfoldable pub get_core_position : Symbol → List CoreRow → Option CoreRow
get_core_position symbol [] = none
get_core_position symbol (row ∷ rows) =
    if same_symbol row.symbol symbol then some row else get_core_position symbol rows

-- The progress of an order, 0 where there is no row.
unfoldable pub progress_of : ℕ → List FillProgress → ℕ × ℕ
progress_of id [] = (0, 0)
progress_of id (row ∷ rows) =
    if row.client_order_id == id
    then (row.applied_filled_qty, row.applied_notional)
    else progress_of id rows

-- managed_qty * avg_price of the symbol, 0 where there is no row.
unfoldable pub idle_cash_cost : Symbol → List IdleCashState → ℕ
idle_cash_cost symbol [] = 0
idle_cash_cost symbol (row ∷ rows) =
    if same_symbol row.symbol symbol
    then row.managed_quantity * row.average_price
    else idle_cash_cost symbol rows
