-- ===== src/Repository/CoreFill.antt =====
-- apply_core_fill of application/database.py: a broker reports fills cumulatively, and the core
-- ledger takes only what is new since the last time. `divide` is the division of Decimals, which
-- gives an average price and nothing else here.
pub mod Laws
pub mod Samples
mod Tests
use jd_holdings.Prelude.{
  ℕ, ◌+◌, ◌-◌, ◌*◌, ◌==◌, ltb, if◌then◌else◌, Bool, true, false, ◌&&◌, Option, none, some, List, [],
  ◌∷◌,
}
use jd_holdings.Model.Enums.{Symbol, Side, same_symbol}
use jd_holdings.Repository.Errors.{Error, Result, ◌then◌, unless, require}
use jd_holdings.Repository.Orders.{OrderRow, get_order_by_client_id, keep}
use jd_holdings.Repository.Tables.{CoreRow, FillProgress, Database, get_core_position, progress_of}

-- `_decimal(average_fill_price or price)`: 0 where both are missing.
abbrev pub price_or_zero : Option ℕ → ℕ
price_or_zero none = 0
price_or_zero (some price) = price

abbrev pub cumulative_notional : OrderRow → ℕ
cumulative_notional order =
    price_or_zero (keep order.average_fill_price order.price) * order.filled_qty

abbrev pub ledger_row : CoreRow → ℕ → ℕ → ℕ → CoreRow
ledger_row row qty average cost = record {
  symbol = row.symbol;
  qty = qty;
  avg_price = average;
  cost_basis = cost;
  target_weight = row.target_weight;
  target_qty = row.target_qty;
  version = row.version + 1;
}

-- UPDATE core_positions ... WHERE symbol = ?
unfoldable pub set_core_position : Symbol → CoreRow → List CoreRow → List CoreRow
set_core_position symbol new [] = []
set_core_position symbol new (row ∷ rows) =
    (if same_symbol row.symbol symbol then new else row) ∷ set_core_position symbol new rows

-- INSERT ... ON CONFLICT(client_order_id) DO UPDATE
unfoldable pub upsert_progress : FillProgress → List FillProgress → List FillProgress
upsert_progress new [] = new ∷ []
upsert_progress new (row ∷ rows) =
    if row.client_order_id == new.client_order_id
    then new ∷ rows
    else row ∷ upsert_progress new rows

-- A core row after `filled - applied` further shares for `cumulative - notional` more money.
unfoldable pub filled_row : (ℕ → ℕ → ℕ) → OrderRow → ℕ → ℕ → CoreRow → Result CoreRow
filled_row divide order applied notional row = elim order.side [
  | Side.buy ↦
      let qty = row.qty + (order.filled_qty - applied) in
      let cost = row.cost_basis + cumulative_notional order - notional in
      unless (ltb (row.cost_basis + cumulative_notional order) notional) Error.state_conflict
        (Result.ok (ledger_row row qty (if qty == 0 then 0 else divide cost qty) cost))
  | Side.sell ↦
      let qty = row.qty - (order.filled_qty - applied) in
      let average = if qty == 0 then 0 else row.avg_price in
      unless (ltb row.qty (order.filled_qty - applied)) Error.state_conflict
        (Result.ok (ledger_row row qty average (average * qty)))
]

abbrev pub with_fill : Database → List CoreRow → List FillProgress → Database
with_fill db core progress = record {
  orders = db.orders;
  positions = db.positions;
  core_positions = core;
  core_fill_progress = progress;
  idle_cash_state = db.idle_cash_state;
  high_water = db.high_water;
  risk_budget = db.risk_budget;
}

-- `applied` and `notional` are what the ledger already has of the order.
unfoldable pub apply_new_fill :
    (ℕ → ℕ → ℕ) → ℕ → OrderRow → ℕ → ℕ → CoreRow → Database → Result Database
apply_new_fill divide id order applied notional row db =
    if (order.filled_qty == applied) && (cumulative_notional order == notional)
    then Result.ok db
    else (filled_row divide order applied notional row then λ new. Result.ok (
        with_fill db (set_core_position order.symbol new db.core_positions) (
          upsert_progress
            (record {
              client_order_id = id;
              applied_filled_qty = order.filled_qty;
              applied_notional = cumulative_notional order;
            })
            db.core_fill_progress)))

unfoldable pub apply_core_fill : (ℕ → ℕ → ℕ) → ℕ → Database → Result Database
apply_core_fill divide id db =
    require Error.missing_key (get_order_by_client_id id db.orders) then λ order.
    let (applied, notional) = progress_of id db.core_fill_progress in
    unless (ltb order.filled_qty applied) Error.state_conflict (
      require Error.missing_key (get_core_position order.symbol db.core_positions) then λ row.
      unless (ltb applied order.filled_qty && ltb (cumulative_notional order) notional)
        Error.state_conflict (apply_new_fill divide id order applied notional row db))
