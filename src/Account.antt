-- ===== src/Account.antt =====
-- application/managed_account.py: the cash and the risk that the program owns, rebuilt from its
-- own ledgers, and the reservation of a buy against them. Amounts are in 10^-36. The policy is the
-- one that `V322Policy.from_config` has read.
pub mod Sums
pub mod Ceiling
pub mod HighWater
pub mod Samples
mod Tests
use jd_holdings.Prelude.{
  ℕ, ◌+◌, ◌-◌, ◌*◌, max, ◌==◌, ltb, if◌then◌else◌, Bool, true, false, ◌&&◌, ℤ, pos, ◌+ℤ◌, ◌-ℤ◌,
  min_ℤ, ltb_ℤ, pos_part, Option, none, some, List, [], ◌∷◌, map, sum, one,
}
use jd_holdings.Model.Enums.{Symbol, Side, Purpose, OrderStatus, is_open, same_symbol}
use jd_holdings.Model.Snapshot.{OrderRequest, PositionSnapshot}
use jd_holdings.Model.Config.{StrategyConfig}
use jd_holdings.Core.Allocation.{V322Policy, hwm_risk_budget}
use jd_holdings.Core.TwinCore.{target_quantity}
use jd_holdings.Repository.Errors.{Error, Result, ◌then◌, unless, require}
use jd_holdings.Repository.Orders.{OrderRow, reserve_order, keep}
use jd_holdings.Repository.Tables.{
  CoreRow, FillProgress, Database, get_core_position, progress_of, idle_cash_cost,
}

abbrev pub is_buy : Side → Bool
is_buy Side.buy = true
is_buy Side.sell = false

abbrev pub is_core_buy : Purpose → Bool
is_core_buy Purpose.core_rebalance_buy = true
is_core_buy _ = false

-- What one filled order does to the cash.
pub cash_step : StrategyConfig → OrderRow → ℤ → Result ℤ
cash_step config row balance =
    if row.filled_qty == 0
    then Result.ok balance
    else (require Error.no_fill_price (keep row.average_fill_price row.price) then λ price.
        Result.ok (elim row.side [
          | Side.buy ↦ balance -ℤ pos (row.filled_qty * price * (one + config.global_.buy_fee))
          | Side.sell ↦ balance +ℤ pos (row.filled_qty * price * (one - config.global_.sell_fee))
        ]))

unfoldable pub cash_after : StrategyConfig → List OrderRow → ℤ → Result ℤ
cash_after config [] balance = Result.ok balance
cash_after config (row ∷ rows) balance = cash_step config row balance then cash_after config rows

unfoldable pub raw_managed_cash : StrategyConfig → V322Policy → Database → Result ℤ
raw_managed_cash config policy db = cash_after config db.orders (pos (policy.initial_capital * one))

unfoldable pub managed_cost_basis : StrategyConfig → Database → ℕ
managed_cost_basis config db =
    (sum (map (λ (p : PositionSnapshot). p.current_cost_basis) db.positions)
      + sum (map (λ (c : CoreRow). c.cost_basis) db.core_positions)
      + (if config.idle_cash.enabled
          then idle_cash_cost config.idle_cash.symbol db.idle_cash_state
          else 0))
    * one

-- The stored amount, or the initial capital.
abbrev pub stored_risk_budget : V322Policy → Database → ℕ
stored_risk_budget policy db = elim db.risk_budget [
  | none ↦ policy.initial_capital * one
  | some budget ↦ budget
]

abbrev pub stored_high_water : V322Policy → Database → ℕ
stored_high_water policy db = elim db.high_water [
  | none ↦ policy.initial_capital
  | some high ↦ high
]

-- What an open buy order may still cost.
unfoldable pub open_buy_amount : StrategyConfig → OrderRow → ℕ
open_buy_amount config row = elim row.price [
  | none ↦ 0
  | some price ↦
      if is_buy row.side && is_open row.status
      then (row.qty - row.filled_qty) * price * (one + config.global_.buy_fee)
      else 0
]

unfoldable pub reserved_open_buy : StrategyConfig → List OrderRow → ℕ
reserved_open_buy config [] = 0
reserved_open_buy config (row ∷ rows) = open_buy_amount config row + reserved_open_buy config rows

-- Shares of a core buy that are ordered or filled and not yet in the core ledger.
unfoldable pub committed_shares : List FillProgress → Symbol → OrderRow → ℕ
committed_shares progress symbol row =
    if same_symbol row.symbol symbol && (is_buy row.side && is_core_buy row.purpose)
    then (if is_open row.status then row.qty else row.filled_qty)
      - (progress_of row.client_order_id progress).0
    else 0

unfoldable pub committed_core_buy_quantity : List FillProgress → Symbol → List OrderRow → ℕ
committed_core_buy_quantity progress symbol [] = 0
committed_core_buy_quantity progress symbol (row ∷ rows) =
    committed_shares progress symbol row + committed_core_buy_quantity progress symbol rows

-- The target of a core symbol; a row of an older database has its weight only.
unfoldable pub core_target : StrategyConfig → ℕ → ℕ → CoreRow → ℕ
core_target config risk_budget price core =
    if core.target_qty == 0 && ltb 0 core.target_weight
    then target_quantity risk_budget core.target_weight price config.global_.buy_fee
    else core.target_qty

-- The shares that a core buy may still ask for.
unfoldable pub remaining_target : StrategyConfig → ℕ → ℕ → Symbol → Database → CoreRow → ℕ
remaining_target config risk_budget price symbol db core =
    core_target config risk_budget price core
    - core.qty
    - committed_core_buy_quantity db.core_fill_progress symbol db.orders

unfoldable pub core_target_check :
    StrategyConfig → ℕ → ℕ → OrderRequest → Database → Result {0} Unit
core_target_check config risk_budget price request db =
    if is_core_buy request.purpose
    then (require Error.not_core_target (get_core_position request.symbol db.core_positions)
        then λ core.
            unless
              (ltb (remaining_target config risk_budget price request.symbol db core)
                request.quantity)
              Error.target_exceeded (Result.ok tt))
    else Result.ok tt

-- max(0, min(cash, risk, broker))
unfoldable pub least_of : ℤ → ℤ → ℤ → ℕ
least_of cash risk broker = pos_part (min_ℤ (min_ℤ cash risk) broker)

-- Spendable cash; `broker_available` is the broker's buying power in USD.
unfoldable pub available_managed_cash : StrategyConfig → V322Policy → ℤ → ℕ → Database → Result ℕ
available_managed_cash config policy broker_available additional db =
    raw_managed_cash config policy db then λ raw_cash.
    let reserved = reserved_open_buy config db.orders in
    let risk =
      pos (stored_risk_budget policy db)
      -ℤ pos (managed_cost_basis config db + reserved + additional) in
    Result.ok
      (least_of (raw_cash -ℤ pos (reserved + additional)) risk (broker_available -ℤ pos additional))

abbrev pub as_buy : OrderRequest → ℕ → OrderRequest
as_buy request price = record {
  client_order_id = request.client_order_id;
  symbol = request.symbol;
  side = Side.buy;
  is_limit = request.is_limit;
  quantity = request.quantity;
  price = some price;
  purpose = request.purpose;
  signal_id = request.signal_id;
}

abbrev pub with_orders : Database → List OrderRow → Database
with_orders db orders = record {
  orders = orders;
  positions = db.positions;
  core_positions = db.core_positions;
  core_fill_progress = db.core_fill_progress;
  idle_cash_state = db.idle_cash_state;
  high_water = db.high_water;
  risk_budget = db.risk_budget;
}

-- The price of the whole order with its fee.
abbrev pub required_amount : StrategyConfig → ℕ → ℕ → ℕ
required_amount config quantity price = quantity * price * (one + config.global_.buy_fee)

unfoldable pub reserve_buy_order_with_managed_cash :
    StrategyConfig
    → V322Policy
    → ℤ
    → OrderRequest
    → ℕ
    → Option ℕ
    → Database
    → Result (Bool × Database)
reserve_buy_order_with_managed_cash config policy broker_available request price cycle_id db =
    let required = required_amount config request.quantity price in
    let invested = managed_cost_basis config db in
    let budget = stored_risk_budget policy db in
    let reserved = reserved_open_buy config db.orders in
    raw_managed_cash config policy db then λ raw_cash.
    (core_target_check config budget price request db then λ checked.
    unless
      (ltb
        (least_of (raw_cash -ℤ pos reserved) (pos budget -ℤ pos (invested + reserved))
          broker_available)
        required)
      Error.risk_budget_exceeded
      (let inserted = reserve_order (as_buy request price) cycle_id db.orders in
        Result.ok (inserted.0, with_orders db inserted.1)))

-- record_v322_equity: the high-water mark and the risk budget after a completed session.
unfoldable pub record_v322_equity : V322Policy → ℤ → Database → Result Database
record_v322_equity policy marked_equity db = unless (ltb_ℤ marked_equity (pos 0)) Error.bad_value (
    let marked = pos_part marked_equity in
    let high = max (stored_high_water policy db) (max marked policy.initial_capital) in
    Result.ok (record {
      orders = db.orders;
      positions = db.positions;
      core_positions = db.core_positions;
      core_fill_progress = db.core_fill_progress;
      idle_cash_state = db.idle_cash_state;
      high_water = some high;
      risk_budget = some (hwm_risk_budget high marked policy);
    }))
