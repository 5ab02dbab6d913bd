-- ===== src/Repository/CoreFill/Samples.antt =====
-- An order of 30 shares that has filled, of which the ledger has taken 10, and a sell of 5.
use jd_holdings.Prelude.{ℕ, ◌*◌, false, true, none, some, [], ◌∷◌, one}
use jd_holdings.Model.Enums.{Symbol, Side, Purpose, OrderStatus}
use jd_holdings.Repository.Orders.{OrderRow}
use jd_holdings.Repository.Tables.{CoreRow, Database}

abbrev pub order : ℕ → Side → Purpose → ℕ → OrderRow
order id side purpose quantity = record {
  client_order_id = id;
  broker_order_id = some id;
  signal_id = none;
  cycle_id = none;
  symbol = Symbol.qqq;
  side = side;
  is_limit = true;
  price = some (410 * one);
  qty = quantity;
  filled_qty = quantity;
  average_fill_price = some (400 * one);
  status = OrderStatus.filled;
  purpose = purpose;
  applied = false;
}

abbrev pub bought : OrderRow
bought = order 1 Side.buy Purpose.core_rebalance_buy 30

abbrev pub sold : OrderRow
sold = order 2 Side.sell Purpose.core_rebalance_sell 5

abbrev pub row : CoreRow
row = record {
  symbol = Symbol.qqq;
  qty = 10;
  avg_price = 400 * one;
  cost_basis = 4_000 * one;
  target_weight = 0;
  target_qty = 100;
  version = 1;
}

abbrev pub db : Database
db = record {
  orders = bought ∷ sold ∷ [];
  positions = [];
  core_positions = row ∷ [];
  core_fill_progress =
      record { client_order_id = 1; applied_filled_qty = 10; applied_notional = 4_000 * one } ∷ [];
  idle_cash_state = [];
  high_water = none;
  risk_budget = none;
}
