-- ===== src/Account/Samples.antt =====
-- Values that the tests of the account and of the order manager share.
use jd_holdings.Prelude.{◌*◌, true, none, some, [], ◌∷◌, one, cent}
use jd_holdings.Model.Enums.{Symbol, Side, Purpose}
use jd_holdings.Model.Snapshot.{OrderRequest}
use jd_holdings.Core.Allocation.{V322Policy}
use jd_holdings.Repository.Orders.{OrderRow, new_order}
use jd_holdings.Repository.Tables.{CoreRow, Database}
use jd_holdings.Account.{as_buy, with_orders}

abbrev pub sample_policy : V322Policy
sample_policy = record {
  initial_capital = 50_000 * one;
  hwm_reinvestment_fraction = 75 * cent;
  sma_short = 50;
  sma_long = 200;
  slope_lookback = 21;
  momentum_short = 21;
  momentum_medium = 63;
  momentum_long = 126;
  volatility_window = 20;
  volatility_brake = 30 * cent;
  trend_votes_required = 3;
  leverage_defensive = 50 * cent;
  leverage_normal = one;
  leverage_trend = 125 * cent;
  leverage_strong = 150 * cent;
  benchmark_is_soxx = true;
  rs_lookback = 126;
  rs_sleeve_fraction = 50 * cent;
  jdss_overlay_weight = 5 * cent;
  resets_at_first_session = true;
}

-- 100 shares of QQQ are the target, and 20 are held.
abbrev pub qqq_row : CoreRow
qqq_row = record {
  symbol = Symbol.qqq;
  qty = 20;
  avg_price = 400 * one;
  cost_basis = 8_000 * one;
  target_weight = 80 * cent;
  target_qty = 100;
  version = 1;
}

abbrev pub sample_db : Database
sample_db = record {
  orders = [];
  positions = [];
  core_positions = qqq_row ∷ [];
  core_fill_progress = [];
  idle_cash_state = [];
  high_water = none;
  risk_budget = none;
}

-- A buy of 30 shares of QQQ at 410.
abbrev pub qqq_request : OrderRequest
qqq_request = record {
  client_order_id = 7;
  symbol = Symbol.qqq;
  side = Side.buy;
  is_limit = true;
  quantity = 30;
  price = some (410 * one);
  purpose = Purpose.core_rebalance_buy;
  signal_id = none;
}

abbrev pub qqq_order : OrderRow
qqq_order = new_order (as_buy qqq_request (410 * one)) none

-- The database once the buy is reserved.
abbrev pub reserved_db : Database
reserved_db = with_orders sample_db (qqq_order ∷ [])
