-- ===== src/PositionManager/Samples.antt =====
-- A book for the tests: a first entry of ten shares that is filled, and then its first profit.
use jd_holdings.Prelude.{◌*◌, ◌/◌, true, false, none, some, [], ◌∷◌, one}
use jd_holdings.Model.Enums.{
  Symbol, PositionState, RiskReviewLevel, DecisionType, MarketRegime, SignalGrade, Side, Purpose,
  OrderStatus,
}
use jd_holdings.Model.Snapshot.{PositionSnapshot, ScoreResult}
use jd_holdings.Repository.Orders.{OrderRow}
use jd_holdings.Repository.Plans.{TpPlanRow}
use jd_holdings.Repository.Signals.{SignalRow, SignalStatus}
use jd_holdings.PositionManager.Book.{Decimals, Book}

abbrev pub sample_decimals : Decimals
sample_decimals = record { divide = λ a b. a / b; times = λ a b. a * b / one }

abbrev pub sample_score : ScoreResult
sample_score = record {
  total = 90;
  grade = SignalGrade.a;
  regime = MarketRegime.green;
  regime_score = 25;
  oversold_score = 30;
  reversal_score = 20;
  volume_score = 10;
  atr_score = 5;
  raw_regime_score = none;
  raw_oversold_score = none;
  raw_reversal_score = none;
  raw_volume_score = none;
  raw_atr_score = none;
}

abbrev pub entry_signal : SignalRow
entry_signal = record {
  signal_id = 1;
  cycle_id = none;
  symbol = Symbol.tqqq;
  trade_date = 739_000;
  score = sample_score;
  atr_pct = 0;
  action = DecisionType.first_entry_candidate;
  target_stage = some 1;
  signal_close = 50 * one;
  stage_trigger_price = none;
  max_chase_price = 51 * one;
  planned_budget = 500 * one;
  cycle_exposure_cap = 5_000 * one;
  valid_until = 100;
  status = SignalStatus.active;
  processed = false;
  strategy_version = 1;
  config_version = 1;
}

abbrev pub buy_order : OrderRow
buy_order = record {
  client_order_id = 7;
  broker_order_id = some 70;
  signal_id = some 1;
  cycle_id = none;
  symbol = Symbol.tqqq;
  side = Side.buy;
  is_limit = true;
  price = some (51 * one);
  qty = 10;
  filled_qty = 10;
  average_fill_price = some (50 * one);
  status = OrderStatus.filled;
  purpose = Purpose.entry_1;
  applied = false;
}

abbrev pub waiting_position : PositionSnapshot
waiting_position = record {
  symbol = Symbol.tqqq;
  state = PositionState.waiting_1st_fill;
  cycle_id = none;
  quantity = 0;
  average_price = 0;
  current_cost_basis = 0;
  cycle_exposure_cap = 0;
  staged_entry_capital = 0;
  cash_remaining = 10_000 * one;
  entry_count = 0;
  anchor_price = 0;
  last_entry_price = 0;
  last_entry_date = none;
  rebuy_count = 0;
  rebuy_recovery_armed = false;
  tp1_filled_qty = 0;
  risk_review_level = RiskReviewLevel.none;
  version = 4;
}

abbrev pub waiting_book : Book
waiting_book = record {
  orders = buy_order ∷ [];
  signals = record { rows = entry_signal ∷ []; last_id = 1 };
  position_table = record { positions = waiting_position ∷ []; state_history = [] };
  tp_plans = record { rows = []; last_id = 0 };
  completions = [];
}

-- Ten shares with a plan of five and five, of which an order has sold three.
abbrev pub sample_plan : TpPlanRow
sample_plan = record {
  tp_plan_id = 1;
  cycle_id = some 9;
  symbol = Symbol.tqqq;
  source_event = Purpose.entry_1;
  average_price = 50 * one;
  atr_pct = 0;
  tp1_price = 53 * one;
  tp1_target_qty = 5;
  tp1_filled_qty = 0;
  tp2_price = 56 * one;
  tp2_target_qty = 5;
  tp2_filled_qty = 0;
  revision = 0;
  active = true;
}

abbrev pub sell_order : OrderRow
sell_order = record buy_order {
  client_order_id = 8;
  side = Side.sell;
  qty = 5;
  filled_qty = 3;
  average_fill_price = some (53 * one);
  status = OrderStatus.partial_filled;
  purpose = Purpose.tp1;
}

abbrev pub held_position : PositionSnapshot
held_position = record waiting_position {
  state = PositionState.holding_1st;
  cycle_id = some 9;
  quantity = 10;
  average_price = 50 * one;
}

abbrev pub held_book : Book
held_book = record {
  orders = sell_order ∷ [];
  signals = record { rows = []; last_id = 1 };
  position_table = record { positions = held_position ∷ []; state_history = [] };
  tp_plans = record { rows = sample_plan ∷ []; last_id = 1 };
  completions = [];
}
