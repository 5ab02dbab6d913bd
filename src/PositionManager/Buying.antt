-- ===== src/PositionManager/Buying.antt =====
-- apply_buy_fill of application/position_manager.py.
use jd_holdings.Prelude.{
  ℕ, ◌+◌, ◌-◌, ◌*◌, ◌==◌, if◌then◌else◌, false, not, Option, none, some, one, cent,
}
use jd_holdings.Model.Enums.{DecisionType, PositionState, same_state}
use jd_holdings.Model.Snapshot.{PositionSnapshot}
use jd_holdings.Model.Config.{StrategyConfig}
use jd_holdings.Core.TakeProfit.{calculate_take_profit}
use jd_holdings.Repository.Errors.{Error, Result, ◌then◌, unless, require}
use jd_holdings.Repository.Orders.{OrderRow, get_order_by_client_id, mark_order_applied}
use jd_holdings.Repository.Positions.{get_position, transition_position}
use jd_holdings.Repository.Plans.{TpPlanRow, PlanRequest, create_tp_plan, active_tp_plan}
use jd_holdings.Repository.Signals.{SignalRow, get_signal}
use jd_holdings.PositionManager.Book.{Decimals, Book}

-- WAITING_FILL_BY_ACTION_STAGE
abbrev pub waiting_fill : DecisionType → Option ℕ → Option PositionState
waiting_fill DecisionType.first_entry_candidate (some stage) =
    if stage == 1 then some PositionState.waiting_1st_fill else none
waiting_fill DecisionType.add_entry_candidate (some stage) =
    if stage == 2
    then some PositionState.waiting_2nd_fill
    else (if stage == 3
        then some PositionState.waiting_3rd_fill
        else (if stage == 4 then some PositionState.waiting_4th_fill else none))
waiting_fill DecisionType.rebuy_candidate none = some PositionState.waiting_rebuy_fill
waiting_fill _ _ = none

-- HOLDING_BY_ACTION_STAGE
abbrev pub holding : DecisionType → Option ℕ → Option PositionState
holding DecisionType.first_entry_candidate (some stage) =
    if stage == 1 then some PositionState.holding_1st else none
holding DecisionType.add_entry_candidate (some stage) =
    if stage == 2
    then some PositionState.holding_2nd
    else (if stage == 3
        then some PositionState.holding_3rd
        else (if stage == 4 then some PositionState.holding_4th else none))
holding DecisionType.rebuy_candidate none = some PositionState.holding_rebuy
holding _ _ = none

-- `int(stage) if stage else None`: no stage and stage 0 are none.
abbrev pub stage_of : Option ℕ → Option ℕ
stage_of none = none
stage_of (some stage) = if stage == 0 then none else some stage

-- What a fill writes: the plan that it creates, and how it moves the position.
pub record BuyChange : Type 0 where
  pub plan : PlanRequest
  pub expected : PositionState
  pub target : PositionState
  pub version : ℕ
  pub updates : PositionSnapshot → PositionSnapshot

-- The columns of a position that only some of the actions change.
pub record Entry : Type 0 where
  pub cycle_id : Option ℕ
  pub entry_count : ℕ
  pub staged : ℕ
  pub anchor : ℕ
  pub rebuy_count : ℕ

unfoldable pub entry_of : DecisionType → Option ℕ → ℕ → ℕ → ℕ → PositionSnapshot → Entry
entry_of DecisionType.first_entry_candidate stage new_cycle gross fill_price position = record {
  cycle_id = some new_cycle;
  entry_count = 1;
  staged = gross;
  anchor = fill_price;
  rebuy_count = position.rebuy_count;
}
entry_of DecisionType.add_entry_candidate stage new_cycle gross fill_price position = record {
  cycle_id = position.cycle_id;
  entry_count = elim stage [ none ↦ position.entry_count + 1 | some n ↦ n ];
  staged = position.staged_entry_capital + gross;
  anchor = position.anchor_price;
  rebuy_count = position.rebuy_count;
}
entry_of _ stage new_cycle gross fill_price position = record {
  cycle_id = position.cycle_id;
  entry_count = position.entry_count;
  staged = position.staged_entry_capital;
  anchor = position.anchor_price;
  rebuy_count = position.rebuy_count + 1;
}

-- `fill_price * fill_qty * (1 + buy_fee)`
abbrev pub gross_amount : Decimals → StrategyConfig → ℕ → ℕ → ℕ
gross_amount decimals config fill_price fill_qty =
    decimals.times (fill_price * fill_qty) (one + config.global_.buy_fee)

abbrev pub new_average : Decimals → PositionSnapshot → ℕ → ℕ → ℕ
new_average decimals position fill_price fill_qty =
    decimals.divide (position.average_price * position.quantity + fill_price * fill_qty)
      (position.quantity + fill_qty)

abbrev pub bought :
    StrategyConfig → ℕ → ℕ → ℕ → SignalRow → Entry → PositionSnapshot → PositionSnapshot
bought config quantity average fill_price signal entry row = record row {
  cycle_id = entry.cycle_id;
  quantity = quantity;
  average_price = average;
  current_cost_basis = average * quantity;
  cycle_exposure_cap = signal.cycle_exposure_cap;
  staged_entry_capital = entry.staged;
  cash_remaining = config.global_.capital_per_symbol - average * quantity;
  entry_count = entry.entry_count;
  anchor_price = entry.anchor;
  last_entry_price = fill_price;
  last_entry_date = some signal.trade_date;
  rebuy_count = entry.rebuy_count;
  rebuy_recovery_armed = false;
  tp1_filled_qty = 0;
}

-- apply_buy_fill, as far as it stores nothing.
unfoldable pub buy_change :
    Decimals → StrategyConfig → ℕ → ℕ → OrderRow → ℕ → Book → Result BuyChange
buy_change decimals config new_cycle atr_pct order fill_price book =
    require Error.bad_value order.signal_id then λ signal_id.
    get_signal signal_id book.signals then λ signal.
    require Error.missing_key (get_position order.symbol book.position_table.positions)
    then λ position.
        let stage = stage_of signal.target_stage in
        require Error.missing_key (waiting_fill signal.action stage) then λ expected.
        require Error.missing_key (holding signal.action stage) then λ target.
        unless (not (same_state position.state expected)) Error.position_error (
          let quantity = position.quantity + order.filled_qty in
          let average = new_average decimals position fill_price order.filled_qty in
          let gross = gross_amount decimals config fill_price order.filled_qty in
          let entry = entry_of signal.action stage new_cycle gross fill_price position in
          require Error.bad_value
            (calculate_take_profit average quantity atr_pct config.take_profit cent)
          then λ tp. Result.ok (record {
            plan = record {
              cycle_id = entry.cycle_id;
              symbol = order.symbol;
              source_event = order.purpose;
              average_price = average;
              atr_pct = atr_pct;
              tp1_price = tp.tp1_price;
              tp1_target_qty = tp.tp1_quantity;
              tp2_price = tp.tp2_price;
              tp2_target_qty = tp.tp2_quantity;
            };
            expected = expected;
            target = target;
            version = position.version;
            updates = bought config quantity average fill_price signal entry;
          }))

-- The plan is created, the position moves, and the order is applied: three transactions.
unfoldable pub store_buy : ℕ → BuyChange → Book → Book × Result (Option TpPlanRow)
store_buy id change book =
    let plans = create_tp_plan change.plan book.tp_plans in
    elim (transition_position change.plan.symbol change.expected change.target change.updates
      (some change.version) book.position_table) [
        | Result.failed error ↦ (record book { tp_plans = plans }, Result.failed error)
        | Result.ok table ↦ (
          record book {
            tp_plans = plans;
            position_table = table;
            orders = (mark_order_applied id book.orders).1;
          },
          Result.ok (active_tp_plan change.plan.symbol plans),
        )
      ]

-- The fill of an order that is still to be applied.
unfoldable pub apply_new_buy :
    Decimals → StrategyConfig → ℕ → ℕ → ℕ → OrderRow → Book → Book × Result (Option TpPlanRow)
apply_new_buy decimals config new_cycle atr_pct id order book = elim order.average_fill_price [
  | none ↦ (book, Result.ok none)
  | some fill_price ↦ elim (buy_change decimals config new_cycle atr_pct order fill_price book) [
    | Result.failed error ↦ (book, Result.failed error)
    | Result.ok change ↦ store_buy id change book
  ]
]

unfoldable pub apply_buy_fill :
    Decimals → StrategyConfig → ℕ → ℕ → ℕ → Book → Book × Result (Option TpPlanRow)
apply_buy_fill decimals config new_cycle atr_pct id book =
    elim (get_order_by_client_id id book.orders) [
      | none ↦ (book, Result.failed Error.missing_key)
      | some order ↦
          if order.applied
          then (book, Result.ok (active_tp_plan order.symbol book.tp_plans))
          else (if order.filled_qty == 0
              then (book, Result.ok none)
              else apply_new_buy decimals config new_cycle atr_pct id order book)
    ]
