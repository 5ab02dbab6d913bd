-- ===== src/PositionManager/Selling.antt =====
-- apply_sell_fill of application/position_manager.py.
use jd_holdings.Prelude.{
  ℕ, ◌+◌, ◌-◌, ◌*◌, ◌==◌, ltb, min, if◌then◌else◌, Bool, true, false, not, ◌&&◌, ◌||◌, Option, none,
  some, List, ◌∷◌,
}
use jd_holdings.Model.Enums.{Symbol, PositionState, Purpose, is_terminal}
use jd_holdings.Model.Snapshot.{PositionSnapshot}
use jd_holdings.Model.Config.{StrategyConfig}
use jd_holdings.Repository.Errors.{Error, Result, ◌then◌, unless, require}
use jd_holdings.Repository.Orders.{OrderRow, get_order_by_client_id, mark_order_applied}
use jd_holdings.Repository.Positions.{get_position, transition_position}
use jd_holdings.Repository.Plans.{
  TpPlanRow, TpLeg, active_tp_plan, update_tp_fills, deactivate_tp_plan,
}
use jd_holdings.PositionManager.Book.{Completion, Book}

-- `"TP2" if purpose == "REMAINDER_EXIT" else purpose`, of the two legs.
abbrev pub leg_of : Purpose → Option TpLeg
leg_of Purpose.tp1 = some TpLeg.tp1
leg_of Purpose.tp2 = some TpLeg.tp2
leg_of Purpose.remainder_exit = some TpLeg.tp2
leg_of _ = none

abbrev pub is_tp1 : Purpose → Bool
is_tp1 Purpose.tp1 = true
is_tp1 _ = false

abbrev pub target_of : TpLeg → TpPlanRow → ℕ
target_of TpLeg.tp1 plan = plan.tp1_target_qty
target_of TpLeg.tp2 plan = plan.tp2_target_qty

abbrev pub filled_of : TpLeg → TpPlanRow → ℕ
filled_of TpLeg.tp1 plan = plan.tp1_filled_qty
filled_of TpLeg.tp2 plan = plan.tp2_filled_qty

-- The cumulative fill of a leg: a smaller order continues the fills before it.
abbrev pub leg_filled : TpLeg → OrderRow → TpPlanRow → ℕ
leg_filled leg order plan =
    min (target_of leg plan) ((target_of leg plan - order.qty) + order.filled_qty)

-- The columns of an empty position.
abbrev pub emptied : StrategyConfig → PositionSnapshot → PositionSnapshot
emptied config row = record row {
  cycle_id = none;
  quantity = 0;
  average_price = 0;
  current_cost_basis = 0;
  cycle_exposure_cap = 0;
  staged_entry_capital = 0;
  cash_remaining = config.global_.capital_per_symbol;
  entry_count = 0;
  anchor_price = 0;
  last_entry_price = 0;
  last_entry_date = none;
  rebuy_count = 0;
  rebuy_recovery_armed = false;
  tp1_filled_qty = 0;
}

abbrev pub reduced : ℕ → ℕ → PositionSnapshot → PositionSnapshot
reduced quantity average row = record row {
  quantity = quantity;
  average_price = average;
  current_cost_basis = average * quantity;
}

abbrev pub taken_profit : StrategyConfig → ℕ → ℕ → ℕ → PositionSnapshot → PositionSnapshot
taken_profit config quantity average filled row = record row {
  quantity = quantity;
  average_price = average;
  current_cost_basis = average * quantity;
  cash_remaining = config.global_.capital_per_symbol - average * quantity;
  tp1_filled_qty = filled;
  rebuy_recovery_armed = false;
}

-- What a fill of a leg writes. `emptying` closes the plan; `completed` is the first leg's end.
pub record SellChange : Type 0 where
  pub leg : TpLeg
  pub filled : ℕ
  pub state : PositionState
  pub new_state : PositionState
  pub version : ℕ
  pub updates : PositionSnapshot → PositionSnapshot
  pub emptying : Bool
  pub completed : Option ℕ

-- The three ways to move a position: a first leg that goes on, a holding that ends, and the rest.
unfoldable pub sold :
    StrategyConfig → Bool → TpLeg → ℕ → ℕ → PositionSnapshot → TpPlanRow → SellChange
sold config first leg filled quantity position plan =
    let average = if ltb 0 quantity then position.average_price else 0 in
    let going_on = first && ltb filled (target_of leg plan) in
    let ends = not going_on && (quantity == 0) in
    let completes = not going_on && (not (quantity == 0) && first) in
    record {
      leg = leg;
      filled = filled;
      state = position.state;
      new_state =
          if ends
          then PositionState.empty
          else (if completes then PositionState.partial_tp_1 else position.state);
      version = position.version;
      updates =
          if ends
          then emptied config
          else (if completes
              then taken_profit config quantity average filled
              else reduced quantity average);
      emptying = ends;
      completed = if completes then position.cycle_id else none;
    }

-- apply_sell_fill, as far as it stores nothing.
unfoldable pub sell_change :
    StrategyConfig → OrderRow → PositionSnapshot → TpPlanRow → Result SellChange
sell_change config order position plan =
    require Error.position_error (leg_of order.purpose) then λ leg.
    let filled = leg_filled leg order plan in
    let prior = filled_of leg plan in
    unless (ltb filled prior) Error.position_error (
      unless (ltb position.quantity (filled - prior)) Error.position_error (
        Result.ok (
          sold config (is_tp1 order.purpose) leg filled (position.quantity - (filled - prior))
            position plan)))

abbrev pub complete : Symbol → ℕ → Option ℕ → List Completion → List Completion
complete symbol updated_at none completions = completions
complete symbol updated_at (some cycle_id) completions =
    record { symbol = symbol; cycle_id = cycle_id; completed_at = updated_at } ∷ completions

-- The fill of the leg is stored, the position moves, then the plan and the order are closed.
unfoldable pub store_sell : ℕ → ℕ → OrderRow → ℕ → SellChange → Book → Book × Result {0} Unit
store_sell updated_at id order plan_id change book =
    let plans = update_tp_fills plan_id change.leg change.filled book.tp_plans in
    elim (transition_position order.symbol change.state change.new_state change.updates
      (some change.version) book.position_table) [
        | Result.failed error ↦ (record book { tp_plans = plans }, Result.failed error)
        | Result.ok table ↦ (
          record book {
            position_table = table;
            tp_plans = if change.emptying then deactivate_tp_plan plan_id plans else plans;
            completions = complete order.symbol updated_at change.completed book.completions;
            orders =
                if is_terminal order.status
                then (mark_order_applied id book.orders).1
                else book.orders;
          },
          Result.ok tt,
        )
      ]

unfoldable pub apply_new_sell : StrategyConfig → ℕ → ℕ → OrderRow → Book → Book × Result {0} Unit
apply_new_sell config updated_at id order book =
    elim (get_position order.symbol book.position_table.positions) [
      | none ↦ (book, Result.failed Error.missing_key)
      | some position ↦ elim (active_tp_plan order.symbol book.tp_plans) [
        | none ↦ (book, Result.failed Error.position_error)
        | some plan ↦ elim (sell_change config order position plan) [
          | Result.failed error ↦ (book, Result.failed error)
          | Result.ok change ↦ store_sell updated_at id order plan.tp_plan_id change book
        ]
      ]
    ]

unfoldable pub apply_sell_fill : StrategyConfig → ℕ → ℕ → Book → Book × Result {0} Unit
apply_sell_fill config updated_at id book = elim (get_order_by_client_id id book.orders) [
  | none ↦ (book, Result.ok tt)
  | some order ↦
      if order.applied || (order.filled_qty == 0)
      then (book, Result.ok tt)
      else apply_new_sell config updated_at id order book
]
