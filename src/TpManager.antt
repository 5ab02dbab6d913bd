-- ===== src/TpManager.antt =====
-- application/tp_manager.py: the sell orders of a take-profit plan, placed and cancelled. The digest
-- of build_client_order_id is a parameter, `client_id`, of what it is made of. The broker's answer to
-- a cancellation is not read, so only the answers that follow it are.
pub mod Placing
pub mod Cancelling
mod Tests
use jd_holdings.Prelude.{
  ℕ, ◌+◌, ◌-◌, ◌==◌, if◌then◌else◌, Bool, true, false, not, ◌&&◌, ◌||◌, ℤ, pos, ltb_ℤ, Option, none,
  some, is_none, List, [], ◌∷◌, ◌++◌,
}
use jd_holdings.Model.Enums.{Symbol, PositionState, Purpose, Side, is_terminal, same_state}
use jd_holdings.Model.Snapshot.{PositionSnapshot, OrderRequest, OrderReceipt}
use jd_holdings.Model.Config.{StrategyConfig}
use jd_holdings.Core.Allocation.{V322Policy}
use jd_holdings.Core.TakeProfit.{remainder_exit_price}
use jd_holdings.Repository.Errors.{Error, Result, ◌then◌, unless, require}
use jd_holdings.Repository.Orders.{OrderRow, open_orders, mark_order_applied}
use jd_holdings.Repository.Tables.{Database}
use jd_holdings.Repository.Positions.{get_position}
use jd_holdings.Repository.Plans.{TpPlanRow, PlanTable, active_tp_plan, bump_tp_revision}
use jd_holdings.OrderManager.{Broker, refresh_order, submit}

-- TP_PURPOSES
abbrev pub is_tp_purpose : Purpose → Bool
is_tp_purpose Purpose.tp1 = true
is_tp_purpose Purpose.tp2 = true
is_tp_purpose Purpose.remainder_exit = true
is_tp_purpose _ = false

-- What the order manager is set up with.
pub record Setup : Type 0 where
  pub config : StrategyConfig
  pub policy : V322Policy
  pub blocked : Bool
  pub broker : Broker
  pub client_id : Symbol → Purpose → ℕ → ℕ → ℕ

pub record Desk : Type 0 where
  pub db : Database
  pub tp_plans : PlanTable

abbrev pub sell_request : ℕ → Symbol → Purpose → ℕ → ℕ → OrderRequest
sell_request id symbol purpose price quantity = record {
  client_order_id = id;
  symbol = symbol;
  side = Side.sell;
  is_limit = true;
  quantity = quantity;
  price = some price;
  purpose = purpose;
  signal_id = none;
}

-- A leg with nothing left is skipped.
abbrev pub leg_request : ℕ → Symbol → Purpose → ℕ → ℕ → List OrderRequest
leg_request id symbol purpose price quantity =
    if quantity == 0 then [] else sell_request id symbol purpose price quantity ∷ []

-- What is left of each leg.
unfoldable pub tp_requests :
    (Symbol → Purpose → ℕ → ℕ → ℕ) → Symbol → TpPlanRow → ℕ → List OrderRequest
tp_requests client_id symbol plan revision =
    leg_request (client_id symbol Purpose.tp1 plan.tp_plan_id revision) symbol Purpose.tp1
      plan.tp1_price (plan.tp1_target_qty - plan.tp1_filled_qty)
    ++ leg_request (client_id symbol Purpose.tp2 plan.tp_plan_id revision) symbol Purpose.tp2
        plan.tp2_price (plan.tp2_target_qty - plan.tp2_filled_qty)

abbrev pub and_receipt : OrderReceipt → Result (List OrderReceipt) → Result (List OrderReceipt)
and_receipt receipt (Result.ok receipts) = Result.ok (receipt ∷ receipts)
and_receipt receipt (Result.failed error) = Result.failed error

-- The requests in turn, up to one that raises.
unfoldable pub submit_all :
    Setup → Option ℕ → List OrderRequest → Database → Database × Result (List OrderReceipt)
submit_all s cycle_id [] db = (db, Result.ok [])
submit_all s cycle_id (request ∷ requests) db =
    let placed = submit s.config s.policy s.blocked s.broker request cycle_id db in
    let rest = submit_all s cycle_id requests placed.0 in
    elim placed.1 [
      | Result.failed error ↦ (placed.0, Result.failed error)
      | Result.ok receipt ↦ (rest.0, and_receipt receipt rest.1)
    ]

-- What place_orders reads and bumps before it submits: the cycle, the requests and the plans.
unfoldable pub plan_orders :
    Setup → Symbol → Desk → Result (Option ℕ × List OrderRequest × PlanTable)
plan_orders s symbol desk =
    require Error.missing_key (get_position symbol desk.db.positions) then λ position.
    require Error.position_error (active_tp_plan symbol desk.tp_plans) then λ plan.
    bump_tp_revision plan.tp_plan_id desk.tp_plans then λ bumped.
    Result.ok (position.cycle_id, tp_requests s.client_id symbol plan bumped.0, bumped.1)

unfoldable pub place_orders : Setup → Symbol → Desk → Desk × Result (List OrderReceipt)
place_orders s symbol desk = elim (plan_orders s symbol desk) [
  | Result.failed error ↦ (desk, Result.failed error)
  | Result.ok (cycle_id, requests, plans) ↦
      let submitted = submit_all s cycle_id requests desk.db in
      (record { db = submitted.0; tp_plans = plans }, submitted.1)
]

-- The price can raise.
abbrev pub exit_request : ℕ → Symbol → ℕ → Option ℕ → Option OrderRequest
exit_request id symbol quantity none = none
exit_request id symbol quantity (some price) =
    some (sell_request id symbol Purpose.remainder_exit price quantity)

-- The checks of place_remainder_exit, the request and the plans.
unfoldable pub plan_remainder_exit :
    Setup → Symbol → Desk → Result (Option ℕ × Option OrderRequest × PlanTable)
plan_remainder_exit s symbol desk =
    let rule = s.config.take_profit.remainder_exit in
    require Error.missing_key (get_position symbol desk.db.positions) then λ position.
    unless (not rule.enabled) Error.position_error (
      require Error.position_error (active_tp_plan symbol desk.tp_plans) then λ plan.
      unless
        (not (same_state position.state PositionState.partial_tp_1) || (position.quantity == 0))
        Error.position_error
        (bump_tp_revision plan.tp_plan_id desk.tp_plans then λ bumped. Result.ok (
          position.cycle_id,
          exit_request (s.client_id symbol Purpose.remainder_exit plan.tp_plan_id bumped.0) symbol
              position.quantity (remainder_exit_price position.average_price rule),
          bumped.1,
        )))

-- Where the price raises, the revision is bumped already.
unfoldable pub place_remainder_exit : Setup → Symbol → Desk → Desk × Result OrderReceipt
place_remainder_exit s symbol desk = elim (plan_remainder_exit s symbol desk) [
  | Result.failed error ↦ (desk, Result.failed error)
  | Result.ok (cycle_id, some request, plans) ↦
      let placed = submit s.config s.policy s.blocked s.broker request cycle_id desk.db in
      (record { db = placed.0; tp_plans = plans }, placed.1)
  | Result.ok (cycle_id, none, plans) ↦
      (record desk { tp_plans = plans }, Result.failed Error.bad_value)
]

-- An open take-profit order that the broker knows.
abbrev pub is_cancellable : OrderRow → Bool
is_cancellable row = is_tp_purpose row.purpose && not (is_none row.broker_order_id)

-- An order is refreshed after its cancellation; one that is not confirmed to have ended raises, one
-- that has filled gives its id, and one without a fill is marked applied.
unfoldable pub cancel_one : Broker → OrderRow → List OrderRow → List OrderRow × Result (Option ℕ)
cancel_one broker order rows =
    let id = order.client_order_id in
    let refreshed = refresh_order broker id rows in
    if not (is_cancellable order) then (rows, Result.ok none) else (elim refreshed.1 [
      | Result.failed error ↦ (refreshed.0, Result.failed error)
      | Result.ok receipt ↦
          if not (is_terminal receipt.status)
          then (refreshed.0, Result.failed Error.position_error)
          else (if ltb_ℤ (pos 0) receipt.filled_quantity
              then (refreshed.0, Result.ok (some id))
              else ((mark_order_applied id refreshed.0).1, Result.ok none))
    ])

abbrev pub and_id : Option ℕ → Result (List ℕ) → Result (List ℕ)
and_id none ids = ids
and_id (some id) (Result.ok ids) = Result.ok (id ∷ ids)
and_id (some id) (Result.failed error) = Result.failed error

-- The orders in turn, up to one that raises.
unfoldable pub cancel_each :
    Broker → List OrderRow → List OrderRow → List OrderRow × Result (List ℕ)
cancel_each broker [] rows = (rows, Result.ok [])
cancel_each broker (order ∷ orders) rows =
    let first = cancel_one broker order rows in
    let rest = cancel_each broker orders first.0 in
    elim first.1 [
      | Result.failed error ↦ (first.0, Result.failed error)
      | Result.ok id ↦ (rest.0, and_id id rest.1)
    ]

-- The client order ids of the orders that have filled.
unfoldable pub cancel_open_tp_orders :
    Broker → Symbol → List OrderRow → List OrderRow × Result (List ℕ)
cancel_open_tp_orders broker symbol rows = cancel_each broker (open_orders (some symbol) rows) rows
