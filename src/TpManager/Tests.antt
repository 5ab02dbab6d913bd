-- ===== src/TpManager/Tests.antt =====
-- The plan of ten held shares: its two orders, and the cancellation of one that has sold three.
use jd_holdings.Prelude.{
  ℕ, ◌+◌, ◌*◌, ◌≡◌, refl, ◌⊎◌, false, pos, none, some, [], ◌∷◌, All, one, arith,
}
use jd_holdings.Model.Enums.{Symbol, Purpose, OrderStatus}
use jd_holdings.Model.Snapshot.{OrderReceipt}
use jd_holdings.Repository.Errors.{Result}
use jd_holdings.Repository.Orders.{
  OrderRow, updated_row, get_order_by_client_id, open_orders, update_order, fill_conflicts,
  broker_id_is_taken, set_row, mark_order_applied,
}
use jd_holdings.PositionManager.Balance.{IsBalancedPlan}
use jd_holdings.PositionManager.Samples.{sample_plan, sell_order, held_position}
use jd_holdings.OrderManager.{
  Broker, Answer, receipt_update, refresh_order, store_answer, validate_receipt,
}
use jd_holdings.TpManager.{
  sell_request, tp_requests, is_cancellable, cancel_one, cancel_each, cancel_open_tp_orders,
}
use jd_holdings.TpManager.Placing.{IsLegSale, total_quantity, tp_requests-total}
use jd_holdings.TpManager.Cancelling.{IsEnded, cancel_open_tp_orders-IsEnded}

abbrev client_id : Symbol → Purpose → ℕ → ℕ → ℕ
client_id symbol Purpose.tp1 plan revision = 100 + revision
client_id symbol purpose plan revision = 200 + revision

abbrev waiting_order : OrderRow
waiting_order = record sell_order {
  broker_order_id = some 900;
  filled_qty = 0;
  average_fill_price = none;
  status = OrderStatus.submitted;
}

-- The answer after the cancellation: three shares were sold before it.
abbrev canceled_receipt : OrderReceipt
canceled_receipt = record {
  client_order_id = 8;
  broker_order_id = some 900;
  status = OrderStatus.canceled;
  quantity = pos 5;
  filled_quantity = pos 3;
  average_fill_price = some (53 * one);
  raw = record { client_order_id = none; symbol = none; side = none; quantity = none };
}

abbrev canceling_broker : Broker
canceling_broker = record {
  place_order = λ request. Answer.other_error;
  get_order = λ id. Answer.receipt canceled_receipt;
  buying_power = some (pos 0);
}

abbrev ended_order : OrderRow
ended_order = updated_row (receipt_update canceled_receipt none) waiting_order

cancels :
    cancel_open_tp_orders canceling_broker Symbol.tqqq (waiting_order ∷ [])
    ≡ (ended_order ∷ [], Result.ok (8 ∷ []))
unfolding cancel_open_tp_orders cancel_each cancel_one open_orders refresh_order store_answer
    validate_receipt get_order_by_client_id update_order fill_conflicts broker_id_is_taken set_row
    mark_order_applied
cancels = refl

returns :
    (cancel_open_tp_orders canceling_broker Symbol.tqqq (waiting_order ∷ [])).1 ≡ Result.ok (8 ∷ [])
unfolding cancel_open_tp_orders cancel_each cancel_one open_orders refresh_order store_answer
    validate_receipt get_order_by_client_id update_order fill_conflicts broker_id_is_taken set_row
    mark_order_applied
returns = refl

cancel_open_tp_orders-IsEnded_example :
    All
      (λ order.
        (is_cancellable order ≡ false)
        ⊎ IsEnded order (cancel_open_tp_orders canceling_broker Symbol.tqqq (waiting_order ∷ [])).0)
      (open_orders (some Symbol.tqqq) (waiting_order ∷ []))
cancel_open_tp_orders-IsEnded_example =
    cancel_open_tp_orders-IsEnded canceling_broker Symbol.tqqq (waiting_order ∷ []) returns

requests :
    tp_requests client_id Symbol.tqqq sample_plan 1
    ≡ sell_request 101 Symbol.tqqq Purpose.tp1 (53 * one) 5
      ∷ (sell_request 201 Symbol.tqqq Purpose.tp2 (56 * one) 5 ∷ [])
unfolding tp_requests
requests = refl

held-IsBalancedPlan : IsBalancedPlan held_position sample_plan
held-IsBalancedPlan = record { tp1 = omega arith; tp2 = omega arith; total = refl }

tp_requests-total_example :
    All (IsLegSale Symbol.tqqq sample_plan) (tp_requests client_id Symbol.tqqq sample_plan 1)
    × (total_quantity (tp_requests client_id Symbol.tqqq sample_plan 1) ≡ held_position.quantity)
tp_requests-total_example =
    tp_requests-total client_id Symbol.tqqq held_position sample_plan 1 held-IsBalancedPlan
