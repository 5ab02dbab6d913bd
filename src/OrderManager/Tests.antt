-- ===== src/OrderManager/Tests.antt =====
-- A submitted buy on the sample account, from its reservation to its fill.
use jd_holdings.Prelude.{◌*◌, ◌≡◌, refl, pos, false, true, none, some, [], ◌∷◌, one, arith}
use jd_holdings.Model.Enums.{Symbol, OrderStatus, Side}
use jd_holdings.Model.Samples.{sample_config}
use jd_holdings.Model.Snapshot.{OrderReceipt}
use jd_holdings.Repository.Errors.{Result}
use jd_holdings.Repository.Orders.{
  OrderRow, updated_row, get_order_by_client_id, update_order, fill_conflicts, broker_id_is_taken,
  set_row,
}
use jd_holdings.Repository.Orders.Steps.{Step, Steps}
use jd_holdings.Repository.Orders.Lifecycle.{Follows, Steps-Follows}
use jd_holdings.Repository.Orders.Consistency.{IsConsistent, Steps-IsConsistent}
use jd_holdings.Account.Samples.{sample_policy, qqq_request, qqq_order, reserved_db}
use jd_holdings.OrderManager.{Answer, Broker, receipt_update, submit, validate_receipt}
use jd_holdings.OrderManager.Requests.{submit-places_once}

abbrev filled_receipt : OrderReceipt
filled_receipt = record {
  client_order_id = 7;
  broker_order_id = some 900;
  status = OrderStatus.filled;
  quantity = pos 30;
  filled_quantity = pos 30;
  average_fill_price = some (409 * one);
  raw = record {
    client_order_id = some 7;
    symbol = some Symbol.qqq;
    side = some Side.buy;
    quantity = none;
  };
}

-- A broker that fills at once.
abbrev filling_broker : Broker
filling_broker = record {
  place_order = λ request. Answer.receipt filled_receipt;
  get_order = λ id. Answer.receipt filled_receipt;
  buying_power = some (pos (60_000 * (one * one)));
}

-- The order with its broker's id, before and after its fill.
abbrev sent_order : OrderRow
sent_order =
    updated_row
      (record {
        status = OrderStatus.submitted;
        broker_order_id = some 900;
        filled_qty = none;
        average_fill_price = none;
      })
      qqq_order

abbrev filled_order : OrderRow
filled_order = updated_row (receipt_update filled_receipt none) sent_order

validates : validate_receipt filled_receipt 7 Symbol.qqq Side.buy 30 ≡ true
unfolding validate_receipt
validates = refl

-- A receipt of another order is refused.
another : validate_receipt filled_receipt 8 Symbol.qqq Side.buy 30 ≡ false
unfolding validate_receipt
another = refl

found : get_order_by_client_id 7 (qqq_order ∷ []) ≡ some qqq_order
unfolding get_order_by_client_id
found = refl

submit-places_once_example :
    submit sample_config sample_policy false filling_broker qqq_request none reserved_db
    ≡ submit sample_config sample_policy false
        (record {
          place_order = λ request. Answer.other_error;
          get_order = filling_broker.get_order;
          buying_power = some (pos 0);
        })
        qqq_request
        none
        reserved_db
submit-places_once_example =
    submit-places_once sample_config sample_policy false filling_broker qqq_request none reserved_db
      qqq_order (λ request. Answer.other_error) (some (pos 0)) found

sent_found : get_order_by_client_id 7 (sent_order ∷ []) ≡ some sent_order
unfolding get_order_by_client_id
sent_found = refl

absent : get_order_by_client_id 7 [] ≡ none
unfolding get_order_by_client_id
absent = refl

-- The fill of a sent order is stored.
updates :
    update_order 7 (receipt_update filled_receipt none) (sent_order ∷ [])
    ≡ Result.ok (filled_order ∷ [])
unfolding get_order_by_client_id update_order fill_conflicts broker_id_is_taken set_row
updates = refl

history : Steps (sent_order ∷ []) (filled_order ∷ [])
history = Steps.more (Step.updated 7 (receipt_update filled_receipt none) updates) Steps.done

Steps-Follows_example :
    (later : OrderRow) × (get_order_by_client_id 7 (filled_order ∷ []) ≡ some later)
    × Follows sent_order later
Steps-Follows_example =
    Steps-Follows (sent_order ∷ []) (filled_order ∷ []) 7 sent_order history sent_found

Steps-IsConsistent_example : IsConsistent (filled_order ∷ [])
Steps-IsConsistent_example =
    Steps-IsConsistent (sent_order ∷ []) (filled_order ∷ []) history (omega arith, absent, tt)
