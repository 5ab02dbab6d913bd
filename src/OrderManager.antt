-- ===== src/OrderManager.antt =====
-- application/order_manager.py: an order is reserved in the table, then placed; what a broker
-- answers is checked against the reservation before it is stored. The broker is a parameter: what
-- its calls, read by infrastructure/toss_client.py, answer.
pub mod Validation
pub mod Requests
pub mod Receipts
pub mod Placed
mod Tests
use jd_holdings.Prelude.{
  ℕ, ◌==◌, ltb, if◌then◌else◌, Bool, true, false, not, ◌&&◌, ◌||◌, ℤ, pos, negsuc, ltb_ℤ, pos_part,
  neg_part, Option, none, some, List,
}
use jd_holdings.Model.Enums.{Symbol, Side, OrderStatus, is_listed, same_symbol}
use jd_holdings.Model.Snapshot.{OrderRequest, OrderReceipt, RawOrder}
use jd_holdings.Model.Config.{StrategyConfig}
use jd_holdings.Core.Allocation.{V322Policy}
use jd_holdings.Repository.Errors.{Error, Result, ◌then◌, require}
use jd_holdings.Repository.Orders.{
  OrderRow, OrderUpdate, get_order_by_client_id, reserve_order, update_order, is_zero_price,
}
use jd_holdings.Repository.Tables.{Database}
use jd_holdings.Account.{reserve_buy_order_with_managed_cash, with_orders, is_buy}

abbrev pub same_number : ℤ → ℤ → Bool
same_number a b = (pos_part a == pos_part b) && (neg_part a == neg_part b)

-- What a raw answer leaves out is not checked.
abbrev pub agrees {ℓ} : {A : Type ℓ} → (A → Bool) → Option A → Bool
agrees p none = true
agrees p (some a) = p a

abbrev pub same_side : Side → Side → Bool
same_side a b = if is_buy a then is_buy b else not (is_buy b)

abbrev pub is_positive_price : Option ℕ → Bool
is_positive_price none = false
is_positive_price (some price) = ltb 0 price

abbrev pub is_some {ℓ} : {A : Type ℓ} → Option A → Bool
is_some none = false
is_some (some a) = true

-- Whether a receipt belongs to the order that was reserved: `_validate_receipt` raises nothing.
unfoldable pub validate_receipt : OrderReceipt → ℕ → Symbol → Side → ℕ → Bool
validate_receipt receipt id symbol side quantity =
    (receipt.client_order_id == id)
    && (is_some receipt.broker_order_id
        && (is_listed receipt.status
            && (same_number receipt.quantity (pos quantity)
                && (not (ltb_ℤ receipt.filled_quantity (pos 0))
                    && (not (ltb_ℤ (pos quantity) receipt.filled_quantity)
                        && ((not (ltb_ℤ (pos 0) receipt.filled_quantity)
                              || is_positive_price receipt.average_fill_price)
                            && (agrees (λ n. n == id) receipt.raw.client_order_id
                                && (agrees (λ s. same_symbol s symbol) receipt.raw.symbol
                                    && (agrees (λ s. same_side s side) receipt.raw.side
                                        && agrees (λ n. n == quantity) receipt.raw.quantity)))))))))

-- What a call of the broker comes to: a receipt, a TossApiError or another exception.
pub data Answer : Type 0 where
  receipt : OrderReceipt → Answer
  api_error : (retryable : Bool) → Answer
  other_error : Answer

-- `buying_power` is none where the call of it raises.
pub record Broker : Type 0 where
  pub place_order : OrderRequest → Answer
  pub get_order : ℕ → Answer
  pub buying_power : Option ℤ

-- The update that stores a receipt.
abbrev pub receipt_update : OrderReceipt → Option ℕ → OrderUpdate
receipt_update r broker_order_id = record {
  status = r.status;
  broker_order_id = broker_order_id;
  filled_qty = some r.filled_quantity;
  average_fill_price = r.average_fill_price;
}

abbrev pub status_update : OrderStatus → OrderUpdate
status_update status = record {
  status = status;
  broker_order_id = none;
  filled_qty = none;
  average_fill_price = none;
}

-- An update, and what the operation then returns or raises. The table is left as it is where the
-- update itself raises.
abbrev pub store {ℓ} :
    {A : Type ℓ} → ℕ → OrderUpdate → Result A → List OrderRow → List OrderRow × Result A
store id update result rows = elim (update_order id update rows) [
  | Result.failed error ↦ (rows, Result.failed error)
  | Result.ok after ↦ (after, result)
]

-- The answer of the broker for an order whose state is asked again.
unfoldable pub store_answer :
    ℕ → Symbol → Side → ℕ → Answer → List OrderRow → List OrderRow × Result OrderReceipt
store_answer id symbol side quantity (Answer.receipt r) rows =
    if validate_receipt r id symbol side quantity
    then store id (receipt_update r none) (Result.ok r) rows
    else store id (status_update OrderStatus.unknown) (Result.failed Error.invalid_receipt) rows
store_answer id symbol side quantity _ rows = (rows, Result.failed Error.broker_error)

unfoldable pub refresh_order : Broker → ℕ → List OrderRow → List OrderRow × Result OrderReceipt
refresh_order broker id rows = elim (get_order_by_client_id id rows) [
  | none ↦ (rows, Result.failed Error.missing_key)
  | some row ↦ elim row.broker_order_id [
    | none ↦ (rows, Result.failed Error.missing_key)
    | some broker_id ↦ store_answer id row.symbol row.side row.qty (broker.get_order broker_id) rows
  ]
]

-- The receipt of what the table holds.
abbrev pub stored_receipt : OrderRow → OrderReceipt
stored_receipt row = record {
  client_order_id = row.client_order_id;
  broker_order_id = row.broker_order_id;
  status = row.status;
  quantity = pos row.qty;
  filled_quantity = pos row.filled_qty;
  average_fill_price = row.average_fill_price;
  raw = record { client_order_id = none; symbol = none; side = none; quantity = none };
}

-- `submit` for an order that is in the table: it is not placed again.
unfoldable pub resubmit :
    Broker → OrderRequest → OrderRow → List OrderRow → List OrderRow × Result OrderReceipt
resubmit broker request row rows = elim row.broker_order_id [
  | none ↦ (rows, Result.ok (stored_receipt row))
  | some broker_id ↦ elim (broker.get_order broker_id) [
    | Answer.receipt r ↦
        if validate_receipt r request.client_order_id request.symbol request.side request.quantity
        then store request.client_order_id (receipt_update r r.broker_order_id) (Result.ok r) rows
        else store request.client_order_id (status_update OrderStatus.unknown)
            (Result.failed Error.invalid_receipt) rows
    | _ ↦ (rows, Result.ok (stored_receipt row))
  ]
]

-- The broker's answer to a new order.
unfoldable pub store_placed :
    OrderRequest → Answer → List OrderRow → List OrderRow × Result OrderReceipt
store_placed request (Answer.receipt r) rows =
    if validate_receipt r request.client_order_id request.symbol request.side request.quantity
    then store request.client_order_id (receipt_update r r.broker_order_id) (Result.ok r) rows
    else store request.client_order_id (status_update OrderStatus.unknown)
        (Result.failed Error.invalid_receipt) rows
store_placed request (Answer.api_error retryable) rows =
    store request.client_order_id
      (status_update (if retryable then OrderStatus.unknown else OrderStatus.rejected))
      (Result.failed Error.broker_error) rows
store_placed request Answer.other_error rows =
    store request.client_order_id (status_update OrderStatus.unknown)
      (Result.failed Error.broker_error) rows

-- Where the orders are within the whole database.
abbrev pub on_orders {ℓ} : {A : Type ℓ} → Database → List OrderRow × Result A → Database × Result A
on_orders db (rows, result) = (with_orders db rows, result)

-- A buy is reserved against the managed cash, at its limit price; a sell is reserved as it is.
unfoldable pub reserve :
    StrategyConfig
    → V322Policy
    → Broker
    → OrderRequest
    → Option ℕ
    → Database
    → Result (Bool × Database)
reserve config policy broker request cycle_id db =
    if is_buy request.side
    then elim request.price [
      | none ↦ Result.failed Error.no_limit_price
      | some price ↦ require Error.broker_error broker.buying_power then λ power.
          reserve_buy_order_with_managed_cash config policy power request price cycle_id db
    ]
    else (let inserted = reserve_order request cycle_id db.orders in
        Result.ok (inserted.0, with_orders db inserted.1))

-- `live_blocked`: the settings ask for live trading and do not allow it.
unfoldable pub submit :
    StrategyConfig
    → V322Policy
    → Bool
    → Broker
    → OrderRequest
    → Option ℕ
    → Database
    → Database × Result OrderReceipt
submit config policy blocked broker request cycle_id db =
    elim (get_order_by_client_id request.client_order_id db.orders) [
      | some row ↦ on_orders db (resubmit broker request row db.orders)
      | none ↦ elim (reserve config policy broker request cycle_id db) [
        | Result.failed error ↦ (db, Result.failed error)
        | Result.ok (added, reserved) ↦
            if not added
            then (reserved, Result.failed Error.not_reserved)
            else (if blocked
                then (reserved, Result.failed Error.live_blocked)
                else on_orders reserved
                    (store_placed request (broker.place_order request) reserved.orders))
      ]
    ]
