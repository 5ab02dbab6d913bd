-- ===== src/DryRunBroker/Orders.antt =====
-- What DryRunBroker does with its orders: it fills, places and cancels them.
use jd_holdings.Prelude.{
  ℕ, ◌+◌, ◌-◌, ◌*◌, ◌==◌, ltb, leb, if◌then◌else◌, Bool, true, false, not, ◌&&◌, ◌||◌, pos, Option,
  none, some, List, [], ◌∷◌, ◌++◌,
}
use jd_holdings.Model.Enums.{Symbol, Side, OrderStatus, same_symbol}
use jd_holdings.Model.Snapshot.{OrderRequest, OrderReceipt}
use jd_holdings.Repository.Errors.{Error, Result}
use jd_holdings.DryRunBroker.Wallet.{
  DryOrder, Wallet, DryBroker, amount_or_zero, apply_fill, after_fill,
}

abbrev pub is_pending : OrderStatus → Bool
is_pending OrderStatus.pending = true
is_pending OrderStatus.partial_filled = true
is_pending _ = false

-- The order as it is when all of it is filled, the rest at `price`.
unfoldable pub filled_order : (ℕ → ℕ → ℕ) → ℕ → DryOrder → DryOrder
filled_order divide price order =
    let prior =
      if ltb 0 order.filled_quantity then amount_or_zero order.average_filled_price else 0 in
    let amount = prior * order.filled_quantity + price * (order.quantity - order.filled_quantity) in
    record order {
      status = OrderStatus.filled;
      filled_quantity = order.quantity;
      average_filled_price = some (divide amount order.quantity);
      filled_amount = some amount;
    }

unfoldable pub fill_remaining_order :
    (ℕ → ℕ → ℕ) → ℕ → DryOrder → Wallet → (DryOrder × Wallet) × Result {0} Unit
fill_remaining_order divide price order wallet =
    if not (is_pending order.status)
    then ((order, wallet), Result.ok tt)
    else (if leb order.quantity order.filled_quantity
        then ((record order { status = OrderStatus.filled }, wallet), Result.ok tt)
        else (let filled = filled_order divide price order in
            after_fill filled wallet (apply_fill divide filled wallet)))

-- Whether a limit order is met.
abbrev pub is_fillable : Side → ℕ → ℕ → Bool
is_fillable Side.buy market limit = leb market limit
is_fillable Side.sell market limit = leb limit market

-- A pending order is filled where its limit is met; `Decimal` raises where it has none.
unfoldable pub fill_at_limit :
    (ℕ → ℕ → ℕ) → ℕ → DryOrder → Wallet → Option ℕ → (DryOrder × Wallet) × Result {0} Unit
fill_at_limit divide current order wallet none = ((order, wallet), Result.failed Error.bad_value)
fill_at_limit divide current order wallet (some limit) =
    if is_fillable order.side current limit
    then fill_remaining_order divide current order wallet
    else ((order, wallet), Result.ok tt)

-- One order of `fill_open_orders`.
unfoldable pub fill_open_order :
    (ℕ → ℕ → ℕ) → Symbol → ℕ → DryOrder → Wallet → (DryOrder × Wallet) × Result {0} Unit
fill_open_order divide symbol current order wallet =
    if not (same_symbol order.symbol symbol && is_pending order.status)
    then ((order, wallet), Result.ok tt)
    else fill_at_limit divide current order wallet order.price

abbrev pub and_order :
    DryOrder
    → (List DryOrder × Wallet) × Result {0} Unit
    → (List DryOrder × Wallet) × Result {0} Unit
and_order order rest = ((order ∷ rest.0.0, rest.0.1), rest.1)

-- The orders in turn, up to one that raises.
unfoldable pub fill_orders :
    (ℕ → ℕ → ℕ) → Symbol → ℕ → List DryOrder → Wallet → (List DryOrder × Wallet) × Result {0} Unit
fill_orders divide symbol current [] wallet = (([], wallet), Result.ok tt)
fill_orders divide symbol current (order ∷ orders) wallet =
    let step = fill_open_order divide symbol current order wallet in
    let rest = fill_orders divide symbol current orders step.0.1 in
    elim step.1 [
      | Result.ok _ ↦ and_order step.0.0 rest
      | Result.failed error ↦ ((step.0.0 ∷ orders, step.0.1), Result.failed error)
    ]

unfoldable pub fill_open_orders : (ℕ → ℕ → ℕ) → Symbol → DryBroker → DryBroker × Result {0} Unit
fill_open_orders divide symbol broker = elim (broker.prices symbol) [
  | none ↦ (broker, Result.failed Error.missing_key)
  | some current ↦
      let filled = fill_orders divide symbol current broker.orders broker.wallet in
      (record broker { orders = filled.0.0; wallet = filled.0.1 }, filled.1)
]

-- The first order of a client order id.
unfoldable pub placed : ℕ → List DryOrder → Option DryOrder
placed id [] = none
placed id (order ∷ orders) = if order.client_order_id == id then some order else placed id orders

-- `_receipt`: the raw answer says what the order says.
abbrev pub receipt_of : DryOrder → OrderReceipt
receipt_of order = record {
  client_order_id = order.client_order_id;
  broker_order_id = some order.order_id;
  status = order.status;
  quantity = pos order.quantity;
  filled_quantity = pos order.filled_quantity;
  average_fill_price = order.average_filled_price;
  raw = record {
    client_order_id = some order.client_order_id;
    symbol = some order.symbol;
    side = some order.side;
    quantity = some order.quantity;
  };
}

-- A market order, and a limit order that is met, is filled at once.
abbrev pub fills_at_once : OrderRequest → ℕ → Bool
fills_at_once request market =
    if request.is_limit
    then (elim request.price [ none ↦ false | some limit ↦ is_fillable request.side market limit ])
    else true

unfoldable pub new_dry_order : ℕ → OrderRequest → ℕ → DryOrder
new_dry_order id request market =
    let fills = fills_at_once request market in
    record {
      order_id = id;
      client_order_id = request.client_order_id;
      symbol = request.symbol;
      side = request.side;
      is_limit = request.is_limit;
      status = if fills then OrderStatus.filled else OrderStatus.pending;
      price = request.price;
      quantity = request.quantity;
      filled_quantity = if fills then request.quantity else 0;
      average_filled_price = if fills then some market else none;
      filled_amount = if fills then some (market * request.quantity) else none;
      applied_quantity = 0;
      applied_amount = 0;
    }

-- The new order, filled where it fills at once.
unfoldable pub place_new :
    (ℕ → ℕ → ℕ) → OrderRequest → ℕ → DryBroker → DryBroker × Result OrderReceipt
place_new divide request market broker =
    let order = new_dry_order (broker.sequence + 1) request market in
    let filled =
      if fills_at_once request market
      then after_fill order broker.wallet (apply_fill divide order broker.wallet)
      else ((order, broker.wallet), Result.ok tt) in
    (
      record broker {
        orders = broker.orders ++ (filled.0.0 ∷ []);
        wallet = filled.0.1;
        sequence = broker.sequence + 1;
      },
      elim filled.1 [
        | Result.ok _ ↦ Result.ok (receipt_of filled.0.0)
        | Result.failed error ↦ Result.failed error
      ],
    )

-- The sequence goes on where there is no price.
unfoldable pub place_at :
    (ℕ → ℕ → ℕ) → OrderRequest → DryBroker → Option ℕ → DryBroker × Result OrderReceipt
place_at divide request broker none =
    (record broker { sequence = broker.sequence + 1 }, Result.failed Error.missing_key)
place_at divide request broker (some market) = place_new divide request market broker

unfoldable pub place_order :
    (ℕ → ℕ → ℕ) → OrderRequest → DryBroker → DryBroker × Result OrderReceipt
place_order divide request broker = elim (placed request.client_order_id broker.orders) [
  | some order ↦ (broker, Result.ok (receipt_of order))
  | none ↦ place_at divide request broker (broker.prices request.symbol)
]

unfoldable pub cancel_orders : ℕ → List DryOrder → List DryOrder
cancel_orders id [] = []
cancel_orders id (order ∷ orders) =
    (if (order.order_id == id) && is_pending order.status
      then record order { status = OrderStatus.canceled }
      else order)
    ∷ cancel_orders id orders

abbrev pub has_order : ℕ → List DryOrder → Bool
has_order id [] = false
has_order id (order ∷ orders) = (order.order_id == id) || has_order id orders

unfoldable pub cancel_order : ℕ → DryBroker → DryBroker × Result ℕ
cancel_order id broker =
    if has_order id broker.orders
    then (record broker { orders = cancel_orders id broker.orders }, Result.ok id)
    else (broker, Result.failed Error.missing_key)
