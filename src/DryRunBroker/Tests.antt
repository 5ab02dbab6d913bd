-- ===== src/DryRunBroker/Tests.antt =====
-- A dry-run broker with QQQ at 400: a buy that waits and is filled, a sell, and a sell of too much.
use jd_holdings.Prelude.{
  ℕ, ◌*◌, ◌/◌, ◌≡◌, refl, true, false, ℤ, pos, ◌+ℤ◌, ◌-ℤ◌, Option, none, some, List, [], ◌∷◌, one,
}
use jd_holdings.Model.Enums.{Symbol, Side, Purpose}
use jd_holdings.Model.Snapshot.{OrderRequest}
use jd_holdings.Repository.Errors.{Error, Result}
use jd_holdings.DryRunBroker.Wallet.{
  DryOrder, held, set_held, cumulative_amount, settle, apply_fill,
}
use jd_holdings.DryRunBroker.Orders.{
  filled_order, fill_remaining_order, fill_at_limit, fill_open_order, fill_orders, fill_open_orders,
  placed, receipt_of, new_dry_order, place_new, place_at, place_order, cancel_orders, cancel_order,
}
use jd_holdings.DryRunBroker.Fills.{IsConserved}
use jd_holdings.DryRunBroker.Histories.{Call, call, call_all, new_broker, call_all-new}
use jd_holdings.DryRunBroker.Placed.{place_order-again}

abbrev prices : Symbol → Option ℕ
prices Symbol.qqq = some (400 * one)
prices _ = none

abbrev start : ℤ
start = pos (10_000 * one)

abbrev limit_buy : OrderRequest
limit_buy = record {
  client_order_id = 1;
  symbol = Symbol.qqq;
  side = Side.buy;
  is_limit = true;
  quantity = 10;
  price = some (390 * one);
  purpose = Purpose.core_rebalance_buy;
  signal_id = none;
}

abbrev market_sell : ℕ → ℕ → OrderRequest
market_sell id quantity = record limit_buy {
  client_order_id = id;
  side = Side.sell;
  is_limit = false;
  quantity = quantity;
  price = none;
}

-- The buy waits until QQQ falls to 380; then four shares are sold, and seven more cannot be.
abbrev calls : List Call
calls =
    Call.place limit_buy
    ∷ (Call.set_price Symbol.qqq (380 * one)
        ∷ (Call.fill Symbol.qqq
            ∷ (Call.place (market_sell 2 4)
                ∷ (Call.place (market_sell 3 7) ∷ (Call.cancel 1 ∷ [])))))

buys_and_sells : (call_all (λ a b. a / b) calls (new_broker prices start)).wallet ≡ record {
  buying_power = pos (7_720 * one);
  holdings = record { symbol = Symbol.qqq; quantity = 6; average_price = 380 * one } ∷ [];
}
unfolding call call_all place_order place_at place_new new_dry_order placed fill_open_orders
    fill_orders fill_open_order fill_at_limit fill_remaining_order filled_order apply_fill settle
    held set_held cumulative_amount cancel_order cancel_orders ◌+ℤ◌ ◌-ℤ◌
buys_and_sells = refl

call_all-new_example :
    IsConserved Symbol.qqq start (call_all (λ a b. a / b) calls (new_broker prices start))
call_all-new_example = call_all-new (λ a b. a / b) Symbol.qqq start prices calls

-- A sell of shares that are not there raises, and its order is kept as filled.
oversold :
    (place_order (λ a b. a / b) (market_sell 3 7) (new_broker prices start)).1
    ≡ Result.failed Error.broker_error
unfolding place_order place_at place_new new_dry_order placed apply_fill settle held
    cumulative_amount
oversold = refl

oversold_again :
    (place_order
      (λ a b. a / b)
      (market_sell 3 7)
      (place_order (λ a b. a / b) (market_sell 3 7) (new_broker prices start)).0).1
    ≡ Result.ok (receipt_of (new_dry_order 1 (market_sell 3 7) (400 * one)))
unfolding place_order place_at place_new new_dry_order placed apply_fill settle held
    cumulative_amount
oversold_again = refl

place_order-again_example :
    (order : DryOrder) × (placed 3
        (place_order (λ a b. a / b) (market_sell 3 7) (new_broker prices start)).0.orders
      ≡ some order)
    × (place_order
          (λ a b. a / b)
          (market_sell 3 7)
          (place_order (λ a b. a / b) (market_sell 3 7) (new_broker prices start)).0
        ≡ (
          (place_order (λ a b. a / b) (market_sell 3 7) (new_broker prices start)).0,
          Result.ok (receipt_of order),
        ))
place_order-again_example =
    place_order-again (λ a b. a / b) (market_sell 3 7) (λ a b. a / b) (new_broker prices start)
      (400 * one) refl
