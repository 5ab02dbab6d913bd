-- ===== src/DryRunBroker/Histories.antt =====
-- Any history of the dry-run broker, from an empty one on: prices that are set, orders that are
-- placed, filled and cancelled, and operations that raise.
use jd_holdings.Prelude.{
  ℕ, ◌+◌, ◌==◌, if◌then◌else◌, ◌≡◌, refl, ◌&&◌, ℤ, Option, none, some, List, [], ◌∷◌, ◌++◌, arith,
  Bool-cases, Option-cases, inl, inr,
}
use jd_holdings.Model.Enums.{Symbol, OrderStatus, same_symbol}
use jd_holdings.Model.Snapshot.{OrderRequest}
use jd_holdings.DryRunBroker.Wallet.{DryOrder, Wallet, DryBroker, held, apply_fill, after_fill}
use jd_holdings.DryRunBroker.Orders.{
  is_pending, fill_open_orders, placed, fills_at_once, new_dry_order, place_new, place_at,
  place_order, cancel_orders, has_order, cancel_order,
}
use jd_holdings.DryRunBroker.Conserved.{
  Side-cases, spent, received, bought, sold, Keeps, Keeps-same,
}
use jd_holdings.DryRunBroker.Fills.{after_fill-Keeps, total, IsConserved, fill_orders-KeepsAll}

total-append :
    (f : DryOrder → ℕ) (orders : List DryOrder) (order : DryOrder)
    → total f (orders ++ (order ∷ [])) ≡ total f orders + f order
total-append f [] order = omega arith
total-append f (o ∷ orders) order = let rest = total-append f orders order in omega (arith, rest)

-- Cancelling an order changes its status only.
total-cancel :
    (f : DryOrder → ℕ) (id : ℕ) (orders : List DryOrder)
    → ((order : DryOrder) → f (record order { status = OrderStatus.canceled }) ≡ f order)
    → total f (cancel_orders id orders) ≡ total f orders
unfolding cancel_orders
total-cancel f id [] keeps = refl
total-cancel f id (order ∷ orders) keeps =
    let rest = total-cancel f id orders keeps in
    let kept = keeps order in
    elim (Bool-cases ((order.order_id == id) && is_pending order.status)) [
      | inl e ↦ rw e (omega (arith, rest, kept))
      | inr e ↦ rw e (omega (arith, rest))
    ]

unapplied :
    (symbol : Symbol) (order : DryOrder)
    → order.applied_quantity ≡ 0
    → order.applied_amount ≡ 0
    → (spent order ≡ 0) × (received order ≡ 0) × (bought symbol order ≡ 0) × (sold symbol order ≡ 0)
unapplied symbol order q a = elim (Bool-cases (same_symbol order.symbol symbol)) [
  | inl f ↦ elim (Side-cases order.side) [
    | inl e ↦ (rw (e, a) refl, rw e refl, rw (e, f, q) refl, rw e refl)
    | inr e ↦ (rw e refl, rw (e, a) refl, rw e refl, rw (e, f, q) refl)
  ]
  | inr f ↦ elim (Side-cases order.side) [
    | inl e ↦ (rw (e, a) refl, rw e refl, rw (e, f) refl, rw e refl)
    | inr e ↦ (rw e refl, rw (e, a) refl, rw e refl, rw (e, f) refl)
  ]
]

-- The calls that change the broker; the divisions of their Decimals can be of any rounding.
pub data Call : Type 0 where
  set_price : Symbol → ℕ → Call
  place : OrderRequest → Call
  cancel : ℕ → Call
  fill : Symbol → Call

abbrev pub new_prices : Symbol → ℕ → (Symbol → Option ℕ) → Symbol → Option ℕ
new_prices symbol price prices asked = if same_symbol asked symbol then some price else prices asked

unfoldable pub call : (ℕ → ℕ → ℕ) → Call → DryBroker → DryBroker
call divide (Call.set_price symbol price) broker = record broker {
  prices = new_prices symbol price broker.prices;
}
call divide (Call.place request) broker = (place_order divide request broker).0
call divide (Call.cancel id) broker = (cancel_order id broker).0
call divide (Call.fill symbol) broker = (fill_open_orders divide symbol broker).0

unfoldable pub call_all : (ℕ → ℕ → ℕ) → List Call → DryBroker → DryBroker
call_all divide [] broker = broker
call_all divide (c ∷ calls) broker = call_all divide calls (call divide c broker)

-- `DryRunBroker(prices, buying_power)`
abbrev pub new_broker : (Symbol → Option ℕ) → ℤ → DryBroker
new_broker prices buying_power = record {
  prices = prices;
  wallet = record { buying_power = buying_power; holdings = [] };
  orders = [];
  sequence = 0;
}

module _ (divide : ℕ → ℕ → ℕ) (symbol : Symbol) (start : ℤ) where
  -- A new order, of which nothing is applied, and what it becomes.
  append-IsConserved :
      (new later : DryOrder) (after : Wallet) (broker : DryBroker) (sequence : ℕ)
      → IsConserved symbol start broker
      → new.applied_quantity ≡ 0
      → new.applied_amount ≡ 0
      → Keeps symbol new broker.wallet later after
      → IsConserved symbol start (record broker {
        orders = broker.orders ++ (later ∷ []);
        wallet = after;
        sequence = sequence;
      })
  append-IsConserved new later after broker sequence h q a kept =
      let m = h.money in
      let n = h.shares in
      let m' = kept.money in
      let n' = kept.shares in
      let (z1, z2, z3, z4) = unapplied symbol new q a in
      let t1 = total-append spent broker.orders later in
      let t2 = total-append received broker.orders later in
      let t3 = total-append (bought symbol) broker.orders later in
      let t4 = total-append (sold symbol) broker.orders later in
      record {
        money = omega (arith, m, m', z1, z2, t1, t2);
        shares = omega (arith, n, n', z3, z4, t3, t4);
      }

  place_new-IsConserved :
      (request : OrderRequest) (market : ℕ) (broker : DryBroker)
      → IsConserved symbol start broker
      → IsConserved symbol start (place_new divide request market broker).0
  unfolding place_new new_dry_order
  place_new-IsConserved request market broker h =
      let order = new_dry_order (broker.sequence + 1) request market in
      elim (Bool-cases (fills_at_once request market)) [
        | inl e ↦
            let filled = after_fill order broker.wallet (apply_fill divide order broker.wallet) in
            let at_once =
              append-IsConserved order filled.0.0 filled.0.1 broker (broker.sequence + 1) h refl
                refl (after_fill-Keeps divide symbol order broker.wallet) in
            rw e (rw e at at_once)
        | inr e ↦
            let waits =
              append-IsConserved order order broker.wallet broker (broker.sequence + 1) h refl refl
                (Keeps-same symbol order broker.wallet) in
            rw e (rw e at waits)
      ]

  place_at-IsConserved :
      (request : OrderRequest) (broker : DryBroker) (market : Option ℕ)
      → IsConserved symbol start broker
      → IsConserved symbol start (place_at divide request broker market).0
  unfolding place_at
  place_at-IsConserved request broker none h = record { money = h.money; shares = h.shares }
  place_at-IsConserved request broker (some market) h =
      place_new-IsConserved request market broker h

  call-IsConserved :
      (c : Call) (broker : DryBroker)
      → IsConserved symbol start broker
      → IsConserved symbol start (call divide c broker)
  unfolding call place_order cancel_order fill_open_orders
  call-IsConserved (Call.set_price changed price) broker h = record {
    money = h.money;
    shares = h.shares;
  }
  call-IsConserved (Call.place request) broker h =
      elim (Option-cases (placed request.client_order_id broker.orders)) [
        | inl e ↦
            rw (e, call, place_order)
              (place_at-IsConserved request broker (broker.prices request.symbol) h)
        | inr (order, e) ↦ rw (e, call, place_order) h
      ]
  call-IsConserved (Call.cancel id) broker h = elim (Bool-cases (has_order id broker.orders)) [
    | inl e ↦
        let m = h.money in
        let n = h.shares in
        let a = total-cancel spent id broker.orders (λ order. refl) in
        let b = total-cancel received id broker.orders (λ order. refl) in
        let c = total-cancel (bought symbol) id broker.orders (λ order. refl) in
        let d = total-cancel (sold symbol) id broker.orders (λ order. refl) in
        rw (e, call, cancel_order)
          (record { money = omega (arith, m, a, b); shares = omega (arith, n, c, d) })
    | inr e ↦ rw (e, call, cancel_order) h
  ]
  call-IsConserved (Call.fill filled) broker h = elim (Option-cases (broker.prices filled)) [
    | inl p ↦ rw (p, call, fill_open_orders) h
    | inr (current, p) ↦
        let kept = fill_orders-KeepsAll divide symbol filled current broker.orders broker.wallet in
        let m = kept.money in
        let n = kept.shares in
        let m' = h.money in
        let n' = h.shares in
        rw (p, call, fill_open_orders)
          (record { money = omega (arith, m, m'); shares = omega (arith, n, n') })
  ]

  call_all-IsConserved :
      (calls : List Call) (broker : DryBroker)
      → IsConserved symbol start broker
      → IsConserved symbol start (call_all divide calls broker)
  unfolding call_all
  call_all-IsConserved [] broker h = h
  call_all-IsConserved (c ∷ calls) broker h =
      call_all-IsConserved calls (call divide c broker) (call-IsConserved c broker h)

  -- Whatever is called on a dry-run broker that starts without orders and holdings, and whatever of
  -- it raises: its buying power is the one it started with, less what its orders have spent and plus
  -- what they have received, and its shares of a symbol are those that they have bought less those
  -- that they have sold.
  pub call_all-new :
      (prices : Symbol → Option ℕ) (calls : List Call)
      → IsConserved symbol start (call_all divide calls (new_broker prices start))
  unfolding held
  call_all-new prices calls =
      call_all-IsConserved calls (new_broker prices start)
        (record { money = omega arith; shares = refl })
