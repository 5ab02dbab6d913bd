-- ===== src/DryRunBroker/Placed.antt =====
-- An order of the dry-run broker is placed once for its client order id.
use jd_holdings.Prelude.{
  ℕ, ◌+◌, ◌-◌, ◌==◌, ==_iff, ltb, ◌≡◌, refl, ap, true, ◌||◌, none, some, List, [], ◌∷◌, ◌++◌,
  Bool-cases, Option-cases, inl, inr,
}
use jd_holdings.Model.Snapshot.{OrderRequest}
use jd_holdings.Repository.Errors.{Result, Result-cases}
use jd_holdings.DryRunBroker.Wallet.{
  DryOrder, Wallet, DryBroker, cumulative_amount, settle, apply_fill, after_fill,
}
use jd_holdings.DryRunBroker.Orders.{
  placed, receipt_of, fills_at_once, new_dry_order, place_new, place_at, place_order,
}

placed-append :
    (id : ℕ) (orders : List DryOrder) (order : DryOrder)
    → placed id orders ≡ none
    → order.client_order_id ≡ id
    → placed id (orders ++ (order ∷ [])) ≡ some order
unfolding placed
placed-append id [] order h e =
    let same : (order.client_order_id == id) ≡ true = (==_iff _ _).1 e in rw same refl
placed-append id (o ∷ orders) order h e = elim (Bool-cases (o.client_order_id == id)) [
  | inl f ↦ cc
  | inr f ↦ rw f (placed-append id orders order (rw f at h) e)
]

after_fill-id :
    (divide : ℕ → ℕ → ℕ) (order : DryOrder) (wallet : Wallet)
    → (after_fill order wallet (apply_fill divide order wallet)).0.0.client_order_id
      ≡ order.client_order_id
unfolding apply_fill
after_fill-id divide order wallet =
    elim (Bool-cases (
      ltb order.filled_quantity order.applied_quantity
      || ltb (cumulative_amount order) order.applied_amount)) [
        | inl e ↦ rw e refl
        | inr e ↦ elim (Bool-cases (order.filled_quantity == order.applied_quantity)) [
          | inl f ↦ rw (e, f) refl
          | inr f ↦
              let shares = order.filled_quantity - order.applied_quantity in
              let money = cumulative_amount order - order.applied_amount in
              elim (Result-cases (settle divide order shares money wallet)) [
                | inl (w, s) ↦ rw (e, f, s) refl
                | inr (error, s) ↦ rw (e, f, s) refl
              ]
        ]
      ]

place_order-known :
    (divide : ℕ → ℕ → ℕ) (request : OrderRequest) (broker : DryBroker) {order : DryOrder}
    → placed request.client_order_id broker.orders ≡ some order
    → place_order divide request broker ≡ (broker, Result.ok (receipt_of order))
unfolding place_order
place_order-known divide request broker e = rw (e, place_order) refl

module _ (divide : ℕ → ℕ → ℕ) (request : OrderRequest) where
  placed-new :
      (market : ℕ) (broker : DryBroker)
      → placed request.client_order_id broker.orders ≡ none
      → (order : DryOrder) × (placed request.client_order_id
            (place_new divide request market broker).0.orders
          ≡ some order)
  unfolding place_new new_dry_order
  placed-new market broker h =
      let order = new_dry_order (broker.sequence + 1) request market in
      elim (Bool-cases (fills_at_once request market)) [
        | inl e ↦
            let filled = after_fill order broker.wallet (apply_fill divide order broker.wallet) in
            let there =
              placed-append request.client_order_id broker.orders filled.0.0 h
                (after_fill-id divide order broker.wallet) in
            (filled.0.0, rw e (rw e at there))
        | inr e ↦
            let there = placed-append request.client_order_id broker.orders order h refl in
            (order, rw e (rw e at there))
      ]

  place_order-new :
      (broker : DryBroker) (market : ℕ)
      → placed request.client_order_id broker.orders ≡ none
      → broker.prices request.symbol ≡ some market
      → place_order divide request broker ≡ place_new divide request market broker
  unfolding place_order place_at
  place_order-new broker market e price =
      rw (e, place_order) (ap (place_at divide request broker) price)

  -- Where its symbol has a price, a request that is placed again changes nothing, and the receipt is
  -- that of the order which the first call stored, also where the first call raised.
  pub place_order-again :
      (other : ℕ → ℕ → ℕ) (broker : DryBroker) (market : ℕ)
      → broker.prices request.symbol ≡ some market
      → (order : DryOrder) × (placed request.client_order_id
            (place_order divide request broker).0.orders
          ≡ some order)
        × (place_order other request (place_order divide request broker).0
            ≡ ((place_order divide request broker).0, Result.ok (receipt_of order)))
  place_order-again other broker market price =
      elim (Option-cases (placed request.client_order_id broker.orders)) [
        | inr (order, e) ↦
            let known = place_order-known divide request broker e in
            rw known (order, e, place_order-known other request broker e)
        | inl e ↦
            let (order, there) = placed-new market broker e in
            rw (place_order-new broker market e price)
              (order, there, place_order-known other request _ there)
      ]
