-- ===== src/OrderManager/Requests.antt =====
-- What a request does to the table of orders, whatever the broker answers.
use mathlib.Core.Path.{subst}
use jd_holdings.Prelude.{
  ℕ, ◌≡◌, refl, Bool, Option, some, List, ℤ, Bool-cases, Option-cases, inl, inr, ap,
}
use jd_holdings.Model.Enums.{Symbol, Side}
use jd_holdings.Model.Snapshot.{OrderRequest}
use jd_holdings.Model.Config.{StrategyConfig}
use jd_holdings.Core.Allocation.{V322Policy}
use jd_holdings.Repository.Errors.{
  Error, Result, require, then-eq-ok, Result-cases, ok-injective, failed≢ok,
}
use jd_holdings.Repository.Orders.{
  OrderRow, OrderUpdate, get_order_by_client_id, reserve_order, update_order,
}
use jd_holdings.Repository.Orders.Steps.{Step, Steps}
use jd_holdings.Repository.Tables.{Database}
use jd_holdings.Account.{with_orders, as_buy, is_buy}
use jd_holdings.Account.Ceiling.{reserve_buy-orders}
use jd_holdings.OrderManager.{
  Answer, Broker, store, store_answer, refresh_order, resubmit, store_placed, reserve, submit,
  validate_receipt,
}

single : {rows after : List OrderRow} → Step rows after → Steps rows after
single s = Steps.more s Steps.done

pub Steps-trans : {a b c : List OrderRow} → Steps a b → Steps b c → Steps a c
Steps-trans Steps.done t = t
Steps-trans (Steps.more s rest) t = Steps.more s (Steps-trans rest t)

store-Steps {ℓ} :
    {A : Type ℓ} (id : ℕ) (update : OrderUpdate) (result : Result A) (rows : List OrderRow)
    → Steps rows (store id update result rows).0
store-Steps id update result rows = elim (Result-cases (update_order id update rows)) [
  | inl (after, e) ↦ rw (e, store) (single (Step.updated id update e))
  | inr (error, e) ↦ rw (e, store) Steps.done
]

store_answer-Steps :
    (id : ℕ) (symbol : Symbol) (side : Side) (quantity : ℕ) (answer : Answer) (rows : List OrderRow)
    → Steps rows (store_answer id symbol side quantity answer rows).0
unfolding store_answer
store_answer-Steps id symbol side quantity (Answer.receipt r) rows =
    elim (Bool-cases (validate_receipt r id symbol side quantity)) [
      | inl e ↦ rw e (store-Steps id _ _ rows)
      | inr e ↦ rw e (store-Steps id _ _ rows)
    ]
store_answer-Steps id symbol side quantity (Answer.api_error retryable) rows = Steps.done
store_answer-Steps id symbol side quantity Answer.other_error rows = Steps.done

-- Asking the broker again about an order, whatever it answers, is a use of the table's operations.
pub refresh_order-Steps :
    (broker : Broker) (id : ℕ) (rows : List OrderRow) → Steps rows (refresh_order broker id rows).0
unfolding refresh_order
refresh_order-Steps broker id rows = elim (Option-cases (get_order_by_client_id id rows)) [
  | inl e ↦ rw (e, refresh_order) Steps.done
  | inr (row, e) ↦ elim (Option-cases row.broker_order_id) [
    | inl b ↦ rw (e, refresh_order, b) Steps.done
    | inr (broker_id, b) ↦
        rw (e, refresh_order, b)
          (store_answer-Steps id row.symbol row.side row.qty (broker.get_order broker_id) rows)
  ]
]

store_placed-Steps :
    (request : OrderRequest) (answer : Answer) (rows : List OrderRow)
    → Steps rows (store_placed request answer rows).0
unfolding store_placed
store_placed-Steps request (Answer.receipt r) rows =
    elim (Bool-cases
      (validate_receipt r request.client_order_id request.symbol request.side request.quantity)) [
        | inl e ↦ rw e (store-Steps request.client_order_id _ _ rows)
        | inr e ↦ rw e (store-Steps request.client_order_id _ _ rows)
      ]
store_placed-Steps request (Answer.api_error retryable) rows =
    store-Steps request.client_order_id _ _ rows
store_placed-Steps request Answer.other_error rows = store-Steps request.client_order_id _ _ rows

resubmit_answer-Steps :
    (broker : Broker) (request : OrderRequest) (row : OrderRow) (rows : List OrderRow)
    (answer : Answer) (broker_id : ℕ)
    → row.broker_order_id ≡ some broker_id
    → broker.get_order broker_id ≡ answer
    → Steps rows (resubmit broker request row rows).0
unfolding resubmit
resubmit_answer-Steps broker request row rows (Answer.receipt r) broker_id b e =
    elim (Bool-cases
      (validate_receipt r request.client_order_id request.symbol request.side request.quantity)) [
        | inl v ↦ rw (b, resubmit, e, v) (store-Steps request.client_order_id _ _ rows)
        | inr v ↦ rw (b, resubmit, e, v) (store-Steps request.client_order_id _ _ rows)
      ]
resubmit_answer-Steps broker request row rows (Answer.api_error retryable) broker_id b e =
    rw (b, resubmit, e) Steps.done
resubmit_answer-Steps broker request row rows Answer.other_error broker_id b e =
    rw (b, resubmit, e) Steps.done

resubmit-Steps :
    (broker : Broker) (request : OrderRequest) (row : OrderRow) (rows : List OrderRow)
    → Steps rows (resubmit broker request row rows).0
unfolding resubmit
resubmit-Steps broker request row rows = elim (Option-cases row.broker_order_id) [
  | inl b ↦ rw (b, resubmit) Steps.done
  | inr (broker_id, b) ↦ resubmit_answer-Steps broker request row rows _ broker_id b refl
]

sell-Steps :
    (request : OrderRequest) (cycle_id : Option ℕ) (db : Database) {added : Bool} {after : Database}
    → ◌≡◌ {A = Result (Bool × Database)}
        (Result.ok (
          (reserve_order request cycle_id db.orders).0,
          with_orders db (reserve_order request cycle_id db.orders).1,
        ))
        (Result.ok (added, after))
    → Steps db.orders after.orders
sell-Steps request cycle_id db h =
    let e = ap (λ (q : Bool × Database). q.1.orders) (ok-injective h) in
    subst (Steps db.orders) e (single (Step.reserved request cycle_id))

-- A reservation that raises nothing is one insertion.
reserve-Steps :
    (config : StrategyConfig) (policy : V322Policy) (broker : Broker) (request : OrderRequest)
    (cycle_id : Option ℕ) (db : Database) {added : Bool} {after : Database}
    → reserve config policy broker request cycle_id db ≡ Result.ok (added, after)
    → Steps db.orders after.orders
unfolding reserve
reserve-Steps config policy broker request cycle_id db h = elim (Bool-cases (is_buy request.side)) [
  | inl buy ↦ elim (Option-cases request.price) [
    | inl e ↦ absurd (failed≢ok (rw (buy, e) at h))
    | inr (price, e) ↦
        let (power, _, bought) =
          then-eq-ok (require Error.broker_error broker.buying_power) _ (rw (buy, e) at h) in
        let inserted = reserve_buy-orders config policy power request price cycle_id db bought in
        subst (Steps db.orders) inserted (single (Step.reserved (as_buy request price) cycle_id))
  ]
  | inr sell ↦ sell-Steps request cycle_id db (rw sell at h)
]

module _ (config : StrategyConfig) (policy : V322Policy) (blocked : Bool) (broker : Broker)
    (request : OrderRequest) (cycle_id : Option ℕ) (db : Database) where
  -- A request, whatever the broker answers and whatever is raised, uses the table of orders by its
  -- operations only.
  pub submit-Steps :
      Steps db.orders (submit config policy blocked broker request cycle_id db).0.orders
  unfolding submit
  submit-Steps = elim (Option-cases (get_order_by_client_id request.client_order_id db.orders)) [
    | inr (row, e) ↦ rw (e, submit) (resubmit-Steps broker request row db.orders)
    | inl e ↦ elim (Result-cases (reserve config policy broker request cycle_id db)) [
      | inr (error, r) ↦ rw (e, submit, r) Steps.done
      | inl ((added, after), r) ↦
          let s = reserve-Steps config policy broker request cycle_id db r in
          elim (Bool-cases added) [
            | inr a ↦ rw (e, submit, r, a) s
            | inl a ↦ elim (Bool-cases blocked) [
              | inl b ↦ rw (e, submit, r, a, b) s
              | inr b ↦
                  rw (e, submit, r, a, b)
                    (Steps-trans s
                      (store_placed-Steps request (broker.place_order request) after.orders))
            ]
          ]
    ]
  ]

  -- A request whose order is in the table is not placed again: the outcome does not depend on what
  -- placing it would do, nor on the buying power.
  pub submit-places_once :
      (row : OrderRow) (place : OrderRequest → Answer) (power : Option ℤ)
      → get_order_by_client_id request.client_order_id db.orders ≡ some row
      → submit config policy blocked broker request cycle_id db
        ≡ submit config policy blocked
            (record { place_order = place; get_order = broker.get_order; buying_power = power })
            request
            cycle_id
            db
  unfolding submit resubmit
  submit-places_once row place power e = rw (e, submit) refl
