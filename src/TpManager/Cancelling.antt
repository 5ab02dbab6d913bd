-- ===== src/TpManager/Cancelling.antt =====
-- After the take-profit orders of a symbol are cancelled, those that the broker knows have ended.
use mathlib.Core.Bool.{true≢false}
use mathlib.Core.Path.{subst}
use jd_holdings.Prelude.{
  ℕ, ◌≡◌, refl, sym, ap, ◌∙◌, ◌⊎◌, Bool, true, false, not, pos, ltb_ℤ, Option, none, some, List, [],
  ◌∷◌, All, Bool-cases, true_of_not, inl, inr,
}
use jd_holdings.Model.Enums.{Symbol, is_terminal}
use jd_holdings.Model.Snapshot.{OrderReceipt}
use jd_holdings.Repository.Errors.{Result, Result-cases, failed≢ok}
use jd_holdings.Repository.Orders.{OrderRow, get_order_by_client_id, open_orders}
use jd_holdings.Repository.Orders.Steps.{Step, Steps}
use jd_holdings.Repository.Orders.Lifecycle.{Steps-Follows}
use jd_holdings.OrderManager.{Broker, refresh_order}
use jd_holdings.OrderManager.Receipts.{refresh_order-IsStored}
use jd_holdings.OrderManager.Requests.{Steps-trans, refresh_order-Steps}
use jd_holdings.TpManager.{is_cancellable, cancel_one, and_id, cancel_each, cancel_open_tp_orders}

-- The order has ended in the table.
pub IsEnded : OrderRow → List OrderRow → Type 0
IsEnded order rows =
    (row : OrderRow) × (get_order_by_client_id order.client_order_id rows ≡ some row)
    × (is_terminal row.status ≡ true)

IsEnded-Steps :
    (order : OrderRow) (rows after : List OrderRow)
    → Steps rows after
    → IsEnded order rows
    → IsEnded order after
unfolding IsEnded
IsEnded-Steps order rows after steps (row, found, terminal) =
    let (later, there, follows) = Steps-Follows rows after order.client_order_id row steps found in
    (
      later,
      there,
      elim follows.final [
        | inl going_on ↦ absurd (true≢false (sym terminal ∙ going_on))
        | inr same ↦ rw same terminal
      ],
    )

false_of_not : (b : Bool) → not b ≡ true → b ≡ false
false_of_not false h = refl
false_of_not true h = cc

kept :
    (order : OrderRow) (rows after : List OrderRow)
    → Steps rows after
    → (is_cancellable order ≡ false) ⊎ IsEnded order rows
    → (is_cancellable order ≡ false) ⊎ IsEnded order after
kept order rows after steps (inl e) = inl e
kept order rows after steps (inr ended) = inr (IsEnded-Steps order rows after steps ended)

module _ (broker : Broker) where
  cancel_one-Steps :
      (order : OrderRow) (rows : List OrderRow) → Steps rows (cancel_one broker order rows).0
  unfolding cancel_one
  cancel_one-Steps order rows =
      let id = order.client_order_id in
      let asked = refresh_order-Steps broker id rows in
      let refreshed = refresh_order broker id rows in
      elim (Bool-cases (not (is_cancellable order))) [
        | inl e ↦ rw (e, cancel_one) Steps.done
        | inr e ↦ elim (Result-cases refreshed.1) [
          | inl (receipt, r) ↦ elim (Bool-cases (not (is_terminal receipt.status))) [
            | inl t ↦ rw (e, r, t, cancel_one) asked
            | inr t ↦ elim (Bool-cases (ltb_ℤ (pos 0) receipt.filled_quantity)) [
              | inl f ↦ rw (e, r, t, f, cancel_one) asked
              | inr f ↦
                  rw (e, r, t, f, cancel_one)
                    (Steps-trans asked (Steps.more (Step.applied id) Steps.done))
            ]
          ]
          | inr (error, r) ↦ rw (e, r, cancel_one) asked
        ]
      ]

  cancel_one-IsEnded :
      (order : OrderRow) (rows : List OrderRow) {id : Option ℕ}
      → (cancel_one broker order rows).1 ≡ Result.ok id
      → (is_cancellable order ≡ false) ⊎ IsEnded order (cancel_one broker order rows).0
  unfolding cancel_one IsEnded
  cancel_one-IsEnded order rows h =
      let id = order.client_order_id in
      let refreshed = refresh_order broker id rows in
      elim (Bool-cases (not (is_cancellable order))) [
        | inl e ↦ inl (false_of_not _ e)
        | inr e ↦ elim (Result-cases refreshed.1) [
          | inl (receipt, r) ↦ elim (Bool-cases (not (is_terminal receipt.status))) [
            | inl t ↦ absurd (failed≢ok (rw (e, r, t, cancel_one) at h))
            | inr t ↦
                let (row, later, _, there, _, stored) =
                  refresh_order-IsStored broker id rows
                    (ap (λ (x : Result OrderReceipt). (refreshed.0, x)) r) in
                let ended : IsEnded order refreshed.0 =
                  (later, there, rw stored.status (true_of_not _ t)) in
                elim (Bool-cases (ltb_ℤ (pos 0) receipt.filled_quantity)) [
                  | inl f ↦ rw (e, r, t, f, cancel_one) (inr ended)
                  | inr f ↦
                      rw (e, r, t, f, cancel_one)
                        (inr (
                          IsEnded-Steps order refreshed.0 _
                            (Steps.more (Step.applied id) Steps.done) ended))
                ]
          ]
          | inr (error, r) ↦ absurd (failed≢ok (rw (e, r, cancel_one) at h))
        ]
      ]

  cancel_each-Steps : (orders rows : List OrderRow) → Steps rows (cancel_each broker orders rows).0
  unfolding cancel_each
  cancel_each-Steps [] rows = Steps.done
  cancel_each-Steps (order ∷ orders) rows =
      let first = cancel_one-Steps order rows in
      elim (Result-cases (cancel_one broker order rows).1) [
        | inl (id, e) ↦
            rw (e, cancel_each)
              (Steps-trans first (cancel_each-Steps orders (cancel_one broker order rows).0))
        | inr (error, e) ↦ rw (e, cancel_each) first
      ]

  cancel_each-next :
      (order : OrderRow) (orders rows : List OrderRow) {id : Option ℕ}
      → (cancel_one broker order rows).1 ≡ Result.ok id
      → (cancel_each broker (order ∷ orders) rows).0
        ≡ (cancel_each broker orders (cancel_one broker order rows).0).0
  unfolding cancel_each
  cancel_each-next order orders rows e = rw (e, cancel_each) refl

  and_id-ok :
      (id : Option ℕ) (r : Result (List ℕ)) {ids : List ℕ}
      → and_id id r ≡ Result.ok ids
      → (rest : List ℕ) × (r ≡ Result.ok rest)
  and_id-ok id (Result.ok rest) h = (rest, refl)
  and_id-ok none (Result.failed error) h = absurd (failed≢ok h)
  and_id-ok (some id) (Result.failed error) h = absurd (failed≢ok h)

  cancel_each-IsEnded :
      (orders rows : List OrderRow) {ids : List ℕ}
      → (cancel_each broker orders rows).1 ≡ Result.ok ids
      → All
          (λ order.
            (is_cancellable order ≡ false) ⊎ IsEnded order (cancel_each broker orders rows).0)
          orders
  unfolding cancel_each
  cancel_each-IsEnded [] rows h = tt
  cancel_each-IsEnded (order ∷ orders) rows h =
      let first = cancel_one broker order rows in
      elim (Result-cases first.1) [
        | inl (id, e) ↦
            let (rest, r) =
              and_id-ok id (cancel_each broker orders first.0).1 (rw (e, cancel_each) at h) in
            let later = cancel_each-Steps orders first.0 in
            let here = kept order first.0 _ later (cancel_one-IsEnded order rows e) in
            subst (λ t. All (λ o. (is_cancellable o ≡ false) ⊎ IsEnded o t) (order ∷ orders))
              (sym (cancel_each-next order orders rows e))
              (here, cancel_each-IsEnded orders first.0 r)
        | inr (error, e) ↦ absurd (failed≢ok (rw (e, cancel_each) at h))
      ]

  -- Where the take-profit orders of a symbol are cancelled without an error, each of them that the
  -- broker knows has a terminal status in the table afterwards.
  pub cancel_open_tp_orders-IsEnded :
      (symbol : Symbol) (rows : List OrderRow) {ids : List ℕ}
      → (cancel_open_tp_orders broker symbol rows).1 ≡ Result.ok ids
      → All
          (λ order.
            (is_cancellable order ≡ false)
            ⊎ IsEnded order (cancel_open_tp_orders broker symbol rows).0)
          (open_orders (some symbol) rows)
  unfolding cancel_open_tp_orders
  cancel_open_tp_orders-IsEnded symbol rows h =
      cancel_each-IsEnded (open_orders (some symbol) rows) rows h

  -- Cancelling the take-profit orders of a symbol changes the table of orders by its own operations
  -- only, whatever the broker answers and also where it raises.
  pub cancel_open_tp_orders-Steps :
      (symbol : Symbol) (rows : List OrderRow)
      → Steps rows (cancel_open_tp_orders broker symbol rows).0
  unfolding cancel_open_tp_orders
  cancel_open_tp_orders-Steps symbol rows = cancel_each-Steps (open_orders (some symbol) rows) rows
