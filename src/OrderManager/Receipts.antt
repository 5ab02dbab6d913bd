-- ===== src/OrderManager/Receipts.antt =====
-- What the table of orders takes from a broker's receipt.
use mathlib.Core.Option.{some-injective}
use jd_holdings.Prelude.{
  ℕ, ◌≤◌, ◌≡◌, refl, sym, ap, ◌∙◌, ◌⊎◌, true, Option, none, some, List, pos, Bool-cases,
  Option-cases, inl, inr,
}
use jd_holdings.Model.Enums.{Symbol, Side, OrderStatus}
use jd_holdings.Model.Snapshot.{OrderReceipt}
use jd_holdings.Repository.Errors.{Error, Result, Result-cases, ok-injective, failed≢ok}
use jd_holdings.Repository.Orders.{
  OrderRow, OrderUpdate, keep, get_order_by_client_id, update_order, updated_row,
}
use jd_holdings.Repository.Orders.Rows.{keep_filled_bounds, update_order-ok, get-set_row-same}
use jd_holdings.OrderManager.Validation.{IsReceiptOf, validate_receipt-IsReceiptOf}
use jd_holdings.OrderManager.{
  Answer, Broker, validate_receipt, store, receipt_update, status_update, store_answer,
  refresh_order,
}

-- An update whose operation returns has been made.
store-ok {ℓ} :
    {A : Type ℓ} (id : ℕ) (u : OrderUpdate) (result : Result A) (rows : List OrderRow)
    {after : List OrderRow} {a : A}
    → store id u result rows ≡ (after, Result.ok a)
    → (update_order id u rows ≡ Result.ok after) × (result ≡ Result.ok a)
store-ok {A = A} id u result rows h = elim (Result-cases (update_order id u rows)) [
  | inl (new, e) ↦
      let p = rw (e, store) at h in
      (
        e ∙ ap Result.ok (ap (λ (q : List OrderRow × Result A). q.0) p),
        ap (λ (q : List OrderRow × Result A). q.1) p,
      )
  | inr (error, e) ↦
      absurd (failed≢ok (ap (λ (q : List OrderRow × Result A). q.1) (rw (e, store) at h)))
]

-- `later` is what a receipt makes of the order that it is for.
pub record IsStored (r : OrderReceipt) (row later : OrderRow) : Type 0 where
  pub status : later.status ≡ r.status
  pub filled : pos later.filled_qty ≡ r.filled_quantity
  pub filled_le : later.filled_qty ≤ row.qty
  pub filled_grows : row.filled_qty ≤ later.filled_qty
  pub average :
      ((r.average_fill_price ≡ none) × (later.average_fill_price ≡ row.average_fill_price))
      ⊎ (later.average_fill_price ≡ r.average_fill_price)

kept_price : (new old : Option ℕ) → ((new ≡ none) × (keep new old ≡ old)) ⊎ (keep new old ≡ new)
kept_price none old = inl (refl, refl)
kept_price (some price) old = inr refl

receipt_update-IsStored :
    (id : ℕ) (r : OrderReceipt) (broker_id : Option ℕ) (rows : List OrderRow) (row : OrderRow)
    {after : List OrderRow}
    → IsReceiptOf r id row.symbol row.side row.qty
    → get_order_by_client_id id rows ≡ some row
    → update_order id (receipt_update r broker_id) rows ≡ Result.ok after
    → (later : OrderRow) × (get_order_by_client_id id after ≡ some later) × IsStored r row later
receipt_update-IsStored id r broker_id rows row valid found updated =
    let u = receipt_update r broker_id in
    let (old, found', _, fill, e) = update_order-ok id u rows updated in
    let same : old ≡ row = some-injective _ _ (sym found' ∙ found) in
    let (filled, eq, le) = valid.filled in
    (
      updated_row u row,
      rw (← e) (get-set_row-same id (updated_row u) rows (λ x. refl) found),
      record {
        status = refl;
        filled = rw eq refl;
        filled_le = rw eq le;
        filled_grows =
            (keep_filled_bounds (some r.filled_quantity) r.average_fill_price row
              (rw (← same) fill)).0;
        average = kept_price r.average_fill_price row.average_fill_price;
      },
    )

-- An answer that is returned was a receipt that passed the checks, and it was stored.
store_answer-ok :
    (id : ℕ) (symbol : Symbol) (side : Side) (quantity : ℕ) (answer : Answer) (rows : List OrderRow)
    {after : List OrderRow} {r : OrderReceipt}
    → store_answer id symbol side quantity answer rows ≡ (after, Result.ok r)
    → (validate_receipt r id symbol side quantity ≡ true)
      × (update_order id (receipt_update r none) rows ≡ Result.ok after)
unfolding store_answer
store_answer-ok id symbol side quantity (Answer.receipt got) rows {r = r} h =
    elim (Bool-cases (validate_receipt got id symbol side quantity)) [
      | inl valid ↦
          let (updated, same) =
            store-ok id (receipt_update got none) (Result.ok got) rows (rw valid at h) in
          let e : got ≡ r = ok-injective same in rw (← e) (valid, updated)
      | inr invalid ↦ absurd (
          failed≢ok
            (store-ok id (status_update OrderStatus.unknown) (Result.failed Error.invalid_receipt)
              rows (rw invalid at h)).1)
    ]
store_answer-ok id symbol side quantity (Answer.api_error retryable) rows h =
    absurd (failed≢ok (ap (λ (q : List OrderRow × Result OrderReceipt). q.1) h))
store_answer-ok id symbol side quantity Answer.other_error rows h =
    absurd (failed≢ok (ap (λ (q : List OrderRow × Result OrderReceipt). q.1) h))

pub refresh_order-IsStored :
    (broker : Broker) (id : ℕ) (rows : List OrderRow) {after : List OrderRow} {r : OrderReceipt}
    → refresh_order broker id rows ≡ (after, Result.ok r)
    → (row later : OrderRow) × (get_order_by_client_id id rows ≡ some row)
      × (get_order_by_client_id id after ≡ some later)
      × IsReceiptOf r id row.symbol row.side row.qty
      × IsStored r row later
unfolding refresh_order
refresh_order-IsStored broker id rows {r = r} h =
    let not_found = λ (p : List OrderRow × Result OrderReceipt). p.1 in
    elim (Option-cases (get_order_by_client_id id rows)) [
      | inl e ↦ absurd (failed≢ok (ap not_found (rw (e, refresh_order) at h)))
      | inr (row, e) ↦ elim (Option-cases row.broker_order_id) [
        | inl b ↦ absurd (failed≢ok (ap not_found (rw (e, refresh_order, b) at h)))
        | inr (broker_id, b) ↦
            let (valid, updated) =
              store_answer-ok id row.symbol row.side row.qty (broker.get_order broker_id) rows
                (rw (e, refresh_order, b) at h) in
            let its = validate_receipt-IsReceiptOf r id row.symbol row.side row.qty valid in
            let (later, found, stored) = receipt_update-IsStored id r none rows row its e updated in
            (row, later, e, found, its, stored)
      ]
    ]
