-- ===== src/Repository/Orders/Steps.antt =====
-- The uses of the table of orders, one operation after the other.
use jd_holdings.Prelude.{ℕ, ◌≡◌, Option, List}
use jd_holdings.Model.Snapshot.{OrderRequest}
use jd_holdings.Repository.Errors.{Result}
use jd_holdings.Repository.Orders.{
  OrderRow, OrderUpdate, reserve_order, update_order, mark_order_applied,
}

-- The steps that change the table.
pub data Step : List OrderRow → List OrderRow → Type 0 where
  reserved :
      {rows : List OrderRow} (request : OrderRequest) (cycle_id : Option ℕ)
      → Step rows (reserve_order request cycle_id rows).1
  updated :
      {rows after : List OrderRow} (id : ℕ) (update : OrderUpdate)
      → update_order id update rows ≡ Result.ok after
      → Step rows after
  applied : {rows : List OrderRow} (id : ℕ) → Step rows (mark_order_applied id rows).1

pub data Steps : List OrderRow → List OrderRow → Type 0 where
  done : {rows : List OrderRow} → Steps rows rows
  more : {rows next after : List OrderRow} → Step rows next → Steps next after → Steps rows after
