-- ===== src/OrderManager/Placed.antt =====
-- What becomes of a new request: its row after the reservation and the broker's answer.
use jd_holdings.Prelude.{ℕ, ◌≡◌, true, false, pos, Option, none, some, List}
use jd_holdings.Model.Enums.{OrderStatus}
use jd_holdings.Model.Snapshot.{OrderRequest, OrderReceipt}
use jd_holdings.Repository.Errors.{Error, Result}
use jd_holdings.Repository.Orders.{OrderRow, get_order_by_client_id, broker_id_is_taken}
use jd_holdings.OrderManager.{Answer, validate_receipt}
use jd_holdings.OrderManager.Validation.{IsReceiptOf}

-- The row is the order of the request.
pub record IsFor (request : OrderRequest) (cycle : Option ℕ) (row : OrderRow) : Type 0 where
  pub client_order_id : row.client_order_id ≡ request.client_order_id
  pub signal_id : row.signal_id ≡ request.signal_id
  pub cycle_id : row.cycle_id ≡ cycle
  pub symbol : row.symbol ≡ request.symbol
  pub side : row.side ≡ request.side
  pub is_limit : row.is_limit ≡ request.is_limit
  pub price : row.price ≡ request.price
  pub qty : row.qty ≡ request.quantity
  pub purpose : row.purpose ≡ request.purpose
  pub applied : row.applied ≡ false

-- A new row of the request, as it is before the broker answers.
pub record IsCreated (request : OrderRequest) (cycle : Option ℕ) (row : OrderRow) : Type 0 where
  pub its : IsFor request cycle row
  pub status : row.status ≡ OrderStatus.created
  pub filled : row.filled_qty ≡ 0
  pub price_none : row.average_fill_price ≡ none
  pub unknown_id : row.broker_order_id ≡ none

-- What a new order becomes with an answer of the broker, and what the request returns or raises: a
-- receipt that belongs to the order is stored as it is, one that does not makes the status UNKNOWN,
-- and so does an error that may have left an order behind; a final refusal makes it REJECTED. A
-- receipt with the broker's id of another order raises and leaves the order as it was created.
pub data Outcome (request : OrderRequest) (rows : List OrderRow) (before : OrderRow)
    : Answer → OrderRow → Result OrderReceipt → Type 0 where
  stored :
      {r : OrderReceipt} {later : OrderRow}
      → IsReceiptOf r request.client_order_id request.symbol request.side request.quantity
      → later.status ≡ r.status
      → later.broker_order_id ≡ r.broker_order_id
      → pos later.filled_qty ≡ r.filled_quantity
      → later.average_fill_price ≡ r.average_fill_price
      → Outcome request rows before (Answer.receipt r) later (Result.ok r)
  taken :
      {r : OrderReceipt}
      → IsReceiptOf r request.client_order_id request.symbol request.side request.quantity
      → broker_id_is_taken r.broker_order_id request.client_order_id rows ≡ true
      → Outcome request rows before (Answer.receipt r) before (Result.failed Error.integrity)
  foreign :
      {r : OrderReceipt} {later : OrderRow}
      → validate_receipt r request.client_order_id request.symbol request.side request.quantity
        ≡ false
      → later.status ≡ OrderStatus.unknown
      → Outcome request rows before (Answer.receipt r) later (Result.failed Error.invalid_receipt)
  doubtful :
      {later : OrderRow}
      → later.status ≡ OrderStatus.unknown
      → Outcome request rows before (Answer.api_error true) later (Result.failed Error.broker_error)
  refused :
      {later : OrderRow}
      → later.status ≡ OrderStatus.rejected
      → Outcome request rows before
          (Answer.api_error false)
          later
          (Result.failed Error.broker_error)
  broken :
      {later : OrderRow}
      → later.status ≡ OrderStatus.unknown
      → Outcome request rows before Answer.other_error later (Result.failed Error.broker_error)

module _ (request : OrderRequest) (cycle_id : Option ℕ) (rows : List OrderRow) (row : OrderRow)
    (found : get_order_by_client_id request.client_order_id rows ≡ some row)
    (created : IsCreated request cycle_id row) where
  -- The row of the request and its outcome, where a table and a result are left.
  IsLeft : Answer → List OrderRow × Result OrderReceipt → Type 0
  IsLeft answer left =
      (later : OrderRow) × (get_order_by_client_id request.client_order_id left.0 ≡ some later)
      × IsFor request cycle_id later
      × Outcome request rows row answer later left.1
