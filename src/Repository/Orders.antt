-- ===== src/Repository/Orders.antt =====
-- The table `orders` of application/database.py: its rows in the order of `order_id`, and the
-- operations that change it. Client order ids are unique and so are broker order ids. Texts that
-- are only stored, times included, are left out, and the signal that an order refers to is there.
pub mod Rows
pub mod Steps
pub mod Lifecycle
pub mod Consistency
use jd_holdings.Prelude.{
  ℕ, ◌==◌, ltb, if◌then◌else◌, Bool, true, false, not, ◌&&◌, ◌||◌, ℤ, pos, pos_part, ltb_ℤ, Option,
  none, some, is_none, List, [], ◌∷◌, ◌++◌, any,
}
use jd_holdings.Model.Enums.{
  Symbol, Side, Purpose, OrderStatus, is_listed, is_terminal, is_open, same_status, same_symbol,
}
use jd_holdings.Model.Snapshot.{OrderRequest}
use jd_holdings.Repository.Errors.{Error, Result, ◌then◌, unless, require}

pub record OrderRow : Type 0 where
  pub client_order_id : ℕ
  pub broker_order_id : Option ℕ
  pub signal_id : Option ℕ
  pub cycle_id : Option ℕ
  pub symbol : Symbol
  pub side : Side
  pub is_limit : Bool
  pub price : Option ℕ
  pub qty : ℕ
  pub filled_qty : ℕ
  pub average_fill_price : Option ℕ
  pub status : OrderStatus
  pub purpose : Purpose
  pub applied : Bool

-- SELECT * FROM orders WHERE client_order_id = ?
unfoldable pub get_order_by_client_id : ℕ → List OrderRow → Option OrderRow
get_order_by_client_id id [] = none
get_order_by_client_id id (row ∷ rows) =
    if row.client_order_id == id then some row else get_order_by_client_id id rows

-- The row that an INSERT adds.
abbrev pub new_order : OrderRequest → Option ℕ → OrderRow
new_order request cycle_id = record {
  client_order_id = request.client_order_id;
  broker_order_id = none;
  signal_id = request.signal_id;
  cycle_id = cycle_id;
  symbol = request.symbol;
  side = request.side;
  is_limit = request.is_limit;
  price = request.price;
  qty = request.quantity;
  filled_qty = 0;
  average_fill_price = none;
  status = OrderStatus.created;
  purpose = request.purpose;
  applied = false;
}

-- INSERT OR IGNORE: a taken client order id leaves the table as it is. The flag says whether a row
-- was added.
unfoldable pub reserve_order : OrderRequest → Option ℕ → List OrderRow → Bool × List OrderRow
reserve_order request cycle_id rows = elim (get_order_by_client_id request.client_order_id rows) [
  | none ↦ (true, rows ++ (new_order request cycle_id ∷ []))
  | some row ↦ (false, rows)
]

-- The arguments of update_order; `none` leaves a column as it is.
pub record OrderUpdate : Type 0 where
  pub status : OrderStatus
  pub broker_order_id : Option ℕ
  pub filled_qty : Option ℤ
  pub average_fill_price : Option ℕ

abbrev pub keep {ℓ} : {A : Type ℓ} → Option A → Option A → Option A
keep none old = old
keep (some a) old = some a

abbrev pub keep_filled : Option ℤ → ℕ → ℕ
keep_filled none old = old
keep_filled (some filled) old = pos_part filled

-- `average_fill_price is not None and average_fill_price <= 0`
abbrev pub is_zero_price : Option ℕ → Bool
is_zero_price none = false
is_zero_price (some price) = price == 0

-- The checks of a reported fill against the row.
unfoldable pub fill_conflicts : Option ℤ → Option ℕ → OrderRow → Bool
fill_conflicts none average row = false
fill_conflicts (some filled) average row =
    ltb_ℤ filled (pos row.filled_qty)
    || (ltb_ℤ (pos row.qty) filled || (ltb_ℤ (pos 0) filled && is_zero_price average))

-- A terminal status is final.
abbrev pub status_conflicts : OrderStatus → OrderRow → Bool
status_conflicts status row = is_terminal row.status && not (same_status status row.status)

abbrev pub updated_row : OrderUpdate → OrderRow → OrderRow
updated_row update row = record {
  client_order_id = row.client_order_id;
  broker_order_id = keep update.broker_order_id row.broker_order_id;
  signal_id = row.signal_id;
  cycle_id = row.cycle_id;
  symbol = row.symbol;
  side = row.side;
  is_limit = row.is_limit;
  price = row.price;
  qty = row.qty;
  filled_qty = keep_filled update.filled_qty row.filled_qty;
  average_fill_price = keep update.average_fill_price row.average_fill_price;
  status = update.status;
  purpose = row.purpose;
  applied = row.applied;
}

-- UPDATE orders SET ... WHERE client_order_id = ?
unfoldable pub set_row : ℕ → (OrderRow → OrderRow) → List OrderRow → List OrderRow
set_row id change [] = []
set_row id change (row ∷ rows) =
    (if row.client_order_id == id then change row else row) ∷ set_row id change rows

abbrev pub same_broker_id : ℕ → Option ℕ → Bool
same_broker_id id none = false
same_broker_id id (some other) = id == other

-- `broker_order_id TEXT UNIQUE`: whether another row has the broker's id.
unfoldable pub broker_id_is_taken : Option ℕ → ℕ → List OrderRow → Bool
broker_id_is_taken none id rows = false
broker_id_is_taken (some broker_id) id rows =
    any
      (λ (row : OrderRow).
        not (row.client_order_id == id) && same_broker_id broker_id row.broker_order_id)
      rows

unfoldable pub update_order : ℕ → OrderUpdate → List OrderRow → Result (List OrderRow)
update_order id update rows = unless (not (is_listed update.status)) Error.bad_value (
    require Error.missing_key (get_order_by_client_id id rows) then λ row.
    unless (status_conflicts update.status row) Error.state_conflict (
      unless (fill_conflicts update.filled_qty update.average_fill_price row) Error.state_conflict (
        unless (broker_id_is_taken update.broker_order_id id rows) Error.integrity
          (Result.ok (set_row id (updated_row update) rows)))))

abbrev pub applied_row : OrderRow → OrderRow
applied_row row = record {
  client_order_id = row.client_order_id;
  broker_order_id = row.broker_order_id;
  signal_id = row.signal_id;
  cycle_id = row.cycle_id;
  symbol = row.symbol;
  side = row.side;
  is_limit = row.is_limit;
  price = row.price;
  qty = row.qty;
  filled_qty = row.filled_qty;
  average_fill_price = row.average_fill_price;
  status = row.status;
  purpose = row.purpose;
  applied = true;
}

-- Whether a row was still to be applied, and the table.
unfoldable pub mark_order_applied : ℕ → List OrderRow → Bool × List OrderRow
mark_order_applied id rows = elim (get_order_by_client_id id rows) [
  | none ↦ (false, rows)
  | some row ↦ if row.applied then (false, rows) else (true, set_row id applied_row rows)
]

-- `symbol = ? AND status IN (...)`, or every symbol.
unfoldable pub open_orders : Option Symbol → List OrderRow → List OrderRow
open_orders symbol [] = []
open_orders symbol (row ∷ rows) =
    if is_open row.status && (elim symbol [ none ↦ true | some s ↦ same_symbol row.symbol s ])
    then row ∷ open_orders symbol rows
    else open_orders symbol rows
