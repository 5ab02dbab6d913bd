-- ===== src/Repository/IdleCash.antt =====
-- The tables of the SGOV holding of application/database.py, and apply_idle_cash_fill. `divide` is
-- the division of Decimals.
pub mod Laws
mod Tests
use jd_holdings.Prelude.{
  ℕ, ◌+◌, ◌-◌, ◌*◌, ◌==◌, ltb, if◌then◌else◌, Bool, true, false, not, Option, none, some, List, [],
  ◌∷◌,
}
use jd_holdings.Model.Enums.{Symbol, Side, Purpose, same_symbol, is_terminal}
use jd_holdings.Model.Snapshot.{IdleCashState}
use jd_holdings.Repository.Errors.{Error, Result, ◌then◌, unless, require}
use jd_holdings.Repository.Orders.{OrderRow, get_order_by_client_id, set_row, applied_row}
use jd_holdings.Repository.Tables.{FillProgress, progress_of}
use jd_holdings.Repository.CoreFill.{cumulative_notional, upsert_progress}

-- `orders`, `idle_cash_state` and `idle_cash_fill_progress`.
pub record IdleCash : Type 0 where
  pub orders : List OrderRow
  pub states : List IdleCashState
  pub fill_progress : List FillProgress

-- SELECT * FROM idle_cash_state WHERE symbol = ?
unfoldable pub find_state : Symbol → List IdleCashState → Option IdleCashState
find_state symbol [] = none
find_state symbol (row ∷ rows) =
    if same_symbol row.symbol symbol then some row else find_state symbol rows

-- A symbol without a row has an empty state.
unfoldable pub get_idle_cash_state : Symbol → List IdleCashState → IdleCashState
get_idle_cash_state symbol rows = elim (find_state symbol rows) [
  | none ↦ record { symbol = symbol; managed_quantity = 0; average_price = 0; version = 0 }
  | some row ↦ row
]

-- `purpose.startswith("SGOV_")`
abbrev pub is_sgov_purpose : Purpose → Bool
is_sgov_purpose Purpose.sgov_buy = true
is_sgov_purpose Purpose.sgov_sell = true
is_sgov_purpose _ = false

abbrev pub managed : ℕ → ℕ → IdleCashState → IdleCashState
managed quantity average row = record row {
  managed_quantity = quantity;
  average_price = average;
  version = row.version + 1;
}

-- The state after `filled - applied` further shares.
unfoldable pub filled_state : (ℕ → ℕ → ℕ) → OrderRow → ℕ → ℕ → IdleCashState → Result IdleCashState
filled_state divide order applied notional row =
    unless (ltb (cumulative_notional order) notional) Error.state_conflict (
      let delta = order.filled_qty - applied in
      elim order.side [
        | Side.buy ↦
            let quantity = row.managed_quantity + delta in
            let cost =
              row.average_price * row.managed_quantity + (cumulative_notional order - notional) in
            Result.ok (managed quantity (divide cost quantity) row)
        | Side.sell ↦
            let quantity = row.managed_quantity - delta in
            unless (ltb row.managed_quantity delta) Error.state_conflict
              (Result.ok (managed quantity (if quantity == 0 then 0 else row.average_price) row))
      ])

-- UPDATE idle_cash_state SET ... WHERE symbol = ?
unfoldable pub set_state : Symbol → IdleCashState → List IdleCashState → List IdleCashState
set_state symbol new [] = []
set_state symbol new (row ∷ rows) =
    (if same_symbol row.symbol symbol then new else row) ∷ set_state symbol new rows

-- Where there are no new shares, the state stays.
unfoldable pub new_states :
    (ℕ → ℕ → ℕ)
    → OrderRow
    → ℕ
    → ℕ
    → IdleCashState
    → List IdleCashState
    → Result (List IdleCashState)
new_states divide order applied notional row rows =
    if ltb applied order.filled_qty
    then (filled_state divide order applied notional row then λ new.
        Result.ok (set_state order.symbol new rows))
    else Result.ok rows

abbrev pub new_progress : ℕ → OrderRow → ℕ → FillProgress
new_progress id order notional = record {
  client_order_id = id;
  applied_filled_qty = order.filled_qty;
  applied_notional = if ltb 0 order.filled_qty then cumulative_notional order else notional;
}

unfoldable pub apply_idle_cash_fill : (ℕ → ℕ → ℕ) → ℕ → IdleCash → Result IdleCash
apply_idle_cash_fill divide id book =
    require Error.missing_key (get_order_by_client_id id book.orders) then λ order.
    unless (not (is_sgov_purpose order.purpose)) Error.bad_value (
      require Error.missing_key (find_state order.symbol book.states) then λ row.
      let (applied, notional) = progress_of id book.fill_progress in
      unless (ltb order.filled_qty applied) Error.state_conflict (
        new_states divide order applied notional row book.states then λ states. Result.ok (record {
          orders =
              if is_terminal order.status then set_row id applied_row book.orders else book.orders;
          states = states;
          fill_progress = upsert_progress (new_progress id order notional) book.fill_progress;
        })))
