-- ===== src/Repository/Recovery.antt =====
-- The core orders whose fills the ledger does not have, unapplied_core_fill_order_ids of
-- application/database.py, and recover_unapplied_core_fills of bot.py, which applies them at
-- start-up, before anything else runs.
pub mod Complete
mod Tests
use jd_holdings.Prelude.{ℕ, ◌==◌, if◌then◌else◌, Bool, true, false, not, ◌&&◌, List, [], ◌∷◌}
use jd_holdings.Model.Enums.{Purpose}
use jd_holdings.Repository.Errors.{Error, Result}
use jd_holdings.Repository.Orders.{OrderRow}
use jd_holdings.Repository.Tables.{FillProgress, Database, progress_of}
use jd_holdings.Repository.CoreFill.{cumulative_notional, apply_core_fill}

-- purpose IN ('CORE_REBALANCE_BUY', 'CORE_REBALANCE_SELL')
abbrev pub is_core_purpose : Purpose → Bool
is_core_purpose Purpose.core_rebalance_buy = true
is_core_purpose Purpose.core_rebalance_sell = true
is_core_purpose _ = false

-- An amount is 0 where there is no progress yet.
abbrev pub is_unapplied : ℕ × ℕ → OrderRow → Bool
is_unapplied progress order =
    is_core_purpose order.purpose
    && (not (order.filled_qty == 0)
        && not ((order.filled_qty == progress.0) && (cumulative_notional order == progress.1)))

unfoldable pub unapplied_core_fill_order_ids : List FillProgress → List OrderRow → List ℕ
unapplied_core_fill_order_ids progress [] = []
unapplied_core_fill_order_ids progress (order ∷ orders) =
    let rest = unapplied_core_fill_order_ids progress orders in
    if is_unapplied (progress_of order.client_order_id progress) order
    then order.client_order_id ∷ rest
    else rest

abbrev pub and_recovered : ℕ → Result (List ℕ) → Result (List ℕ)
and_recovered id (Result.ok ids) = Result.ok (id ∷ ids)
and_recovered id (Result.failed error) = Result.failed error

-- Each order in a transaction of its own, up to one that raises.
unfoldable pub apply_each : (ℕ → ℕ → ℕ) → List ℕ → Database → Database × Result (List ℕ)
apply_each divide [] db = (db, Result.ok [])
apply_each divide (id ∷ ids) db = elim (apply_core_fill divide id db) [
  | Result.failed error ↦ (db, Result.failed error)
  | Result.ok after ↦ let rest = apply_each divide ids after in (rest.0, and_recovered id rest.1)
]

unfoldable pub recover_unapplied_core_fills : (ℕ → ℕ → ℕ) → Database → Database × Result (List ℕ)
recover_unapplied_core_fills divide db =
    apply_each divide (unapplied_core_fill_order_ids db.core_fill_progress db.orders) db
