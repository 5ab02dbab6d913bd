-- ===== src/Repository/Recovery/Complete.antt =====
-- A recovery that returns leaves no fill of a core order out of the ledger.
use jd_holdings.Prelude.{ℕ, ◌==◌, ◌≢◌, ◌≡◌, ◌⊎◌, Bool, false, ◌||◌, List, [], ◌∷◌}
use jd_holdings.Model.Enums.{Purpose}
use jd_holdings.Repository.Orders.{OrderRow}
use jd_holdings.Repository.Tables.{FillProgress, progress_of}
use jd_holdings.Repository.CoreFill.{cumulative_notional}
use jd_holdings.Repository.Recovery.{is_unapplied}

-- What is settled is all in the ledger.
pub IsSettled : OrderRow → List FillProgress → Type 0
IsSettled order progress = is_unapplied (progress_of order.client_order_id progress) order ≡ false

pub is_in : ℕ → List ℕ → Bool
is_in id [] = false
is_in id (x ∷ xs) = (x == id) || is_in id xs

-- The ledger has taken all the shares of the order, for all the money that they came to, unless the
-- order is not one of the allocation or nothing of it has filled.
pub IsTaken : List FillProgress → OrderRow → Type 0
IsTaken progress order =
    ((order.purpose ≢ Purpose.core_rebalance_buy) × (order.purpose ≢ Purpose.core_rebalance_sell))
    ⊎ ((order.filled_qty ≡ 0)
        ⊎ (progress_of order.client_order_id progress
            ≡ (order.filled_qty, cumulative_notional order)))
