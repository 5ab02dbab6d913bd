-- ===== src/Account/Sums.antt =====
-- What a new row adds to the sums over the table of orders.
use jd_holdings.Prelude.{
  inl, inr, ℕ, ◌+◌, ◌-◌, ◌≤◌, ◌<◌, ◌≡◌, refl, List, [], ◌∷◌, ◌++◌, ℤ, pos, ◌≤ℤ◌, arith, Option,
}
use jd_holdings.Model.Enums.{Symbol}
use jd_holdings.Model.Snapshot.{OrderRequest}
use jd_holdings.Model.Config.{StrategyConfig}
use jd_holdings.Repository.Errors.{Result-cases}
use jd_holdings.Repository.Orders.{OrderRow, new_order}
use jd_holdings.Repository.Tables.{FillProgress, Database}
use jd_holdings.Core.Allocation.{V322Policy}
use jd_holdings.Account.{
  cash_step, cash_after, reserved_open_buy, open_buy_amount, committed_core_buy_quantity,
  raw_managed_cash, managed_cost_basis, with_orders, committed_shares, required_amount, as_buy,
  least_of,
}

pub cash_after-append :
    (config : StrategyConfig) (rows : List OrderRow) (new : OrderRow) (balance : ℤ)
    → new.filled_qty ≡ 0
    → cash_after config (rows ++ (new ∷ [])) balance ≡ cash_after config rows balance
unfolding cash_after cash_step
cash_after-append config [] new balance e = rw e refl
cash_after-append config (r ∷ rows) new balance e =
    elim (Result-cases (cash_step config r balance)) [
      | inl (b, ok) ↦ rw ok (cash_after-append config rows new b e)
      | inr (error, raised) ↦ rw raised refl
    ]

pub raw_managed_cash-append :
    (config : StrategyConfig) (policy : V322Policy) (db : Database) (new : OrderRow)
    → new.filled_qty ≡ 0
    → raw_managed_cash config policy (with_orders db (db.orders ++ (new ∷ [])))
      ≡ raw_managed_cash config policy db
unfolding raw_managed_cash
raw_managed_cash-append config policy db new e = cash_after-append config db.orders new _ e

pub managed_cost_basis-with_orders :
    (config : StrategyConfig) (db : Database) (orders : List OrderRow)
    → managed_cost_basis config (with_orders db orders) ≡ managed_cost_basis config db
unfolding managed_cost_basis
managed_cost_basis-with_orders config db orders = refl

pub reserved_open_buy-append :
    (config : StrategyConfig) (rows : List OrderRow) (new : OrderRow)
    → reserved_open_buy config (rows ++ (new ∷ []))
      ≡ reserved_open_buy config rows + open_buy_amount config new
unfolding reserved_open_buy
reserved_open_buy-append config [] new = omega arith
reserved_open_buy-append config (r ∷ rows) new =
    omega (arith, reserved_open_buy-append config rows new)

pub committed-append :
    (progress : List FillProgress) (symbol : Symbol) (rows : List OrderRow) (new : OrderRow)
    → committed_core_buy_quantity progress symbol (rows ++ (new ∷ []))
      ≡ committed_core_buy_quantity progress symbol rows + committed_shares progress symbol new
unfolding committed_core_buy_quantity
committed-append progress symbol [] new = omega arith
committed-append progress symbol (r ∷ rows) new =
    omega (arith, committed-append progress symbol rows new)

pub open_buy_amount-new :
    (config : StrategyConfig) (request : OrderRequest) (price : ℕ) (cycle_id : Option ℕ)
    → open_buy_amount config (new_order (as_buy request price) cycle_id)
      ≡ required_amount config request.quantity price
unfolding open_buy_amount
open_buy_amount-new config request price cycle_id =
    let e : request.quantity - 0 ≡ request.quantity = omega arith in rw e refl

pub committed_shares-new :
    (progress : List FillProgress) (symbol : Symbol) (request : OrderRequest) (price : ℕ)
    (cycle_id : Option ℕ)
    → committed_shares progress symbol (new_order (as_buy request price) cycle_id)
      ≤ request.quantity
unfolding committed_shares
committed_shares-new progress symbol request price cycle_id = ground arith

pub le-least_of :
    (x : ℕ) (cash risk broker : ℤ)
    → 0 < x
    → x ≤ least_of cash risk broker
    → (pos x ≤ℤ cash) × (pos x ≤ℤ risk) × (pos x ≤ℤ broker)
unfolding least_of
le-least_of x cash risk broker p h = ground arith
