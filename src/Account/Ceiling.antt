-- ===== src/Account/Ceiling.antt =====
-- A reserved buy never takes more than the program owns and may risk.
use mathlib.Core.Path.{subst}
use jd_holdings.Prelude.{
  ℕ, ◌+◌, ◌≤◌, ◌<◌, ◌≡◌, refl, ap, ◌∙◌, Bool, true, Option, some, ℤ, pos, ◌-ℤ◌, ◌≤ℤ◌, -ℤ_parts,
  arith, ltb,
}
use jd_holdings.Model.Enums.{Purpose}
use jd_holdings.Model.Snapshot.{OrderRequest}
use jd_holdings.Model.Config.{StrategyConfig}
use jd_holdings.Core.Allocation.{V322Policy}
use jd_holdings.Repository.Errors.{Error, Result, then-eq-ok, unless-eq-ok, ok-injective}
use jd_holdings.Repository.Orders.{reserve_order, new_order}
use jd_holdings.Repository.Tables.{Database, CoreRow, get_core_position}
use jd_holdings.Account.{
  raw_managed_cash, managed_cost_basis, stored_risk_budget, reserved_open_buy,
  committed_core_buy_quantity, core_target, remaining_target, core_target_check, least_of, as_buy,
  with_orders, required_amount, reserve_buy_order_with_managed_cash,
}
use jd_holdings.Repository.Orders.Rows.{reserve_order-true}
use jd_holdings.Account.Sums.{
  raw_managed_cash-append, managed_cost_basis-with_orders, reserved_open_buy-append,
  committed-append, open_buy_amount-new, committed_shares-new, le-least_of,
}

-- The open buys are covered by the cash, and with what is invested by the risk budget.
pub record IsCovered (config : StrategyConfig) (policy : V322Policy) (db : Database) : Type 0 where
  pub cash : ℤ
  pub raw_cash : raw_managed_cash config policy db ≡ Result.ok cash
  pub cash_covers : pos (reserved_open_buy config db.orders) ≤ℤ cash
  pub budget_covers :
      managed_cost_basis config db + reserved_open_buy config db.orders
      ≤ stored_risk_budget policy db

module _ (config : StrategyConfig) (policy : V322Policy) (broker : ℤ) (request : OrderRequest)
    (price : ℕ) (cycle_id : Option ℕ) (db : Database) where
  required : ℕ
  required = required_amount config request.quantity price

  reserved : ℕ
  reserved = reserved_open_buy config db.orders

  -- What a reservation that succeeds has checked.
  reserve_buy-ok :
      {added : Bool} {after : Database}
      → reserve_buy_order_with_managed_cash config policy broker request price cycle_id db
        ≡ Result.ok (added, after)
      → (cash : ℤ) × (raw_managed_cash config policy db ≡ Result.ok cash)
        × (core_target_check config (stored_risk_budget policy db) price request db ≡ Result.ok tt)
        × (required
            ≤ least_of
                (cash -ℤ pos reserved)
                (pos (stored_risk_budget policy db)
                  -ℤ pos (managed_cost_basis config db + reserved))
                broker)
        × ((reserve_order (as_buy request price) cycle_id db.orders).0 ≡ added)
        × (with_orders db (reserve_order (as_buy request price) cycle_id db.orders).1 ≡ after)
  unfolding reserve_buy_order_with_managed_cash required reserved
  reserve_buy-ok h =
      let (cash, e1, h1) = then-eq-ok _ _ h in
      let (_, e2, h2) = then-eq-ok _ _ h1 in
      let (e3, h3) = unless-eq-ok _ _ _ h2 in
      let p = ok-injective h3 in
      (
        cash,
        e1,
        e2,
        ground arith,
        ap (λ (q : Bool × Database). q.0) p,
        ap (λ (q : Bool × Database). q.1) p,
      )

  core_target_check-room :
      (core : CoreRow)
      → request.purpose ≡ Purpose.core_rebalance_buy
      → get_core_position request.symbol db.core_positions ≡ some core
      → core_target_check config (stored_risk_budget policy db) price request db ≡ Result.ok tt
      → request.quantity
        ≤ remaining_target config (stored_risk_budget policy db) price request.symbol db core
  unfolding core_target_check
  core_target_check-room core purpose found checked =
      let left =
        remaining_target config (stored_risk_budget policy db) price request.symbol db core in
      let (room, _) =
        unless-eq-ok (ltb left request.quantity) Error.target_exceeded (Result.ok tt)
          (rw (purpose, found) at checked) in
      ground (arith, room)

  -- A reservation of a buy that costs something, when it adds its order, leaves the account
  -- covered: the cash of the ledger pays for all open buys, and what is invested and what is
  -- open stay in the risk budget.
  pub reserve_buy_order-IsCovered :
      {after : Database}
      → 0 < required_amount config request.quantity price
      → reserve_buy_order_with_managed_cash config policy broker request price cycle_id db
        ≡ Result.ok (true, after)
      → IsCovered config policy after
  unfolding required reserved
  reserve_buy_order-IsCovered {after = after} some-money h =
      let (cash, raw, _, le, added, e) = reserve_buy-ok h in
      let (_, rows) = reserve_order-true (as_buy request price) cycle_id db.orders added in
      let (in_cash, in_risk, _) = le-least_of required _ _ broker some-money le in
      let new = new_order (as_buy request price) cycle_id in
      let total : reserved_open_buy config
            (reserve_order (as_buy request price) cycle_id db.orders).1
          ≡ reserved + required =
        rw rows (
          reserved_open_buy-append config db.orders new
          ∙ ap (λ (n : ℕ). reserved + n) (open_buy_amount-new config request price cycle_id)) in
      subst (IsCovered config policy) e (record {
        cash = cash;
        raw_cash = rw rows (raw_managed_cash-append config policy db new refl ∙ raw);
        cash_covers = rw total (omega (arith, -ℤ_parts cash (pos reserved), in_cash));
        budget_covers =
            rw (total, managed_cost_basis-with_orders config db _)
              (omega (
                arith,
                -ℤ_parts (pos (stored_risk_budget policy db))
                    (pos (managed_cost_basis config db + reserved)),
                in_risk,
              ));
      })

  -- A core buy of at least one share that is reserved keeps what the ledger holds of its
  -- symbol and what is then committed within the target of that row.
  pub reserve_buy_order-target :
      (core : CoreRow) {after : Database}
      → request.purpose ≡ Purpose.core_rebalance_buy
      → 0 < request.quantity
      → get_core_position request.symbol db.core_positions ≡ some core
      → reserve_buy_order_with_managed_cash config policy broker request price cycle_id db
        ≡ Result.ok (true, after)
      → core.qty + committed_core_buy_quantity after.core_fill_progress request.symbol after.orders
        ≤ core_target config (stored_risk_budget policy db) price core
  unfolding core_target_check remaining_target
  reserve_buy_order-target core {after = after} purpose shares found h =
      let (cash, raw, checked, le, added, e) = reserve_buy-ok h in
      let (_, rows) = reserve_order-true (as_buy request price) cycle_id db.orders added in
      let new = new_order (as_buy request price) cycle_id in
      let room : request.quantity
          ≤ remaining_target config (stored_risk_budget policy db) price request.symbol db core =
        core_target_check-room core purpose found checked in
      subst
        (λ (d : Database).
          core.qty + committed_core_buy_quantity d.core_fill_progress request.symbol d.orders
          ≤ core_target config (stored_risk_budget policy db) price core)
        e
        (rw (rows, committed-append db.core_fill_progress request.symbol db.orders new)
          (omega (
            arith,
            room,
            shares,
            committed_shares-new db.core_fill_progress request.symbol request price cycle_id,
          )))

-- A reservation of a buy inserts into the table and does nothing else to it.
pub reserve_buy-orders :
    (config : StrategyConfig) (policy : V322Policy) (broker : ℤ) (request : OrderRequest)
    (price : ℕ) (cycle_id : Option ℕ) (db : Database) {added : Bool} {after : Database}
    → reserve_buy_order_with_managed_cash config policy broker request price cycle_id db
      ≡ Result.ok (added, after)
    → (reserve_order (as_buy request price) cycle_id db.orders).1 ≡ after.orders
reserve_buy-orders config policy broker request price cycle_id db h =
    let (_, _, _, _, _, e) = reserve_buy-ok config policy broker request price cycle_id db h in
    ap (λ (d : Database). d.orders) e

pub reserve_buy-added :
    (config : StrategyConfig) (policy : V322Policy) (broker : ℤ) (request : OrderRequest)
    (price : ℕ) (cycle_id : Option ℕ) (db : Database) {added : Bool} {after : Database}
    → reserve_buy_order_with_managed_cash config policy broker request price cycle_id db
      ≡ Result.ok (added, after)
    → (reserve_order (as_buy request price) cycle_id db.orders).0 ≡ added
reserve_buy-added config policy broker request price cycle_id db h =
    let (_, _, _, _, e, _) = reserve_buy-ok config policy broker request price cycle_id db h in e
