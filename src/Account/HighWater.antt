-- ===== src/Account/HighWater.antt =====
-- The high-water mark only rises, and the risk budget follows what a session was worth.
use jd_holdings.Prelude.{◌*◌, ◌≤◌, ◌≡◌, refl, max, ℤ, pos, pos_part, ltb_ℤ, one, arith}
use jd_holdings.Core.Allocation.{V322Policy}
use jd_holdings.Core.Allocation.Exposure.{hwm_risk_budget-le}
use jd_holdings.Repository.Errors.{Result, unless-eq-ok, ok-injective}
use jd_holdings.Repository.Tables.{Database}
use jd_holdings.Account.{stored_high_water, stored_risk_budget, record_v322_equity}

-- Where at most the whole gain is reinvested, an equity that is recorded never lowers the
-- high-water mark, which is then at least that equity and the initial capital, and the risk budget
-- is at most the equity; the orders stay as they are.
pub record_v322_equity-le :
    (policy : V322Policy) (marked : ℤ) (db : Database) {after : Database}
    → policy.hwm_reinvestment_fraction ≤ one
    → record_v322_equity policy marked db ≡ Result.ok after
    → (stored_high_water policy db ≤ stored_high_water policy after)
      × (pos_part marked ≤ stored_high_water policy after)
      × (policy.initial_capital ≤ stored_high_water policy after)
      × (stored_risk_budget policy after ≤ pos_part marked * one)
      × (after.orders ≡ db.orders)
unfolding record_v322_equity
record_v322_equity-le policy marked db h r =
    let (_, e) = unless-eq-ok (ltb_ℤ marked (pos 0)) _ _ r in
    let high = max (stored_high_water policy db) (max (pos_part marked) policy.initial_capital) in
    let (le, _) = hwm_risk_budget-le high (pos_part marked) policy h in
    rw (← ok-injective e) (omega arith, omega arith, omega arith, le, refl)
