-- ===== src/Core/Execution/Bounds.antt =====
-- A buy order stays below its ceiling and inside its budget.
use native.Mathlib.Nat.{mul-le-mul_right, le_trans}
use jd_holdings.Prelude.{
  ℕ, ◌+◌, ◌-◌, ◌*◌, ◌≤◌, ◌<◌, ◌≡◌, ◌≢◌, min, Option, none, some, arith, one, floor_div,
  floor_div-le, lt-floor_div,
}
use jd_holdings.Model.Enums.{DecisionType}
use jd_holdings.Model.Config.{StrategyConfig}
use jd_holdings.Core.Execution.{
  calculate_execution_price_ceiling, calculate_limit_price, calculate_order_quantity,
}

-- Whatever the action, a ceiling that is computed lies at or below the chase price.
pub calculate_execution_price_ceiling-le :
    (decided : DecisionType) (close : ℕ) (config : StrategyConfig) (trigger average : Option ℕ)
    {ceiling : ℕ}
    → calculate_execution_price_ceiling decided close config trigger average ≡ some ceiling
    → ceiling ≤ close * (one + config.global_.entry_max_chase_pct)
unfolding calculate_execution_price_ceiling
calculate_execution_price_ceiling-le decided close config trigger average h = ground arith

-- An addition's ceiling is also at or below its trigger.
pub calculate_execution_price_ceiling-le_trigger :
    (close trigger : ℕ) (config : StrategyConfig) (average : Option ℕ) {ceiling : ℕ}
    → calculate_execution_price_ceiling DecisionType.add_entry_candidate close config
        (some trigger)
        average
      ≡ some ceiling
    → ceiling ≤ trigger * one
unfolding calculate_execution_price_ceiling
calculate_execution_price_ceiling-le_trigger close trigger config average h = ground arith

-- A rebuy's ceiling is also below the average price by the required fall.
pub calculate_execution_price_ceiling-le_average :
    (close average : ℕ) (config : StrategyConfig) (trigger : Option ℕ) {ceiling : ℕ}
    → calculate_execution_price_ceiling DecisionType.rebuy_candidate close config trigger
        (some average)
      ≡ some ceiling
    → ceiling ≤ average * (one - config.rebuy.min_drop_from_avg)
unfolding calculate_execution_price_ceiling
calculate_execution_price_ceiling-le_average close average config trigger h = ground arith

-- A limit price, where there is one, is above neither the ceiling nor the buffered market
-- price, and less than one tick under the lower of the two.
pub calculate_limit_price-le :
    (current ceiling : ℕ) (config : StrategyConfig) (tick : ℕ) {limit : ℕ}
    → calculate_limit_price current ceiling config tick ≡ some limit
    → let raw = current * (one + config.global_.buy_limit_buffer) in
      (limit * one ≤ ceiling) × (limit * one ≤ raw) × (min raw ceiling < (limit + tick) * one)
unfolding calculate_limit_price
calculate_limit_price-le current ceiling config tick h =
    let raw = current * (one + config.global_.buy_limit_buffer) in
    let low = min raw ceiling in
    ground (arith, floor_div-le low (tick * one), lt-floor_div low (tick * one))

-- There is a limit price where there is a price, a tick, and a ceiling that the market is not above.
pub calculate_limit_price-none :
    (current ceiling : ℕ) (config : StrategyConfig) (tick : ℕ)
    → 0 < current
    → current * one ≤ ceiling
    → 0 < tick
    → calculate_limit_price current ceiling config tick ≢ none
unfolding calculate_limit_price
calculate_limit_price-none current ceiling config tick p c t h = ground arith

order_quantity-le-floor :
    (budget limit fee : ℕ) (maximum : Option ℕ)
    → calculate_order_quantity budget limit fee maximum
      ≤ floor_div (budget * one) (limit * (one + fee))
unfolding calculate_order_quantity
order_quantity-le-floor budget limit fee maximum = ground arith

-- What is bought, with the fee, never costs more than the budget.
pub calculate_order_quantity-le :
    (budget limit fee : ℕ) (maximum : Option ℕ)
    → calculate_order_quantity budget limit fee maximum * (limit * (one + fee)) ≤ budget * one
unfolding calculate_order_quantity
calculate_order_quantity-le budget limit fee maximum =
    let per_share = limit * (one + fee) in
    le_trans (mul-le-mul_right per_share (order_quantity-le-floor budget limit fee maximum))
      (floor_div-le (budget * one) per_share)

-- With a positive budget and limit and no maximum, one share more would exceed the budget.
pub calculate_order_quantity-greatest :
    (budget limit fee : ℕ)
    → 0 < budget
    → 0 < limit
    → budget * one < (calculate_order_quantity budget limit fee none + 1) * (limit * (one + fee))
unfolding calculate_order_quantity
calculate_order_quantity-greatest budget limit fee b l =
    let per_share = limit * (one + fee) in
    let pos : 0 < per_share = grind arith in
    ground (arith, lt-floor_div (budget * one) per_share pos)
