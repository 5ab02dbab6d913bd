-- ===== src/Core/Execution.antt =====
-- core/execution.py: the ceiling, the limit price and the quantity of a buy order. A raised
-- ValueError is `none`. Prices of the market are in 10^-18, a price times a rate is in 10^-36.
pub mod Bounds
mod Tests
use jd_holdings.Prelude.{
  ℕ, ◌+◌, ◌-◌, ◌*◌, min, Bool, ◌||◌, Option, none, some, floor_div, one, ltb, ◌==◌, if◌then◌else◌,
}
use mathlib.Core.Option
use jd_holdings.Model.Enums.{DecisionType}
use jd_holdings.Model.Config.{StrategyConfig}

-- In 10^-36.
unfoldable pub max_chase_price : ℕ → StrategyConfig → ℕ
max_chase_price signal_close config = signal_close * (one + config.global_.entry_max_chase_pct)

-- In 10^-36. A fall of more than the whole price leaves 0.
unfoldable pub calculate_execution_price_ceiling :
    DecisionType → ℕ → StrategyConfig → Option ℕ → Option ℕ → Option ℕ
unfolding max_chase_price
calculate_execution_price_ceiling DecisionType.first_entry_candidate close config trigger average =
    some (max_chase_price close config)
calculate_execution_price_ceiling DecisionType.add_entry_candidate close config trigger average =
    Option.map (λ t. min (max_chase_price close config) (t * one)) trigger
calculate_execution_price_ceiling DecisionType.rebuy_candidate close config trigger average =
    Option.map
      (λ a. min (max_chase_price close config) (a * (one - config.rebuy.min_drop_from_avg))) average
calculate_execution_price_ceiling _ close config trigger average = none

-- `value` is in 10^-36.
unfoldable pub floor_to_tick : ℕ → ℕ → Option ℕ
floor_to_tick value tick_size =
    if tick_size == 0 then none else some (floor_div value (tick_size * one) * tick_size)

unfoldable pub calculate_limit_price : ℕ → ℕ → StrategyConfig → ℕ → Option ℕ
unfolding floor_to_tick
calculate_limit_price current_price execution_price_ceiling config tick_size =
    if current_price == 0
    then none
    else if ltb execution_price_ceiling (current_price * one)
    then none
    else floor_to_tick
        (min (current_price * (one + config.global_.buy_limit_buffer)) execution_price_ceiling)
        tick_size

abbrev at_most : Option ℕ → ℕ → ℕ
at_most none quantity = quantity
at_most (some maximum) quantity = min quantity maximum

unfoldable pub calculate_order_quantity : ℕ → ℕ → ℕ → Option ℕ → ℕ
calculate_order_quantity budget limit_price buy_fee maximum_quantity =
    if budget == 0 || limit_price == 0
    then 0
    else at_most maximum_quantity (floor_div (budget * one) (limit_price * (one + buy_fee)))
