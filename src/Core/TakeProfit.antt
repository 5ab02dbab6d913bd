-- ===== src/Core/TakeProfit.antt =====
-- core/take_profit.py and core/remainder_exit.py: the prices and quantities that a holding is sold
-- at. A raised ValueError is `none`; an amount is a natural number, so `<= 0` is `== 0`.
pub mod Bounds
mod Tests
use jd_holdings.Prelude.{
  ℕ, ◌+◌, ◌-◌, ◌*◌, min, max, Bool, ◌&&◌, ◌||◌, Option, none, some, ceil_div, one, cent, leb, ◌==◌,
  if◌then◌else◌,
}
use jd_holdings.Model.Config.{TakeProfitConfig, RemainderExitConfig}
use jd_holdings.Model.Snapshot.{TakeProfitPlan}

-- `value` is in units of 1/`scale` of a unit of `tick_size`.
unfoldable pub ceil_to_tick : ℕ → ℕ → ℕ → ℕ
ceil_to_tick scale value tick_size = ceil_div value (tick_size * scale) * tick_size

-- max(base, multiplier * atr_pct), in 10^-36
tp_rate : TakeProfitConfig → ℕ → ℕ → ℕ → ℕ
tp_rate config base multiplier atr_pct =
    if config.use_atr then max (base * one) (multiplier * atr_pct) else base * one

-- average_price * (1 + rate), in 10^-54, up to the next tick
tp_price : ℕ → ℕ → ℕ → ℕ
unfolding ceil_to_tick
tp_price average_price rate tick_size =
    ceil_to_tick (one * one) (average_price * (one * one + rate)) tick_size

tp1_share : TakeProfitConfig → ℕ → ℕ
tp1_share config quantity = max 1 (min quantity (ceil_div (quantity * config.tp1_fraction) one))

-- The plan that is returned when the arguments are positive.
take_profit_plan : ℕ → ℕ → ℕ → TakeProfitConfig → ℕ → TakeProfitPlan
take_profit_plan average_price quantity atr_pct config tick_size =
    let tp1_rate = tp_rate config config.tp1_base config.tp1_atr_multiplier atr_pct in
    let tp2_rate = tp_rate config config.tp2_base config.tp2_atr_multiplier atr_pct in
    let tp1_quantity = tp1_share config quantity in
    record {
      average_price = average_price;
      atr_pct = atr_pct;
      tp1_rate = tp1_rate;
      tp2_rate = tp2_rate;
      tp1_price = tp_price average_price tp1_rate tick_size;
      tp2_price = tp_price average_price tp2_rate tick_size;
      tp1_quantity = tp1_quantity;
      tp2_quantity = quantity - tp1_quantity;
    }

unfoldable pub calculate_take_profit : ℕ → ℕ → ℕ → TakeProfitConfig → ℕ → Option TakeProfitPlan
unfolding tp_rate tp_price tp1_share take_profit_plan
calculate_take_profit average_price quantity atr_pct config tick_size =
    if average_price == 0 || quantity == 0
    then none
    else some (take_profit_plan average_price quantity atr_pct config tick_size)

unfoldable pub remainder_exit_due : ℕ → RemainderExitConfig → Bool
remainder_exit_due elapsed rule = rule.enabled && leb rule.wait_trading_days elapsed

unfoldable pub remainder_exit_price : ℕ → RemainderExitConfig → Option ℕ
remainder_exit_price average_price rule =
    if average_price == 0
    then none
    else some (ceil_to_tick one (average_price * (one + rule.target_from_avg)) cent)
