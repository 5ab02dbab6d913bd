-- ===== src/Core/TakeProfit/Tests.antt =====
-- A plan for 11 shares bought at 50 dollars, and the exit of a remainder.
use jd_holdings.Prelude.{◌+◌, ◌*◌, ◌≡◌, refl, some, one, cent, arith, ceil_div}
use jd_holdings.Model.Snapshot.{TakeProfitPlan}
use jd_holdings.Model.Samples.{sample_take_profit, sample_remainder_exit}
use jd_holdings.Core.TakeProfit.{
  calculate_take_profit, take_profit_plan, tp_rate, tp_price, tp1_share, ceil_to_tick,
  remainder_exit_price,
}
use jd_holdings.Core.TakeProfit.Bounds.{
  IsCeiling, calculate_take_profit-IsCeiling, remainder_exit_price-IsCeiling,
}

abbrev plan : TakeProfitPlan
plan = record {
  average_price = 50 * one;
  atr_pct = 0;
  tp1_rate = 6 * cent * one;
  tp2_rate = 12 * cent * one;
  tp1_price = 53 * one;
  tp2_price = 56 * one;
  tp1_quantity = 6;
  tp2_quantity = 5;
}

plans : calculate_take_profit (50 * one) 11 0 sample_take_profit cent ≡ some plan
unfolding calculate_take_profit take_profit_plan tp_rate tp_price tp1_share ceil_to_tick ceil_div
plans = refl

calculate_take_profit-IsCeiling_example :
    IsCeiling (one * one) (50 * one * (one * one + 6 * cent * one)) cent (53 * one)
    × IsCeiling (one * one) (50 * one * (one * one + 12 * cent * one)) cent (56 * one)
calculate_take_profit-IsCeiling_example =
    calculate_take_profit-IsCeiling (50 * one) 11 0 sample_take_profit cent (omega arith) plans

exits : remainder_exit_price (50 * one) sample_remainder_exit ≡ some (5_150 * cent)
unfolding remainder_exit_price ceil_to_tick ceil_div
exits = refl

remainder_exit_price-IsCeiling_example :
    IsCeiling one (50 * one * (one + 3 * cent)) cent (5_150 * cent)
remainder_exit_price-IsCeiling_example =
    remainder_exit_price-IsCeiling (50 * one) sample_remainder_exit exits
