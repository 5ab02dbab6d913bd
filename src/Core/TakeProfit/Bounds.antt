-- ===== src/Core/TakeProfit/Bounds.antt =====
-- What a take-profit plan promises: the two legs share the holding, and each price is the least
-- multiple of the tick that reaches the target.
use native.Mathlib.Nat.{mul-le-mul_left, mul-le-mul_right}
use jd_holdings.Prelude.{
  ℕ, ◌+◌, ◌*◌, ◌≤◌, ◌<◌, ◌≡◌, some, arith, one, cent, ceil_div, ceil_div_bounds, ceil_div_mono,
}
use jd_holdings.Model.Config.{TakeProfitConfig, RemainderExitConfig}
use jd_holdings.Model.Snapshot.{TakeProfitPlan}
use jd_holdings.Core.TakeProfit.{
  ceil_to_tick, tp_rate, tp_price, tp1_share, calculate_take_profit, take_profit_plan,
  remainder_exit_price,
}

-- `price`, at `scale` units to one of its own, is the first multiple of the tick from `target` on.
abbrev pub IsCeiling : ℕ → ℕ → ℕ → ℕ → Type 0
IsCeiling scale target tick price =
    (target ≤ price * scale)
    × (price * scale < target + tick * scale)
    × ((n : ℕ) × (price ≡ n * tick))

ceil_to_tick-IsCeiling :
    (scale value tick : ℕ)
    → 0 < tick * scale
    → IsCeiling scale value tick (ceil_to_tick scale value tick)
unfolding ceil_to_tick
ceil_to_tick-IsCeiling scale value tick h =
    let (up, near) = ceil_div_bounds value (tick * scale) h in
    (omega arith, omega arith, (ceil_div value (tick * scale), omega arith))

tp1_share_bounds :
    (config : TakeProfitConfig) (q : ℕ)
    → 0 < q
    → (1 ≤ tp1_share config q) × (tp1_share config q ≤ q)
unfolding tp1_share
tp1_share_bounds config q h = omega arith

-- A plan is made of positive arguments only, and as `take_profit_plan` says.
calculate_take_profit-some :
    (a q atr : ℕ) (config : TakeProfitConfig) (tick : ℕ) {plan : TakeProfitPlan}
    → calculate_take_profit a q atr config tick ≡ some plan
    → (0 < a) × (0 < q) × (plan ≡ take_profit_plan a q atr config tick)
unfolding calculate_take_profit
calculate_take_profit-some a q atr config tick h = ground arith

-- The two legs of a plan sell exactly the holding, at least one share in the first.
pub calculate_take_profit-quantities :
    (average_price quantity atr_pct : ℕ) (config : TakeProfitConfig) (tick : ℕ)
    {plan : TakeProfitPlan}
    → calculate_take_profit average_price quantity atr_pct config tick ≡ some plan
    → (1 ≤ plan.tp1_quantity) × (plan.tp1_quantity + plan.tp2_quantity ≡ quantity)
unfolding take_profit_plan
calculate_take_profit-quantities a q atr config tick h =
    let (_, pos, e) = calculate_take_profit-some a q atr config tick h in
    rw e (omega (arith, tp1_share_bounds config q pos))

tp_price-IsCeiling :
    (average_price rate tick : ℕ)
    → 0 < tick
    → IsCeiling
        (one * one)
        (average_price * (one * one + rate))
        tick
        (tp_price average_price rate tick)
unfolding tp_price
tp_price-IsCeiling a rate tick h =
    ceil_to_tick-IsCeiling (one * one) (a * (one * one + rate)) tick (omega arith)

-- With a positive tick, both prices of a plan are the first ticks that reach the average price
-- plus its rate.
pub calculate_take_profit-IsCeiling :
    (average_price quantity atr_pct : ℕ) (config : TakeProfitConfig) (tick : ℕ)
    {plan : TakeProfitPlan}
    → 0 < tick
    → calculate_take_profit average_price quantity atr_pct config tick ≡ some plan
    → IsCeiling (one * one) (average_price * (one * one + plan.tp1_rate)) tick plan.tp1_price
      × IsCeiling (one * one) (average_price * (one * one + plan.tp2_rate)) tick plan.tp2_price
unfolding take_profit_plan
calculate_take_profit-IsCeiling a q atr config tick pos h =
    rw ((calculate_take_profit-some a q atr config tick h).2)
      (tp_price-IsCeiling a _ tick pos, tp_price-IsCeiling a _ tick pos)

tp_price_mono :
    (average_price rate rate' tick : ℕ)
    → rate ≤ rate'
    → tp_price average_price rate tick ≤ tp_price average_price rate' tick
unfolding tp_price ceil_to_tick
tp_price_mono a r r' tick h =
    mul-le-mul_right tick (ceil_div_mono _ _ _ (mul-le-mul_left a (omega arith)))

tp_rate_mono :
    (config : TakeProfitConfig) (b b' m m' atr : ℕ)
    → b ≤ b'
    → m ≤ m'
    → tp_rate config b m atr ≤ tp_rate config b' m' atr
unfolding tp_rate
tp_rate_mono config b b' m m' atr h k = ground (arith, mul-le-mul_right atr k)

-- The first target is not above the second where the configured rates are in that order.
pub calculate_take_profit_ordered :
    (average_price quantity atr_pct : ℕ) (config : TakeProfitConfig) (tick : ℕ)
    {plan : TakeProfitPlan}
    → config.tp1_base ≤ config.tp2_base
    → config.tp1_atr_multiplier ≤ config.tp2_atr_multiplier
    → calculate_take_profit average_price quantity atr_pct config tick ≡ some plan
    → plan.tp1_price ≤ plan.tp2_price
unfolding take_profit_plan
calculate_take_profit_ordered a q atr config tick base mult h =
    rw ((calculate_take_profit-some a q atr config tick h).2)
      (tp_price_mono a _ _ tick (tp_rate_mono config _ _ _ _ atr base mult))

-- The price of the remainder's exit is the first cent that reaches its target.
pub remainder_exit_price-IsCeiling :
    (average_price : ℕ) (rule : RemainderExitConfig) {price : ℕ}
    → remainder_exit_price average_price rule ≡ some price
    → IsCeiling one (average_price * (one + rule.target_from_avg)) cent price
unfolding remainder_exit_price
remainder_exit_price-IsCeiling a rule {price} h =
    let target = a * (one + rule.target_from_avg) in
    let e : ceil_to_tick one target cent ≡ price = ground arith in
    rw (← e) (ceil_to_tick-IsCeiling one target cent (omega arith))
