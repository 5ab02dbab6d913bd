-- ===== src/Core/Budget.antt =====
-- core/strategy.py, the money: exposure caps and stage budgets. Amounts are whole numbers of
-- 10^-18, rounded to cents by `quantize`.
pub mod Laws
mod Tests
use jd_holdings.Prelude.{
  ℕ, zero, suc, ◌-◌, ◌*◌, min, max, Bool, Option, none, some, List, round_div, get_elem?, one, cent,
  leb, ◌==◌, if◌then◌else◌,
}
use mathlib.Core.Option
use jd_holdings.Model.Config.{StrategyConfig}

-- `.quantize(Decimal("0.01"))` of an amount in 10^-36
unfoldable pub to_cents : ℕ → ℕ
to_cents x = round_div x (one * cent) * cent

unfoldable pub score_to_exposure : ℕ → StrategyConfig → ℕ
unfolding to_cents
score_to_exposure score config =
    if leb 92 score
    then to_cents (config.global_.capital_per_symbol * config.exposure.score_92_100)
    else if leb 88 score
    then to_cents (config.global_.capital_per_symbol * config.exposure.score_88_91)
    else if leb config.global_.entry_score score
    then to_cents (config.global_.capital_per_symbol * config.exposure.score_82_87)
    else 0

unfoldable pub update_cycle_exposure_cap : ℕ → ℕ → StrategyConfig → ℕ
update_cycle_exposure_cap previous_cap score config =
    let proposed = score_to_exposure score config in
    if previous_cap == 0
    then proposed
    else if config.exposure.allow_cap_increase
    then min config.global_.capital_per_symbol (max previous_cap proposed)
    else previous_cap

-- `weights[stage - 1]` after the check `1 <= stage <= len(weights)`
abbrev pub stage_weight : List ℕ → ℕ → Option ℕ
stage_weight weights zero = none
stage_weight weights (suc i) = get_elem? weights i

-- The pair of the target and the budget; a stage that is not supported is `none`.
unfoldable pub calculate_stage_budget : ℕ → ℕ → ℕ → StrategyConfig → Option (ℕ × ℕ)
unfolding to_cents
calculate_stage_budget cycle_exposure_cap target_stage staged_entry_capital config =
    Option.map
      (λ weight.
        let target = to_cents (cycle_exposure_cap * weight) in
        (target, to_cents ((target - staged_entry_capital) * one)))
      (stage_weight config.position.cumulative_weights target_stage)
