-- ===== src/Core/Budget/Tests.antt =====
-- The budgets of the sample configuration.
use jd_holdings.Prelude.{◌*◌, ◌≤◌, ◌≡◌, ◌≢◌, ◌↔◌, refl, none, some, one, arith, round_div}
use jd_holdings.Model.Samples.{sample_config}
use jd_holdings.Core.Budget.{calculate_stage_budget, to_cents}
use jd_holdings.Core.Budget.Laws.{IsBounded, calculate_stage_budget_iff}

bounded : IsBounded sample_config
bounded = record {
  capital_cents = (1_000_000, refl);
  low = omega arith;
  mid = omega arith;
  high = omega arith;
}

calculate_stage_budget_iff_example :
    (calculate_stage_budget (7_500 * one) 5 0 sample_config ≢ none) ↔ ((1 ≤ 5) × (5 ≤ 4))
calculate_stage_budget_iff_example = calculate_stage_budget_iff (7_500 * one) 5 0 sample_config

budgets :
    calculate_stage_budget (7_500 * one) 2 (1_875 * one) sample_config
    ≡ some (3_750 * one, 1_875 * one)
unfolding calculate_stage_budget to_cents round_div
budgets = refl
