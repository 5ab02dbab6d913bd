-- ===== src/Core/Budget/Laws.antt =====
-- The caps and budgets stay within the capital of a symbol.
use native.Mathlib.Nat.{mul-le-mul_left, mul-le-mul_right, le_trans}
use jd_holdings.Prelude.{
  ℕ, zero, suc, ◌+◌, ◌-◌, ◌*◌, ◌≤◌, ◌<◌, ◌≡◌, ◌≢◌, inl, inr, none, some, arith, one, cent, length,
  get_elem?, get_elem?-ne-none_iff, refl, ◌↔◌, round_div_near, round_div-le, Option-cases,
}
use jd_holdings.Model.Config.{StrategyConfig}
use jd_holdings.Core.Budget.{
  to_cents, score_to_exposure, update_cycle_exposure_cap, calculate_stage_budget, stage_weight,
}

-- Rounding moves an amount by at most half a cent.
to_cents_near :
    (x : ℕ)
    → (2 * x ≤ 2 * (to_cents x * one) + one * cent) × (2 * (to_cents x * one) ≤ 2 * x + one * cent)
unfolding to_cents
to_cents_near x = omega (arith, round_div_near x (one * cent) (omega arith))

-- Rounding never passes a whole number of cents.
to_cents-le : (x n : ℕ) → x ≤ n * (one * cent) → to_cents x ≤ n * cent
unfolding to_cents
to_cents-le x n h = mul-le-mul_right cent (round_div-le x (one * cent) n (omega arith) h)

-- The ratios of the configuration are at most 1, and the capital of a symbol is in cents.
pub record IsBounded (config : StrategyConfig) : Type 0 where
  pub capital_cents : (n : ℕ) × (config.global_.capital_per_symbol ≡ n * cent)
  pub low : config.exposure.score_82_87 ≤ one
  pub mid : config.exposure.score_88_91 ≤ one
  pub high : config.exposure.score_92_100 ≤ one

to_cents-ratio-le :
    (capital ratio n : ℕ) → capital ≡ n * cent → ratio ≤ one → to_cents (capital * ratio) ≤ capital
to_cents-ratio-le capital ratio n e h =
    rw e (to_cents-le (n * cent * ratio) n (le_trans (mul-le-mul_left (n * cent) h) (omega arith)))

score_to_exposure-le :
    (score : ℕ) (config : StrategyConfig)
    → IsBounded config
    → score_to_exposure score config ≤ config.global_.capital_per_symbol
unfolding score_to_exposure
score_to_exposure-le score config b =
    let capital = config.global_.capital_per_symbol in
    let (n, e) = b.capital_cents in
    ground (
      arith,
      to_cents-ratio-le capital config.exposure.score_92_100 n e b.high,
      to_cents-ratio-le capital config.exposure.score_88_91 n e b.mid,
      to_cents-ratio-le capital config.exposure.score_82_87 n e b.low,
    )

-- Where the ratios of the configuration are at most 1, the capital of a symbol is in cents,
-- and the earlier cap is within it, no score lets the cap of a cycle exceed that capital.
pub update_cycle_exposure_cap-le :
    (previous score : ℕ) (config : StrategyConfig)
    → IsBounded config
    → previous ≤ config.global_.capital_per_symbol
    → update_cycle_exposure_cap previous score config ≤ config.global_.capital_per_symbol
unfolding update_cycle_exposure_cap
update_cycle_exposure_cap-le previous score config b h =
    ground (arith, score_to_exposure-le score config b)

-- An earlier cap that is within the capital of the symbol never falls.
pub update_cycle_exposure_cap-grows :
    (previous score : ℕ) (config : StrategyConfig)
    → previous ≤ config.global_.capital_per_symbol
    → previous ≤ update_cycle_exposure_cap previous score config
unfolding update_cycle_exposure_cap
update_cycle_exposure_cap-grows previous score config h = ground arith

-- A stage has a budget exactly when it is one of the configured stages.
pub calculate_stage_budget_iff :
    (cap stage staged : ℕ) (config : StrategyConfig)
    → (calculate_stage_budget cap stage staged config ≢ none)
      ↔ ((1 ≤ stage) × (stage ≤ length config.position.cumulative_weights))
unfolding calculate_stage_budget
calculate_stage_budget_iff cap zero staged config =
    (λ h. absurd (h refl), λ h. absurd (omega arith))
calculate_stage_budget_iff cap (suc i) staged config =
    let weights = config.position.cumulative_weights in
    let found = get_elem?-ne-none_iff weights i in
    elim (Option-cases (get_elem? weights i)) [
      | inl e ↦ (λ h. absurd (h (rw e)), λ h. absurd (found.1 (omega arith) e))
      | inr (w, e) ↦ (
        λ h. let low : i < length weights = found.0 (λ n. cc) in omega arith,
        λ h n. ground arith,
      )
    ]

-- Where a stage has a budget, the target is within half a cent of the stage's share of the
-- cap, and the budget within half a cent of what the target leaves.
pub calculate_stage_budget_near :
    (cap stage staged : ℕ) (config : StrategyConfig) {target budget : ℕ}
    → calculate_stage_budget cap stage staged config ≡ some (target, budget)
    → (weight : ℕ) × (stage_weight config.position.cumulative_weights stage ≡ some weight)
      × (2 * (target * one) ≤ 2 * (cap * weight) + one * cent)
      × (2 * (cap * weight) ≤ 2 * (target * one) + one * cent)
      × (2 * budget ≤ 2 * (target - staged) + cent)
      × (2 * (target - staged) ≤ 2 * budget + cent)
unfolding calculate_stage_budget
calculate_stage_budget_near cap stage staged config {target} {budget} h =
    elim (Option-cases (stage_weight config.position.cumulative_weights stage)) [
      | inl e ↦ ground arith
      | inr (w, e) ↦
          let t : to_cents (cap * w) ≡ target = ground arith in
          let b : to_cents ((target - staged) * one) ≡ budget = ground arith in
          let near = to_cents_near (cap * w) in
          let near' = to_cents_near ((target - staged) * one) in
          (w, e, omega arith, omega arith, omega arith, omega arith)
    ]
