-- ===== src/Core/Strategy.antt =====
-- core/strategy.py: the decision to enter, to add and to buy back. A raised error is `none`.
pub mod Allowed
pub mod Safety
mod Tests
use mathlib.Core.Option
use jd_holdings.Prelude.{
  ℕ, zero, suc, ◌+◌, ◌-◌, ◌*◌, min, Bool, true, false, not, Option, none, some, List, [], ◌∷◌, ◌++◌,
  is_empty, round_div, ◌>>=◌, one, cent, basis_point, ltb, leb, ◌==◌, if◌then◌else◌,
}
use jd_holdings.Model.Enums.{PositionState, DecisionType, same_state}
use jd_holdings.Model.Snapshot.{
  IndicatorSnapshot, ScoreResult, PositionSnapshot, TradeDecision, Reason,
}
use jd_holdings.Model.Config.{StrategyConfig, StageRule}
use jd_holdings.Core.Eligibility.{EligibilityResult, add_if, evaluate_eligibility}
use jd_holdings.Core.Budget.{
  to_cents, score_to_exposure, update_cycle_exposure_cap, calculate_stage_budget,
}
use jd_holdings.Core.Guards.{
  Benchmarks, soxl_sector_guard_blocks, first_entry_trend_guard_blocks, evaluate_reoversold,
}

-- `tuple(reasons) or (passed,)`
abbrev codes_or : List Reason → Reason → List Reason
codes_or [] passed = passed ∷ []
codes_or (r ∷ rs) passed = r ∷ rs

abbrev when : {A : Type 0} → Bool → A → Option A
when true a = some a
when false a = none

-- `.quantize(Decimal("0.0001"))` of a price in 10^-36
abbrev to_basis_points : ℕ → ℕ
to_basis_points x = round_div x (one * basis_point) * basis_point

-- The flags `data_ok` and `system_ok`, and the benchmarks at hand.
pub record Conditions : Type 0 where
  pub data_ok : Bool
  pub system_ok : Bool
  pub sector_benchmarks : Option Benchmarks

pub entry_reasons :
    IndicatorSnapshot
    → ScoreResult
    → PositionSnapshot
    → ℕ
    → Conditions
    → StrategyConfig
    → List Reason
entry_reasons snapshot score position budget k config =
    (evaluate_eligibility k.data_ok k.system_ok position.state (PositionState.empty ∷ [])
      score.regime score config.global_.entry_score config.global_.minimum_reversal_score budget
      config).reason_codes
    ++ (add_if (soxl_sector_guard_blocks snapshot.symbol 1 k.sector_benchmarks config)
          Reason.soxl_sector_guard
        ++ add_if (first_entry_trend_guard_blocks snapshot config) Reason.first_entry_trend_guard)

pub entry_decision : List Reason → ℕ → ℕ → ℕ → TradeDecision
entry_decision reasons cap target budget =
    let allowed = is_empty reasons in
    record {
      action = if allowed then DecisionType.first_entry_candidate else DecisionType.no_action;
      allowed = allowed;
      reason_codes = codes_or reasons Reason.entry_score_pass;
      target_stage = when allowed 1;
      cycle_exposure_cap = cap;
      target_cumulative_capital = target;
      planned_budget = budget;
      stage_trigger_price = none;
    }

unfoldable pub evaluate_entry :
    IndicatorSnapshot
    → ScoreResult
    → PositionSnapshot
    → Conditions
    → StrategyConfig
    → Option TradeDecision
evaluate_entry snapshot score position k config =
    let cap = score_to_exposure score.total config in
    Option.map
      (λ plan.
        entry_decision (entry_reasons snapshot score position plan.1 k config) cap plan.0 plan.1)
      (calculate_stage_budget cap 1 0 config)

-- `states[stage]`; another stage is a KeyError.
abbrev pub expected_holding_state : ℕ → Option PositionState
expected_holding_state (suc zero) = some PositionState.holding_1st
expected_holding_state (suc (suc zero)) = some PositionState.holding_2nd
expected_holding_state (suc (suc (suc zero))) = some PositionState.holding_3rd
expected_holding_state (suc (suc (suc (suc zero)))) = some PositionState.holding_4th
expected_holding_state _ = none

-- `config.additional_entry.stages[stage]`
abbrev pub stage_rule : ℕ → List (ℕ × StageRule) → Option StageRule
stage_rule stage [] = none
stage_rule stage ((key, rule) ∷ rules) = if stage == key then some rule else stage_rule stage rules

-- anchor_price * (1 - min_drop_from_anchor), in 10^-36
abbrev pub stage_trigger : PositionSnapshot → StageRule → ℕ
stage_trigger position rule = position.anchor_price * (one - rule.min_drop_from_anchor)

pub anchor_reasons : IndicatorSnapshot → PositionSnapshot → StageRule → List Reason
anchor_reasons snapshot position rule =
    if position.anchor_price == 0
    then Reason.anchor_missing ∷ []
    else add_if (ltb (stage_trigger position rule) (snapshot.close * one))
        Reason.stage_trigger_not_met

pub additional_reasons :
    IndicatorSnapshot
    → ScoreResult
    → PositionSnapshot
    → PositionState
    → ℕ
    → StageRule
    → ℕ
    → Conditions
    → StrategyConfig
    → List Reason
additional_reasons snapshot score position before stage rule budget k config =
    (evaluate_eligibility k.data_ok k.system_ok position.state (before ∷ []) score.regime score
      rule.min_score config.global_.minimum_reversal_score budget config).reason_codes
    ++ (anchor_reasons snapshot position rule
        ++ add_if (soxl_sector_guard_blocks snapshot.symbol stage k.sector_benchmarks config)
            Reason.soxl_sector_guard)

pub additional_decision : List Reason → ℕ → ℕ → ℕ → ℕ → ℕ → TradeDecision
additional_decision reasons stage cap target budget trigger =
    let allowed = is_empty reasons in
    record {
      action = if allowed then DecisionType.add_entry_candidate else DecisionType.no_action;
      allowed = allowed;
      reason_codes = codes_or reasons Reason.additional_entry_pass;
      target_stage = when allowed stage;
      cycle_exposure_cap = cap;
      target_cumulative_capital = target;
      planned_budget = budget;
      stage_trigger_price = some (to_basis_points trigger);
    }

unfoldable pub evaluate_additional_entry :
    IndicatorSnapshot
    → ScoreResult
    → PositionSnapshot
    → ℕ
    → Conditions
    → StrategyConfig
    → Option TradeDecision
evaluate_additional_entry snapshot score position stage k config = do
  rule ← stage_rule stage config.additional_entry.stages
  let cap = update_cycle_exposure_cap position.cycle_exposure_cap score.total config
  plan ← calculate_stage_budget cap stage position.staged_entry_capital config
  before ← expected_holding_state (stage - 1)
  let reasons = additional_reasons snapshot score position before stage rule plan.1 k config
  some (additional_decision reasons stage cap plan.0 plan.1 (stage_trigger position rule))

-- What may still be spent in the cycle.
abbrev pub rebuy_capital : PositionSnapshot → ℕ
rebuy_capital position = position.cycle_exposure_cap - position.current_cost_basis

-- average_price * (1 - min_drop_from_avg), in 10^-36
abbrev pub rebuy_trigger : PositionSnapshot → StrategyConfig → ℕ
rebuy_trigger position config = position.average_price * (one - config.rebuy.min_drop_from_avg)

unfoldable pub rebuy_budget : IndicatorSnapshot → PositionSnapshot → StrategyConfig → ℕ
unfolding to_cents
rebuy_budget snapshot position config = to_cents (
    min (rebuy_capital position * one)
      (position.tp1_filled_qty * snapshot.close * (one + config.global_.buy_fee)))

pub rebuy_reasons :
    IndicatorSnapshot → ScoreResult → PositionSnapshot → Conditions → StrategyConfig → List Reason
rebuy_reasons snapshot score position k config =
    (evaluate_eligibility k.data_ok k.system_ok position.state (PositionState.partial_tp_1 ∷ [])
      score.regime score config.rebuy.minimum_score config.rebuy.minimum_reversal_score
      (rebuy_capital position) config).reason_codes
    ++ (add_if (not config.rebuy.enabled) Reason.rebuy_disabled
        ++ (add_if (leb config.rebuy.max_rebuy_per_cycle position.rebuy_count)
              Reason.rebuy_already_used
            ++ (add_if (not position.rebuy_recovery_armed) Reason.rebuy_recovery_not_armed
                ++ (add_if (not (evaluate_reoversold snapshot config.rebuy.reoversold))
                      Reason.reoversold_not_met
                    ++ (add_if (ltb (rebuy_trigger position config) (snapshot.close * one))
                          Reason.rebuy_price_not_met
                        ++ add_if (rebuy_budget snapshot position config == 0)
                            Reason.exposure_limit)))))

pub rebuy_decision : List Reason → ℕ → ℕ → ℕ → TradeDecision
rebuy_decision reasons cap budget trigger =
    let allowed = is_empty reasons in
    record {
      action = if allowed then DecisionType.rebuy_candidate else DecisionType.no_action;
      allowed = allowed;
      reason_codes = codes_or reasons Reason.rebuy_pass;
      target_stage = none;
      cycle_exposure_cap = cap;
      target_cumulative_capital = cap;
      planned_budget = budget;
      stage_trigger_price = some (to_basis_points trigger);
    }

unfoldable pub evaluate_rebuy :
    IndicatorSnapshot → ScoreResult → PositionSnapshot → Conditions → StrategyConfig → TradeDecision
evaluate_rebuy snapshot score position k config =
    rebuy_decision (rebuy_reasons snapshot score position k config) position.cycle_exposure_cap
      (rebuy_budget snapshot position config) (rebuy_trigger position config)

abbrev not_eligible : TradeDecision
not_eligible = record {
  action = DecisionType.no_action;
  allowed = false;
  reason_codes = Reason.state_not_eligible ∷ [];
  target_stage = none;
  cycle_exposure_cap = 0;
  target_cumulative_capital = 0;
  planned_budget = 0;
  stage_trigger_price = none;
}

-- The loop over the stages: the first whose holding state is the position's. The outer `none` is
-- an error, the inner one the end of the loop.
unfoldable pub matching_stage : PositionState → List (ℕ × StageRule) → Option (Option ℕ)
matching_stage state [] = some none
matching_stage state ((stage, rule) ∷ rules) =
    let rest = matching_stage state rules in
    elim (expected_holding_state (stage - 1)) [
      | none ↦ none
      | some before ↦ if same_state state before then some (some stage) else rest
    ]

pub after_stages :
    IndicatorSnapshot
    → ScoreResult
    → PositionSnapshot
    → Conditions
    → StrategyConfig
    → Option ℕ
    → Option TradeDecision
after_stages snapshot score position k config (some stage) =
    evaluate_additional_entry snapshot score position stage k config
after_stages snapshot score position k config none = some (
    if same_state position.state PositionState.partial_tp_1
    then evaluate_rebuy snapshot score position k config
    else not_eligible)

unfoldable pub evaluate_strategy :
    IndicatorSnapshot
    → ScoreResult
    → PositionSnapshot
    → Conditions
    → StrategyConfig
    → Option TradeDecision
evaluate_strategy snapshot score position k config =
    if same_state position.state PositionState.empty
    then evaluate_entry snapshot score position k config
    else matching_stage position.state config.additional_entry.stages
      >>= after_stages snapshot score position k config
