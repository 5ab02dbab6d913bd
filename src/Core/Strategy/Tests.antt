-- ===== src/Core/Strategy/Tests.antt =====
-- A first entry, an addition and a rebuy on a sample day.
use jd_holdings.Prelude.{
  ℕ, ◌-◌, ◌*◌, ◌≤◌, ◌<◌, ◌≡◌, ◌↔◌, refl, true, false, none, some, [], ◌∷◌, one, round_div,
}
use jd_holdings.Model.Enums.{
  Symbol, MarketRegime, SignalGrade, PositionState, RiskReviewLevel, DecisionType,
}
use jd_holdings.Model.Snapshot.{ScoreResult, PositionSnapshot, TradeDecision, Reason}
use jd_holdings.Model.Config.{StageRule}
use jd_holdings.Model.Samples.{sample_config, sample_snapshot}
use jd_holdings.Core.Eligibility.{evaluate_eligibility, eligibility_reasons, state_reasons, add_if}
use jd_holdings.Core.Eligibility.Laws.{IsEligible}
use jd_holdings.Core.Budget.{
  score_to_exposure, to_cents, calculate_stage_budget, update_cycle_exposure_cap,
}
use jd_holdings.Core.Guards.{
  soxl_sector_guard_blocks, first_entry_trend_guard_blocks, evaluate_reoversold,
}
use jd_holdings.Core.Strategy.{
  Conditions, entry_reasons, entry_decision, evaluate_entry, evaluate_strategy, anchor_reasons,
  additional_reasons, additional_decision, evaluate_additional_entry, stage_rule,
  expected_holding_state, evaluate_rebuy, rebuy_capital, rebuy_trigger, rebuy_budget,
}
use jd_holdings.Core.Strategy.Allowed.{
  IsAddable, evaluate_entry_iff, evaluate_additional_entry_iff, evaluate_rebuy_iff,
}
use jd_holdings.Core.Strategy.Safety.{IsSafe, evaluate_strategy-IsSafe}

abbrev score : ScoreResult
score = record {
  total = 90;
  grade = SignalGrade.a;
  regime = MarketRegime.green;
  regime_score = 25;
  oversold_score = 35;
  reversal_score = 18;
  volume_score = 8;
  atr_score = 4;
  raw_regime_score = none;
  raw_oversold_score = none;
  raw_reversal_score = none;
  raw_volume_score = none;
  raw_atr_score = none;
}

abbrev position : PositionState → ℕ → PositionSnapshot
position state anchor = record {
  symbol = Symbol.tqqq;
  state = state;
  cycle_id = none;
  quantity = 0;
  average_price = 0;
  current_cost_basis = 0;
  cycle_exposure_cap = 0;
  staged_entry_capital = 0;
  cash_remaining = 10_000 * one;
  entry_count = 0;
  anchor_price = anchor;
  last_entry_price = 0;
  last_entry_date = none;
  rebuy_count = 0;
  rebuy_recovery_armed = false;
  tp1_filled_qty = 0;
  risk_review_level = RiskReviewLevel.none;
  version = 0;
}

abbrev flat : PositionSnapshot
flat = position PositionState.empty 0

abbrev held : PositionSnapshot
held = position PositionState.holding_1st (60 * one)

abbrev normal : Conditions
normal = record { data_ok = true; system_ok = true; sector_benchmarks = none }

-- 7,500 dollars may be used in the cycle, a quarter of it first.
abbrev entered : TradeDecision
entered = record {
  action = DecisionType.first_entry_candidate;
  allowed = true;
  reason_codes = Reason.entry_score_pass ∷ [];
  target_stage = some 1;
  cycle_exposure_cap = 7_500 * one;
  target_cumulative_capital = 1_875 * one;
  planned_budget = 1_875 * one;
  stage_trigger_price = none;
}

enters : evaluate_entry sample_snapshot score flat normal sample_config ≡ some entered
unfolding evaluate_entry entry_decision entry_reasons evaluate_eligibility eligibility_reasons
    state_reasons add_if score_to_exposure to_cents calculate_stage_budget soxl_sector_guard_blocks
    first_entry_trend_guard_blocks round_div
enters = refl

decides : evaluate_strategy sample_snapshot score flat normal sample_config ≡ some entered
unfolding evaluate_strategy
decides = enters

evaluate_strategy-IsSafe_example : IsSafe sample_snapshot score flat normal sample_config entered
evaluate_strategy-IsSafe_example =
    evaluate_strategy-IsSafe sample_snapshot score flat normal sample_config decides refl

evaluate_entry_iff_example : (entered.allowed ≡ true) ↔ (
    IsEligible true true PositionState.empty
      (PositionState.empty ∷ [])
      MarketRegime.green
      score
      55
      0
      (1_875 * one)
      sample_config
    × (soxl_sector_guard_blocks Symbol.tqqq 1 none sample_config ≡ false)
    × (first_entry_trend_guard_blocks sample_snapshot sample_config ≡ false))
evaluate_entry_iff_example =
    evaluate_entry_iff sample_snapshot score flat normal sample_config enters

evaluate_rebuy_iff_example :
    ((evaluate_rebuy sample_snapshot score held normal sample_config).allowed ≡ true) ↔ (
      IsEligible true true PositionState.holding_1st
        (PositionState.partial_tp_1 ∷ [])
        MarketRegime.green
        score
        55
        0
        (rebuy_capital held)
        sample_config
      × (false ≡ true)
      × (0 < 1)
      × (false ≡ true)
      × (evaluate_reoversold sample_snapshot sample_config.rebuy.reoversold ≡ true)
      × (50 * one * one ≤ rebuy_trigger held sample_config)
      × (0 < rebuy_budget sample_snapshot held sample_config))
evaluate_rebuy_iff_example = evaluate_rebuy_iff sample_snapshot score held normal sample_config

-- The second stage, more than 5 % below the anchor of 60 dollars.
abbrev added : TradeDecision
added = record {
  action = DecisionType.add_entry_candidate;
  allowed = true;
  reason_codes = Reason.additional_entry_pass ∷ [];
  target_stage = some 2;
  cycle_exposure_cap = 7_500 * one;
  target_cumulative_capital = 3_750 * one;
  planned_budget = 3_750 * one;
  stage_trigger_price = some (57 * one);
}

adds : evaluate_additional_entry sample_snapshot score held 2 normal sample_config ≡ some added
unfolding evaluate_additional_entry additional_decision additional_reasons anchor_reasons
    evaluate_eligibility eligibility_reasons state_reasons add_if update_cycle_exposure_cap
    score_to_exposure to_cents calculate_stage_budget soxl_sector_guard_blocks round_div
adds = refl

evaluate_additional_entry_iff_example :
    (rule : StageRule) × (before : PositionState) × (stage_rule 2
        sample_config.additional_entry.stages
      ≡ some rule)
    × (expected_holding_state (2 - 1) ≡ some before)
    × ((added.allowed ≡ true)
        ↔ IsAddable sample_snapshot score held normal sample_config before 2 rule
            added.planned_budget)
evaluate_additional_entry_iff_example =
    evaluate_additional_entry_iff sample_snapshot score held normal sample_config 2 adds
