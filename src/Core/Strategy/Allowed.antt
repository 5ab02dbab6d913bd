-- ===== src/Core/Strategy/Allowed.antt =====
-- Each decision is allowed exactly when its conditions hold.
use mathlib.Core.Option.{some-injective}
use mathlib.Core.Path.{subst}
use jd_holdings.Prelude.{
  ℕ, ◌-◌, ◌*◌, ◌≤◌, ◌<◌, ◌≡◌, ◌↔◌, true, false, some, [], ◌∷◌, is_empty, is_empty-append, one,
  arith, inl, inr, Option-cases, >>=-eq-some,
}
use jd_holdings.Model.Enums.{PositionState}
use jd_holdings.Model.Snapshot.{IndicatorSnapshot, ScoreResult, PositionSnapshot, TradeDecision}
use jd_holdings.Model.Config.{StrategyConfig, StageRule}
use jd_holdings.Core.Eligibility.{add_if}
use jd_holdings.Core.Eligibility.Laws.{
  IsEligible, evaluate_eligibility_iff, is_empty-reason_codes, is_empty-add_if,
}
use jd_holdings.Core.Budget.{score_to_exposure, update_cycle_exposure_cap, calculate_stage_budget}
use jd_holdings.Core.Guards.{
  soxl_sector_guard_blocks, first_entry_trend_guard_blocks, evaluate_reoversold,
}
use jd_holdings.Core.Strategy.{
  Conditions, entry_reasons, entry_decision, evaluate_entry, anchor_reasons, additional_reasons,
  additional_decision, evaluate_additional_entry, stage_trigger, stage_rule, expected_holding_state,
  rebuy_capital, rebuy_trigger, rebuy_budget, rebuy_reasons, rebuy_decision, evaluate_rebuy,
}

ruleset reason_laws = (is_empty-append, is_empty-add_if, is_empty-reason_codes)

module _ (snapshot : IndicatorSnapshot) (score : ScoreResult) (position : PositionSnapshot)
    (k : Conditions) (config : StrategyConfig) where
  is_empty-entry_reasons :
      (budget : ℕ)
      → (is_empty (entry_reasons snapshot score position budget k config) ≡ true) ↔ (
          IsEligible k.data_ok k.system_ok position.state
            (PositionState.empty ∷ [])
            score.regime
            score
            config.global_.entry_score
            config.global_.minimum_reversal_score
            budget
            config
          × (soxl_sector_guard_blocks snapshot.symbol 1 k.sector_benchmarks config ≡ false)
          × (first_entry_trend_guard_blocks snapshot config ≡ false))
  unfolding entry_reasons
  is_empty-entry_reasons budget =
      let (to, from) =
        evaluate_eligibility_iff k.data_ok k.system_ok position.state (PositionState.empty ∷ [])
          score.regime score config.global_.entry_score config.global_.minimum_reversal_score budget
          config in
      simp reason_laws
        ((λ h. (to (ground arith), ground arith, ground arith)), λ h. ground (arith, from h.0))

  -- A decision on a first entry, where there is one, is allowed exactly when a budget of that
  -- size is eligible in the empty state and neither guard blocks.
  pub evaluate_entry_iff :
      {decision : TradeDecision}
      → evaluate_entry snapshot score position k config ≡ some decision
      → (decision.allowed ≡ true) ↔ (
          IsEligible k.data_ok k.system_ok position.state
            (PositionState.empty ∷ [])
            score.regime
            score
            config.global_.entry_score
            config.global_.minimum_reversal_score
            decision.planned_budget
            config
          × (soxl_sector_guard_blocks snapshot.symbol 1 k.sector_benchmarks config ≡ false)
          × (first_entry_trend_guard_blocks snapshot config ≡ false))
  unfolding evaluate_entry entry_decision
  evaluate_entry_iff {decision} h =
      let cap = score_to_exposure score.total config in
      elim (Option-cases (calculate_stage_budget cap 1 0 config)) [
        | inl e ↦ absurd (ground arith)
        | inr (plan, e) ↦
            let reasons = entry_reasons snapshot score position plan.1 k config in
            let d : entry_decision reasons cap plan.0 plan.1 ≡ decision = ground arith in
            rw (← d) (is_empty-entry_reasons plan.1)
      ]

  is_empty-anchor_reasons :
      (rule : StageRule)
      → (is_empty (anchor_reasons snapshot position rule) ≡ true)
        ↔ ((0 < position.anchor_price) × (snapshot.close * one ≤ stage_trigger position rule))
  unfolding anchor_reasons add_if
  is_empty-anchor_reasons rule = ground arith

  -- What an addition at a stage needs, from the holding state before it.
  abbrev pub IsAddable : PositionState → ℕ → StageRule → ℕ → Type 0
  IsAddable before stage rule budget =
      IsEligible k.data_ok k.system_ok position.state (before ∷ []) score.regime score
        rule.min_score config.global_.minimum_reversal_score budget config
      × (0 < position.anchor_price)
      × (snapshot.close * one ≤ stage_trigger position rule)
      × (soxl_sector_guard_blocks snapshot.symbol stage k.sector_benchmarks config ≡ false)

  is_empty-additional_reasons :
      (before : PositionState) (stage : ℕ) (rule : StageRule) (budget : ℕ)
      → (is_empty (additional_reasons snapshot score position before stage rule budget k config)
          ≡ true)
        ↔ IsAddable before stage rule budget
  unfolding additional_reasons
  is_empty-additional_reasons before stage rule budget =
      let (to, from) =
        evaluate_eligibility_iff k.data_ok k.system_ok position.state (before ∷ []) score.regime
          score rule.min_score config.global_.minimum_reversal_score budget config in
      let (anchor, anchor') = is_empty-anchor_reasons rule in
      simp reason_laws (
        (λ h. let a = anchor (ground arith) in (to (ground arith), a.0, a.1, ground arith)),
        λ h. ground (arith, from h.0, anchor' (h.1, h.2)),
      )

  evaluate_additional_entry-some :
      (stage : ℕ) {decision : TradeDecision}
      → evaluate_additional_entry snapshot score position stage k config ≡ some decision
      → (rule : StageRule) × (plan : ℕ × ℕ) × (before : PositionState) × (stage_rule stage
            config.additional_entry.stages
          ≡ some rule)
        × (expected_holding_state (stage - 1) ≡ some before)
        × (additional_decision
              (additional_reasons snapshot score position before stage rule plan.1 k config)
              stage
              (update_cycle_exposure_cap position.cycle_exposure_cap score.total config)
              plan.0
              plan.1
              (stage_trigger position rule)
            ≡ decision)
  unfolding evaluate_additional_entry
  evaluate_additional_entry-some stage {decision} h =
      let (rule, e, h') = >>=-eq-some (stage_rule stage config.additional_entry.stages) _ h in
      let (plan, p, h'') = >>=-eq-some (calculate_stage_budget _ stage _ config) _ h' in
      let (before, q, d) = >>=-eq-some (expected_holding_state (stage - 1)) _ h'' in
      (rule, plan, before, e, q, some-injective _ _ d)

  -- A decision on an additional entry, where there is one, is of a configured stage, and is
  -- allowed exactly when the entry is eligible in the holding state before it, the price has
  -- fallen from the anchor far enough, and the sector guard does not block.
  pub evaluate_additional_entry_iff :
      (stage : ℕ) {decision : TradeDecision}
      → evaluate_additional_entry snapshot score position stage k config ≡ some decision
      → (rule : StageRule) × (before : PositionState) × (stage_rule stage
            config.additional_entry.stages
          ≡ some rule)
        × (expected_holding_state (stage - 1) ≡ some before)
        × ((decision.allowed ≡ true) ↔ IsAddable before stage rule decision.planned_budget)
  unfolding additional_decision
  evaluate_additional_entry_iff stage {decision} h =
      let (rule, plan, before, e, q, d) = evaluate_additional_entry-some stage h in
      let allowed = is_empty-additional_reasons before stage rule plan.1 in
      (
        rule,
        before,
        e,
        q,
        subst
            (λ (v : TradeDecision).
              (v.allowed ≡ true) ↔ IsAddable before stage rule v.planned_budget)
            d allowed,
      )

  -- A rebuy is allowed exactly when it is eligible after TP1, enabled, not used up, armed by a
  -- recovery, oversold again, cheap enough, and leaves a budget.
  pub evaluate_rebuy_iff : ((evaluate_rebuy snapshot score position k config).allowed ≡ true) ↔ (
      IsEligible k.data_ok k.system_ok position.state
        (PositionState.partial_tp_1 ∷ [])
        score.regime
        score
        config.rebuy.minimum_score
        config.rebuy.minimum_reversal_score
        (rebuy_capital position)
        config
      × (config.rebuy.enabled ≡ true)
      × (position.rebuy_count < config.rebuy.max_rebuy_per_cycle)
      × (position.rebuy_recovery_armed ≡ true)
      × (evaluate_reoversold snapshot config.rebuy.reoversold ≡ true)
      × (snapshot.close * one ≤ rebuy_trigger position config)
      × (0 < rebuy_budget snapshot position config))
  unfolding evaluate_rebuy rebuy_decision rebuy_reasons
  evaluate_rebuy_iff =
      let (to, from) =
        evaluate_eligibility_iff k.data_ok k.system_ok position.state
          (PositionState.partial_tp_1 ∷ []) score.regime score config.rebuy.minimum_score
          config.rebuy.minimum_reversal_score (rebuy_capital position) config in
      simp reason_laws (
        (λ h. (
          to (ground arith),
          ground arith,
          ground arith,
          ground arith,
          ground arith,
          ground arith,
          ground arith,
        )),
        λ h. ground (arith, from h.0),
      )
