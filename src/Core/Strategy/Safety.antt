-- ===== src/Core/Strategy/Safety.antt =====
-- What every decision of `evaluate_strategy` has in common, whatever the position's state.
use jd_holdings.Prelude.{
  ℕ, ◌<◌, ◌≡◌, ◌≢◌, inl, inr, true, false, Option, none, some, arith, Bool-cases, ◌>>=◌,
  >>=-eq-some, List,
}
use mathlib.Core.Path.{subst}
use jd_holdings.Model.Enums.{PositionState, MarketRegime, same_state}
use jd_holdings.Model.Snapshot.{IndicatorSnapshot, ScoreResult, PositionSnapshot, TradeDecision}
use jd_holdings.Model.Config.{StrategyConfig}
use jd_holdings.Core.Eligibility.Laws.{IsEligible}
use jd_holdings.Core.Strategy.{
  Conditions, evaluate_entry, evaluate_additional_entry, evaluate_rebuy, rebuy_decision,
  matching_stage, after_stages, evaluate_strategy,
}
use jd_holdings.Core.Strategy.Allowed.{
  evaluate_entry_iff, evaluate_additional_entry_iff, evaluate_rebuy_iff,
}

module _ (snapshot : IndicatorSnapshot) (score : ScoreResult) (position : PositionSnapshot)
    (k : Conditions) (config : StrategyConfig) where
  -- What must hold before any money is put at risk.
  pub record IsSafe (decision : TradeDecision) : Type 0 where
    pub data_valid : k.data_ok ≡ true
    pub system_normal : k.system_ok ≡ true
    pub not_safe_mode : position.state ≢ PositionState.safe_mode
    pub not_red : score.regime ≢ MarketRegime.red
    pub no_stop_loss : config.global_.stop_loss_enabled ≡ false
    pub has_budget : 0 < decision.planned_budget

  IsSafe-of_eligible :
      (allowed_states : List PositionState) (required reversal capital : ℕ)
      (decision : TradeDecision)
      → IsEligible k.data_ok k.system_ok position.state allowed_states score.regime score required
          reversal capital config
      → 0 < decision.planned_budget
      → IsSafe decision
  IsSafe-of_eligible allowed_states required reversal capital decision e b = record {
    data_valid = e.data_valid;
    system_normal = e.system_normal;
    not_safe_mode = e.not_safe_mode;
    not_red = e.not_red;
    no_stop_loss = e.no_stop_loss;
    has_budget = b;
  }

  entry-IsSafe :
      {decision : TradeDecision}
      → evaluate_entry snapshot score position k config ≡ some decision
      → decision.allowed ≡ true
      → IsSafe decision
  entry-IsSafe {decision} h a =
      let e = (evaluate_entry_iff snapshot score position k config h).0 a in
      IsSafe-of_eligible _ _ _ _ decision e.0 e.0.has_capital

  additional-IsSafe :
      (stage : ℕ) {decision : TradeDecision}
      → evaluate_additional_entry snapshot score position stage k config ≡ some decision
      → decision.allowed ≡ true
      → IsSafe decision
  additional-IsSafe stage {decision} h a =
      let (rule, before, _, _, iff) =
        evaluate_additional_entry_iff snapshot score position k config stage h in
      let e = iff.0 a in IsSafe-of_eligible _ _ _ _ decision e.0 e.0.has_capital

  rebuy-IsSafe :
      (evaluate_rebuy snapshot score position k config).allowed ≡ true
      → IsSafe (evaluate_rebuy snapshot score position k config)
  unfolding evaluate_rebuy rebuy_decision
  rebuy-IsSafe a =
      let e = (evaluate_rebuy_iff snapshot score position k config).0 a in
      IsSafe-of_eligible _ _ _ _ _ e.0 e.6

  after_stages-IsSafe :
      (stage : Option ℕ) {decision : TradeDecision}
      → after_stages snapshot score position k config stage ≡ some decision
      → decision.allowed ≡ true
      → IsSafe decision
  unfolding after_stages
  after_stages-IsSafe (some stage) h a = additional-IsSafe stage h a
  after_stages-IsSafe none {decision} h a =
      elim (Bool-cases (same_state position.state PositionState.partial_tp_1)) [
        | inl e ↦
            let d : evaluate_rebuy snapshot score position k config ≡ decision = ground arith in
            subst (λ v. v.allowed ≡ true → IsSafe v) d rebuy-IsSafe a
        | inr e ↦ absurd (ground arith)
      ]

  -- Whatever the state of the position, the strategy allows a buy only on valid data, in a normal
  -- system, outside safe mode and a red market, with stop losses off and with a positive budget.
  pub evaluate_strategy-IsSafe :
      {decision : TradeDecision}
      → evaluate_strategy snapshot score position k config ≡ some decision
      → decision.allowed ≡ true
      → IsSafe decision
  unfolding evaluate_strategy
  evaluate_strategy-IsSafe {decision} h a =
      elim (Bool-cases (same_state position.state PositionState.empty)) [
        | inl e ↦ entry-IsSafe (ground arith) a
        | inr e ↦
            let stages = matching_stage position.state config.additional_entry.stages in
            let next = after_stages snapshot score position k config in
            let r : (stages >>= next) ≡ some decision = rw e at h in
            let (stage, _, d) = >>=-eq-some stages next r in after_stages-IsSafe stage d a
      ]
