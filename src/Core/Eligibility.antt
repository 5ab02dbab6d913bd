-- ===== src/Core/Eligibility.antt =====
-- core/eligibility.py: the checks that every buy passes, as a list of the reasons against it.
pub mod Laws
use jd_holdings.Prelude.{
  ℕ, Bool, true, false, List, [], ◌∷◌, ◌++◌, not, is_empty, ltb, ◌==◌, if◌then◌else◌,
}
use jd_holdings.Model.Enums.{PositionState, MarketRegime, state_in, same_state}
use jd_holdings.Model.Snapshot.{ScoreResult, Reason}
use jd_holdings.Model.Config.{StrategyConfig}

pub record EligibilityResult : Type 0 where
  pub allowed : Bool
  pub reason_codes : List Reason

-- `if test: reasons.append(reason)`
unfoldable pub add_if : Bool → Reason → List Reason
add_if test reason = if test then reason ∷ [] else []

abbrev pub is_red : MarketRegime → Bool
is_red MarketRegime.red = true
is_red _ = false

unfoldable pub state_reasons : PositionState → List PositionState → List Reason
unfolding add_if
state_reasons state allowed_states =
    if same_state state PositionState.safe_mode
    then Reason.safe_mode_block ∷ []
    else add_if (not (state_in state allowed_states)) Reason.state_not_eligible

unfoldable pub eligibility_reasons :
    Bool
    → Bool
    → PositionState
    → List PositionState
    → MarketRegime
    → ScoreResult
    → ℕ
    → ℕ
    → ℕ
    → StrategyConfig
    → List Reason
unfolding add_if state_reasons
eligibility_reasons data_ok system_ok state allowed_states regime score required reversal capital
      c =
    add_if (not data_ok) Reason.data_invalid
    ++ (add_if (not system_ok) Reason.system_not_normal
        ++ (state_reasons state allowed_states
            ++ (add_if (is_red regime) Reason.regime_red_block
                ++ (add_if (ltb score.total required) Reason.entry_score_fail
                    ++ (add_if (ltb score.reversal_score reversal) Reason.reversal_gate_fail
                        ++ (add_if (capital == 0) Reason.exposure_limit
                            ++ add_if c.global_.stop_loss_enabled Reason.config_safety_failure))))))

unfoldable pub evaluate_eligibility :
    Bool
    → Bool
    → PositionState
    → List PositionState
    → MarketRegime
    → ScoreResult
    → ℕ
    → ℕ
    → ℕ
    → StrategyConfig
    → EligibilityResult
unfolding eligibility_reasons
evaluate_eligibility data_ok system_ok state allowed_states regime score required reversal capital
      c =
    let reasons =
      eligibility_reasons data_ok system_ok state allowed_states regime score required reversal
        capital c in
    record { allowed = is_empty reasons; reason_codes = reasons }
