-- ===== src/Core/Eligibility/Laws.antt =====
-- What being eligible means.
use jd_holdings.Prelude.{
  ℕ, ◌≤◌, ◌<◌, ◌≡◌, ◌≢◌, ◌↔◌, Bool, true, false, List, ◌&&◌, not, is_empty, is_empty-append, arith,
  ltb, ◌==◌, refl,
}
use jd_holdings.Model.Enums.{PositionState, MarketRegime, state_in, same_state, same_state→eq}
use jd_holdings.Model.Snapshot.{ScoreResult, Reason}
use jd_holdings.Model.Config.{StrategyConfig}
use jd_holdings.Core.Eligibility.{
  add_if, is_red, state_reasons, eligibility_reasons, evaluate_eligibility,
}

-- All that a buy needs.
pub record IsEligible (data_ok system_ok : Bool) (state : PositionState)
    (allowed_states : List PositionState) (regime : MarketRegime) (score : ScoreResult)
    (required reversal capital : ℕ) (config : StrategyConfig) : Type 0 where
  pub data_valid : data_ok ≡ true
  pub system_normal : system_ok ≡ true
  pub not_safe_mode : state ≢ PositionState.safe_mode
  pub state_allowed : state_in state allowed_states ≡ true
  pub not_red : regime ≢ MarketRegime.red
  pub score_reached : required ≤ score.total
  pub reversal_reached : reversal ≤ score.reversal_score
  pub has_capital : 0 < capital
  pub no_stop_loss : config.global_.stop_loss_enabled ≡ false

pub is_empty-add_if : (b : Bool) (r : Reason) → is_empty (add_if b r) ≡ not b
unfolding add_if
is_empty-add_if b r = ground arith

is_empty-state_reasons :
    (state : PositionState) (allowed_states : List PositionState)
    → is_empty (state_reasons state allowed_states)
      ≡ (not (same_state state PositionState.safe_mode) && state_in state allowed_states)
unfolding state_reasons add_if
is_empty-state_reasons state allowed_states = ground arith

is_empty-eligibility_reasons :
    (d sy : Bool) (st : PositionState) (al : List PositionState) (re : MarketRegime)
    (sc : ScoreResult) (rq rv cap : ℕ) (c : StrategyConfig)
    → is_empty (eligibility_reasons d sy st al re sc rq rv cap c) ≡ (
        not (not d)
        && (not (not sy)
            && ((not (same_state st PositionState.safe_mode) && state_in st al)
                && (not (is_red re)
                    && (not (ltb sc.total rq)
                        && (not (ltb sc.reversal_score rv)
                            && (not (cap == 0) && not c.global_.stop_loss_enabled)))))))
unfolding eligibility_reasons
is_empty-eligibility_reasons d sy st al re sc rq rv cap c =
    simp (is_empty-append, is_empty-add_if, is_empty-state_reasons)

-- A buy is eligible exactly when no check fails.
pub evaluate_eligibility_iff :
    (data_ok system_ok : Bool) (state : PositionState) (allowed_states : List PositionState)
    (regime : MarketRegime) (score : ScoreResult) (required reversal capital : ℕ)
    (config : StrategyConfig)
    → ((evaluate_eligibility data_ok system_ok state allowed_states regime score required reversal
          capital config).allowed
        ≡ true)
      ↔ IsEligible data_ok system_ok state allowed_states regime score required reversal capital
          config
unfolding evaluate_eligibility
evaluate_eligibility_iff d sy st al re sc rq rv cap c =
    rw is_empty-eligibility_reasons
      (λ h. ground arith, λ h. ground (arith, same_state→eq st PositionState.safe_mode))

-- The flag says that there is no reason.
pub is_empty-reason_codes :
    (d sy : Bool) (st : PositionState) (al : List PositionState) (re : MarketRegime)
    (sc : ScoreResult) (rq rv cap : ℕ) (c : StrategyConfig)
    → is_empty (evaluate_eligibility d sy st al re sc rq rv cap c).reason_codes
      ≡ (evaluate_eligibility d sy st al re sc rq rv cap c).allowed
unfolding evaluate_eligibility
is_empty-reason_codes d sy st al re sc rq rv cap c = refl
