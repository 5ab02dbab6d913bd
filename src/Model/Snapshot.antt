-- ===== src/Model/Snapshot.antt =====
-- core/models.py: the values that pass between the components. Decimals and floats are whole
-- numbers of 10^-18; a Decimal that is never negative is a natural number, a finite float an
-- integer. A date is its ordinal.
use jd_holdings.Prelude.{ℕ, ℤ, Bool, Option, List}
use jd_holdings.Model.Enums.{
  Symbol, MarketRegime, SignalGrade, DecisionType, PositionState, RiskReviewLevel, Side, Purpose,
  OrderStatus,
}

pub record IndicatorSnapshot : Type 0 where
  pub symbol : Symbol
  pub trade_date : ℕ
  pub open_price : ℕ
  pub high : ℕ
  pub low : ℕ
  pub close : ℕ
  pub previous_close : ℕ
  pub volume : ℕ
  pub cci5 : ℤ
  pub cci10 : ℤ
  pub rsi5 : ℤ
  pub rsi14 : ℤ
  pub ema5 : ℤ
  pub ema20 : ℤ
  pub ema60 : ℤ
  pub bb_lower : ℤ
  pub atr14 : ℤ
  pub atr_pct : ℤ
  pub volume_ratio : ℤ
  pub close_position : ℤ

pub record ScoreResult : Type 0 where
  pub total : ℕ
  pub grade : SignalGrade
  pub regime : MarketRegime
  pub regime_score : ℕ
  pub oversold_score : ℕ
  pub reversal_score : ℕ
  pub volume_score : ℕ
  pub atr_score : ℕ
  pub raw_regime_score : Option ℕ
  pub raw_oversold_score : Option ℕ
  pub raw_reversal_score : Option ℕ
  pub raw_volume_score : Option ℕ
  pub raw_atr_score : Option ℕ

pub record PositionSnapshot : Type 0 where
  pub symbol : Symbol
  pub state : PositionState
  pub cycle_id : Option ℕ
  pub quantity : ℕ
  pub average_price : ℕ
  pub current_cost_basis : ℕ
  pub cycle_exposure_cap : ℕ
  pub staged_entry_capital : ℕ
  pub cash_remaining : ℕ
  pub entry_count : ℕ
  pub anchor_price : ℕ
  pub last_entry_price : ℕ
  pub last_entry_date : Option ℕ
  pub rebuy_count : ℕ
  pub rebuy_recovery_armed : Bool
  pub tp1_filled_qty : ℕ
  pub risk_review_level : RiskReviewLevel
  pub version : ℕ

-- The reason codes of eligibility.py and strategy.py.
pub data Reason : Type 0 where
  data_invalid system_not_normal safe_mode_block state_not_eligible : Reason
  regime_red_block entry_score_fail reversal_gate_fail exposure_limit : Reason
  config_safety_failure : Reason
  soxl_sector_guard first_entry_trend_guard anchor_missing stage_trigger_not_met : Reason
  rebuy_disabled rebuy_already_used rebuy_recovery_not_armed reoversold_not_met : Reason
  rebuy_price_not_met : Reason
  entry_score_pass additional_entry_pass rebuy_pass : Reason

pub record TradeDecision : Type 0 where
  pub action : DecisionType
  pub allowed : Bool
  pub reason_codes : List Reason
  pub target_stage : Option ℕ
  pub cycle_exposure_cap : ℕ
  pub target_cumulative_capital : ℕ
  pub planned_budget : ℕ
  pub stage_trigger_price : Option ℕ

-- The rates are in 10^-36: each is a base rate, or a product of two Decimals.
pub record TakeProfitPlan : Type 0 where
  pub average_price : ℕ
  pub atr_pct : ℕ
  pub tp1_rate : ℕ
  pub tp2_rate : ℕ
  pub tp1_price : ℕ
  pub tp2_price : ℕ
  pub tp1_quantity : ℕ
  pub tp2_quantity : ℕ

pub record OrderRequest : Type 0 where
  pub client_order_id : ℕ
  pub symbol : Symbol
  pub side : Side
  pub is_limit : Bool
  pub quantity : ℕ
  pub price : Option ℕ
  pub purpose : Purpose
  pub signal_id : Option ℕ

-- What a broker's raw answer says of an order, where it says it: `raw` is a dictionary.
pub record RawOrder : Type 0 where
  pub client_order_id : Option ℕ
  pub symbol : Option Symbol
  pub side : Option Side
  pub quantity : Option ℕ

-- An empty broker order id is `none`; a broker's quantities can be negative, its prices are not.
pub record OrderReceipt : Type 0 where
  pub client_order_id : ℕ
  pub broker_order_id : Option ℕ
  pub status : OrderStatus
  pub quantity : ℤ
  pub filled_quantity : ℤ
  pub average_fill_price : Option ℕ
  pub raw : RawOrder

pub record IdleCashState : Type 0 where
  pub symbol : Symbol
  pub managed_quantity : ℕ
  pub average_price : ℕ
  pub version : ℕ
