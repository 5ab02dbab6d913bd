-- ===== src/Model/Config.antt =====
-- config.py: the parts of the configuration that the modelled code reads. The dictionaries
-- `scoring` and `market_regime` are records of the keys that are read from them.
use jd_holdings.Prelude.{ℕ, ℤ, Bool, List}
use jd_holdings.Model.Enums.{Symbol}

pub record GlobalConfig : Type 0 where
  pub capital_per_symbol : ℕ
  pub buy_fee : ℕ
  pub sell_fee : ℕ
  pub approval_required : Bool
  pub stop_loss_enabled : Bool
  pub entry_score : ℕ
  pub minimum_reversal_score : ℕ
  pub entry_max_chase_pct : ℕ
  pub buy_limit_buffer : ℕ
  pub review_token_ttl_minutes : ℕ
  pub execution_token_ttl_seconds : ℕ
  pub buy_fill_timeout_seconds : ℕ

pub record PositionConfig : Type 0 where
  pub stage_weights : List ℕ
  pub cumulative_weights : List ℕ

pub record ExposureConfig : Type 0 where
  pub score_82_87 : ℕ
  pub score_88_91 : ℕ
  pub score_92_100 : ℕ
  pub allow_cap_increase : Bool
  pub allow_cap_decrease_during_cycle : Bool

pub record StageRule : Type 0 where
  pub min_drop_from_anchor : ℕ
  pub min_score : ℕ

-- `stages` is a dictionary, in the ascending order in which `load_config` fills it.
pub record AdditionalEntryConfig : Type 0 where
  pub max_stage_per_day : ℕ
  pub stages : List (ℕ × StageRule)

pub record RemainderExitConfig : Type 0 where
  pub enabled : Bool
  pub wait_trading_days : ℕ
  pub target_from_avg : ℕ

pub record TakeProfitConfig : Type 0 where
  pub tp1_base : ℕ
  pub tp1_fraction : ℕ
  pub tp2_base : ℕ
  pub use_atr : Bool
  pub tp1_atr_multiplier : ℕ
  pub tp2_atr_multiplier : ℕ
  pub remainder_exit : RemainderExitConfig

-- `mode` is "any" or "all".
pub data Mode : Type 0 where
  any_of all_of : Mode

pub record RecoveryConfig : Type 0 where
  pub cci5_gt : ℤ
  pub rsi5_gte : ℤ
  pub close_above_ema5 : Bool
  pub mode : Mode

pub record ReoversoldConfig : Type 0 where
  pub cci5_lte : ℤ
  pub rsi5_lte : ℤ
  pub close_below_lower_band : Bool
  pub mode : Mode

pub record RebuyConfig : Type 0 where
  pub enabled : Bool
  pub minimum_score : ℕ
  pub minimum_reversal_score : ℕ
  pub min_drop_from_avg : ℕ
  pub max_rebuy_per_cycle : ℕ
  pub recovery : RecoveryConfig
  pub reoversold : ReoversoldConfig

pub record RiskReviewConfig : Type 0 where
  pub info_days : ℕ
  pub review_days : ℕ
  pub high_days : ℕ

-- market_regime.soxl_sector_guard; any rule but "all_benchmarks_below_ema60" counts as `any`.
pub record SectorGuard : Type 0 where
  pub enabled : Bool
  pub blocked_stages : List ℕ
  pub benchmark_candidates : List Symbol
  pub rule : Mode

-- market_regime.first_entry_trend_guard
pub record TrendGuard : Type 0 where
  pub enabled : Bool
  pub symbols : List Symbol
  pub ema_only : Bool

pub record MarketRegimeConfig : Type 0 where
  pub green_score : ℕ
  pub yellow_score : ℕ
  pub red_score : ℕ
  pub soxl_sector_guard : SectorGuard
  pub first_entry_trend_guard : TrendGuard

-- A list of pairs of a threshold and a score.
abbrev pub Bands : Type 0
Bands = List (ℤ × ℕ)

pub record AtrBands : Type 0 where
  pub low_1 : ℤ
  pub low_2 : ℤ
  pub high : ℤ
  pub score_0 : ℕ
  pub score_1 : ℕ
  pub score_2 : ℕ
  pub score_3 : ℕ

pub record Grades : Type 0 where
  pub s : ℕ
  pub a : ℕ
  pub b : ℕ
  pub watch : ℕ

pub record ScoringConfig : Type 0 where
  pub calibration_enabled : Bool
  pub cci5_bands : Bands
  pub cci10_bands : Bands
  pub rsi5_bands : Bands
  pub rsi14_bands : Bands
  pub deep_multiplier : ℕ
  pub deep_score : ℕ
  pub touch_score : ℕ
  pub reversal_points_per_condition : ℕ
  pub reversal_close_position_threshold : ℤ
  pub volume_bands : Bands
  pub atr_bands : AtrBands
  pub grades : Grades

pub record IdleCashConfig : Type 0 where
  pub enabled : Bool
  pub symbol : Symbol

pub record StrategyConfig : Type 0 where
  pub global_ : GlobalConfig
  pub enabled_symbols : List Symbol
  pub market_regime : MarketRegimeConfig
  pub scoring : ScoringConfig
  pub position : PositionConfig
  pub exposure : ExposureConfig
  pub additional_entry : AdditionalEntryConfig
  pub take_profit : TakeProfitConfig
  pub rebuy : RebuyConfig
  pub risk_review : RiskReviewConfig
  pub idle_cash : IdleCashConfig
