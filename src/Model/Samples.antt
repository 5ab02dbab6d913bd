-- ===== src/Model/Samples.antt =====
-- Values that the tests of the components share: a configuration and an empty position.
use jd_holdings.Prelude.{◌*◌, pos, true, false, [], ◌∷◌, one, cent}
use jd_holdings.Model.Enums.{Symbol}
use jd_holdings.Model.Snapshot.{IndicatorSnapshot}
use jd_holdings.Model.Config.{StrategyConfig, Mode, TakeProfitConfig, RemainderExitConfig}

abbrev pub sample_remainder_exit : RemainderExitConfig
sample_remainder_exit = record {
  enabled = true;
  wait_trading_days = 20;
  target_from_avg = 3 * cent;
}

abbrev pub sample_take_profit : TakeProfitConfig
sample_take_profit = record {
  tp1_base = 6 * cent;
  tp1_fraction = 50 * cent;
  tp2_base = 12 * cent;
  use_atr = false;
  tp1_atr_multiplier = one;
  tp2_atr_multiplier = 2 * one;
  remainder_exit = sample_remainder_exit;
}

abbrev pub sample_config : StrategyConfig
sample_config = record {
  global_ = record {
    capital_per_symbol = 10_000 * one;
    buy_fee = 0;
    sell_fee = 0;
    approval_required = true;
    stop_loss_enabled = false;
    entry_score = 55;
    minimum_reversal_score = 0;
    entry_max_chase_pct = cent;
    buy_limit_buffer = 0;
    review_token_ttl_minutes = 30;
    execution_token_ttl_seconds = 60;
    buy_fill_timeout_seconds = 60;
  };
  enabled_symbols = Symbol.tqqq ∷ Symbol.soxl ∷ [];
  market_regime = record {
    green_score = 25;
    yellow_score = 15;
    red_score = 0;
    soxl_sector_guard = record {
      enabled = false;
      blocked_stages = [];
      benchmark_candidates = [];
      rule = Mode.all_of;
    };
    first_entry_trend_guard = record { enabled = false; symbols = []; ema_only = true };
  };
  scoring = record {
    calibration_enabled = true;
    cci5_bands = [];
    cci10_bands = [];
    rsi5_bands = [];
    rsi14_bands = [];
    deep_multiplier = one;
    deep_score = 10;
    touch_score = 5;
    reversal_points_per_condition = 5;
    reversal_close_position_threshold = pos (50 * cent);
    volume_bands = [];
    atr_bands = record {
      low_1 = pos cent;
      low_2 = pos (2 * cent);
      high = pos (10 * cent);
      score_0 = 0;
      score_1 = 2;
      score_2 = 4;
      score_3 = 5;
    };
    grades = record { s = 92; a = 88; b = 82; watch = 55 };
  };
  position = record {
    stage_weights = 25 * cent ∷ 25 * cent ∷ 25 * cent ∷ 25 * cent ∷ [];
    cumulative_weights = 25 * cent ∷ 50 * cent ∷ 75 * cent ∷ one ∷ [];
  };
  exposure = record {
    score_82_87 = 50 * cent;
    score_88_91 = 75 * cent;
    score_92_100 = one;
    allow_cap_increase = true;
    allow_cap_decrease_during_cycle = false;
  };
  additional_entry = record {
    max_stage_per_day = 1;
    stages = (2, record { min_drop_from_anchor = 5 * cent; min_score = 55 }) ∷ [];
  };
  take_profit = sample_take_profit;
  rebuy = record {
    enabled = false;
    minimum_score = 55;
    minimum_reversal_score = 0;
    min_drop_from_avg = 5 * cent;
    max_rebuy_per_cycle = 1;
    recovery = record {
      cci5_gt = pos 0;
      rsi5_gte = pos (50 * one);
      close_above_ema5 = true;
      mode = Mode.any_of;
    };
    reoversold = record {
      cci5_lte = pos 0;
      rsi5_lte = pos (30 * one);
      close_below_lower_band = true;
      mode = Mode.any_of;
    };
  };
  risk_review = record { info_days = 20; review_days = 40; high_days = 60 };
  idle_cash = record { enabled = false; symbol = Symbol.sgov };
}

abbrev pub sample_snapshot : IndicatorSnapshot
sample_snapshot = record {
  symbol = Symbol.tqqq;
  trade_date = 739_000;
  open_price = 50 * one;
  high = 51 * one;
  low = 48 * one;
  close = 50 * one;
  previous_close = 49 * one;
  volume = 1_000_000;
  cci5 = pos 0;
  cci10 = pos 0;
  rsi5 = pos (40 * one);
  rsi14 = pos (45 * one);
  ema5 = pos (49 * one);
  ema20 = pos (48 * one);
  ema60 = pos (47 * one);
  bb_lower = pos (45 * one);
  atr14 = pos one;
  atr_pct = pos (2 * cent);
  volume_ratio = pos one;
  close_position = pos (60 * cent);
}
