-- ===== src/Core/Scoring.antt =====
-- core/scoring.py, core/regime.py and core/risk.py: the score of a day, the regime of the market
-- and the level of a risk review. The power of a float, `round(maximum * (raw / maximum) ** e)`,
-- is a parameter of the calibration.
pub mod Bounds
mod Tests
use jd_holdings.Prelude.{
  ℕ, ◌+◌, ◌*◌, min, ℤ, pos, ltb_ℤ, leb_ℤ, Bool, true, false, ◌&&◌, Option, none, some, List, [],
  ◌∷◌, one, leb, ltb, ◌==◌, if◌then◌else◌,
}
use jd_holdings.Model.Enums.{MarketRegime, SignalGrade, RiskReviewLevel}
use jd_holdings.Model.Snapshot.{IndicatorSnapshot, ScoreResult}
use jd_holdings.Model.Config.{
  StrategyConfig, ScoringConfig, Bands, AtrBands, Grades, MarketRegimeConfig, RiskReviewConfig,
}

-- The first band that the value does not exceed.
unfoldable pub lte_band_score : ℤ → Bands → ℕ
lte_band_score value [] = 0
lte_band_score value ((threshold, score) ∷ bands) =
    if leb_ℤ value threshold then score else lte_band_score value bands

-- The loop carries the score of the last band that the value reaches.
unfoldable pub gte_band_score : ℤ → ℕ → Bands → ℕ
gte_band_score value score [] = score
gte_band_score value score ((threshold, candidate) ∷ bands) =
    gte_band_score value (if leb_ℤ threshold value then candidate else score) bands

unfoldable pub calculate_grade : ℕ → Grades → SignalGrade
calculate_grade total grades =
    if leb grades.s total
    then SignalGrade.s
    else if leb grades.a total
    then SignalGrade.a
    else if leb grades.b total
    then SignalGrade.b
    else if leb grades.watch total
    then SignalGrade.watch
    else SignalGrade.no_trade

pub data Component : Type 0 where
  regime oversold reversal volume atr : Component

-- _COMPONENT_MAXIMA
abbrev pub component_maximum : Component → ℕ
component_maximum Component.regime = 25
component_maximum Component.oversold = 40
component_maximum Component.reversal = 20
component_maximum Component.volume = 10
component_maximum Component.atr = 5

-- `power component raw` is floor(maximum * (raw / maximum) ** exponent + 0.5), in floats.
unfoldable pub calibrate_component : (Component → ℕ → ℕ) → Component → ℕ → ScoringConfig → ℕ
calibrate_component power component raw_score config =
    let maximum = component_maximum component in
    if config.calibration_enabled
    then if raw_score == 0
      then 0
      else if leb maximum raw_score
      then maximum
      else min maximum (power component raw_score)
    else raw_score

unfoldable pub regime_points : MarketRegimeConfig → MarketRegime → ℕ
regime_points config MarketRegime.green = config.green_score
regime_points config MarketRegime.yellow = config.yellow_score
regime_points config MarketRegime.red = config.red_score

-- The lower band times the multiplier is in 10^-36; a negative band is passed by no price.
bollinger_points : IndicatorSnapshot → ScoringConfig → ℕ
bollinger_points snapshot config =
    if leb_ℤ (pos (snapshot.close * one)) (scaled snapshot.bb_lower)
    then config.deep_score
    else if leb_ℤ (pos snapshot.close) snapshot.bb_lower
    then config.touch_score
    else 0
  where
    scaled : ℤ → ℤ
    scaled (pos n) = pos (n * config.deep_multiplier)
    scaled (ℤ.negsuc n) = ℤ.negsuc n

unfoldable pub oversold_points : IndicatorSnapshot → ScoringConfig → ℕ
unfolding bollinger_points lte_band_score
oversold_points snapshot config = min 40 (
    lte_band_score snapshot.cci5 config.cci5_bands
    + lte_band_score snapshot.cci10 config.cci10_bands
    + lte_band_score snapshot.rsi5 config.rsi5_bands
    + lte_band_score snapshot.rsi14 config.rsi14_bands
    + bollinger_points snapshot config)

abbrev truth : Bool → ℕ
truth true = 1
truth false = 0

unfoldable pub reversal_points : IndicatorSnapshot → ScoringConfig → ℕ
reversal_points snapshot config =
    (truth (ltb snapshot.open_price snapshot.close)
      + truth (ltb snapshot.previous_close snapshot.close)
      + truth (ltb_ℤ snapshot.ema5 (pos snapshot.close))
      + truth (leb_ℤ config.reversal_close_position_threshold snapshot.close_position))
    * config.reversal_points_per_condition

unfoldable pub atr_points : ℤ → AtrBands → ℕ
atr_points atr_pct bands =
    if ltb_ℤ atr_pct bands.low_1
    then bands.score_0
    else if ltb_ℤ atr_pct bands.low_2
    then bands.score_1
    else if leb_ℤ atr_pct bands.high
    then bands.score_2
    else bands.score_3

-- `max(0, min(100, total))`; no component is negative.
score_result : (Component → ℕ → ℕ) → MarketRegime → StrategyConfig → ℕ → ℕ → ℕ → ℕ → ℕ → ScoreResult
score_result power market config r o v u a =
    let r' = calibrate_component power Component.regime r config.scoring in
    let o' = calibrate_component power Component.oversold o config.scoring in
    let v' = calibrate_component power Component.reversal v config.scoring in
    let u' = calibrate_component power Component.volume u config.scoring in
    let a' = calibrate_component power Component.atr a config.scoring in
    let total = min 100 (r' + o' + v' + u' + a') in
    record {
      total = total;
      grade = calculate_grade total config.scoring.grades;
      regime = market;
      regime_score = r';
      oversold_score = o';
      reversal_score = v';
      volume_score = u';
      atr_score = a';
      raw_regime_score = some r;
      raw_oversold_score = some o;
      raw_reversal_score = some v;
      raw_volume_score = some u;
      raw_atr_score = some a;
    }

unfoldable pub calculate_score :
    (Component → ℕ → ℕ) → IndicatorSnapshot → MarketRegime → StrategyConfig → ScoreResult
unfolding score_result
calculate_score power snapshot market config =
    score_result power market config (regime_points config.market_regime market)
      (oversold_points snapshot config.scoring) (reversal_points snapshot config.scoring)
      (gte_band_score snapshot.volume_ratio 0 config.scoring.volume_bands)
      (atr_points snapshot.atr_pct config.scoring.atr_bands)

-- Two days that differ are a ValueError.
unfoldable pub evaluate_regime : IndicatorSnapshot → IndicatorSnapshot → Option MarketRegime
evaluate_regime spy qqq =
    if spy.trade_date == qqq.trade_date
    then some (
        if ltb_ℤ spy.ema60 (pos spy.close)
          && (ltb_ℤ qqq.ema60 (pos qqq.close)
              && (ltb_ℤ spy.ema60 spy.ema20 && ltb_ℤ qqq.ema60 qqq.ema20))
        then MarketRegime.green
        else if ltb_ℤ (pos spy.close) spy.ema60 && ltb_ℤ (pos qqq.close) qqq.ema60
        then MarketRegime.red
        else MarketRegime.yellow)
    else none

unfoldable pub evaluate_risk_review : ℕ → RiskReviewConfig → RiskReviewLevel
evaluate_risk_review holding_days config =
    if leb config.high_days holding_days
    then RiskReviewLevel.high
    else if leb config.review_days holding_days
    then RiskReviewLevel.review
    else if leb config.info_days holding_days
    then RiskReviewLevel.info
    else RiskReviewLevel.none
