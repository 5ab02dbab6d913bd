-- ===== src/Core/Scoring/Bounds.antt =====
-- The score is a number from 0 to 100, and a calibrated component never passes its maximum.
use jd_holdings.Prelude.{
  ℕ, ◌+◌, ◌≤◌, ◌≡◌, ◌↔◌, ℤ, pos, ltb_ℤ, leb_ℤ, ◌≤ℤ◌, true, some, [], ◌∷◌, arith, if◌then◌else◌,
}
use jd_holdings.Model.Enums.{MarketRegime, SignalGrade, RiskReviewLevel}
use jd_holdings.Model.Snapshot.{IndicatorSnapshot}
use jd_holdings.Model.Config.{StrategyConfig, ScoringConfig, Bands, Grades, RiskReviewConfig}
use jd_holdings.Core.Scoring.{
  lte_band_score, gte_band_score, calculate_grade, Component, component_maximum,
  calibrate_component, score_result, calculate_score, evaluate_regime, evaluate_risk_review,
}

calibrate_component-le :
    (power : Component → ℕ → ℕ) (c : Component) (raw : ℕ) (config : ScoringConfig)
    → config.calibration_enabled ≡ true
    → calibrate_component power c raw config ≤ component_maximum c
unfolding calibrate_component
calibrate_component-le power c raw config on = ground arith

score_result_bounds :
    (power : Component → ℕ → ℕ) (market : MarketRegime) (config : StrategyConfig) (r o v u a : ℕ)
    → config.scoring.calibration_enabled ≡ true
    → let score = score_result power market config r o v u a in
      let sum =
        score.regime_score + score.oversold_score + score.reversal_score + score.volume_score
        + score.atr_score in
      (score.total ≡ sum)
      × (score.regime_score ≤ 25)
      × (score.oversold_score ≤ 40)
      × (score.reversal_score ≤ 20)
      × (score.volume_score ≤ 10)
      × (score.atr_score ≤ 5)
unfolding score_result
score_result_bounds power market config r o v u a on =
    let le = calibrate_component-le power in
    let r' = le Component.regime r config.scoring on in
    let o' = le Component.oversold o config.scoring on in
    let v' = le Component.reversal v config.scoring on in
    let u' = le Component.volume u config.scoring on in
    let a' = le Component.atr a config.scoring on in omega arith

-- Whatever the power function and the day, a calibrated total is the sum of its components, and no
-- component passes its maximum; so the total is at most 100.
pub calculate_score_bounds :
    (power : Component → ℕ → ℕ) (snapshot : IndicatorSnapshot) (market : MarketRegime)
    (config : StrategyConfig)
    → config.scoring.calibration_enabled ≡ true
    → let score = calculate_score power snapshot market config in
      let sum =
        score.regime_score + score.oversold_score + score.reversal_score + score.volume_score
        + score.atr_score in
      (score.total ≡ sum)
      × (score.regime_score ≤ 25)
      × (score.oversold_score ≤ 40)
      × (score.reversal_score ≤ 20)
      × (score.volume_score ≤ 10)
      × (score.atr_score ≤ 5)
unfolding calculate_score
calculate_score_bounds power snapshot market config on =
    score_result_bounds power market config _ _ _ _ _ on

-- The place of a grade, the best the highest.
abbrev pub grade_rank : SignalGrade → ℕ
grade_rank SignalGrade.s = 4
grade_rank SignalGrade.a = 3
grade_rank SignalGrade.b = 2
grade_rank SignalGrade.watch = 1
grade_rank SignalGrade.no_trade = 0

-- A higher score never has a lower grade, whatever the cutoffs.
pub calculate_grade_mono :
    (low high : ℕ) (grades : Grades)
    → low ≤ high
    → grade_rank (calculate_grade low grades) ≤ grade_rank (calculate_grade high grades)
unfolding calculate_grade
calculate_grade_mono low high grades h = ground arith

-- The scores of bands that ascend from a floor.
abbrev pub Ascends : ℕ → Bands → Type 0
Ascends floor [] = Unit
Ascends floor (band ∷ bands) = (floor ≤ band.1) × Ascends band.1 bands

Ascends-weaken :
    (floor higher : ℕ) (bands : Bands) → floor ≤ higher → Ascends higher bands → Ascends floor bands
Ascends-weaken floor higher [] h a = tt
Ascends-weaken floor higher (b ∷ bands) h a = (omega arith, a.1)

-- Where the scores of the volume bands ascend, more volume never scores less.
pub gte_band_score_mono :
    (v w : ℤ) (s t : ℕ) (bands : Bands)
    → v ≤ℤ w
    → s ≤ t
    → Ascends t bands
    → gte_band_score v s bands ≤ gte_band_score w t bands
unfolding gte_band_score
gte_band_score_mono v w s t [] h k a = k
gte_band_score_mono v w s t (b ∷ bands) h k a =
    let next = if leb_ℤ b.0 w then b.1 else t in
    gte_band_score_mono v w (if leb_ℤ b.0 v then b.1 else s) next bands h (ground arith)
      (Ascends-weaken next b.1 bands (ground arith) a.1)

-- The scores of bands that descend from a ceiling.
abbrev pub Descends : ℕ → Bands → Type 0
Descends ceiling [] = Unit
Descends ceiling (band ∷ bands) = (band.1 ≤ ceiling) × Descends band.1 bands

lte_band_score-le :
    (value : ℤ) (ceiling : ℕ) (bands : Bands)
    → Descends ceiling bands
    → lte_band_score value bands ≤ ceiling
unfolding lte_band_score
lte_band_score-le value ceiling [] d = omega arith
lte_band_score-le value ceiling (b ∷ bands) d =
    ground (arith, lte_band_score-le value b.1 bands d.1)

-- Where the scores of the bands descend, a deeper fall of an indicator never scores less.
pub lte_band_score_anti :
    (v w : ℤ) (ceiling : ℕ) (bands : Bands)
    → v ≤ℤ w
    → Descends ceiling bands
    → lte_band_score w bands ≤ lte_band_score v bands
unfolding lte_band_score
lte_band_score_anti v w ceiling [] h d = omega arith
lte_band_score_anti v w ceiling (b ∷ bands) h d =
    ground (arith, lte_band_score_anti v w b.1 bands h d.1, lte_band_score-le w b.1 bands d.1)

-- Two markets that have a regime are of one day; it is red exactly when both closes lie below
-- the slow averages, and green exactly when both closes and both fast averages lie above them.
pub evaluate_regime_iff :
    (spy qqq : IndicatorSnapshot) (market : MarketRegime)
    → evaluate_regime spy qqq ≡ some market
    → (spy.trade_date ≡ qqq.trade_date)
      × ((market ≡ MarketRegime.red)
          ↔ ((ltb_ℤ (pos spy.close) spy.ema60 ≡ true) × (ltb_ℤ (pos qqq.close) qqq.ema60 ≡ true)))
      × ((market ≡ MarketRegime.green) ↔ (
          (ltb_ℤ spy.ema60 (pos spy.close) ≡ true)
          × (ltb_ℤ qqq.ema60 (pos qqq.close) ≡ true)
          × (ltb_ℤ spy.ema60 spy.ema20 ≡ true)
          × (ltb_ℤ qqq.ema60 qqq.ema20 ≡ true)))
unfolding evaluate_regime
evaluate_regime_iff spy qqq market h = ground arith

abbrev pub review_rank : RiskReviewLevel → ℕ
review_rank RiskReviewLevel.none = 0
review_rank RiskReviewLevel.info = 1
review_rank RiskReviewLevel.review = 2
review_rank RiskReviewLevel.high = 3

-- The review level of a holding never falls as the days pass.
pub evaluate_risk_review_mono :
    (days later : ℕ) (config : RiskReviewConfig)
    → days ≤ later
    → review_rank (evaluate_risk_review days config)
      ≤ review_rank (evaluate_risk_review later config)
unfolding evaluate_risk_review
evaluate_risk_review_mono days later config h = ground arith
