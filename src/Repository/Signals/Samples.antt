-- ===== src/Repository/Signals/Samples.antt =====
-- A first entry in TQQQ.
use jd_holdings.Prelude.{◌*◌, true, none, some, [], one}
use jd_holdings.Model.Enums.{Symbol, DecisionType, MarketRegime, SignalGrade}
use jd_holdings.Model.Snapshot.{ScoreResult, TradeDecision}
use jd_holdings.Repository.Signals.{SignalRequest, Versions}

abbrev pub versions : Versions
versions = record { strategy = 3; config = 22 }

abbrev pub score : ScoreResult
score = record {
  total = 90;
  grade = SignalGrade.a;
  regime = MarketRegime.green;
  regime_score = 25;
  oversold_score = 30;
  reversal_score = 20;
  volume_score = 10;
  atr_score = 5;
  raw_regime_score = none;
  raw_oversold_score = none;
  raw_reversal_score = none;
  raw_volume_score = none;
  raw_atr_score = none;
}

abbrev pub decision : TradeDecision
decision = record {
  action = DecisionType.first_entry_candidate;
  allowed = true;
  reason_codes = [];
  target_stage = some 1;
  cycle_exposure_cap = 5_000 * one;
  target_cumulative_capital = 500 * one;
  planned_budget = 500 * one;
  stage_trigger_price = none;
}

abbrev pub request : SignalRequest
request = record {
  symbol = Symbol.tqqq;
  trade_date = 739_000;
  score = score;
  atr_pct = 0;
  decision = decision;
  signal_close = 50 * one;
  max_chase_price = 51 * one;
  valid_until = 100;
  cycle_id = none;
}
