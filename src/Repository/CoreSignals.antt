-- ===== src/Repository/CoreSignals.antt =====
-- create_core_buy_signal of application/database.py: the signal of a buy of the allocation, which may
-- be opened again. A version is a number, and a product of a price and a rate is in 10^-36.
pub mod Reopened
pub mod Histories
mod Tests
use jd_holdings.Prelude.{
  ℕ, ◌+◌, ◌*◌, ◌==◌, if◌then◌else◌, Bool, true, false, not, ◌&&◌, Option, none, some, List, [], ◌∷◌,
  ℤ, pos, negsuc, one,
}
use jd_holdings.Model.Enums.{Symbol, DecisionType, MarketRegime, SignalGrade, same_symbol}
use jd_holdings.Model.Snapshot.{ScoreResult}
use jd_holdings.Repository.Errors.{Error, Result}
use jd_holdings.Repository.Tables.{CoreRow}
use jd_holdings.Repository.Approvals.{Approval, cancel_active}
use jd_holdings.Repository.Signals.{
  SignalRow, SignalTable, SignalStatus, SignalKey, Versions, find_signal, update_signals,
}

-- The arguments of create_core_buy_signal, and entry_max_chase_pct.
pub record CoreRequest : Type 0 where
  pub symbol : Symbol
  pub trade_date : ℕ
  pub signal_close : ℕ
  pub planned_budget : ℕ
  pub valid_until : ℕ
  pub entry_max_chase_pct : ℕ

pub record SignalBook : Type 0 where
  pub signals : SignalTable
  pub approvals : List Approval

abbrev pub core_key : Versions → CoreRequest → SignalKey
core_key versions r = record {
  symbol = r.symbol;
  trade_date = r.trade_date;
  versions = versions;
  action = DecisionType.core_rebalance_buy;
}

abbrev pub chase_price : CoreRequest → ℕ
chase_price r = r.signal_close * (one + r.entry_max_chase_pct)

-- The constants of the INSERT: score 0, NO_TRADE, YELLOW and an empty detail.
abbrev pub no_score : ScoreResult
no_score = record {
  total = 0;
  grade = SignalGrade.no_trade;
  regime = MarketRegime.yellow;
  regime_score = 0;
  oversold_score = 0;
  reversal_score = 0;
  volume_score = 0;
  atr_score = 0;
  raw_regime_score = none;
  raw_oversold_score = none;
  raw_reversal_score = none;
  raw_volume_score = none;
  raw_atr_score = none;
}

abbrev pub new_core_signal : Versions → ℕ → CoreRequest → SignalRow
new_core_signal versions id r = record {
  signal_id = id;
  cycle_id = none;
  symbol = r.symbol;
  trade_date = r.trade_date;
  score = no_score;
  atr_pct = 0;
  action = DecisionType.core_rebalance_buy;
  target_stage = none;
  signal_close = r.signal_close;
  stage_trigger_price = none;
  max_chase_price = chase_price r;
  planned_budget = r.planned_budget;
  cycle_exposure_cap = r.planned_budget;
  valid_until = r.valid_until;
  status = SignalStatus.active;
  processed = false;
  strategy_version = versions.strategy;
  config_version = versions.config;
}

-- UPDATE signals SET ... WHERE signal_id = ?
abbrev pub reopened_signal : CoreRequest → SignalRow → SignalRow
reopened_signal r row = record row {
  signal_close = r.signal_close;
  max_chase_price = chase_price r;
  planned_budget = r.planned_budget;
  cycle_exposure_cap = r.planned_budget;
  valid_until = r.valid_until;
  status = SignalStatus.active;
  processed = false;
}

-- str(row["status"]) not in {"ACTIVE", "UNKNOWN"}
abbrev pub can_reopen : SignalStatus → Bool
can_reopen SignalStatus.active = false
can_reopen SignalStatus.unknown = false
can_reopen _ = true

-- The id of the signal, whether it is new or open again, and the tables.
unfoldable pub create_core_buy_signal :
    Versions → CoreRequest → Bool → SignalBook → (ℕ × Bool) × SignalBook
create_core_buy_signal versions request reactivate_existing book =
    elim (find_signal (core_key versions request) book.signals.rows) [
      | none ↦
          let id = book.signals.last_id + 1 in
          (
            (id, true),
            record book {
              signals = record {
                rows = new_core_signal versions id request ∷ book.signals.rows;
                last_id = id;
              };
            },
          )
      | some row ↦
          if reactivate_existing && can_reopen row.status
          then (
            (row.signal_id, true),
            record {
              signals = record {
                rows =
                    update_signals (λ r. r.signal_id == row.signal_id) (reopened_signal request)
                      book.signals.rows;
                last_id = book.signals.last_id;
              };
              approvals = cancel_active row.signal_id book.approvals;
            },
          )
          else ((row.signal_id, false), book)
    ]
