-- ===== src/Repository/Signals.antt =====
-- The table `signals` of application/database.py, the latest row first. Versions and times are
-- numbers, `valid_until` and `now` of one clock; texts that are only stored are left out.
pub mod Unique
pub mod Kept
pub mod Samples
pub mod Active
mod Tests
use jd_holdings.Prelude.{
  ℕ, ◌+◌, ◌==◌, ltb, if◌then◌else◌, Bool, true, false, not, ◌&&◌, Option, none, some, List, [], ◌∷◌,
}
use jd_holdings.Model.Enums.{Symbol, DecisionType, same_symbol}
use jd_holdings.Model.Snapshot.{ScoreResult, TradeDecision}
use jd_holdings.Repository.Errors.{Error, Result, require}

pub data SignalStatus : Type 0 where
  active invalid expired processed failed unknown : SignalStatus

pub record SignalRow : Type 0 where
  pub signal_id : ℕ
  pub cycle_id : Option ℕ
  pub symbol : Symbol
  pub trade_date : ℕ
  pub score : ScoreResult
  pub atr_pct : ℕ
  pub action : DecisionType
  pub target_stage : Option ℕ
  pub signal_close : ℕ
  pub stage_trigger_price : Option ℕ
  pub max_chase_price : ℕ
  pub planned_budget : ℕ
  pub cycle_exposure_cap : ℕ
  pub valid_until : ℕ
  pub status : SignalStatus
  pub processed : Bool
  pub strategy_version : ℕ
  pub config_version : ℕ

pub record SignalTable : Type 0 where
  pub rows : List SignalRow
  pub last_id : ℕ

-- `self.config.version` and `self.config.config_version`.
pub record Versions : Type 0 where
  pub strategy : ℕ
  pub config : ℕ

-- The other arguments of create_signal.
pub record SignalRequest : Type 0 where
  pub symbol : Symbol
  pub trade_date : ℕ
  pub score : ScoreResult
  pub atr_pct : ℕ
  pub decision : TradeDecision
  pub signal_close : ℕ
  pub max_chase_price : ℕ
  pub valid_until : ℕ
  pub cycle_id : Option ℕ

abbrev pub decision_index : DecisionType → ℕ
decision_index DecisionType.no_action = 0
decision_index DecisionType.first_entry_candidate = 1
decision_index DecisionType.add_entry_candidate = 2
decision_index DecisionType.rebuy_candidate = 3
decision_index DecisionType.risk_review = 4
decision_index DecisionType.core_rebalance_buy = 5

abbrev pub same_decision : DecisionType → DecisionType → Bool
same_decision x y = decision_index x == decision_index y

-- UNIQUE(symbol, trade_date, strategy_version, config_version, action)
pub record SignalKey : Type 0 where
  pub symbol : Symbol
  pub trade_date : ℕ
  pub versions : Versions
  pub action : DecisionType

unfoldable pub has_key : SignalKey → SignalRow → Bool
has_key key row =
    same_symbol row.symbol key.symbol
    && ((row.trade_date == key.trade_date)
        && ((row.strategy_version == key.versions.strategy)
            && ((row.config_version == key.versions.config)
                && same_decision row.action key.action)))

abbrev pub row_key : SignalRow → SignalKey
row_key row = record {
  symbol = row.symbol;
  trade_date = row.trade_date;
  versions = record { strategy = row.strategy_version; config = row.config_version };
  action = row.action;
}

abbrev pub request_key : Versions → SignalRequest → SignalKey
request_key versions r = record {
  symbol = r.symbol;
  trade_date = r.trade_date;
  versions = versions;
  action = r.decision.action;
}

unfoldable pub find_signal : SignalKey → List SignalRow → Option SignalRow
find_signal key [] = none
find_signal key (row ∷ rows) = if has_key key row then some row else find_signal key rows

-- The row that an INSERT adds.
abbrev pub new_signal : Versions → ℕ → SignalRequest → SignalRow
new_signal versions id r = record {
  signal_id = id;
  cycle_id = r.cycle_id;
  symbol = r.symbol;
  trade_date = r.trade_date;
  score = r.score;
  atr_pct = r.atr_pct;
  action = r.decision.action;
  target_stage = r.decision.target_stage;
  signal_close = r.signal_close;
  stage_trigger_price = r.decision.stage_trigger_price;
  max_chase_price = r.max_chase_price;
  planned_budget = r.decision.planned_budget;
  cycle_exposure_cap = r.decision.cycle_exposure_cap;
  valid_until = r.valid_until;
  status = SignalStatus.active;
  processed = false;
  strategy_version = versions.strategy;
  config_version = versions.config;
}

-- INSERT OR IGNORE: the id of the signal, whether it is new, and the table.
unfoldable pub create_signal : Versions → SignalRequest → SignalTable → (ℕ × Bool) × SignalTable
create_signal versions request table =
    elim (find_signal (request_key versions request) table.rows) [
      | some row ↦ ((row.signal_id, false), table)
      | none ↦
          let id = table.last_id + 1 in
          ((id, true), record { rows = new_signal versions id request ∷ table.rows; last_id = id })
    ]

-- SELECT * FROM signals WHERE signal_id = ?
unfoldable pub signal_of : ℕ → List SignalRow → Option SignalRow
signal_of id [] = none
signal_of id (row ∷ rows) = if row.signal_id == id then some row else signal_of id rows

abbrev pub get_signal : ℕ → SignalTable → Result SignalRow
get_signal id table = require Error.missing_key (signal_of id table.rows)

-- status = 'ACTIVE' AND processed = 0
abbrev pub is_pending : SignalRow → Bool
is_pending row = (elim row.status [ SignalStatus.active ↦ true | _ ↦ false ]) && not row.processed

abbrev pub is_about : Option Symbol → SignalRow → Bool
is_about none row = true
is_about (some symbol) row = same_symbol row.symbol symbol

unfoldable pub active_signals : Option Symbol → List SignalRow → List SignalRow
active_signals symbol [] = []
active_signals symbol (row ∷ rows) =
    if is_pending row && is_about symbol row
    then row ∷ active_signals symbol rows
    else active_signals symbol rows

-- UPDATE signals SET ... WHERE ...
unfoldable pub update_signals :
    (SignalRow → Bool) → (SignalRow → SignalRow) → List SignalRow → List SignalRow
update_signals chosen change [] = []
update_signals chosen change (row ∷ rows) =
    (if chosen row then change row else row) ∷ update_signals chosen change rows

abbrev pub count {ℓ} : {A : Type ℓ} → (A → Bool) → List A → ℕ
count p [] = 0
count p (x ∷ xs) = (if p x then 1 else 0) + count p xs

abbrev pub closed_signal : SignalStatus → Bool → SignalRow → SignalRow
closed_signal status is_processed row = record row { status = status; processed = is_processed }

-- The signal that is kept, where a date and an action are given: the one of their key.
abbrev pub is_kept : Option SignalKey → SignalRow → Bool
is_kept none row = false
is_kept (some key) row =
    (row.trade_date == key.trade_date)
    && (same_decision row.action key.action
        && ((row.strategy_version == key.versions.strategy)
            && (row.config_version == key.versions.config)))

abbrev pub to_invalidate : Symbol → Option SignalKey → SignalRow → Bool
to_invalidate symbol kept row =
    same_symbol row.symbol symbol && (is_pending row && not (is_kept kept row))

-- The number of rows that change, and the table.
unfoldable pub invalidate_active_signals : Symbol → Option SignalKey → SignalTable → ℕ × SignalTable
invalidate_active_signals symbol kept table =
    let chosen = to_invalidate symbol kept in
    (
      count chosen table.rows,
      record table {
        rows = update_signals chosen (closed_signal SignalStatus.invalid true) table.rows;
      },
    )

unfoldable pub mark_signal : ℕ → SignalStatus → Bool → SignalTable → SignalTable
mark_signal id status is_processed table = record table {
  rows = update_signals (λ row. row.signal_id == id) (closed_signal status is_processed) table.rows;
}

abbrev pub is_stale : ℕ → SignalRow → Bool
is_stale now row = is_pending row && ltb row.valid_until now

unfoldable pub expire_stale_signals : ℕ → SignalTable → ℕ × SignalTable
expire_stale_signals now table = (
  count (is_stale now) table.rows,
  record table {
    rows = update_signals (is_stale now) (closed_signal SignalStatus.expired true) table.rows;
  },
)
