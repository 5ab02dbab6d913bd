-- ===== src/Reconciliation/Tests.antt =====
-- Runs over a ledger with twenty shares of QQQ, against brokers that agree with it and that do not.
use mathlib.Core.List.{cons≢nil}
use jd_holdings.Prelude.{
  ℕ, ◌*◌, ltb, ◌≡◌, refl, ◌↔◌, ◌⊎◌, true, false, pos, none, some, List, [], ◌∷◌, All, one,
}
use jd_holdings.Model.Enums.{Symbol, PositionState, RiskReviewLevel}
use jd_holdings.Model.Snapshot.{PositionSnapshot, IdleCashState}
use jd_holdings.Model.Config.{StrategyConfig}
use jd_holdings.Model.Samples.{sample_config}
use jd_holdings.Repository.Errors.{Result}
use jd_holdings.Repository.Orders.{open_orders}
use jd_holdings.Repository.Tables.{CoreRow, get_core_position}
use jd_holdings.Repository.Positions.{get_position, set_position, transition_position}
use jd_holdings.Repository.Plans.{active_plans}
use jd_holdings.Repository.IdleCash.{find_state, get_idle_cash_state}
use jd_holdings.Reconciliation.Issues.{
  Quantity, Holding, BrokerView, Ledger, Issue, Local, allocation_symbols, is_in, broker_holding,
  validity_issues, quantity_issues, order_issues, symbol_issues,
}
use jd_holdings.Reconciliation.Run.{
  local_of, enter_safe_mode, check_symbol, check_symbols, idle_issues, check_idle_cash,
  run_holdings, run,
}
use jd_holdings.Reconciliation.Agreement.{IsAgreed, symbol_issues_iff}
use jd_holdings.Reconciliation.SafeMode.{IsClean, check_symbol-state}
use jd_holdings.Reconciliation.Clean.{run-IsClean, run-reported}
use jd_holdings.Reconciliation.Idle.{run-idle_cash}

abbrev position_of : Symbol → PositionSnapshot
position_of symbol = record {
  symbol = symbol;
  state = PositionState.empty;
  cycle_id = none;
  quantity = 0;
  average_price = 0;
  current_cost_basis = 0;
  cycle_exposure_cap = 0;
  staged_entry_capital = 0;
  cash_remaining = 10_000 * one;
  entry_count = 0;
  anchor_price = 0;
  last_entry_price = 0;
  last_entry_date = none;
  rebuy_count = 0;
  rebuy_recovery_armed = false;
  tp1_filled_qty = 0;
  risk_review_level = RiskReviewLevel.none;
  version = 4;
}

abbrev core_of : Symbol → ℕ → CoreRow
core_of symbol qty = record {
  symbol = symbol;
  qty = qty;
  avg_price = 400 * one;
  cost_basis = qty * (400 * one);
  target_weight = 0;
  target_qty = 0;
  version = 1;
}

abbrev ledger : Ledger
ledger = record {
  orders = [];
  position_table = record {
    positions = position_of Symbol.tqqq ∷ (position_of Symbol.soxl ∷ []);
    state_history = [];
  };
  core_positions = core_of Symbol.qqq 20 ∷ (core_of Symbol.tqqq 0 ∷ (core_of Symbol.soxl 0 ∷ []));
  tp_plans = record { rows = []; last_id = 0 };
  idle_cash_state = [];
  portfolio_safe_mode = false;
  idle_cash_safe_mode = false;
}

abbrev qqq_holding : Holding
qqq_holding = record { symbol = Symbol.qqq; quantity = Quantity.number (pos (20 * one)) }

abbrev tqqq_holding : Holding
tqqq_holding = record { symbol = Symbol.tqqq; quantity = Quantity.number (pos (3 * one)) }

-- A broker of given holdings, with no open orders.
abbrev view_of : List Holding → BrokerView
view_of holdings = record { holdings = some holdings; open_ids = λ symbol. some [] }

abbrev local_qqq : Local
local_qqq = record {
  core_qty = 20;
  booster_qty = 0;
  booster_state = PositionState.empty;
  has_plan = false;
  orders = [];
}

symbol_issues_iff_example :
    (symbol_issues Symbol.qqq local_qqq (qqq_holding ∷ []) (some []) ≡ [])
    ↔ IsAgreed Symbol.qqq local_qqq (qqq_holding ∷ []) (some [])
symbol_issues_iff_example = symbol_issues_iff Symbol.qqq local_qqq (qqq_holding ∷ []) (some [])

agrees : run sample_config (view_of (qqq_holding ∷ [])) ledger ≡ (ledger, Result.ok [])
unfolding run run_holdings check_symbols check_symbol check_idle_cash local_of is_in symbol_issues
    validity_issues quantity_issues order_issues broker_holding open_orders get_core_position
    get_position active_plans
agrees = refl

run-IsClean_example :
    (holdings : List Holding) × (some (qqq_holding ∷ []) ≡ some holdings)
    × All (λ symbol. IsClean sample_config (λ _. some []) holdings symbol ledger) allocation_symbols
    × (ledger.position_table ≡ ledger.position_table)
    × (ledger.portfolio_safe_mode ≡ ledger.portfolio_safe_mode)
run-IsClean_example = run-IsClean sample_config (view_of (qqq_holding ∷ [])) ledger agrees

-- Three shares of TQQQ that the database does not know put its position in safe mode.
abbrev safe_tqqq : Ledger
safe_tqqq = record ledger {
  position_table = record {
    positions =
        record (position_of Symbol.tqqq) { state = PositionState.safe_mode; version = 5 }
        ∷ (position_of Symbol.soxl ∷ []);
    state_history =
        record {
          cycle_id = none;
          symbol = Symbol.tqqq;
          previous_state = PositionState.empty;
          new_state = PositionState.safe_mode;
        }
        ∷ [];
  };
}

abbrev tqqq_issues : List Issue
tqqq_issues = Issue.quantity_mismatch ∷ (Issue.unmanaged_symbol ∷ [])

checks :
    check_symbol sample_config (λ _. some []) (tqqq_holding ∷ []) Symbol.tqqq ledger
    ≡ Result.ok (tqqq_issues, safe_tqqq)
unfolding check_symbol local_of is_in symbol_issues validity_issues quantity_issues order_issues
    broker_holding open_orders get_core_position get_position set_position active_plans
    enter_safe_mode transition_position
checks = refl

tqqq_is_booster : is_in Symbol.tqqq sample_config.enabled_symbols ≡ true
unfolding is_in
tqqq_is_booster = refl

check_symbol-state_example :
    (position : PositionSnapshot) × (get_position Symbol.tqqq safe_tqqq.position_table.positions
      ≡ some position)
    × (position.state ≡ PositionState.safe_mode)
check_symbol-state_example =
    check_symbol-state sample_config (λ _. some []) (tqqq_holding ∷ []) Symbol.tqqq ledger
      tqqq_is_booster checks (λ e. cons≢nil e)

disagrees :
    run sample_config (view_of (qqq_holding ∷ (tqqq_holding ∷ []))) ledger
    ≡ (record safe_tqqq { portfolio_safe_mode = true }, Result.ok ((Symbol.tqqq, tqqq_issues) ∷ []))
unfolding run run_holdings check_symbols check_symbol check_idle_cash local_of is_in symbol_issues
    validity_issues quantity_issues order_issues broker_holding open_orders get_core_position
    get_position set_position active_plans enter_safe_mode transition_position
disagrees = refl

run-reported_example : (true ≡ true) ⊎ (false ≡ true)
run-reported_example =
    run-reported sample_config (view_of (qqq_holding ∷ (tqqq_holding ∷ []))) ledger disagrees
      (λ e. cons≢nil e)

-- Fifty shares of SGOV that the broker holds are reported all the same.
abbrev sgov_config : StrategyConfig
sgov_config = record sample_config { idle_cash = record { enabled = true; symbol = Symbol.sgov } }

abbrev sgov_state : IdleCashState
sgov_state = record {
  symbol = Symbol.sgov;
  managed_quantity = 50;
  average_price = 100 * one;
  version = 1;
}

abbrev sgov_ledger : Ledger
sgov_ledger = record ledger { idle_cash_state = sgov_state ∷ [] }

abbrev sgov_holding : Holding
sgov_holding = record { symbol = Symbol.sgov; quantity = Quantity.number (pos (50 * one)) }

outside : is_in Symbol.sgov allocation_symbols ≡ false
unfolding is_in
outside = refl

some_managed :
    ltb 0 (get_idle_cash_state Symbol.sgov sgov_ledger.idle_cash_state).managed_quantity ≡ true
unfolding get_idle_cash_state find_state
some_managed = refl

sgov_runs : run sgov_config (view_of (qqq_holding ∷ (sgov_holding ∷ []))) sgov_ledger ≡ (
  record sgov_ledger { idle_cash_safe_mode = true },
  Result.ok ((Symbol.sgov, Issue.managed_exceeds_broker ∷ []) ∷ []),
)
unfolding run run_holdings check_symbols check_symbol check_idle_cash idle_issues local_of is_in
    symbol_issues validity_issues quantity_issues order_issues broker_holding open_orders
    get_core_position get_position active_plans get_idle_cash_state find_state
sgov_runs = refl

run-idle_cash_example : true ≡ true
run-idle_cash_example =
    run-idle_cash sgov_config (view_of (qqq_holding ∷ (sgov_holding ∷ []))) sgov_ledger refl outside
      some_managed sgov_runs
