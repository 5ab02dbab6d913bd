-- ===== src/Reconciliation/Run.antt =====
-- ReconciliationService.run: the symbols in turn, the idle cash, and the safe modes that follow. The
-- dictionary of the result is a list; the idle-cash symbol is no allocation symbol.
use jd_holdings.Prelude.{
  ℕ, ◌/◌, ltb, if◌then◌else◌, Bool, true, false, not, ◌||◌, ℤ, pos_part, neg_part, Option, none,
  some, List, [], ◌∷◌, ◌++◌, is_empty, one,
}
use jd_holdings.Model.Enums.{Symbol, PositionState, same_state}
use jd_holdings.Model.Config.{StrategyConfig}
use jd_holdings.Repository.Errors.{Error, Result, ◌then◌, require}
use jd_holdings.Repository.Orders.{OrderRow, open_orders}
use jd_holdings.Repository.Tables.{get_core_position}
use jd_holdings.Repository.Positions.{get_position, transition_position}
use jd_holdings.Repository.Plans.{active_tp_plan}
use jd_holdings.Repository.IdleCash.{get_idle_cash_state, is_sgov_purpose}
use jd_holdings.OrderManager.{is_some}
use jd_holdings.Reconciliation.Issues.{
  Quantity, Holding, BrokerView, Ledger, Issue, allocation_symbols, is_in, broker_holding,
  quantity_of, when, order_issues, Local, symbol_issues,
}

unfoldable pub local_of : StrategyConfig → Symbol → Ledger → Result Local
local_of config symbol ledger =
    require Error.missing_key (get_core_position symbol ledger.core_positions) then λ core.
    if is_in symbol config.enabled_symbols
    then (require Error.missing_key (get_position symbol ledger.position_table.positions)
        then λ position. Result.ok (record {
          core_qty = core.qty;
          booster_qty = position.quantity;
          booster_state = position.state;
          has_plan = is_some (active_tp_plan symbol ledger.tp_plans);
          orders = open_orders (some symbol) ledger.orders;
        }))
    else Result.ok (record {
      core_qty = core.qty;
      booster_qty = 0;
      booster_state = PositionState.empty;
      has_plan = false;
      orders = open_orders (some symbol) ledger.orders;
    })

-- A position with an issue goes to safe mode, from whatever state it is in.
unfoldable pub enter_safe_mode : StrategyConfig → Symbol → Ledger → Result Ledger
enter_safe_mode config symbol ledger =
    if is_in symbol config.enabled_symbols
    then (require Error.missing_key (get_position symbol ledger.position_table.positions)
        then λ position.
            if same_state position.state PositionState.safe_mode
            then Result.ok ledger
            else (transition_position symbol position.state PositionState.safe_mode (λ row. row)
                  (some position.version) ledger.position_table
                then λ table. Result.ok (record ledger { position_table = table })))
    else Result.ok ledger

-- A symbol: its issues, and the ledger, which changes only where there are some.
unfoldable pub check_symbol :
    StrategyConfig
    → (Symbol → Option (List (Option ℕ)))
    → List Holding
    → Symbol
    → Ledger
    → Result (List Issue × Ledger)
check_symbol config open_ids holdings symbol ledger = local_of config symbol ledger then λ local.
    let issues = symbol_issues symbol local holdings (open_ids symbol) in
    if is_empty issues
    then Result.ok (issues, ledger)
    else (enter_safe_mode config symbol ledger then λ after. Result.ok (issues, after))

abbrev pub report : Symbol → List Issue → List (Symbol × List Issue) → List (Symbol × List Issue)
report symbol [] rest = rest
report symbol (issue ∷ issues) rest = (symbol, issue ∷ issues) ∷ rest

abbrev pub and_report :
    Symbol
    → List Issue
    → Ledger × Result (List (Symbol × List Issue))
    → Ledger × Result (List (Symbol × List Issue))
and_report symbol issues (ledger, Result.failed error) = (ledger, Result.failed error)
and_report symbol issues (ledger, Result.ok rest) = (ledger, Result.ok (report symbol issues rest))

-- The symbols in turn: what an earlier one has stored stays where a later one raises.
unfoldable pub check_symbols :
    StrategyConfig
    → (Symbol → Option (List (Option ℕ)))
    → List Holding
    → List Symbol
    → Ledger
    → Ledger × Result (List (Symbol × List Issue))
check_symbols config open_ids holdings [] ledger = (ledger, Result.ok [])
check_symbols config open_ids holdings (symbol ∷ symbols) ledger =
    elim (check_symbol config open_ids holdings symbol ledger) [
      | Result.failed error ↦ (ledger, Result.failed error)
      | Result.ok (issues, after) ↦
          and_report symbol issues (check_symbols config open_ids holdings symbols after)
    ]

-- `managed > int(quantity)`, which rounds towards 0.
abbrev pub exceeds : ℕ → ℤ → Bool
exceeds managed n = ltb (pos_part n / one) managed || ltb 0 (neg_part n / one)

abbrev pub sgov_orders : List OrderRow → List OrderRow
sgov_orders [] = []
sgov_orders (row ∷ rows) =
    if is_sgov_purpose row.purpose then row ∷ sgov_orders rows else sgov_orders rows

-- The idle-cash symbol, which is looked up among the rows of the allocation symbols.
unfoldable pub idle_issues :
    StrategyConfig → BrokerView → List Holding → Ledger → Result (List Issue)
idle_issues config view holdings ledger =
    let symbol = config.idle_cash.symbol in
    let state = get_idle_cash_state symbol ledger.idle_cash_state in
    let local = sgov_orders (open_orders (some symbol) ledger.orders) in
    elim (quantity_of (broker_holding symbol holdings)) [
      | Quantity.unreadable ↦ Result.failed Error.bad_value
      | Quantity.number n ↦ Result.ok (
          when (exceeds state.managed_quantity n) Issue.managed_exceeds_broker
          ++ order_issues local (view.open_ids symbol))
    ]

unfoldable pub check_idle_cash :
    StrategyConfig
    → BrokerView
    → List Holding
    → List (Symbol × List Issue)
    → Ledger
    → Ledger × Result (List (Symbol × List Issue))
check_idle_cash config view holdings found ledger =
    if config.idle_cash.enabled
    then elim (idle_issues config view holdings ledger) [
      | Result.failed error ↦ (ledger, Result.failed error)
      | Result.ok issues ↦ (
        record ledger { idle_cash_safe_mode = not (is_empty issues) },
        Result.ok (found ++ report config.idle_cash.symbol issues []),
      )
    ]
    else (ledger, Result.ok found)

abbrev pub with_problem : Bool → Ledger → Ledger
with_problem problem ledger =
    if problem then record ledger { portfolio_safe_mode = true } else ledger

unfoldable pub run_holdings :
    StrategyConfig
    → BrokerView
    → List Holding
    → Ledger
    → Ledger × Result (List (Symbol × List Issue))
run_holdings config view holdings ledger =
    let checked = check_symbols config view.open_ids holdings allocation_symbols ledger in
    elim checked.1 [
      | Result.failed error ↦ (checked.0, Result.failed error)
      | Result.ok found ↦
          check_idle_cash config view holdings found (with_problem (not (is_empty found)) checked.0)
    ]

unfoldable pub run :
    StrategyConfig → BrokerView → Ledger → Ledger × Result (List (Symbol × List Issue))
run config view ledger = elim view.holdings [
  | none ↦ (record ledger { portfolio_safe_mode = true }, Result.failed Error.broker_error)
  | some holdings ↦ run_holdings config view holdings ledger
]
