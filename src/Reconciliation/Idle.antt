-- ===== src/Reconciliation/Idle.antt =====
-- The idle-cash symbol is looked up among the rows of the allocation symbols, where it never is.
use jd_holdings.Prelude.{
  ℕ, ltb, ◌≡◌, refl, sym, ap, ◌∙◌, Bool, true, false, not, Option, none, some, List, [], ◌∷◌,
  is_empty, Bool-cases, and_false, Option-cases, inl, inr,
}
use jd_holdings.Model.Enums.{Symbol, PositionState, same_state, same_symbol}
use jd_holdings.Model.Config.{StrategyConfig}
use jd_holdings.Repository.Errors.{
  Error, Result, require, Result-cases, then-eq-ok, ok-injective, failed≢ok,
}
use jd_holdings.Repository.Positions.{get_position, transition_position}
use jd_holdings.Repository.IdleCash.{get_idle_cash_state}
use jd_holdings.Reconciliation.Issues.{
  Holding, BrokerView, Ledger, Issue, broker_holding, allocation_symbols, is_in,
}
use jd_holdings.Reconciliation.Run.{
  enter_safe_mode, check_symbol, and_report, check_symbols, idle_issues, check_idle_cash,
  with_problem, run_holdings, run,
}
use jd_holdings.Reconciliation.SafeMode.{check_symbol-cases}

broker_holding-none :
    (symbol : Symbol) (holdings : List Holding)
    → is_in symbol allocation_symbols ≡ false
    → broker_holding symbol holdings ≡ none
unfolding broker_holding
broker_holding-none symbol [] h = refl
broker_holding-none symbol (row ∷ rows) h =
    rw (broker_holding-none symbol rows h, h, and_false (same_symbol row.symbol symbol)) refl

idle_issues-managed :
    (config : StrategyConfig) (view : BrokerView) (holdings : List Holding) (ledger : Ledger)
    {issues : List Issue}
    → is_in config.idle_cash.symbol allocation_symbols ≡ false
    → ltb 0 (get_idle_cash_state config.idle_cash.symbol ledger.idle_cash_state).managed_quantity
      ≡ true
    → idle_issues config view holdings ledger ≡ Result.ok issues
    → is_empty issues ≡ false
unfolding idle_issues
idle_issues-managed config view holdings ledger outside some_managed h =
    let absent = broker_holding-none config.idle_cash.symbol holdings outside in
    rw (← ok-injective (rw (absent, some_managed, idle_issues) at h)) refl

and_report-ledger :
    (symbol : Symbol) (issues : List Issue) (r : Ledger × Result (List (Symbol × List Issue)))
    → (and_report symbol issues r).0.idle_cash_state ≡ r.0.idle_cash_state
and_report-ledger symbol issues (ledger, Result.ok rest) = refl
and_report-ledger symbol issues (ledger, Result.failed error) = refl

with_problem-idle :
    (problem : Bool) (ledger : Ledger)
    → (with_problem problem ledger).idle_cash_state ≡ ledger.idle_cash_state
with_problem-idle true ledger = refl
with_problem-idle false ledger = refl

check_idle_cash-managed :
    (config : StrategyConfig) (view : BrokerView) (holdings : List Holding)
    (found : List (Symbol × List Issue)) (ledger : Ledger) {after : Ledger}
    {reported : List (Symbol × List Issue)}
    → config.idle_cash.enabled ≡ true
    → is_in config.idle_cash.symbol allocation_symbols ≡ false
    → ltb 0 (get_idle_cash_state config.idle_cash.symbol ledger.idle_cash_state).managed_quantity
      ≡ true
    → check_idle_cash config view holdings found ledger ≡ (after, Result.ok reported)
    → after.idle_cash_safe_mode ≡ true
unfolding check_idle_cash idle_issues
check_idle_cash-managed config view holdings found ledger enabled outside some_managed h =
    elim (Result-cases (idle_issues config view holdings ledger)) [
      | inl (issues, i) ↦
          let some_issue = idle_issues-managed config view holdings ledger outside some_managed i in
          let stored = rw (enabled, i, check_idle_cash) at h in
          sym (
            ap (λ (q : Ledger × Result (List (Symbol × List Issue))). q.0.idle_cash_safe_mode)
              stored)
          ∙ rw some_issue refl
      | inr (error, i) ↦ absurd (
          failed≢ok (
            ap (λ (q : Ledger × Result (List (Symbol × List Issue))). q.1)
              (rw (enabled, i, check_idle_cash) at h)))
    ]

enter_safe_mode-idle :
    (config : StrategyConfig) (symbol : Symbol) (ledger : Ledger) {after : Ledger}
    → enter_safe_mode config symbol ledger ≡ Result.ok after
    → after.idle_cash_state ≡ ledger.idle_cash_state
unfolding enter_safe_mode
enter_safe_mode-idle config symbol ledger h =
    elim (Bool-cases (is_in symbol config.enabled_symbols)) [
      | inl e ↦
          let (position, _, h1) =
            then-eq-ok
              (require Error.missing_key (get_position symbol ledger.position_table.positions)) _
              (rw e at h) in
          elim (Bool-cases (same_state position.state PositionState.safe_mode)) [
            | inl f ↦ sym (ap (λ (l : Ledger). l.idle_cash_state) (ok-injective (rw f at h1)))
            | inr f ↦
                let (table, _, h2) =
                  then-eq-ok
                    (transition_position symbol position.state PositionState.safe_mode (λ row. row)
                      (some position.version) ledger.position_table)
                    _ (rw f at h1) in
                sym (ap (λ (l : Ledger). l.idle_cash_state) (ok-injective h2))
          ]
      | inr e ↦ sym (ap (λ (l : Ledger). l.idle_cash_state) (ok-injective (rw e at h)))
    ]

module _ (config : StrategyConfig) (open_ids : Symbol → Option (List (Option ℕ)))
    (holdings : List Holding) where
  check_symbol-idle :
      (symbol : Symbol) (ledger : Ledger) {issues : List Issue} {after : Ledger}
      → check_symbol config open_ids holdings symbol ledger ≡ Result.ok (issues, after)
      → after.idle_cash_state ≡ ledger.idle_cash_state
  check_symbol-idle symbol ledger h =
      let (_, _, _, cases) = check_symbol-cases config open_ids holdings symbol ledger h in
      elim cases [
        | inl (_, same) ↦ sym (ap (λ (l : Ledger). l.idle_cash_state) same)
        | inr (_, e) ↦ enter_safe_mode-idle config symbol ledger e
      ]

  check_symbols-idle :
      (symbols : List Symbol) (ledger : Ledger)
      → (check_symbols config open_ids holdings symbols ledger).0.idle_cash_state
        ≡ ledger.idle_cash_state
  unfolding check_symbols
  check_symbols-idle [] ledger = refl
  check_symbols-idle (symbol ∷ symbols) ledger =
      elim (Result-cases (check_symbol config open_ids holdings symbol ledger)) [
        | inl ((issues, middle), e) ↦
            rw (e, check_symbols)
              (and_report-ledger symbol issues _
                ∙ check_symbols-idle symbols middle
                ∙ check_symbol-idle symbol ledger e)
        | inr (error, e) ↦ rw (e, check_symbols) refl
      ]

-- With idle cash enabled, whose symbol is no allocation symbol, and some shares of it managed, a run
-- that returns leaves the idle cash in safe mode, whatever the broker holds of it.
pub run-idle_cash :
    (config : StrategyConfig) (view : BrokerView) (ledger : Ledger) {after : Ledger}
    {reported : List (Symbol × List Issue)}
    → config.idle_cash.enabled ≡ true
    → is_in config.idle_cash.symbol allocation_symbols ≡ false
    → ltb 0 (get_idle_cash_state config.idle_cash.symbol ledger.idle_cash_state).managed_quantity
      ≡ true
    → run config view ledger ≡ (after, Result.ok reported)
    → after.idle_cash_safe_mode ≡ true
unfolding run run_holdings
run-idle_cash config view ledger enabled outside some_managed h =
    elim (Option-cases view.holdings) [
      | inl e ↦ absurd (
          failed≢ok
            (ap (λ (q : Ledger × Result (List (Symbol × List Issue))). q.1) (rw (e, run) at h)))
      | inr (holdings, e) ↦
          let checked = check_symbols config view.open_ids holdings allocation_symbols ledger in
          elim (Result-cases checked.1) [
            | inl (found, r) ↦
                let kept =
                  with_problem-idle (not (is_empty found)) checked.0
                  ∙ check_symbols-idle config view.open_ids holdings allocation_symbols ledger in
                check_idle_cash-managed config view holdings found
                  (with_problem (not (is_empty found)) checked.0) enabled outside
                  (rw kept some_managed) (rw (e, run, r, run_holdings) at h)
            | inr (error, r) ↦ absurd (
                failed≢ok (
                  ap (λ (q : Ledger × Result (List (Symbol × List Issue))). q.1)
                    (rw (e, run, r, run_holdings) at h)))
          ]
    ]
