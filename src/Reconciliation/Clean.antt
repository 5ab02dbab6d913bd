-- ===== src/Reconciliation/Clean.antt =====
-- ReconciliationService.run, from what it reports: agreement where that is nothing.
use mathlib.Core.List.{cons≢nil}
use mathlib.Core.Path.{subst}
use jd_holdings.Prelude.{
  ℕ, ◌≡◌, refl, sym, ap, ◌∙◌, ◌≢◌, ◌⊎◌, true, not, Option, some, List, [], ◌∷◌, ◌++◌, All, is_empty,
  Bool-cases, Option-cases, inl, inr,
}
use jd_holdings.Model.Enums.{Symbol}
use jd_holdings.Model.Config.{StrategyConfig}
use jd_holdings.Repository.Errors.{Result, Result-cases, ok-injective, failed≢ok}
use jd_holdings.Reconciliation.Issues.{Holding, BrokerView, Ledger, Issue, allocation_symbols}
use jd_holdings.Reconciliation.Run.{
  check_symbol, report, and_report, check_symbols, idle_issues, check_idle_cash, with_problem,
  run_holdings, run,
}
use jd_holdings.Reconciliation.SafeMode.{IsClean, check_symbol-IsClean}

report-nil :
    (symbol : Symbol) (issues : List Issue) (rest : List (Symbol × List Issue))
    → report symbol issues rest ≡ []
    → (issues ≡ []) × (rest ≡ [])
report-nil symbol [] rest h = (refl, h)
report-nil symbol (x ∷ issues) rest h = absurd (cons≢nil h)

abbrev result_of :
    Ledger × Result (List (Symbol × List Issue)) → Result (List (Symbol × List Issue))
result_of (ledger, result) = result

and_report-ok :
    (symbol : Symbol) (issues : List Issue) (r : Ledger × Result (List (Symbol × List Issue)))
    {after : Ledger} {found : List (Symbol × List Issue)}
    → and_report symbol issues r ≡ (after, Result.ok found)
    → (rest : List (Symbol × List Issue)) × (r ≡ (after, Result.ok rest))
      × (report symbol issues rest ≡ found)
and_report-ok symbol issues (ledger, Result.failed error) h = absurd (failed≢ok (ap result_of h))
and_report-ok symbol issues (ledger, Result.ok rest) h = (
  rest,
  ap (λ (q : Ledger × Result (List (Symbol × List Issue))). (q.0, Result.ok rest)) h,
  ok-injective (ap result_of h),
)

module _ (config : StrategyConfig) (open_ids : Symbol → Option (List (Option ℕ)))
    (holdings : List Holding) where
  check_symbols-IsClean :
      (symbols : List Symbol) (ledger : Ledger) {after : Ledger}
      {found : List (Symbol × List Issue)}
      → check_symbols config open_ids holdings symbols ledger ≡ (after, Result.ok found)
      → found ≡ []
      → All (λ symbol. IsClean config open_ids holdings symbol ledger) symbols × (ledger ≡ after)
  unfolding check_symbols
  check_symbols-IsClean [] ledger h none_found =
      (tt, ap (λ (q : Ledger × Result (List (Symbol × List Issue))). q.0) h)
  check_symbols-IsClean (symbol ∷ symbols) ledger h none_found =
      elim (Result-cases (check_symbol config open_ids holdings symbol ledger)) [
        | inl ((issues, middle), e) ↦
            let (rest, r, reported) = and_report-ok symbol issues _ (rw (e, check_symbols) at h) in
            let (no_issue, no_rest) = report-nil symbol issues rest (reported ∙ none_found) in
            let (clean, same) =
              check_symbol-IsClean config open_ids holdings symbol ledger e no_issue in
            let (others, last) = check_symbols-IsClean symbols middle r no_rest in
            (
              (
                clean,
                subst (λ l. All (λ other. IsClean config open_ids holdings other l) symbols)
                    (sym same) others,
              ),
              same ∙ last,
            )
        | inr (error, e) ↦ absurd (failed≢ok (ap result_of (rw (e, check_symbols) at h)))
      ]

append_nil : (a : List (Symbol × List Issue)) → a ++ [] ≡ a
append_nil [] = refl
append_nil (x ∷ a) = ap (λ (l : List (Symbol × List Issue)). x ∷ l) (append_nil a)

append-nil : (a b : List (Symbol × List Issue)) → a ++ b ≡ [] → (a ≡ []) × (b ≡ [])
append-nil [] b h = (refl, h)
append-nil (x ∷ a) b h = absurd (cons≢nil h)

-- The idle cash keeps the positions and the portfolio's safe mode, and what was reported before it.
check_idle_cash-keeps :
    (config : StrategyConfig) (view : BrokerView) (holdings : List Holding)
    (found : List (Symbol × List Issue)) (ledger : Ledger) {after : Ledger}
    {reported : List (Symbol × List Issue)}
    → check_idle_cash config view holdings found ledger ≡ (after, Result.ok reported)
    → (more : List (Symbol × List Issue)) × (found ++ more ≡ reported)
      × (after.position_table ≡ ledger.position_table)
      × (after.portfolio_safe_mode ≡ ledger.portfolio_safe_mode)
unfolding check_idle_cash idle_issues
check_idle_cash-keeps config view holdings found ledger h =
    elim (Bool-cases config.idle_cash.enabled) [
      | inl e ↦ elim (Result-cases (idle_issues config view holdings ledger)) [
        | inl (issues, i) ↦
            let stored = rw (e, i, check_idle_cash) at h in
            (
              report config.idle_cash.symbol issues [],
              ok-injective (ap result_of stored),
              sym (
                  ap (λ (q : Ledger × Result (List (Symbol × List Issue))). q.0.position_table)
                    stored),
              sym (
                  ap (λ (q : Ledger × Result (List (Symbol × List Issue))). q.0.portfolio_safe_mode)
                    stored),
            )
        | inr (error, i) ↦ absurd (failed≢ok (ap result_of (rw (e, i, check_idle_cash) at h)))
      ]
      | inr e ↦
          let stored = rw (e, check_idle_cash) at h in
          (
            [],
            append_nil found ∙ ok-injective (ap result_of stored),
            sym (
                ap (λ (q : Ledger × Result (List (Symbol × List Issue))). q.0.position_table)
                  stored),
            sym (
                ap (λ (q : Ledger × Result (List (Symbol × List Issue))). q.0.portfolio_safe_mode)
                  stored),
          )
    ]

with_problem_none :
    (found : List (Symbol × List Issue)) (ledger : Ledger)
    → found ≡ []
    → with_problem (not (is_empty found)) ledger ≡ ledger
with_problem_none [] ledger h = refl
with_problem_none (x ∷ found) ledger h = absurd (cons≢nil h)

reports_mode :
    (symbol : Symbol) (issues : List Issue) {reported : List (Symbol × List Issue)}
    → report symbol issues [] ≡ reported
    → reported ≢ []
    → not (is_empty issues) ≡ true
reports_mode symbol [] h some_reported = absurd (some_reported (sym h))
reports_mode symbol (x ∷ issues) h some_reported = refl

-- The idle cash reports its own issues only with its own safe mode.
check_idle_cash-reported :
    (config : StrategyConfig) (view : BrokerView) (holdings : List Holding)
    (found : List (Symbol × List Issue)) (ledger : Ledger) {after : Ledger}
    {reported : List (Symbol × List Issue)}
    → check_idle_cash config view holdings found (with_problem (not (is_empty found)) ledger)
      ≡ (after, Result.ok reported)
    → reported ≢ []
    → (after.portfolio_safe_mode ≡ true) ⊎ (after.idle_cash_safe_mode ≡ true)
unfolding check_idle_cash idle_issues
check_idle_cash-reported config view holdings [] ledger h some_reported =
    elim (Bool-cases config.idle_cash.enabled) [
      | inl e ↦ elim (Result-cases (idle_issues config view holdings ledger)) [
        | inl (issues, i) ↦
            let stored = rw (e, i, check_idle_cash) at h in
            let listed = ok-injective (ap result_of stored) in
            inr (
              sym (
                ap (λ (q : Ledger × Result (List (Symbol × List Issue))). q.0.idle_cash_safe_mode)
                  stored)
              ∙ reports_mode config.idle_cash.symbol issues listed some_reported)
        | inr (error, i) ↦ absurd (failed≢ok (ap result_of (rw (e, i, check_idle_cash) at h)))
      ]
      | inr e ↦
          absurd (some_reported (sym (ok-injective (ap result_of (rw (e, check_idle_cash) at h)))))
    ]
check_idle_cash-reported config view holdings (x ∷ found) ledger h some_reported =
    let (_, _, _, mode) = check_idle_cash-keeps config view holdings (x ∷ found) _ h in inl mode

module _ (config : StrategyConfig) (view : BrokerView) (ledger : Ledger) where
  run_holdings-IsClean :
      (holdings : List Holding) {after : Ledger}
      → run_holdings config view holdings ledger ≡ (after, Result.ok [])
      → All (λ symbol. IsClean config view.open_ids holdings symbol ledger) allocation_symbols
        × (after.position_table ≡ ledger.position_table)
        × (after.portfolio_safe_mode ≡ ledger.portfolio_safe_mode)
  unfolding run_holdings
  run_holdings-IsClean holdings h =
      let checked = check_symbols config view.open_ids holdings allocation_symbols ledger in
      elim (Result-cases checked.1) [
        | inl (found, e) ↦
            let (more, all_found, positions, mode) =
              check_idle_cash-keeps config view holdings found _ (rw (e, run_holdings) at h) in
            let (none_found, _) = append-nil found more all_found in
            let (clean, same) =
              check_symbols-IsClean config view.open_ids holdings allocation_symbols ledger
                (ap (λ (r : Result (List (Symbol × List Issue))). (checked.0, r)) e) none_found in
            let kept = with_problem_none found checked.0 none_found ∙ sym same in
            (
              clean,
              positions ∙ ap (λ (l : Ledger). l.position_table) kept,
              mode ∙ ap (λ (l : Ledger). l.portfolio_safe_mode) kept,
            )
        | inr (error, e) ↦ absurd (failed≢ok (ap result_of (rw (e, run_holdings) at h)))
      ]

  -- A run that reports nothing was answered, found what the database has of every allocation symbol
  -- to agree with the broker, and left the positions and the portfolio's safe mode as they were.
  pub run-IsClean :
      {after : Ledger}
      → run config view ledger ≡ (after, Result.ok [])
      → (holdings : List Holding) × (view.holdings ≡ some holdings)
        × All (λ symbol. IsClean config view.open_ids holdings symbol ledger) allocation_symbols
        × (after.position_table ≡ ledger.position_table)
        × (after.portfolio_safe_mode ≡ ledger.portfolio_safe_mode)
  unfolding run
  run-IsClean h = elim (Option-cases view.holdings) [
    | inl e ↦ absurd (failed≢ok (ap result_of (rw (e, run) at h)))
    | inr (holdings, e) ↦
        let (clean, positions, mode) = run_holdings-IsClean holdings (rw (e, run) at h) in
        (holdings, e, clean, positions, mode)
  ]

  run_holdings-reported :
      (holdings : List Holding) {after : Ledger} {reported : List (Symbol × List Issue)}
      → run_holdings config view holdings ledger ≡ (after, Result.ok reported)
      → reported ≢ []
      → (after.portfolio_safe_mode ≡ true) ⊎ (after.idle_cash_safe_mode ≡ true)
  unfolding run_holdings
  run_holdings-reported holdings h some_reported =
      let checked = check_symbols config view.open_ids holdings allocation_symbols ledger in
      elim (Result-cases checked.1) [
        | inl (found, e) ↦
            check_idle_cash-reported config view holdings found checked.0
              (rw (e, run_holdings) at h) some_reported
        | inr (error, e) ↦ absurd (failed≢ok (ap result_of (rw (e, run_holdings) at h)))
      ]

  -- A run that reports something leaves a safe mode on: the portfolio's, or that of the idle cash.
  pub run-reported :
      {after : Ledger} {reported : List (Symbol × List Issue)}
      → run config view ledger ≡ (after, Result.ok reported)
      → reported ≢ []
      → (after.portfolio_safe_mode ≡ true) ⊎ (after.idle_cash_safe_mode ≡ true)
  unfolding run
  run-reported h some_reported = elim (Option-cases view.holdings) [
    | inl e ↦ absurd (failed≢ok (ap result_of (rw (e, run) at h)))
    | inr (holdings, e) ↦ run_holdings-reported holdings (rw (e, run) at h) some_reported
  ]
