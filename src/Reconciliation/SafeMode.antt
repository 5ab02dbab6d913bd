-- ===== src/Reconciliation/SafeMode.antt =====
-- What ReconciliationService.run leaves: safe modes where something is reported, and every
-- allocation symbol agreed where nothing is.
use mathlib.Core.Bool.{true≢false}
use mathlib.Core.List.{cons≢nil}
use jd_holdings.Prelude.{
  ℕ, ◌≡◌, refl, sym, ap, ◌∙◌, ◌≢◌, ◌⊎◌, true, false, Option, some, List, [], ◌∷◌, is_empty,
  Bool-cases, inl, inr,
}
use jd_holdings.Model.Enums.{Symbol, PositionState, same_state, same_state→eq}
use jd_holdings.Model.Snapshot.{PositionSnapshot}
use jd_holdings.Model.Config.{StrategyConfig}
use jd_holdings.Repository.Errors.{Error, Result, require, then-eq-ok, require-eq-ok, ok-injective}
use jd_holdings.Repository.Positions.{get_position, moved_row}
use jd_holdings.Repository.Positions.Lock.{transition_position-moves}
use jd_holdings.Reconciliation.Issues.{Holding, Ledger, Issue, Local, is_in, symbol_issues}
use jd_holdings.Reconciliation.Agreement.{IsAgreed, symbol_issues_iff}
use jd_holdings.Reconciliation.Run.{local_of, enter_safe_mode, check_symbol}

-- A booster symbol that enters safe mode has its position there.
pub enter_safe_mode-state :
    (config : StrategyConfig) (symbol : Symbol) (ledger : Ledger) {after : Ledger}
    → is_in symbol config.enabled_symbols ≡ true
    → enter_safe_mode config symbol ledger ≡ Result.ok after
    → (position : PositionSnapshot) × (get_position symbol after.position_table.positions
        ≡ some position)
      × (position.state ≡ PositionState.safe_mode)
unfolding enter_safe_mode
enter_safe_mode-state config symbol ledger enabled h =
    let (position, p, h1) =
      then-eq-ok (require Error.missing_key (get_position symbol ledger.position_table.positions)) _
        (rw enabled at h) in
    let found = require-eq-ok _ _ p in
    elim (Bool-cases (same_state position.state PositionState.safe_mode)) [
      | inl e ↦
          let same = ok-injective (rw e at h1) in
          (position, rw (← same) found, same_state→eq position.state PositionState.safe_mode e)
      | inr e ↦
          let (table, moves, there) =
            transition_position-moves symbol PositionState.safe_mode (λ row. row)
              ledger.position_table position found in
          let stored = ok-injective (rw (e, moves) at h1) in
          (
            moved_row (λ row. row) PositionState.safe_mode position,
            ap (λ (l : Ledger). get_position symbol l.position_table.positions) (sym stored)
                ∙ there,
            refl,
          )
    ]

is_empty-nil : (issues : List Issue) → is_empty issues ≡ true → issues ≡ []
is_empty-nil [] h = refl
is_empty-nil (x ∷ issues) h = cc

nonempty : (issues : List Issue) → is_empty issues ≡ false → issues ≢ []
nonempty [] h e = true≢false h
nonempty (x ∷ issues) h e = cons≢nil e

module _ (config : StrategyConfig) (open_ids : Symbol → Option (List (Option ℕ)))
    (holdings : List Holding) where
  pub check_symbol-cases :
      (symbol : Symbol) (ledger : Ledger) {issues : List Issue} {after : Ledger}
      → check_symbol config open_ids holdings symbol ledger ≡ Result.ok (issues, after)
      → (local : Local) × (local_of config symbol ledger ≡ Result.ok local)
        × (symbol_issues symbol local holdings (open_ids symbol) ≡ issues)
        × (((issues ≡ []) × (ledger ≡ after))
            ⊎ ((issues ≢ []) × (enter_safe_mode config symbol ledger ≡ Result.ok after)))
  unfolding check_symbol
  check_symbol-cases symbol ledger {issues} {after} h =
      let (local, l, h1) = then-eq-ok (local_of config symbol ledger) _ h in
      let found = symbol_issues symbol local holdings (open_ids symbol) in
      elim (Bool-cases (is_empty found)) [
        | inl e ↦
            let same = ok-injective (rw e at h1) in
            let found_is = ap (λ (q : List Issue × Ledger). q.0) same in
            (
              local,
              l,
              found_is,
              inl (sym found_is ∙ is_empty-nil found e, ap (λ (q : List Issue × Ledger). q.1) same),
            )
        | inr e ↦
            let (stored, s, h2) =
              then-eq-ok (enter_safe_mode config symbol ledger) _ (rw e at h1) in
            let same = ok-injective h2 in
            let found_is = ap (λ (q : List Issue × Ledger). q.0) same in
            (
              local,
              l,
              found_is,
              inr (
                λ none_found. nonempty found e (found_is ∙ none_found),
                s ∙ ap (λ (q : List Issue × Ledger). Result.ok q.1) same,
              ),
            )
      ]

  -- A symbol with a booster position that has an issue has its position in safe mode after it is
  -- checked.
  pub check_symbol-state :
      (symbol : Symbol) (ledger : Ledger) {issues : List Issue} {after : Ledger}
      → is_in symbol config.enabled_symbols ≡ true
      → check_symbol config open_ids holdings symbol ledger ≡ Result.ok (issues, after)
      → issues ≢ []
      → (position : PositionSnapshot) × (get_position symbol after.position_table.positions
          ≡ some position)
        × (position.state ≡ PositionState.safe_mode)
  check_symbol-state symbol ledger enabled h some_issue =
      let (_, _, _, cases) = check_symbol-cases symbol ledger h in
      elim cases [
        | inl (e, _) ↦ absurd (some_issue e)
        | inr (_, e) ↦ enter_safe_mode-state config symbol ledger enabled e
      ]

  -- What the database has of a symbol agrees with the broker.
  unfoldable pub IsClean : Symbol → Ledger → Type 0
  IsClean symbol ledger =
      (local : Local) × (local_of config symbol ledger ≡ Result.ok local)
      × IsAgreed symbol local holdings (open_ids symbol)

  -- The ledger after a check without issues, of which no position moves.
  pub check_symbol-IsClean :
      (symbol : Symbol) (ledger : Ledger) {issues : List Issue} {after : Ledger}
      → check_symbol config open_ids holdings symbol ledger ≡ Result.ok (issues, after)
      → issues ≡ []
      → IsClean symbol ledger × (ledger ≡ after)
  unfolding IsClean
  check_symbol-IsClean symbol ledger h none_found =
      let (local, l, found, cases) = check_symbol-cases symbol ledger h in
      let agreed = (symbol_issues_iff symbol local holdings (open_ids symbol)).0 in
      (
        (local, l, agreed (found ∙ none_found)),
        elim cases [ inl (_, same) ↦ same | inr (some_found, _) ↦ absurd (some_found none_found) ],
      )
