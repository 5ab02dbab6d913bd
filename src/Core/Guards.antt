-- ===== src/Core/Guards.antt =====
-- core/strategy.py, the guards on an entry and the conditions of a rebuy.
pub mod Laws
use jd_holdings.Prelude.{
  ℕ, ℤ, pos, ltb_ℤ, leb_ℤ, Bool, true, false, ◌&&◌, not, Option, none, some, List, [], ◌∷◌, all,
  any, is_empty, ◌==◌, if◌then◌else◌,
}
use jd_holdings.Model.Enums.{Symbol, same_symbol}
use jd_holdings.Model.Snapshot.{IndicatorSnapshot}
use jd_holdings.Model.Config.{
  StrategyConfig, SectorGuard, TrendGuard, Mode, RecoveryConfig, ReoversoldConfig,
}

-- A dictionary from symbols to snapshots.
abbrev pub Benchmarks : Type 0
Benchmarks = List (Symbol × IndicatorSnapshot)

abbrev pub find : Symbol → Benchmarks → Option IndicatorSnapshot
find name [] = none
find name ((key, snapshot) ∷ rest) = if same_symbol name key then some snapshot else find name rest

-- `[sector_benchmarks[name] for name in candidates if name in sector_benchmarks]`
unfoldable pub available : List Symbol → Benchmarks → List IndicatorSnapshot
available [] benchmarks = []
available (name ∷ names) benchmarks = elim (find name benchmarks) [
  | none ↦ available names benchmarks
  | some snapshot ↦ snapshot ∷ available names benchmarks
]

abbrev pub below_ema60 : IndicatorSnapshot → Bool
below_ema60 snapshot = ltb_ℤ (pos snapshot.close) snapshot.ema60

abbrev pub by_mode : {A : Type 0} → Mode → (A → Bool) → List A → Bool
by_mode Mode.any_of test items = any test items
by_mode Mode.all_of test items = all test items

-- The rule over the benchmarks that are at hand; without any, the stage is not blocked.
sector_is_weak : SectorGuard → Benchmarks → Bool
unfolding available
sector_is_weak guard benchmarks =
    let found = available guard.benchmark_candidates benchmarks in
    not (is_empty found) && by_mode guard.rule below_ema60 found

-- An absent dictionary and an empty one block nothing.
unfoldable pub soxl_sector_guard_blocks : Symbol → ℕ → Option Benchmarks → StrategyConfig → Bool
unfolding sector_is_weak
soxl_sector_guard_blocks symbol target_stage none config = false
soxl_sector_guard_blocks symbol target_stage (some benchmarks) config =
    let guard = config.market_regime.soxl_sector_guard in
    same_symbol symbol Symbol.soxl
    && (guard.enabled
        && (any (λ stage. target_stage == stage) guard.blocked_stages
            && sector_is_weak guard benchmarks))

unfoldable pub first_entry_trend_guard_blocks : IndicatorSnapshot → StrategyConfig → Bool
first_entry_trend_guard_blocks snapshot config =
    let guard = config.market_regime.first_entry_trend_guard in
    let ema_bearish = ltb_ℤ snapshot.ema20 snapshot.ema60 in
    guard.enabled
    && (any (same_symbol snapshot.symbol) guard.symbols
        && (if guard.ema_only then ema_bearish else below_ema60 snapshot && ema_bearish))

abbrev combine : Mode → List Bool → Bool
combine mode conditions = by_mode mode (λ b. b) conditions

unfoldable pub evaluate_rebuy_recovery : IndicatorSnapshot → RecoveryConfig → Bool
evaluate_rebuy_recovery snapshot values = combine values.mode (
    ltb_ℤ values.cci5_gt snapshot.cci5
    ∷ leb_ℤ values.rsi5_gte snapshot.rsi5
    ∷ (if values.close_above_ema5 then ltb_ℤ snapshot.ema5 (pos snapshot.close) else false)
    ∷ [])

unfoldable pub evaluate_reoversold : IndicatorSnapshot → ReoversoldConfig → Bool
evaluate_reoversold snapshot values = combine values.mode (
    leb_ℤ snapshot.cci5 values.cci5_lte
    ∷ leb_ℤ snapshot.rsi5 values.rsi5_lte
    ∷ (if values.close_below_lower_band
        then leb_ℤ (pos snapshot.close) snapshot.bb_lower
        else false)
    ∷ [])
