-- ===== src/Core/Guards/Laws.antt =====
-- When the sector guard blocks.
use jd_holdings.Prelude.{ℕ, ◌≡◌, ◌≢◌, true, Option, none, some, [], arith, refl}
use jd_holdings.Model.Enums.{Symbol, same_symbol→eq}
use jd_holdings.Model.Config.{StrategyConfig}
use jd_holdings.Core.Guards.{Benchmarks, available, soxl_sector_guard_blocks}

-- The guard blocks nothing but SOXL, and only where a benchmark is at hand.
pub soxl_sector_guard_blocks_only :
    (symbol : Symbol) (stage : ℕ) (benchmarks : Option Benchmarks) (config : StrategyConfig)
    → soxl_sector_guard_blocks symbol stage benchmarks config ≡ true
    → (symbol ≡ Symbol.soxl)
      × (config.market_regime.soxl_sector_guard.enabled ≡ true)
      × ((b : Benchmarks) × (benchmarks ≡ some b)
          × (available config.market_regime.soxl_sector_guard.benchmark_candidates b ≢ []))
unfolding soxl_sector_guard_blocks
soxl_sector_guard_blocks_only symbol stage none config h = cc
soxl_sector_guard_blocks_only symbol stage (some b) config h =
    (ground (arith, same_symbol→eq symbol Symbol.soxl), ground arith, (b, refl, ground arith))
