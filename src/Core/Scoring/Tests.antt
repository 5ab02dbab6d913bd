-- ===== src/Core/Scoring/Tests.antt =====
-- The score and the regime of a sample day.
use jd_holdings.Prelude.{◌≡◌, refl, some}
use jd_holdings.Model.Enums.{MarketRegime}
use jd_holdings.Model.Snapshot.{ScoreResult}
use jd_holdings.Model.Samples.{sample_config, sample_snapshot}
use jd_holdings.Core.Scoring.{calculate_score, evaluate_regime}

abbrev scored : ScoreResult
scored = calculate_score (λ component raw. raw) sample_snapshot MarketRegime.green sample_config

is_green : evaluate_regime sample_snapshot sample_snapshot ≡ some MarketRegime.green
unfolding evaluate_regime
is_green = refl
