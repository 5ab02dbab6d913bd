-- ===== src/Core/TwinCore.antt =====
-- core/twin_core.py: the whole shares that a share of the equity buys, fee included.
use jd_holdings.Prelude.{ℕ, ◌+◌, ◌*◌, ◌||◌, ◌==◌, if◌then◌else◌, one, floor_div}

-- `equity` is in 10^-36.
unfoldable pub target_quantity : ℕ → ℕ → ℕ → ℕ → ℕ
target_quantity equity target_weight price fee =
    if equity == 0 || (target_weight == 0 || price == 0)
    then 0
    else floor_div (equity * target_weight) (one * (price * (one + fee)))
