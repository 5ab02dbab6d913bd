-- ===== src/Core/Execution/Tests.antt =====
-- A limit price and an order quantity.
use jd_holdings.Prelude.{◌*◌, ◌≡◌, refl, some, one, cent, floor_div}
use jd_holdings.Model.Samples.{sample_config}
use jd_holdings.Core.Execution.{calculate_limit_price, floor_to_tick}

limits : calculate_limit_price (50 * one) (51 * one * one) sample_config cent ≡ some (50 * one)
unfolding calculate_limit_price floor_to_tick floor_div
limits = refl
