-- ===== src/Account/Tests.antt =====
-- The reservation of a buy on a sample account.
use jd_holdings.Prelude.{
  ◌+◌, ◌*◌, ◌≤◌, ◌≡◌, refl, ℤ, pos, ◌-ℤ◌, true, [], ◌∷◌, none, some, one, arith,
}
use jd_holdings.Model.Samples.{sample_config}
use jd_holdings.Model.Enums.{Symbol}
use jd_holdings.Repository.Errors.{Result}
use jd_holdings.Repository.Orders.{reserve_order, get_order_by_client_id}
use jd_holdings.Repository.Tables.{get_core_position}
use jd_holdings.Account.{
  cash_step, raw_managed_cash, cash_after, managed_cost_basis, reserved_open_buy, open_buy_amount,
  committed_core_buy_quantity, core_target, remaining_target, core_target_check, least_of,
  reserve_buy_order_with_managed_cash, available_managed_cash,
}
use jd_holdings.Core.Allocation.{hwm_risk_budget}
use jd_holdings.Account.HighWater.{record_v322_equity-le}
use jd_holdings.Account.{record_v322_equity}
use jd_holdings.Repository.Tables.{Database}
use jd_holdings.Account.Ceiling.{IsCovered, reserve_buy_order-IsCovered, reserve_buy_order-target}
use jd_holdings.Account.Samples.{sample_policy, sample_db, qqq_row, qqq_request, reserved_db}

abbrev broker_cash : ℤ
broker_cash = pos (60_000 * (one * one))

reserves :
    reserve_buy_order_with_managed_cash sample_config sample_policy broker_cash qqq_request
      (410 * one)
      none
      sample_db
    ≡ Result.ok (true, reserved_db)
unfolding reserve_buy_order_with_managed_cash raw_managed_cash cash_after managed_cost_basis
    reserved_open_buy core_target_check remaining_target core_target committed_core_buy_quantity
    least_of ◌-ℤ◌ reserve_order get_order_by_client_id get_core_position
reserves = refl

-- What is left of the capital after the reservation, at 410 dollars a share and 8,000 invested.
available :
    available_managed_cash sample_config sample_policy broker_cash 0 reserved_db
    ≡ Result.ok (29_700 * (one * one))
unfolding available_managed_cash raw_managed_cash cash_after managed_cost_basis reserved_open_buy
    open_buy_amount least_of ◌-ℤ◌ cash_step
available = refl

found : get_core_position Symbol.qqq sample_db.core_positions ≡ some qqq_row
unfolding get_core_position
found = refl

reserve_buy_order-IsCovered_example : IsCovered sample_config sample_policy reserved_db
reserve_buy_order-IsCovered_example =
    reserve_buy_order-IsCovered sample_config sample_policy broker_cash qqq_request (410 * one) none
      sample_db (omega arith) reserves

reserve_buy_order-target_example :
    20 + committed_core_buy_quantity [] Symbol.qqq reserved_db.orders
    ≤ core_target sample_config (50_000 * one * one) (410 * one) qqq_row
reserve_buy_order-target_example =
    reserve_buy_order-target sample_config sample_policy broker_cash qqq_request (410 * one) none
      sample_db qqq_row refl (omega arith) found reserves

abbrev recorded_db : Database
recorded_db = record {
  orders = [];
  positions = [];
  core_positions = qqq_row ∷ [];
  core_fill_progress = [];
  idle_cash_state = [];
  high_water = some (60_000 * one);
  risk_budget = some (57_500 * one * one);
}

records : record_v322_equity sample_policy (pos (60_000 * one)) sample_db ≡ Result.ok recorded_db
unfolding record_v322_equity hwm_risk_budget
records = refl

record_v322_equity-le_example :
    (50_000 * one ≤ 60_000 * one)
    × (60_000 * one ≤ 60_000 * one)
    × (50_000 * one ≤ 60_000 * one)
    × (57_500 * one * one ≤ 60_000 * one * one)
    × (recorded_db.orders ≡ sample_db.orders)
record_v322_equity-le_example =
    record_v322_equity-le sample_policy (pos (60_000 * one)) sample_db (omega arith) records
