-- ===== src/PositionManager/Tests.antt =====
-- Fills of the sample book.
use jd_holdings.Prelude.{◌+◌, ◌*◌, ◌≡◌, ◌⊎◌, refl, some, [], ◌∷◌, one, ceil_div}
use jd_holdings.Model.Enums.{Symbol, PositionState}
use jd_holdings.Model.Snapshot.{PositionSnapshot}
use jd_holdings.Model.Samples.{sample_config}
use jd_holdings.Core.TakeProfit.{calculate_take_profit, ceil_to_tick}
use jd_holdings.Repository.Errors.{Result}
use jd_holdings.Repository.Orders.{get_order_by_client_id, mark_order_applied, applied_row, set_row}
use jd_holdings.Repository.Positions.{get_position, set_position, transition_position}
use jd_holdings.Repository.Plans.{
  TpPlanRow, active_plans, create_tp_plan, deactivate_symbol, set_plan,
}
use jd_holdings.Repository.Signals.{signal_of}
use jd_holdings.PositionManager.Book.{Book}
use jd_holdings.PositionManager.Buying.{
  entry_of, buy_change, store_buy, apply_new_buy, apply_buy_fill,
}
use jd_holdings.PositionManager.Selling.{
  sold, sell_change, store_sell, apply_new_sell, apply_sell_fill,
}
use jd_holdings.PositionManager.Balance.{Balances, IsBalanced, HoldsPlan}
use jd_holdings.PositionManager.Buys.{
  apply_buy_fill-IsBalanced, apply_buy_fill-holds, apply_buy_fill-once,
}
use jd_holdings.PositionManager.Samples.{
  sample_decimals, buy_order, waiting_book, held_position, sample_plan, held_book,
}

abbrev bought_position : PositionSnapshot
bought_position = record held_position {
  current_cost_basis = 500 * one;
  cycle_exposure_cap = 5_000 * one;
  staged_entry_capital = 500 * one;
  cash_remaining = 9_500 * one;
  entry_count = 1;
  anchor_price = 50 * one;
  last_entry_price = 50 * one;
  last_entry_date = some 739_000;
  version = 5;
}

abbrev bought_book : Book
bought_book = record waiting_book {
  orders = applied_row buy_order ∷ [];
  position_table = record {
    positions = bought_position ∷ [];
    state_history =
        record {
          cycle_id = some 9;
          symbol = Symbol.tqqq;
          previous_state = PositionState.waiting_1st_fill;
          new_state = PositionState.holding_1st;
        }
        ∷ [];
  };
  tp_plans = record { rows = sample_plan ∷ []; last_id = 1 };
}

buys :
    apply_buy_fill sample_decimals sample_config 9 0 7 waiting_book
    ≡ (bought_book, Result.ok (some sample_plan))
unfolding entry_of buy_change store_buy apply_new_buy apply_buy_fill calculate_take_profit
    ceil_to_tick ceil_div get_order_by_client_id mark_order_applied set_row get_position
    set_position transition_position active_plans create_tp_plan deactivate_symbol signal_of
buys = refl

buy_found : get_order_by_client_id 7 waiting_book.orders ≡ some buy_order
unfolding get_order_by_client_id
buy_found = refl

waiting-IsBalanced : IsBalanced Symbol.tqqq waiting_book
unfolding IsBalanced Balances get_position active_plans
waiting-IsBalanced = tt

apply_buy_fill-IsBalanced_example :
    let after = (apply_buy_fill sample_decimals sample_config 9 0 7 waiting_book).0 in
    IsBalanced Symbol.tqqq after × ((after ≡ waiting_book) ⊎ HoldsPlan Symbol.tqqq after)
apply_buy_fill-IsBalanced_example =
    apply_buy_fill-IsBalanced sample_decimals sample_config 9 0 7 buy_order waiting_book buy_found
      waiting-IsBalanced

apply_buy_fill-holds_example :
    (before : PositionSnapshot) × (held : PositionSnapshot) × (plan : TpPlanRow) × (get_position
        Symbol.tqqq waiting_book.position_table.positions
      ≡ some before)
    × (get_position Symbol.tqqq bought_book.position_table.positions ≡ some held)
    × (held.quantity ≡ before.quantity + 10)
    × (active_plans Symbol.tqqq bought_book.tp_plans.rows ≡ plan ∷ [])
    × (some sample_plan ≡ some plan)
    × (plan.tp1_filled_qty + plan.tp2_filled_qty ≡ 0)
    × (plan.tp1_target_qty + plan.tp2_target_qty ≡ held.quantity)
apply_buy_fill-holds_example =
    apply_buy_fill-holds sample_decimals sample_config 9 0 7 buy_order waiting_book (50 * one)
      buy_found refl refl refl buys

apply_buy_fill-once_example :
    apply_buy_fill sample_decimals sample_config 10 1 7 bought_book
    ≡ (bought_book, Result.ok (some sample_plan))
apply_buy_fill-once_example =
    apply_buy_fill-once sample_decimals sample_config 9 0 7 buy_order waiting_book (50 * one)
      sample_decimals 10 1 buy_found refl refl refl buys

-- Three shares of five are sold: the position has seven, and keeps its state and its plan.
sells :
    (apply_sell_fill sample_config 5 8 held_book).0.tp_plans.rows
    ≡ record sample_plan { tp1_filled_qty = 3 } ∷ []
unfolding sold sell_change store_sell apply_new_sell apply_sell_fill get_order_by_client_id
    get_position set_position transition_position active_plans set_plan
sells = refl
