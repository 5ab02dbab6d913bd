-- ===== src/Repository/IdleCash/Tests.antt =====
-- Fills of SGOV orders: a buy of which part is applied, a sell, and a price that is corrected.
use jd_holdings.Prelude.{◌+◌, ◌*◌, ◌/◌, ◌≡◌, refl, true, false, none, some, [], ◌∷◌, one}
use jd_holdings.Model.Enums.{Symbol, Side, Purpose, OrderStatus}
use jd_holdings.Model.Snapshot.{IdleCashState}
use jd_holdings.Repository.Errors.{Result}
use jd_holdings.Repository.Orders.{OrderRow, get_order_by_client_id, set_row, applied_row}
use jd_holdings.Repository.Tables.{progress_of}
use jd_holdings.Repository.CoreFill.{cumulative_notional, upsert_progress}
use jd_holdings.Repository.IdleCash.{
  IdleCash, find_state, filled_state, set_state, new_states, apply_idle_cash_fill,
}
use jd_holdings.Repository.IdleCash.Laws.{
  apply_idle_cash_fill-buy, apply_idle_cash_fill-sell, apply_idle_cash_fill-correction,
}

abbrev state : IdleCashState
state = record {
  symbol = Symbol.sgov;
  managed_quantity = 10;
  average_price = 100 * one;
  version = 2;
}

abbrev buy : OrderRow
buy = record {
  client_order_id = 7;
  broker_order_id = some 70;
  signal_id = none;
  cycle_id = none;
  symbol = Symbol.sgov;
  side = Side.buy;
  is_limit = true;
  price = some (101 * one);
  qty = 10;
  filled_qty = 6;
  average_fill_price = some (101 * one);
  status = OrderStatus.partial_filled;
  purpose = Purpose.sgov_buy;
  applied = false;
}

abbrev sell : OrderRow
sell = record buy { side = Side.sell; purpose = Purpose.sgov_sell; status = OrderStatus.canceled }

-- Two of the shares are applied, at 101 each.
abbrev book_of : OrderRow → IdleCash
book_of order = record {
  orders = order ∷ [];
  states = state ∷ [];
  fill_progress =
      record { client_order_id = 7; applied_filled_qty = 2; applied_notional = 202 * one } ∷ [];
}

abbrev bought : IdleCash
bought = record {
  orders = buy ∷ [];
  states =
      record state { managed_quantity = 14; average_price = 1_404 * one / 14; version = 3 } ∷ [];
  fill_progress =
      record { client_order_id = 7; applied_filled_qty = 6; applied_notional = 606 * one } ∷ [];
}

abbrev sold : IdleCash
sold = record {
  orders = applied_row sell ∷ [];
  states = record state { managed_quantity = 6; version = 3 } ∷ [];
  fill_progress =
      record { client_order_id = 7; applied_filled_qty = 6; applied_notional = 606 * one } ∷ [];
}

-- The order with its six shares at 102, after they were applied at 101.
abbrev corrected : OrderRow
corrected = record buy { average_fill_price = some (102 * one) }

abbrev before_correction : IdleCash
before_correction = record bought { orders = corrected ∷ [] }

abbrev after_correction : IdleCash
after_correction = record before_correction {
  fill_progress =
      record { client_order_id = 7; applied_filled_qty = 6; applied_notional = 612 * one } ∷ [];
}

found : get_order_by_client_id 7 (buy ∷ []) ≡ some buy
unfolding get_order_by_client_id
found = refl

found_sell : get_order_by_client_id 7 (sell ∷ []) ≡ some sell
unfolding get_order_by_client_id
found_sell = refl

found_corrected : get_order_by_client_id 7 (corrected ∷ []) ≡ some corrected
unfolding get_order_by_client_id
found_corrected = refl

there : find_state Symbol.sgov (state ∷ []) ≡ some state
unfolding find_state
there = refl

there_bought :
    find_state Symbol.sgov bought.states
    ≡ some (record state { managed_quantity = 14; average_price = 1_404 * one / 14; version = 3 })
unfolding find_state
there_bought = refl

buys : apply_idle_cash_fill (λ a b. a / b) 7 (book_of buy) ≡ Result.ok bought
unfolding apply_idle_cash_fill new_states filled_state set_state find_state get_order_by_client_id
    progress_of upsert_progress set_row
buys = refl

sells : apply_idle_cash_fill (λ a b. a / b) 7 (book_of sell) ≡ Result.ok sold
unfolding apply_idle_cash_fill new_states filled_state set_state find_state get_order_by_client_id
    progress_of upsert_progress set_row
sells = refl

corrects : apply_idle_cash_fill (λ a b. a / b) 7 before_correction ≡ Result.ok after_correction
unfolding apply_idle_cash_fill new_states filled_state set_state find_state get_order_by_client_id
    progress_of upsert_progress set_row
corrects = refl

progress : (progress_of 7 bought.fill_progress).0 ≡ 6
unfolding progress_of
progress = refl

apply_idle_cash_fill-buy_example :
    (new : IdleCashState) × (find_state Symbol.sgov bought.states ≡ some new)
    × (new.managed_quantity + (progress_of 7 (book_of buy).fill_progress).0 ≡ 10 + 6)
    × ((progress_of 7 bought.fill_progress).0 ≡ 6)
apply_idle_cash_fill-buy_example =
    apply_idle_cash_fill-buy (λ a b. a / b) 7 (book_of buy) buy state found there refl buys

apply_idle_cash_fill-sell_example :
    (new : IdleCashState) × (find_state Symbol.sgov sold.states ≡ some new)
    × (new.managed_quantity + 6 ≡ 10 + (progress_of 7 (book_of sell).fill_progress).0)
    × ((progress_of 7 sold.fill_progress).0 ≡ 6)
apply_idle_cash_fill-sell_example =
    apply_idle_cash_fill-sell (λ a b. a / b) 7 (book_of sell) sell state found_sell there refl sells

apply_idle_cash_fill-correction_example :
    (after_correction.states ≡ before_correction.states)
    × ((progress_of 7 after_correction.fill_progress).1 ≡ cumulative_notional corrected)
apply_idle_cash_fill-correction_example =
    apply_idle_cash_fill-correction (λ a b. a / b) 7 before_correction corrected _ found_corrected
      there_bought progress refl corrects
