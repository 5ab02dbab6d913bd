-- ===== src/Repository/CoreFill/Tests.antt =====
-- A buy of 30 shares, of which the ledger has taken 10, and a sell of 5.
use jd_holdings.Prelude.{◌+◌, ◌*◌, ◌/◌, ◌≡◌, refl, some, [], ◌∷◌, one}
use jd_holdings.Model.Enums.{Symbol}
use jd_holdings.Repository.Errors.{Result}
use jd_holdings.Repository.Orders.{get_order_by_client_id}
use jd_holdings.Repository.Tables.{CoreRow, Database, get_core_position, progress_of}
use jd_holdings.Repository.CoreFill.{
  cumulative_notional, apply_core_fill, apply_new_fill, filled_row, set_core_position,
  upsert_progress, ledger_row, with_fill,
}
use jd_holdings.Repository.CoreFill.Laws.{apply_core_fill-buy, apply_core_fill-twice}
use jd_holdings.Repository.CoreFill.Samples.{bought, sold, row, db}

abbrev after_buy : Database
after_buy =
    with_fill db (ledger_row row 30 (400 * one) (12_000 * one) ∷ []) (
      record { client_order_id = 1; applied_filled_qty = 30; applied_notional = 12_000 * one } ∷ [])

abbrev after_sell : Database
after_sell = with_fill db (ledger_row row 5 (400 * one) (2_000 * one) ∷ []) (
    record { client_order_id = 1; applied_filled_qty = 10; applied_notional = 4_000 * one }
    ∷ record { client_order_id = 2; applied_filled_qty = 5; applied_notional = 2_000 * one }
    ∷ [])

bought_found : get_order_by_client_id 1 db.orders ≡ some bought
unfolding get_order_by_client_id
bought_found = refl

sold_found : get_order_by_client_id 2 db.orders ≡ some sold
unfolding get_order_by_client_id
sold_found = refl

row_found : get_core_position Symbol.qqq db.core_positions ≡ some row
unfolding get_core_position
row_found = refl

buys : apply_core_fill (λ a b. a / b) 1 db ≡ Result.ok after_buy
unfolding apply_core_fill apply_new_fill filled_row set_core_position upsert_progress
    get_order_by_client_id get_core_position progress_of
buys = refl

sells : apply_core_fill (λ a b. a / b) 2 db ≡ Result.ok after_sell
unfolding apply_core_fill apply_new_fill filled_row set_core_position upsert_progress
    get_order_by_client_id get_core_position progress_of
sells = refl

apply_core_fill-buy_example :
    (progress_of 1 after_buy.core_fill_progress ≡ (30, cumulative_notional bought))
    × ((later : CoreRow) × (get_core_position Symbol.qqq after_buy.core_positions ≡ some later)
        × ((later.qty + (progress_of 1 db.core_fill_progress).0 ≡ 10 + 30)
            × (later.cost_basis + (progress_of 1 db.core_fill_progress).1
                ≡ 4_000 * one + cumulative_notional bought)))
apply_core_fill-buy_example =
    apply_core_fill-buy (λ a b. a / b) 1 db bought row bought_found row_found refl buys

apply_core_fill-twice_example : apply_core_fill (λ a b. a / b) 1 after_buy ≡ Result.ok after_buy
apply_core_fill-twice_example =
    apply_core_fill-twice (λ a b. a / b) 1 db bought row bought_found row_found buys
