-- ===== src/PositionManager/Bought.antt =====
-- The change that apply_buy_fill makes, and what it stores.
use mathlib.Core.Path.{subst}
use jd_holdings.Prelude.{ℕ, ◌+◌, ◌≡◌, refl, sym, ap, not, Option, some, cent, true_of_not, inl, inr}
use jd_holdings.Model.Enums.{same_state, same_state→eq}
use jd_holdings.Model.Snapshot.{PositionSnapshot}
use jd_holdings.Core.TakeProfit.{calculate_take_profit}
use jd_holdings.Core.TakeProfit.Bounds.{calculate_take_profit-quantities}
use jd_holdings.Repository.Signals.{get_signal}
use jd_holdings.Model.Config.{StrategyConfig}
use jd_holdings.Repository.Errors.{
  Error, Result, require, Result-cases, then-eq-ok, unless-eq-ok, require-eq-ok, ok-injective,
  failed≢ok,
}
use jd_holdings.Repository.Orders.{OrderRow, mark_order_applied}
use jd_holdings.Repository.Positions.{PositionTable, get_position, moved_row, transition_position}
use jd_holdings.Repository.Positions.Lock.{transition_position-moves}
use jd_holdings.Repository.Plans.{TpPlanRow, create_tp_plan, active_tp_plan}
use jd_holdings.PositionManager.Book.{Decimals, Book}
use jd_holdings.PositionManager.Buying.{
  BuyChange, stage_of, waiting_fill, holding, new_average, buy_change, apply_new_buy, store_buy,
}

-- How a change that a fill makes relates to its order and to the position before.
pub record IsBought (order : OrderRow) (position : PositionSnapshot) (change : BuyChange)
    : Type 0 where
  pub symbol : change.plan.symbol ≡ order.symbol
  pub state : change.expected ≡ position.state
  pub version : change.version ≡ position.version
  pub quantity : (change.updates position).quantity ≡ position.quantity + order.filled_qty
  pub legs :
      change.plan.tp1_target_qty + change.plan.tp2_target_qty ≡ position.quantity + order.filled_qty

module _ (decimals : Decimals) (config : StrategyConfig) (new_cycle atr_pct id : ℕ)
    (order : OrderRow) (book : Book) where
  pub buy_change-IsBought :
      (fill_price : ℕ) {change : BuyChange}
      → buy_change decimals config new_cycle atr_pct order fill_price book ≡ Result.ok change
      → (position : PositionSnapshot) × (get_position order.symbol book.position_table.positions
          ≡ some position)
        × IsBought order position change
  unfolding buy_change
  buy_change-IsBought fill_price {change} h =
      let (signal_id, _, h1) = then-eq-ok (require Error.bad_value order.signal_id) _ h in
      let (signal, _, h2) = then-eq-ok (get_signal signal_id book.signals) _ h1 in
      let (position, p, h3) =
        then-eq-ok
          (require Error.missing_key (get_position order.symbol book.position_table.positions)) _
          h2 in
      let stage = stage_of signal.target_stage in
      let (expected, _, h4) =
        then-eq-ok (require Error.missing_key (waiting_fill signal.action stage)) _ h3 in
      let (target, _, h5) =
        then-eq-ok (require Error.missing_key (holding signal.action stage)) _ h4 in
      let (state, h6) = unless-eq-ok (not (same_state position.state expected)) _ _ h5 in
      let quantity = position.quantity + order.filled_qty in
      let average = new_average decimals position fill_price order.filled_qty in
      let (tp, t, h7) =
        then-eq-ok
          (require Error.bad_value
            (calculate_take_profit average quantity atr_pct config.take_profit cent))
          _ h6 in
      let legs =
        calculate_take_profit-quantities average quantity atr_pct config.take_profit cent
          (require-eq-ok _ _ t) in
      let same = same_state→eq position.state expected (true_of_not _ state) in
      let e = ok-injective h7 in
      (
        position,
        require-eq-ok _ _ p,
        subst (IsBought order position) e (record {
          symbol = refl;
          state = sym same;
          version = refl;
          quantity = refl;
          legs = legs.1;
        }),
      )

  -- What a change stores.
  unfoldable pub stored : BuyChange → PositionTable → Book
  stored change table = record book {
    tp_plans = create_tp_plan change.plan book.tp_plans;
    position_table = table;
    orders = (mark_order_applied id book.orders).1;
  }

  pub store_buy-stored :
      {position : PositionSnapshot} (change : BuyChange)
      → get_position order.symbol book.position_table.positions ≡ some position
      → IsBought order position change
      → (table : PositionTable) × (get_position order.symbol table.positions
          ≡ some (moved_row change.updates change.target position))
        × (store_buy id change book ≡ (
          stored change table,
          Result.ok (active_tp_plan order.symbol (create_tp_plan change.plan book.tp_plans)),
        ))
  unfolding store_buy stored
  store_buy-stored {position} change found b =
      let (after, moves, there) =
        transition_position-moves order.symbol change.target change.updates book.position_table
          position found in
      let moves' : transition_position change.plan.symbol change.expected change.target
            change.updates (some change.version) book.position_table
          ≡ Result.ok after =
        rw (b.symbol, b.state, b.version) moves in
      (after, there, rw (moves', store_buy, b.symbol) refl)

  -- The fill of an order that is not applied yet is stored, or leaves the book as it is.
  pub apply_new_buy-cases :
      {after : Book} {result : Option TpPlanRow} (price : ℕ)
      → order.average_fill_price ≡ some price
      → apply_new_buy decimals config new_cycle atr_pct id order book ≡ (after, Result.ok result)
      → (position : PositionSnapshot) × (change : BuyChange) × (table : PositionTable)
        × (get_position order.symbol book.position_table.positions ≡ some position)
        × IsBought order position change
        × (get_position order.symbol table.positions
            ≡ some (moved_row change.updates change.target position))
        × (after ≡ stored change table)
        × (result ≡ active_tp_plan order.symbol (create_tp_plan change.plan book.tp_plans))
  unfolding apply_new_buy
  apply_new_buy-cases {after} {result} price e h =
      elim (Result-cases (buy_change decimals config new_cycle atr_pct order price book)) [
        | inl (change, c) ↦
            let (position, found, bought) = buy_change-IsBought price c in
            let (table, there, same) = store_buy-stored change found bought in
            let all = sym (rw (e, c, apply_new_buy, same) at h) in
            (
              position,
              change,
              table,
              found,
              bought,
              there,
              ap (λ (q : Book × Result (Option TpPlanRow)). q.0) all,
              ok-injective (ap (λ (q : Book × Result (Option TpPlanRow)). q.1) all),
            )
        | inr (error, c) ↦ absurd (
            failed≢ok
              (ap (λ (q : Book × Result (Option TpPlanRow)). q.1) (rw (e, c, apply_new_buy) at h)))
      ]
