-- ===== src/PositionManager/Buys.antt =====
-- What apply_buy_fill does to a position and its plan.
use mathlib.Core.Path.{subst}
use jd_holdings.Prelude.{
  ℕ, ◌+◌, ◌==◌, ◌≡◌, refl, sym, ap, ◌∙◌, ◌⊎◌, false, Option, some, [], ◌∷◌, arith, Bool-cases,
  Option-cases, inl, inr,
}
use jd_holdings.Model.Snapshot.{PositionSnapshot}
use jd_holdings.Model.Config.{StrategyConfig}
use jd_holdings.Repository.Errors.{Result, Result-cases}
use jd_holdings.Repository.Orders.{
  OrderRow, get_order_by_client_id, mark_order_applied, applied_row,
}
use jd_holdings.Repository.Positions.{get_position, moved_row, transition_position}
use jd_holdings.Repository.Positions.Lock.{transition_position-moves}
use jd_holdings.Repository.Plans.{
  TpPlanRow, PlanRequest, active_plans, first_plan, create_tp_plan, new_plan,
}
use jd_holdings.Repository.Plans.Active.{create_tp_plan-active}
use jd_holdings.PositionManager.Balance.{IsBalanced, Holds, HoldsPlan, HoldsPlan-IsBalanced}
use jd_holdings.PositionManager.Book.{Decimals, Book}
use jd_holdings.PositionManager.Buying.{
  BuyChange, buy_change, apply_new_buy, store_buy, apply_buy_fill,
}
use jd_holdings.PositionManager.Bought.{IsBought, buy_change-IsBought, stored, apply_new_buy-cases}
use jd_holdings.Repository.Orders.Rows.{get-set_row-same}

module _ (decimals : Decimals) (config : StrategyConfig) (new_cycle atr_pct id : ℕ)
    (order : OrderRow) (book : Book) where
  created-active :
      (request : PlanRequest)
      → request.symbol ≡ order.symbol
      → active_plans order.symbol (create_tp_plan request book.tp_plans).rows
        ≡ new_plan (book.tp_plans.last_id + 1) request ∷ []
  created-active request e = rw (← e) (create_tp_plan-active request book.tp_plans)

  store_buy-HoldsPlan :
      {position : PositionSnapshot} (change : BuyChange)
      → get_position order.symbol book.position_table.positions ≡ some position
      → IsBought order position change
      → HoldsPlan order.symbol (store_buy id change book).0
  unfolding HoldsPlan Holds store_buy
  store_buy-HoldsPlan {position} change found b =
      let (after, moves, there) =
        transition_position-moves order.symbol change.target change.updates book.position_table
          position found in
      let moves' : transition_position change.plan.symbol change.expected change.target
            change.updates (some change.version) book.position_table
          ≡ Result.ok after =
        rw (b.symbol, b.state, b.version) moves in
      let plans = created-active change.plan b.symbol in
      rw (moves', store_buy, there, plans)
        (record {
          tp1 = omega arith;
          tp2 = omega arith;
          total = let q = b.quantity in let l = b.legs in omega (arith, q, l);
        })

  -- The book is as it was, or it holds a position with its plan.
  apply_new_buy-HoldsPlan :
      let after = (apply_new_buy decimals config new_cycle atr_pct id order book).0 in
      (after ≡ book) ⊎ HoldsPlan order.symbol after
  unfolding apply_new_buy
  apply_new_buy-HoldsPlan = elim (Option-cases order.average_fill_price) [
    | inl e ↦ rw (e, apply_new_buy) (inl refl)
    | inr (price, e) ↦
        elim (Result-cases (buy_change decimals config new_cycle atr_pct order price book)) [
          | inl (change, c) ↦
              let (position, found, bought) =
                buy_change-IsBought decimals config new_cycle atr_pct id order book price c in
              rw (e, c, apply_new_buy) (inr (store_buy-HoldsPlan change found bought))
          | inr (error, c) ↦ rw (e, c, apply_new_buy) (inl refl)
        ]
  ]

  apply_buy_fill-cases :
      get_order_by_client_id id book.orders ≡ some order
      → let after = (apply_buy_fill decimals config new_cycle atr_pct id book).0 in
        (after ≡ book) ⊎ HoldsPlan order.symbol after
  unfolding apply_buy_fill apply_new_buy buy_change
  apply_buy_fill-cases found = elim (Bool-cases order.applied) [
    | inl e ↦ rw (found, e, apply_buy_fill) (inl refl)
    | inr e ↦ elim (Bool-cases (order.filled_qty == 0)) [
      | inl f ↦ rw (found, e, f, apply_buy_fill) (inl refl)
      | inr f ↦ rw (found, e, f, apply_buy_fill) apply_new_buy-HoldsPlan
    ]
  ]

  -- On every path a buy fill leaves the book as it is, or it leaves the symbol of its order with a
  -- position and one active plan, whose two legs are what is held and what it has sold; and so the
  -- balance of the symbol is kept.
  pub apply_buy_fill-IsBalanced :
      get_order_by_client_id id book.orders ≡ some order
      → IsBalanced order.symbol book
      → let after = (apply_buy_fill decimals config new_cycle atr_pct id book).0 in
        IsBalanced order.symbol after × ((after ≡ book) ⊎ HoldsPlan order.symbol after)
  apply_buy_fill-IsBalanced found h = elim (apply_buy_fill-cases found) [
    | inl same ↦ (subst (IsBalanced order.symbol) (sym same) h, inl same)
    | inr holds ↦ (HoldsPlan-IsBalanced order.symbol _ holds, inr holds)
  ]

  mark_order_applied-found :
      get_order_by_client_id id book.orders ≡ some order
      → order.applied ≡ false
      → get_order_by_client_id id (mark_order_applied id book.orders).1 ≡ some (applied_row order)
  unfolding mark_order_applied
  mark_order_applied-found found new =
      rw (found, new, mark_order_applied)
        (get-set_row-same id applied_row book.orders (λ row. refl) found)

  apply_buy_fill-new :
      get_order_by_client_id id book.orders ≡ some order
      → order.applied ≡ false
      → (order.filled_qty == 0) ≡ false
      → apply_buy_fill decimals config new_cycle atr_pct id book
        ≡ apply_new_buy decimals config new_cycle atr_pct id order book
  unfolding apply_buy_fill apply_new_buy buy_change
  apply_buy_fill-new found new filled = rw (found, new, filled, apply_buy_fill) refl

  -- A fill with a price, of an order that is not applied yet, that returns: the position has the
  -- filled shares more, the plan that is returned is the only active one of the symbol, and its two
  -- legs, of which nothing is sold, sell the whole position.
  pub apply_buy_fill-holds :
      {after : Book} {result : Option TpPlanRow} (price : ℕ)
      → get_order_by_client_id id book.orders ≡ some order
      → order.applied ≡ false
      → (order.filled_qty == 0) ≡ false
      → order.average_fill_price ≡ some price
      → apply_buy_fill decimals config new_cycle atr_pct id book ≡ (after, Result.ok result)
      → (before : PositionSnapshot) × (held : PositionSnapshot) × (plan : TpPlanRow) × (get_position
            order.symbol book.position_table.positions
          ≡ some before)
        × (get_position order.symbol after.position_table.positions ≡ some held)
        × (held.quantity ≡ before.quantity + order.filled_qty)
        × (active_plans order.symbol after.tp_plans.rows ≡ plan ∷ [])
        × (result ≡ some plan)
        × (plan.tp1_filled_qty + plan.tp2_filled_qty ≡ 0)
        × (plan.tp1_target_qty + plan.tp2_target_qty ≡ held.quantity)
  unfolding stored
  apply_buy_fill-holds price found new filled e h =
      let (before, change, table, was, b, there, stored, returned) =
        apply_new_buy-cases decimals config new_cycle atr_pct id order book price e
          (rw (apply_buy_fill-new found new filled) at h) in
      let plans = created-active change.plan b.symbol in
      let total = b.quantity in
      let legs = b.legs in
      (
        before,
        moved_row change.updates change.target before,
        new_plan (book.tp_plans.last_id + 1) change.plan,
        was,
        ap (λ (q : Book). get_position order.symbol q.position_table.positions) stored ∙ there,
        total,
        ap (λ (q : Book). active_plans order.symbol q.tp_plans.rows) stored ∙ plans,
        returned ∙ ap first_plan plans,
        refl,
        legs ∙ sym total,
      )

  -- Once a fill with a price has been applied, applying it again, whatever it is called with,
  -- returns the same plan and changes nothing.
  pub apply_buy_fill-once :
      {after : Book} {result : Option TpPlanRow} (price : ℕ) (other : Decimals)
      (other_cycle other_atr : ℕ)
      → get_order_by_client_id id book.orders ≡ some order
      → order.applied ≡ false
      → (order.filled_qty == 0) ≡ false
      → order.average_fill_price ≡ some price
      → apply_buy_fill decimals config new_cycle atr_pct id book ≡ (after, Result.ok result)
      → apply_buy_fill other config other_cycle other_atr id after ≡ (after, Result.ok result)
  unfolding stored apply_buy_fill
  apply_buy_fill-once {after} {result} price other other_cycle other_atr found new filled e h =
      let (before, change, table, was, b, there, stored, returned) =
        apply_new_buy-cases decimals config new_cycle atr_pct id order book price e
          (rw (apply_buy_fill-new found new filled) at h) in
      let marked : get_order_by_client_id id after.orders ≡ some (applied_row order) =
        rw stored (mark_order_applied-found found new) in
      rw (marked, apply_buy_fill, returned, stored) refl
