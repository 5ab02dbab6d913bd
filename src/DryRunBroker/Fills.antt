-- ===== src/DryRunBroker/Fills.antt =====
-- Filling the orders of the dry-run broker keeps money and shares, order by order and in a row.
use jd_holdings.Prelude.{
  ℕ, ◌+◌, leb, ◌≡◌, refl, not, ◌&&◌, ℤ, pos_part, neg_part, Option, none, some, List, [], ◌∷◌,
  arith, Bool-cases, inl, inr,
}
use jd_holdings.Model.Enums.{Symbol, same_symbol}
use jd_holdings.Repository.Errors.{Result-cases}
use jd_holdings.DryRunBroker.Wallet.{DryOrder, Wallet, DryBroker, held, apply_fill, after_fill}
use jd_holdings.DryRunBroker.Orders.{
  is_pending, filled_order, fill_remaining_order, is_fillable, fill_at_limit, fill_open_order,
  fill_orders,
}
use jd_holdings.DryRunBroker.Conserved.{
  spent, received, bought, sold, Keeps, Keeps-same, apply_fill-Keeps,
}

module _ (divide : ℕ → ℕ → ℕ) (symbol : Symbol) where
  pub after_fill-Keeps :
      (order : DryOrder) (wallet : Wallet)
      → Keeps symbol order wallet
          (after_fill order wallet (apply_fill divide order wallet)).0.0
          (after_fill order wallet (apply_fill divide order wallet)).0.1
  after_fill-Keeps order wallet = elim (Result-cases (apply_fill divide order wallet)) [
    | inl ((later, after), e) ↦ rw e (apply_fill-Keeps divide symbol order wallet e)
    | inr (error, e) ↦ rw e (Keeps-same symbol order wallet)
  ]

  fill_remaining_order-Keeps :
      (price : ℕ) (order : DryOrder) (wallet : Wallet)
      → Keeps symbol order wallet
          (fill_remaining_order divide price order wallet).0.0
          (fill_remaining_order divide price order wallet).0.1
  unfolding fill_remaining_order filled_order
  fill_remaining_order-Keeps price order wallet =
      elim (Bool-cases (not (is_pending order.status))) [
        | inl e ↦ rw (e, fill_remaining_order) (Keeps-same symbol order wallet)
        | inr e ↦ elim (Bool-cases (leb order.quantity order.filled_quantity)) [
          | inl f ↦ rw (e, f, fill_remaining_order) (record { money = omega arith; shares = refl })
          | inr f ↦
              let kept = after_fill-Keeps (filled_order divide price order) wallet in
              rw (e, f, fill_remaining_order) (record { money = kept.money; shares = kept.shares })
        ]
      ]

  fill_at_limit-Keeps :
      (current : ℕ) (order : DryOrder) (wallet : Wallet) (limit : Option ℕ)
      → Keeps symbol order wallet
          (fill_at_limit divide current order wallet limit).0.0
          (fill_at_limit divide current order wallet limit).0.1
  unfolding fill_at_limit
  fill_at_limit-Keeps current order wallet none = Keeps-same symbol order wallet
  fill_at_limit-Keeps current order wallet (some limit) =
      elim (Bool-cases (is_fillable order.side current limit)) [
        | inl f ↦ rw f (fill_remaining_order-Keeps current order wallet)
        | inr f ↦ rw f (Keeps-same symbol order wallet)
      ]

  fill_open_order-Keeps :
      (filled : Symbol) (current : ℕ) (order : DryOrder) (wallet : Wallet)
      → Keeps symbol order wallet
          (fill_open_order divide filled current order wallet).0.0
          (fill_open_order divide filled current order wallet).0.1
  unfolding fill_open_order
  fill_open_order-Keeps filled current order wallet =
      elim (Bool-cases (not (same_symbol order.symbol filled && is_pending order.status))) [
        | inl e ↦ rw (e, fill_open_order) (Keeps-same symbol order wallet)
        | inr e ↦ rw (e, fill_open_order) (fill_at_limit-Keeps current order wallet order.price)
      ]

abbrev pub total : (DryOrder → ℕ) → List DryOrder → ℕ
total f [] = 0
total f (order ∷ orders) = f order + total f orders

-- The money and the shares of a symbol that a broker has, against those of its orders; `start` is
-- the buying power that it began with.
pub record IsConserved (symbol : Symbol) (start : ℤ) (broker : DryBroker) : Type 0 where
  pub money :
      pos_part broker.wallet.buying_power + neg_part start + total spent broker.orders
      ≡ neg_part broker.wallet.buying_power + pos_part start + total received broker.orders
  pub shares :
      (held symbol broker.wallet.holdings).0 + total (sold symbol) broker.orders
      ≡ total (bought symbol) broker.orders

-- The orders and the wallet change together.
pub record KeepsAll (symbol : Symbol) (orders : List DryOrder) (wallet : Wallet)
    (later : List DryOrder) (after : Wallet) : Type 0 where
  pub money :
      pos_part after.buying_power
        + neg_part wallet.buying_power
        + total spent later
        + total received orders
      ≡ neg_part after.buying_power
        + pos_part wallet.buying_power
        + total spent orders
        + total received later
  pub shares :
      (held symbol after.holdings).0 + total (sold symbol) later + total (bought symbol) orders
      ≡ (held symbol wallet.holdings).0 + total (sold symbol) orders + total (bought symbol) later

module _ (divide : ℕ → ℕ → ℕ) (symbol : Symbol) where
  pub fill_orders-KeepsAll :
      (filled : Symbol) (current : ℕ) (orders : List DryOrder) (wallet : Wallet)
      → KeepsAll symbol orders wallet
          (fill_orders divide filled current orders wallet).0.0
          (fill_orders divide filled current orders wallet).0.1
  unfolding fill_orders
  fill_orders-KeepsAll filled current [] wallet = record { money = omega arith; shares = refl }
  fill_orders-KeepsAll filled current (order ∷ orders) wallet =
      let step = fill_open_order divide filled current order wallet in
      let one = fill_open_order-Keeps divide symbol filled current order wallet in
      let rest = fill_orders-KeepsAll filled current orders step.0.1 in
      elim (Result-cases step.1) [
        | inl (t, e) ↦
            rw (e, fill_orders)
              (record {
                money = let m = one.money in let n = rest.money in omega (arith, m, n);
                shares = let m = one.shares in let n = rest.shares in omega (arith, m, n);
              })
        | inr (error, e) ↦
            rw (e, fill_orders)
              (record {
                money = let m = one.money in omega (arith, m);
                shares = let m = one.shares in omega (arith, m);
              })
      ]
