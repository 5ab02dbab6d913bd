-- ===== src/OrderManager/Validation.antt =====
-- What a receipt that passes `_validate_receipt` says of the order that was reserved.
use jd_holdings.Prelude.{
  ℕ, ◌<◌, ◌≤◌, ◌≡◌, ◌==◌, refl, ap, ◌∙◌, ◌⊎◌, Bool, true, false, not, ◌&&◌, ◌||◌, ltb_ℤ, ℤ, pos,
  pos_part, Option, none, some, arith, Bool-cases, inl, inr, ==_iff,
}
use jd_holdings.Model.Enums.{Symbol, Side, same_symbol, same_symbol→eq, is_listed}
use jd_holdings.Model.Snapshot.{OrderReceipt}
use jd_holdings.OrderManager.{
  agrees, same_side, same_number, is_some, is_positive_price, validate_receipt,
}

-- What is reported, where it is, is this value.
pub Reports {ℓ} : {A : Type ℓ} → A → Option A → Type ℓ
Reports a reported = (reported ≡ none) ⊎ (reported ≡ some a)

-- The receipt names the order, its broker's id and a known status; its quantity is that of the order,
-- its fill is part of it, at a positive price; and nothing that the broker's answer says beside that
-- is of another order, symbol, side or quantity.
pub record IsReceiptOf (r : OrderReceipt) (id : ℕ) (symbol : Symbol) (side : Side) (qty : ℕ)
    : Type 0 where
  pub client_order_id : r.client_order_id ≡ id
  pub broker_order_id : (broker_id : ℕ) × (r.broker_order_id ≡ some broker_id)
  pub status : is_listed r.status ≡ true
  pub quantity : r.quantity ≡ pos qty
  pub filled : (filled : ℕ) × (r.filled_quantity ≡ pos filled) × (filled ≤ qty)
  pub paid :
      (r.filled_quantity ≡ pos 0)
      ⊎ ((price : ℕ) × (r.average_fill_price ≡ some price) × (0 < price))
  pub raw_id : Reports id r.raw.client_order_id
  pub raw_symbol : Reports symbol r.raw.symbol
  pub raw_side : Reports side r.raw.side
  pub raw_quantity : Reports qty r.raw.quantity

and-split : (a b : Bool) → (a && b) ≡ true → (a ≡ true) × (b ≡ true)
and-split true b h = (refl, h)
and-split false b h = cc

agrees-Reports {ℓ} :
    {A : Type ℓ} (p : A → Bool) (a : A) (o : Option A)
    → ((x : A) → p x ≡ true → x ≡ a)
    → agrees p o ≡ true
    → Reports a o
unfolding Reports
agrees-Reports p a none f h = inl refl
agrees-Reports p a (some x) f h = inr (ap some (f x h))

same_side→eq : (x y : Side) → same_side x y ≡ true → x ≡ y
same_side→eq Side.buy Side.buy h = refl
same_side→eq Side.sell Side.sell h = refl
same_side→eq Side.buy Side.sell h = cc
same_side→eq Side.sell Side.buy h = cc

is_some-some : (o : Option ℕ) → is_some o ≡ true → (x : ℕ) × (o ≡ some x)
is_some-some none h = cc
is_some-some (some x) h = (x, refl)

positive : (o : Option ℕ) → is_positive_price o ≡ true → (x : ℕ) × (o ≡ some x) × (0 < x)
positive none h = cc
positive (some x) h = (x, refl, ground (arith, h))

paid_for :
    (filled : ℤ) (n : ℕ) (price : Option ℕ)
    → filled ≡ pos n
    → (not (ltb_ℤ (pos 0) filled) || is_positive_price price) ≡ true
    → (filled ≡ pos 0) ⊎ ((p : ℕ) × (price ≡ some p) × (0 < p))
paid_for filled n price e h = elim (Bool-cases (is_positive_price price)) [
  | inl p ↦ inr (positive price p)
  | inr p ↦ let zero : n ≡ 0 = ground (arith, rw e at h, p) in inl (e ∙ ap pos zero)
]

pub validate_receipt-IsReceiptOf :
    (r : OrderReceipt) (id : ℕ) (symbol : Symbol) (side : Side) (quantity : ℕ)
    → validate_receipt r id symbol side quantity ≡ true
    → IsReceiptOf r id symbol side quantity
unfolding validate_receipt
validate_receipt-IsReceiptOf r id symbol side quantity h =
    let (own, h1) = and-split (r.client_order_id == id) _ h in
    let (known, h2) = and-split (is_some r.broker_order_id) _ h1 in
    let (listed, h3) = and-split (is_listed r.status) _ h2 in
    let (all, h4) = and-split (same_number r.quantity (pos quantity)) _ h3 in
    let (low, h5) = and-split (not (ltb_ℤ r.filled_quantity (pos 0))) _ h4 in
    let (high, h6) = and-split (not (ltb_ℤ (pos quantity) r.filled_quantity)) _ h5 in
    let (price, h7) =
      and-split (not (ltb_ℤ (pos 0) r.filled_quantity) || is_positive_price r.average_fill_price) _
        h6 in
    let (raw_id, h8) = and-split (agrees (λ n. n == id) r.raw.client_order_id) _ h7 in
    let (raw_symbol, h9) = and-split (agrees (λ s. same_symbol s symbol) r.raw.symbol) _ h8 in
    let (raw_side, raw_quantity) = and-split (agrees (λ s. same_side s side) r.raw.side) _ h9 in
    let n = pos_part r.filled_quantity in
    let filled : r.filled_quantity ≡ pos n = ground (arith, low) in
    record {
      client_order_id = (==_iff _ _).0 own;
      broker_order_id = is_some-some r.broker_order_id known;
      status = listed;
      quantity = ground (arith, all);
      filled = (n, filled, ground (arith, high));
      paid = paid_for r.filled_quantity n r.average_fill_price filled price;
      raw_id = agrees-Reports (λ n. n == id) id r.raw.client_order_id (λ x. (==_iff x id).0) raw_id;
      raw_symbol =
          agrees-Reports (λ s. same_symbol s symbol) symbol r.raw.symbol
            (λ x. same_symbol→eq x symbol) raw_symbol;
      raw_side =
          agrees-Reports (λ s. same_side s side) side r.raw.side (λ x. same_side→eq x side)
            raw_side;
      raw_quantity =
          agrees-Reports (λ n. n == quantity) quantity r.raw.quantity (λ x. (==_iff x quantity).0)
            raw_quantity;
    }
