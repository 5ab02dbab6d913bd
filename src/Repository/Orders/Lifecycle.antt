-- ===== src/Repository/Orders/Lifecycle.antt =====
-- The life of an order in the table: what the operations of one repository, in any sequence, keep.
use mathlib.Core.Path.{subst}
use mathlib.Core.Option.{some-injective}
use jd_holdings.Prelude.{
  ℕ, ◌≤◌, ◌≡◌, refl, sym, ◌∙◌, ◌⊎◌, inl, inr, Bool, true, false, Option, some, List, arith,
  Bool-cases, Option-cases, ==_iff, ◌==◌,
}
use jd_holdings.Model.Enums.{OrderStatus, is_terminal, same_status→eq}
use jd_holdings.Model.Snapshot.{OrderRequest}
use jd_holdings.Repository.Orders.{
  OrderRow, OrderUpdate, get_order_by_client_id, reserve_order, updated_row, applied_row, set_row,
  fill_conflicts, status_conflicts,
}
use jd_holdings.Repository.Orders.Rows.{
  KeepsId, get-set_row-same, get-set_row-other, get-append, update_order-ok, keep_filled_bounds,
  mark_order_applied-cases,
}
use jd_holdings.Repository.Orders.Steps.{Step, Steps}

-- `after` is a later state of the order `row`.
pub record Follows (row after : OrderRow) : Type 0 where
  pub client_order_id : after.client_order_id ≡ row.client_order_id
  pub signal_id : after.signal_id ≡ row.signal_id
  pub cycle_id : after.cycle_id ≡ row.cycle_id
  pub symbol : after.symbol ≡ row.symbol
  pub side : after.side ≡ row.side
  pub is_limit : after.is_limit ≡ row.is_limit
  pub price : after.price ≡ row.price
  pub qty : after.qty ≡ row.qty
  pub purpose : after.purpose ≡ row.purpose
  pub filled_le : row.filled_qty ≤ after.filled_qty
  pub final : (is_terminal row.status ≡ false) ⊎ (after.status ≡ row.status)
  pub applied : (row.applied ≡ false) ⊎ (after.applied ≡ true)

Follows-refl : (row : OrderRow) → Follows row row
Follows-refl row = record {
  client_order_id = refl;
  signal_id = refl;
  cycle_id = refl;
  symbol = refl;
  side = refl;
  is_limit = refl;
  price = refl;
  qty = refl;
  purpose = refl;
  filled_le = omega arith;
  final = inr refl;
  applied = elim (Bool-cases row.applied) [ inl e ↦ inr e | inr e ↦ inl e ];
}

final_trans :
    (x y z : OrderStatus)
    → (is_terminal x ≡ false) ⊎ (y ≡ x)
    → (is_terminal y ≡ false) ⊎ (z ≡ y)
    → (is_terminal x ≡ false) ⊎ (z ≡ x)
final_trans x y z (inl p) q = inl p
final_trans x y z (inr p) (inl q) = inl (rw (← p) q)
final_trans x y z (inr p) (inr q) = inr (q ∙ p)

applied_trans :
    (x y z : Bool) → (x ≡ false) ⊎ (y ≡ true) → (y ≡ false) ⊎ (z ≡ true) → (x ≡ false) ⊎ (z ≡ true)
applied_trans x y z p q = ground arith

Follows-trans : (a b c : OrderRow) → Follows a b → Follows b c → Follows a c
Follows-trans a b c p q = record {
  client_order_id = q.client_order_id ∙ p.client_order_id;
  signal_id = q.signal_id ∙ p.signal_id;
  cycle_id = q.cycle_id ∙ p.cycle_id;
  symbol = q.symbol ∙ p.symbol;
  side = q.side ∙ p.side;
  is_limit = q.is_limit ∙ p.is_limit;
  price = q.price ∙ p.price;
  qty = q.qty ∙ p.qty;
  purpose = q.purpose ∙ p.purpose;
  filled_le = omega (arith, p.filled_le, q.filled_le);
  final = final_trans a.status b.status c.status p.final q.final;
  applied = applied_trans a.applied b.applied c.applied p.applied q.applied;
}

updated_row-Follows :
    (u : OrderUpdate) (row : OrderRow)
    → status_conflicts u.status row ≡ false
    → fill_conflicts u.filled_qty u.average_fill_price row ≡ false
    → Follows row (updated_row u row)
updated_row-Follows u row status fill = record {
  client_order_id = refl;
  signal_id = refl;
  cycle_id = refl;
  symbol = refl;
  side = refl;
  is_limit = refl;
  price = refl;
  qty = refl;
  purpose = refl;
  filled_le = (keep_filled_bounds u.filled_qty u.average_fill_price row fill).0;
  final = elim (Bool-cases (is_terminal row.status)) [
    | inl e ↦ inr (same_status→eq u.status row.status (ground arith))
    | inr e ↦ inl e
  ];
  applied = elim (Bool-cases row.applied) [ inl e ↦ inr e | inr e ↦ inl e ];
}

reserve_order-keeps :
    (request : OrderRequest) (cycle_id : Option ℕ) (rows : List OrderRow) (id : ℕ) {row : OrderRow}
    → get_order_by_client_id id rows ≡ some row
    → get_order_by_client_id id (reserve_order request cycle_id rows).1 ≡ some row
unfolding reserve_order get_order_by_client_id
reserve_order-keeps request cycle_id rows id h =
    elim (Option-cases (get_order_by_client_id request.client_order_id rows)) [
      | inl e ↦ rw (e, reserve_order) (get-append id rows _ h)
      | inr (r, e) ↦ rw (e, reserve_order) h
    ]

-- What a change of one row does to an order that is there.
set_row-Follows :
    (target : ℕ) (change : OrderRow → OrderRow) (rows : List OrderRow) (old : OrderRow) (id : ℕ)
    (row : OrderRow)
    → KeepsId change
    → get_order_by_client_id target rows ≡ some old
    → Follows old (change old)
    → get_order_by_client_id id rows ≡ some row
    → (later : OrderRow) × (get_order_by_client_id id (set_row target change rows) ≡ some later)
      × Follows row later
set_row-Follows target change rows old id row k found f h = elim (Bool-cases (id == target)) [
  | inl same ↦
      let eq : id ≡ target = (==_iff _ _).0 same in
      let here : get_order_by_client_id target rows ≡ some row = rw (← eq) h in
      let eq-row : old ≡ row = some-injective _ _ (sym found ∙ here) in
      (
        change row,
        rw eq (get-set_row-same target change rows k here),
        subst (λ (r : OrderRow). Follows r (change r)) eq-row f,
      )
  | inr apart ↦ (row, get-set_row-other target id change rows k apart ∙ h, Follows-refl row)
]

applied_row-Follows : (row : OrderRow) → Follows row (applied_row row)
applied_row-Follows row = record {
  client_order_id = refl;
  signal_id = refl;
  cycle_id = refl;
  symbol = refl;
  side = refl;
  is_limit = refl;
  price = refl;
  qty = refl;
  purpose = refl;
  filled_le = omega arith;
  final = inr refl;
  applied = inr refl;
}

step-Follows :
    (rows after : List OrderRow) (id : ℕ) (row : OrderRow)
    → Step rows after
    → get_order_by_client_id id rows ≡ some row
    → (later : OrderRow) × (get_order_by_client_id id after ≡ some later) × Follows row later
step-Follows rows after id row (Step.reserved request cycle_id) h =
    (row, reserve_order-keeps request cycle_id rows id h, Follows-refl row)
step-Follows rows after id row (Step.updated target u e) h =
    let (old, found, status, fill, e') = update_order-ok target u rows e in
    rw (← e') (
      set_row-Follows target (updated_row u) rows old id row (λ r. refl) found
        (updated_row-Follows u old status fill) h)
step-Follows rows after id row (Step.applied target) h =
    elim (mark_order_applied-cases target rows) [
      | inl same ↦ rw same (row, h, Follows-refl row)
      | inr (old, found, e) ↦ rw e (
          set_row-Follows target applied_row rows old id row (λ r. refl) found
            (applied_row-Follows old) h)
    ]

-- However the table is used, an order stays in it under its id: its signal, its cycle and all of its
-- request do not change, fills only grow, and a terminal status and the applied mark are final.
pub Steps-Follows :
    (rows after : List OrderRow) (id : ℕ) (row : OrderRow)
    → Steps rows after
    → get_order_by_client_id id rows ≡ some row
    → (later : OrderRow) × (get_order_by_client_id id after ≡ some later) × Follows row later
Steps-Follows rows after id row Steps.done h = (row, h, Follows-refl row)
Steps-Follows rows after id row (Steps.more {next = next} s rest) h =
    let (mid, found, f) = step-Follows rows next id row s h in
    let (later, found', g) = Steps-Follows next after id mid rest found in
    (later, found', Follows-trans row mid later f g)
