-- ===== src/Repository/Orders/Consistency.antt =====
-- What holds of every table of orders that the operations make.
use mathlib.Core.Option.{some-injective}
use jd_holdings.Prelude.{
  ℕ, ◌≤◌, ◌≡◌, refl, sym, ◌∙◌, inl, inr, none, some, List, [], ◌∷◌, ◌++◌, arith, Bool-cases,
  Option-cases, ==_iff, ◌==◌,
}
use jd_holdings.Repository.Orders.{
  OrderRow, get_order_by_client_id, new_order, reserve_order, updated_row, applied_row, set_row,
}
use jd_holdings.Repository.Orders.Rows.{
  KeepsId, get-set_row-none, set_row-absent, get-append-none, update_order-ok, keep_filled_bounds,
  mark_order_applied-cases,
}
use jd_holdings.Repository.Orders.Steps.{Step, Steps}

-- Every row is filled at most to its quantity, and no two rows have one client order id.
abbrev pub IsConsistent : List OrderRow → Type 0
IsConsistent [] = Unit
IsConsistent (row ∷ rows) =
    (row.filled_qty ≤ row.qty)
    × (get_order_by_client_id row.client_order_id rows ≡ none)
    × IsConsistent rows

set_row-IsConsistent :
    (id : ℕ) (change : OrderRow → OrderRow) (rows : List OrderRow)
    → KeepsId change
    → ((row : OrderRow)
        → get_order_by_client_id id rows ≡ some row
        → row.filled_qty ≤ row.qty
        → (change row).filled_qty ≤ (change row).qty)
    → IsConsistent rows
    → IsConsistent (set_row id change rows)
unfolding get_order_by_client_id set_row
set_row-IsConsistent id change [] k f c = tt
set_row-IsConsistent id change (r ∷ rows) k f (le, absent, rest) =
    elim (Bool-cases (r.client_order_id == id)) [
      | inl e ↦
          let here : r.client_order_id ≡ id = (==_iff _ _).0 e in
          let none-left : get_order_by_client_id id rows ≡ none = rw (← here) absent in
          rw (e, set_row-absent id change rows none-left)
            (f r (rw e refl) le, rw (k r) absent, rest)
      | inr e ↦ rw e (
        le,
        get-set_row-none id r.client_order_id change rows k absent,
        set_row-IsConsistent id change rows k (λ row h. f row (rw e h)) rest,
      )
    ]

append-IsConsistent :
    (rows : List OrderRow) (new : OrderRow)
    → get_order_by_client_id new.client_order_id rows ≡ none
    → new.filled_qty ≤ new.qty
    → IsConsistent rows
    → IsConsistent (rows ++ (new ∷ []))
unfolding get_order_by_client_id
append-IsConsistent [] new absent le c = (le, refl, tt)
append-IsConsistent (r ∷ rows) new absent le (here, distinct, rest) =
    elim (Bool-cases (r.client_order_id == new.client_order_id)) [
      | inl e ↦ ground arith
      | inr e ↦ (
        here,
        get-append-none r.client_order_id rows new distinct (ground arith),
        append-IsConsistent rows new (ground arith) le rest,
      )
    ]

step-IsConsistent :
    (rows after : List OrderRow) → Step rows after → IsConsistent rows → IsConsistent after
unfolding reserve_order
step-IsConsistent rows after (Step.reserved request cycle_id) c =
    elim (Option-cases (get_order_by_client_id request.client_order_id rows)) [
      | inl e ↦
          rw (e, reserve_order)
            (append-IsConsistent rows (new_order request cycle_id) e (omega arith) c)
      | inr (r, e) ↦ rw (e, reserve_order) c
    ]
step-IsConsistent rows after (Step.updated target u e) c =
    let (old, found, status, fill, e') = update_order-ok target u rows e in
    rw (← e') (
      set_row-IsConsistent target (updated_row u) rows (λ r. refl)
        (λ row h le.
          let eq-row : old ≡ row = some-injective _ _ (sym found ∙ h) in
          (keep_filled_bounds u.filled_qty u.average_fill_price row (rw (← eq-row) fill)).1 le)
        c)
step-IsConsistent rows after (Step.applied target) c = elim (mark_order_applied-cases target rows) [
  | inl same ↦ rw same c
  | inr (old, found, e) ↦
      rw e (set_row-IsConsistent target applied_row rows (λ r. refl) (λ row h le. le) c)
]

-- Whatever operations are applied to a consistent table, the empty one included, no order is
-- filled beyond its quantity and no two orders have one client order id.
pub Steps-IsConsistent :
    (rows after : List OrderRow) → Steps rows after → IsConsistent rows → IsConsistent after
Steps-IsConsistent rows after Steps.done c = c
Steps-IsConsistent rows after (Steps.more {next = next} s rest) c =
    Steps-IsConsistent next after rest (step-IsConsistent rows next s c)
