-- ===== src/Repository/Orders/Rows.antt =====
-- Lookups in the table of orders, and what a successful operation has checked.
use mathlib.Core.Bool.{true≢false}
use jd_holdings.Prelude.{
  ℕ, ◌≤◌, ◌≡◌, refl, sym, ◌∙◌, ◌⊎◌, inl, inr, true, false, Option, none, some, List, [], ◌∷◌, ◌++◌,
  arith, Bool-cases, Option-cases, ◌==◌, ℤ,
}
use jd_holdings.Model.Snapshot.{OrderRequest}
use jd_holdings.Repository.Errors.{Result, then-eq-ok, unless-eq-ok, require-eq-ok, ok-injective}
use jd_holdings.Repository.Orders.{
  OrderRow, OrderUpdate, get_order_by_client_id, new_order, reserve_order, update_order,
  updated_row, mark_order_applied, applied_row, set_row, fill_conflicts, status_conflicts,
  keep_filled,
}

-- A change of rows that keeps their ids.
abbrev pub KeepsId : (OrderRow → OrderRow) → Type 0
KeepsId change = (row : OrderRow) → (change row).client_order_id ≡ row.client_order_id

pub get-set_row-same :
    (id : ℕ) (change : OrderRow → OrderRow) (rows : List OrderRow) {row : OrderRow}
    → KeepsId change
    → get_order_by_client_id id rows ≡ some row
    → get_order_by_client_id id (set_row id change rows) ≡ some (change row)
unfolding get_order_by_client_id set_row
get-set_row-same id change [] k h = cc
get-set_row-same id change (r ∷ rows) k h = elim (Bool-cases (r.client_order_id == id)) [
  | inl e ↦ rw (e, k r, e) (ground (arith, k r))
  | inr e ↦ rw (e, e) (get-set_row-same id change rows k (ground arith))
]

pub get-set_row-other :
    (id other : ℕ) (change : OrderRow → OrderRow) (rows : List OrderRow)
    → KeepsId change
    → (other == id) ≡ false
    → get_order_by_client_id other (set_row id change rows) ≡ get_order_by_client_id other rows
unfolding get_order_by_client_id set_row
get-set_row-other id other change [] k h = refl
get-set_row-other id other change (r ∷ rows) k h =
    let ih = get-set_row-other id other change rows k h in
    elim (Bool-cases (r.client_order_id == id)) [
      | inl e ↦ ground (arith, k r, ih)
      | inr e ↦ ground (arith, ih)
    ]

pub get-set_row-none :
    (id other : ℕ) (change : OrderRow → OrderRow) (rows : List OrderRow)
    → KeepsId change
    → get_order_by_client_id other rows ≡ none
    → get_order_by_client_id other (set_row id change rows) ≡ none
unfolding get_order_by_client_id set_row
get-set_row-none id other change [] k h = refl
get-set_row-none id other change (r ∷ rows) k h = elim (Bool-cases (r.client_order_id == other)) [
  | inl e ↦ ground arith
  | inr e ↦
      let ih = get-set_row-none id other change rows k (ground arith) in
      elim (Bool-cases (r.client_order_id == id)) [
        | inl same ↦ ground (arith, k r, ih)
        | inr apart ↦ ground (arith, ih)
      ]
]

pub set_row-absent :
    (id : ℕ) (change : OrderRow → OrderRow) (rows : List OrderRow)
    → get_order_by_client_id id rows ≡ none
    → set_row id change rows ≡ rows
unfolding get_order_by_client_id set_row
set_row-absent id change [] h = refl
set_row-absent id change (r ∷ rows) h = elim (Bool-cases (r.client_order_id == id)) [
  | inl e ↦ ground arith
  | inr e ↦ rw e (ground (arith, set_row-absent id change rows))
]

-- An update that succeeds found its row, and none of the checks spoke against it.
pub update_order-ok :
    (id : ℕ) (u : OrderUpdate) (rows : List OrderRow) {after : List OrderRow}
    → update_order id u rows ≡ Result.ok after
    → (row : OrderRow) × (get_order_by_client_id id rows ≡ some row)
      × (status_conflicts u.status row ≡ false)
      × (fill_conflicts u.filled_qty u.average_fill_price row ≡ false)
      × (set_row id (updated_row u) rows ≡ after)
unfolding update_order
update_order-ok id u rows h =
    let (_, h1) = unless-eq-ok _ _ _ h in
    let (row, found, h2) = then-eq-ok _ _ h1 in
    let (status, h3) = unless-eq-ok _ _ _ h2 in
    let (fill, h4) = unless-eq-ok _ _ _ h3 in
    let (_, h5) = unless-eq-ok _ _ _ h4 in
    (row, require-eq-ok _ _ found, status, fill, ok-injective h5)

pub keep_filled_bounds :
    (filled : Option ℤ) (average : Option ℕ) (row : OrderRow)
    → fill_conflicts filled average row ≡ false
    → (row.filled_qty ≤ keep_filled filled row.filled_qty)
      × (row.filled_qty ≤ row.qty → keep_filled filled row.filled_qty ≤ row.qty)
unfolding fill_conflicts
keep_filled_bounds none average row h = ground arith
keep_filled_bounds (some f) average row h = ground arith

pub get-append :
    (id : ℕ) (rows extra : List OrderRow) {row : OrderRow}
    → get_order_by_client_id id rows ≡ some row
    → get_order_by_client_id id (rows ++ extra) ≡ some row
unfolding get_order_by_client_id
get-append id [] extra h = cc
get-append id (r ∷ rows) extra h = elim (Bool-cases (r.client_order_id == id)) [
  | inl e ↦ ground arith
  | inr e ↦ rw e (get-append id rows extra (ground arith))
]

pub mark_order_applied-cases :
    (id : ℕ) (rows : List OrderRow)
    → ((mark_order_applied id rows).1 ≡ rows)
      ⊎ ((row : OrderRow) × (get_order_by_client_id id rows ≡ some row)
          × ((mark_order_applied id rows).1 ≡ set_row id applied_row rows))
unfolding mark_order_applied
mark_order_applied-cases id rows = elim (Option-cases (get_order_by_client_id id rows)) [
  | inl e ↦ inl (rw (e, mark_order_applied) refl)
  | inr (row, e) ↦ elim (Bool-cases row.applied) [
    | inl a ↦ inl (rw (e, mark_order_applied, a) refl)
    | inr a ↦ inr (row, e, rw (e, mark_order_applied, a) refl)
  ]
]

pub get-append-none :
    (id : ℕ) (rows : List OrderRow) (new : OrderRow)
    → get_order_by_client_id id rows ≡ none
    → (new.client_order_id == id) ≡ false
    → get_order_by_client_id id (rows ++ (new ∷ [])) ≡ none
unfolding get_order_by_client_id
get-append-none id [] new h e = rw e refl
get-append-none id (r ∷ rows) new h e = elim (Bool-cases (r.client_order_id == id)) [
  | inl same ↦ ground arith
  | inr apart ↦ rw apart (get-append-none id rows new (ground arith) e)
]

-- A reservation that adds a row found no order of that id, and puts the row last.
pub reserve_order-true :
    (request : OrderRequest) (cycle_id : Option ℕ) (rows : List OrderRow)
    → (reserve_order request cycle_id rows).0 ≡ true
    → (get_order_by_client_id request.client_order_id rows ≡ none)
      × ((reserve_order request cycle_id rows).1 ≡ rows ++ (new_order request cycle_id ∷ []))
unfolding reserve_order
reserve_order-true request cycle_id rows h =
    elim (Option-cases (get_order_by_client_id request.client_order_id rows)) [
      | inl e ↦ (e, rw (e, reserve_order) refl)
      | inr (row, e) ↦
          let taken : (reserve_order request cycle_id rows).0 ≡ false =
            rw (e, reserve_order) refl in
          absurd (true≢false (sym h ∙ taken))
    ]
