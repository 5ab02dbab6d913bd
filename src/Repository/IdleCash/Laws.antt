-- ===== src/Repository/IdleCash/Laws.antt =====
-- The SGOV holding follows the cumulative fills of an order, share by share.
use mathlib.Core.Option.{some-injective}
use jd_holdings.Prelude.{
  ℕ, ◌+◌, ◌-◌, ◌≤◌, ◌==◌, ==_iff, ltb, if◌then◌else◌, ◌≡◌, refl, sym, ap, ◌∙◌, true, false, not,
  some, List, [], ◌∷◌, arith, Bool-cases, inl, inr, ◌⊎◌,
}
use jd_holdings.Model.Enums.{Symbol, Side, same_symbol, is_terminal}
use jd_holdings.Model.Snapshot.{IdleCashState}
use jd_holdings.Repository.Errors.{Result, ◌then◌, then-eq-ok, unless-eq-ok, ok-injective}
use jd_holdings.Repository.Orders.{OrderRow, get_order_by_client_id, set_row, applied_row}
use jd_holdings.Repository.Tables.{FillProgress, progress_of}
use jd_holdings.Repository.CoreFill.{cumulative_notional, upsert_progress}
use jd_holdings.Repository.CoreFill.Laws.{progress_of-upsert}
use jd_holdings.Repository.IdleCash.{
  IdleCash, find_state, is_sgov_purpose, filled_state, set_state, new_states, new_progress,
  apply_idle_cash_fill,
}

find_state-symbol :
    (symbol : Symbol) (rows : List IdleCashState) {row : IdleCashState}
    → find_state symbol rows ≡ some row
    → same_symbol row.symbol symbol ≡ true
unfolding find_state
find_state-symbol symbol [] h = cc
find_state-symbol symbol (r ∷ rows) {row} h = elim (Bool-cases (same_symbol r.symbol symbol)) [
  | inl e ↦ let same : r ≡ row = some-injective _ _ (rw e at h) in rw (← same) e
  | inr e ↦ find_state-symbol symbol rows (rw e at h)
]

find-set_state :
    (symbol : Symbol) (new : IdleCashState) (rows : List IdleCashState) {row : IdleCashState}
    → find_state symbol rows ≡ some row
    → same_symbol new.symbol symbol ≡ true
    → find_state symbol (set_state symbol new rows) ≡ some new
unfolding find_state set_state
find-set_state symbol new [] h k = cc
find-set_state symbol new (r ∷ rows) h k = elim (Bool-cases (same_symbol r.symbol symbol)) [
  | inl e ↦ rw (e, k) refl
  | inr e ↦ rw (e, e) (find-set_state symbol new rows (rw e at h) k)
]

upsert_progress-twice :
    (new : FillProgress) (rows : List FillProgress)
    → upsert_progress new (upsert_progress new rows) ≡ upsert_progress new rows
unfolding upsert_progress
upsert_progress-twice new [] =
    let e : (new.client_order_id == new.client_order_id) ≡ true = (==_iff _ _).1 refl in rw e refl
upsert_progress-twice new (r ∷ rows) =
    let same : (new.client_order_id == new.client_order_id) ≡ true = (==_iff _ _).1 refl in
    elim (Bool-cases (r.client_order_id == new.client_order_id)) [
      | inl e ↦ rw (e, same) refl
      | inr e ↦ rw (e, e, upsert_progress-twice new rows) refl
    ]

set_row-applied-twice :
    (id : ℕ) (rows : List OrderRow)
    → set_row id applied_row (set_row id applied_row rows) ≡ set_row id applied_row rows
unfolding set_row
set_row-applied-twice id [] = refl
set_row-applied-twice id (row ∷ rows) = elim (Bool-cases (row.client_order_id == id)) [
  | inl e ↦ rw (e, e, set_row-applied-twice id rows) refl
  | inr e ↦ rw (e, e, set_row-applied-twice id rows) refl
]

module _ (divide : ℕ → ℕ → ℕ) (id : ℕ) (book : IdleCash) (order : OrderRow) (row : IdleCashState)
    (found : get_order_by_client_id id book.orders ≡ some order)
    (there : find_state order.symbol book.states ≡ some row) where
  applied : ℕ
  applied = (progress_of id book.fill_progress).0

  notional : ℕ
  notional = (progress_of id book.fill_progress).1

  -- What an application that succeeds has checked, and what it stores.
  apply-ok :
      {after : IdleCash}
      → apply_idle_cash_fill divide id book ≡ Result.ok after
      → (is_sgov_purpose order.purpose ≡ true)
        × (applied ≤ order.filled_qty)
        × (new_states divide order applied notional row book.states ≡ Result.ok after.states)
        × (after.orders ≡ (
            if is_terminal order.status then set_row id applied_row book.orders else book.orders))
        × (after.fill_progress
            ≡ upsert_progress (new_progress id order notional) book.fill_progress)
  unfolding apply_idle_cash_fill applied notional
  apply-ok {after} h =
      let (purpose, h1) = unless-eq-ok (not (is_sgov_purpose order.purpose)) _ _ (rw found at h) in
      let (le, h2) = unless-eq-ok (ltb order.filled_qty applied) _ _ (rw there at h1) in
      let (states, s, h3) =
        then-eq-ok (new_states divide order applied notional row book.states) _ h2 in
      let e = ok-injective h3 in
      (
        ground (arith, purpose),
        ground (arith, le),
        s ∙ ap (λ (b : IdleCash). Result.ok b.states) e,
        sym (ap (λ (b : IdleCash). b.orders) e),
        sym (ap (λ (b : IdleCash). b.fill_progress) e),
      )

  filled_state-buy :
      {new : IdleCashState}
      → order.side ≡ Side.buy
      → applied ≤ order.filled_qty
      → filled_state divide order applied notional row ≡ Result.ok new
      → (new.symbol ≡ row.symbol)
        × (new.managed_quantity + applied ≡ row.managed_quantity + order.filled_qty)
  unfolding filled_state
  filled_state-buy side le h =
      let (_, e) = unless-eq-ok (ltb (cumulative_notional order) notional) _ _ (rw side at h) in
      rw (← ok-injective e) (refl, omega (arith, le))

  filled_state-sell :
      {new : IdleCashState}
      → order.side ≡ Side.sell
      → applied ≤ order.filled_qty
      → filled_state divide order applied notional row ≡ Result.ok new
      → (new.symbol ≡ row.symbol)
        × (new.managed_quantity + order.filled_qty ≡ row.managed_quantity + applied)
  unfolding filled_state
  filled_state-sell side le h =
      let (_, e) = unless-eq-ok (ltb (cumulative_notional order) notional) _ _ (rw side at h) in
      let (low, e2) = unless-eq-ok (ltb row.managed_quantity (order.filled_qty - applied)) _ _ e in
      rw (← ok-injective e2) (refl, ground (arith, low, le))

  new_states-cases :
      {states : List IdleCashState}
      → applied ≤ order.filled_qty
      → new_states divide order applied notional row book.states ≡ Result.ok states
      → ((applied ≡ order.filled_qty) × (book.states ≡ states))
        ⊎ ((new : IdleCashState) × (filled_state divide order applied notional row ≡ Result.ok new)
            × (set_state order.symbol new book.states ≡ states))
  unfolding new_states
  new_states-cases le h = elim (Bool-cases (ltb applied order.filled_qty)) [
    | inl e ↦
        let (new, f, h1) =
          then-eq-ok (filled_state divide order applied notional row) _ (rw e at h) in
        inr (new, f, ok-injective h1)
    | inr e ↦ inl (ground (arith, e, le), ok-injective (rw e at h))
  ]

  -- The row of the symbol afterwards, where the new row, if there is one, keeps its symbol.
  state_after :
      {after : IdleCash} (P : ℕ → Type 0)
      → apply_idle_cash_fill divide id book ≡ Result.ok after
      → (applied ≡ order.filled_qty → P row.managed_quantity)
      → ((new : IdleCashState)
          → filled_state divide order applied notional row ≡ Result.ok new
          → (new.symbol ≡ row.symbol) × P new.managed_quantity)
      → (new : IdleCashState) × (find_state order.symbol after.states ≡ some new)
        × P new.managed_quantity
        × ((progress_of id after.fill_progress).0 ≡ order.filled_qty)
  state_after P h same fresh =
      let (_, le, states, _, progress) = apply-ok h in
      let taken =
        ap (λ (q : ℕ × ℕ). q.0)
          (ap (λ (p : List FillProgress). progress_of id p) progress
            ∙ progress_of-upsert (new_progress id order notional) book.fill_progress) in
      elim (new_states-cases le states) [
        | inl (e, s) ↦ (row, rw (← s) there, same e, taken)
        | inr (new, f, s) ↦
            let (symbol, p) = fresh new f in
            (
              new,
              rw (← s) (
                  find-set_state order.symbol new book.states there
                    (rw symbol (find_state-symbol order.symbol book.states there))),
              p,
              taken,
            )
      ]

  -- A buy fill that is applied adds the shares that were not applied before to the managed
  -- quantity, and no others, and the progress of the order is then all that it has filled.
  pub apply_idle_cash_fill-buy :
      {after : IdleCash}
      → order.side ≡ Side.buy
      → apply_idle_cash_fill divide id book ≡ Result.ok after
      → (new : IdleCashState) × (find_state order.symbol after.states ≡ some new)
        × (new.managed_quantity + (progress_of id book.fill_progress).0
            ≡ row.managed_quantity + order.filled_qty)
        × ((progress_of id after.fill_progress).0 ≡ order.filled_qty)
  unfolding applied
  apply_idle_cash_fill-buy side h =
      let (_, le, _, _, _) = apply-ok h in
      state_after (λ n. n + applied ≡ row.managed_quantity + order.filled_qty) h
        (λ e. omega (arith, e)) (λ new f. filled_state-buy side le f)

  -- A sell fill that is applied takes the shares that were not applied before from the managed
  -- quantity, and no others, and the progress of the order is then all that it has filled.
  pub apply_idle_cash_fill-sell :
      {after : IdleCash}
      → order.side ≡ Side.sell
      → apply_idle_cash_fill divide id book ≡ Result.ok after
      → (new : IdleCashState) × (find_state order.symbol after.states ≡ some new)
        × (new.managed_quantity + order.filled_qty
            ≡ row.managed_quantity + (progress_of id book.fill_progress).0)
        × ((progress_of id after.fill_progress).0 ≡ order.filled_qty)
  unfolding applied
  apply_idle_cash_fill-sell side h =
      let (_, le, _, _, _) = apply-ok h in
      state_after (λ n. n + order.filled_qty ≡ row.managed_quantity + applied) h
        (λ e. omega (arith, e)) (λ new f. filled_state-sell side le f)

  -- An order that has filled no more than is applied moves no shares and no average price, but a
  -- different price of its fill is stored as applied.
  pub apply_idle_cash_fill-correction :
      {after : IdleCash}
      → (progress_of id book.fill_progress).0 ≡ order.filled_qty
      → ltb 0 order.filled_qty ≡ true
      → apply_idle_cash_fill divide id book ≡ Result.ok after
      → (after.states ≡ book.states)
        × ((progress_of id after.fill_progress).1 ≡ cumulative_notional order)
  unfolding applied new_states
  apply_idle_cash_fill-correction same some_filled h =
      let (_, le, states, _, progress) = apply-ok h in
      let none_new : ltb applied order.filled_qty ≡ false = ground (arith, same) in
      let taken =
        ap (λ (q : ℕ × ℕ). q.1)
          (ap (λ (p : List FillProgress). progress_of id p) progress
            ∙ progress_of-upsert (new_progress id order notional) book.fill_progress) in
      (sym (ok-injective (rw none_new at states)), taken ∙ rw some_filled refl)
