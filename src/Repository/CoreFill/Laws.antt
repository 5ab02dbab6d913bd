-- ===== src/Repository/CoreFill/Laws.antt =====
-- The core ledger follows the cumulative fills of an order: each share and each amount is taken
-- once, however often a fill is applied.
use mathlib.Core.Option.{some-injective}
use jd_holdings.Prelude.{
  ◌*◌, if◌then◌else◌, ℕ, ◌+◌, ◌-◌, ◌≤◌, ◌≡◌, ◌==◌, refl, sym, ap, ◌∙◌, true, some, List, [], ◌∷◌,
  arith, Bool-cases, inl, inr, ltb, ==_iff, ◌&&◌, ◌⊎◌,
}
use jd_holdings.Model.Enums.{Symbol, Side, same_symbol}
use jd_holdings.Repository.Errors.{Error, Result, ◌then◌, then-eq-ok, unless-eq-ok, ok-injective}
use jd_holdings.Repository.Orders.{OrderRow, get_order_by_client_id}
use jd_holdings.Repository.Tables.{CoreRow, FillProgress, Database, get_core_position, progress_of}
use jd_holdings.Repository.CoreFill.{
  cumulative_notional, ledger_row, set_core_position, upsert_progress, filled_row, with_fill,
  apply_new_fill, apply_core_fill,
}

get_core_position-symbol :
    (symbol : Symbol) (rows : List CoreRow) {row : CoreRow}
    → get_core_position symbol rows ≡ some row
    → same_symbol row.symbol symbol ≡ true
unfolding get_core_position
get_core_position-symbol symbol [] h = cc
get_core_position-symbol symbol (r ∷ rows) {row} h =
    elim (Bool-cases (same_symbol r.symbol symbol)) [
      | inl e ↦ let same : r ≡ row = some-injective _ _ (rw e at h) in rw (← same) e
      | inr e ↦ get_core_position-symbol symbol rows (rw e at h)
    ]

get-set_core_position :
    (symbol : Symbol) (new : CoreRow) (rows : List CoreRow) {row : CoreRow}
    → get_core_position symbol rows ≡ some row
    → same_symbol new.symbol symbol ≡ true
    → get_core_position symbol (set_core_position symbol new rows) ≡ some new
unfolding get_core_position set_core_position
get-set_core_position symbol new [] h k = cc
get-set_core_position symbol new (r ∷ rows) h k = elim (Bool-cases (same_symbol r.symbol symbol)) [
  | inl e ↦ rw (e, k) refl
  | inr e ↦ rw (e, e) (get-set_core_position symbol new rows (rw e at h) k)
]

pub progress_of-upsert :
    (new : FillProgress) (rows : List FillProgress)
    → progress_of new.client_order_id (upsert_progress new rows)
      ≡ (new.applied_filled_qty, new.applied_notional)
unfolding progress_of upsert_progress
progress_of-upsert new [] =
    let e : (new.client_order_id == new.client_order_id) ≡ true = (==_iff _ _).1 refl in rw e refl
progress_of-upsert new (r ∷ rows) =
    let same : (new.client_order_id == new.client_order_id) ≡ true = (==_iff _ _).1 refl in
    elim (Bool-cases (r.client_order_id == new.client_order_id)) [
      | inl e ↦ rw (e, same) refl
      | inr e ↦ rw (e, e) (progress_of-upsert new rows)
    ]

module _ (divide : ℕ → ℕ → ℕ) (id : ℕ) (db : Database) (order : OrderRow) (row : CoreRow) where
  unfoldable pub applied : ℕ
  applied = (progress_of id db.core_fill_progress).0

  unfoldable pub notional : ℕ
  notional = (progress_of id db.core_fill_progress).1

  -- What an application that succeeds has checked.
  pub apply-ok :
      {after : Database}
      → get_order_by_client_id id db.orders ≡ some order
      → get_core_position order.symbol db.core_positions ≡ some row
      → apply_core_fill divide id db ≡ Result.ok after
      → (applied ≤ order.filled_qty)
        × (apply_new_fill divide id order applied notional row db ≡ Result.ok after)
  unfolding apply_core_fill applied notional
  apply-ok found core h =
      let h1 = rw found at h in
      let (le, h2) = unless-eq-ok (ltb order.filled_qty applied) _ _ h1 in
      let h3 = rw core at h2 in
      let (_, h4) =
        unless-eq-ok (ltb applied order.filled_qty && ltb (cumulative_notional order) notional) _ _
          h3 in
      (ground (arith, le), h4)

  -- The ledger after a fill: unchanged where nothing is new, else with the row made of the fill.
  pub apply_new_fill-ok :
      {after : Database}
      → apply_new_fill divide id order applied notional row db ≡ Result.ok after
      → ((db ≡ after) × (order.filled_qty ≡ applied) × (cumulative_notional order ≡ notional))
        ⊎ ((new : CoreRow) × (filled_row divide order applied notional row ≡ Result.ok new)
            × (with_fill db (set_core_position order.symbol new db.core_positions) (
                  upsert_progress
                    (record {
                      client_order_id = id;
                      applied_filled_qty = order.filled_qty;
                      applied_notional = cumulative_notional order;
                    })
                    db.core_fill_progress)
                ≡ after))
  unfolding apply_new_fill
  apply_new_fill-ok h =
      elim (Bool-cases ((order.filled_qty == applied) && (cumulative_notional order == notional))) [
        | inl same ↦ inl (ok-injective (rw same at h), ground (arith, same), ground (arith, same))
        | inr fresh ↦
            let (new, e, h') = then-eq-ok _ _ (rw fresh at h) in inr (new, e, ok-injective h')
      ]

  -- The shares and the money of a buy are added, once each.
  filled_row-buy :
      {new : CoreRow}
      → order.side ≡ Side.buy
      → applied ≤ order.filled_qty
      → filled_row divide order applied notional row ≡ Result.ok new
      → (new.symbol ≡ row.symbol)
        × (new.qty + applied ≡ row.qty + order.filled_qty)
        × (new.cost_basis + notional ≡ row.cost_basis + cumulative_notional order)
  unfolding filled_row notional applied
  filled_row-buy {new} side le h =
      let qty = row.qty + (order.filled_qty - applied) in
      let cost = row.cost_basis + cumulative_notional order - notional in
      let (low, e) =
        unless-eq-ok (ltb (row.cost_basis + cumulative_notional order) notional)
          Error.state_conflict
          (Result.ok (ledger_row row qty (if qty == 0 then 0 else divide cost qty) cost))
          (rw side at h) in
      rw (← ok-injective e) (refl, omega (arith, le), ground (arith, low))

  filled_row-sell :
      {new : CoreRow}
      → order.side ≡ Side.sell
      → applied ≤ order.filled_qty
      → filled_row divide order applied notional row ≡ Result.ok new
      → (new.symbol ≡ row.symbol)
        × (new.qty + order.filled_qty ≡ row.qty + applied)
        × (new.cost_basis ≡ row.avg_price * new.qty)
  unfolding filled_row notional applied
  filled_row-sell {new} side le h =
      let qty = row.qty - (order.filled_qty - applied) in
      let average = if qty == 0 then 0 else row.avg_price in
      let (low, e) =
        unless-eq-ok (ltb row.qty (order.filled_qty - applied)) Error.state_conflict
          (Result.ok (ledger_row row qty average (average * qty))) (rw side at h) in
      rw (← ok-injective e) (refl, ground (arith, low), ground arith)

  filled_row-symbol :
      {new : CoreRow} (side : Side)
      → order.side ≡ side
      → applied ≤ order.filled_qty
      → filled_row divide order applied notional row ≡ Result.ok new
      → new.symbol ≡ row.symbol
  filled_row-symbol Side.buy e le h = (filled_row-buy e le h).0
  filled_row-symbol Side.sell e le h = (filled_row-sell e le h).0

  -- After an application the progress of the order is all that it is filled, and its core row is
  -- the earlier one or the one made of the fill.
  pub apply_core_fill-ok :
      {after : Database}
      → get_order_by_client_id id db.orders ≡ some order
      → get_core_position order.symbol db.core_positions ≡ some row
      → apply_core_fill divide id db ≡ Result.ok after
      → (after.orders ≡ db.orders)
        × (progress_of id after.core_fill_progress ≡ (order.filled_qty, cumulative_notional order))
        × ((later : CoreRow) × (get_core_position order.symbol after.core_positions ≡ some later)
            × (((later ≡ row)
                  × (order.filled_qty ≡ applied)
                  × (cumulative_notional order ≡ notional))
                ⊎ (filled_row divide order applied notional row ≡ Result.ok later)))
  unfolding applied notional
  apply_core_fill-ok found core h =
      let (le, posted) = apply-ok found core h in
      elim (apply_new_fill-ok posted) [
        | inl (same, q, n) ↦
            rw (← same) (refl, (λ i. (sym q i, sym n i)), (row, core, inl (refl, q, n)))
        | inr (new, e, same) ↦
            let new_symbol : same_symbol new.symbol order.symbol ≡ true =
              rw (filled_row-symbol order.side refl le e)
                (get_core_position-symbol order.symbol db.core_positions core) in
            rw (← same) (
              refl,
              progress_of-upsert _ db.core_fill_progress,
              (
                new,
                get-set_core_position order.symbol new db.core_positions core new_symbol,
                inr e,
              ),
            )
      ]

  -- Applying a buy, where its order and its core row are there and nothing is raised, adds to
  -- the row exactly the shares and the money that the ledger did not have yet, and records
  -- that it has them.
  pub apply_core_fill-buy :
      {after : Database}
      → get_order_by_client_id id db.orders ≡ some order
      → get_core_position order.symbol db.core_positions ≡ some row
      → order.side ≡ Side.buy
      → apply_core_fill divide id db ≡ Result.ok after
      → (progress_of id after.core_fill_progress ≡ (order.filled_qty, cumulative_notional order))
        × ((later : CoreRow) × (get_core_position order.symbol after.core_positions ≡ some later)
            × ((later.qty + (progress_of id db.core_fill_progress).0 ≡ row.qty + order.filled_qty)
                × (later.cost_basis + (progress_of id db.core_fill_progress).1
                    ≡ row.cost_basis + cumulative_notional order)))
  unfolding applied notional
  apply_core_fill-buy found core side h =
      let (le, _) = apply-ok found core h in
      let (_, progress, rest) = apply_core_fill-ok found core h in
      let (later, there, how) = rest in
      (
        progress,
        (
          later,
          there,
          elim how [
            | inl (same, q, n) ↦ (
              ap (λ (r : CoreRow). r.qty + applied) same ∙ ap (λ (x : ℕ). row.qty + x) (sym q),
              ap (λ (r : CoreRow). r.cost_basis + notional) same
                  ∙ ap (λ (x : ℕ). row.cost_basis + x) (sym n),
            )
            | inr e ↦ let (_, q, n) = filled_row-buy side le e in (q, n)
          ],
        ),
      )

  -- Applying a sell, where its order and its core row are there and nothing is raised, takes
  -- from the row exactly the shares that the ledger had not taken yet, and records them.
  pub apply_core_fill-sell :
      {after : Database}
      → get_order_by_client_id id db.orders ≡ some order
      → get_core_position order.symbol db.core_positions ≡ some row
      → order.side ≡ Side.sell
      → apply_core_fill divide id db ≡ Result.ok after
      → (progress_of id after.core_fill_progress ≡ (order.filled_qty, cumulative_notional order))
        × ((later : CoreRow) × (get_core_position order.symbol after.core_positions ≡ some later)
            × (later.qty + order.filled_qty ≡ row.qty + (progress_of id db.core_fill_progress).0))
  unfolding applied notional
  apply_core_fill-sell found core side h =
      let (le, _) = apply-ok found core h in
      let (_, progress, rest) = apply_core_fill-ok found core h in
      let (later, there, how) = rest in
      (
        progress,
        (
          later,
          there,
          elim how [
            | inl (same, q, n) ↦
                ap (λ (r : CoreRow). r.qty + order.filled_qty) same ∙ ap (λ (x : ℕ). row.qty + x) q
            | inr e ↦ (filled_row-sell side le e).1
          ],
        ),
      )

  -- A fill that has been applied to the core row of its order changes nothing, and raises
  -- nothing, when it is applied again.
  pub apply_core_fill-twice :
      {after : Database}
      → get_order_by_client_id id db.orders ≡ some order
      → get_core_position order.symbol db.core_positions ≡ some row
      → apply_core_fill divide id db ≡ Result.ok after
      → apply_core_fill divide id after ≡ Result.ok after
  unfolding apply_core_fill apply_new_fill
  apply_core_fill-twice found core h =
      let (orders, progress, rest) = apply_core_fill-ok found core h in
      let (later, there, _) = rest in rw (orders, found, progress, there) (ground arith)
