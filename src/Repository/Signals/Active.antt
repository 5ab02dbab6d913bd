-- ===== src/Repository/Signals/Active.antt =====
-- Signals that are invalidated or have expired are no longer active.
use jd_holdings.Prelude.{
  ℕ, ltb, ◌≡◌, Bool, true, false, not, ◌&&◌, Option, some, List, [], ◌∷◌, All, arith, Bool-cases,
  inl, inr,
}
use jd_holdings.Model.Enums.{Symbol, same_symbol}
use jd_holdings.Repository.Signals.{
  SignalRow, SignalTable, SignalKey, SignalStatus, active_signals, is_pending, is_kept, is_about,
  update_signals, closed_signal, to_invalidate, invalidate_active_signals, is_stale,
  expire_stale_signals,
}

is_kept_of :
    (same pending kept : Bool)
    → (same && (pending && not kept)) ≡ false
    → (pending && same) ≡ true
    → kept ≡ true
is_kept_of same pending kept h1 h2 = ground (arith, h1, h2)

and_false-right : (a b c : Bool) → (a && b) ≡ false → (a && c) ≡ true → b ≡ false
and_false-right a b c h1 h2 = ground (arith, h1, h2)

active_signals-invalidated :
    (symbol : Symbol) (kept : Option SignalKey) (rows : List SignalRow)
    → All
        (λ row. is_kept kept row ≡ true)
        (active_signals (some symbol) (
          update_signals
            (to_invalidate symbol kept)
            (closed_signal SignalStatus.invalid true)
            rows))
unfolding active_signals update_signals
active_signals-invalidated symbol kept [] = tt
active_signals-invalidated symbol kept (row ∷ rows) =
    let rest = active_signals-invalidated symbol kept rows in
    elim (Bool-cases (to_invalidate symbol kept row)) [
      | inl e ↦ rw e rest
      | inr e ↦ elim (Bool-cases (is_pending row && same_symbol row.symbol symbol)) [
        | inl f ↦ rw (e, f) (is_kept_of _ _ _ e f, rest)
        | inr f ↦ rw (e, f) rest
      ]
    ]

-- After signals of a symbol are invalidated, a signal of the symbol that is still active is one to
-- be kept.
pub invalidate_active_signals-kept :
    (symbol : Symbol) (kept : Option SignalKey) (table : SignalTable)
    → All
        (λ row. is_kept kept row ≡ true)
        (active_signals (some symbol) (invalidate_active_signals symbol kept table).1.rows)
unfolding invalidate_active_signals
invalidate_active_signals-kept symbol kept table = active_signals-invalidated symbol kept table.rows

active_signals-expired :
    (symbol : Option Symbol) (now : ℕ) (rows : List SignalRow)
    → All
        (λ row. ltb row.valid_until now ≡ false)
        (active_signals symbol
          (update_signals (is_stale now) (closed_signal SignalStatus.expired true) rows))
unfolding active_signals update_signals
active_signals-expired symbol now [] = tt
active_signals-expired symbol now (row ∷ rows) =
    let rest = active_signals-expired symbol now rows in
    elim (Bool-cases (is_stale now row)) [
      | inl e ↦ rw e rest
      | inr e ↦ elim (Bool-cases (is_pending row && is_about symbol row)) [
        | inl f ↦ rw (e, f) (and_false-right _ _ _ e f, rest)
        | inr f ↦ rw (e, f) rest
      ]
    ]

-- After stale signals expire, no signal that is still active was valid until an earlier time.
pub expire_stale_signals-valid :
    (symbol : Option Symbol) (now : ℕ) (table : SignalTable)
    → All
        (λ row. ltb row.valid_until now ≡ false)
        (active_signals symbol (expire_stale_signals now table).1.rows)
unfolding expire_stale_signals
expire_stale_signals-valid symbol now table = active_signals-expired symbol now table.rows
