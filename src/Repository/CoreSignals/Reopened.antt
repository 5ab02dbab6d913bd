-- ===== src/Repository/CoreSignals/Reopened.antt =====
-- A core signal is open after it is created or opened again, and its key stays unique.
use mathlib.Core.Bool.{true≢false}
use mathlib.Core.Path.{subst}
use mathlib.Core.Option.{some-injective}
use jd_holdings.Prelude.{
  ℕ, ◌+◌, ◌*◌, one, ◌==◌, ◌≡◌, refl, sym, ap, ◌∙◌, ◌⊎◌, Bool, true, false, ◌&&◌, none, some, List,
  [], ◌∷◌, Bool-cases, Option-cases, ==_iff, arith, inl, inr,
}
use jd_holdings.Repository.Approvals.{cancel_active}
use jd_holdings.Repository.Approvals.Once.{NoneActive, cancel_active-NoneActive}
use jd_holdings.Repository.Signals.{
  SignalRow, SignalStatus, SignalKey, Versions, has_key, row_key, find_signal, update_signals,
}
use jd_holdings.Repository.Signals.Unique.{IsUnique}
use jd_holdings.Repository.CoreSignals.{
  CoreRequest, SignalBook, core_key, new_core_signal, reopened_signal, can_reopen,
  create_core_buy_signal,
}

pub core_signal-new :
    (versions : Versions) (request : CoreRequest) (again : Bool) (book : SignalBook)
    → find_signal (core_key versions request) book.signals.rows ≡ none
    → create_core_buy_signal versions request again book ≡ (
      (book.signals.last_id + 1, true),
      record book {
        signals = record {
          rows = new_core_signal versions (book.signals.last_id + 1) request ∷ book.signals.rows;
          last_id = book.signals.last_id + 1;
        };
      },
    )
unfolding create_core_buy_signal
core_signal-new versions request again book e = rw (e, create_core_buy_signal) refl

pub core_signal-kept :
    (versions : Versions) (request : CoreRequest) (again : Bool) (book : SignalBook)
    {row : SignalRow}
    → find_signal (core_key versions request) book.signals.rows ≡ some row
    → (again && can_reopen row.status) ≡ false
    → create_core_buy_signal versions request again book ≡ ((row.signal_id, false), book)
unfolding create_core_buy_signal
core_signal-kept versions request again book e c = rw (e, c, create_core_buy_signal) refl

pub core_signal-reopened :
    (versions : Versions) (request : CoreRequest) (again : Bool) (book : SignalBook)
    {row : SignalRow}
    → find_signal (core_key versions request) book.signals.rows ≡ some row
    → (again && can_reopen row.status) ≡ true
    → create_core_buy_signal versions request again book ≡ (
      (row.signal_id, true),
      record {
        signals = record {
          rows =
              update_signals
                (λ r. r.signal_id == row.signal_id)
                (reopened_signal request)
                book.signals.rows;
          last_id = book.signals.last_id;
        };
        approvals = cancel_active row.signal_id book.approvals;
      },
    )
unfolding create_core_buy_signal
core_signal-reopened versions request again book e c = rw (e, c, create_core_buy_signal) refl

pub has_key-reopened_signal :
    (key : SignalKey) (request : CoreRequest) (row : SignalRow)
    → has_key key (reopened_signal request row) ≡ has_key key row
unfolding has_key
has_key-reopened_signal key request row = refl

module _ (request : CoreRequest) (id : ℕ) where
  abbrev reopened : List SignalRow → List SignalRow
  reopened rows = update_signals (λ r. r.signal_id == id) (reopened_signal request) rows

  find_signal-reopened :
      (key : SignalKey) (rows : List SignalRow)
      → find_signal key rows ≡ none
      → find_signal key (reopened rows) ≡ none
  unfolding find_signal update_signals
  find_signal-reopened key [] h = refl
  find_signal-reopened key (row ∷ rows) h = elim (Bool-cases (has_key key row)) [
    | inl e ↦ cc
    | inr e ↦
        let rest = find_signal-reopened key rows (rw e at h) in
        let same = has_key-reopened_signal key request row in
        elim (Bool-cases (row.signal_id == id)) [
          | inl c ↦ rw (c, same, e) rest
          | inr c ↦ rw (c, e) rest
        ]
  ]

  reopened-IsUnique : (rows : List SignalRow) → IsUnique rows → IsUnique (reopened rows)
  unfolding IsUnique update_signals
  reopened-IsUnique [] h = h
  reopened-IsUnique (row ∷ rows) (h, t) =
      let rest = reopened-IsUnique rows t in
      let head = find_signal-reopened (row_key row) rows h in
      elim (Bool-cases (row.signal_id == id)) [
        | inl c ↦ rw c (head, rest)
        | inr c ↦ rw c (head, rest)
      ]

  find_signal-reopened_row :
      (key : SignalKey) (rows : List SignalRow) {row : SignalRow}
      → find_signal key rows ≡ some row
      → row.signal_id ≡ id
      → find_signal key (reopened rows) ≡ some (reopened_signal request row)
  unfolding find_signal update_signals
  find_signal-reopened_row key [] h k = cc
  find_signal-reopened_row key (head ∷ rows) {row} h k = elim (Bool-cases (has_key key head)) [
    | inl e ↦
        let same : head ≡ row = some-injective _ _ (rw e at h) in
        let chosen : (head.signal_id == id) ≡ true =
          (==_iff _ _).1 (ap (λ (r : SignalRow). r.signal_id) same ∙ k) in
        let keyed = has_key-reopened_signal key request head ∙ e in
        rw (chosen, keyed) (ap (λ (r : SignalRow). some (reopened_signal request r)) same)
    | inr e ↦
        let rest = find_signal-reopened_row key rows (rw e at h) k in
        let keyed = has_key-reopened_signal key request head ∙ e in
        elim (Bool-cases (head.signal_id == id)) [
          | inl c ↦ rw (c, keyed) rest
          | inr c ↦ rw (c, e) rest
        ]
  ]

-- The signal waits for a decision, with the price, the highest price, the budget and the time of the
-- request.
pub record IsOpenFor (request : CoreRequest) (id : ℕ) (row : SignalRow) : Type 0 where
  pub signal_id : row.signal_id ≡ id
  pub status : row.status ≡ SignalStatus.active
  pub processed : row.processed ≡ false
  pub signal_close : row.signal_close ≡ request.signal_close
  pub max_chase_price :
      row.max_chase_price ≡ request.signal_close * (one + request.entry_max_chase_pct)
  pub planned_budget : row.planned_budget ≡ request.planned_budget
  pub cycle_exposure_cap : row.cycle_exposure_cap ≡ request.planned_budget
  pub valid_until : row.valid_until ≡ request.valid_until

has_key-new_core_signal :
    (versions : Versions) (id : ℕ) (request : CoreRequest)
    → has_key (core_key versions request) (new_core_signal versions id request) ≡ true
unfolding has_key
has_key-new_core_signal versions id request = ground arith

find_signal-new_core_signal :
    (versions : Versions) (id : ℕ) (request : CoreRequest) (rows : List SignalRow)
    → find_signal (core_key versions request) (new_core_signal versions id request ∷ rows)
      ≡ some (new_core_signal versions id request)
unfolding find_signal
find_signal-new_core_signal versions id request rows =
    rw (has_key-new_core_signal versions id request) refl

module _ (versions : Versions) (request : CoreRequest) (again : Bool) (book : SignalBook) where
  -- The signal that the call is about, in the tables after it: where the call says that it is new or
  -- open again, it is open with the data of the request, and where it was there before, none of its
  -- approvals is left active.
  pub create_core_buy_signal-IsOpen :
      {id : ℕ}
      → (create_core_buy_signal versions request again book).0 ≡ (id, true)
      → (row : SignalRow) × (find_signal
            (core_key versions request)
            (create_core_buy_signal versions request again book).1.signals.rows
          ≡ some row)
        × IsOpenFor request id row
        × ((find_signal (core_key versions request) book.signals.rows ≡ none)
            ⊎ NoneActive id (create_core_buy_signal versions request again book).1.approvals)
  create_core_buy_signal-IsOpen {id} h =
      elim (Option-cases (find_signal (core_key versions request) book.signals.rows)) [
        | inl e ↦
            let made = core_signal-new versions request again book e in
            let same : book.signals.last_id + 1 ≡ id =
              ap (λ (q : ℕ × Bool). q.0)
                (sym (ap (λ (q : (ℕ × Bool) × SignalBook). q.0) made) ∙ h) in
            (
              new_core_signal versions (book.signals.last_id + 1) request,
              rw made (
                  find_signal-new_core_signal versions (book.signals.last_id + 1) request
                    book.signals.rows),
              record {
                signal_id = same;
                status = refl;
                processed = refl;
                signal_close = refl;
                max_chase_price = refl;
                planned_budget = refl;
                cycle_exposure_cap = refl;
                valid_until = refl;
              },
              inl e,
            )
        | inr (row, e) ↦ elim (Bool-cases (again && can_reopen row.status)) [
          | inl c ↦
              let made = core_signal-reopened versions request again book e c in
              let same : row.signal_id ≡ id =
                ap (λ (q : ℕ × Bool). q.0)
                  (sym (ap (λ (q : (ℕ × Bool) × SignalBook). q.0) made) ∙ h) in
              (
                reopened_signal request row,
                ap
                      (λ (q : (ℕ × Bool) × SignalBook).
                        find_signal (core_key versions request) q.1.signals.rows)
                      made
                    ∙ find_signal-reopened_row request row.signal_id (core_key versions request)
                        book.signals.rows e refl,
                record {
                  signal_id = same;
                  status = refl;
                  processed = refl;
                  signal_close = refl;
                  max_chase_price = refl;
                  planned_budget = refl;
                  cycle_exposure_cap = refl;
                  valid_until = refl;
                },
                inr (
                    rw made (
                      subst (λ n. NoneActive n (cancel_active row.signal_id book.approvals)) same
                        (cancel_active-NoneActive row.signal_id book.approvals))),
              )
          | inr c ↦
              let made = core_signal-kept versions request again book e c in
              absurd (
                true≢false (
                  sym (
                    ap (λ (q : ℕ × Bool). q.1)
                      (sym (ap (λ (q : (ℕ × Bool) × SignalBook). q.0) made) ∙ h))))
        ]
      ]

  -- A table of signals with no key twice has none twice after a core signal is created or opened
  -- again.
  pub create_core_buy_signal-IsUnique :
      IsUnique book.signals.rows
      → IsUnique (create_core_buy_signal versions request again book).1.signals.rows
  unfolding IsUnique
  create_core_buy_signal-IsUnique unique =
      elim (Option-cases (find_signal (core_key versions request) book.signals.rows)) [
        | inl e ↦ rw (core_signal-new versions request again book e) (e, unique)
        | inr (row, e) ↦ elim (Bool-cases (again && can_reopen row.status)) [
          | inl c ↦
              rw (core_signal-reopened versions request again book e c)
                (reopened-IsUnique request row.signal_id book.signals.rows unique)
          | inr c ↦ rw (core_signal-kept versions request again book e c) unique
        ]
      ]
