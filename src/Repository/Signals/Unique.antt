-- ===== src/Repository/Signals/Unique.antt =====
-- Creating a signal: one signal for a key, whatever is created.
use jd_holdings.Prelude.{
  ℕ, ◌+◌, ◌≡◌, refl, Bool, true, false, none, some, List, [], ◌∷◌, arith, Bool-cases, Option-cases,
  inl, inr,
}
use jd_holdings.Repository.Signals.{
  SignalRow, SignalTable, SignalRequest, SignalKey, SignalStatus, Versions, has_key, row_key,
  request_key, find_signal, new_signal, create_signal, update_signals, closed_signal,
}

-- No key occurs twice.
unfoldable pub IsUnique : List SignalRow → Type 0
IsUnique [] = Unit
IsUnique (row ∷ rows) = (find_signal (row_key row) rows ≡ none) × IsUnique rows

has_key-new_signal :
    (versions : Versions) (id : ℕ) (request : SignalRequest)
    → has_key (request_key versions request) (new_signal versions id request) ≡ true
unfolding has_key
has_key-new_signal versions id request = ground arith

pub create_signal-new :
    (versions : Versions) (request : SignalRequest) (table : SignalTable)
    → find_signal (request_key versions request) table.rows ≡ none
    → create_signal versions request table ≡ (
      (table.last_id + 1, true),
      record {
        rows = new_signal versions (table.last_id + 1) request ∷ table.rows;
        last_id = table.last_id + 1;
      },
    )
unfolding create_signal
create_signal-new versions request table e = rw (e, create_signal) refl

pub create_signal-known :
    (versions : Versions) (request : SignalRequest) (table : SignalTable) {row : SignalRow}
    → find_signal (request_key versions request) table.rows ≡ some row
    → create_signal versions request table ≡ ((row.signal_id, false), table)
unfolding create_signal
create_signal-known versions request table e = rw (e, create_signal) refl

pub find_signal-new_signal :
    (versions : Versions) (id : ℕ) (request : SignalRequest) (rows : List SignalRow)
    → find_signal (request_key versions request) (new_signal versions id request ∷ rows)
      ≡ some (new_signal versions id request)
unfolding find_signal
find_signal-new_signal versions id request rows = rw (has_key-new_signal versions id request) refl

-- A table of signals with no key twice has none twice after a signal is created.
pub create_signal-IsUnique :
    (versions : Versions) (request : SignalRequest) (table : SignalTable)
    → IsUnique table.rows
    → IsUnique (create_signal versions request table).1.rows
unfolding IsUnique
create_signal-IsUnique versions request table unique =
    elim (Option-cases (find_signal (request_key versions request) table.rows)) [
      | inl e ↦ rw (create_signal-new versions request table e) (e, unique)
      | inr (row, e) ↦ rw (create_signal-known versions request table e) unique
    ]

-- Creating a signal again, for the same key, returns the id of the first time, says that the signal
-- is not new, and leaves the table as it is.
pub create_signal-twice :
    (versions : Versions) (request : SignalRequest) (table : SignalTable)
    → create_signal versions request (create_signal versions request table).1 ≡ (
      ((create_signal versions request table).0.0, false),
      (create_signal versions request table).1,
    )
create_signal-twice versions request table =
    elim (Option-cases (find_signal (request_key versions request) table.rows)) [
      | inl e ↦
          let new = find_signal-new_signal versions (table.last_id + 1) request table.rows in
          rw (create_signal-new versions request table e)
            (create_signal-known versions request _ new)
      | inr (row, e) ↦
          let known = create_signal-known versions request table e in rw (known, known) refl
    ]

pub has_key-closed_signal :
    (key : SignalKey) (status : SignalStatus) (is_processed : Bool) (row : SignalRow)
    → has_key key (closed_signal status is_processed row) ≡ has_key key row
unfolding has_key
has_key-closed_signal key status is_processed row = refl

module _ (chosen : SignalRow → Bool) (status : SignalStatus) (is_processed : Bool) where
  find_signal-update :
      (key : SignalKey) (rows : List SignalRow)
      → find_signal key rows ≡ none
      → find_signal key (update_signals chosen (closed_signal status is_processed) rows) ≡ none
  unfolding find_signal update_signals
  find_signal-update key [] h = refl
  find_signal-update key (row ∷ rows) h = elim (Bool-cases (has_key key row)) [
    | inl e ↦ cc
    | inr e ↦
        let rest = find_signal-update key rows (rw e at h) in
        let same = has_key-closed_signal key status is_processed row in
        elim (Bool-cases (chosen row)) [ inl c ↦ rw (c, same, e) rest | inr c ↦ rw (c, e) rest ]
  ]

  pub update_signals-IsUnique :
      (rows : List SignalRow)
      → IsUnique rows
      → IsUnique (update_signals chosen (closed_signal status is_processed) rows)
  unfolding IsUnique update_signals
  update_signals-IsUnique [] h = h
  update_signals-IsUnique (row ∷ rows) (h, t) =
      let rest = update_signals-IsUnique rows t in
      let head = find_signal-update (row_key row) rows h in
      elim (Bool-cases (chosen row)) [ inl c ↦ rw c (head, rest) | inr c ↦ rw c (head, rest) ]
