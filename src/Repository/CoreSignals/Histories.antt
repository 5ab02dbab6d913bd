-- ===== src/Repository/CoreSignals/Histories.antt =====
-- What the operations of database.py on its signals, in any sequence, keep: both ways to create one,
-- and all that changes one.
use jd_holdings.Prelude.{ℕ, ◌==◌, Bool, true, Option, List, [], ◌∷◌}
use jd_holdings.Model.Enums.{Symbol}
use jd_holdings.Repository.Signals.{
  SignalRequest, SignalKey, SignalStatus, Versions, create_signal, mark_signal,
  invalidate_active_signals, expire_stale_signals, to_invalidate, is_stale,
}
use jd_holdings.Repository.Signals.Unique.{
  IsUnique, create_signal-IsUnique, update_signals-IsUnique,
}
use jd_holdings.Repository.CoreSignals.{CoreRequest, SignalBook, create_core_buy_signal}
use jd_holdings.Repository.CoreSignals.Reopened.{create_core_buy_signal-IsUnique}

-- An operation that writes to the table of signals.
pub data Operation : Type 0 where
  create : Versions → SignalRequest → Operation
  create_core : Versions → CoreRequest → (reactivate_existing : Bool) → Operation
  invalidate : Symbol → Option SignalKey → Operation
  mark : ℕ → SignalStatus → Bool → Operation
  expire : ℕ → Operation

unfoldable pub run : Operation → SignalBook → SignalBook
run (Operation.create versions request) book = record book {
  signals = (create_signal versions request book.signals).1;
}
run (Operation.create_core versions request again) book =
    (create_core_buy_signal versions request again book).1
run (Operation.invalidate symbol kept) book = record book {
  signals = (invalidate_active_signals symbol kept book.signals).1;
}
run (Operation.mark id status is_processed) book = record book {
  signals = mark_signal id status is_processed book.signals;
}
run (Operation.expire now) book = record book {
  signals = (expire_stale_signals now book.signals).1;
}

unfoldable pub run_all : List Operation → SignalBook → SignalBook
run_all [] book = book
run_all (operation ∷ rest) book = run_all rest (run operation book)

run-IsUnique :
    (operation : Operation) (book : SignalBook)
    → IsUnique book.signals.rows
    → IsUnique (run operation book).signals.rows
unfolding run invalidate_active_signals mark_signal expire_stale_signals
run-IsUnique (Operation.create versions request) book h =
    create_signal-IsUnique versions request book.signals h
run-IsUnique (Operation.create_core versions request again) book h =
    create_core_buy_signal-IsUnique versions request again book h
run-IsUnique (Operation.invalidate symbol kept) book h =
    update_signals-IsUnique (to_invalidate symbol kept) SignalStatus.invalid true book.signals.rows
      h
run-IsUnique (Operation.mark id status is_processed) book h =
    update_signals-IsUnique (λ row. row.signal_id == id) status is_processed book.signals.rows h
run-IsUnique (Operation.expire now) book h =
    update_signals-IsUnique (is_stale now) SignalStatus.expired true book.signals.rows h

-- Whatever sequence of the operations that write signals runs, those for the allocation included, on
-- a table with no key twice, no key is twice in the table that results.
pub run_all-IsUnique :
    (operations : List Operation) (book : SignalBook)
    → IsUnique book.signals.rows
    → IsUnique (run_all operations book).signals.rows
unfolding run_all
run_all-IsUnique [] book h = h
run_all-IsUnique (operation ∷ rest) book h =
    run_all-IsUnique rest (run operation book) (run-IsUnique operation book h)
