-- ===== src/Repository/CoreSignals/Tests.antt =====
-- A core buy that was invalidated, with an approval that is still active, and is opened again.
use jd_holdings.Prelude.{List, ℕ, ◌*◌, ◌≡◌, refl, ◌⊎◌, true, false, none, some, [], ◌∷◌, one, cent}
use jd_holdings.Model.Enums.{Symbol, ApprovalStage}
use jd_holdings.Repository.Approvals.{Approval, ApprovalStatus}
use jd_holdings.Repository.Approvals.Once.{NoneActive}
use jd_holdings.Repository.Signals.{SignalRow, SignalStatus, closed_signal, find_signal, has_key}
use jd_holdings.Repository.Signals.Unique.{IsUnique}
use jd_holdings.Repository.CoreSignals.{
  CoreRequest, SignalBook, core_key, new_core_signal, create_core_buy_signal,
}
use jd_holdings.Repository.CoreSignals.Reopened.{IsOpenFor, create_core_buy_signal-IsOpen}
use jd_holdings.Repository.CoreSignals.Histories.{Operation, run_all, run_all-IsUnique}
use jd_holdings.Repository.Signals.Samples.{versions, request as entry_request}

abbrev request : ℕ → CoreRequest
request budget = record {
  symbol = Symbol.qqq;
  trade_date = 739_000;
  signal_close = 400 * one;
  planned_budget = budget;
  valid_until = 100;
  entry_max_chase_pct = cent;
}

abbrev approval : Approval
approval = record {
  approval_id = 7;
  signal_id = 1;
  approval_token_hash = 101;
  approval_stage = ApprovalStage.review;
  status = ApprovalStatus.active;
  payload_json = 9;
  expires_at = 100;
}

abbrev book : SignalBook
book = record {
  signals = record {
    rows =
        closed_signal SignalStatus.invalid true (new_core_signal versions 1 (request (800 * one)))
        ∷ [];
    last_id = 1;
  };
  approvals = approval ∷ [];
}

opens : (create_core_buy_signal versions (request (400 * one)) true book).0 ≡ (1, true)
unfolding create_core_buy_signal find_signal has_key
opens = refl

stays : create_core_buy_signal versions (request (400 * one)) false book ≡ ((1, false), book)
unfolding create_core_buy_signal find_signal has_key
stays = refl

create_core_buy_signal-IsOpen_example :
    (row : SignalRow) × (find_signal
        (core_key versions (request (400 * one)))
        (create_core_buy_signal versions (request (400 * one)) true book).1.signals.rows
      ≡ some row)
    × IsOpenFor (request (400 * one)) 1 row
    × ((find_signal (core_key versions (request (400 * one))) book.signals.rows ≡ none)
        ⊎ NoneActive 1
            (create_core_buy_signal versions (request (400 * one)) true book).1.approvals)
create_core_buy_signal-IsOpen_example =
    create_core_buy_signal-IsOpen versions (request (400 * one)) true book opens

book-IsUnique : IsUnique book.signals.rows
unfolding IsUnique find_signal
book-IsUnique = (refl, tt)

-- The signal of the book is opened again, is processed, and a further day's signal expires.
abbrev operations : List Operation
operations =
    Operation.create_core versions (request (400 * one)) true
    ∷ (Operation.mark 1 SignalStatus.processed true
        ∷ (Operation.create_core versions (record (request (400 * one)) { trade_date = 739_001 })
              true
            ∷ (Operation.expire 101 ∷ [])))

run_all-IsUnique_example : IsUnique (run_all operations book).signals.rows
run_all-IsUnique_example = run_all-IsUnique operations book book-IsUnique
