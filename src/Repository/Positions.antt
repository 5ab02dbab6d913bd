-- ===== src/Repository/Positions.antt =====
-- transition_position of application/database.py: a position moves from the state, and where it
-- is given from the version, that its caller has read. The updates of the allowed columns are a
-- function of the row; symbol, state and version are set here. `state_history` has its latest
-- entry first. The number of the take-profit plan and the reason code are only stored and left out.
pub mod Lock
mod Tests
use jd_holdings.Prelude.{
  ℕ, ◌+◌, ◌==◌, if◌then◌else◌, Bool, true, false, not, Option, none, some, List, [], ◌∷◌,
}
use jd_holdings.Model.Enums.{Symbol, PositionState, same_symbol, same_state}
use jd_holdings.Model.Snapshot.{PositionSnapshot}
use jd_holdings.Repository.Errors.{Error, Result, ◌then◌, unless, require}

pub record HistoryEntry : Type 0 where
  pub cycle_id : Option ℕ
  pub symbol : Symbol
  pub previous_state : PositionState
  pub new_state : PositionState

pub record PositionTable : Type 0 where
  pub positions : List PositionSnapshot
  pub state_history : List HistoryEntry

-- SELECT ... FROM positions WHERE symbol = ?
unfoldable pub get_position : Symbol → List PositionSnapshot → Option PositionSnapshot
get_position symbol [] = none
get_position symbol (row ∷ rows) =
    if same_symbol row.symbol symbol then some row else get_position symbol rows

-- The row with its updates, its new state and its next version.
abbrev pub moved_row :
    (PositionSnapshot → PositionSnapshot) → PositionState → PositionSnapshot → PositionSnapshot
moved_row updates new_state row =
    let u = updates row in
    record {
      symbol = row.symbol;
      state = new_state;
      cycle_id = u.cycle_id;
      quantity = u.quantity;
      average_price = u.average_price;
      current_cost_basis = u.current_cost_basis;
      cycle_exposure_cap = u.cycle_exposure_cap;
      staged_entry_capital = u.staged_entry_capital;
      cash_remaining = u.cash_remaining;
      entry_count = u.entry_count;
      anchor_price = u.anchor_price;
      last_entry_price = u.last_entry_price;
      last_entry_date = u.last_entry_date;
      rebuy_count = u.rebuy_count;
      rebuy_recovery_armed = u.rebuy_recovery_armed;
      tp1_filled_qty = u.tp1_filled_qty;
      risk_review_level = u.risk_review_level;
      version = row.version + 1;
    }

-- UPDATE positions SET ... WHERE symbol = ? AND version = ?; the row was read with that version in
-- the same transaction.
unfoldable pub set_position :
    Symbol → PositionSnapshot → List PositionSnapshot → List PositionSnapshot
set_position symbol new [] = []
set_position symbol new (row ∷ rows) =
    if same_symbol row.symbol symbol then new ∷ rows else row ∷ set_position symbol new rows

-- `expected_version is not None and version != expected_version`
abbrev pub version_conflicts : Option ℕ → ℕ → Bool
version_conflicts none version = false
version_conflicts (some expected) version = not (version == expected)

unfoldable pub transition_position :
    Symbol
    → PositionState
    → PositionState
    → (PositionSnapshot → PositionSnapshot)
    → Option ℕ
    → PositionTable
    → Result PositionTable
transition_position symbol expected_state new_state updates expected_version table =
    require Error.missing_key (get_position symbol table.positions) then λ row.
    unless (not (same_state row.state expected_state)) Error.state_conflict (
      unless (version_conflicts expected_version row.version) Error.state_conflict (
        let moved = moved_row updates new_state row in
        Result.ok (record {
          positions = set_position symbol moved table.positions;
          state_history =
              record {
                cycle_id = moved.cycle_id;
                symbol = symbol;
                previous_state = expected_state;
                new_state = new_state;
              }
              ∷ table.state_history;
        })))
