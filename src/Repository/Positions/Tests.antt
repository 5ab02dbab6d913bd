-- ===== src/Repository/Positions/Tests.antt =====
-- A position that goes from its approval to its fill, while another caller asks for safe mode.
use jd_holdings.Prelude.{◌*◌, ◌≡◌, refl, false, none, some, [], ◌∷◌, one}
use jd_holdings.Model.Enums.{Symbol, PositionState, RiskReviewLevel}
use jd_holdings.Model.Snapshot.{PositionSnapshot}
use jd_holdings.Repository.Errors.{Error, Result}
use jd_holdings.Repository.Positions.{
  PositionTable, get_position, set_position, moved_row, transition_position,
}
use jd_holdings.Repository.Positions.Lock.{transition_position-once}

abbrev waiting : PositionSnapshot
waiting = record {
  symbol = Symbol.tqqq;
  state = PositionState.waiting_1st_approval;
  cycle_id = none;
  quantity = 0;
  average_price = 0;
  current_cost_basis = 0;
  cycle_exposure_cap = 0;
  staged_entry_capital = 0;
  cash_remaining = 10_000 * one;
  entry_count = 0;
  anchor_price = 0;
  last_entry_price = 0;
  last_entry_date = none;
  rebuy_count = 0;
  rebuy_recovery_armed = false;
  tp1_filled_qty = 0;
  risk_review_level = RiskReviewLevel.none;
  version = 4;
}

abbrev table : PositionTable
table = record { positions = waiting ∷ []; state_history = [] }

abbrev moved : PositionTable
moved = record {
  positions = moved_row (λ row. row) PositionState.waiting_1st_fill waiting ∷ [];
  state_history =
      record {
        cycle_id = none;
        symbol = Symbol.tqqq;
        previous_state = PositionState.waiting_1st_approval;
        new_state = PositionState.waiting_1st_fill;
      }
      ∷ [];
}

moves :
    transition_position Symbol.tqqq PositionState.waiting_1st_approval
      PositionState.waiting_1st_fill
      (λ row. row)
      (some 4)
      table
    ≡ Result.ok moved
unfolding transition_position get_position set_position
moves = refl

transition_position-once_example :
    transition_position Symbol.tqqq PositionState.waiting_1st_fill PositionState.safe_mode
      (λ row. row)
      (some 4)
      moved
    ≡ Result.failed Error.state_conflict
transition_position-once_example =
    transition_position-once Symbol.tqqq PositionState.waiting_1st_approval
      PositionState.waiting_1st_fill (λ row. row) (some 4) table 4 PositionState.waiting_1st_fill
      PositionState.safe_mode (λ row. row) refl moves
