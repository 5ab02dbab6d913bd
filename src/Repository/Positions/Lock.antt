-- ===== src/Repository/Positions/Lock.antt =====
-- The lock on a position: of two callers that have read one version, only one moves it.
use mathlib.Core.Option.{some-injective}
use jd_holdings.Prelude.{
  ℕ, ◌==◌, ==_iff, ◌≡◌, refl, sym, ap, Bool, true, false, not, Option, some, List, [], ◌∷◌, arith,
  Bool-cases, inl, inr,
}
use jd_holdings.Model.Enums.{
  Symbol, PositionState, same_symbol, same_state, same_state→eq, same_state_refl,
}
use jd_holdings.Model.Snapshot.{PositionSnapshot}
use jd_holdings.Repository.Errors.{
  Error, Result, require, unless, then-eq-ok, unless-eq-ok, require-eq-ok, ok-injective,
}
use jd_holdings.Repository.Positions.{
  PositionTable, get_position, moved_row, set_position, version_conflicts, transition_position,
}

get-set_position :
    (symbol : Symbol) (updates : PositionSnapshot → PositionSnapshot) (state : PositionState)
    (rows : List PositionSnapshot) {row : PositionSnapshot}
    → get_position symbol rows ≡ some row
    → get_position symbol (set_position symbol (moved_row updates state row) rows)
      ≡ some (moved_row updates state row)
unfolding get_position set_position
get-set_position symbol updates state [] h = cc
get-set_position symbol updates state (r ∷ rows) {row} h =
    elim (Bool-cases (same_symbol r.symbol symbol)) [
      | inl e ↦
          let same : r ≡ row = some-injective _ _ (rw e at h) in
          let e' : same_symbol row.symbol symbol ≡ true = rw (← same) e in rw (e, e') refl
      | inr e ↦ rw (e, e) (get-set_position symbol updates state rows (rw e at h))
    ]

conflicts {ℓ} :
    {A : Type ℓ} (wrong : Bool) {rest : Result A}
    → rest ≡ Result.failed Error.state_conflict
    → unless wrong Error.state_conflict rest ≡ Result.failed Error.state_conflict
conflicts true h = refl
conflicts false h = h

module _ (symbol : Symbol) (expected new_state : PositionState)
    (updates : PositionSnapshot → PositionSnapshot) (version : Option ℕ)
    (table : PositionTable) where
  -- A transition that succeeds found its position in the expected state and version, put it in the new state
  -- with the next version, and wrote the two states at the head of the history.
  pub transition_position-ok :
      {after : PositionTable}
      → transition_position symbol expected new_state updates version table ≡ Result.ok after
      → (row : PositionSnapshot) × (get_position symbol table.positions ≡ some row)
        × (row.state ≡ expected)
        × (version_conflicts version row.version ≡ false)
        × (get_position symbol after.positions ≡ some (moved_row updates new_state row))
        × (after.state_history
            ≡ record {
              cycle_id = (moved_row updates new_state row).cycle_id;
              symbol = symbol;
              previous_state = expected;
              new_state = new_state;
            }
              ∷ table.state_history)
  unfolding transition_position
  transition_position-ok {after = after} h =
      let (row, found, h1) =
        then-eq-ok (require Error.missing_key (get_position symbol table.positions)) _ h in
      let (state, h2) = unless-eq-ok (not (same_state row.state expected)) _ _ h1 in
      let (lock, h3) = unless-eq-ok (version_conflicts version row.version) _ _ h2 in
      let there = require-eq-ok _ _ found in
      let e = ok-injective h3 in
      (
        row,
        there,
        same_state→eq row.state expected (ground (arith, state)),
        lock,
        rw (← e) (get-set_position symbol updates new_state table.positions there),
        sym (ap (λ (t : PositionTable). t.state_history) e),
      )

  -- After a transition from a version, another transition from that version is refused, whatever
  -- states and updates it asks for.
  pub transition_position-once :
      (read : ℕ) {after : PositionTable} (from to : PositionState)
      (others : PositionSnapshot → PositionSnapshot)
      → version ≡ some read
      → transition_position symbol expected new_state updates version table ≡ Result.ok after
      → transition_position symbol from to others (some read) after
        ≡ Result.failed Error.state_conflict
  unfolding transition_position
  transition_position-once read from to others v h =
      let (row, _, _, lock, there, _) = transition_position-ok h in
      let moved = moved_row updates new_state row in
      let same : row.version ≡ read = ground (arith, rw v at lock) in
      let stale : (moved.version == read) ≡ false = ground (arith, same) in
      rw there (conflicts (not (same_state moved.state from)) (rw stale refl))

-- A transition from the state and the version that the position has succeeds, and moves it.
pub transition_position-moves :
    (symbol : Symbol) (new_state : PositionState) (updates : PositionSnapshot → PositionSnapshot)
    (table : PositionTable) (row : PositionSnapshot)
    → get_position symbol table.positions ≡ some row
    → (after : PositionTable) × (transition_position symbol row.state new_state updates
          (some row.version)
          table
        ≡ Result.ok after)
      × (get_position symbol after.positions ≡ some (moved_row updates new_state row))
unfolding transition_position
transition_position-moves symbol new_state updates table row found =
    let state = same_state_refl row.state in
    let version : (row.version == row.version) ≡ true = (==_iff _ _).1 refl in
    let moved = moved_row updates new_state row in
    (
      record {
        positions = set_position symbol moved table.positions;
        state_history =
            record {
              cycle_id = moved.cycle_id;
              symbol = symbol;
              previous_state = row.state;
              new_state = new_state;
            }
            ∷ table.state_history;
      },
      rw (found, state, version) refl,
      get-set_position symbol updates new_state table.positions found,
    )
