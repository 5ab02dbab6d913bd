-- ===== src/Core/Allocation/Tests.antt =====
-- Two sessions of one month under the frozen policy, the second at the volatility brake.
use jd_holdings.Prelude.{ℕ, ◌*◌, ◌≡◌, refl, true, false, some, List, [], ◌∷◌, pos, one, cent, All}
use jd_holdings.Core.Allocation.{
  QqqRow, Session, Target, AllocationState, Weights, validate, replay_targets, replay_from,
}
use jd_holdings.Core.Allocation.OneWay.{IsStepDown, replay_from-IsStepDown}
use jd_holdings.Core.Allocation.Replay.{IsFunded, replay_targets-IsFunded}
use jd_holdings.Account.Samples.{sample_policy}

abbrev row : ℕ → QqqRow
row volatility = record {
  close = pos (500 * one);
  sma_short = some (pos (480 * one));
  sma_long = some (pos (450 * one));
  ret_short = some (pos (2 * cent));
  ret_medium = some (pos (5 * cent));
  ret_long = some (pos (10 * cent));
  volatility = some (pos volatility);
  sma_long_slope = some (pos cent);
}

abbrev calm : Session
calm = record {
  month = 24_001;
  row = row (15 * cent);
  semi_return = some (pos (20 * cent));
  active_tqqq = true;
  active_soxl = false;
}

abbrev stormy : Session
stormy = record {
  month = 24_001;
  row = row (35 * cent);
  semi_return = some (pos (5 * cent));
  active_tqqq = false;
  active_soxl = false;
}

abbrev strong : AllocationState
strong = record { month = 24_001; leverage = 150 * cent; semiconductor_active = true }

is_valid : validate sample_policy false ≡ true
unfolding validate
is_valid = refl

replay_targets-IsFunded_example :
    (targets : List Target) × (replay_targets (calm ∷ stormy ∷ []) sample_policy ≡ some targets)
    × All IsFunded targets
replay_targets-IsFunded_example =
    replay_targets-IsFunded calm (stormy ∷ []) sample_policy false is_valid

replay_from-IsStepDown_example :
    All
      (λ (t : Target). IsStepDown strong t.state)
      (replay_from (some strong) (calm ∷ stormy ∷ []) sample_policy)
replay_from-IsStepDown_example =
    replay_from-IsStepDown strong (calm ∷ stormy ∷ []) sample_policy (refl, (refl, tt))

abbrev half_qqq : Weights
half_qqq = record { qqq = 2 * one * one; tqqq = one * one; soxl = one * one }
