-- ===== src/Core/Allocation.antt =====
-- core/v322_allocation.py: the monthly allocation to QQQ, TQQQ and SOXL. A feature that a rolling
-- window cannot give yet is NaN: `none`. Months are numbers. Leverages are whole numbers of 10^-18;
-- weights are whole numbers of a quarter of 10^-36, so that every division of the code is exact.
pub mod OneWay
pub mod Exposure
pub mod Replay
mod Tests
use jd_holdings.Prelude.{
  ℕ, ◌+◌, ◌-◌, ◌*◌, ◌/◌, min, max, ℤ, pos, ltb_ℤ, leb_ℤ, Bool, true, false, ◌&&◌, ◌||◌, not, Option,
  none, some, ◌>>=◌, List, [], ◌∷◌, is_none, one, cent, ltb, leb, ◌==◌, if◌then◌else◌,
}

pub record V322Policy : Type 0 where
  pub initial_capital : ℕ
  pub hwm_reinvestment_fraction : ℕ
  pub sma_short : ℕ
  pub sma_long : ℕ
  pub slope_lookback : ℕ
  pub momentum_short : ℕ
  pub momentum_medium : ℕ
  pub momentum_long : ℕ
  pub volatility_window : ℕ
  pub volatility_brake : ℕ
  pub trend_votes_required : ℕ
  pub leverage_defensive : ℕ
  pub leverage_normal : ℕ
  pub leverage_trend : ℕ
  pub leverage_strong : ℕ
  pub benchmark_is_soxx : Bool
  pub rs_lookback : ℕ
  pub rs_sleeve_fraction : ℕ
  pub jdss_overlay_weight : ℕ
  pub resets_at_first_session : Bool

-- `abs(x - y) <= 1e-12`
abbrev pub near : ℕ → ℕ → Bool
near x y = leb x (y + 1_000_000) && leb y (x + 1_000_000)

-- Whether `validate` raises nothing; `live_enabled` is the portfolio's flag.
unfoldable pub validate : V322Policy → Bool → Bool
validate p live_enabled =
    (p.initial_capital == 50_000 * one)
    && ((p.hwm_reinvestment_fraction == 75 * cent)
        && ((p.sma_short == 50)
            && ((p.sma_long == 200)
                && ((p.slope_lookback == 21)
                    && ((p.momentum_short == 21)
                        && ((p.momentum_medium == 63)
                            && ((p.momentum_long == 126)
                                && ((p.volatility_window == 20)
                                    && (near p.volatility_brake (30 * cent)
                                        && ((p.trend_votes_required == 3)
                                            && ((p.leverage_defensive == 50 * cent)
                                                && ((p.leverage_normal == one)
                                                    && ((p.leverage_trend == 125 * cent)
                                                        && ((p.leverage_strong == 150 * cent)
                                                            && (p.benchmark_is_soxx
                                                            && ((p.rs_lookback == 126)
                                                            && (near p.rs_sleeve_fraction
                                                            (50 * cent)
                                                            && (near p.jdss_overlay_weight
                                                            (5 * cent)
                                                            && (p.resets_at_first_session
                                                            && not live_enabled)))))))))))))))))))

pub record AllocationState : Type 0 where
  pub month : ℕ
  pub leverage : ℕ
  pub semiconductor_active : Bool

pub record QqqRow : Type 0 where
  pub close : ℤ
  pub sma_short : Option ℤ
  pub sma_long : Option ℤ
  pub ret_short : Option ℤ
  pub ret_medium : Option ℤ
  pub ret_long : Option ℤ
  pub volatility : Option ℤ
  pub sma_long_slope : Option ℤ

-- The features of a row that is ready.
pub record Features : Type 0 where
  pub sma_short : ℤ
  pub sma_long : ℤ
  pub ret_short : ℤ
  pub ret_medium : ℤ
  pub ret_long : ℤ
  pub volatility : ℤ
  pub sma_long_slope : ℤ

-- `_row_ready`, with the values.
unfoldable pub row_ready : QqqRow → Option Features
row_ready row = do
  sma_short ← row.sma_short
  sma_long ← row.sma_long
  ret_short ← row.ret_short
  ret_medium ← row.ret_medium
  ret_long ← row.ret_long
  volatility ← row.volatility
  slope ← row.sma_long_slope
  some (record {
    sma_short = sma_short;
    sma_long = sma_long;
    ret_short = ret_short;
    ret_medium = ret_medium;
    ret_long = ret_long;
    volatility = volatility;
    sma_long_slope = slope;
  })

abbrev pub is_positive : ℤ → Bool
is_positive x = ltb_ℤ (pos 0) x

abbrev vote : Bool → ℕ
vote true = 1
vote false = 0

unfoldable pub votes : Features → ℕ
votes f =
    vote (is_positive f.ret_short)
    + vote (is_positive f.ret_medium)
    + vote (is_positive f.ret_long)
    + vote (ltb_ℤ f.sma_long f.sma_short)
    + vote (is_positive f.sma_long_slope)

-- The leverage of a row that is ready.
unfoldable pub ready_leverage : ℤ → Features → V322Policy → ℕ
unfolding votes
ready_leverage close f policy =
    if leb_ℤ (pos policy.volatility_brake) f.volatility
    then policy.leverage_defensive
    else if leb_ℤ close f.sma_long
    then policy.leverage_normal
    else if ltb_ℤ f.sma_long f.sma_short && (is_positive f.ret_medium && is_positive f.ret_long)
    then policy.leverage_strong
    else if leb policy.trend_votes_required (votes f)
    then policy.leverage_trend
    else policy.leverage_normal

unfoldable pub base_leverage : QqqRow → V322Policy → ℕ
base_leverage row policy = elim (row_ready row) [
  | none ↦ policy.leverage_normal
  | some f ↦ ready_leverage row.close f policy
]

-- The 126-day returns of QQQ and of the semiconductors.
unfoldable pub semiconductor_wins : Option ℤ → Option ℤ → Bool
semiconductor_wins (some qqq_return) (some semi_return) =
    is_positive semi_return && ltb_ℤ qqq_return semi_return
semiconductor_wins _ _ = false

abbrev pub is_braking : Option ℤ → V322Policy → Bool
is_braking none policy = false
is_braking (some volatility) policy = leb_ℤ (pos policy.volatility_brake) volatility

-- The first session of a month starts from the rows alone.
abbrev pub fresh_state : ℕ → QqqRow → Option ℤ → V322Policy → AllocationState
fresh_state month row semi_return policy = record {
  month = month;
  leverage = base_leverage row policy;
  semiconductor_active = semiconductor_wins row.ret_long semi_return;
}

unfoldable pub advance_state :
    Option AllocationState → ℕ → QqqRow → Option ℤ → V322Policy → AllocationState
advance_state none month row semi_return policy = fresh_state month row semi_return policy
advance_state (some previous) month row semi_return policy =
    if previous.month == month
    then record {
      month = month;
      leverage =
          if is_braking row.volatility policy && ltb policy.leverage_defensive previous.leverage
          then policy.leverage_defensive
          else previous.leverage;
      semiconductor_active =
          previous.semiconductor_active && semiconductor_wins row.ret_long semi_return;
    }
    else fresh_state month row semi_return policy

-- A symbol that the dictionary leaves out has weight 0.
pub record Weights : Type 0 where
  pub qqq : ℕ
  pub tqqq : ℕ
  pub soxl : ℕ

-- The weight 1.0.
abbrev pub weight_one : ℕ
weight_one = 4 * one * one

-- (leverage - 1) / 2 is the sleeve.
unfoldable pub base_weights : AllocationState → V322Policy → Weights
base_weights state policy =
    let excess = state.leverage - one in
    if leb state.leverage one
    then record { qqq = state.leverage * (4 * one); tqqq = 0; soxl = 0 }
    else if state.semiconductor_active
    then record {
      qqq = weight_one - 2 * one * excess;
      tqqq = 2 * excess * (one - policy.rs_sleeve_fraction);
      soxl = 2 * excess * policy.rs_sleeve_fraction;
    }
    else record { qqq = weight_one - 2 * one * excess; tqqq = 2 * one * excess; soxl = 0 }

-- Before the last filter: the shift is split over the active symbols.
pub shift_overlay : Weights → Bool → Bool → V322Policy → Weights
shift_overlay w active_tqqq active_soxl policy =
    let shift = min (policy.jdss_overlay_weight * (4 * one)) w.qqq in
    let moved = if active_tqqq && active_soxl then shift / 2 else shift in
    record {
      qqq = if active_tqqq || active_soxl then w.qqq - shift else w.qqq;
      tqqq = if active_tqqq then w.tqqq + moved else w.tqqq;
      soxl = if active_soxl then w.soxl + moved else w.soxl;
    }

-- 1e-12
abbrev pub tiny : ℕ
tiny = 1_000_000 * (4 * one)

abbrev keep : ℕ → ℕ
keep w = if ltb tiny w then w else 0

unfoldable pub apply_jdss_overlay : Weights → Bool → Bool → V322Policy → Weights
apply_jdss_overlay weights active_tqqq active_soxl policy =
    let w = shift_overlay weights active_tqqq active_soxl policy in
    record { qqq = keep w.qqq; tqqq = keep w.tqqq; soxl = keep w.soxl }

-- A session: its month, its rows and the overlay's flags.
pub record Session : Type 0 where
  pub month : ℕ
  pub row : QqqRow
  pub semi_return : Option ℤ
  pub active_tqqq : Bool
  pub active_soxl : Bool

pub record Target : Type 0 where
  pub state : AllocationState
  pub weights : Weights

pub replay_step : Option AllocationState → Session → V322Policy → Target
replay_step state s policy =
    let next = advance_state state s.month s.row s.semi_return policy in
    record {
      state = next;
      weights = apply_jdss_overlay (base_weights next policy) s.active_tqqq s.active_soxl policy;
    }

pub replay_from : Option AllocationState → List Session → V322Policy → List Target
replay_from state [] policy = []
replay_from state (s ∷ rest) policy =
    let target = replay_step state s policy in target ∷ replay_from (some target.state) rest policy

-- No session is a ValueError.
unfoldable pub replay_targets : List Session → V322Policy → Option (List Target)
replay_targets [] policy = none
replay_targets (s ∷ rest) policy = some (replay_from none (s ∷ rest) policy)

-- In 10^-36; an equity below 0 leaves no budget.
unfoldable pub hwm_risk_budget : ℕ → ℕ → V322Policy → ℕ
hwm_risk_budget high_water_equity current_equity policy =
    min
      (policy.initial_capital * one
        + policy.hwm_reinvestment_fraction * (high_water_equity - policy.initial_capital))
      (current_equity * one)
