-- ===== src/Core/Allocation/Exposure.antt =====
-- The weights of a day: never more than the equity, and exactly the leverage that was decided on.
use native.Mathlib.Nat.{mul-le-mul_right}
use jd_holdings.Prelude.{max, ℕ, ◌+◌, ◌-◌, ◌*◌, ◌%◌, ◌≤◌, ◌≡◌, min, Bool, arith, ap, one}
use jd_holdings.Core.Allocation.{
  V322Policy, AllocationState, Weights, weight_one, base_weights, shift_overlay, tiny, keep,
  apply_jdss_overlay, hwm_risk_budget,
}

abbrev pub total : Weights → ℕ
total w = w.qqq + w.tqqq + w.soxl

-- What the weights expose, each of the two funds threefold.
abbrev pub exposure : Weights → ℕ
exposure w = w.qqq + 3 * w.tqqq + 3 * w.soxl

-- For a leverage up to 3 and a sleeve fraction up to 1, the weights expose exactly that
-- leverage; they use the whole equity above a leverage of 1 and the leverage itself below it.
pub base_weights-exposure :
    (state : AllocationState) (policy : V322Policy)
    → state.leverage ≤ 3 * one
    → policy.rs_sleeve_fraction ≤ one
    → let w = base_weights state policy in
      (exposure w ≡ state.leverage * (4 * one))
      × (total w ≡ min weight_one (state.leverage * (4 * one)))
unfolding base_weights
base_weights-exposure state policy h k =
    let excess = state.leverage - one in
    let f = policy.rs_sleeve_fraction in
    let whole : one - f + f ≡ one = omega arith in
    let split : excess * (one - f) + excess * f ≡ excess * one =
      omega (arith, ap (λ (t : ℕ). excess * t) whole) in
    ground (arith, split)

-- The overlay moves weight from QQQ to its active symbols and neither adds nor loses any.
pub shift_overlay-total :
    (w : Weights) (active_tqqq active_soxl : Bool) (policy : V322Policy)
    → w.qqq % 2 ≡ 0
    → total (shift_overlay w active_tqqq active_soxl policy) ≡ total w
unfolding shift_overlay
shift_overlay-total w a b policy h = ground arith

keep_near : (w : ℕ) → (keep w ≤ w) × (w ≤ keep w + tiny)
keep_near w = ground arith

-- Where the weight of QQQ is an even number, a target holds, after the overlay and the filter
-- of tiny weights, no more than before, and at most three tiny weights less.
pub apply_jdss_overlay-total :
    (w : Weights) (active_tqqq active_soxl : Bool) (policy : V322Policy)
    → w.qqq % 2 ≡ 0
    → let after = total (apply_jdss_overlay w active_tqqq active_soxl policy) in
      (after ≤ total w) × (total w ≤ after + 3 * tiny)
unfolding apply_jdss_overlay
apply_jdss_overlay-total w a b policy h =
    let same = shift_overlay-total w a b policy h in
    let v = shift_overlay w a b policy in
    let q = keep_near v.qqq in let t = keep_near v.tqqq in let s = keep_near v.soxl in omega arith

pub base_weights-even :
    (state : AllocationState) (policy : V322Policy) → (base_weights state policy).qqq % 2 ≡ 0
unfolding base_weights
base_weights-even state policy = ground arith

-- Where at most the whole gain is reinvested, the risk budget is never above the equity, and never
-- above the high-water mark or the initial capital, whichever is more.
pub hwm_risk_budget-le :
    (high current : ℕ) (policy : V322Policy)
    → policy.hwm_reinvestment_fraction ≤ one
    → let budget = hwm_risk_budget high current policy in
      (budget ≤ current * one) × (budget ≤ max policy.initial_capital high * one)
unfolding hwm_risk_budget
hwm_risk_budget-le high current policy h =
    let gain = high - policy.initial_capital in
    let part : policy.hwm_reinvestment_fraction * gain ≤ one * gain = mul-le-mul_right gain h in
    (omega arith, omega arith)
