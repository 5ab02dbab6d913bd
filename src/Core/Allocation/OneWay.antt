-- ===== src/Core/Allocation/OneWay.antt =====
-- Within a month the allocation only steps down: the brake can lower the leverage, the sleeve can
-- leave the semiconductors, and neither comes back before the next month.
use jd_holdings.Prelude.{ℕ, ◌≤◌, ◌≡◌, ◌⊎◌, ℤ, true, false, Option, some, List, [], ◌∷◌, All, arith}
use jd_holdings.Core.Allocation.{
  V322Policy, AllocationState, QqqRow, Session, Target, is_braking, advance_state, replay_step,
  replay_from,
}

-- `next` is at most what `state` was.
pub record IsStepDown (state next : AllocationState) : Type 0 where
  pub leverage_le : next.leverage ≤ state.leverage
  pub semiconductor_le : (next.semiconductor_active ≡ false) ⊎ (state.semiconductor_active ≡ true)

-- A further session of the same month raises no leverage and turns no semiconductor sleeve on; at
-- the volatility brake, the leverage is at most the defensive one.
pub advance_state-IsStepDown :
    (previous : AllocationState) (row : QqqRow) (semi_return : Option ℤ) (policy : V322Policy)
    → let next = advance_state (some previous) previous.month row semi_return policy in
      IsStepDown previous next
      × (next.month ≡ previous.month)
      × ((is_braking row.volatility policy ≡ false) ⊎ (next.leverage ≤ policy.leverage_defensive))
unfolding advance_state
advance_state-IsStepDown previous row semi_return policy = ground arith

-- Every session is in the month.
abbrev pub InMonth : ℕ → List Session → Type 0
InMonth month = All (λ (s : Session). s.month ≡ month)

IsStepDown-trans : {a b c : AllocationState} → IsStepDown a b → IsStepDown b c → IsStepDown a c
IsStepDown-trans p q = record {
  leverage_le = omega arith;
  semiconductor_le = ground (arith, p.semiconductor_le, q.semiconductor_le);
}

replay_step-IsStepDown :
    (state : AllocationState) (s : Session) (policy : V322Policy)
    → s.month ≡ state.month
    → let next = (replay_step (some state) s policy).state in
      IsStepDown state next × (next.month ≡ state.month)
unfolding replay_step
replay_step-IsStepDown state s policy e =
    let (down, same, _) = advance_state-IsStepDown state s.row s.semi_return policy in
    rw e (down, same)

weaken :
    (state next : AllocationState) (targets : List Target)
    → IsStepDown state next
    → All (λ (t : Target). IsStepDown next t.state) targets
    → All (λ (t : Target). IsStepDown state t.state) targets
weaken state next [] d a = tt
weaken state next (t ∷ ts) d a = (IsStepDown-trans d a.0, weaken state next ts d a.1)

-- In a replay, no session of the rest of a month goes above the state that the month has reached.
pub replay_from-IsStepDown :
    (state : AllocationState) (sessions : List Session) (policy : V322Policy)
    → InMonth state.month sessions
    → All (λ (t : Target). IsStepDown state t.state) (replay_from (some state) sessions policy)
unfolding replay_from
replay_from-IsStepDown state [] policy m = tt
replay_from-IsStepDown state (s ∷ rest) policy (e, m) =
    let next = (replay_step (some state) s policy).state in
    let (down, same) = replay_step-IsStepDown state s policy e in
    let rest-down = replay_from-IsStepDown next rest policy (rw same m) in
    (down, weaken state next (replay_from (some next) rest policy) down rest-down)
