-- ===== src/Core/Allocation/Replay.antt =====
-- What a validated policy guarantees of every target of a replay.
use jd_holdings.Prelude.{
  ℕ, ◌*◌, ◌≤◌, ◌≡◌, inl, inr, Bool, true, arith, one, cent, Option, none, some, ℤ, List, [], ◌∷◌,
  All, Option-cases, refl,
}
use jd_holdings.Core.Allocation.{
  V322Policy, validate, AllocationState, weight_one, base_weights, QqqRow, Features, row_ready,
  ready_leverage, base_leverage, advance_state, Session, Target, replay_step, replay_from,
  replay_targets,
}
use jd_holdings.Core.Allocation.Exposure.{
  total, base_weights-exposure, base_weights-even, apply_jdss_overlay-total,
}

-- The frozen levels.
pub record IsFrozen (policy : V322Policy) : Type 0 where
  pub defensive : policy.leverage_defensive ≡ 50 * cent
  pub normal : policy.leverage_normal ≡ one
  pub trend : policy.leverage_trend ≡ 125 * cent
  pub strong : policy.leverage_strong ≡ 150 * cent
  pub sleeve_le : policy.rs_sleeve_fraction ≤ one

pub validate-IsFrozen :
    (policy : V322Policy) (live : Bool) → validate policy live ≡ true → IsFrozen policy
unfolding validate
validate-IsFrozen policy live h = ground arith

ready_leverage-cases :
    (close : ℤ) (f : Features) (policy : V322Policy)
    → IsFrozen policy
    → ready_leverage close f policy ≤ 150 * cent
unfolding ready_leverage
ready_leverage-cases close f policy z = ground arith

base_leverage-le :
    (row : QqqRow) (policy : V322Policy) → IsFrozen policy → base_leverage row policy ≤ 150 * cent
unfolding base_leverage
base_leverage-le row policy z = elim (Option-cases (row_ready row)) [
  | inl e ↦ rw (e, base_leverage) (omega arith)
  | inr (f, e) ↦ rw (e, base_leverage) (ready_leverage-cases row.close f policy z)
]

-- The leverage of a state that a replay can have reached.
abbrev pub IsReached : Option AllocationState → Type 0
IsReached none = Unit
IsReached (some state) = state.leverage ≤ 150 * cent

advance_state-IsReached :
    (previous : Option AllocationState) (month : ℕ) (row : QqqRow) (semi : Option ℤ)
    (policy : V322Policy)
    → IsFrozen policy
    → IsReached previous
    → IsReached (some (advance_state previous month row semi policy))
unfolding advance_state
advance_state-IsReached none month row semi policy z r = base_leverage-le row policy z
advance_state-IsReached (some previous) month row semi policy z r =
    ground (arith, base_leverage-le row policy z)

-- A target that the equity pays for, with a leverage of at most 1.5.
pub record IsFunded (target : Target) : Type 0 where
  pub leverage_le : target.state.leverage ≤ 150 * cent
  pub total_le : total target.weights ≤ weight_one

replay_step-IsFunded :
    (state : Option AllocationState) (s : Session) (policy : V322Policy)
    → IsFrozen policy
    → IsReached state
    → IsFunded (replay_step state s policy)
unfolding replay_step
replay_step-IsFunded state s policy z r =
    let next = advance_state state s.month s.row s.semi_return policy in
    let low = advance_state-IsReached state s.month s.row s.semi_return policy z r in
    let w = base_weights next policy in
    let (_, whole) = base_weights-exposure next policy (omega arith) z.sleeve_le in
    let (kept, _) =
      apply_jdss_overlay-total w s.active_tqqq s.active_soxl policy
        (base_weights-even next policy) in
    record { leverage_le = low; total_le = omega arith }

replay_from-IsFunded :
    (state : Option AllocationState) (sessions : List Session) (policy : V322Policy)
    → IsFrozen policy
    → IsReached state
    → All IsFunded (replay_from state sessions policy)
unfolding replay_from
replay_from-IsFunded state [] policy z r = tt
replay_from-IsFunded state (s ∷ rest) policy z r =
    let funded = replay_step-IsFunded state s policy z r in
    (
      funded,
      replay_from-IsFunded (some (replay_step state s policy).state) rest policy z
          funded.leverage_le,
    )

-- Under a validated policy a replay of at least one session gives its targets, and no target asks
-- for more than the equity or for a leverage above 1.5.
pub replay_targets-IsFunded :
    (s : Session) (rest : List Session) (policy : V322Policy) (live : Bool)
    → validate policy live ≡ true
    → (targets : List Target) × (replay_targets (s ∷ rest) policy ≡ some targets)
      × All IsFunded targets
unfolding replay_targets
replay_targets-IsFunded s rest policy live v = (
  replay_from none (s ∷ rest) policy,
  refl,
  replay_from-IsFunded none (s ∷ rest) policy (validate-IsFrozen policy live v) tt,
)
