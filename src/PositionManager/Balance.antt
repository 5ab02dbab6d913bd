-- ===== src/PositionManager/Balance.antt =====
-- A holding and its take-profit plan: what is held and what the plan has sold make up the plan.
use mathlib.Core.Option.{some-injective}
use jd_holdings.Prelude.{◌+◌, ◌≤◌, ◌≡◌, ap, Option, none, some, List, [], ◌∷◌}
use jd_holdings.Model.Enums.{Symbol}
use jd_holdings.Model.Snapshot.{PositionSnapshot}
use jd_holdings.Repository.Positions.{get_position}
use jd_holdings.Repository.Plans.{TpPlanRow, active_plans, first_plan}
use jd_holdings.PositionManager.Book.{Book}

-- A plan of a position: the legs sell no more than their targets, and what is held and what is
-- sold are the two targets.
pub record IsBalancedPlan (position : PositionSnapshot) (plan : TpPlanRow) : Type 0 where
  pub tp1 : plan.tp1_filled_qty ≤ plan.tp1_target_qty
  pub tp2 : plan.tp2_filled_qty ≤ plan.tp2_target_qty
  pub total :
      position.quantity + (plan.tp1_filled_qty + plan.tp2_filled_qty)
      ≡ plan.tp1_target_qty + plan.tp2_target_qty

-- There is one active plan at most, and it balances the position.
unfoldable pub Balances : Option PositionSnapshot → List TpPlanRow → Type 0
Balances position [] = Unit
Balances none (plan ∷ []) = Unit
Balances (some position) (plan ∷ []) = IsBalancedPlan position plan
Balances position (plan ∷ (other ∷ plans)) = ⊥

unfoldable pub IsBalanced : Symbol → Book → Type 0
IsBalanced symbol book =
    Balances (get_position symbol book.position_table.positions)
      (active_plans symbol book.tp_plans.rows)

-- The plan that the lookup takes is the only one.
pub single :
    (position : Option PositionSnapshot) (plans : List TpPlanRow) {plan : TpPlanRow}
    → Balances position plans
    → first_plan plans ≡ some plan
    → plans ≡ plan ∷ []
unfolding Balances
single position [] h e = cc
single none (p ∷ []) h e = ap (λ (x : TpPlanRow). x ∷ []) (some-injective _ _ e)
single (some _) (p ∷ []) h e = ap (λ (x : TpPlanRow). x ∷ []) (some-injective _ _ e)
single none (p ∷ (q ∷ plans)) h e = absurd h
single (some _) (p ∷ (q ∷ plans)) h e = absurd h

-- There is a position, and one active plan, which balances it.
unfoldable pub Holds : Option PositionSnapshot → List TpPlanRow → Type 0
Holds (some position) (plan ∷ []) = IsBalancedPlan position plan
Holds _ _ = ⊥

unfoldable pub HoldsPlan : Symbol → Book → Type 0
HoldsPlan symbol book =
    Holds (get_position symbol book.position_table.positions)
      (active_plans symbol book.tp_plans.rows)

Holds-Balances :
    (position : Option PositionSnapshot) (plans : List TpPlanRow)
    → Holds position plans
    → Balances position plans
unfolding Holds Balances
Holds-Balances none plans h = absurd h
Holds-Balances (some position) [] h = absurd h
Holds-Balances (some position) (plan ∷ []) h = h
Holds-Balances (some position) (plan ∷ (other ∷ plans)) h = absurd h

pub HoldsPlan-IsBalanced :
    (symbol : Symbol) (book : Book) → HoldsPlan symbol book → IsBalanced symbol book
unfolding HoldsPlan IsBalanced
HoldsPlan-IsBalanced symbol book h = Holds-Balances _ _ h
