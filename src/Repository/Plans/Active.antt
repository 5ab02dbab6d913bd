-- ===== src/Repository/Plans/Active.antt =====
-- What the operations on tp_plans do to the active plans of a symbol.
use jd_holdings.Prelude.{
  ℕ, ◌+◌, ◌==◌, if◌then◌else◌, ◌≡◌, refl, ◌&&◌, List, [], ◌∷◌, arith, Bool-cases, and_false, inl,
  inr,
}
use jd_holdings.Model.Enums.{Symbol, same_symbol}
use jd_holdings.Repository.Plans.{
  TpPlanRow, PlanTable, PlanRequest, TpLeg, deactivate_symbol, new_plan, create_tp_plan,
  active_plans, with_fills, set_plan, closed_plan,
}

active_plans-deactivate_symbol :
    (symbol : Symbol) (rows : List TpPlanRow)
    → active_plans symbol (deactivate_symbol symbol rows) ≡ []
unfolding active_plans deactivate_symbol
active_plans-deactivate_symbol symbol [] = refl
active_plans-deactivate_symbol symbol (row ∷ rows) =
    let rest = active_plans-deactivate_symbol symbol rows in
    elim (Bool-cases (same_symbol row.symbol symbol && row.active)) [
      | inl e ↦ rw e (ground (arith, rest))
      | inr e ↦ rw (e, e) rest
    ]

-- The rows of other ids.
unfoldable pub without_plan : ℕ → List TpPlanRow → List TpPlanRow
without_plan id [] = []
without_plan id (row ∷ rows) =
    if row.tp_plan_id == id then without_plan id rows else row ∷ without_plan id rows

-- After a plan has been created, it is the only active one of its symbol.
pub create_tp_plan-active :
    (request : PlanRequest) (table : PlanTable)
    → active_plans request.symbol (create_tp_plan request table).rows
      ≡ new_plan (table.last_id + 1) request ∷ []
unfolding active_plans create_tp_plan
create_tp_plan-active request table =
    let rest = active_plans-deactivate_symbol request.symbol table.rows in ground (arith, rest)

with_fills_keeps :
    (leg : TpLeg) (filled : ℕ) (symbol : Symbol) (row : TpPlanRow)
    → (same_symbol (with_fills leg filled row).symbol symbol && (with_fills leg filled row).active)
      ≡ (same_symbol row.symbol symbol && row.active)
with_fills_keeps TpLeg.tp1 filled symbol row = refl
with_fills_keeps TpLeg.tp2 filled symbol row = refl

-- Storing the fill of a leg keeps every plan active or not, as it is.
pub active_plans-update :
    (symbol : Symbol) (id : ℕ) (leg : TpLeg) (filled : ℕ) (rows : List TpPlanRow)
    → active_plans symbol (set_plan id (with_fills leg filled) rows)
      ≡ set_plan id (with_fills leg filled) (active_plans symbol rows)
unfolding active_plans set_plan
active_plans-update symbol id leg filled [] = refl
active_plans-update symbol id leg filled (row ∷ rows) =
    let rest = active_plans-update symbol id leg filled rows in
    let kept = with_fills_keeps leg filled symbol row in
    elim (Bool-cases (row.tp_plan_id == id)) [
      | inl e ↦ elim (Bool-cases (same_symbol row.symbol symbol && row.active)) [
        | inl f ↦ rw (e, kept, f, e, rest) refl
        | inr f ↦ rw (e, kept, f) rest
      ]
      | inr e ↦ elim (Bool-cases (same_symbol row.symbol symbol && row.active)) [
        | inl f ↦ rw (e, f, e, rest) refl
        | inr f ↦ rw (e, f) rest
      ]
    ]

-- Deactivating a plan takes it from the active plans of every symbol, and no plan of another id.
pub active_plans-deactivate :
    (symbol : Symbol) (id : ℕ) (rows : List TpPlanRow)
    → active_plans symbol (set_plan id closed_plan rows)
      ≡ without_plan id (active_plans symbol rows)
unfolding active_plans set_plan without_plan
active_plans-deactivate symbol id [] = refl
active_plans-deactivate symbol id (row ∷ rows) =
    let rest = active_plans-deactivate symbol id rows in
    let closed = and_false (same_symbol row.symbol symbol) in
    elim (Bool-cases (row.tp_plan_id == id)) [
      | inl e ↦ elim (Bool-cases (same_symbol row.symbol symbol && row.active)) [
        | inl f ↦ rw (e, closed, f, e) rest
        | inr f ↦ rw (e, closed, f) rest
      ]
      | inr e ↦ elim (Bool-cases (same_symbol row.symbol symbol && row.active)) [
        | inl f ↦ rw (e, f, e, rest) refl
        | inr f ↦ rw (e, f) rest
      ]
    ]
