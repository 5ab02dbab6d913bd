-- ===== src/TpManager/Placing.antt =====
-- The orders of a plan, place_orders of application/tp_manager.py: they sell what is held, once.
use jd_holdings.Prelude.{
  ℕ, ◌+◌, ◌-◌, ◌<◌, ◌⊎◌, All, true, refl, ◌==◌, ◌≡◌, ◌∙◌, some, List, [], ◌∷◌, ◌++◌, arith,
  Bool-cases, inl, inr,
}
use jd_holdings.Model.Enums.{Symbol, Purpose, Side}
use jd_holdings.Model.Snapshot.{PositionSnapshot, OrderRequest}
use jd_holdings.Repository.Plans.{TpPlanRow}
use jd_holdings.PositionManager.Balance.{IsBalancedPlan}
use jd_holdings.TpManager.{leg_request, tp_requests}

abbrev pub total_quantity : List OrderRequest → ℕ
total_quantity [] = 0
total_quantity (request ∷ requests) = request.quantity + total_quantity requests

total_quantity-append :
    (a b : List OrderRequest) → total_quantity (a ++ b) ≡ total_quantity a + total_quantity b
total_quantity-append [] b = omega arith
total_quantity-append (x ∷ a) b = let rest = total_quantity-append a b in omega (arith, rest)

leg_request-quantity :
    (id : ℕ) (symbol : Symbol) (purpose : Purpose) (price quantity : ℕ)
    → total_quantity (leg_request id symbol purpose price quantity) ≡ quantity
leg_request-quantity id symbol purpose price quantity = elim (Bool-cases (quantity == 0)) [
  | inl e ↦ rw e (ground (arith, e))
  | inr e ↦ rw e (omega arith)
]

-- A limit order that sells what is left of a leg at the price of the leg.
pub record IsSale (symbol : Symbol) (leg : Purpose) (leg_price left : ℕ) (request : OrderRequest)
    : Type 0 where
  pub side : request.side ≡ Side.sell
  pub its_symbol : request.symbol ≡ symbol
  pub is_limit : request.is_limit ≡ true
  pub purpose : request.purpose ≡ leg
  pub price : request.price ≡ some leg_price
  pub quantity : request.quantity ≡ left
  pub positive : 0 < request.quantity

-- The order is the sale of the one leg of the plan or of the other.
pub IsLegSale : Symbol → TpPlanRow → OrderRequest → Type 0
IsLegSale symbol plan request =
    IsSale symbol Purpose.tp1 plan.tp1_price (plan.tp1_target_qty - plan.tp1_filled_qty) request
    ⊎ IsSale symbol Purpose.tp2 plan.tp2_price (plan.tp2_target_qty - plan.tp2_filled_qty) request

leg_request-IsSale :
    (id : ℕ) (symbol : Symbol) (leg : Purpose) (price quantity : ℕ)
    → All (IsSale symbol leg price quantity) (leg_request id symbol leg price quantity)
leg_request-IsSale id symbol leg price quantity = elim (Bool-cases (quantity == 0)) [
  | inl e ↦ rw e tt
  | inr e ↦ rw e (
    record {
      side = refl;
      its_symbol = refl;
      is_limit = refl;
      purpose = refl;
      price = refl;
      quantity = refl;
      positive = ground (arith, e);
    },
    tt,
  )
]

All-append {ℓ κ μ ν} :
    {A : Type ℓ} {P : A → Type κ} {Q : A → Type μ} {R : A → Type ν}
    → ((x : A) → P x → R x)
    → ((x : A) → Q x → R x)
    → (xs ys : List A) → All P xs
    → All Q ys
    → All R (xs ++ ys)
All-append f g [] [] h k = tt
All-append f g [] (y ∷ ys) h (k, u) = (g y k, All-append f g [] ys tt u)
All-append f g (x ∷ xs) ys (h, t) k = (f x h, All-append f g xs ys t k)

-- The orders of a plan that balances its position are limit orders that sell what is left of a leg at
-- the price of the leg; together they sell the whole position, and no more.
pub tp_requests-total :
    (client_id : Symbol → Purpose → ℕ → ℕ → ℕ) (symbol : Symbol) (position : PositionSnapshot)
    (plan : TpPlanRow) (revision : ℕ)
    → IsBalancedPlan position plan
    → All (IsLegSale symbol plan) (tp_requests client_id symbol plan revision)
      × (total_quantity (tp_requests client_id symbol plan revision) ≡ position.quantity)
unfolding tp_requests IsLegSale
tp_requests-total client_id symbol position plan revision h =
    let left1 = plan.tp1_target_qty - plan.tp1_filled_qty in
    let left2 = plan.tp2_target_qty - plan.tp2_filled_qty in
    let id1 = client_id symbol Purpose.tp1 plan.tp_plan_id revision in
    let id2 = client_id symbol Purpose.tp2 plan.tp_plan_id revision in
    let leg1 = leg_request id1 symbol Purpose.tp1 plan.tp1_price left1 in
    let leg2 = leg_request id2 symbol Purpose.tp2 plan.tp2_price left2 in
    let first = leg_request-quantity id1 symbol Purpose.tp1 plan.tp1_price left1 in
    let second = leg_request-quantity id2 symbol Purpose.tp2 plan.tp2_price left2 in
    let a = h.tp1 in
    let b = h.tp2 in
    let c = h.total in
    (
      All-append (λ x s. inl s) (λ x s. inr s) leg1 leg2
          (leg_request-IsSale id1 symbol Purpose.tp1 plan.tp1_price left1)
          (leg_request-IsSale id2 symbol Purpose.tp2 plan.tp2_price left2),
      total_quantity-append leg1 leg2 ∙ omega (arith, first, second, a, b, c),
    )
