-- ===== src/Reconciliation/Agreement.antt =====
-- What it means that a symbol has no issue.
use mathlib.Core.List.{cons≢nil}
use jd_holdings.Prelude.{
  ℕ, ◌+◌, ◌==◌, ltb, ◌≡◌, refl, ◌↔◌, Bool, true, false, not, ◌&&◌, ℤ, pos, ltb_ℤ, Option, some,
  List, [], ◌∷◌, ◌++◌, any, arith, Bool-cases, true_of_not, Option-cases, inl, inr,
}
use jd_holdings.Model.Enums.{Symbol}
use jd_holdings.Repository.Orders.{OrderRow}
use jd_holdings.Reconciliation.Issues.{
  Quantity, Holding, Issue, Local, broker_holding, count_symbol, value_of, is_invalid, is_integral,
  quantity_of, equals_count, when, validity_issues, quantity_issues, is_direct_booster, is_unknown,
  has_no_broker_id, ids_within, broker_ids, order_issues, symbol_issues,
}

-- A symbol agrees: its holding is the one row of a whole number of shares that the database has,
-- no booster and no plan is open, and the open orders have the broker's ids and known statuses.
pub record IsAgreed (symbol : Symbol) (local : Local) (holdings : List Holding)
    (answer : Option (List (Option ℕ))) : Type 0 where
  pub one_row : ltb 1 (count_symbol symbol holdings) ≡ false
  pub is_valid : is_invalid (quantity_of (broker_holding symbol holdings)) ≡ false
  pub is_whole : is_integral (value_of (quantity_of (broker_holding symbol holdings))) ≡ true
  pub quantity :
      equals_count
        (value_of (quantity_of (broker_holding symbol holdings)))
        (local.core_qty + local.booster_qty)
      ≡ true
  pub no_booster : is_direct_booster local.booster_state local.booster_qty ≡ false
  pub no_plan : local.has_plan ≡ false
  pub known : any is_unknown local.orders ≡ false
  pub have_ids : any (λ row. not (is_unknown row) && has_no_broker_id row) local.orders ≡ false
  pub same_ids :
      (ids : List (Option ℕ)) × (answer ≡ some ids)
      × (ids_within (broker_ids local.orders) ids && ids_within ids (broker_ids local.orders)
          ≡ true)

append-nil : (a b : List Issue) → a ++ b ≡ [] → (a ≡ []) × (b ≡ [])
append-nil [] b h = (refl, h)
append-nil (x ∷ a) b h = cc

when-nil : (b : Bool) (issue : Issue) → when b issue ≡ [] → b ≡ false
when-nil true issue h = cc
when-nil false issue h = refl

order_issues-nil :
    (local : List OrderRow) (answer : Option (List (Option ℕ)))
    → order_issues local answer ≡ []
    → (any is_unknown local ≡ false)
      × (any (λ row. not (is_unknown row) && has_no_broker_id row) local ≡ false)
      × ((ids : List (Option ℕ)) × (answer ≡ some ids)
          × (ids_within (broker_ids local) ids && ids_within ids (broker_ids local) ≡ true))
unfolding order_issues
order_issues-nil local answer h =
    let (e1, h1) = append-nil (when (any is_unknown local) Issue.unknown_status) _ h in
    let (e2, h2) =
      append-nil
        (when (any (λ row. is_unknown row && has_no_broker_id row) local)
          Issue.unknown_without_broker_id)
        _ h1 in
    let (e3, h3) =
      append-nil
        (when (any (λ row. not (is_unknown row) && has_no_broker_id row) local)
          Issue.without_broker_id)
        _ h2 in
    elim (Option-cases answer) [
      | inl e ↦ absurd (cons≢nil (rw e at h3))
      | inr (ids, e) ↦
          (when-nil _ _ e1, when-nil _ _ e3, (ids, e, true_of_not _ (when-nil _ _ (rw e at h3))))
    ]

symbol_issues-IsAgreed :
    (symbol : Symbol) (local : Local) (holdings : List Holding) (answer : Option (List (Option ℕ)))
    → symbol_issues symbol local holdings answer ≡ []
    → IsAgreed symbol local holdings answer
unfolding symbol_issues validity_issues quantity_issues
symbol_issues-IsAgreed symbol local holdings answer h =
    let quantity = quantity_of (broker_holding symbol holdings) in
    let expected = local.core_qty + local.booster_qty in
    let (e1, h1) =
      append-nil (when (ltb 1 (count_symbol symbol holdings)) Issue.duplicate_rows) _ h in
    let (e2, h2) = append-nil (validity_issues quantity) _ h1 in
    let (e3, h3) =
      append-nil
        (when (is_direct_booster local.booster_state local.booster_qty) Issue.direct_booster) _
        h2 in
    let (e4, h4) = append-nil (quantity_issues (value_of quantity) expected) _ h3 in
    let (e5, h5) = append-nil (when local.has_plan Issue.direct_tp_plan) _ h4 in
    let (known, have_ids, same_ids) = order_issues-nil local.orders answer h5 in
    record {
      one_row = when-nil _ _ e1;
      is_valid =
          when-nil _ _ (append-nil (when (is_invalid quantity) Issue.invalid_quantity) _ e2).0;
      is_whole = true_of_not _ (
          ground (
            arith,
            when-nil _ _ (append-nil (when (is_invalid quantity) Issue.invalid_quantity) _ e2).1,
            when-nil _ _ (append-nil (when (is_invalid quantity) Issue.invalid_quantity) _ e2).0,
          ));
      quantity = true_of_not _ (
          when-nil _ _
            (append-nil
              (when (not (equals_count (value_of quantity) expected)) Issue.quantity_mismatch) _
              e4).0);
      no_booster = when-nil _ _ e3;
      no_plan = when-nil _ _ e5;
      known = known;
      have_ids = have_ids;
      same_ids = same_ids;
    }

none_unknown :
    (rows : List OrderRow)
    → any is_unknown rows ≡ false
    → any (λ row. is_unknown row && has_no_broker_id row) rows ≡ false
none_unknown [] h = refl
none_unknown (row ∷ rows) h = elim (Bool-cases (is_unknown row)) [
  | inl e ↦ cc
  | inr e ↦ rw e (none_unknown rows (rw e at h))
]

-- Where the broker has the expected number, none of the three comparisons finds an issue.
quantity_issues-equal :
    (n : ℤ) (expected : ℕ)
    → ltb_ℤ n (pos 0) ≡ false
    → equals_count n expected ≡ true
    → quantity_issues n expected ≡ []
unfolding quantity_issues
quantity_issues-equal n expected valid h =
    let e1 : ((expected == 0) && ltb_ℤ (pos 0) n) ≡ false = ground (arith, valid, h) in
    let e2 : (ltb 0 expected && equals_count n 0) ≡ false = ground (arith, valid, h) in
    rw (h, e1, e2) refl

positive_of :
    (quantity : Quantity) (expected : ℕ)
    → is_invalid quantity ≡ false
    → equals_count (value_of quantity) expected ≡ true
    → quantity_issues (value_of quantity) expected ≡ []
positive_of Quantity.unreadable expected valid h = cc
positive_of (Quantity.number n) expected valid h = quantity_issues-equal n expected valid h

-- A symbol has no issue exactly where the broker and the database agree about it.
pub symbol_issues_iff :
    (symbol : Symbol) (local : Local) (holdings : List Holding) (answer : Option (List (Option ℕ)))
    → (symbol_issues symbol local holdings answer ≡ []) ↔ IsAgreed symbol local holdings answer
unfolding symbol_issues validity_issues order_issues
symbol_issues_iff symbol local holdings answer = (
  symbol_issues-IsAgreed symbol local holdings answer,
  λ agreed.
      let (ids, e, same) = agreed.same_ids in
      let quantity = quantity_of (broker_holding symbol holdings) in
      let equal =
        positive_of quantity (local.core_qty + local.booster_qty) agreed.is_valid agreed.quantity in
      rw
        (
          agreed.one_row,
          agreed.is_valid,
          agreed.is_whole,
          agreed.no_booster,
          equal,
          agreed.no_plan,
          agreed.known,
          none_unknown local.orders agreed.known,
          agreed.have_ids,
          e,
          same,
        )
        refl,
)
