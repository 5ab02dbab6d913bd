-- ===== src/Reconciliation/Issues.antt =====
-- The issues of a symbol in application/reconciliation.py. A quantity is in 10^-18; NaN and the
-- infinities are left out.
use jd_holdings.Prelude.{
  ℕ, ◌+◌, ◌*◌, ◌%◌, ◌==◌, ltb, if◌then◌else◌, Bool, true, false, not, ◌&&◌, ◌||◌, ℤ, pos, pos_part,
  neg_part, ltb_ℤ, Option, none, some, is_none, List, [], ◌∷◌, ◌++◌, any, one,
}
use jd_holdings.Model.Enums.{Symbol, PositionState, OrderStatus, same_symbol, same_state}
use jd_holdings.Model.Snapshot.{IdleCashState}
use jd_holdings.Repository.Errors.{◌then◌}
use jd_holdings.Repository.Orders.{OrderRow}
use jd_holdings.Repository.Tables.{CoreRow}
use jd_holdings.Repository.Positions.{PositionTable}
use jd_holdings.Repository.Plans.{PlanTable}

-- The text of a quantity, which can be no number.
pub data Quantity : Type 0 where
  unreadable : Quantity
  number : ℤ → Quantity

pub record Holding : Type 0 where
  pub symbol : Symbol
  pub quantity : Quantity

pub record BrokerView : Type 0 where
  pub holdings : Option (List Holding)
  pub open_ids : Symbol → Option (List (Option ℕ))

pub record Ledger : Type 0 where
  pub orders : List OrderRow
  pub position_table : PositionTable
  pub core_positions : List CoreRow
  pub tp_plans : PlanTable
  pub idle_cash_state : List IdleCashState
  pub portfolio_safe_mode : Bool
  pub idle_cash_safe_mode : Bool

pub data Issue : Type 0 where
  duplicate_rows invalid_quantity fractional_holding direct_booster : Issue
  quantity_mismatch unmanaged_symbol broker_empty direct_tp_plan : Issue
  unknown_status unknown_without_broker_id without_broker_id : Issue
  open_order_mismatch lookup_failed managed_exceeds_broker : Issue

-- ALLOCATION_SYMBOLS
abbrev pub allocation_symbols : List Symbol
allocation_symbols = Symbol.qqq ∷ (Symbol.tqqq ∷ (Symbol.soxl ∷ []))

unfoldable pub is_in : Symbol → List Symbol → Bool
is_in symbol symbols = any (λ other. same_symbol other symbol) symbols

-- The rows of the allocation symbols, by symbol: the last of a symbol is the one that is kept.
unfoldable pub broker_holding : Symbol → List Holding → Option Holding
broker_holding symbol [] = none
broker_holding symbol (row ∷ rows) = elim (broker_holding symbol rows) [
  | some later ↦ some later
  | none ↦
      if same_symbol row.symbol symbol && is_in symbol allocation_symbols then some row else none
]

abbrev pub count_symbol : Symbol → List Holding → ℕ
count_symbol symbol [] = 0
count_symbol symbol (row ∷ rows) =
    (if same_symbol row.symbol symbol then 1 else 0) + count_symbol symbol rows

abbrev pub value_of : Quantity → ℤ
value_of Quantity.unreadable = pos 0
value_of (Quantity.number n) = n

abbrev pub is_invalid : Quantity → Bool
is_invalid Quantity.unreadable = true
is_invalid (Quantity.number n) = ltb_ℤ n (pos 0)

abbrev pub is_integral : ℤ → Bool
is_integral n = (pos_part n % one == 0) && (neg_part n % one == 0)

abbrev pub quantity_of : Option Holding → Quantity
quantity_of none = Quantity.number (pos 0)
quantity_of (some row) = row.quantity

-- `number == count`
abbrev pub equals_count : ℤ → ℕ → Bool
equals_count n count = (pos_part n == count * one + neg_part n)

abbrev pub when : Bool → Issue → List Issue
when true issue = issue ∷ []
when false issue = []

unfoldable pub validity_issues : Quantity → List Issue
validity_issues quantity =
    when (is_invalid quantity) Issue.invalid_quantity
    ++ when (not (is_invalid quantity) && not (is_integral (value_of quantity)))
        Issue.fractional_holding

unfoldable pub quantity_issues : ℤ → ℕ → List Issue
quantity_issues broker expected =
    when (not (equals_count broker expected)) Issue.quantity_mismatch
    ++ (when ((expected == 0) && ltb_ℤ (pos 0) broker) Issue.unmanaged_symbol
        ++ when (ltb 0 expected && equals_count broker 0) Issue.broker_empty)

-- A booster position that is neither empty nor in safe mode.
abbrev pub is_direct_booster : PositionState → ℕ → Bool
is_direct_booster state quantity =
    ltb 0 quantity
    || not (same_state state PositionState.empty || same_state state PositionState.safe_mode)

abbrev pub is_unknown : OrderRow → Bool
is_unknown row = elim row.status [ OrderStatus.unknown ↦ true | _ ↦ false ]

abbrev pub has_no_broker_id : OrderRow → Bool
has_no_broker_id row = is_none row.broker_order_id

abbrev pub has_id : ℕ → List (Option ℕ) → Bool
has_id id [] = false
has_id id (none ∷ ids) = has_id id ids
has_id id (some other ∷ ids) = (other == id) || has_id id ids

-- Every id that is there in one list is in the other.
abbrev pub ids_within : List (Option ℕ) → List (Option ℕ) → Bool
ids_within [] others = true
ids_within (none ∷ ids) others = ids_within ids others
ids_within (some id ∷ ids) others = has_id id others && ids_within ids others

abbrev pub broker_ids : List OrderRow → List (Option ℕ)
broker_ids [] = []
broker_ids (row ∷ rows) = row.broker_order_id ∷ broker_ids rows

unfoldable pub order_issues : List OrderRow → Option (List (Option ℕ)) → List Issue
order_issues local answer =
    when (any is_unknown local) Issue.unknown_status
    ++ (when (any (λ row. is_unknown row && has_no_broker_id row) local)
          Issue.unknown_without_broker_id
        ++ (when (any (λ row. not (is_unknown row) && has_no_broker_id row) local)
              Issue.without_broker_id
            ++ (elim answer [
              | none ↦ Issue.lookup_failed ∷ []
              | some ids ↦
                  when
                    (not (ids_within (broker_ids local) ids && ids_within ids (broker_ids local)))
                    Issue.open_order_mismatch
            ])))

-- What the database has of a symbol.
pub record Local : Type 0 where
  pub core_qty : ℕ
  pub booster_qty : ℕ
  pub booster_state : PositionState
  pub has_plan : Bool
  pub orders : List OrderRow

unfoldable pub symbol_issues : Symbol → Local → List Holding → Option (List (Option ℕ)) → List Issue
symbol_issues symbol local holdings answer =
    let quantity = quantity_of (broker_holding symbol holdings) in
    when (ltb 1 (count_symbol symbol holdings)) Issue.duplicate_rows
    ++ (validity_issues quantity
        ++ (when (is_direct_booster local.booster_state local.booster_qty) Issue.direct_booster
            ++ (quantity_issues (value_of quantity) (local.core_qty + local.booster_qty)
                ++ (when local.has_plan Issue.direct_tp_plan ++ order_issues local.orders answer))))
