-- ===== src/Model/Enums.antt =====
-- core/enums.py, and the order statuses of application/database.py. Symbols are upper-cased on
-- entry and then only compared, so they are names: those the program mentions, and any other.
use jd_holdings.Prelude.{
  ℕ, zero, suc, Bool, true, false, List, any, ◌≡◌, refl, sym, ap, ◌∙◌, ◌==◌, ==_iff,
}

pub data Symbol : Type 0 where
  qqq tqqq soxl spy soxx smh sgov : Symbol
  other : ℕ → Symbol

pub data MarketRegime : Type 0 where
  green yellow red : MarketRegime

pub data SignalGrade : Type 0 where
  s a b watch no_trade : SignalGrade

pub data DecisionType : Type 0 where
  no_action first_entry_candidate add_entry_candidate rebuy_candidate : DecisionType
  risk_review core_rebalance_buy : DecisionType

pub data PositionState : Type 0 where
  empty : PositionState
  waiting_1st_approval waiting_1st_fill holding_1st : PositionState
  waiting_2nd_approval waiting_2nd_fill holding_2nd : PositionState
  waiting_3rd_approval waiting_3rd_fill holding_3rd : PositionState
  waiting_4th_approval waiting_4th_fill holding_4th : PositionState
  partial_tp_1 : PositionState
  waiting_rebuy_approval waiting_rebuy_fill holding_rebuy : PositionState
  cooldown safe_mode : PositionState

pub data RiskReviewLevel : Type 0 where
  none info review high : RiskReviewLevel

pub data ApprovalStage : Type 0 where
  review execution : ApprovalStage

pub data Side : Type 0 where
  buy sell : Side

-- OrderPurpose, and the other purposes that orders are placed for: the exit of a remainder, SGOV.
pub data Purpose : Type 0 where
  entry_1 entry_2 entry_3 entry_4 rebuy tp1 tp2 panic remainder_exit : Purpose
  core_rebalance_buy core_rebalance_sell sgov_buy sgov_sell : Purpose

-- A status is a text: one of ALL_ORDER_STATUSES, or any other that a broker may send.
pub data OrderStatus : Type 0 where
  created submitted pending partial_filled pending_cancel pending_replace unknown : OrderStatus
  filled canceled rejected replaced : OrderStatus
  unlisted : ℕ → OrderStatus

-- Equality of two values of an enumeration is that of their places.
abbrev pub symbol_index : Symbol → ℕ
symbol_index Symbol.qqq = 0
symbol_index Symbol.tqqq = 1
symbol_index Symbol.soxl = 2
symbol_index Symbol.spy = 3
symbol_index Symbol.soxx = 4
symbol_index Symbol.smh = 5
symbol_index Symbol.sgov = 6
symbol_index (Symbol.other n) = suc (suc (suc (suc (suc (suc (suc n))))))

abbrev pub state_index : PositionState → ℕ
state_index PositionState.empty = 0
state_index PositionState.waiting_1st_approval = 1
state_index PositionState.waiting_1st_fill = 2
state_index PositionState.holding_1st = 3
state_index PositionState.waiting_2nd_approval = 4
state_index PositionState.waiting_2nd_fill = 5
state_index PositionState.holding_2nd = 6
state_index PositionState.waiting_3rd_approval = 7
state_index PositionState.waiting_3rd_fill = 8
state_index PositionState.holding_3rd = 9
state_index PositionState.waiting_4th_approval = 10
state_index PositionState.waiting_4th_fill = 11
state_index PositionState.holding_4th = 12
state_index PositionState.partial_tp_1 = 13
state_index PositionState.waiting_rebuy_approval = 14
state_index PositionState.waiting_rebuy_fill = 15
state_index PositionState.holding_rebuy = 16
state_index PositionState.cooldown = 17
state_index PositionState.safe_mode = 18

abbrev pub status_index : OrderStatus → ℕ
status_index OrderStatus.created = 0
status_index OrderStatus.submitted = 1
status_index OrderStatus.pending = 2
status_index OrderStatus.partial_filled = 3
status_index OrderStatus.pending_cancel = 4
status_index OrderStatus.pending_replace = 5
status_index OrderStatus.unknown = 6
status_index OrderStatus.filled = 7
status_index OrderStatus.canceled = 8
status_index OrderStatus.rejected = 9
status_index OrderStatus.replaced = 10
status_index (OrderStatus.unlisted n) =
    suc (suc (suc (suc (suc (suc (suc (suc (suc (suc (suc n))))))))))

abbrev pub same_symbol : Symbol → Symbol → Bool
same_symbol x y = symbol_index x == symbol_index y

abbrev pub same_state : PositionState → PositionState → Bool
same_state x y = state_index x == state_index y

abbrev pub same_status : OrderStatus → OrderStatus → Bool
same_status x y = status_index x == status_index y

-- OPEN_ORDER_STATUSES
abbrev pub is_open : OrderStatus → Bool
is_open OrderStatus.created = true
is_open OrderStatus.submitted = true
is_open OrderStatus.pending = true
is_open OrderStatus.partial_filled = true
is_open OrderStatus.pending_cancel = true
is_open OrderStatus.pending_replace = true
is_open OrderStatus.unknown = true
is_open _ = false

-- TERMINAL_ORDER_STATUSES
abbrev pub is_terminal : OrderStatus → Bool
is_terminal OrderStatus.filled = true
is_terminal OrderStatus.canceled = true
is_terminal OrderStatus.rejected = true
is_terminal OrderStatus.replaced = true
is_terminal _ = false

-- ALL_ORDER_STATUSES
abbrev pub is_listed : OrderStatus → Bool
is_listed (OrderStatus.unlisted n) = false
is_listed _ = true

-- `state in allowed_states`
abbrev pub state_in : PositionState → List PositionState → Bool
state_in x ys = any (same_state x) ys

nth_symbol : ℕ → Symbol
nth_symbol zero = Symbol.qqq
nth_symbol (suc zero) = Symbol.tqqq
nth_symbol (suc (suc zero)) = Symbol.soxl
nth_symbol (suc (suc (suc zero))) = Symbol.spy
nth_symbol (suc (suc (suc (suc zero)))) = Symbol.soxx
nth_symbol (suc (suc (suc (suc (suc zero))))) = Symbol.smh
nth_symbol (suc (suc (suc (suc (suc (suc zero)))))) = Symbol.sgov
nth_symbol (suc (suc (suc (suc (suc (suc (suc n))))))) = Symbol.other n

nth_symbol-symbol_index : (x : Symbol) → nth_symbol (symbol_index x) ≡ x
unfolding nth_symbol
nth_symbol-symbol_index Symbol.qqq = refl
nth_symbol-symbol_index _ = refl

pub same_symbol→eq : (x y : Symbol) → same_symbol x y ≡ true → x ≡ y
same_symbol→eq x y h =
    sym (nth_symbol-symbol_index x) ∙ ap nth_symbol ((==_iff _ _).0 h) ∙ nth_symbol-symbol_index y

pub same_symbol_refl : (x : Symbol) → same_symbol x x ≡ true
same_symbol_refl x = (==_iff _ _).1 refl

nth_state : ℕ → PositionState
nth_state zero = PositionState.empty
nth_state (suc zero) = PositionState.waiting_1st_approval
nth_state (suc (suc zero)) = PositionState.waiting_1st_fill
nth_state (suc (suc (suc zero))) = PositionState.holding_1st
nth_state (suc (suc (suc (suc zero)))) = PositionState.waiting_2nd_approval
nth_state (suc (suc (suc (suc (suc zero))))) = PositionState.waiting_2nd_fill
nth_state (suc (suc (suc (suc (suc (suc zero)))))) = PositionState.holding_2nd
nth_state (suc (suc (suc (suc (suc (suc (suc zero))))))) = PositionState.waiting_3rd_approval
nth_state (suc (suc (suc (suc (suc (suc (suc (suc zero)))))))) = PositionState.waiting_3rd_fill
nth_state (suc (suc (suc (suc (suc (suc (suc (suc (suc zero))))))))) = PositionState.holding_3rd
nth_state (suc (suc (suc (suc (suc (suc (suc (suc (suc (suc zero)))))))))) =
    PositionState.waiting_4th_approval
nth_state (suc (suc (suc (suc (suc (suc (suc (suc (suc (suc (suc zero))))))))))) =
    PositionState.waiting_4th_fill
nth_state (suc (suc (suc (suc (suc (suc (suc (suc (suc (suc (suc (suc zero)))))))))))) =
    PositionState.holding_4th
nth_state (suc (suc (suc (suc (suc (suc (suc (suc (suc (suc (suc (suc (suc zero))))))))))))) =
    PositionState.partial_tp_1
nth_state (suc (suc (suc (suc (suc (suc (suc (suc (suc (suc (suc (suc (suc (suc zero)))))))))))))) =
    PositionState.waiting_rebuy_approval
nth_state
      (suc
        (suc (suc (suc (suc (suc (suc (suc (suc (suc (suc (suc (suc (suc (suc zero))))))))))))))) =
    PositionState.waiting_rebuy_fill
nth_state
      (suc (
        suc (
          suc
            (suc (suc (suc (suc (suc (suc (suc (suc (suc (suc (suc (suc (suc zero)))))))))))))))) =
    PositionState.holding_rebuy
nth_state
      (suc (
        suc (
          suc (
            suc (
              suc
                (suc (suc (suc (suc (suc (suc (suc (suc (suc (suc (suc (suc zero))))))))))))))))) =
    PositionState.cooldown
nth_state _ = PositionState.safe_mode

nth_state-state_index : (x : PositionState) → nth_state (state_index x) ≡ x
unfolding nth_state
nth_state-state_index PositionState.empty = refl
nth_state-state_index _ = refl

pub same_state→eq : (x y : PositionState) → same_state x y ≡ true → x ≡ y
same_state→eq x y h =
    sym (nth_state-state_index x) ∙ ap nth_state ((==_iff _ _).0 h) ∙ nth_state-state_index y

pub same_state_refl : (x : PositionState) → same_state x x ≡ true
same_state_refl x = (==_iff _ _).1 refl

nth_status : ℕ → OrderStatus
nth_status zero = OrderStatus.created
nth_status (suc zero) = OrderStatus.submitted
nth_status (suc (suc zero)) = OrderStatus.pending
nth_status (suc (suc (suc zero))) = OrderStatus.partial_filled
nth_status (suc (suc (suc (suc zero)))) = OrderStatus.pending_cancel
nth_status (suc (suc (suc (suc (suc zero))))) = OrderStatus.pending_replace
nth_status (suc (suc (suc (suc (suc (suc zero)))))) = OrderStatus.unknown
nth_status (suc (suc (suc (suc (suc (suc (suc zero))))))) = OrderStatus.filled
nth_status (suc (suc (suc (suc (suc (suc (suc (suc zero)))))))) = OrderStatus.canceled
nth_status (suc (suc (suc (suc (suc (suc (suc (suc (suc zero))))))))) = OrderStatus.rejected
nth_status (suc (suc (suc (suc (suc (suc (suc (suc (suc (suc zero)))))))))) = OrderStatus.replaced
nth_status (suc (suc (suc (suc (suc (suc (suc (suc (suc (suc (suc n))))))))))) =
    OrderStatus.unlisted n

nth_status-status_index : (x : OrderStatus) → nth_status (status_index x) ≡ x
unfolding nth_status
nth_status-status_index OrderStatus.created = refl
nth_status-status_index _ = refl

pub same_status→eq : (x y : OrderStatus) → same_status x y ≡ true → x ≡ y
same_status→eq x y h =
    sym (nth_status-status_index x) ∙ ap nth_status ((==_iff _ _).0 h) ∙ nth_status-status_index y

pub same_status_refl : (x : OrderStatus) → same_status x x ≡ true
same_status_refl x = (==_iff _ _).1 refl
