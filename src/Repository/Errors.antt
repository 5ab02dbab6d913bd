-- ===== src/Repository/Errors.antt =====
-- The exceptions of the application, and what raises them. A transaction of
-- application/database.py rolls back when its body raises, so a failed operation has no new state.
use mathlib.Core.Bool.{true≢false}
use jd_holdings.Prelude.{
  Bool, false, true, Option, none, some, ◌≡◌, refl, sym, ap, ◌≢◌, ◌⊎◌, inl, inr,
}

-- `integrity` is a constraint of the database schema; `approval` is ApprovalError, and the rest
-- are the errors of managed_account.py, order_manager.py and position_manager.py, and those of a broker's client.
pub data Error : Type 0 where
  missing_key bad_value state_conflict integrity approval : Error
  no_fill_price not_core_target target_exceeded risk_budget_exceeded : Error
  no_limit_price not_reserved live_blocked invalid_receipt broker_error : Error
  position_error : Error

pub data Result {ℓ} (A : Type ℓ) : Type ℓ where
  ok : A → Result A
  failed : Error → Result A

infixl 5 ◌then◌
-- A step, and the rest of the body where it raises nothing.
abbrev pub ◌then◌ {ℓ κ} : {A : Type ℓ} {B : Type κ} → Result A → (A → Result B) → Result B
Result.ok a then f = f a
Result.failed e then f = Result.failed e

-- `if wrong: raise error`
abbrev pub unless {ℓ} : {A : Type ℓ} → Bool → Error → Result A → Result A
unless true error rest = Result.failed error
unless false error rest = rest

-- `none` raises.
abbrev pub require {ℓ} : {A : Type ℓ} → Error → Option A → Result A
require error none = Result.failed error
require error (some a) = Result.ok a

-- Inversion of steps that succeed.
pub then-eq-ok {ℓ κ} :
    {A : Type ℓ} {B : Type κ} (m : Result A) (f : A → Result B) {b : B}
    → (m then f) ≡ Result.ok b
    → (a : A) × (m ≡ Result.ok a) × (f a ≡ Result.ok b)
then-eq-ok (Result.ok a) f h = (a, refl, h)
then-eq-ok (Result.failed e) f h = cc

pub unless-eq-ok {ℓ} :
    {A : Type ℓ} (wrong : Bool) (error : Error) (rest : Result A) {a : A}
    → unless wrong error rest ≡ Result.ok a
    → (wrong ≡ false) × (rest ≡ Result.ok a)
unless-eq-ok true error rest h = cc
unless-eq-ok false error rest h = (refl, h)

pub require-eq-ok {ℓ} :
    {A : Type ℓ} (error : Error) (o : Option A) {a : A} → require error o ≡ Result.ok a → o ≡ some a
require-eq-ok error none h = cc
require-eq-ok error (some x) {a} h = cc

value_or {ℓ} : {A : Type ℓ} → A → Result A → A
value_or a (Result.ok b) = b
value_or a (Result.failed e) = a

pub ok-injective {ℓ} : {A : Type ℓ} {a b : A} → Result.ok a ≡ Result.ok b → a ≡ b
unfolding value_or
ok-injective {a = a} h = ap (value_or a) h

-- To split on a computed result.
pub Result-cases {ℓ} :
    {A : Type ℓ} (r : Result A)
    → ((a : A) × (r ≡ Result.ok a)) ⊎ ((e : Error) × (r ≡ Result.failed e))
Result-cases (Result.ok a) = inl (a, refl)
Result-cases (Result.failed e) = inr (e, refl)

is_ok {ℓ} : {A : Type ℓ} → Result A → Bool
is_ok (Result.ok a) = true
is_ok (Result.failed e) = false

pub failed≢ok {ℓ} : {A : Type ℓ} {a : A} {e : Error} → Result.failed e ≢ Result.ok a
unfolding is_ok
failed≢ok h = true≢false (sym (ap is_ok h))
