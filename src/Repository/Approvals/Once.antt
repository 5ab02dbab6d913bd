-- ===== src/Repository/Approvals/Once.antt =====
-- An approval is given once.
use mathlib.Core.Option.{some-injective}
use jd_holdings.Prelude.{
  ℕ, ◌≤◌, ◌≡◌, refl, ap, ◌∙◌, Option, ◌==◌, ltb, true, false, not, some, List, [], ◌∷◌, arith,
  Bool-cases, inl, inr, ◌&&◌,
}
use jd_holdings.Model.Enums.{ApprovalStage}
use jd_holdings.Repository.Errors.{
  Error, Result, require, then-eq-ok, unless-eq-ok, require-eq-ok, ok-injective,
}
use jd_holdings.Repository.Approvals.{
  ApprovalStatus, Approval, is_active, same_stage, get_approval, with_status, mark_used,
  consume_approval, cancel_active, cancel_approval,
}

get-mark_used :
    (id : ℕ) (rows : List Approval) {row : Approval}
    → get_approval id rows ≡ some row
    → get_approval id (mark_used id rows) ≡ some (with_status ApprovalStatus.used row)
unfolding get_approval mark_used
get-mark_used id [] h = cc
get-mark_used id (r ∷ rows) {row} h = elim (Bool-cases (r.approval_id == id)) [
  | inl e ↦
      let same : r ≡ row = some-injective _ _ (rw e at h) in
      rw (e, e) (ap (λ (x : Approval). some (with_status ApprovalStatus.used x)) same)
  | inr e ↦ rw (e, e) (get-mark_used id rows (rw e at h))
]

-- The approval that is consumed: active, of the stage that is asked for, not expired, and with the
-- hash of the token.
pub record IsConsumable (digest : ℕ → ℕ) (token : ℕ) (expected : ApprovalStage) (now : ℕ)
    (row : Approval) : Type 0 where
  pub is_active : is_active row.status ≡ true
  pub stage : same_stage row.approval_stage expected ≡ true
  pub in_time : now ≤ row.expires_at
  pub token_hash : row.approval_token_hash ≡ digest token

-- Consuming an approval that succeeds found it active, of the expected stage, not expired and with
-- the hash of its token, gives back its signal and its payload, and leaves it used.
pub consume_approval-IsConsumable {ℓ} :
    {A : Type ℓ} (digest : ℕ → ℕ) (loads : ℕ → Option A) (id token : ℕ) (expected : ApprovalStage)
    (now : ℕ) (rows : List Approval) {signal : ℕ} {payload : A} {after : List Approval}
    → consume_approval digest loads id token expected now rows
      ≡ Result.ok ((signal, payload), after)
    → (row : Approval) × (get_approval id rows ≡ some row)
      × IsConsumable digest token expected now row
      × (row.signal_id ≡ signal)
      × (loads row.payload_json ≡ some payload)
      × (get_approval id after ≡ some (with_status ApprovalStatus.used row))
unfolding consume_approval
consume_approval-IsConsumable {A = A} digest loads id token expected now rows {after = after} h =
    let (row, found, h1) = then-eq-ok (require Error.approval (get_approval id rows)) _ h in
    let (active, h2) = unless-eq-ok (not (is_active row.status)) _ _ h1 in
    let (stage, h3) = unless-eq-ok (not (same_stage row.approval_stage expected)) _ _ h2 in
    let (time, h4) = unless-eq-ok (ltb row.expires_at now) _ _ h3 in
    let (hash, h5) = unless-eq-ok (not (row.approval_token_hash == digest token)) _ _ h4 in
    let there = require-eq-ok _ _ found in
    let (read, loaded, h6) = then-eq-ok (require Error.bad_value (loads row.payload_json)) _ h5 in
    let e = ok-injective h6 in
    let marked : mark_used id rows ≡ after = ap (λ (q : (ℕ × A) × List Approval). q.1) e in
    (
      row,
      there,
      record {
        is_active = ground (arith, active);
        stage = ground (arith, stage);
        in_time = ground (arith, time);
        token_hash = ground (arith, hash);
      },
      ap (λ (q : (ℕ × A) × List Approval). q.0.0) e,
      require-eq-ok _ _ loaded ∙ ap (λ (q : (ℕ × A) × List Approval). some q.0.1) e,
      rw (← marked) (get-mark_used id rows there),
    )

-- An approval that has been consumed is not consumed again, with whatever token, stage and time.
pub consume_approval-once {ℓ} :
    {A : Type ℓ} (digest : ℕ → ℕ) (loads : ℕ → Option A) (id token : ℕ) (expected : ApprovalStage)
    (now : ℕ) (rows : List Approval) {signal : ℕ} {payload : A} {after : List Approval} (token' : ℕ)
    (expected' : ApprovalStage) (now' : ℕ)
    → consume_approval digest loads id token expected now rows
      ≡ Result.ok ((signal, payload), after)
    → consume_approval digest loads id token' expected' now' after ≡ Result.failed Error.approval
unfolding consume_approval
consume_approval-once digest loads id token expected now rows token' expected' now' h =
    let (row, _, _, _, _, used) =
      consume_approval-IsConsumable digest loads id token expected now rows h in
    rw used refl

-- No approval of the signal is left active.
abbrev pub NoneActive : ℕ → List Approval → Type 0
NoneActive signal_id [] = Unit
NoneActive signal_id (row ∷ rows) =
    (((row.signal_id == signal_id) && is_active row.status) ≡ false) × NoneActive signal_id rows

pub cancel_active-NoneActive :
    (signal_id : ℕ) (rows : List Approval) → NoneActive signal_id (cancel_active signal_id rows)
unfolding cancel_active
cancel_active-NoneActive signal_id [] = tt
cancel_active-NoneActive signal_id (r ∷ rows) =
    elim (Bool-cases ((r.signal_id == signal_id) && is_active r.status)) [
      | inl e ↦ rw e (ground arith, cancel_active-NoneActive signal_id rows)
      | inr e ↦ rw e (e, cancel_active-NoneActive signal_id rows)
    ]

-- Cancelling an approval that is there leaves no approval of its signal active.
pub cancel_approval-NoneActive :
    (id : ℕ) (rows : List Approval) {signal count : ℕ} {after : List Approval}
    → cancel_approval id rows ≡ Result.ok ((signal, count), after)
    → NoneActive signal after
unfolding cancel_approval
cancel_approval-NoneActive id rows {signal} {after = after} h =
    let (row, _, h1) = then-eq-ok (require Error.approval (get_approval id rows)) _ h in
    let e = ok-injective h1 in
    let s : row.signal_id ≡ signal = ap (λ (q : (ℕ × ℕ) × List Approval). q.0.0) e in
    let a : cancel_active row.signal_id rows ≡ after =
      ap (λ (q : (ℕ × ℕ) × List Approval). q.1) e in
    rw (← a, ← s) (cancel_active-NoneActive row.signal_id rows)
