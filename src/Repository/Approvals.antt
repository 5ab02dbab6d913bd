-- ===== src/Repository/Approvals.antt =====
-- The table `approvals` of application/database.py, and what creates, consumes and cancels its rows.
-- Parameters are `digest`, the SHA-256 of a token, and `dumps` and `loads`, which write a payload as
-- JSON and read it, or raise; a token, which is drawn at random, a JSON text and a time are numbers.
-- That a signal is in its table is left to the caller. A transaction rolls back when it raises, so
-- the status EXPIRED, which is set just before an error, is never kept.
pub mod Once
pub mod Created
mod Tests
use jd_holdings.Prelude.{
  ℕ, ◌+◌, ◌==◌, ltb, if◌then◌else◌, Bool, true, false, not, ◌&&◌, Option, none, some, List, [], ◌∷◌,
}
use jd_holdings.Model.Enums.{ApprovalStage}
use jd_holdings.Repository.Errors.{Error, Result, ◌then◌, unless, require}

pub data ApprovalStatus : Type 0 where
  active used expired canceled : ApprovalStatus

pub record Approval : Type 0 where
  pub approval_id : ℕ
  pub signal_id : ℕ
  pub approval_token_hash : ℕ
  pub approval_stage : ApprovalStage
  pub status : ApprovalStatus
  pub payload_json : ℕ
  pub expires_at : ℕ

abbrev pub is_active : ApprovalStatus → Bool
is_active ApprovalStatus.active = true
is_active _ = false

abbrev pub same_stage : ApprovalStage → ApprovalStage → Bool
same_stage ApprovalStage.review ApprovalStage.review = true
same_stage ApprovalStage.execution ApprovalStage.execution = true
same_stage _ _ = false

-- SELECT * FROM approvals WHERE approval_id = ?
unfoldable pub get_approval : ℕ → List Approval → Option Approval
get_approval id [] = none
get_approval id (row ∷ rows) = if row.approval_id == id then some row else get_approval id rows

abbrev pub with_status : ApprovalStatus → Approval → Approval
with_status status row = record {
  approval_id = row.approval_id;
  signal_id = row.signal_id;
  approval_token_hash = row.approval_token_hash;
  approval_stage = row.approval_stage;
  status = status;
  payload_json = row.payload_json;
  expires_at = row.expires_at;
}

-- UPDATE approvals SET status = 'USED' WHERE approval_id = ?
unfoldable pub mark_used : ℕ → List Approval → List Approval
mark_used id [] = []
mark_used id (row ∷ rows) =
    (if row.approval_id == id then with_status ApprovalStatus.used row else row) ∷ mark_used id rows

-- The signal and the payload of the approval, and the table. The payload is read within the
-- transaction: where that raises, the approval is not used.
unfoldable pub consume_approval {ℓ} :
    {A : Type ℓ}
    → (ℕ → ℕ)
    → (ℕ → Option A)
    → ℕ
    → ℕ
    → ApprovalStage
    → ℕ
    → List Approval
    → Result ((ℕ × A) × List Approval)
consume_approval digest loads id token expected_stage now rows =
    require Error.approval (get_approval id rows) then λ row.
    unless (not (is_active row.status)) Error.approval (
      unless (not (same_stage row.approval_stage expected_stage)) Error.approval (
        unless (ltb row.expires_at now) Error.approval (
          unless (not (row.approval_token_hash == digest token)) Error.approval (
            require Error.bad_value (loads row.payload_json) then λ payload.
            Result.ok ((row.signal_id, payload), mark_used id rows)))))

-- UPDATE approvals SET status = 'CANCELED' WHERE signal_id = ? AND status = 'ACTIVE'
unfoldable pub cancel_active : ℕ → List Approval → List Approval
cancel_active signal_id [] = []
cancel_active signal_id (row ∷ rows) =
    (if (row.signal_id == signal_id) && is_active row.status
      then with_status ApprovalStatus.canceled row
      else row)
    ∷ cancel_active signal_id rows

-- The number of rows that the update changes.
unfoldable pub count_active : ℕ → List Approval → ℕ
count_active signal_id [] = 0
count_active signal_id (row ∷ rows) =
    (if (row.signal_id == signal_id) && is_active row.status then 1 else 0)
    + count_active signal_id rows

unfoldable pub cancel_approval : ℕ → List Approval → Result ((ℕ × ℕ) × List Approval)
cancel_approval id rows = require Error.approval (get_approval id rows) then λ row.
    Result.ok ((row.signal_id, count_active row.signal_id rows), cancel_active row.signal_id rows)

pub record ApprovalTable : Type 0 where
  pub rows : List Approval
  pub last_id : ℕ

-- The arguments of create_approval, and the clock and the random token that it reads.
pub record ApprovalRequest {ℓ} (A : Type ℓ) : Type ℓ where
  pub signal_id : ℕ
  pub stage : ApprovalStage
  pub ttl : ℕ
  pub payload : Option A
  pub now : ℕ
  pub token : ℕ

-- `payload or {}`, where `empty` is the empty dictionary, which is falsy itself.
abbrev pub payload_or {ℓ} : {A : Type ℓ} → A → Option A → A
payload_or empty none = empty
payload_or empty (some payload) = payload

-- The row that an INSERT adds.
abbrev pub new_approval {ℓ} :
    {A : Type ℓ} → (ℕ → ℕ) → (A → ℕ) → A → ApprovalRequest A → ApprovalTable → Approval
new_approval digest dumps empty r table = record {
  approval_id = table.last_id + 1;
  signal_id = r.signal_id;
  approval_token_hash = digest r.token;
  approval_stage = r.stage;
  status = ApprovalStatus.active;
  payload_json = dumps (payload_or empty r.payload);
  expires_at = r.now + r.ttl;
}

-- The id and the token, and the table with the latest approval first.
unfoldable pub create_approval {ℓ} :
    {A : Type ℓ}
    → (ℕ → ℕ)
    → (A → ℕ)
    → A
    → ApprovalRequest A
    → ApprovalTable
    → (ℕ × ℕ) × ApprovalTable
create_approval digest dumps empty r table =
    let id = table.last_id + 1 in
    (
      (id, r.token),
      record { rows = new_approval digest dumps empty r table ∷ table.rows; last_id = id },
    )
