-- ===== src/Repository/Approvals/Tests.antt =====
-- An execution approval of signal 5 that is consumed, and one that is canceled.
use jd_holdings.Prelude.{
  false, Option, none, ◌-◌, ◌==◌, if◌then◌else◌, ℕ, ◌+◌, arith, ◌≡◌, refl, some, List, [], ◌∷◌,
}
use jd_holdings.Model.Enums.{ApprovalStage}
use jd_holdings.Repository.Errors.{Error, Result}
use jd_holdings.Repository.Approvals.{
  ApprovalStatus, Approval, ApprovalTable, ApprovalRequest, new_approval, create_approval,
  get_approval, with_status, mark_used, consume_approval, cancel_approval, cancel_active,
  count_active,
}
use jd_holdings.Repository.Approvals.Created.{consume-create_approval}
use jd_holdings.Repository.Approvals.Once.{
  IsConsumable, consume_approval-IsConsumable, consume_approval-once,
}

abbrev asked : Approval
asked = record {
  approval_id = 1;
  signal_id = 5;
  approval_token_hash = 101;
  approval_stage = ApprovalStage.execution;
  status = ApprovalStatus.active;
  payload_json = 9;
  expires_at = 1_000;
}

abbrev digest : ℕ → ℕ
digest token = token + 100

-- Payloads as numbers: the text 0 is not JSON.
abbrev dumps : ℕ → ℕ
dumps payload = payload + 1

abbrev loads : ℕ → Option ℕ
loads text = if text == 0 then none else some (text - 1)

abbrev spent : List Approval
spent = with_status ApprovalStatus.used asked ∷ []

consumes :
    consume_approval digest loads 1 1 ApprovalStage.execution 900 (asked ∷ [])
    ≡ Result.ok ((5, 8), spent)
unfolding consume_approval get_approval mark_used
consumes = refl

-- An expired approval raises, and so the table keeps it as it is.
expires :
    consume_approval digest loads 1 1 ApprovalStage.execution 1_001 (asked ∷ [])
    ≡ Result.failed Error.approval
unfolding consume_approval get_approval mark_used
expires = refl

consume_approval-IsConsumable_example :
    (row : Approval) × (get_approval 1 (asked ∷ []) ≡ some row)
    × IsConsumable digest 1 ApprovalStage.execution 900 row
    × (row.signal_id ≡ 5)
    × (loads row.payload_json ≡ some 8)
    × (get_approval 1 spent ≡ some (with_status ApprovalStatus.used row))
consume_approval-IsConsumable_example =
    consume_approval-IsConsumable digest loads 1 1 ApprovalStage.execution 900 (asked ∷ []) consumes

consume_approval-once_example :
    consume_approval digest loads 1 1 ApprovalStage.execution 900 spent
    ≡ Result.failed Error.approval
consume_approval-once_example =
    consume_approval-once digest loads 1 1 ApprovalStage.execution 900 (asked ∷ []) 1
      ApprovalStage.execution 900 consumes

cancels :
    cancel_approval 1 (asked ∷ [])
    ≡ Result.ok ((5, 1), with_status ApprovalStatus.canceled asked ∷ [])
unfolding cancel_approval get_approval cancel_active count_active
cancels = refl

abbrev table : ApprovalTable
table = record { rows = asked ∷ []; last_id = 1 }

abbrev request : ApprovalRequest ℕ
request = record {
  signal_id = 6;
  stage = ApprovalStage.review;
  ttl = 60;
  payload = none;
  now = 1_000;
  token = 40;
}

round_trip : (payload : ℕ) → loads (dumps payload) ≡ some payload
round_trip payload =
    let apart : (payload + 1 == 0) ≡ false = ground arith in
    let same : payload + 1 - 1 ≡ payload = omega arith in rw (apart, same) refl

consume-create_approval_example :
    let created = create_approval digest dumps 0 request table in
    consume_approval digest loads created.0.0 created.0.1 ApprovalStage.review 1_060 created.1.rows
    ≡ Result.ok (
      (6, 0),
      with_status ApprovalStatus.used (new_approval digest dumps 0 request table)
          ∷ mark_used 2 table.rows,
    )
consume-create_approval_example =
    consume-create_approval digest dumps loads 0 request table 1_060 round_trip (omega arith)
