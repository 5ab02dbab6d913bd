-- ===== src/Repository/Approvals/Created.antt =====
-- An approval that is created can be consumed with its token.
use jd_holdings.Prelude.{
  ℕ, ◌+◌, ◌≤◌, ◌≡◌, refl, ◌==◌, ltb, true, false, Option, some, ◌∷◌, arith, ==_iff,
}
use jd_holdings.Model.Enums.{ApprovalStage}
use jd_holdings.Repository.Errors.{Result}
use jd_holdings.Repository.Approvals.{
  ApprovalStatus, ApprovalTable, ApprovalRequest, payload_or, same_stage, get_approval, with_status,
  mark_used, consume_approval, new_approval, create_approval,
}

same_stage_self : (stage : ApprovalStage) → same_stage stage stage ≡ true
same_stage_self ApprovalStage.review = refl
same_stage_self ApprovalStage.execution = refl

module _ {ℓ} {A : Type ℓ} (digest : ℕ → ℕ) (dumps : A → ℕ) (loads : ℕ → Option A) (empty : A)
    (request : ApprovalRequest A) (table : ApprovalTable) where
  -- The id and the token that come from creating an approval consume it at any time up to its expiry,
  -- where reading JSON gives what was written: they give its signal and its payload, which is the
  -- empty one where none was given, and the approval is used from then on.
  pub consume-create_approval :
      (later : ℕ)
      → ((payload : A) → loads (dumps payload) ≡ some payload)
      → later ≤ request.now + request.ttl
      → let created = create_approval digest dumps empty request table in
        consume_approval digest loads created.0.0 created.0.1 request.stage later created.1.rows
        ≡ Result.ok (
          (request.signal_id, payload_or empty request.payload),
          with_status ApprovalStatus.used (new_approval digest dumps empty request table)
              ∷ mark_used (table.last_id + 1) table.rows,
        )
  unfolding consume_approval create_approval mark_used get_approval
  consume-create_approval later round_trip in_time =
      let self : (table.last_id + 1 == table.last_id + 1) ≡ true = (==_iff _ _).1 refl in
      let time : ltb (request.now + request.ttl) later ≡ false = ground (arith, in_time) in
      let hash : (digest request.token == digest request.token) ≡ true = (==_iff _ _).1 refl in
      let read = round_trip (payload_or empty request.payload) in
      rw (self, same_stage_self request.stage, time, hash, read) refl
