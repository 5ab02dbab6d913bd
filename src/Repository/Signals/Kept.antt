-- ===== src/Repository/Signals/Kept.antt =====
-- A signal stays under its key, with its id.
use mathlib.Core.Path.{subst}
use mathlib.Core.Option.{some-injective, none-ne-some}
use jd_holdings.Prelude.{
  ℕ, zero, suc, ◌≡◌, refl, sym, ap, ◌∙◌, Bool, true, none, some, List, [], ◌∷◌, Bool-cases, ==_iff,
  inl, inr, arith,
}
use jd_holdings.Model.Enums.{DecisionType, same_symbol→eq}
use jd_holdings.Repository.Signals.{
  SignalRow, SignalKey, decision_index, same_decision, has_key, row_key, find_signal,
  update_signals,
}

nth_decision : ℕ → DecisionType
nth_decision zero = DecisionType.no_action
nth_decision (suc zero) = DecisionType.first_entry_candidate
nth_decision (suc (suc zero)) = DecisionType.add_entry_candidate
nth_decision (suc (suc (suc zero))) = DecisionType.rebuy_candidate
nth_decision (suc (suc (suc (suc zero)))) = DecisionType.risk_review
nth_decision (suc (suc (suc (suc (suc n))))) = DecisionType.core_rebalance_buy

nth_decision-decision_index : (x : DecisionType) → nth_decision (decision_index x) ≡ x
unfolding nth_decision
nth_decision-decision_index DecisionType.no_action = refl
nth_decision-decision_index _ = refl

same_decision→eq : (x y : DecisionType) → same_decision x y ≡ true → x ≡ y
same_decision→eq x y h =
    sym (nth_decision-decision_index x)
    ∙ ap nth_decision ((==_iff _ _).0 h)
    ∙ nth_decision-decision_index y

-- A row has one key.
has_key→eq : (key : SignalKey) (row : SignalRow) → has_key key row ≡ true → row_key row ≡ key
unfolding has_key
has_key→eq key row h =
    let symbol : row.symbol ≡ key.symbol = same_symbol→eq row.symbol key.symbol (ground arith) in
    let date : row.trade_date ≡ key.trade_date = ground arith in
    let strategy : row.strategy_version ≡ key.versions.strategy = ground arith in
    let config : row.config_version ≡ key.versions.config = ground arith in
    let action = same_decision→eq row.action key.action (ground arith) in
    λ i. record {
      symbol = symbol i;
      trade_date = date i;
      versions = record { strategy = strategy i; config = config i };
      action = action i;
    }

-- The signal of the key is there, with the id.
unfoldable pub IsThere : SignalKey → ℕ → List SignalRow → Type 0
IsThere key id rows = (row : SignalRow) × (find_signal key rows ≡ some row) × (row.signal_id ≡ id)

-- A row that is added under a new key takes none of the others' places.
pub insert-IsThere :
    (key : SignalKey) (id : ℕ) (new : SignalRow) (rows : List SignalRow)
    → find_signal (row_key new) rows ≡ none
    → IsThere key id rows
    → IsThere key id (new ∷ rows)
unfolding IsThere find_signal
insert-IsThere key id new rows absent (row, found, same) = elim (Bool-cases (has_key key new)) [
  | inl e ↦
      let other = subst (λ k. find_signal k rows ≡ none) (has_key→eq key new e) absent in
      absurd (none-ne-some row (sym other ∙ found))
  | inr e ↦ (row, rw e found, same)
]

-- An update that leaves the keys and the ids leaves each signal there.
pub update_signals-IsThere :
    (chosen : SignalRow → Bool) (change : SignalRow → SignalRow) (key : SignalKey) (id : ℕ)
    (rows : List SignalRow)
    → ((row : SignalRow) → has_key key (change row) ≡ has_key key row)
    → ((row : SignalRow) → (change row).signal_id ≡ row.signal_id)
    → IsThere key id rows
    → IsThere key id (update_signals chosen change rows)
unfolding IsThere find_signal update_signals
update_signals-IsThere chosen change key id [] k s (row, found, same) = cc
update_signals-IsThere chosen change key id (r ∷ rows) k s (row, found, same) =
    elim (Bool-cases (has_key key r)) [
      | inl e ↦
          let its : r.signal_id ≡ id =
            ap (λ (x : SignalRow). x.signal_id) (some-injective _ _ (rw e at found)) ∙ same in
          let keyed = k r ∙ e in
          elim (Bool-cases (chosen r)) [
            | inl c ↦ rw (c, keyed) (change r, refl, s r ∙ its)
            | inr c ↦ rw (c, e) (r, refl, its)
          ]
      | inr e ↦
          let rest =
            update_signals-IsThere chosen change key id rows k s (row, rw e at found, same) in
          let keyed = k r ∙ e in
          elim (Bool-cases (chosen r)) [ inl c ↦ rw (c, keyed) rest | inr c ↦ rw (c, e) rest ]
    ]
