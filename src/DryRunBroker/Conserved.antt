-- ===== src/DryRunBroker/Conserved.antt =====
-- The dry-run broker makes and loses no money and no shares: what it has is what it started with,
-- less the buys and plus the sells that its orders have applied.
use mathlib.Core.Path.{subst}
use jd_holdings.Prelude.{
  ℕ, ◌+◌, ◌-◌, ◌≤◌, ◌==◌, ltb, if◌then◌else◌, ◌≡◌, refl, sym, ap, ◌∙◌, Bool, true, false, ◌||◌, ◌⊎◌,
  pos, pos_part, neg_part, ◌+ℤ◌, ◌-ℤ◌, +ℤ_parts, -ℤ_parts, List, [], ◌∷◌, arith, Bool-cases, inl,
  inr,
}
use jd_holdings.Model.Enums.{Symbol, Side, same_symbol, same_symbol→eq}
use jd_holdings.Repository.Errors.{Error, Result, Result-cases, ok-injective, failed≢ok}
use jd_holdings.DryRunBroker.Wallet.{
  DryOrder, DryHolding, Wallet, held, set_held, cumulative_amount, settle, applied_order,
  apply_fill,
}

held-set_held :
    (symbol wanted : Symbol) (quantity average : ℕ) (rows : List DryHolding)
    → (held wanted (set_held symbol quantity average rows)).0
      ≡ (if same_symbol symbol wanted then quantity else (held wanted rows).0)
unfolding held set_held
held-set_held symbol wanted quantity average [] = elim (Bool-cases (same_symbol symbol wanted)) [
  | inl e ↦ rw e refl
  | inr e ↦ rw e refl
]
held-set_held symbol wanted quantity average (row ∷ rows) =
    let rest = held-set_held symbol wanted quantity average rows in
    elim (Bool-cases (same_symbol row.symbol symbol)) [
      | inl e ↦ elim (Bool-cases (same_symbol symbol wanted)) [
        | inl f ↦ rw (e, f) refl
        | inr f ↦
            let g : same_symbol row.symbol wanted ≡ false = ground (arith, e, f) in
            rw (e, f, g) refl
      ]
      | inr e ↦ elim (Bool-cases (same_symbol row.symbol wanted)) [
        | inl f ↦
            let g : same_symbol symbol wanted ≡ false = ground (arith, e, f) in rw (e, f, g) refl
        | inr f ↦ rw (e, f) rest
      ]
    ]

pub Side-cases : (side : Side) → (side ≡ Side.buy) ⊎ (side ≡ Side.sell)
Side-cases Side.buy = inl refl
Side-cases Side.sell = inr refl

-- What an order has applied: money spent and received, and shares of a symbol.
abbrev pub spent : DryOrder → ℕ
spent order = elim order.side [ Side.buy ↦ order.applied_amount | Side.sell ↦ 0 ]

abbrev pub received : DryOrder → ℕ
received order = elim order.side [ Side.buy ↦ 0 | Side.sell ↦ order.applied_amount ]

abbrev pub bought : Symbol → DryOrder → ℕ
bought symbol order = elim order.side [
  | Side.buy ↦ if same_symbol order.symbol symbol then order.applied_quantity else 0
  | Side.sell ↦ 0
]

abbrev pub sold : Symbol → DryOrder → ℕ
sold symbol order = elim order.side [
  | Side.buy ↦ 0
  | Side.sell ↦ if same_symbol order.symbol symbol then order.applied_quantity else 0
]

-- An order and a wallet change together: each keeps what the other gives.
pub record Keeps (symbol : Symbol) (order : DryOrder) (wallet : Wallet) (later : DryOrder)
    (after : Wallet) : Type 0 where
  pub money :
      pos_part after.buying_power + neg_part wallet.buying_power + spent later + received order
      ≡ neg_part after.buying_power + pos_part wallet.buying_power + spent order + received later
  pub shares :
      (held symbol after.holdings).0 + sold symbol later + bought symbol order
      ≡ (held symbol wallet.holdings).0 + sold symbol order + bought symbol later

held-same :
    (a b : Symbol) (rows : List DryHolding) → same_symbol a b ≡ true → held a rows ≡ held b rows
held-same a b rows h = ap (λ (x : Symbol). held x rows) (same_symbol→eq a b h)

enough :
    (short : Bool) {wallet after : Wallet}
    → (if short then Result.failed Error.broker_error else Result.ok wallet) ≡ Result.ok after
    → (short ≡ false) × (Result.ok wallet ≡ Result.ok after)
enough true h = absurd (failed≢ok h)
enough false h = (refl, h)

-- A delta of shares and money that enters a wallet.
settle-Keeps :
    (divide : ℕ → ℕ → ℕ) (symbol : Symbol) (order : DryOrder) (wallet : Wallet) {after : Wallet}
    → order.applied_quantity ≤ order.filled_quantity
    → order.applied_amount ≤ cumulative_amount order
    → settle divide order
        (order.filled_quantity - order.applied_quantity)
        (cumulative_amount order - order.applied_amount)
        wallet
      ≡ Result.ok after
    → Keeps symbol order wallet (applied_order order) after
unfolding settle cumulative_amount
settle-Keeps divide symbol order wallet {after} le_shares le_money h =
    let money = cumulative_amount order - order.applied_amount in
    let shares = order.filled_quantity - order.applied_quantity in
    let old = (held order.symbol wallet.holdings).0 in
    elim (Side-cases order.side) [
      | inl side ↦
          let e = ok-injective (rw side at h) in
          let power : after.buying_power ≡ wallet.buying_power -ℤ pos money =
            sym (ap (λ (w : Wallet). w.buying_power) e) in
          let parts = rw (← power) at (-ℤ_parts wallet.buying_power (pos money)) in
          let has =
            sym (ap (λ (w : Wallet). (held symbol w.holdings).0) e)
            ∙ held-set_held order.symbol symbol (old + shares) _ wallet.holdings in
          record {
            money = rw side (omega (arith, parts, le_money));
            shares = rw side (elim (Bool-cases (same_symbol order.symbol symbol)) [
              | inl f ↦
                  let there =
                    ap (λ (q : ℕ × ℕ). q.0) (held-same order.symbol symbol wallet.holdings f) in
                  let has' : (held symbol after.holdings).0 ≡ old + shares = has ∙ rw f refl in
                  rw f (omega (arith, there, has', le_shares))
              | inr f ↦
                  let has' : (held symbol after.holdings).0 ≡ (held symbol wallet.holdings).0 =
                    has ∙ rw f refl in
                  rw f (omega (arith, has'))
            ]);
          }
      | inr side ↦
          let (low, h1) = enough (ltb old shares) (rw side at h) in
          let low' : shares ≤ old = ground (arith, low) in
          let e = ok-injective (h1) in
          let power : after.buying_power ≡ wallet.buying_power +ℤ pos money =
            sym (ap (λ (w : Wallet). w.buying_power) e) in
          let parts = rw (← power) at (+ℤ_parts wallet.buying_power (pos money)) in
          let has =
            sym (ap (λ (w : Wallet). (held symbol w.holdings).0) e)
            ∙ held-set_held order.symbol symbol (old - shares) _ wallet.holdings in
          record {
            money = rw side (omega (arith, parts, le_money));
            shares = rw side (elim (Bool-cases (same_symbol order.symbol symbol)) [
              | inl f ↦
                  let there =
                    ap (λ (q : ℕ × ℕ). q.0) (held-same order.symbol symbol wallet.holdings f) in
                  let has' : (held symbol after.holdings).0 ≡ old - shares = has ∙ rw f refl in
                  rw f (omega (arith, there, has', le_shares, low'))
              | inr f ↦
                  let has' : (held symbol after.holdings).0 ≡ (held symbol wallet.holdings).0 =
                    has ∙ rw f refl in
                  rw f (omega (arith, has'))
            ]);
          }
    ]

pub Keeps-same :
    (symbol : Symbol) (order : DryOrder) (wallet : Wallet) → Keeps symbol order wallet order wallet
Keeps-same symbol order wallet = record { money = omega arith; shares = refl }

both_le : (a b c d : ℕ) → (ltb a b || ltb c d) ≡ false → (b ≤ a) × (d ≤ c)
both_le a b c d h = (ground (arith, h), ground (arith, h))

-- A fill that is applied keeps money and shares.
pub apply_fill-Keeps :
    (divide : ℕ → ℕ → ℕ) (symbol : Symbol) (order : DryOrder) (wallet : Wallet) {later : DryOrder}
    {after : Wallet}
    → apply_fill divide order wallet ≡ Result.ok (later, after)
    → Keeps symbol order wallet later after
unfolding apply_fill
apply_fill-Keeps divide symbol order wallet h =
    elim (Bool-cases (
      ltb order.filled_quantity order.applied_quantity
      || ltb (cumulative_amount order) order.applied_amount)) [
        | inl e ↦ absurd (failed≢ok (rw e at h))
        | inr e ↦ elim (Bool-cases (order.filled_quantity == order.applied_quantity)) [
          | inl f ↦
              subst (λ (q : DryOrder × Wallet). Keeps symbol order wallet q.0 q.1)
                (ok-injective (rw (e, f) at h)) (Keeps-same symbol order wallet)
          | inr f ↦
              let shares = order.filled_quantity - order.applied_quantity in
              let money = cumulative_amount order - order.applied_amount in
              let (le_shares, le_money) =
                both_le order.filled_quantity order.applied_quantity (cumulative_amount order)
                  order.applied_amount e in
              elim (Result-cases (settle divide order shares money wallet)) [
                | inl (w, s) ↦
                    subst (λ (q : DryOrder × Wallet). Keeps symbol order wallet q.0 q.1)
                      (ok-injective (rw (e, f, s) at h))
                      (settle-Keeps divide symbol order wallet le_shares le_money s)
                | inr (error, s) ↦ absurd (failed≢ok (rw (e, f, s) at h))
              ]
        ]
      ]
