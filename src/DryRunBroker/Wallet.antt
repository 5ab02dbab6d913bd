-- ===== src/DryRunBroker/Wallet.antt =====
-- The orders, the holdings and the buying power of DryRunBroker, and what a fill does to them.
use jd_holdings.Prelude.{
  ℕ, ◌+◌, ◌-◌, ◌*◌, ◌==◌, ltb, if◌then◌else◌, Bool, ◌||◌, ℤ, pos, ◌+ℤ◌, ◌-ℤ◌, Option, none, some,
  List, [], ◌∷◌,
}
use jd_holdings.Model.Enums.{Symbol, Side, OrderStatus, same_symbol}
use jd_holdings.Repository.Errors.{Error, Result}

pub record DryOrder : Type 0 where
  pub order_id : ℕ
  pub client_order_id : ℕ
  pub symbol : Symbol
  pub side : Side
  pub is_limit : Bool
  pub status : OrderStatus
  pub price : Option ℕ
  pub quantity : ℕ
  pub filled_quantity : ℕ
  pub average_filled_price : Option ℕ
  pub filled_amount : Option ℕ
  pub applied_quantity : ℕ
  pub applied_amount : ℕ

pub record DryHolding : Type 0 where
  pub symbol : Symbol
  pub quantity : ℕ
  pub average_price : ℕ

-- What a fill changes besides its order.
pub record Wallet : Type 0 where
  pub buying_power : ℤ
  pub holdings : List DryHolding

pub record DryBroker : Type 0 where
  pub prices : Symbol → Option ℕ
  pub wallet : Wallet
  pub orders : List DryOrder
  pub sequence : ℕ

-- self.holdings.get(symbol), 0 shares where there is no row.
unfoldable pub held : Symbol → List DryHolding → ℕ × ℕ
held symbol [] = (0, 0)
held symbol (row ∷ rows) =
    if same_symbol row.symbol symbol then (row.quantity, row.average_price) else held symbol rows

unfoldable pub set_held : Symbol → ℕ → ℕ → List DryHolding → List DryHolding
set_held symbol quantity average [] =
    record { symbol = symbol; quantity = quantity; average_price = average } ∷ []
set_held symbol quantity average (row ∷ rows) =
    if same_symbol row.symbol symbol
    then record { symbol = symbol; quantity = quantity; average_price = average } ∷ rows
    else row ∷ set_held symbol quantity average rows

abbrev pub amount_or_zero : Option ℕ → ℕ
amount_or_zero none = 0
amount_or_zero (some amount) = amount

-- `filledAmount`, or the average price of what is filled.
unfoldable pub cumulative_amount : DryOrder → ℕ
cumulative_amount order = elim order.filled_amount [
  | some amount ↦ amount
  | none ↦ amount_or_zero order.average_filled_price * order.filled_quantity
]

-- A delta of shares and money enters the wallet.
unfoldable pub settle : (ℕ → ℕ → ℕ) → DryOrder → ℕ → ℕ → Wallet → Result Wallet
settle divide order shares money wallet =
    let (old, average) = held order.symbol wallet.holdings in
    elim order.side [
      | Side.buy ↦ Result.ok (record {
        buying_power = wallet.buying_power -ℤ pos money;
        holdings =
            set_held order.symbol (old + shares) (divide (average * old + money) (old + shares))
              wallet.holdings;
      })
      | Side.sell ↦
          if ltb old shares
          then Result.failed Error.broker_error
          else Result.ok (record {
            buying_power = wallet.buying_power +ℤ pos money;
            holdings =
                set_held order.symbol (old - shares) (if old == shares then 0 else average)
                  wallet.holdings;
          })
    ]

abbrev pub applied_order : DryOrder → DryOrder
applied_order order = record order {
  applied_quantity = order.filled_quantity;
  applied_amount = cumulative_amount order;
}

abbrev pub and_applied : DryOrder → Result Wallet → Result (DryOrder × Wallet)
and_applied order (Result.ok wallet) = Result.ok (applied_order order, wallet)
and_applied order (Result.failed error) = Result.failed error

-- `_apply_fill`: only what is not applied yet.
unfoldable pub apply_fill : (ℕ → ℕ → ℕ) → DryOrder → Wallet → Result (DryOrder × Wallet)
apply_fill divide order wallet =
    if ltb order.filled_quantity order.applied_quantity
      || ltb (cumulative_amount order) order.applied_amount
    then Result.failed Error.broker_error
    else (if order.filled_quantity == order.applied_quantity
        then Result.ok (order, wallet)
        else and_applied order (
            settle divide order (order.filled_quantity - order.applied_quantity)
              (cumulative_amount order - order.applied_amount) wallet))

-- The order and the wallet after a fill, which are the earlier ones where it raises.
abbrev pub after_fill :
    DryOrder → Wallet → Result (DryOrder × Wallet) → (DryOrder × Wallet) × Result {0} Unit
after_fill order wallet (Result.ok (filled, after)) = ((filled, after), Result.ok tt)
after_fill order wallet (Result.failed error) = ((order, wallet), Result.failed error)
