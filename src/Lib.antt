-- ===== src/Lib.antt =====
-- A model of the trading program in src/jd_holdings of the repository; the Python files named below
-- and in the other modules are under that directory. The program is a strategy that scores a
-- day, decides on staged buys of leveraged ETFs and sells them in two take-profit legs, a
-- monthly allocation to QQQ, TQQQ and SOXL, and the repository, account and order handling that
-- turn decisions into orders of a broker.
--
-- The parts. A day's indicators (Model/Snapshot.antt) are scored, and the strategy decides on them
-- with the position and the configuration (Model/Config.antt). A decision becomes a request with
-- a limit price and a quantity. The order manager reserves the request in the repository's table
-- of orders, for a buy under the limits of the managed account, places it at the broker, and
-- stores what the broker's receipt says. A fill then goes to the core ledger, to the SGOV holding,
-- or through the position manager to a position and its take-profit plan. Reconciliation compares
-- all of it with what the broker holds, and sets the safe modes.
--   Model/Enums.antt, Model/Snapshot.antt: core/enums.py and core/models.py.
--   Model/Config.antt: the dataclasses of config.py, and the dictionaries read from them.
--   Core/Scoring.antt: core/scoring.py, core/regime.py and core/risk.py.
--   Core/Eligibility.antt: core/eligibility.py. Core/Budget.antt, Core/Guards.antt and
--   Core/Strategy.antt: core/strategy.py.
--   Core/TakeProfit.antt: core/take_profit.py and core/remainder_exit.py.
--   Core/Execution.antt: core/execution.py. Core/Onboarding.antt: core/initial_onboarding.py.
--   Core/Allocation.antt: core/v322_allocation.py. Core/TwinCore.antt: core/twin_core.py.
--   Repository/Orders.antt, Repository/Tables.antt, Repository/CoreFill.antt,
--   Repository/Approvals.antt, Repository/Positions.antt, Repository/Signals.antt,
--   Repository/Plans.antt and Repository/IdleCash.antt: the tables of application/database.py, with
--   reserve_order, update_order, mark_order_applied, apply_core_fill, create_approval,
--   consume_approval, cancel_approval, transition_position, the operations on signals and on
--   tp_plans, and apply_idle_cash_fill.
--   Repository/CoreSignals.antt: create_core_buy_signal of the same file. Repository/Recovery.antt:
--   its unapplied_core_fill_order_ids, and recover_unapplied_core_fills of bot.py.
--   PositionManager.antt: application/position_manager.py. TpManager.antt:
--   application/tp_manager.py. DryRunBroker.antt: the class of that name in
--   application/broker.py. Reconciliation/Issues.antt and Reconciliation/Run.antt:
--   application/reconciliation.py.
--   Account.antt: application/managed_account.py. OrderManager.antt:
--   application/order_manager.py.
-- A definition has the name of the function it translates, without its leading underscore; the
-- children of a module prove its properties, and its Tests module runs it on concrete values.
--
-- Numbers. A Decimal or a finite float is a whole number of 10^-18 (Prelude/Fixed.antt), a natural
-- number where it is never negative, so that `<= 0` is a test for 0; NaN is `none`. A product is
-- in 10^-36, and the amounts of the account are kept there; weights of the allocation are in
-- quarters of 10^-36, so that its divisions are exact. Rounding to cents and ticks is modelled,
-- the 28 digits of a Decimal's context and the rounding of binary floats are not. Subtractions of
-- fractions such as 1 - drop stop at 0. Symbols, dates, months and ids are names or numbers.
-- The quantity of a request is never negative, and a quantity of the broker is a whole number.
--
-- Errors. A function that may raise returns an Option or, in the repository and above it, a Result
-- with the error (Repository/Errors.antt). A transaction that raises changes nothing; an operation
-- of several transactions returns the state beside its result, with what was stored before an
-- error. Every loop is over a list and recursive on it, so nothing needs fuel.
--
-- Parameters: the power function of the score's calibration, the division of Decimals that gives
-- an average price, and the product with a fee, whose rounding is arbitrary, the digests of an
-- approval's token and of a client order id, the JSON functions of a payload, the uuid of a
-- cycle, and the broker, whose answers are arbitrary.
--
-- Not modelled: the pandas computations of indicators and features, whose values are inputs; the
-- cash-release intents and the event log of the repository; the order monitor, the services, the
-- backtests; and what is input and output only, that is the Telegram bots, the HTTP clients,
-- clocks, settings and the rest of start-up.
pub mod Prelude
pub mod Model
pub mod Core
pub mod Repository
pub mod Account
pub mod OrderManager
pub mod PositionManager
pub mod TpManager
pub mod Reconciliation
pub mod DryRunBroker
