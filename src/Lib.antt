-- ===== src/Lib.antt =====
-- The trading core of Project Atlas: the paper trading engine and the risk engine in front of it.
--
-- A strategy's order request goes to the order gateway (app/execution/gateway.py), which has the risk
-- engine (app/risk/engine.py) evaluate it and hands it, at the approved size, to the paper engine
-- (app/execution/paper/engine.py). The paper engine keeps the ledger: available and reserved cash,
-- positions, orders, fills, a journal and an index of idempotency keys. After every cycle the accounting
-- checks (app/accounting/invariants.py) read that ledger. The live gate (app/execution/live_gate.py) is
-- the checklist that stands in front of live trading, and the portfolio helper
-- (app/portfolio/service.py) makes the portfolio state that the risk engine reads.
--
-- A session of paper trading is driven candle by candle by the orchestrator
-- (app/services/trading_orchestrator.py): it validates the candle, marks the ledger, asks a strategy
-- (app/strategies, on the indicators of app/indicators) for a signal, and turns an actionable signal
-- into an order at the gateway. The scheduler (app/services/trading_scheduler.py) runs such cycles
-- behind its guards, and the reconciliation (app/services/reconciliation.py) halts trading where the
-- ledger does not add up. The backtest (app/backtesting/engine.py) runs the same strategies over
-- historical candles, with a ledger of its own.
--
-- Files:
--   Prelude, Integer, Dict: shared names and tests, integers over the native naturals, and Python's
--     insertion-ordered dict as an association list.
--   Decimal: Python's `decimal` with its default context of 28 digits, half-even, as coefficient and
--     number of decimal places. It is not code of the repository: its operations are written out from
--     the documentation of Python (results are exact where 28 digits hold them, and rounded otherwise;
--     a division by zero and a quantize that does not fit raise, which is `none`). Exponents are not
--     bounded, positive exponents, signed zeros, NaN and infinities are left out.
--   Domain: app/models/domain, the enumerations and records.
--   Paper: app/execution/paper/engine.py. `Engine` joins `PaperConfig`, `PaperState` and the engine's
--     sources of ids and chance; a method is an `Action`, which gives a result or an exception and the
--     engine. `submit`, `set_mark_price`, `cancel` and `expire` are the methods of these names;
--     the other definitions are their private methods or the rest of a method from some line on.
--     Proofs: Keeps, Sound, FillingSound, OrdersSound, RestingSound (the ledger invariant), Same (what
--     an action leaves alone), Index, Identity, Idempotent (the idempotency index), Final (cancelled
--     orders).
--   Risk: app/risk/engine.py. `evaluate` is a chain of checks that stops at the first decision. Gates
--     holds the checks up to the size of the order, Limits the later ones, Engine the change of state.
--     Proofs: Refusals, Facts, Fitting, Cleared, Sizing, Within, Accepted, Safety, Rate.
--   Gateway: app/execution/gateway.py, `OrderGateway.submit` over both engines. Proofs: Safety.
--   Accounting: app/accounting/invariants.py. Invariants holds the check, Consistent what a report
--     that is ok says, Sound what the check reports of a paper engine.
--   LiveGate: app/execution/live_gate.py. Evaluate holds the gate, Checklist its proofs.
--   Candles: app/market_data/validators/candles.py. Validate holds the validation of a list of
--     candles, Contiguous its proofs.
--   Portfolio: app/portfolio/service.py. Service holds the snapshot, Drawdown its proofs.
--   Indicators: app/indicators. Averages, Momentum and Volatility hold the indicators as folds, Series
--     what they share; proofs: Agrees, Causal. MACD and the Bollinger bands are left out.
--   Strategies: app/strategies. Base holds the interface of a strategy, one module each the five
--     strategies, Registry the registry; proofs: Fits, LongOnly, EmaLongOnly, Registered.
--   Orchestrator: app/services/trading_orchestrator.py. A method is a `Step`, which returns or raises and
--     gives the state; Portfolio, Acting and Process hold the methods, `feed` is a session of candles.
--     Proofs: Keeps and Marks (what a method leaves alone), Accepting, Windows, Sound, Replay.
--   Reconciliation: app/services/reconciliation.py. Run holds the check and the halt; proofs: Replay,
--     Healthy, Halt.
--   Scheduler: app/services/trading_scheduler.py. Cycle holds the guards, the counters and the turns of
--     the loop; proofs: Guards, Failures.
--   CycleLock: app/services/cycle_lock.py. Lock holds the acquisition and the release of a lock over the
--     calls of a database session, which are parameters; `IsTable` says what they are documented to do to
--     the table of locks. Proofs: Cases, Exclusive.
--   Backtest: app/backtesting/engine.py. Engine holds `BacktestEngine.run`; proofs: Causal, Trades.
--     Metrics holds the figures of app/backtesting/metrics.py that take no square root and no floats, one
--     definition each; `compute_metrics` as a whole and the exposure are left out. Proofs: Streaks.
--   The Tests modules run the definitions on concrete inputs.
--
-- Inputs that the program draws from outside are arguments: uuid4 and the random generator are streams
-- of numbers in the engine, and the clocks are arguments in microseconds. The text of a fingerprint, the
-- client order id, the success of each write to the journal and the end of a scheduled cycle are
-- arguments too. Nothing is assumed of them. Every loop is structural recursion on a list, except the search for
-- missing candles, `missing_from`, whose fuel is the distance that it has to go.
--
-- Not modelled: `latency_ms` above 0, timestamps and messages that nothing computes with, JSON output,
-- the database, the network, the HTTP interface and the user interface.
pub mod Accounting
pub mod Backtest
pub mod Candles
pub mod CycleLock
pub mod Decimal
pub mod Dict
pub mod Domain
pub mod Gateway
pub mod Indicators
pub mod Integer
pub mod LiveGate
pub mod Orchestrator
pub mod Paper
pub mod Portfolio
pub mod Prelude
pub mod Reconciliation
pub mod Risk
pub mod Scheduler
pub mod Strategies
