-- ===== src/Lib.antt =====
-- A model of the trading agent: what decides whether an order is sent to Binance's Testnet, and what
-- the agent believes to own afterwards. All paths are under src/trading_agent.
--
-- Parts and how they interact. A live cycle (execution/live_runner.py) fetches completed candles,
-- validates them, seeds or loads the portfolio, resolves orders left by an earlier run, compares the
-- balances, asks the strategy for a signal, and for an EXIT sizes, checks, validates and places one
-- sale, whose report is applied to the database in one transaction.
--
-- Base: Boolean tests, results of calls that may raise, lists, integers, dictionaries, and Exec, a
--   method that changes a state and may raise, keeping what it wrote before.
-- Numbers: decimal.Decimal and float. Their arithmetic is the interpreter's, so it is an interface
--   over any type of values; the laws that theorems need are the records IsOrdered,
--   HasSignedDifference, HasPositiveSum (rounding keeps signs), HasNeutralZero and IsExact (no
--   rounding). Numbers.Whole shows that whole numbers satisfy them all; Numbers.Fixed has three places.
-- Reasons: the reason codes and order statuses, one constructor for each string of the source.
-- Data: data/models.py, data/exceptions.py, data/validation.py (Data.Validation),
--   data/gap_detection.py (Data.Gaps), data/boundary.py, data/ingestion.py and
--   data/historical_fetch.py (Data.History), the analysis of one gap and the
--   writes of data/gap_recovery.py (Data.Forensics), and the transaction of data/storage.py that
--   writes a download (Data.Storage). An exception is a constructor of DataError. Times are
--   milliseconds since the epoch, hence naturals.
-- Research: research/cutoff.py, and _block_boundaries of research/blocked_chronological_evaluation.py.
-- Strategy: strategy/base.py and strategy/trend_baseline.py.
-- Sizing: sizing/exchange_filters.py and sizing/position_sizer.py.
-- Risk: risk/engine.py, risk/limits.py and RiskConfig of config/models.py.
-- Portfolio: portfolio/state.py.
-- Execution: Fill and OrderResult of execution/testnet_adapter.py, execution/fees.py,
--   execution/order_outcome.py, execution/order_validator.py, execution/symbol_parsing.py and
--   execution/client_order_id.py.
-- Store: persistence/execution_store.py. The database is two tables in a record; a transaction works
--   on a copy, which a return commits and an exception drops.
-- Backtest: execution/backtest_broker.py (Broker), backtest/risk_reward.py (RiskReward), and of
--   backtest/engine.py the replay of one segment: exits (Exits), entries (Entries), the bar loop
--   (Segment), the drawdown (Drawdown) and the result (Report). What the loop mutates is one record,
--   SegmentRun, that each step returns anew; an exception ends the run. Protection carries an invariant
--   through a bar and through the run.
-- Live: execution/reconciliation.py, execution/startup_reconciliation.py and
--   execution/live_runner.py, over a World of database, risk states, journal and the calls that the
--   exchange has received. `run_testnet_cycle` is cut into one function for each part of it, called in
--   the order of the source. The exceptions that nothing catches are the constructors of Crash.
-- Shadow: shadow/boundary.py (Boundary), shadow/store.py (Store, over the tables of Tables),
--   shadow/notifications/sender.py (Sender), shadow/bootstrap.py (Bootstrap for the checks, Download
--   for the download of the warm-up) and shadow/engine.py (Engine for the replay and its transaction,
--   Engine.Cycle for the whole cycle). A cycle of shadow mode fetches new candles, replays the whole
--   segment with the backtest's `run_segment`, stores what is new since the last cycle in one
--   transaction, and then delivers the outbox to Telegram.
-- Tests: each theorem at a concrete input.
--
-- Parameters: what the exchange answers to each request (it may depend on all calls before), what its
-- market data client returns, the host's clocks, the presence of the kill switch's file, SHA-256, the
-- text of an integer, and the exponential moving average of pandas; for shadow mode the journal of a
-- replay, the texts of notifications, what Telegram answers, and the hour and the date in Melbourne.
-- Parsing of the exchange's JSON is part of those answers.
--
-- Bounds. The paging loops of Data.History.Range and Data.Forensics.Analysis run on fuel, one round
-- for each millisecond of the range and one more, which is enough; every other loop runs over a list
-- or a count.
-- Decimals are taken to be finite and to fit into the context's 28 digits, so that `quantize` does not
-- raise.
--
-- Not modelled: HTTP and its signatures, files and SQL text, the other queries of data/storage.py,
-- journal payloads other than the client order id, the reports of backtest/engine.py on several
-- segments and windows, metrics, the lock file, reports and message texts of
-- shadow mode, the loop over all gaps of data/gap_recovery.py, the research evaluations beyond the two
-- functions above, and the command line.
pub mod Base
pub mod Data
pub mod Research
pub mod Numbers
pub mod Reasons
pub mod Shadow
pub mod Strategy
pub mod Sizing
pub mod Risk
pub mod Portfolio
pub mod Execution
pub mod Store
pub mod Backtest
pub mod Live
pub mod Tests
