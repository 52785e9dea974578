-- ===== src/Live/Reconcile.antt =====
-- execution/reconciliation.py, execution/startup_reconciliation.py and the cold start of
-- execution/live_runner.py: what is known of orders and balances before a signal is made.
pub mod Queries
use binance_testnet_trading.Base.{
  Bool, List, Option, Result, String, [], arith, false, if◌then◌else◌, none, not, ok, raise, some,
  true, ℕ, ◌&&◌, ◌==◌, ◌∷◌, ◌≡◌,
}
use binance_testnet_trading.Base.Int.{negsuc, pos, ℤ}
use binance_testnet_trading.Base.Dict.{Dict, get_or}
use binance_testnet_trading.Base.Exec.{gets, lift, pure, throw_if, ◌>>=◌, ◌>>◌}
use binance_testnet_trading.Numbers.{Decimals, le, magnitude}
use binance_testnet_trading.Reasons.{
  OrderStatus, canceled, expired, filled, never_submitted, new, other_status, partially_filled,
  rejected,
}
use binance_testnet_trading.Portfolio.{PortfolioState, initial}
use binance_testnet_trading.Sizing.{SymbolFilters}
use binance_testnet_trading.Execution.Orders.{OrderResult, reconciliation_startup}
use binance_testnet_trading.Store.{PendingOrder, load_open_pending, load_portfolio}
use binance_testnet_trading.Live.{
  Answer, Crash, Exchange, Live, World, answered, apply_report, cold_start_reconciliation,
  get_account_balances, get_order, journal_record, network_error, refused, uncaught_network_error,
}

pub data ReconciledStatus : Type 0 where
  confirmed_terminal confirmed_open not_found unknown : ReconciledStatus

-- `exc.code == ORDER_DOES_NOT_EXIST_CODE`, which is -2013.
pub is_does_not_exist : Option ℤ → Bool
is_does_not_exist none = false
is_does_not_exist (some (pos n)) = false
is_does_not_exist (some (negsuc n)) = n == 2012

-- `_TERMINAL_STATUSES` and `_OPEN_STATUSES` of execution/reconciliation.py.
pub status_of_report : OrderStatus → ReconciledStatus
status_of_report filled = confirmed_terminal
status_of_report canceled = confirmed_terminal
status_of_report rejected = confirmed_terminal
status_of_report expired = confirmed_terminal
status_of_report new = confirmed_open
status_of_report partially_filled = confirmed_open
status_of_report never_submitted = unknown
status_of_report (other_status s) = unknown

-- `status is ReconciledStatus.NOT_FOUND`
unfoldable pub safe_to_retry : ReconciledStatus → Bool
safe_to_retry not_found = true
safe_to_retry confirmed_terminal = false
safe_to_retry confirmed_open = false
safe_to_retry unknown = false

-- A failure of the network is not caught here.
unfoldable pub reconcile_answer :
    {D : Type 0} → Answer (OrderResult D) → Result Crash (ReconciledStatus × Option (OrderResult D))
reconcile_answer (answered order) = ok (status_of_report order.status, some order)
reconcile_answer (refused code) = ok (if is_does_not_exist code then not_found else unknown, none)
reconcile_answer network_error = raise uncaught_network_error

-- A report is never a reason to place an order again.
pub safe_to_retry-status_of_report :
    (status : OrderStatus) → safe_to_retry (status_of_report status) ≡ false
unfolding safe_to_retry status_of_report
safe_to_retry-status_of_report status = ground arith

-- What the loop over pending orders does with an outcome.
pub data PendingStep (D : Type 0) : Type 0 where
  close_never_submitted : PendingStep D
  stop_unknown : PendingStep D
  apply_reported : OrderResult D → PendingStep D

pub pending_step : {D : Type 0} → ReconciledStatus → Option (OrderResult D) → PendingStep D
pending_step not_found order = close_never_submitted
pending_step unknown order = stop_unknown
pending_step confirmed_terminal none = stop_unknown
pending_step confirmed_terminal (some order) = apply_reported order
pending_step confirmed_open none = stop_unknown
pending_step confirmed_open (some order) = apply_reported order

module _ {D : Type 0} where
  -- The zero-execution terminal report that closes an order which never reached the exchange.
  abbrev pub synthetic : PendingOrder D → ℕ → OrderResult D
  synthetic pending now_ms = record {
    order_id = 0;
    client_order_id = pending.client_order_id;
    status = never_submitted;
    executed_qty = pending.applied.executed_qty;
    cumulative_quote_qty = pending.applied.cumulative_quote_qty;
    transact_time_ms = now_ms;
    fills = [];
  }

module _ {D F : Type 0} where
  unfoldable pub reconcile_order :
      Exchange D → String → String → Live D F (ReconciledStatus × Option (OrderResult D))
  unfolding get_order reconcile_answer status_of_report is_does_not_exist
  reconcile_order exchange symbol id = do
    answer ← get_order exchange symbol id
    lift (reconcile_answer answer)

module _ {D F : Type 0} ⦃num : Decimals D⦄ (exchange : Exchange D)
    (symbol quote_asset base_asset : String) (fee : D) (now_ms : ℕ) where
  -- One round of the loop; the answer says whether a new signal stays blocked by this order.
  pub resolve_pending : PendingOrder D → PendingStep D → Live D F Bool
  resolve_pending pending close_never_submitted = do
    apply_report symbol quote_asset base_asset (synthetic pending now_ms) fee now_ms
    journal_record reconciliation_startup (some pending.client_order_id)
    pure false
  resolve_pending pending stop_unknown = do
    journal_record reconciliation_startup (some pending.client_order_id)
    pure true
  resolve_pending pending (apply_reported order) = do
    result ← apply_report symbol quote_asset base_asset order fee now_ms
    journal_record result.journal_event_type (some pending.client_order_id)
    pure (not result.is_terminal)

  -- `for pending in …`, up to the first order that blocks; the result is `blocked`.
  pub reconcile_each : List (PendingOrder D) → Live D F Bool
  unfolding resolve_pending pending_step
  reconcile_each [] = pure false
  reconcile_each (pending ∷ rest) = do
    outcome ← reconcile_order exchange symbol pending.client_order_id
    blocked ← resolve_pending pending (pending_step outcome.0 outcome.1)
    if blocked then pure true else reconcile_each rest

  pub reconcile_pending_orders : Live D F Bool
  unfolding reconcile_each
  reconcile_pending_orders = do
    open_orders ← gets (λ (w : World D F). load_open_pending symbol w.store)
    reconcile_each open_orders

module _ {D : Type 0} ⦃num : Decimals D⦄ where
  open num use {nought, add, sub, lt}

  -- `balances.get(asset, (0, 0))`, free and locked added.
  pub total_of : String → Dict (D × D) → D
  total_of asset balances =
      let entry : D × D = get_or asset balances (nought, nought) in add entry.0 entry.1

  -- `abs(local - exchange) <= BALANCE_RECONCILIATION_TOLERANCE`
  pub agrees : D → D → D → Bool
  agrees tolerance mine theirs = not (lt tolerance (magnitude (sub mine theirs)))

module _ {D F : Type 0} ⦃num : Decimals D⦄ where
  -- `tolerance` is BALANCE_RECONCILIATION_TOLERANCE; the result is `ok`.
  pub reconcile_balances : Exchange D → D → String → String → String → Live D F Bool
  unfolding agrees total_of
  reconcile_balances exchange tolerance symbol quote_asset base_asset = do
    stored ← gets (λ (w : World D F). load_portfolio symbol w.store)
    elim stored [
      | none ↦ pure false
      | some portfolio ↦ do
        balances ← get_account_balances exchange
        pure (
            agrees tolerance portfolio.quote_balance (total_of quote_asset balances)
            && agrees tolerance portfolio.base_balance (total_of base_asset balances))
    ]

  pub reconcile_initial_portfolio :
      Exchange D → String → String → SymbolFilters D → Live D F (PortfolioState D)
  unfolding total_of
  reconcile_initial_portfolio exchange quote_asset base_asset filters = do
    balances ← get_account_balances exchange
    throw_if (le filters.min_qty (total_of base_asset balances)) cold_start_reconciliation
    pure (initial (total_of quote_asset balances))
