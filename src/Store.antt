-- ===== src/Store.antt =====
-- persistence/execution_store.py: the table of portfolios and the table of pending orders of one
-- database, and the transaction that writes both.
pub mod Pending
pub mod Transaction
use text.Mathlib.Text.{◌==◌ as str_eq}
use binance_testnet_trading.Base.{
  Bool, List, Option, Result, String, [], false, if◌then◌else◌, keep, ltb, none, ok, raise, some,
  true, ℕ, ◌&&◌, ◌++◌, ◌∷◌,
}
use binance_testnet_trading.Base.Dict.{Dict, insert, lookup}
use binance_testnet_trading.Base.Exec.{
  Exec, gets, lift, modify, or_throw, pure, throw_if, ◌>>=◌, ◌>>◌,
}
use binance_testnet_trading.Numbers.{Decimals}
use binance_testnet_trading.Reasons.{OrderStatus}
use binance_testnet_trading.Portfolio.{OrderSide, PortfolioState}
use binance_testnet_trading.Execution.Orders.{OrderResult}
use binance_testnet_trading.Execution.Outcome.{
  Applied, ExecutionError, OrderApplicationResult, compute_order_application, injected_fault,
  no_pending_record, no_portfolio_state,
}

pub data PendingStatus : Type 0 where
  submitted resolved : PendingStatus

-- The five `applied_…` columns are the record `applied`.
pub record PendingOrder (D : Type 0) : Type 0 where
  pub client_order_id : String
  pub symbol : String
  pub side : OrderSide
  pub requested_quantity : D
  pub signal_candle_close_time_ms : ℕ
  pub submitted_at_ms : ℕ
  pub status : PendingStatus
  pub applied : Applied D
  pub resolved_order_status : Option OrderStatus
  pub resolved_at_ms : Option ℕ

-- The tables `portfolio_state`, keyed by symbol, and `pending_orders`, in the order of insertion.
pub record ExecutionStateStore (D : Type 0) : Type 0 where
  pub portfolios : Dict (PortfolioState D)
  pub pendings : List (PendingOrder D)

-- Where `_maybe_raise_fault` may raise.
pub data FaultPoint : Type 0 where
  before_write after_portfolio_write before_commit : FaultPoint

abbrev pub is_before_write : Option FaultPoint → Bool
is_before_write (some before_write) = true
is_before_write _ = false

abbrev pub is_after_portfolio_write : Option FaultPoint → Bool
is_after_portfolio_write (some after_portfolio_write) = true
is_after_portfolio_write _ = false

abbrev pub is_before_commit : Option FaultPoint → Bool
is_before_commit (some before_commit) = true
is_before_commit _ = false

abbrev pub is_submitted : PendingStatus → Bool
is_submitted submitted = true
is_submitted resolved = false

module _ {D : Type 0} where
  unfoldable pub load_portfolio : String → ExecutionStateStore D → Option (PortfolioState D)
  load_portfolio symbol store = lookup symbol store.portfolios

  -- `_write_portfolio`, an upsert.
  unfoldable pub save_portfolio :
      String → PortfolioState D → ExecutionStateStore D → ExecutionStateStore D
  save_portfolio symbol state store = record store {
    portfolios = insert symbol state store.portfolios;
  }

  pub find_pending : String → List (PendingOrder D) → Option (PendingOrder D)
  find_pending id [] = none
  find_pending id (p ∷ ps) = if str_eq p.client_order_id id then some p else find_pending id ps

  unfoldable pub get_pending : String → ExecutionStateStore D → Option (PendingOrder D)
  unfolding find_pending
  get_pending client_order_id store = find_pending client_order_id store.pendings

  -- `ORDER BY submitted_at_ms ASC`; rows of one time stay in the order of insertion.
  pub insert_by_time : PendingOrder D → List (PendingOrder D) → List (PendingOrder D)
  insert_by_time p [] = p ∷ []
  insert_by_time p (q ∷ qs) =
      if ltb q.submitted_at_ms p.submitted_at_ms then q ∷ insert_by_time p qs else p ∷ q ∷ qs

  pub sort_by_time : List (PendingOrder D) → List (PendingOrder D)
  unfolding insert_by_time
  sort_by_time [] = []
  sort_by_time (p ∷ ps) = insert_by_time p (sort_by_time ps)

  pub load_open_pending : String → ExecutionStateStore D → List (PendingOrder D)
  unfolding sort_by_time
  load_open_pending symbol store =
      sort_by_time (keep (λ p. str_eq p.symbol symbol && is_submitted p.status) store.pendings)

  -- `UPDATE … WHERE client_order_id = ?`
  pub update_rows :
      String → (PendingOrder D → PendingOrder D) → List (PendingOrder D) → List (PendingOrder D)
  update_rows id f [] = []
  update_rows id f (p ∷ ps) = (if str_eq p.client_order_id id then f p else p) ∷ update_rows id f ps

module _ {D : Type 0} ⦃num : Decimals D⦄ where
  open num use {nought}

  abbrev pub nothing_applied : Applied D
  nothing_applied = record {
    executed_qty = nought;
    cumulative_quote_qty = nought;
    commission_quote = nought;
    commission_base = nought;
    commission_other = [];
  }

  -- `ON CONFLICT(client_order_id) DO NOTHING`
  pub create_pending :
      String → String → OrderSide → D → ℕ → ℕ → ExecutionStateStore D → ExecutionStateStore D
  unfolding find_pending
  create_pending id symbol side quantity signal_candle_close_time_ms submitted_at_ms store =
      elim (find_pending id store.pendings) [
        | some p ↦ store
        | none ↦ record store {
          pendings =
              store.pendings
              ++ record {
                client_order_id = id;
                symbol = symbol;
                side = side;
                requested_quantity = quantity;
                signal_candle_close_time_ms = signal_candle_close_time_ms;
                submitted_at_ms = submitted_at_ms;
                status = submitted;
                applied = nothing_applied;
                resolved_order_status = none;
                resolved_at_ms = none;
              }
                ∷ [];
        }
      ]

  -- The UPDATE of a pending order's row after a report.
  abbrev pub with_report :
      OrderResult D → OrderApplicationResult D → ℕ → PendingOrder D → PendingOrder D
  with_report order result now_ms p = record p {
    applied = record {
      executed_qty = result.new_applied_executed_qty;
      cumulative_quote_qty = result.new_applied_cumulative_quote_qty;
      commission_quote = result.new_applied_commission_quote;
      commission_base = result.new_applied_commission_base;
      commission_other = result.new_applied_commission_other;
    };
    status = if result.is_terminal then resolved else submitted;
    resolved_order_status = if result.is_terminal then some order.status else none;
    resolved_at_ms = if result.is_terminal then some now_ms else none;
  }

  abbrev pub update_pending :
      OrderResult D → OrderApplicationResult D → ℕ → ExecutionStateStore D → ExecutionStateStore D
  update_pending order result now_ms store = record store {
    pendings = update_rows order.client_order_id (with_report order result now_ms) store.pendings;
  }

  -- The statements between BEGIN IMMEDIATE and COMMIT, on the state that they have written so far.
  unfoldable pub apply_statements :
      Option FaultPoint
      → String
      → String
      → String
      → OrderResult D
      → D
      → ℕ
      → Exec (ExecutionStateStore D) ExecutionError (OrderApplicationResult D)
  unfolding update_rows
  apply_statements fault symbol quote_asset base_asset order fallback_fee_pct now_ms = do
    found ← gets (get_pending order.client_order_id)
    pending ← or_throw found no_pending_record
    stored ← gets (load_portfolio symbol)
    portfolio ← or_throw stored no_portfolio_state
    throw_if (is_before_write fault) injected_fault
    result ← lift (
        compute_order_application order pending.side quote_asset base_asset portfolio
          pending.applied fallback_fee_pct)
    modify (save_portfolio symbol result.portfolio)
    throw_if (is_after_portfolio_write fault) injected_fault
    modify (update_pending order result now_ms)
    throw_if (is_before_commit fault) injected_fault
    pure result

  -- COMMIT on a return, ROLLBACK to the state before BEGIN on an exception.
  unfoldable pub commit_or_roll_back :
      {A : Type 0}
      → ExecutionStateStore D
      → Result ExecutionError A × ExecutionStateStore D
      → Result ExecutionError A × ExecutionStateStore D
  commit_or_roll_back before (ok a, written) = (ok a, written)
  commit_or_roll_back before (raise e, written) = (raise e, before)

  unfoldable pub apply_order_result_atomically :
      Option FaultPoint
      → String
      → String
      → String
      → OrderResult D
      → D
      → ℕ
      → Exec (ExecutionStateStore D) ExecutionError (OrderApplicationResult D)
  apply_order_result_atomically fault symbol quote_asset base_asset order fallback_fee_pct now_ms
        store =
      commit_or_roll_back store
        (apply_statements fault symbol quote_asset base_asset order fallback_fee_pct now_ms store)
