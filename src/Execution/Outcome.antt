-- ===== src/Execution/Outcome.antt =====
-- execution/order_outcome.py: what an order's report adds to what was applied of it before.
pub mod Accounting
pub mod Application
use binance_testnet_trading.Base.{
  Bool, Option, Result, String, [], false, if◌then◌else◌, none, ok, raise, some, xor, ◌>>=◌, ◌>>◌,
  ◌||◌, ◌∷◌,
}
use binance_testnet_trading.Base.Dict.{Dict, get_or, insert}
use binance_testnet_trading.Numbers.{Decimals, eq, le}
use binance_testnet_trading.Portfolio.{
  OrderSide, PortfolioError, PortfolioState, apply_fill_delta, buy_side, sell_side,
}
use binance_testnet_trading.Execution.Orders.{
  JournalEvent, OrderResult, is_new, is_terminal_status, journal_event_by_status,
}
use binance_testnet_trading.Execution.Fees.{compute_commission_buckets}

-- The exceptions of an application: InconsistentExecutionReportError, the portfolio's, the two
-- ValueErrors of the store and the fault that its tests inject.
pub data ExecutionError : Type 0 where
  inconsistent_execution_report no_pending_record no_portfolio_state injected_fault : ExecutionError
  portfolio_error : PortfolioError → ExecutionError

-- The payload for the journal is left out.
pub record OrderApplicationResult (D : Type 0) : Type 0 where
  pub portfolio : PortfolioState D
  pub is_terminal : Bool
  pub new_applied_executed_qty : D
  pub new_applied_cumulative_quote_qty : D
  pub new_applied_commission_quote : D
  pub new_applied_commission_base : D
  pub new_applied_commission_other : Dict D
  pub journal_event_type : JournalEvent
  pub realized_pnl_delta : Option D

-- What was applied of an order before: the `applied_…` arguments.
pub record Applied (D : Type 0) : Type 0 where
  pub executed_qty : D
  pub cumulative_quote_qty : D
  pub commission_quote : D
  pub commission_base : D
  pub commission_other : Dict D

pub lift_portfolio : {A : Type 0} → Result PortfolioError A → Result ExecutionError A
lift_portfolio (ok a) = ok a
lift_portfolio (raise e) = raise (portfolio_error e)

module _ {D : Type 0} ⦃num : Decimals D⦄ where
  open num use {nought, add, sub, lt}

  -- `merged_other`, entry by entry.
  pub merge_other : Dict D → Dict D → Dict D
  merge_other merged [] = merged
  merge_other merged ((asset, amount) ∷ rest) =
      merge_other (insert asset (add (get_or asset merged nought) amount) merged) rest

  abbrev pub unchanged :
      PortfolioState D → Bool → Applied D → JournalEvent → OrderApplicationResult D
  unchanged portfolio is_terminal applied event = record {
    portfolio = portfolio;
    is_terminal = is_terminal;
    new_applied_executed_qty = applied.executed_qty;
    new_applied_cumulative_quote_qty = applied.cumulative_quote_qty;
    new_applied_commission_quote = applied.commission_quote;
    new_applied_commission_base = applied.commission_base;
    new_applied_commission_other = applied.commission_other;
    journal_event_type = event;
    realized_pnl_delta = none;
  }

  abbrev pub pnl_delta : OrderSide → D → D → Option D
  pnl_delta buy_side pnl_after pnl_before = none
  pnl_delta sell_side pnl_after pnl_before = some (sub pnl_after pnl_before)

  -- The part of the function that applies a positive delta.
  unfoldable pub apply_delta :
      OrderResult D
      → OrderSide
      → String
      → String
      → PortfolioState D
      → Applied D
      → D
      → Result ExecutionError (OrderApplicationResult D)
  unfolding lift_portfolio merge_other
  apply_delta order side quote_asset base_asset portfolio applied fallback_fee_pct = do
    let delta_base_qty = sub order.executed_qty applied.executed_qty
    let delta_quote_qty = sub order.cumulative_quote_qty applied.cumulative_quote_qty
    let fees =
        compute_commission_buckets order.fills quote_asset base_asset delta_quote_qty
          fallback_fee_pct
    new_portfolio ← lift_portfolio (
        apply_fill_delta portfolio side delta_base_qty delta_quote_qty fees.commission_quote
          fees.commission_base fees.is_estimated)
    ok (record {
      portfolio = new_portfolio;
      is_terminal = is_terminal_status order.status;
      new_applied_executed_qty = order.executed_qty;
      new_applied_cumulative_quote_qty = order.cumulative_quote_qty;
      new_applied_commission_quote = add applied.commission_quote fees.commission_quote;
      new_applied_commission_base = add applied.commission_base fees.commission_base;
      new_applied_commission_other = merge_other applied.commission_other fees.commission_other;
      journal_event_type = journal_event_by_status order.status;
      realized_pnl_delta =
          pnl_delta side new_portfolio.realized_pnl_quote portfolio.realized_pnl_quote;
    })

  -- The three checks on the cumulative fields.
  unfoldable pub is_inconsistent : OrderResult D → Applied D → Bool
  is_inconsistent order applied =
      lt order.executed_qty applied.executed_qty
      || lt order.cumulative_quote_qty applied.cumulative_quote_qty
      || xor (eq order.executed_qty nought) (eq order.cumulative_quote_qty nought)

  unfoldable pub compute_order_application :
      OrderResult D
      → OrderSide
      → String
      → String
      → PortfolioState D
      → Applied D
      → D
      → Result ExecutionError (OrderApplicationResult D)
  compute_order_application order side quote_asset base_asset portfolio applied fallback_fee_pct =
      let event = journal_event_by_status order.status in
      if is_inconsistent order applied
      then raise inconsistent_execution_report
      else if is_new order.status
      then ok (unchanged portfolio false applied event)
      else if le (sub order.executed_qty applied.executed_qty) nought
      then ok (unchanged portfolio (is_terminal_status order.status) applied event)
      else apply_delta order side quote_asset base_asset portfolio applied fallback_fee_pct
