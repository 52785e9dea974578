-- ===== src/Execution/Orders.antt =====
-- What the exchange reports of an order (`Fill` and `OrderResult` of execution/testnet_adapter.py; the
-- raw answer is left out), and the journal's entry types.
use binance_testnet_trading.Base.{Bool, List, String, false, true, ℕ}
use binance_testnet_trading.Reasons.{
  OrderStatus, canceled, expired, filled, never_submitted, new, other_status, partially_filled,
  rejected,
}

pub record Fill (D : Type 0) : Type 0 where
  pub price : D
  pub qty : D
  pub commission : D
  pub commission_asset : String

pub record OrderResult (D : Type 0) : Type 0 where
  pub order_id : ℕ
  pub client_order_id : String
  pub status : OrderStatus
  pub executed_qty : D
  pub cumulative_quote_qty : D
  pub transact_time_ms : ℕ
  pub fills : List (Fill D)

-- The entry types that the live cycle writes; the journal's payloads are text for its reader, of which
-- the program reads back only the client order id.
pub data JournalEvent : Type 0 where
  order_open order_partially_filled order_filled order_canceled order_rejected : JournalEvent
  order_expired order_never_submitted order_unknown_status : JournalEvent
  signal_entry signal_suppressed sizing_entry risk_decision order_validation : JournalEvent
  order_submitted reconciliation reconciliation_startup reconciliation_discrepancy : JournalEvent
  exception : JournalEvent

-- `_JOURNAL_EVENT_BY_STATUS.get(status, "ORDER_UNKNOWN_STATUS")`
unfoldable pub journal_event_by_status : OrderStatus → JournalEvent
journal_event_by_status new = order_open
journal_event_by_status partially_filled = order_partially_filled
journal_event_by_status filled = order_filled
journal_event_by_status canceled = order_canceled
journal_event_by_status rejected = order_rejected
journal_event_by_status expired = order_expired
journal_event_by_status never_submitted = order_never_submitted
journal_event_by_status (other_status s) = order_unknown_status

-- `status in TERMINAL_STATUSES`
unfoldable pub is_terminal_status : OrderStatus → Bool
is_terminal_status filled = true
is_terminal_status canceled = true
is_terminal_status rejected = true
is_terminal_status expired = true
is_terminal_status never_submitted = true
is_terminal_status new = false
is_terminal_status partially_filled = false
is_terminal_status (other_status s) = false

-- `status == "NEW"`
abbrev pub is_new : OrderStatus → Bool
is_new new = true
is_new _ = false
