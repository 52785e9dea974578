-- ===== src/Shadow/Store.antt =====
-- shadow/store.py: the database of shadow mode. A row holds its values; the texts of a status' detail
-- and of a decimal number are left out. The identifier of a notification is the fact that its text is
-- made from.
pub mod Cycles
use text.Mathlib.Text.{◌==◌ as str_eq}
use binance_testnet_trading.Base.{
  Bool, List, Option, String, false, none, ok, raise, some, ℕ, ◌&&◌, ◌+◌, ◌==◌,
}
use binance_testnet_trading.Base.Exec.{Exec, gets, modify, throw_if, ◌>>=◌, ◌>>◌}
use binance_testnet_trading.Backtest.Trades.{EquityPoint, Trade}
use binance_testnet_trading.Backtest.Report.{OpenPositionInfo}
use binance_testnet_trading.Shadow.Tables.{insert_all, same_on, sort_on}

pub data CycleStatus : Type 0 where
  kill_switch_engaged_status not_bootstrapped bootstrap_invalid : CycleStatus
  no_new_candles insufficient_data cycle_ok : CycleStatus

-- "PENDING", "SENT", "AMBIGUOUS" and "FAILED"
pub data NotificationStatus : Type 0 where
  pending_status sent_status ambiguous_status failed_status : NotificationStatus

-- "entry:…", "exit:…" and "daily_summary:…"
pub data EventId : Type 0 where
  entry_event exit_event : ℕ → EventId
  daily_summary_event : String → EventId

pub record ShadowTradeRecord (D F : Type 0) : Type 0 where
  pub trade : Trade D
  pub planned_risk_quote : Option D
  pub net_reward_to_risk : Option F

pub record ShadowBootstrapState : Type 0 where
  pub warmup_start_time_ms : ℕ
  pub warmup_last_open_time_ms : ℕ
  pub warmup_candle_count : ℕ
  pub effective_min_required_candles : ℕ
  pub bootstrapped_at_ms : ℕ
  pub source : String

pub record ShadowRunState (D : Type 0) : Type 0 where
  pub last_processed_close_time_ms : Option ℕ
  pub last_run_at_ms : Option ℕ
  pub total_cycles : ℕ
  pub last_segment_length : Option ℕ
  pub last_cycle_status : Option CycleStatus
  pub open_position : Option (OpenPositionInfo D)

pub record NotificationEvent : Type 0 where
  pub event_id : EventId
  pub created_at_ms : ℕ
  pub payload_text : String
  pub status : NotificationStatus
  pub attempt_count : ℕ
  pub last_attempt_at_ms : Option ℕ
  pub last_error : Option String
  pub sent_at_ms : Option ℕ

pub record ShadowJournalEntry : Type 0 where
  pub entry_type : String
  pub timestamp_ms : ℕ
  pub payload : String

pub record WarmupCandle : Type 0 where
  pub open_time_ms : ℕ
  pub close_time_ms : ℕ
  pub fetched_at_ms : ℕ
  pub source : String

pub record ShadowDb (D F : Type 0) : Type 0 where
  pub run_state : Option (ShadowRunState D)
  pub trades : List (ShadowTradeRecord D F)
  pub equity : List (EquityPoint D)
  pub journal_entries : List ShadowJournalEntry
  pub bootstrap_state : Option ShadowBootstrapState
  pub warmup_candles : List WarmupCandle
  pub outbox : List NotificationEvent
  pub last_daily_summary : Option String

-- Where a test may raise, and what it raises.
pub data CycleFault : Type 0 where
  after_trades after_equity after_journal after_notifications : CycleFault
  after_warmup_candles before_commit : CycleFault

pub data StoreError : Type 0 where
  injected_test_fault : StoreError

abbrev pub point_number : CycleFault → ℕ
point_number after_trades = 0
point_number after_equity = 1
point_number after_journal = 2
point_number after_notifications = 3
point_number after_warmup_candles = 4
point_number before_commit = 5

-- `self._raise_fault_at == point`
abbrev pub is_fault : Option CycleFault → CycleFault → Bool
is_fault none point = false
is_fault (some fault) point = point_number fault == point_number point

-- The primary keys.
abbrev pub same_event : EventId → EventId → Bool
same_event (entry_event t) (entry_event u) = t == u
same_event (exit_event t) (exit_event u) = t == u
same_event (daily_summary_event d) (daily_summary_event e) = str_eq d e
same_event _ _ = false

abbrev pub same_notification : NotificationEvent → NotificationEvent → Bool
same_notification a b = same_event a.event_id b.event_id

abbrev pub same_entry : ShadowJournalEntry → ShadowJournalEntry → Bool
same_entry a b = str_eq a.entry_type b.entry_type && a.timestamp_ms == b.timestamp_ms

abbrev pub new_notification : EventId → ℕ → String → NotificationEvent
new_notification event_id now_ms text = record {
  event_id = event_id;
  created_at_ms = now_ms;
  payload_text = text;
  status = pending_status;
  attempt_count = 0;
  last_attempt_at_ms = none;
  last_error = none;
  sent_at_ms = none;
}

abbrev pub exit_of : {D F : Type 0} → ShadowTradeRecord D F → ℕ
exit_of r = r.trade.exit_time_ms

abbrev pub time_of : {D : Type 0} → EquityPoint D → ℕ
time_of p = p.timestamp_ms

-- What a cycle writes.
pub record CycleRows (D F : Type 0) : Type 0 where
  pub new_trades : List (ShadowTradeRecord D F)
  pub new_equity_points : List (EquityPoint D)
  pub new_journal_entries : List ShadowJournalEntry
  pub new_last_processed_close_time_ms : ℕ
  pub open_position : Option (OpenPositionInfo D)
  pub segment_length : ℕ
  pub notification_events : List NotificationEvent

module _ {D F : Type 0} where
  unfoldable pub get_run_state : ShadowDb D F → ShadowRunState D
  get_run_state db = elim db.run_state [
    | some state ↦ state
    | none ↦ record {
      last_processed_close_time_ms = none;
      last_run_at_ms = none;
      total_cycles = 0;
      last_segment_length = none;
      last_cycle_status = none;
      open_position = none;
    }
  ]

  abbrev pub get_all_trades : ShadowDb D F → List (ShadowTradeRecord D F)
  get_all_trades db = sort_on exit_of db.trades

  abbrev pub get_equity_curve : ShadowDb D F → List (EquityPoint D)
  get_equity_curve db = sort_on time_of db.equity

  -- A cycle without new data.
  unfoldable pub touch_cycle : ℕ → CycleStatus → Option ℕ → ShadowDb D F → ShadowDb D F
  touch_cycle now_ms status segment_length db =
      let state = get_run_state db in
      record db {
        run_state = some (record {
          last_processed_close_time_ms = state.last_processed_close_time_ms;
          last_run_at_ms = some now_ms;
          total_cycles = state.total_cycles + 1;
          last_segment_length = segment_length;
          last_cycle_status = some status;
          open_position = state.open_position;
        });
      }

  -- A transaction works on a copy, which an exception drops.
  abbrev pub atomically : Exec (ShadowDb D F) StoreError Unit → Exec (ShadowDb D F) StoreError Unit
  atomically statements db =
      let (outcome, written) = statements db in
      elim outcome [ ok u ↦ (ok u, written) | raise e ↦ (raise e, db) ]

  abbrev pub advanced : CycleRows D F → ℕ → CycleStatus → ℕ → ShadowRunState D
  advanced rows now_ms status cycles = record {
    last_processed_close_time_ms = some rows.new_last_processed_close_time_ms;
    last_run_at_ms = some now_ms;
    total_cycles = cycles + 1;
    last_segment_length = some rows.segment_length;
    last_cycle_status = some status;
    open_position = rows.open_position;
  }

  unfoldable pub cycle_statements :
      Option CycleFault → CycleRows D F → ℕ → CycleStatus → Exec (ShadowDb D F) StoreError Unit
  cycle_statements fault rows now_ms status = do
    state ← gets get_run_state
    modify (λ db. record db { trades = insert_all (same_on exit_of) rows.new_trades db.trades })
    throw_if (is_fault fault after_trades) injected_test_fault
    modify
        (λ db. record db { equity = insert_all (same_on time_of) rows.new_equity_points db.equity })
    throw_if (is_fault fault after_equity) injected_test_fault
    modify (λ db. record db {
      journal_entries = insert_all same_entry rows.new_journal_entries db.journal_entries;
    })
    throw_if (is_fault fault after_journal) injected_test_fault
    modify (λ db. record db {
      outbox = insert_all same_notification rows.notification_events db.outbox;
    })
    throw_if (is_fault fault after_notifications) injected_test_fault
    modify (λ db. record db { run_state = some (advanced rows now_ms status state.total_cycles) })
    throw_if (is_fault fault before_commit) injected_test_fault

  unfoldable pub record_cycle_atomically :
      Option CycleFault → CycleRows D F → ℕ → CycleStatus → Exec (ShadowDb D F) StoreError Unit
  record_cycle_atomically fault rows now_ms status =
      atomically (cycle_statements fault rows now_ms status)

  unfoldable pub record_bootstrap_atomically :
      Option CycleFault
      → List WarmupCandle
      → ShadowBootstrapState
      → Exec (ShadowDb D F) StoreError Unit
  record_bootstrap_atomically fault warmup state = atomically (do
    modify (λ db. record db {
      warmup_candles = insert_all (same_on (λ w. w.open_time_ms)) warmup db.warmup_candles;
    })
    throw_if (is_fault fault after_warmup_candles) injected_test_fault
    modify (λ db. record db {
      bootstrap_state = elim db.bootstrap_state [ some s ↦ some s | none ↦ some state ];
    })
    throw_if (is_fault fault before_commit) injected_test_fault)

  unfoldable pub enqueue_notifications_atomically :
      List NotificationEvent → ShadowDb D F → ShadowDb D F
  enqueue_notifications_atomically events db = record db {
    outbox = insert_all same_notification events db.outbox;
  }

  abbrev pub record_daily_summary_sent : String → ShadowDb D F → ShadowDb D F
  record_daily_summary_sent date db = record db { last_daily_summary = some date }
