-- ===== src/Tests/ShadowCycles.antt =====
-- Shadow cycles against a market that has two candles and a Telegram that takes every text.
use binance_testnet_trading.Base.{
  All, List, Option, Result, String, [], arith, false, keep, length, map, none, ok, refl, some,
  true, ℕ, ◌+◌, ◌∷◌, ◌≡◌,
}
use binance_testnet_trading.Shadow.Engine.{ShadowError}
use binance_testnet_trading.Shadow.Engine.Cycle.{
  ShadowCycleResult, ShadowEnv, ShadowWorld, fetch_new_candles, maybe_send_daily_summary,
  process_latest, process_segment, run_shadow_cycle, run_shadow_cycle_locked,
}
use binance_testnet_trading.Shadow.Sender.{
  Chat, FlushResult, SendResult, TelegramSettings, deliver, flush_pending_notifications, is_pending,
  is_telegram_active, pending_events, send_outcome_sent,
}
use binance_testnet_trading.Data.{Candle, interval_to_ms}
use binance_testnet_trading.Data.Ingestion.{MarketDataClient, fetch_completed_candles}
use binance_testnet_trading.Shadow.Store.{
  ShadowBootstrapState, enqueue_notifications_atomically, entry_event, exit_event, get_run_state,
  insufficient_data, new_notification, touch_cycle,
}
use binance_testnet_trading.Shadow.Sender.Delivery.{flush_pending_notifications_settles, logged}
use binance_testnet_trading.Shadow.Bootstrap.{verify_bootstrap_complete}
use binance_testnet_trading.Numbers.Fixed.{Fixed, fixed_decimals, fixed_floats, fixed_plan_decimals}
use binance_testnet_trading.Tests.Plans.{fixed_broker, fixed_config, fixed_filters, whole}
use binance_testnet_trading.Tests.Shadow.{buy_first, empty_db, entry_note, exit_note, no_journal}
use binance_testnet_trading.Shadow.Boundary.{
  assert_no_pre_boundary_candles, assert_valid_shadow_config, shadow_start_boundary_ms,
}
use binance_testnet_trading.Data.Storage.{get_candles, upsert, upserts}
use binance_testnet_trading.Data.Gaps.{partition_into_segments}
use binance_testnet_trading.Data.History.{sort_by_open_time}
use binance_testnet_trading.Shadow.Engine.Runs.{after_cycles, after_cycles-keep_warmup}
use binance_testnet_trading.Shadow.Engine.Early.{is_early}

abbrev hour : ℕ
hour = 3_600_000

abbrev pub hour_candle : ℕ → Candle Fixed
hour_candle open_time = record {
  symbol = "BTCUSDT";
  interval = "1h";
  open_time_ms = open_time;
  close_time_ms = open_time + 3_599_999;
  open_price = whole 100;
  high = whole 104;
  low = whole 97;
  close = whole 101;
  volume = whole 3;
}

-- The last hour before the boundary and the first one after it, whatever is asked for.
abbrev hourly_market : MarketDataClient Fixed
hourly_market = record {
  get_server_time_ms = ok (shadow_start_boundary_ms + 3_600_000);
  get_klines =
      λ request. ok (hour_candle 1_788_649_200_000 ∷ hour_candle shadow_start_boundary_ms ∷ []);
}

abbrev open_telegram : TelegramSettings
open_telegram = record { enabled = true; is_disabled = false; has_secrets = true }

abbrev takes_all : List String → String → Option SendResult
takes_all messages text =
    some (record { outcome = send_outcome_sent; attempts = 1; safe_error = none })

abbrev count_messages : List String → ℕ
count_messages messages = length messages

abbrev summary_note : String → ShadowWorld Fixed Fixed → Option String
summary_note date w = some "summary"

abbrev shadow_env : ShadowEnv Fixed Fixed
shadow_env = record {
  mode = some "shadow";
  symbol = "BTCUSDT";
  interval = "1h";
  is_kill_switch_engaged = false;
  is_lock_held = false;
  now_ms = 1_788_656_400_000;
  melbourne_hour = 10;
  melbourne_date = "2026-09-06";
  telegram = open_telegram;
  client = hourly_market;
  exchange_filters = ok fixed_filters;
  run_config = fixed_config;
  broker = fixed_broker;
  starting_equity = whole 10_000;
}

-- A warm-up of the one hour before the boundary.
abbrev one_hour : ShadowBootstrapState
one_hour = record {
  warmup_start_time_ms = 1_788_649_200_000;
  warmup_last_open_time_ms = 1_788_649_200_000;
  warmup_candle_count = 1;
  effective_min_required_candles = 6;
  bootstrapped_at_ms = 9;
  source = "bootstrap";
}

abbrev warm_world : ShadowWorld Fixed Fixed
warm_world = record {
  candle_db = record { candles = hour_candle 1_788_649_200_000 ∷ []; candle_gaps = [] };
  shadow_db = record empty_db { bootstrap_state = some one_hour };
  messages = [];
}

abbrev cycled : Result ShadowError ShadowCycleResult × ShadowWorld Fixed Fixed
cycled =
    run_shadow_cycle buy_first 1 no_journal entry_note exit_note summary_note takes_all
      count_messages shadow_env warm_world

-- The day after, with the kill switch engaged.
abbrev next_day : ShadowEnv Fixed Fixed
next_day = record shadow_env { is_kill_switch_engaged = true; now_ms = 1_788_742_800_000 }

abbrev two_days_later : ShadowWorld Fixed Fixed
two_days_later =
    after_cycles buy_first 1 no_journal entry_note exit_note summary_note takes_all count_messages
      (shadow_env ∷ next_day ∷ shadow_env ∷ []) warm_world

after_cycles-keep_warmup_example :
    (keep is_early two_days_later.candle_db.candles ≡ keep is_early warm_world.candle_db.candles)
    × (two_days_later.shadow_db.bootstrap_state ≡ some one_hour)
    × ((symbol interval : String)
        → verify_bootstrap_complete symbol interval two_days_later.candle_db
            two_days_later.shadow_db
          ≡ verify_bootstrap_complete symbol interval warm_world.candle_db warm_world.shadow_db)
after_cycles-keep_warmup_example =
    after_cycles-keep_warmup buy_first 1 no_journal entry_note exit_note summary_note takes_all
      count_messages (shadow_env ∷ next_day ∷ shadow_env ∷ []) warm_world one_hour refl
      (omega arith)

abbrev two_pending : Chat
two_pending = record {
  outbox =
      new_notification (exit_event 7) 12 "exit" ∷ new_notification (entry_event 5) 11 "entry" ∷ [];
  messages = [];
}

abbrev flushed : FlushResult × Chat
flushed = flush_pending_notifications takes_all count_messages open_telegram two_pending

flush_pending_notifications_settles_example :
    (flushed.0.attempted ≡ length (pending_events two_pending.outbox))
    × (flushed.0.skipped_reason ≡ none)
    × All (λ n. is_pending n.status ≡ false) flushed.1.outbox
    × (flushed.1.messages ≡ logged (pending_events two_pending.outbox) two_pending.messages)
unfolding is_telegram_active
flush_pending_notifications_settles_example =
    flush_pending_notifications_settles takes_all count_messages open_telegram
      (λ messages text. refl) two_pending refl refl

-- The texts that Telegram got, the later one first.
flushed_texts : flushed.1.messages ≡ "exit" ∷ "entry" ∷ []
unfolding flush_pending_notifications deliver is_telegram_active
flushed_texts = refl

-- Before the settling buffer is full a cycle stores the new candle, counts itself, and sends the summary.
short_cycle :
    (map {B = ℕ} (λ c. c.open_time_ms) cycled.1.candle_db.candles
      ≡ 1_788_649_200_000 ∷ 1_788_652_800_000 ∷ [])
    × ((get_run_state cycled.1.shadow_db).total_cycles ≡ 1)
    × ((get_run_state cycled.1.shadow_db).last_cycle_status ≡ some insufficient_data)
    × (cycled.1.messages ≡ "summary" ∷ [])
unfolding run_shadow_cycle run_shadow_cycle_locked assert_valid_shadow_config
    verify_bootstrap_complete get_candles partition_into_segments fetch_new_candles
    fetch_completed_candles assert_no_pre_boundary_candles upserts upsert process_latest
    process_segment touch_cycle get_run_state maybe_send_daily_summary
    enqueue_notifications_atomically flush_pending_notifications deliver is_telegram_active
    sort_by_open_time interval_to_ms
short_cycle = (refl, refl, refl, refl)
