-- ===== src/Tests/Cycles.antt =====
-- A cycle against an exchange whose first answer is lost, and which then knows no such order.
use binance_testnet_trading.Base.{
  List, [], false, if◌then◌else◌, map, ok, some, ◌==◌, ◌∷◌, ◌≡◌, ◌⊎◌,
}
use binance_testnet_trading.Base.Int.{negsuc, pos, ℤ}
use binance_testnet_trading.Numbers.Whole.{whole_decimals, whole_floats}
use binance_testnet_trading.Tests.Samples.{candle, filters, holding, risk_config, sale}
use binance_testnet_trading.Live.Cycle.{run_testnet_cycle}
use binance_testnet_trading.Live.Cycle.Orders.{MayTrade, run_testnet_cycle_places}
use binance_testnet_trading.Data.{Candle}
use binance_testnet_trading.Live.Selling.{CycleInput, submit_order}
use binance_testnet_trading.Live.{
  Answer, Call, Exchange, World, answered, asked_balances, network_error, refused,
}
use binance_testnet_trading.Portfolio.{sell_side}
use binance_testnet_trading.Execution.Orders.{OrderResult}
use binance_testnet_trading.Live.Placing.{orders, sales}
use binance_testnet_trading.Live.Selling.Attempts.{IsUnknownThere, submit_order_retries}

-- The first order fails in the network, the second is filled.
abbrev answer_second : List (Call ℤ) → Answer (OrderResult ℤ)
answer_second [] = network_error
answer_second (asked_balances ∷ []) = network_error
answer_second (c ∷ calls) = answered sale

abbrev flaky_exchange : Exchange ℤ
flaky_exchange = record {
  on_place = λ calls symbol side quantity id. answer_second calls;
  on_get_order = λ calls symbol id. refused (some (negsuc 2012));
  on_balances = λ calls. answered (("USDT", (pos 50, pos 0)) ∷ ("BTC", (pos 5, pos 0)) ∷ []);
}

abbrev world : World ℤ ℤ
world = record {
  store = record { portfolios = ("BTCUSDT", holding) ∷ []; pendings = [] };
  risk_states = [];
  journal = [];
  calls = [];
}

submit_order_retries_example :
    let after = (submit_order flaky_exchange "BTCUSDT" sell_side (pos 5) "ta-1" world).1 in
    (orders after ≡ sales 1 "BTCUSDT" (pos 5) "ta-1" (orders world))
    ⊎ ((orders after ≡ sales 2 "BTCUSDT" (pos 5) "ta-1" (orders world))
        × IsUnknownThere flaky_exchange "BTCUSDT" (pos 5) "ta-1" world)
submit_order_retries_example = submit_order_retries flaky_exchange "BTCUSDT" (pos 5) "ta-1" world

-- The closing prices fall through a flat line at 12.
abbrev falling : List (Candle ℤ)
falling = candle 0 (pos 13) ∷ candle 60_000 (pos 12) ∷ candle 120_000 (pos 11) ∷ []

abbrev input : CycleInput ℤ ℤ
input = record {
  config = record {
    symbol = "BTCUSDT";
    interval = "1m";
    ema_fast = 1;
    ema_slow = 2;
    risk = risk_config;
    taker_fee = pos 0;
    balance_tolerance = pos 0;
    max_clock_drift_ms = 1_000;
  };
  exchange = flaky_exchange;
  market = record { get_server_time_ms = ok 200_000; get_klines = λ request. ok falling };
  exchange_info = ok filters;
  local_time_ms = 200_100;
  is_kill_switch_engaged = false;
  ema = λ closes span. if span == 1 then closes else map (λ (x : ℤ). pos 12) closes;
  sha256_hexdigest = λ text. "0123456789abcdef";
  decimal_text = λ n. "179999";
}

run_testnet_cycle_places_example :
    MayTrade input (orders world) (orders (run_testnet_cycle input world).1)
run_testnet_cycle_places_example = run_testnet_cycle_places input world
