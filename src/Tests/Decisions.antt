-- ===== src/Tests/Decisions.antt =====
-- Sizes, risk decisions, validation, signals, symbols and the portfolio at concrete values.
use Prim.Native.String.{◌++◌ as append}
use binance_testnet_trading.Base.{
  In, List, [], false, if◌then◌else◌, map, none, ok, refl, some, true, ℕ, ◌++◌, ◌<◌, ◌==◌, ◌↔◌, ◌∷◌,
  ◌≡◌, ◌⊎◌,
}
use binance_testnet_trading.Base.Int.{ltb_ℤ, pos, quot, ℤ, ◌*ℤ◌, ◌-ℤ◌}
use binance_testnet_trading.Numbers.{min_of}
use binance_testnet_trading.Numbers.Whole.{whole-IsOrdered, whole_decimals, whole_floats}
use binance_testnet_trading.Tests.Samples.{
  candle, exit_intent, filters, risk_config, risk_context_of,
}
use binance_testnet_trading.Sizing.{
  compute_buy_quantity, compute_risk_based_buy_quantity, compute_sell_quantity, round_quantity,
  total_loss_per_unit,
}
use binance_testnet_trading.Execution.Validator.{validate_order, validate_order_safe}
use binance_testnet_trading.Execution.Symbols.{
  base_asset, base_asset-append-quote_asset, known_quote_assets, quote_asset,
}
use binance_testnet_trading.Risk.{evaluate}
use binance_testnet_trading.Strategy.{Signal, SignalType, buy, flat, generate_signal, signal}
use binance_testnet_trading.Data.{Candle}
use binance_testnet_trading.Reasons.{bullish_ema_crossover}
use binance_testnet_trading.Sizing.Decisions.{
  Decides, IsTradable, compute_buy_quantity_safe, compute_risk_based_buy_quantity_safe,
  compute_sell_quantity_safe,
}
use binance_testnet_trading.Strategy.Crossover.{FollowsCrossing, generate_signal_moves}
use binance_testnet_trading.Risk.Gates.{IsClear, MayBuy, evaluate_approves}

ten_units_sold :
    let decision = compute_sell_quantity (pos 5) (pos 10) filters in
    let quantity = round_quantity (pos 5) filters in
    Decides filters (pos 10) quantity decision
    × (decision.approved ≡ true
        → (ltb_ℤ (pos 0) quantity ≡ true) × (ltb_ℤ (pos 5) quantity ≡ false))
ten_units_sold = compute_sell_quantity_safe (pos 5) (pos 10) filters

purchase_by_allocation :
    let decision = compute_buy_quantity (pos 100) (pos 10) (pos 1) (pos 20) filters in
    let spendable = pos 100 -ℤ pos 20 in
    Decides filters (pos 10) (round_quantity (quot (spendable *ℤ pos 1) (pos 10)) filters) decision
    × (decision.approved ≡ true
        → (ltb_ℤ (pos 0) (pos 10) ≡ true) × (ltb_ℤ (pos 0) spendable ≡ true))
purchase_by_allocation = compute_buy_quantity_safe (pos 100) (pos 10) (pos 1) (pos 20) filters

compute_risk_based_buy_quantity_safe_example :
    let decision =
      compute_risk_based_buy_quantity
        (pos 100)
        (pos 10)
        (pos 9)
        (pos 1)
        (pos 1)
        (pos 0)
        (pos 0)
        filters in
    let loss = total_loss_per_unit (pos 10) (pos 9) (pos 0) (pos 0) in
    let by_risk = quot (pos 100 *ℤ pos 1) loss in
    let by_cap = quot (pos 100 *ℤ pos 1) (pos 10) in
    let amount = min_of by_risk by_cap in
    Decides filters (pos 10) (round_quantity amount filters) decision
    × (decision.approved ≡ true
        → (ltb_ℤ (pos 0) (pos 10) ≡ true)
          × (ltb_ℤ (pos 0) (pos 9) ≡ true)
          × (ltb_ℤ (pos 0) (pos 100) ≡ true)
          × (ltb_ℤ (pos 0) loss ≡ true))
    × (ltb_ℤ by_risk amount ≡ false)
    × (ltb_ℤ by_cap amount ≡ false)
compute_risk_based_buy_quantity_safe_example =
    compute_risk_based_buy_quantity_safe whole-IsOrdered (pos 100) (pos 10) (pos 9) (pos 1) (pos 1)
      (pos 0) (pos 0) filters

evaluate_approves_example :
    ((evaluate risk_config exit_intent (risk_context_of (pos 50))).is_approved ≡ true) ↔ (
      IsClear risk_config (risk_context_of (pos 50))
      × ((SignalType.exit ≡ SignalType.exit)
          ⊎ MayBuy risk_config exit_intent (risk_context_of (pos 50))))
evaluate_approves_example = evaluate_approves risk_config exit_intent (risk_context_of (pos 50))

validate_order_safe_example :
    let result = validate_order exit_intent filters in
    let quantity = round_quantity (pos 5) filters in
    ((result.is_valid ≡ true)
      × (result.validated_quantity ≡ some quantity)
      × (exit_intent.symbol ≡ filters.symbol)
      × (ltb_ℤ (pos 0) quantity ≡ true)
      × IsTradable filters (pos 10) quantity)
    ⊎ ((result.is_valid ≡ false) × (result.validated_quantity ≡ none))
validate_order_safe_example = validate_order_safe exit_intent filters

btc_quote : quote_asset "BTCUSDT" ≡ some "USDT"
unfolding quote_asset
btc_quote = refl

btc_base : base_asset "BTCUSDT" ≡ some "BTC"
unfolding base_asset
btc_base = refl

base_asset-append-quote_asset_example :
    In "USDT" known_quote_assets × (append "BTC" "USDT" ≡ "BTCUSDT")
base_asset-append-quote_asset_example = base_asset-append-quote_asset "BTCUSDT" btc_quote btc_base

-- In the place of a moving average, the closing prices themselves and a flat line at 11.
abbrev line_at_11 : List ℤ → ℕ → List ℤ
line_at_11 closes span = if span == 1 then closes else map (λ (x : ℤ). pos 11) closes

abbrev rising : List (Candle ℤ)
rising = candle 0 (pos 9) ∷ candle 60_000 (pos 10) ∷ candle 120_000 (pos 12) ∷ []

abbrev buy_signal : Signal
buy_signal = signal buy bullish_ema_crossover 179_999

rising_buys : generate_signal line_at_11 (1, 2) rising flat ≡ ok buy_signal
unfolding generate_signal
rising_buys = refl

generate_signal_moves_example :
    let closes = map (λ (c : Candle ℤ). c.close) rising in
    (2 < 3)
    × ((earlier : List (Candle ℤ)) × (last : Candle ℤ) × (rising ≡ earlier ++ (last ∷ []))
        × (last.close_time_ms ≡ 179_999))
    × ((fast_front slow_front : List ℤ) × (fast slow : ℤ × ℤ) × (line_at_11 closes 1
          ≡ fast_front ++ (fast.0 ∷ fast.1 ∷ []))
        × (line_at_11 closes 2 ≡ slow_front ++ (slow.0 ∷ slow.1 ∷ []))
        × FollowsCrossing whole_floats.at_most fast slow flat buy_signal)
generate_signal_moves_example = generate_signal_moves line_at_11 (1, 2) rising flat rising_buys
