-- ===== src/Tests/Orders.antt =====
-- Fills, reports and transactions at the sale of the samples.
use text.Mathlib.Text.{◌==◌ as str_eq}
use binance_testnet_trading.Base.{
  Perm, String, false, keep, none, ok, raise, refl, some, true, xor, ◌&&◌, ◌∷◌, ◌≡◌, ◌≢◌,
}
use binance_testnet_trading.Base.Dict.{insert, lookup}
use binance_testnet_trading.Base.Int.{ltb_ℤ, pos, quot, ℤ, ◌*ℤ◌, ◌+ℤ◌, ◌-ℤ◌}
use binance_testnet_trading.Numbers.Whole.{
  whole-HasPositiveSum, whole-HasSignedDifference, whole-IsExact, whole-IsOrdered, whole_decimals,
  whole_floats,
}
use binance_testnet_trading.Tests.Samples.{
  holding, none_applied, sale, sale_result, settled, sold_out, stored,
}
use binance_testnet_trading.Store.{
  ExecutionStateStore, PendingOrder, apply_order_result_atomically, apply_statements, before_commit,
  commit_or_roll_back, get_pending, is_submitted, load_open_pending, load_portfolio, resolved,
  save_portfolio,
}
use binance_testnet_trading.Execution.Outcome.Application.{
  applied_after, compute_order_application_idempotent, compute_order_application_monotone,
}
use binance_testnet_trading.Portfolio.{
  PortfolioState, apply_buy, apply_fill_delta, apply_sell, buy_side, entry_price, equity, reduce,
  sell_side,
}
use binance_testnet_trading.Execution.Orders.{
  Fill, is_terminal_status, journal_event_by_status, order_filled,
}
use binance_testnet_trading.Execution.Fees.{
  add_fill, add_fills, bucket, charged, compute_commission_buckets,
  compute_commission_buckets-charged,
}
use binance_testnet_trading.Execution.Outcome.{
  apply_delta, compute_order_application, injected_fault, is_inconsistent, unchanged,
}
use binance_testnet_trading.Store.Pending.{IsByTime, load_open_pending_lists}
use binance_testnet_trading.Store.Transaction.{
  Fails, apply_order_result_atomically_raises, apply_order_result_atomically_twice,
  apply_order_result_atomically_writes,
}
use binance_testnet_trading.Portfolio.Consistency.{IsConsistent, apply_fill_delta-IsConsistent}
use binance_testnet_trading.Reasons.{filled}
use binance_testnet_trading.Portfolio.Equity.{apply_buy-equity, apply_sell-equity}
use binance_testnet_trading.Strategy.{long}

sells_out : apply_fill_delta holding sell_side (pos 5) (pos 60) (pos 1) (pos 0) false ≡ ok sold_out
unfolding apply_fill_delta apply_sell entry_price reduce ◌+ℤ◌ ◌-ℤ◌ ◌*ℤ◌ quot
sells_out = refl

holding-IsConsistent : IsConsistent holding
holding-IsConsistent = record { base_nonneg = refl; position = (refl, (pos 10, refl)) }

apply_fill_delta-IsConsistent_example :
    IsConsistent sold_out × (sell_side ≡ buy_side → ltb_ℤ (pos 109) (pos 0) ≡ false)
apply_fill_delta-IsConsistent_example =
    apply_fill_delta-IsConsistent whole-IsOrdered whole-HasSignedDifference whole-HasPositiveSum
      holding sell_side (pos 5) (pos 60) (pos 1) (pos 0) false holding-IsConsistent sells_out

sold_at_12 : apply_sell holding (pos 5) (pos 12) (pos 1) false ≡ ok sold_out
unfolding apply_sell entry_price reduce ◌+ℤ◌ ◌-ℤ◌ ◌*ℤ◌ quot
sold_at_12 = refl

equity_after_sale : equity sold_out (pos 12) +ℤ pos 1 ≡ equity holding (pos 12)
equity_after_sale =
    apply_sell-equity whole-IsExact holding (pos 5) (pos 12) (pos 1) false sold_at_12

abbrev bought : PortfolioState ℤ
bought = record sold_out {
  quote_balance = pos 75;
  base_balance = pos 3;
  position_side = long;
  avg_entry_price = some (pos 11);
  open_position_entry_fee = pos 1;
}

bought_at_11 : apply_buy sold_out (pos 3) (pos 11) (pos 1) false ≡ ok bought
unfolding apply_buy ◌+ℤ◌ ◌-ℤ◌ ◌*ℤ◌
bought_at_11 = refl

purchase_costs_the_fee : equity bought (pos 11) +ℤ pos 1 ≡ equity sold_out (pos 11)
purchase_costs_the_fee =
    apply_buy-equity whole-IsExact sold_out (pos 3) (pos 11) (pos 1) false bought_at_11

abbrev bnb_fee : Fill ℤ
bnb_fee = record { price = pos 12; qty = pos 1; commission = pos 2; commission_asset = "BNB" }

compute_commission_buckets-charged_example :
    let b = compute_commission_buckets (bnb_fee ∷ sale.fills) "USDT" "BTC" (pos 60) (pos 0) in
    (bucket "USDT" "BTC" b "BNB" ≡ charged "BNB" (pos 0) (bnb_fee ∷ sale.fills))
    × (b.is_estimated ≡ false)
compute_commission_buckets-charged_example =
    compute_commission_buckets-charged bnb_fee sale.fills "USDT" "BTC" "BNB" (pos 60) (pos 0)

sale_applies :
    compute_order_application sale sell_side "USDT" "BTC" holding none_applied (pos 0)
    ≡ ok sale_result
unfolding compute_order_application is_inconsistent is_terminal_status journal_event_by_status xor
    apply_delta compute_commission_buckets add_fills add_fill apply_fill_delta apply_sell
    entry_price reduce ◌+ℤ◌ ◌-ℤ◌ ◌*ℤ◌ quot
sale_applies = refl

compute_order_application_idempotent_example :
    compute_order_application sale sell_side "USDT" "BTC" sold_out
      (applied_after sale_result)
      (pos 0)
    ≡ ok (unchanged sold_out true (applied_after sale_result) order_filled)
compute_order_application_idempotent_example =
    compute_order_application_idempotent whole-IsOrdered whole-HasSignedDifference sale sell_side
      "USDT" "BTC" holding none_applied (pos 0) sale_applies

compute_order_application_monotone_example :
    (ltb_ℤ (pos 5) (pos 0) ≡ false)
    × (ltb_ℤ (pos 60) (pos 0) ≡ false)
    × (ltb_ℤ (pos 0) (pos 5) ≡ false
        → (applied_after sale_result ≡ none_applied) × (sold_out ≡ holding))
compute_order_application_monotone_example =
    compute_order_application_monotone whole-IsOrdered whole-HasSignedDifference sale sell_side
      "USDT" "BTC" holding none_applied (pos 0) sale_applies

pending_of_stored :
    IsByTime (load_open_pending "BTCUSDT" stored)
    × Perm
        (load_open_pending "BTCUSDT" stored)
        (keep (λ p. str_eq p.symbol "BTCUSDT" && is_submitted p.status) stored.pendings)
pending_of_stored = load_open_pending_lists "BTCUSDT" stored

sale_is_written :
    apply_order_result_atomically none "BTCUSDT" "USDT" "BTC" sale (pos 0) 200_000 stored
    ≡ (ok sale_result, settled)
unfolding apply_order_result_atomically commit_or_roll_back apply_statements get_pending
    load_portfolio save_portfolio lookup insert compute_order_application is_inconsistent
    is_terminal_status journal_event_by_status xor apply_delta compute_commission_buckets add_fills
    add_fill apply_fill_delta apply_sell entry_price reduce ◌+ℤ◌ ◌-ℤ◌ ◌*ℤ◌ quot
sale_is_written = refl

apply_order_result_atomically_writes_example :
    ((pending : PendingOrder ℤ) × (portfolio : PortfolioState ℤ) × (get_pending "ta-1" stored
        ≡ some pending)
      × (load_portfolio "BTCUSDT" stored ≡ some portfolio)
      × (compute_order_application sale pending.side "USDT" "BTC" portfolio pending.applied (pos 0)
          ≡ ok sale_result)
      × (get_pending "ta-1" settled
          ≡ some (record pending {
            applied = applied_after sale_result;
            status = resolved;
            resolved_order_status = some filled;
            resolved_at_ms = some 200_000;
          })))
    × (load_portfolio "BTCUSDT" settled ≡ some sold_out)
    × ((other : String)
        → other ≢ "BTCUSDT"
        → load_portfolio other settled ≡ load_portfolio other stored)
    × ((other : String) → other ≢ "ta-1" → get_pending other settled ≡ get_pending other stored)
apply_order_result_atomically_writes_example =
    apply_order_result_atomically_writes none "BTCUSDT" "USDT" "BTC" sale (pos 0) 200_000 stored
      sale_is_written

apply_order_result_atomically_twice_example :
    apply_order_result_atomically none "BTCUSDT" "USDT" "BTC" sale (pos 0) 200_000 settled
    ≡ (ok (unchanged sold_out true (applied_after sale_result) order_filled), settled)
apply_order_result_atomically_twice_example =
    apply_order_result_atomically_twice whole-IsOrdered whole-HasSignedDifference "BTCUSDT" "USDT"
      "BTC" sale (pos 0) 200_000 stored sale_is_written

crash_before_commit :
    apply_order_result_atomically
      (some before_commit)
      "BTCUSDT"
      "USDT"
      "BTC"
      sale
      (pos 0)
      200_000
      stored
    ≡ (raise injected_fault, stored)
unfolding apply_order_result_atomically commit_or_roll_back apply_statements get_pending
    load_portfolio save_portfolio lookup insert compute_order_application is_inconsistent
    is_terminal_status journal_event_by_status xor apply_delta compute_commission_buckets add_fills
    add_fill apply_fill_delta apply_sell entry_price reduce ◌+ℤ◌ ◌-ℤ◌ ◌*ℤ◌ quot
crash_before_commit = refl

apply_order_result_atomically_raises_example :
    (Fails (some before_commit) "BTCUSDT" "USDT" "BTC" sale (pos 0) stored injected_fault
      → apply_order_result_atomically
          (some before_commit)
          "BTCUSDT"
          "USDT"
          "BTC"
          sale
          (pos 0)
          200_000
          stored
        ≡ (raise injected_fault, stored))
    × ((after : ExecutionStateStore ℤ)
        → apply_order_result_atomically
            (some before_commit)
            "BTCUSDT"
            "USDT"
            "BTC"
            sale
            (pos 0)
            200_000
            stored
          ≡ (raise injected_fault, after)
        → (after ≡ stored)
          × Fails (some before_commit) "BTCUSDT" "USDT" "BTC" sale (pos 0) stored injected_fault)
apply_order_result_atomically_raises_example =
    apply_order_result_atomically_raises (some before_commit) "BTCUSDT" "USDT" "BTC" sale (pos 0)
      200_000 stored injected_fault
