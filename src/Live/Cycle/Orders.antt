-- ===== src/Live/Cycle/Orders.antt =====
-- What a whole cycle may send to the exchange.
use binance_testnet_trading.Base.{
  List, Option-cases, Result, String, false, inl, inr, last?, none, ok, raise, refl, ℕ, ◌≡◌, ◌⊎◌,
}
use binance_testnet_trading.Base.Exec.{pure}
use binance_testnet_trading.Numbers.{Decimals, Floats}
use binance_testnet_trading.Live.{Call, RiskState, World, journal_record}
use binance_testnet_trading.Live.Placing.{
  Quiet, Ran, Same, branch-Ran, continue-Ran, journal_record-Quiet, on_store-Quiet, orders, quietly,
}
use binance_testnet_trading.Live.Reconcile.Queries.{
  reconcile_balances-Quiet, reconcile_initial_portfolio-Quiet, reconcile_pending_orders-Quiet,
}
use binance_testnet_trading.Live.Selling.{CycleInput, SellContext}
use binance_testnet_trading.Live.Selling.Attempts.{Sells, finish-Quiet, sell-MaySell}
use binance_testnet_trading.Live.Cycle.{
  act_on, after_prepare, observe, run_prepared, run_testnet_cycle, seed_portfolio,
  strategy_or_crash, suppress,
}
use binance_testnet_trading.Live.Signals.{
  PrepareError, Prepared, clock_drift, data_problem, prepare,
}
use binance_testnet_trading.Portfolio.{sell_side}
use binance_testnet_trading.Execution.Symbols.{base_asset, quote_asset}
use binance_testnet_trading.Strategy.{SignalType, buy, exit, generate_signal, hold, new_strategy}
use binance_testnet_trading.Reasons.{ReasonCode}
use binance_testnet_trading.Data.{Candle}
use binance_testnet_trading.Store.{load_portfolio}
use binance_testnet_trading.Execution.Orders.{reconciliation_discrepancy}
use binance_testnet_trading.Execution.ClientOrderId.{generate_client_order_id}

module _ {D F : Type 0} ⦃num : Decimals D⦄ ⦃flo : Floats D F⦄ (input : CycleInput D F) where
  -- No order, or at most two of the same sale, with no kill switch engaged; the identifier is that of
  -- the symbol and of one candle's close time.
  abbrev pub MayTrade : List (Call D) → List (Call D) → Type 0
  MayTrade before after =
      (after ≡ before)
      ⊎ ((input.is_kill_switch_engaged ≡ false)
          × ((close_time : ℕ) × Sells input.config.symbol
                (generate_client_order_id input.sha256_hexdigest input.decimal_text
                  input.config.symbol sell_side close_time)
                before after))

  still : (x : List (Call D)) → MayTrade x x
  still x = inl refl

  suppress-Quiet :
      (state : RiskState D F) (reason : ReasonCode) → Quiet (suppress input state reason)
  unfolding suppress
  suppress-Quiet state reason w =
      quietly (journal_record-Quiet _ _ w) (λ x u. finish-Quiet _ _ _ _ u)

  act_on-MayTrade :
      (now : SellContext D F) (kind : SignalType) (reason : ReasonCode) (w : World D F)
      → Ran MayTrade (orders w) (act_on input now kind reason w)
  unfolding act_on
  act_on-MayTrade now hold reason w = record { related = inl (finish-Quiet _ _ _ _ w).related }
  act_on-MayTrade now buy reason w = record { related = inl (suppress-Quiet _ _ w).related }
  act_on-MayTrade now exit reason w =
      branch-Ran MayTrade now.reconciliation_blocked _ _ w
        (record { related = inl (suppress-Quiet _ _ w).related })
        (record {
          related = elim (sell-MaySell input now w).related [
            | inl none_sent ↦ inl none_sent
            | inr (unstopped, reconciled, sells) ↦ inr (unstopped, (_, sells))
          ];
        })

  observe-MayTrade :
      (quote base : String) (prepared : Prepared D) (last_candle : Candle D) (w : World D F)
      → Ran MayTrade (orders w) (observe input quote base prepared last_candle w)
  unfolding observe
  observe-MayTrade quote base prepared last_candle w =
      let periods = new_strategy input.config.ema_fast input.config.ema_slow in
      elim (Option-cases (load_portfolio input.config.symbol w.store)) [
        | inl unseeded ↦ rw unseeded (record { related = inl refl })
        | inr (portfolio, stored) ↦ rw stored (
            continue-Ran MayTrade still (reconcile_balances-Quiet input.exchange _ _ quote base w)
              (λ ok u.
                continue-Ran MayTrade still
                  (branch-Ran Same ok (pure tt) (journal_record reconciliation_discrepancy none) u
                    (record { related = refl }) (journal_record-Quiet _ _ u))
                  (λ x v. elim (Option-cases periods) [
                    | inl too_short ↦ rw too_short (record { related = inl refl })
                    | inr (spans, accepted) ↦
                        let made = strategy_or_crash (
                          generate_signal input.ema spans prepared.candles
                            portfolio.position_side) in
                        rw accepted (
                          continue-Ran MayTrade {run = (made, v)} still (record { related = refl })
                            (λ s y.
                              continue-Ran MayTrade still (journal_record-Quiet _ _ y)
                                (λ z t. act_on-MayTrade _ s.type s.reason_code t)))
                  ])))
      ]

  seed_portfolio-Quiet :
      (quote base : String) (prepared : Prepared D)
      → Quiet (seed_portfolio input quote base prepared)
  unfolding seed_portfolio
  seed_portfolio-Quiet quote base prepared w =
      elim (Option-cases (load_portfolio input.config.symbol w.store)) [
        | inl unseeded ↦ rw unseeded (
            quietly (reconcile_initial_portfolio-Quiet input.exchange quote base prepared.filters w)
              (λ portfolio u. on_store-Quiet _ u))
        | inr (portfolio, stored) ↦ rw stored (record { related = refl })
      ]

  run_prepared-MayTrade :
      (quote base : String) (prepared : Prepared D) (w : World D F)
      → Ran MayTrade (orders w) (run_prepared input quote base prepared w)
  unfolding run_prepared
  run_prepared-MayTrade quote base prepared w = elim (Option-cases (last? prepared.candles)) [
    | inl no_candle ↦ rw no_candle (record { related = inl refl })
    | inr (last_candle, found) ↦ rw found (
        continue-Ran MayTrade still (seed_portfolio-Quiet quote base prepared w) (λ x u.
          continue-Ran MayTrade still (reconcile_pending_orders-Quiet input.exchange _ _ _ _ _ u)
            (λ blocked v.
              branch-Ran MayTrade blocked _ _ v (record { related = inl refl })
                (observe-MayTrade quote base prepared last_candle v))))
  ]

  after_prepare-MayTrade :
      (quote base : String) (r : Result PrepareError (Prepared D)) (w : World D F)
      → Ran MayTrade (orders w) (after_prepare input quote base r w)
  unfolding after_prepare
  after_prepare-MayTrade quote base (ok prepared) w = run_prepared-MayTrade quote base prepared w
  after_prepare-MayTrade quote base (raise clock_drift) w =
      continue-Ran MayTrade still (journal_record-Quiet _ _ w)
        (λ x u. record { related = inl refl })
  after_prepare-MayTrade quote base (raise data_problem) w =
      continue-Ran MayTrade still (journal_record-Quiet _ _ w)
        (λ x u. record { related = inl refl })

  -- Whatever the exchange, its market data, the stores and the journal hold, and whether the cycle
  -- returns or raises: it places no order, or one sale, or the same sale twice. No purchase is ever
  -- placed, and nothing at all while the kill switch is engaged.
  pub run_testnet_cycle_places :
      (w : World D F) → MayTrade (orders w) (orders (run_testnet_cycle input w).1)
  unfolding run_testnet_cycle
  run_testnet_cycle_places w =
      let market = prepare input.config input.market input.exchange_info input.local_time_ms in
      elim (Option-cases (quote_asset input.config.symbol)) [
        | inl unknown_quote ↦ rw unknown_quote (inl refl)
        | inr (quote, q) ↦ elim (Option-cases (base_asset input.config.symbol)) [
          | inl unknown_base ↦ rw (q, unknown_base) (inl refl)
          | inr (base, b) ↦ rw (q, b) (after_prepare-MayTrade quote base market w).related
        ]
      ]
